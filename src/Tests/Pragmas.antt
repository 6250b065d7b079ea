-- ===== src/Tests/Pragmas.antt =====
-- The pragmas in comments of src/frontend/slang_pragma.cpp, on small inputs.
use abys.Prelude.{◌≡◌, ◌||◌, none, some, List, [], ◌∷◌}
use abys.Prelude.Text.{text}
use abys.Diagnostics.Log.{log}
use abys.Frontend.Pragma.{normalize_pragma_comment, split_words, is_synthesis_comment}
use abys.Frontend.Pragma.Words.{words, starts_pragma, split_words-words, synthesis_comment_lem}
use abys.Frontend.Pragma.Collect.{
  AttributeSpec, Location, PragmaCollector, Trivia, TriviaKind, handle_case, is_handled,
  visit_token,
}
use abys.Frontend.Pragma.Reports.{is_read, comment_entries, handle_case_comments}

split_words-words_example :
    split_words (text " synopsys  full_case ") ≡ words (text " synopsys  full_case ")
split_words-words_example = split_words-words (text " synopsys  full_case ")

synthesis_comment_lem_example :
    is_synthesis_comment (normalize_pragma_comment (text "/* Synopsys full_case */"))
    ≡ starts_pragma (split_words (normalize_pragma_comment (text "/* Synopsys full_case */")))
synthesis_comment_lem_example = synthesis_comment_lem (text "/* Synopsys full_case */")

abbrev collector : PragmaCollector
collector = record {
  by_node = [];
  diagnostics = record { output = none; entries = [] };
  handled_comments = [];
  handled_attributes = [];
}

abbrev full_case : AttributeSpec
full_case = record { address = 7; name = "full_case" }

-- a comment that is read, the end of its line and one that is not
abbrev comments : List Trivia
comments =
    record { kind = TriviaKind.block_comment; address = 1; raw = "/* synopsys parallel_case */" }
    ∷ record { kind = TriviaKind.end_of_line; address = 2; raw = "" }
    ∷ record { kind = TriviaKind.line_comment; address = 3; raw = "// pragma full_case" }
    ∷ []

abbrev place : Location
place = record { file = "a.sv"; line = 3; column = 5 }

handle_case_comments_example :
    (handle_case 9
      (full_case ∷ [])
      (some comments)
      (visit_token (some place) comments)
      collector).diagnostics
    ≡ log
        (comment_entries
          (λ a. is_read a comments || is_handled a collector.handled_comments)
          (some place)
          comments)
        collector.diagnostics
handle_case_comments_example =
    handle_case_comments 9 (full_case ∷ []) comments (some place) collector
