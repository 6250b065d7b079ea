-- ===== src/Frontend/Pragma/Collect.antt =====
-- The pragmas of case statements, and the reports of those that nothing reads:
-- src/frontend/slang_pragma.cpp. What the syntax tree of the slang library holds is given by value.
use abys.Prelude.{
  ℕ, ◌==◌, String, Bool, true, false, ◌||◌, not, Option, none, some, List, [], ◌∷◌, if◌then◌else◌,
}
use abys.Prelude.Text.{Text, text, text_eq}
use abys.Diagnostics.{Diagnostics, DiagnosticId, warning, ◌<>◌}
use abys.Tig.Builder.{to_string}
use abys.Frontend.Pragma.{
  normalize_pragma_comment, split_words, is_synthesis_pragma_prefix, is_synthesis_comment,
}

pub data TriviaKind : Type 0 where
  end_of_line line_comment block_comment other : TriviaKind

abbrev pub is_end_of_line : TriviaKind → Bool
is_end_of_line TriviaKind.end_of_line = true
is_end_of_line TriviaKind.line_comment = false
is_end_of_line TriviaKind.block_comment = false
is_end_of_line TriviaKind.other = false

abbrev pub is_comment : TriviaKind → Bool
is_comment TriviaKind.end_of_line = false
is_comment TriviaKind.line_comment = true
is_comment TriviaKind.block_comment = true
is_comment TriviaKind.other = false

-- A comment is known by the address of its text, an attribute and a statement by their own.
pub record Trivia : Type 0 where
  pub kind : TriviaKind
  pub address : ℕ
  pub raw : String

pub record AttributeSpec : Type 0 where
  pub address : ℕ
  pub name : String

pub record Location : Type 0 where
  pub file : String
  pub line : ℕ
  pub column : ℕ

pub record PragmaInfo : Type 0 where
  pub full_case : Bool
  pub parallel_case : Bool

-- `pragmas_` and the diagnostics are shared by reference.
pub record PragmaCollector : Type 0 where
  pub by_node : List (ℕ × PragmaInfo)
  pub diagnostics : Diagnostics
  pub handled_comments : List ℕ
  pub handled_attributes : List ℕ

unfoldable pub is_handled : ℕ → List ℕ → Bool
is_handled a [] = false
is_handled a (b ∷ rest) = a == b || is_handled a rest

unfoldable pub is_option : Text → Bool
is_option word = text_eq word (text "full_case") || text_eq word (text "parallel_case")

unfoldable pub set_option : Text → PragmaInfo → PragmaInfo
set_option word info = record {
  full_case = info.full_case || text_eq word (text "full_case");
  parallel_case = info.parallel_case || text_eq word (text "parallel_case");
}

unfoldable pub scan_attributes : List AttributeSpec → PragmaInfo × List ℕ → PragmaInfo × List ℕ
scan_attributes [] found = found
scan_attributes (spec ∷ rest) (info, handled) = scan_attributes rest (
  set_option (text spec.name) info,
  if is_option (text spec.name) then spec.address ∷ handled else handled,
)

-- the words behind the prefix
unfoldable pub scan_words : List Text → PragmaInfo × Bool → PragmaInfo × Bool
scan_words [] found = found
scan_words (word ∷ rest) (info, handled) =
    scan_words rest (set_option word info, handled || is_option word)

unfoldable pub scan_comment : List Text → PragmaInfo → PragmaInfo × Bool
scan_comment [] info = (info, false)
scan_comment (word ∷ rest) info =
    if is_synthesis_pragma_prefix word then scan_words rest (info, false) else (info, false)

abbrev pub note_handled : PragmaInfo × Bool → ℕ → List ℕ → PragmaInfo × List ℕ
note_handled (info, handled) address addresses =
    (info, if handled then address ∷ addresses else addresses)

abbrev pub words_of : Trivia → List Text
words_of t = split_words (normalize_pragma_comment (text t.raw))

unfoldable pub scan_one : Trivia → PragmaInfo × List ℕ → PragmaInfo × List ℕ
scan_one t (info, handled) = note_handled (scan_comment (words_of t) info) t.address handled

-- the comments up to the end of the line
unfoldable pub scan_trivia : List Trivia → PragmaInfo × List ℕ → PragmaInfo × List ℕ
scan_trivia [] found = found
scan_trivia (t ∷ rest) found =
    let later = scan_trivia rest (if is_comment t.kind then scan_one t found else found) in
    if is_end_of_line t.kind then found else later

-- the trivia in front of the first item, if there is one
unfoldable pub scan_item : Option (List Trivia) → PragmaInfo × List ℕ → PragmaInfo × List ℕ
scan_item none found = found
scan_item (some trivia) found = scan_trivia trivia found

abbrev no_pragma : PragmaInfo
no_pragma = record { full_case = false; parallel_case = false }

-- `by_node[&syntax] = info`
unfoldable pub set_node : ℕ → PragmaInfo → List (ℕ × PragmaInfo) → List (ℕ × PragmaInfo)
set_node address info [] = (address, info) ∷ []
set_node address info ((key, old) ∷ rest) =
    let later = set_node address info rest in
    if key == address then (key, info) ∷ rest else (key, old) ∷ later

-- `handle` of a case statement; the visit of its children is an argument.
unfoldable pub handle_case :
    ℕ
    → List AttributeSpec
    → Option (List Trivia)
    → (PragmaCollector → PragmaCollector)
    → PragmaCollector
    → PragmaCollector
handle_case address attributes item visit_default c =
    let (info, attributes') = scan_attributes attributes (no_pragma, c.handled_attributes) in
    let (info', comments') = scan_item item (info, c.handled_comments) in
    visit_default (record {
      by_node =
          if info'.full_case || info'.parallel_case
          then set_node address info' c.by_node
          else c.by_node;
      diagnostics = c.diagnostics;
      handled_comments = comments';
      handled_attributes = attributes';
    })

-- An invalid location is `none`.
unfoldable pub location_text : Option Location → String
location_text none = ""
location_text (some loc) =
    "at " <> (loc.file <> (":" <> (to_string loc.line <> (":" <> (to_string loc.column <> ": ")))))

-- `handle` of an attribute
unfoldable pub handle_attribute :
    AttributeSpec
    → Option Location
    → (PragmaCollector → PragmaCollector)
    → PragmaCollector
    → PragmaCollector
handle_attribute spec loc visit_default c = visit_default (
    if is_handled spec.address c.handled_attributes then c else record c {
      diagnostics =
          warning DiagnosticId.frontend_unhandled_synthesis_attribute
            (location_text loc <> spec.name) c.diagnostics;
    })

unfoldable pub report_comment : Option Location → Trivia → PragmaCollector → PragmaCollector
report_comment loc t c =
    if is_handled t.address c.handled_comments
      || not (is_synthesis_comment (normalize_pragma_comment (text t.raw)))
    then c
    else record c {
      diagnostics =
          warning DiagnosticId.frontend_unhandled_synthesis_comment (location_text loc <> t.raw)
            c.diagnostics;
    }

unfoldable pub visit_token : Option Location → List Trivia → PragmaCollector → PragmaCollector
visit_token loc [] c = c
visit_token loc (t ∷ rest) c =
    visit_token loc rest (if is_comment t.kind then report_comment loc t c else c)

-- The visits of the syntax trees, each by a collector of its own.
unfoldable pub collect_pragmas :
    List (PragmaCollector → PragmaCollector)
    → List (ℕ × PragmaInfo)
    → Diagnostics
    → List (ℕ × PragmaInfo) × Diagnostics
collect_pragmas [] by_node d = (by_node, d)
collect_pragmas (visit ∷ rest) by_node d =
    let c = visit (record {
      by_node = by_node;
      diagnostics = d;
      handled_comments = [];
      handled_attributes = [];
    }) in
    collect_pragmas rest c.by_node c.diagnostics
