-- ===== src/Frontend/Pragma/Reports.antt =====
-- The reports of comments that no case statement reads: src/frontend/slang_pragma.cpp.
use abys.Prelude.{
  inl, inr, ℕ, ◌≡◌, refl, sym, ap, ◌∙◌, ◌==◌, Bool, true, false, ◌&&◌, ◌||◌, not, Option, some,
  List, [], ◌∷◌, ◌++◌, if◌then◌else◌, Bool-cases, arith,
}
use abys.Prelude.Text.{Text, text}
use abys.Diagnostics.{DiagnosticId, Entry, warning_level, ◌<>◌}
use abys.Diagnostics.Log.{log, log-append, log-nil, log-warning}
use abys.Frontend.Pragma.{
  normalize_pragma_comment, is_synthesis_pragma_prefix, is_synthesis_comment,
}
use abys.Frontend.Pragma.Words.{synthesis_comment_lem, starts_pragma}
use abys.Frontend.Pragma.Collect.{
  Trivia, is_end_of_line, is_comment, note_handled, AttributeSpec, Location, PragmaInfo,
  PragmaCollector, is_handled, is_option, scan_words, scan_comment, scan_one, scan_trivia,
  scan_item, words_of, handle_case, location_text, report_comment, visit_token,
}

-- a comment that begins with the prefix of a pragma
abbrev pub is_pragma : Trivia → Bool
is_pragma t = is_synthesis_comment (normalize_pragma_comment (text t.raw))

pub any_option : List Text → Bool
any_option [] = false
any_option (word ∷ rest) = is_option word || any_option rest

abbrev pub behind : List Text → List Text
behind [] = []
behind (word ∷ rest) = rest

abbrev pub has_option : Trivia → Bool
has_option t = is_pragma t && any_option (behind (words_of t))

-- The address is that of a comment before the end of the line that begins with a prefix and has an
-- option behind it.
pub is_read : ℕ → List Trivia → Bool
is_read a [] = false
is_read a (t ∷ rest) =
    let later = is_read a rest in
    not (is_end_of_line t.kind)
    && ((is_comment t.kind && (a == t.address && has_option t)) || later)

scan_words_lem :
    (ws : List Text) (info : PragmaInfo) (handled : Bool)
    → (scan_words ws (info, handled)).1 ≡ (handled || any_option ws)
unfolding scan_words any_option
scan_words_lem [] info handled = ground arith
scan_words_lem (word ∷ rest) info handled =
    scan_words_lem rest _ (handled || is_option word) ∙ ground arith

scan_comment_lem :
    (ws : List Text) (info : PragmaInfo)
    → (scan_comment ws info).1 ≡ (starts_pragma ws && any_option (behind ws))
unfolding scan_comment
scan_comment_lem [] info = refl
scan_comment_lem (word ∷ rest) info = elim (Bool-cases (is_synthesis_pragma_prefix word)) [
  | inl e ↦ rw e (scan_words_lem rest info false)
  | inr e ↦ rw e refl
]

noted :
    (a address : ℕ) (info : PragmaInfo) (handled : Bool) (addresses : List ℕ)
    → is_handled a (note_handled (info, handled) address addresses).1
      ≡ ((a == address && handled) || is_handled a addresses)
unfolding is_handled
noted a address info true addresses = ground arith
noted a address info false addresses = ground arith

scan_one_lem :
    (a : ℕ) (t : Trivia) (found : PragmaInfo × List ℕ)
    → is_handled a (scan_one t found).1 ≡ ((a == t.address && has_option t) || is_handled a found.1)
unfolding scan_one
scan_one_lem a t (info, addresses) =
    noted a t.address (scan_comment (words_of t) info).0 (scan_comment (words_of t) info).1
      addresses
    ∙ ap (λ b. (a == t.address && b) || is_handled a addresses)
        (scan_comment_lem (words_of t) info
          ∙ ap (λ b. b && any_option (behind (words_of t)))
              (sym (synthesis_comment_lem (text t.raw))))

scan_trivia_lem :
    (a : ℕ) (trivia : List Trivia) (found : PragmaInfo × List ℕ)
    → is_handled a (scan_trivia trivia found).1 ≡ (is_read a trivia || is_handled a found.1)
unfolding scan_trivia is_read
scan_trivia_lem a [] found = refl
scan_trivia_lem a (t ∷ rest) found = elim (Bool-cases (is_end_of_line t.kind)) [
  | inl e ↦ rw e refl
  | inr e ↦ elim (Bool-cases (is_comment t.kind)) [
    | inl e' ↦
        rw (e, e')
          (scan_trivia_lem a rest (scan_one t found)
            ∙ ap (λ b. is_read a rest || b) (scan_one_lem a t found)
            ∙ shuffle (is_read a rest) (a == t.address && has_option t) (is_handled a found.1))
    | inr e' ↦ rw (e, e') (scan_trivia_lem a rest found)
  ]
]
  where
    shuffle : (p q r : Bool) → (p || (q || r)) ≡ ((q || p) || r)
    shuffle p q r = ground arith

-- The entries for comments of a token, where some addresses were handled.
abbrev pub comment_entry : Option Location → Trivia → Entry
comment_entry loc t = record {
  level = warning_level;
  id = DiagnosticId.frontend_unhandled_synthesis_comment;
  detail = location_text loc <> t.raw;
}

abbrev own_entries : Bool → Option Location → Trivia → List Entry
own_entries handled loc t =
    if is_comment t.kind && (not handled && is_pragma t) then comment_entry loc t ∷ [] else []

pub comment_entries : (ℕ → Bool) → Option Location → List Trivia → List Entry
comment_entries handled loc [] = []
comment_entries handled loc (t ∷ rest) =
    own_entries (handled t.address) loc t ++ comment_entries handled loc rest

-- what the visit of one trivia does
abbrev visited : Option Location → Trivia → PragmaCollector → PragmaCollector
visited loc t c = if is_comment t.kind then report_comment loc t c else c

visited_lem :
    (loc : Option Location) (t : Trivia) (c : PragmaCollector)
    → ((visited loc t c).diagnostics
        ≡ log (own_entries (is_handled t.address c.handled_comments) loc t) c.diagnostics)
      × ((visited loc t c).handled_comments ≡ c.handled_comments)
unfolding report_comment
visited_lem loc t c = elim (Bool-cases (is_comment t.kind)) [
  | inr e ↦ rw e (sym (log-nil c.diagnostics), refl)
  | inl e ↦ elim (Bool-cases (is_handled t.address c.handled_comments)) [
    | inl h ↦ rw (e, h) (sym (log-nil c.diagnostics), refl)
    | inr h ↦ elim (Bool-cases (is_pragma t)) [
      | inl p ↦ rw (e, h, p) (sym (log-warning _ _ c.diagnostics), refl)
      | inr p ↦ rw (e, h, p) (sym (log-nil c.diagnostics), refl)
    ]
  ]
]

visit_token_lem :
    (handled : ℕ → Bool) (loc : Option Location) (trivia : List Trivia) (c : PragmaCollector)
    → ((a : ℕ) → is_handled a c.handled_comments ≡ handled a)
    → (visit_token loc trivia c).diagnostics
      ≡ log (comment_entries handled loc trivia) c.diagnostics
unfolding visit_token comment_entries
visit_token_lem handled loc [] c h = sym (log-nil c.diagnostics)
visit_token_lem handled loc (t ∷ rest) c h =
    let (logged, kept) = visited_lem loc t c in
    visit_token_lem handled loc rest (visited loc t c) (λ a. ap (is_handled a) kept ∙ h a)
    ∙ ap (log (comment_entries handled loc rest))
        (logged ∙ ap (λ b. log (own_entries b loc t) c.diagnostics) (h t.address))
    ∙ sym (
        log-append (own_entries (handled t.address) loc t) (comment_entries handled loc rest)
          c.diagnostics)

-- A case statement whose visit meets only the first token of its first item adds exactly these
-- warnings, in order: one for each comment of the token that begins with the prefix of a pragma and
-- whose address was neither noted before nor is that of a comment before the end of the line that
-- begins with a prefix and has an option behind it.
pub handle_case_comments :
    (address : ℕ) (attributes : List AttributeSpec) (trivia : List Trivia) (loc : Option Location)
    (c : PragmaCollector)
    → (handle_case address attributes (some trivia) (visit_token loc trivia) c).diagnostics
      ≡ log
          (comment_entries (λ a. is_read a trivia || is_handled a c.handled_comments) loc trivia)
          c.diagnostics
unfolding handle_case scan_item
handle_case_comments address attributes trivia loc c =
    visit_token_lem (λ a. is_read a trivia || is_handled a c.handled_comments) loc trivia _
      (λ a. scan_trivia_lem a trivia _)
