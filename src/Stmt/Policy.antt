-- ===== src/Stmt/Policy.antt =====
-- The policy of a process as a state machine over its timing events: src/ir/stmt_builder.cpp.
use mathlib.Core.List.{append-nil, append_assoc}
use abys.Prelude.{
  ◌+◌, ◌≡◌, refl, sym, ◌∙◌, ap, Bool, true, false, ◌&&◌, not, List, [], ◌∷◌, ◌++◌, arith,
  if◌then◌else◌, Bool-cases, inl, inr, length, length-append,
}
use abys.Diagnostics.{warning, error}
use abys.Expr.Graph.{ExprId}
use abys.Stmt.Builder.{
  StmtBuilder, TimingEvent, Policy, is_level, edge_kind, add_event, add_timing, set_policy,
  report_warning, report_error,
}

-- The arguments of a call of `add_timing`.
pub record TimingCall : Type 0 where
  pub expr_id : ExprId
  pub iff_id : ExprId
  pub posedge : Bool
  pub negedge : Bool

abbrev pub event_of : TimingCall → TimingEvent
event_of c = record { edge = edge_kind c.posedge c.negedge; expr_id = c.expr_id; iff_id = c.iff_id }

abbrev pub is_level_call : TimingCall → Bool
is_level_call c = not c.posedge && not c.negedge

unfoldable pub add_timings : List TimingCall → StmtBuilder → StmtBuilder
add_timings [] s = s
add_timings (c ∷ rest) s = add_timings rest (add_timing c.expr_id c.iff_id c.posedge c.negedge s)

abbrev pub same_kind : Bool → Bool → Bool
same_kind true level = level
same_kind false level = not level

-- The events of one kind.
unfoldable pub keep : Bool → List TimingCall → List TimingEvent
keep level [] = []
keep level (c ∷ rest) =
    let later = keep level rest in
    if same_kind (is_level_call c) level then event_of c ∷ later else later

abbrev pub decided : Bool → Policy
decided level = if level then Policy.comb_or_latch else Policy.ff

level_kind :
    (posedge negedge : Bool) → is_level (edge_kind posedge negedge) ≡ (not posedge && not negedge)
unfolding edge_kind
level_kind true true = refl
level_kind true false = refl
level_kind false true = refl
level_kind false false = refl

-- A call of the kind that a process has already adds its event, any other call adds none; every call
-- that adds none adds one diagnostic.
abbrev pub Kept : Bool → List TimingCall → StmtBuilder → StmtBuilder → Type 0
Kept level calls s t =
    (t.policy ≡ decided level)
    × (t.timing_events ≡ s.timing_events ++ keep level calls)
    × (length t.diagnostics.entries + length (keep level calls)
        ≡ length s.diagnostics.entries + length calls)

next_Kept :
    (level : Bool) (c : TimingCall) (s : StmtBuilder)
    → s.policy ≡ decided level
    → Kept level (c ∷ []) s (add_timing c.expr_id c.iff_id c.posedge c.negedge s)
unfolding add_timing keep set_policy add_event report_warning report_error warning error
next_Kept true c s h = elim (Bool-cases (is_level_call c)) [
  | inl level ↦ rw (level_kind c.posedge c.negedge, level, h) (refl, refl, omega arith)
  | inr edge ↦
      rw (level_kind c.posedge c.negedge, edge, h)
        (
          refl,
          sym (append-nil s.timing_events),
          omega (arith, length-append s.diagnostics.entries (_ ∷ [])),
        )
]
next_Kept false c s h = elim (Bool-cases (is_level_call c)) [
  | inl level ↦
      rw (level_kind c.posedge c.negedge, level, h)
        (
          refl,
          sym (append-nil s.timing_events),
          omega (arith, length-append s.diagnostics.entries (_ ∷ [])),
        )
  | inr edge ↦ rw (level_kind c.posedge c.negedge, edge, h) (refl, refl, omega arith)
]

keep-cons :
    (level : Bool) (c : TimingCall) (rest : List TimingCall)
    → keep level (c ∷ rest) ≡ keep level (c ∷ []) ++ keep level rest
unfolding keep
keep-cons level c rest = elim (Bool-cases (same_kind (is_level_call c) level)) [
  | inl same ↦ rw same refl
  | inr other ↦ rw other refl
]

Kept-trans :
    (level : Bool) (c : TimingCall) (rest : List TimingCall) (s t u : StmtBuilder)
    → Kept level (c ∷ []) s t
    → Kept level rest t u
    → Kept level (c ∷ rest) s u
Kept-trans level c rest s t u (p, events, count) (p', events', count') =
    let e : keep level (c ∷ rest) ≡ keep level (c ∷ []) ++ keep level rest =
      keep-cons level c rest in
    (
      p',
      rw e (
          events'
          ∙ ap (λ l. l ++ keep level rest) events
          ∙ append_assoc s.timing_events (keep level (c ∷ [])) (keep level rest)),
      rw e (omega (arith, length-append (keep level (c ∷ [])) (keep level rest))),
    )

all_Kept :
    (level : Bool) (calls : List TimingCall) (s : StmtBuilder)
    → s.policy ≡ decided level
    → Kept level calls s (add_timings calls s)
unfolding add_timings keep
all_Kept level [] s h = (h, sym (append-nil s.timing_events), omega arith)
all_Kept level (c ∷ rest) s h =
    let t = add_timing c.expr_id c.iff_id c.posedge c.negedge s in
    let first = next_Kept level c s h in
    Kept-trans level c rest s t (add_timings rest t) first (all_Kept level rest t first.0)

first_Kept :
    (c : TimingCall) (s : StmtBuilder)
    → s.policy ≡ Policy.undecided
    → Kept (is_level_call c) (c ∷ []) s (add_timing c.expr_id c.iff_id c.posedge c.negedge s)
unfolding add_timing keep set_policy add_event
first_Kept c s h = elim (Bool-cases (is_level_call c)) [
  | inl level ↦ rw (level_kind c.posedge c.negedge, level, h) (refl, refl, omega arith)
  | inr edge ↦ rw (level_kind c.posedge c.negedge, edge, h) (refl, refl, omega arith)
]

-- The first timing event of an undecided process decides its kind: the process becomes one of flip-
-- flops for an edge and a combinational one or a latch otherwise, keeps exactly the events of that
-- kind, in order, and reports each of the others once.
pub add_timings_lem :
    (first : TimingCall) (rest : List TimingCall) (s : StmtBuilder)
    → s.policy ≡ Policy.undecided
    → Kept (is_level_call first) (first ∷ rest) s (add_timings (first ∷ rest) s)
unfolding add_timings
add_timings_lem first rest s h =
    let t = add_timing first.expr_id first.iff_id first.posedge first.negedge s in
    let start = first_Kept first s h in
    Kept-trans (is_level_call first) first rest s t (add_timings rest t) start
      (all_Kept (is_level_call first) rest t start.0)
