-- ===== src/Stmt/Clock.antt =====
-- The inference of clock and reset in src/ir/stmt_builder.cpp.
use abys.Prelude.{
  ◌<◌, ◌≡◌, ◌⊎◌, ◌↔◌, refl, ◌∙◌, ap, str_eq, String, Bool, true, false, Option, some, none, List,
  [], ◌∷◌, All, inl, inr, length,
}
use abys.Diagnostics.{DiagnosticId}
use abys.Expr.Graph.{ExprId, invalid_id}
use abys.Expr.Valid.{IsWellFormed}
use abys.Expr.Dependency.{Depends, check_dependency_lem}
use abys.Stmt.Builder.{StmtBuilder, TimingEvent, report_error}
use abys.Stmt.Timing.{
  Signal, TimingSpec, event_input, is_used, assign_events, spec_of_events, get_timing_spec,
}

-- The outputs are nodes that are there, or left out.
abbrev pub AreThere : StmtBuilder → List (String × ExprId) → Type 0
AreThere s outputs = All (λ (name, id). (id ≡ invalid_id) ⊎ (id < length s.graph.nodes)) outputs

-- Some output depends on the input.
abbrev pub SomeDepends : StmtBuilder → ExprId → List (String × ExprId) → Type 0
SomeDepends s input_id [] = ⊥
SomeDepends s input_id ((name, id) ∷ rest) =
    Depends s.graph.nodes input_id id ⊎ SomeDepends s input_id rest

pub is_used_lem :
    (s : StmtBuilder) (input_id : ExprId) (outputs : List (String × ExprId))
    → IsWellFormed s.graph
    → AreThere s outputs
    → ((is_used input_id outputs s ≡ some (true, s)) × SomeDepends s input_id outputs)
      ⊎ ((is_used input_id outputs s ≡ some (false, s)) × ¬ (SomeDepends s input_id outputs))
unfolding is_used
is_used_lem s input_id [] w h = inr (refl, λ e. e)
is_used_lem s input_id ((name, id) ∷ rest) w (there, h) =
    elim (check_dependency_lem s.graph id input_id w there) [
      | inl (e, depends) ↦ inl (rw e refl, inl depends)
      | inr (e, free) ↦ elim (is_used_lem s input_id rest w h) [
        | inl (e', later) ↦ inl (rw e e', inr later)
        | inr (e', none_later) ↦
            inr (rw e e', λ some_use. elim some_use [ inl d ↦ free d | inr l ↦ none_later l ])
      ]
    ]

-- The signal that the outputs depend on is the reset and the other one the clock; two of a kind are
-- reported.
pub inferred : Bool → Bool → Signal → Signal → StmtBuilder → Option TimingSpec × StmtBuilder
inferred true false first second s = (some (record { clk = second; rst = first }), s)
inferred false true first second s = (some (record { clk = first; rst = second }), s)
inferred true true first second s = (
  none,
  report_error DiagnosticId.lowering_invalid_ff_treated_as_combinational "ambiguous reset inference"
      s,
)
inferred false false first second s = (
  none,
  report_error DiagnosticId.lowering_invalid_ff_treated_as_combinational "ambiguous clock inference"
      s,
)

-- What the references hold before: signals without a name.
pub record IsUnset (spec : TimingSpec) : Type 0 where
  pub no_clk : str_eq spec.clk.name "" ≡ true
  pub no_rst : str_eq spec.rst.name "" ≡ true

module _ (s : StmtBuilder) (outputs : List (String × ExprId)) (before : TimingSpec)
    (unset : IsUnset before) (first second : TimingEvent) (i j : ExprId) (p q : Signal)
    (named : str_eq p.name "" ≡ false) (events : s.timing_events ≡ first ∷ second ∷ [])
    (first_input : event_input first s ≡ some (some (i, p), s))
    (second_input : event_input second s ≡ some (some (j, q), s)) where
  two_events :
      (u w : Bool)
      → is_used i outputs s ≡ some (u, s)
      → is_used j outputs s ≡ some (w, s)
      → assign_events outputs (first ∷ second ∷ []) before s ≡ some (inferred u w p q s)
  unfolding assign_events inferred
  two_events true false hu hw =
      rw (first_input, hu, unset.no_rst, second_input, hw, unset.no_clk) refl
  two_events false true hu hw =
      rw (first_input, hu, unset.no_clk, second_input, hw, unset.no_rst) refl
  two_events true true hu hw = rw (first_input, hu, unset.no_rst, second_input, hw, named) refl
  two_events false false hu hw = rw (first_input, hu, unset.no_clk, second_input, hw, named) refl

  by_events :
      (u w : Bool)
      → is_used i outputs s ≡ some (u, s)
      → is_used j outputs s ≡ some (w, s)
      → get_timing_spec outputs before s ≡ some (inferred u w p q s)
  unfolding get_timing_spec
  by_events u w hu hw = ap (λ l. spec_of_events outputs before l s) events ∙ two_events u w hu hw

  -- For a process with two timing events whose inputs are found, the first of them with a name, a
  -- well-formed graph, outputs that are there or left out, and no signal set before, the inference
  -- answers by whether some output depends on each input: where one of them is depended on it is the
  -- reset and the other one the clock, and where both or none are, the ambiguity is reported and
  -- there is no answer.
  pub get_timing_spec_lem :
      IsWellFormed s.graph
      → AreThere s outputs
      → (u : Bool) × (w : Bool) × (u ≡ true ↔ SomeDepends s i outputs)
        × (w ≡ true ↔ SomeDepends s j outputs)
        × (get_timing_spec outputs before s ≡ some (inferred u w p q s))
  get_timing_spec_lem w there =
      let (u, hu, iu) = decide (is_used_lem s i outputs w there) in
      let (k, hk, ik) = decide (is_used_lem s j outputs w there) in
      (u, k, iu, ik, by_events u k hu hk)
    where
      decide :
          {D : Type 0} {o : Option (Bool × StmtBuilder)}
          → ((o ≡ some (true, s)) × D) ⊎ ((o ≡ some (false, s)) × ¬ D)
          → (u : Bool) × (o ≡ some (u, s)) × (u ≡ true ↔ D)
      decide (inl (e, d)) = (true, e, (λ h. d, λ h. refl))
      decide (inr (e, free)) = (false, e, (λ h. absurd (cc), λ d. absurd (free d)))
