-- ===== src/Tig/Calls/Ends.antt =====
-- The end of `flatten_calls` in src/ir/tig_builder.cpp, for subroutines that do not call themselves.
use native.Mathlib.Decide.{ℕ_discrete}
use mathlib.Core.Option.{some-injective}
use abys.Prelude.{
  ℕ, zero, suc, ◌+◌, ◌≤◌, ◌≡◌, ◌⊎◌, inl, inr, refl, sym, ap, ◌∙◌, Bool, true, false, Option, none,
  some, List, [], ◌∷◌, All, length, get_elem?, lt_of_get_elem?, arith, Option-cases, Bool-cases,
}
use abys.Run.{Run, pure, Returns, Returns-Whenever, bind-Returns}
use abys.Diagnostics.{Diagnostics}
use abys.Expr.Graph.{ExprGraph, ExprId, SubrId, Call, id_limit}
use abys.Tig.Graph.{Subroutine, Node, Module}
use abys.Tig.Builder.{TigBuilder}
use abys.Tig.Builder.Inline.{Inlining, inline_call}
use abys.Tig.Builder.Flatten.{
  inline_calls, flatten_node, flatten_each, keep_first, keep_rest, ended, flatten_result,
  with_module_nodes, flatten_module, flatten_calls,
}
use abys.Tig.Calls.{is_call, IsListed, AreListed, HasNoCall, CanBeCopied, cost_from, IsCost}
use abys.Tig.Calls.Map.{cost_from-step}
use abys.Tig.Calls.Inlined.{Going, Gone}
use abys.Tig.Calls.Grows.{Grows, IsCalled, IsExtension, IsExtension-cleared}
use abys.Tig.Calls.Kept.{inline_calls-Grows, starts-Grows}
use abys.Tig.Calls.Inlines.{inline_call-Gone}

-- No call is left where no call is listed.
all_done : (i : ℕ) (g : ExprGraph) → AreListed i g → length g.calls ≤ i → HasNoCall g.nodes
all_done i g l le id node h = elim (Bool-cases (is_call node)) [
  | inl e ↦ absurd (late (l.listed id node h e))
  | inr e ↦ e
]
  where
    late : IsListed i g.calls id → ⊥
    late (j, call, lej, there, e) = omega (arith, lt_of_get_elem? g.calls j there)

none-le : (i : ℕ) (calls : List Call) → get_elem? calls i ≡ none → length calls ≤ i
none-le i [] h = omega arith
none-le zero (c ∷ calls) h = cc
none-le (suc i) (c ∷ calls) h = omega (arith, none-le i calls h)

module _ (cost : SubrId → ℕ) where
  spent : (i : ℕ) (calls : List Call) → cost_from cost i calls ≤ 0 → length calls ≤ i
  spent i calls h = elim (Option-cases (get_elem? calls i)) [
    | inl e ↦ none-le i calls e
    | inr (call, e) ↦ absurd (omega (arith, cost_from-step cost i calls call e))
  ]

  module _ (subroutines : List Subroutine)
      (copied : (id : SubrId) (subr : Subroutine)
        → get_elem? subroutines id ≡ some subr
        → CanBeCopied subr.expr_graph)
      (costs : IsCost cost subroutines) where
    -- The state of a round that begins.
    starts :
        (fuel i : ℕ) (call : Call) (s : Inlining)
        → AreListed i s.graph
        → length s.graph.nodes + cost_from cost i s.graph.calls ≤ id_limit
        → cost_from cost i s.graph.calls ≤ suc fuel
        → get_elem? s.graph.calls i ≡ some call
        → Going cost i call.id fuel (cost call.subr_id) s
    starts fuel i call s l room ends e =
        let step = cost_from-step cost i s.graph.calls call e in
        record {
          there = l.there;
          listed = λ id node h c. later id (l.listed id node h c);
          here = l.there i call e;
          at = lt_of_get_elem? s.graph.calls i e;
          room = omega (arith, step, room);
          ends = omega (arith, step, ends);
        }
      where
        same : (id : ExprId) (d : Call) → d ≡ call → d.id ≡ id → id ≡ call.id
        same id d e' e'' = sym e'' ∙ ap (λ (c : Call). c.id) e'

        later :
            (id : ExprId)
            → IsListed i s.graph.calls id
            → (id ≡ call.id) ⊎ IsListed (suc i) s.graph.calls id
        later id (j, d, le, there, e') = elim (ℕ_discrete j i) [
          | yes eq ↦ inl (
              same id d (some-injective d call (sym there ∙ ap (get_elem? s.graph.calls) eq ∙ e))
                e')
          | no ne ↦ inr (j, d, omega arith, there, e')
        ]

    inline_calls_ends :
        (fuel i : ℕ) (s : Inlining)
        → AreListed i s.graph
        → length s.graph.nodes + cost_from cost i s.graph.calls ≤ id_limit
        → cost_from cost i s.graph.calls ≤ fuel
        → Returns
            (λ done t. (done ≡ true) × HasNoCall t.graph.nodes × (length t.graph.nodes ≤ id_limit))
            (inline_calls subroutines fuel i s)
    unfolding inline_calls
    inline_calls_ends zero i s l room ends =
        let le = spent i s.graph.calls ends in
        (ground arith, all_done i s.graph l le, omega (arith, room))
    inline_calls_ends (suc fuel) i s l room ends = elim (Option-cases (get_elem? s.graph.calls i)) [
      | inl e ↦
          rw (e, Returns)
            (refl, all_done i s.graph l (none-le i s.graph.calls e), omega (arith, room))
      | inr (call, e) ↦
          rw (e, Returns)
            (bind-Returns
              (λ done t.
                (done ≡ true) × HasNoCall t.graph.nodes × (length t.graph.nodes ≤ id_limit))
              (λ r t. Gone cost i call.id fuel t) (inline_call subroutines call)
              (λ r. inline_calls subroutines fuel (suc i)) s
              (inline_call-Gone cost i call.id fuel subroutines call s refl copied costs
                (starts fuel i call s l room ends e))
              (λ r t g. inline_calls_ends fuel (suc i) t g.are_listed g.room g.ends))
    ]

-- The items of two lists, one by one.
module _ {A : Type 0} (Q : A → A → Type 0) where
  abbrev pub Zipped : List A → List A → Type 0
  Zipped [] [] = Unit
  Zipped [] (y ∷ ys) = ⊥
  Zipped (x ∷ xs) [] = ⊥
  Zipped (x ∷ xs) (y ∷ ys) = Q x y × Zipped xs ys

  -- There is a result, and it is related to the item.
  abbrev Yields : A → Option A → Type 0
  Yields x none = ⊥
  Yields x (some y) = Q x y

  abbrev YieldsAll : List A → Option (List A) → Type 0
  YieldsAll xs none = ⊥
  YieldsAll xs (some ys) = Zipped xs ys

  keep_first_lem :
      (x : A) (xs : List A) (rest : Run Diagnostics (Option (List A))) (r : Option A)
      (e : Diagnostics)
      → Yields x r
      → Returns (λ ys e. YieldsAll xs ys) (rest e)
      → Returns (λ ys e. YieldsAll (x ∷ xs) ys) (keep_first r rest e)
  unfolding keep_first
  keep_first_lem x xs rest none e z h = absurd z
  keep_first_lem x xs rest (some y) e z h =
      bind-Returns (λ ys e. YieldsAll (x ∷ xs) ys) (λ ys e. YieldsAll xs ys) rest
        (λ ys. pure (keep_rest y ys)) e h (kept y z)
    where
      kept :
          (y : A)
          → Q x y
          → (ys : Option (List A)) (e : Diagnostics) → YieldsAll xs ys
          → YieldsAll (x ∷ xs) (keep_rest y ys)
      kept y q none e z = absurd z
      kept y q (some ys) e z = (q, z)

  module _ (P : A → Type 0) (body : A → Run Diagnostics (Option A))
      (h : (x : A) (d : Diagnostics) → P x → Returns (λ r e. Yields x r) (body x d)) where
    flatten_each_lem :
        (xs : List A) (d : Diagnostics)
        → All P xs
        → Returns (λ r e. YieldsAll xs r) (flatten_each body xs d)
    unfolding flatten_each
    flatten_each_lem [] d p = tt
    flatten_each_lem (x ∷ xs) d p =
        bind-Returns (λ r e. YieldsAll (x ∷ xs) r) (λ r e. Yields x r) (body x)
          (λ r. keep_first r (flatten_each body xs)) d (h x d p.0)
          (λ r e z. keep_first_lem x xs (flatten_each body xs) r e z (flatten_each_lem xs e p.1))

-- What a node is when its calls are replaced: it has none, all but its graph is as before, and its graph
-- extends the one before.
abbrev pub IsFlatOf : Node → Node → Type 0
IsFlatOf old new =
    (new ≡ record old { expr_graph = new.expr_graph })
    × (HasNoCall new.expr_graph.nodes)
    × (new.expr_graph.calls ≡ [])
    × IsExtension old.expr_graph new.expr_graph

abbrev pub IsFlatModuleOf : Module → Module → Type 0
IsFlatModuleOf old new =
    (new ≡ record old { nodes = new.nodes }) × Zipped IsFlatOf old.nodes new.nodes

-- The calls of a node are listed, and what they cost is in the fuel and leaves room for identifiers.
abbrev pub IsWithin : (SubrId → ℕ) → ℕ → Node → Type 0
IsWithin cost fuel node =
    AreListed 0 node.expr_graph
    × (length node.expr_graph.nodes + cost_from cost 0 node.expr_graph.calls ≤ id_limit)
    × (cost_from cost 0 node.expr_graph.calls ≤ fuel)

module _ (cost : SubrId → ℕ) (fuel : ℕ) (subroutines : List Subroutine)
    (copied : (id : SubrId) (subr : Subroutine)
      → get_elem? subroutines id ≡ some subr
      → CanBeCopied subr.expr_graph)
    (costs : IsCost cost subroutines) where
  flatten_node_lem :
      (node : Node) (d : Diagnostics)
      → IsWithin cost fuel node
      → Returns (λ r e. Yields IsFlatOf node r) (flatten_node subroutines fuel node d)
  unfolding flatten_node
  flatten_node_lem node d (l, room, ends) =
      let start : Inlining = record { graph = node.expr_graph; diagnostics = d } in
      finish _ (
        Returns-Whenever
          (λ done t. (done ≡ true) × HasNoCall t.graph.nodes × (length t.graph.nodes ≤ id_limit))
          (λ done t. Grows (IsCalled node.expr_graph) node.expr_graph t.graph)
          (inline_calls subroutines fuel 0 start)
          (inline_calls_ends cost subroutines copied costs fuel 0 start l room ends)
          (inline_calls-Grows subroutines node.expr_graph fuel 0 start
            (starts-Grows node.expr_graph)))
    where
      finish :
          (o : Option (Bool × Inlining))
          → Returns
              (λ done t.
                ((done ≡ true) × HasNoCall t.graph.nodes × (length t.graph.nodes ≤ id_limit))
                × Grows (IsCalled node.expr_graph) node.expr_graph t.graph)
              o
          → Returns (λ r e. Yields IsFlatOf node r) (ended node o)
      finish none z = absurd z
      finish (some (false, t)) ((e, no_call, le), p) = absurd (cc e)
      finish (some (true, t)) ((e, no_call, le), p) =
          (refl, no_call, refl, IsExtension-cleared node.expr_graph t.graph le p)

  flatten_module_lem :
      (module' : Module) (d : Diagnostics)
      → All (IsWithin cost fuel) module'.nodes
      → Returns (λ r e. Yields IsFlatModuleOf module' r) (flatten_module subroutines fuel module' d)
  unfolding flatten_module
  flatten_module_lem module' d within =
      bind-Returns (λ r e. Yields IsFlatModuleOf module' r)
        (λ r e. YieldsAll IsFlatOf module'.nodes r)
        (flatten_each (flatten_node subroutines fuel) module'.nodes)
        (λ nodes. pure (with_module_nodes module' nodes)) d
        (flatten_each_lem IsFlatOf (IsWithin cost fuel) (flatten_node subroutines fuel)
          flatten_node_lem module'.nodes d within)
        finish
    where
      finish :
          (r : Option (List Node)) (e : Diagnostics)
          → YieldsAll IsFlatOf module'.nodes r
          → Yields IsFlatModuleOf module' (with_module_nodes module' r)
      finish none e z = absurd z
      finish (some nodes) e z = (refl, z)

-- Where the graphs of subroutines can be copied, subroutines have a cost that covers what they hold
-- and what they call, and the calls of each node are listed and cost no more than the fuel and the
-- identifiers that are left, the flattening of calls has no fault and ends: no node of any graph is
-- a call and the lists of calls are empty; each graph keeps its inputs and every node that no listed
-- call is of, and its constants and properties with others behind them; the subroutines and all else
-- of the modules are as before.
pub flatten_calls_ends :
    (cost : SubrId → ℕ) (fuel : ℕ) (s : TigBuilder)
    → ((id : SubrId) (subr : Subroutine)
        → get_elem? s.design.subroutines id ≡ some subr
        → CanBeCopied subr.expr_graph)
    → IsCost cost s.design.subroutines
    → All (λ (m : Module). All (IsWithin cost fuel) m.nodes) s.design.modules
    → Returns
        (λ done t.
          (done ≡ true)
          × Zipped IsFlatModuleOf s.design.modules t.design.modules
          × (t.design.subroutines ≡ s.design.subroutines))
        (flatten_calls fuel s)
unfolding flatten_calls
flatten_calls_ends cost fuel s copied costs within = finish _ (
    flatten_each_lem IsFlatModuleOf (λ m. All (IsWithin cost fuel) m.nodes)
      (flatten_module s.design.subroutines fuel)
      (flatten_module_lem cost fuel s.design.subroutines copied costs) s.design.modules
      s.diagnostics within)
  where
    finish :
        (o : Option (Option (List Module) × Diagnostics))
        → Returns (λ r e. YieldsAll IsFlatModuleOf s.design.modules r) o
        → Returns
            (λ done t.
              (done ≡ true)
              × Zipped IsFlatModuleOf s.design.modules t.design.modules
              × (t.design.subroutines ≡ s.design.subroutines))
            (flatten_result s o)
    finish none z = absurd z
    finish (some (none, d)) z = absurd z
    finish (some (some modules, d)) z = (refl, z, refl)
