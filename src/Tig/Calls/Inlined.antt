-- ===== src/Tig/Calls/Inlined.antt =====
-- One call in the loop of `flatten_calls` in src/ir/tig_builder.cpp: what its steps keep of the graph.
use native.Mathlib.Decide.{ℕ_discrete}
use mathlib.Core.Option.{some-injective}
use abys.Prelude.{
  ℕ, suc, ◌+◌, ◌≤◌, ◌<◌, ◌≡◌, ◌⊎◌, inl, inr, refl, sym, ap, ◌∙◌, true, Option, none, some, [], ◌∷◌,
  String, length, get_elem?, set, arith, length-set, get_elem?-lt, get_elem?-set_self,
  get_elem?-set_other,
}
use abys.Run.{Returns, bind-Returns}
use abys.Expr.Graph.{ExprId, SubrId, Node, Op, Call, id_limit, constant_zero}
use abys.Tig.Builder.Inline.{Inlining, IdMap, convert_call, replace_call_with_zero, give_up}
use abys.Tig.Calls.{is_call, IsListed, AreListed, cost_from}

not_call : (n : Node) → n.op ≡ Op.convert → is_call n ≡ true → ⊥
not_call n e c = cc (rw e at c)

-- The loop is at the call `i`, of the node `x`: all other nodes of calls are listed behind it, and what
-- is left to do is bounded.
module _ (cost : SubrId → ℕ) (i : ℕ) (x : ExprId) (fuel : ℕ) where
  pub record Going (budget : ℕ) (s : Inlining) : Type 0 where
    pub there :
        (j : ℕ) (call : Call)
        → get_elem? s.graph.calls j ≡ some call
        → call.id < length s.graph.nodes
    pub listed :
        (id : ExprId) (node : Node)
        → get_elem? s.graph.nodes id ≡ some node
        → is_call node ≡ true
        → (id ≡ x) ⊎ IsListed (suc i) s.graph.calls id
    pub here : x < length s.graph.nodes
    pub at : i < length s.graph.calls
    pub room : length s.graph.nodes + (cost_from cost (suc i) s.graph.calls + budget) ≤ id_limit
    pub ends : cost_from cost (suc i) s.graph.calls + budget ≤ fuel

  -- The same, when the call is replaced.
  pub record Gone (s : Inlining) : Type 0 where
    pub are_listed : AreListed (suc i) s.graph
    pub room : length s.graph.nodes + cost_from cost (suc i) s.graph.calls ≤ id_limit
    pub ends : cost_from cost (suc i) s.graph.calls ≤ fuel

  pub Going-weaken : (m n : ℕ) (s : Inlining) → n ≤ m → Going m s → Going n s
  Going-weaken m n s le g = record {
    there = g.there;
    listed = g.listed;
    here = g.here;
    at = g.at;
    room = omega (arith, g.room);
    ends = omega (arith, g.ends);
  }

  pub convert_call-Gone :
      (budget : ℕ) (operand : ExprId) (s : Inlining)
      → Going budget s
      → Returns (λ r t. Gone t) (convert_call x operand s)
  unfolding convert_call
  convert_call-Gone budget operand s g =
      let (node, e) = get_elem?-lt s.graph.nodes x g.here in
      let converted : Node = record node { op = Op.convert; operands = operand ∷ [] } in
      let self = get_elem?-set_self s.graph.nodes x converted g.here in
      let same = length-set s.graph.nodes x converted in
      rw e (record {
        are_listed = record {
          there = λ j call h. omega (arith, same, g.there j call h);
          listed = λ id n h c. listed converted refl self id n h c;
        };
        room = omega (arith, same, g.room);
        ends = omega (arith, g.ends);
      })
    where
      other :
          (converted : Node) (id : ExprId) (n : Node)
          → ¬ (x ≡ id)
          → get_elem? (set s.graph.nodes x converted) id ≡ some n
          → is_call n ≡ true
          → IsListed (suc i) s.graph.calls id
      other converted id n ne h c =
          elim (g.listed id n (sym (get_elem?-set_other s.graph.nodes x id converted ne) ∙ h) c) [
            | inl e ↦ absurd (ne (sym e))
            | inr l ↦ l
          ]

      listed :
          (converted : Node)
          → converted.op ≡ Op.convert
          → get_elem? (set s.graph.nodes x converted) x ≡ some converted
          → (id : ExprId) (n : Node) → get_elem? (set s.graph.nodes x converted) id ≡ some n
          → is_call n ≡ true
          → IsListed (suc i) s.graph.calls id
      listed converted op self id n h c = elim (ℕ_discrete x id) [
        | yes e ↦
            let n_is : converted ≡ n = some-injective converted n (sym self ∙ rw (sym e) at h) in
            absurd (not_call n (ap (λ m. m.op) (sym n_is) ∙ op) c)
        | no ne ↦ other converted id n ne h c
      ]

  pub replace_call_with_zero-Gone :
      (budget : ℕ) (detail : String) (s : Inlining)
      → Going budget s
      → Returns (λ r t. Gone t) (replace_call_with_zero x detail s)
  unfolding replace_call_with_zero
  replace_call_with_zero-Gone budget detail s g = convert_call-Gone budget constant_zero _ (record {
    there = g.there;
    listed = g.listed;
    here = g.here;
    at = g.at;
    room = g.room;
    ends = g.ends;
  })

  -- Where the copy has given up, the call is replaced.
  abbrev pub Outcome : (IdMap → Inlining → Type 0) → Option IdMap → Inlining → Type 0
  Outcome Q none t = Gone t
  Outcome Q (some id_map) t = Q id_map t

  pub give_up-Outcome :
      (Q : IdMap → Inlining → Type 0) (budget : ℕ) (detail : String) (s : Inlining)
      → Going budget s
      → Returns (Outcome Q) (give_up x detail s)
  unfolding give_up
  give_up-Outcome Q budget detail s g =
      bind-Returns (Outcome Q) (λ r t. Gone t) (replace_call_with_zero x detail) _ s
        (replace_call_with_zero-Gone budget detail s g) (λ r t h. h)
