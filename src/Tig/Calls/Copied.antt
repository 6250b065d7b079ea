-- ===== src/Tig/Calls/Copied.antt =====
-- The copies of constants and nodes in the loop of `flatten_calls` in src/ir/tig_builder.cpp.
use mathlib.Core.Option.{some-injective}
use abys.Prelude.{
  ℕ, zero, suc, ◌+◌, ◌<◌, ◌%◌, ◌≡◌, ◌⊎◌, inl, inr, refl, sym, ◌∙◌, Bool, true, false, Option, none,
  some, List, [], ◌∷◌, ◌++◌, ◌||◌, ◌==◌, All, length, arith, get_elem?-append_cases,
  lt_of_get_elem?, none-ne-some, length-append, get_elem?-append_left, get_elem?-append_right,
  Bool-cases, if◌then◌else◌,
}
use abys.Run.{pure, Returns, bind-Returns}
use abys.Expr.Graph.{
  ExprGraph, ExprId, SubrId, Node, Call, Constant, UnpackedProperties, id_limit, constant_zero,
  constant_one, invalid_id,
}
use abys.Tig.Builder.Inline.{
  Inlining, IdMap, push_node, copy_constant, copy_constants, copy_call, copy_properties, copy_node,
  find_call, find_unpacked, emplace,
}
use abys.Tig.Calls.{is_call, IsBased, IsCopiedConstant, call_cost}
use abys.Tig.Calls.Map.{cost_from-append, Covers, emplace-Covers}
use abys.Tig.Calls.Inlined.{Going, Going-weaken}

module _ (cost : SubrId → ℕ) (i : ℕ) (x : ExprId) (fuel : ℕ) where
  pub same-Going :
      (b : ℕ) (s t : Inlining)
      → t.graph.nodes ≡ s.graph.nodes
      → t.graph.calls ≡ s.graph.calls
      → Going cost i x fuel b s
      → Going cost i x fuel b t
  same-Going b s t nodes calls g = record {
    there = rw (nodes, calls) g.there;
    listed = rw (nodes, calls) g.listed;
    here = rw nodes g.here;
    at = rw calls g.at;
    room = rw (nodes, calls) g.room;
    ends = rw calls g.ends;
  }

  -- one more node, which is no call
  pub pushed-Going :
      (b : ℕ) (n : Node) (s t : Inlining)
      → t.graph.nodes ≡ s.graph.nodes ++ n ∷ []
      → t.graph.calls ≡ s.graph.calls
      → is_call n ≡ false
      → Going cost i x fuel (suc b) s
      → Going cost i x fuel b t
  pushed-Going b n s t nodes calls plain g =
      let more = length-append s.graph.nodes (n ∷ []) in
      record {
        there = rw (nodes, calls) (λ j call h. omega (arith, more, g.there j call h));
        listed =
            rw (nodes, calls)
              (λ id m h c. elim (get_elem?-append_cases s.graph.nodes (n ∷ []) id m h) [
                | inl old ↦ g.listed id m old c
                | inr (zero, e, new) ↦ absurd (ne m (some-injective n m new) c)
                | inr (suc k, e, new) ↦ absurd (none-ne-some m new)
              ]);
        here = rw nodes (omega (arith, more, g.here));
        at = rw calls g.at;
        room = rw (nodes, calls) (omega (arith, more, g.room));
        ends = rw calls (omega (arith, g.ends));
      }
    where
      ne : (m : Node) → n ≡ m → is_call m ≡ true → ⊥
      ne m e c = cc (plain)

  -- one more node of a call, with its entry
  pub called-Going :
      (b : ℕ) (n : Node) (call : Call) (s t : Inlining)
      → t.graph.nodes ≡ s.graph.nodes ++ n ∷ []
      → t.graph.calls ≡ s.graph.calls ++ call ∷ []
      → call.id ≡ length s.graph.nodes
      → Going cost i x fuel (suc (suc (cost call.subr_id)) + b) s
      → Going cost i x fuel b t
  called-Going b n call s t nodes calls last g =
      let more = length-append s.graph.nodes (n ∷ []) in
      let more_calls = length-append s.graph.calls (call ∷ []) in
      let dearer = cost_from-append cost (suc i) s.graph.calls call in
      record {
        there =
            rw (nodes, calls)
              (λ j c h. elim (get_elem?-append_cases s.graph.calls (call ∷ []) j c h) [
                | inl old ↦ omega (arith, more, g.there j c old)
                | inr (zero, e, new) ↦ new_there c (some-injective call c new)
                | inr (suc k, e, new) ↦ absurd (none-ne-some c new)
              ]);
        listed =
            rw (nodes, calls)
              (λ id m h c. elim (get_elem?-append_cases s.graph.nodes (n ∷ []) id m h) [
                | inl old ↦ elim (g.listed id m old c) [
                  | inl e ↦ inl e
                  | inr (j, d, le, there, e) ↦ inr (
                    j,
                    d,
                    le,
                    get_elem?-append_left s.graph.calls (call ∷ []) j
                          (lt_of_get_elem? s.graph.calls j there)
                        ∙ there,
                    e,
                  )
                ]
                | inr (zero, e, new) ↦ inr (
                  length s.graph.calls + 0,
                  call,
                  omega (arith, g.at),
                  get_elem?-append_right s.graph.calls (call ∷ []) 0,
                  omega (arith, last),
                )
                | inr (suc k, e, new) ↦ absurd (none-ne-some m new)
              ]);
        here = rw nodes (omega (arith, more, g.here));
        at = rw calls (omega (arith, more_calls, g.at));
        room = rw (nodes, calls) (omega (arith, more, dearer, g.room));
        ends = rw calls (omega (arith, dearer, g.ends));
      }
    where
      new_there : (c : Call) → call ≡ c → c.id < length (s.graph.nodes ++ n ∷ [])
      new_there c e = rw (sym e) (omega (arith, last, length-append s.graph.nodes (n ∷ [])))

  room_for :
      (b : ℕ) (s : Inlining)
      → Going cost i x fuel (suc b) s
      → length s.graph.nodes % id_limit ≡ length s.graph.nodes
  room_for b s g = let lt : length s.graph.nodes < id_limit = omega (arith, g.room) in omega arith

  copy_constant-Going :
      (g : ExprGraph) (constant : Constant) (b : ℕ) (s : Inlining)
      → IsCopiedConstant g constant
      → Going cost i x fuel (suc b) s
      → Returns (λ id t. Going cost i x fuel b t) (copy_constant g constant s)
  unfolding copy_constant push_node
  copy_constant-Going g constant b s (node, found, plain) going =
      rw found (pushed-Going b node s _ refl refl plain going)

  -- a constant, which is shared or copied
  choose-Going :
      (shared : Bool) (g : ExprGraph) (constant : Constant) (b : ℕ) (s : Inlining)
      → IsCopiedConstant g constant
      → Going cost i x fuel (suc b) s
      → Returns
          (λ id t. Going cost i x fuel b t)
          ((if shared then (λ s. some (constant.id, s)) else copy_constant g constant) s)
  choose-Going true g constant b s h going =
      Going-weaken cost i x fuel (suc b) b s (omega arith) going
  choose-Going false g constant b s h going = copy_constant-Going g constant b s h going

  pub copy_constants-Going :
      (g : ExprGraph) (constants : List Constant) (b : ℕ) (id_map : IdMap) (s : Inlining)
      → All (IsCopiedConstant g) constants
      → Going cost i x fuel (length constants + b) s
      → Returns (λ m t. Going cost i x fuel b t) (copy_constants g constants id_map s)
  unfolding copy_constants
  copy_constants-Going g [] b id_map s h going =
      Going-weaken cost i x fuel (0 + b) b s (omega arith) going
  copy_constants-Going g (constant ∷ rest) b id_map s h going =
      bind-Returns {A = ExprId} (λ m t. Going cost i x fuel b t)
        (λ id t. Going cost i x fuel (length rest + b) t)
        (if constant.id == constant_zero || constant.id == constant_one
          then pure constant.id
          else copy_constant g constant)
        (λ id. copy_constants g rest (emplace constant.id id id_map)) s
        (choose-Going (constant.id == constant_zero || constant.id == constant_one) g constant
          (length rest + b) s h.0
          (Going-weaken cost i x fuel (suc (length rest) + b) (suc (length rest + b)) s
            (omega arith) going))
        (λ id t going'. copy_constants-Going g rest b (emplace constant.id id id_map) t h.1 going')

  copy_properties-Going :
      (p : Option UnpackedProperties) (src_id dst_id : ExprId) (id_map : IdMap) (b : ℕ)
      (s : Inlining)
      → IsBased src_id p
      → Covers id_map (suc src_id)
      → Going cost i x fuel b s
      → Returns (λ r t. Going cost i x fuel b t) (copy_properties p id_map dst_id s)
  unfolding copy_properties
  copy_properties-Going none src_id dst_id id_map b s h covers going = going
  copy_properties-Going (some p) src_id dst_id id_map b s h covers going =
      elim (Bool-cases (p.base == invalid_id)) [
        | inl e ↦ rw e (same-Going b s _ refl refl going)
        | inr ne ↦ based ne h
      ]
    where
      based :
          (p.base == invalid_id) ≡ false
          → (p.base ≡ invalid_id) ⊎ (p.base < src_id)
          → Returns (λ r t. Going cost i x fuel b t) (copy_properties (some p) id_map dst_id s)
      based ne (inl e) = absurd (ground arith)
      based ne (inr lt) =
          let (v, found) = covers p.base (omega arith) in
          rw (ne, found) (same-Going b s _ refl refl going)

  module _ (g : ExprGraph) (src_id : ExprId) (src : Node) (operands : List ExprId) (id_map : IdMap)
      (b : ℕ) (s : Inlining) (covers : Covers id_map src_id)
      (based : IsBased src_id (find_unpacked src_id g.unpacked_properties)) where
    abbrev copy : Node
    copy = record src { operands = operands }

    abbrev dst : ExprId
    dst = length s.graph.nodes % id_limit

    -- The copy of a node behind its place in the list of calls.
    after_call :
        (t : Inlining)
        → copy_call src.op g.calls src_id dst
            (record s { graph = record s.graph { nodes = s.graph.nodes ++ copy ∷ [] } })
          ≡ t
        → Going cost i x fuel b t
        → Returns
            (λ m u. Going cost i x fuel b u × Covers m (suc src_id))
            (copy_node g src_id src operands id_map s)
    unfolding copy_node push_node
    after_call t e going = rw e (
        bind-Returns (λ m u. Going cost i x fuel b u × Covers m (suc src_id))
          (λ r u. Going cost i x fuel b u)
          (copy_properties (find_unpacked src_id g.unpacked_properties) (emplace src_id dst id_map)
            dst)
          (λ r. pure (emplace src_id dst id_map)) t
          (copy_properties-Going (find_unpacked src_id g.unpacked_properties) src_id dst
            (emplace src_id dst id_map) b t based (emplace-Covers src_id dst id_map covers) going)
          (λ r u going'. (going', emplace-Covers src_id dst id_map covers)))

    pub copy_node-Going :
        (is_call src ≡ true → (call : Call) × (find_call src_id g.calls ≡ some call))
        → Going cost i x fuel
            (suc (if is_call src then call_cost cost (find_call src_id g.calls) else 0) + b)
            s
        → Returns
            (λ m u. Going cost i x fuel b u × Covers m (suc src_id))
            (copy_node g src_id src operands id_map s)
    unfolding copy_call
    copy_node-Going listed going = elim (Bool-cases (is_call src)) [
      | inl e ↦ called e (listed e) (rw e at going)
      | inr e ↦ after_call _ (plain e) (
          pushed-Going b copy s _ refl refl e
            (Going-weaken cost i x fuel (suc 0 + b) (suc b) s (omega arith) (rw e at going)))
    ]
      where
        plain :
            is_call src ≡ false
            → copy_call src.op g.calls src_id dst
                (record s { graph = record s.graph { nodes = s.graph.nodes ++ copy ∷ [] } })
              ≡ record s { graph = record s.graph { nodes = s.graph.nodes ++ copy ∷ [] } }
        plain e = rw e refl

        called :
            is_call src ≡ true
            → (call : Call) × (find_call src_id g.calls ≡ some call)
            → Going cost i x fuel (suc (call_cost cost (find_call src_id g.calls)) + b) s
            → Returns
                (λ m u. Going cost i x fuel b u × Covers m (suc src_id))
                (copy_node g src_id src operands id_map s)
        called e (call, found) going =
            let entry : Call = record { id = dst; subr_id = call.subr_id; name = call.name } in
            let going' : Going cost i x fuel (suc (suc (cost call.subr_id)) + b) s =
              rw found at going in
            after_call
              (record s {
                graph = record s.graph {
                  nodes = s.graph.nodes ++ copy ∷ [];
                  calls = s.graph.calls ++ entry ∷ [];
                };
              })
              (rw (e, found) refl)
              (called-Going b copy entry s _ refl refl
                (room_for (suc (cost call.subr_id) + b) s
                  (Going-weaken cost i x fuel _ _ s (omega arith) going'))
                going')
