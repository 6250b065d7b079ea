-- ===== src/Expr/Valid/Choice.antt =====
-- The choices, conversions and concatenations of src/ir/expr_builder.cpp on valid builders.
use abys.Prelude.{
  ◌+◌, ◌%◌, ◌⊎◌, some, get_elem?, ◌∷◌, ◌<◌, ◌≡◌, refl, ◌==◌, not, true, false, Bool, List, [], All,
  is_empty, inl, inr, arith,
}
use abys.Run.{Returns-map, Returns, bind-Returns}
use abys.Expr.Graph.{Node, width_limit, ExprId, Op, SignalWidth, blank, invalid_id}
use abys.Expr.Builder.{Builder, size, nodes}
use abys.Expr.Builder.Choice.{create_mux, create_list, create_convert, add_widths, create_concat}
use abys.Expr.Valid.{IsValid, Adds}
use abys.Expr.Valid.Rank.{Exists}
use abys.Expr.Valid.Append.{get_elem?-last, plain-Adds, plain-Tables, add-Adds, Adds-at}
use abys.Expr.Valid.Made.{
  more, size-more, node_at, node_at_lem, create_node_lem, get_node-more, put_node-more,
}

-- The bits of operands: one for an operand that is left out, and the width of another one.
abbrev pub HaveBits : Builder → List ExprId → List SignalWidth → Type 0
HaveBits b [] [] = Unit
HaveBits b [] (w ∷ bits) = ⊥
HaveBits b (o ∷ l) [] = ⊥
HaveBits b (o ∷ l) (w ∷ bits) =
    (((o ≡ invalid_id) × (w ≡ 1))
      ⊎ ((node : Node) × (get_elem? (nodes b) o ≡ some node) × (node.width ≡ w)))
    × HaveBits b l bits

abbrev pub sum : List SignalWidth → SignalWidth
sum [] = 0
sum (w ∷ bits) = w + sum bits

-- A new node with the operands, whose width is the sum of their bits.
pub record IsConcat (b : Builder) (l : List ExprId) (sign : Bool) (id : ExprId) (b' : Builder)
    : Type 0 where
  pub adds : Adds 1 b id b'
  pub grown : size b' ≡ size b + 1
  pub node : Node
  pub made : get_elem? (nodes b') id ≡ some node
  pub operator : node.op ≡ Op.concat
  pub operands : node.operands ≡ l
  pub signed : node.sign ≡ sign
  pub bits : List SignalWidth
  pub have : HaveBits b l bits
  pub total : node.width ≡ sum bits % width_limit

module _ (b : Builder) (v : IsValid b) (room : size b < invalid_id) where
  pub create_mux-Adds :
      (c p q : ExprId)
      → c < size b
      → Exists (size b) p
      → Exists (size b) q
      → Returns (Adds 1 b) (create_mux c p q b)
  unfolding create_mux
  create_mux-Adds c p q h (inr hp) (inr hq) =
      let ep : (p == invalid_id) ≡ false = ground arith in
      let eq : (q == invalid_id) ≡ false = ground arith in
      rw
        (
          ep,
          eq,
          create_node_lem b room,
          get_node-more b blank p hp,
          get_node-more b blank q hq,
          put_node-more b _,
        )
        (plain-Adds b _ v room (inr h, (inr hp, (inr hq, tt))) refl)
  create_mux-Adds c p q h (inr hp) (inl eq) =
      let ep : (p == invalid_id) ≡ false = ground arith in
      rw (ep, eq, create_node_lem b room, get_node-more b blank p hp, put_node-more b _)
        (plain-Adds b _ v room (inr h, (inr hp, (inl refl, tt))) refl)
  create_mux-Adds c p q h (inl ep) (inr hq) =
      let eq : (q == invalid_id) ≡ false = ground arith in
      rw (ep, eq, create_node_lem b room, get_node-more b blank q hq, put_node-more b _)
        (plain-Adds b _ v room (inr h, (inl refl, (inr hq, tt))) refl)
  create_mux-Adds c p q h (inl ep) (inl eq) =
      rw (ep, eq, create_node_lem b room, put_node-more b _)
        (let added =
            add-Adds b _ (record blank { op = Op.mux }) v room tt
              (plain-Tables b (record blank { op = Op.mux }) refl) (λ name id k. inl k) in
          Adds-at 1 b _ 0 _ (omega (arith, added.there)) added)

  pub create_list-Adds :
      (l : List ExprId) → All (Exists (size b)) l → Returns (Adds 1 b) (create_list l b)
  unfolding create_list
  create_list-Adds l h =
      rw (create_node_lem b room, put_node-more b _) (plain-Adds b _ v room h refl)

  pub create_convert-Adds :
      (a : ExprId) (width : SignalWidth) (sign : Bool)
      → Exists (size b) a
      → Returns (Adds 1 b) (create_convert a width sign b)
  unfolding create_convert
  create_convert-Adds a width sign h =
      rw (create_node_lem b room, put_node-more b _) (plain-Adds b _ v room (h, tt) refl)

  -- The loop adds the bits of the operands, below 2 ^ 64.
  abbrev Counted : List ExprId → SignalWidth → SignalWidth → Builder → Type 0
  Counted l width w t =
      (t ≡ more b blank)
      × (bits : List SignalWidth) × HaveBits b l bits
      × (w ≡ (width + sum bits) % width_limit)

  -- one operand more
  count_one :
      (o : ExprId) (l : List ExprId) (width one w : SignalWidth) (t : Builder)
      → ((o ≡ invalid_id) × (one ≡ 1))
        ⊎ ((node : Node) × (get_elem? (nodes b) o ≡ some node) × (node.width ≡ one))
      → Counted l ((width + one) % width_limit) w t
      → Counted (o ∷ l) width w t
  count_one o l width one w t mine (same, bits, have, e) =
      (same, one ∷ bits, (mine, have), omega (arith, e))

  add_widths-Returns :
      (l : List ExprId) (width : SignalWidth)
      → width < width_limit
      → All (Exists (size b)) l
      → Returns (Counted l width) (add_widths l width (more b blank))
  unfolding add_widths
  add_widths-Returns [] width small h = (refl, [], tt, omega arith)
  add_widths-Returns (o ∷ l) width small (inl invalid, h) =
      let next : SignalWidth = (width + 1) % width_limit in
      rw invalid (
        Returns-map (Counted (invalid_id ∷ l) width) (Counted l next)
          (add_widths l next (more b blank))
          (λ w t. count_one invalid_id l width 1 w t (inl (refl, refl)))
          (add_widths-Returns l next (omega arith) h))
  add_widths-Returns (o ∷ l) width small (inr there, h) =
      let e : (o == invalid_id) ≡ false = ground arith in
      let m : Node = node_at b o there in
      let next : SignalWidth = (width + m.width) % width_limit in
      rw (e, get_node-more b blank o there)
        (Returns-map (Counted (o ∷ l) width) (Counted l next) (add_widths l next (more b blank))
          (λ w t. count_one o l width m.width w t (inr (m, node_at_lem b o there, refl)))
          (add_widths-Returns l next (omega arith) h))

  -- A concatenation of operands that are there or left out, at least one, adds exactly one node
  -- where an identifier is left: it has the operands and the sign, and is as wide as the operands
  -- together, modulo 2 ^ 64, where one that is left out counts as one bit. It has no fault, the
  -- earlier nodes are kept, and the builder stays valid.
  pub create_concat-IsConcat :
      (l : List ExprId) (sign : Bool)
      → not (is_empty l) ≡ true
      → All (Exists (size b)) l
      → Returns (IsConcat b l sign) (create_concat l sign b)
  unfolding create_concat
  create_concat-IsConcat l sign some_operand h =
      rw (some_operand, create_node_lem b room)
        (bind-Returns (IsConcat b l sign) (Counted l 0) (add_widths l 0) _ (more b blank)
          (add_widths-Returns l 0 (omega arith) h)
          (λ w t (same, bits, have, e).
            let node : Node = record { op = Op.concat; width = w; sign = sign; operands = l } in
            rw (same, put_node-more b node)
              (record {
                adds = plain-Adds b node v room h refl;
                grown = size-more b node;
                node = node;
                made = get_elem?-last (nodes b) node;
                operator = refl;
                operands = refl;
                signed = refl;
                bits = bits;
                have = have;
                total = omega (arith, e);
              })))

  pub create_concat-Adds :
      (l : List ExprId) (sign : Bool)
      → not (is_empty l) ≡ true
      → All (Exists (size b)) l
      → Returns (Adds 1 b) (create_concat l sign b)
  create_concat-Adds l sign some_operand h =
      Returns-map (Adds 1 b) (IsConcat b l sign) (create_concat l sign b) (λ id t c. c.adds)
        (create_concat-IsConcat l sign some_operand h)
