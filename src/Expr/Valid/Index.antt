-- ===== src/Expr/Valid/Index.antt =====
-- The position of an index in src/ir/expr_builder.cpp, and the width of its arithmetic.
use abys.Prelude.{
  ◌+◌, ◌-◌, ◌^◌, ◌≤◌, ◌<◌, ◌≡◌, refl, max, ◌&&◌, true, false, Bool, some, inl, inr, arith,
  if◌then◌else◌, Bool-cases, lt→ltb, get_elem?, lt_of_get_elem?,
}
use abys.Prelude.Int.{ℤ, pos, leb_ℤ, eqb_ℤ}
use abys.Run.{Run, Returns, pure, ◌>>=◌}
use abys.Expr.Graph.{ExprId, Node, Op, SignalWidth, invalid_id, width_limit}
use abys.Expr.Literal.{magnitude, signed_width}
use abys.Expr.Literal.Width.{signed_width_bound}
use abys.Expr.Builder.{Builder, size, nodes, get_node}
use abys.Expr.Builder.Simple.{create_add, create_sub}
use abys.Expr.Builder.Choice.{create_convert}
use abys.Expr.Builder.Index.{
  find_or_create_index, grow, arithmetic_width, add_offset, normalize_index_expr, add_range,
  create_select,
}
use abys.Expr.Valid.{IsValid, Adds}
use abys.Expr.Valid.Append.{plain-Adds, Adds-same, Adds-weaken, bind-Adds}
use abys.Expr.Valid.Made.{create_node_lem, put_node-more}
use abys.Expr.Valid.Simple.{create_binary-Adds}
use abys.Expr.Valid.Choice.{create_convert-Adds}
use abys.Expr.Valid.Constant.{signed_width-FitsWidth, find_or_create_index-Adds}

grow_lem : (b : Builder) (w : SignalWidth) → w < width_limit - 1 → grow w b ≡ some (w + 1, b)
unfolding grow
grow_lem b w h = rw (lt→ltb w (width_limit - 1) h) refl

-- Two bits more than an operand may need are left below the limit.
abbrev pub HasRoom : Node → Type 0
HasRoom node = node.width + 4 < width_limit

-- a width that is kept or grown by one
abbrev pub grown : Bool → SignalWidth → SignalWidth
grown keep w = if keep then w else w + 1

grown_lem :
    (b : Builder) (keep : Bool) (w : SignalWidth)
    → w < width_limit - 1
    → (if keep then pure w else grow w) b ≡ some (grown keep w, b)
grown_lem b true w h = refl
grown_lem b false w h = grow_lem b w h

pub grown_bounds : (keep : Bool) (w : SignalWidth) → (w ≤ grown keep w) × (grown keep w ≤ w + 1)
grown_bounds true w = (omega arith, omega arith)
grown_bounds false w = (omega arith, omega arith)

-- the width of the arithmetic: above that of every constant in it
abbrev pub width_for : Node → ℤ → ℤ → ℤ → SignalWidth
width_for node msb lsb offset = grown (eqb_ℤ offset (pos 0)) (
    max (max (grown node.sign node.width) (signed_width msb))
      (max (signed_width lsb) (signed_width offset))
    + 1)

pub arithmetic_width_lem :
    (b : Builder) (node : Node) (msb lsb offset : ℤ)
    → HasRoom node
    → arithmetic_width node msb lsb offset b ≡ some (width_for node msb lsb offset, b)
unfolding arithmetic_width
arithmetic_width_lem b node msb lsb offset room =
    let (low, high) = grown_bounds node.sign node.width in
    let widest =
      max (max (grown node.sign node.width) (signed_width msb))
        (max (signed_width lsb) (signed_width offset)) in
    let bound : widest < width_limit - 2 =
      omega (arith, signed_width_bound msb, signed_width_bound lsb, signed_width_bound offset) in
    rw
      (
        grown_lem b node.sign node.width (omega arith),
        grow_lem b widest (omega arith),
        grown_lem b (eqb_ℤ offset (pos 0)) (widest + 1) (omega arith),
      )
      refl

pub width_for_bounds :
    (node : Node) (msb lsb offset : ℤ)
    → (signed_width lsb < width_for node msb lsb offset)
      × (signed_width offset < width_for node msb lsb offset)
width_for_bounds node msb lsb offset =
    let widest =
      max (max (grown node.sign node.width) (signed_width msb))
        (max (signed_width lsb) (signed_width offset)) in
    let (low, high) = grown_bounds (eqb_ℤ offset (pos 0)) (widest + 1) in (omega arith, omega arith)

module _ (b : Builder) (v : IsValid b) (room : size b + 1 < invalid_id) where
  add_offset-Adds :
      (index : ExprId) (width : SignalWidth) (offset : ℤ)
      → index < size b
      → magnitude offset < 2 ^ 64
      → signed_width offset < width
      → Returns (Adds 2 b) (add_offset index width offset b)
  unfolding add_offset create_add
  add_offset-Adds index width offset there small fits = elim (Bool-cases (eqb_ℤ offset (pos 0))) [
    | inl none_needed ↦
        rw none_needed (Adds-weaken 0 2 b index b (omega arith) (Adds-same b index v there))
    | inr some_needed ↦ rw some_needed (
        bind-Adds 1 1 b (find_or_create_index offset width true) (create_add index)
          (find_or_create_index-Adds b v (omega arith) offset width true
            (signed_width-FitsWidth offset width small fits))
          (λ i t p.
            create_binary-Adds t p.valid (omega (arith, p.bounded)) Op.add index i refl
              (omega (arith, p.grows)) p.there))
  ]

-- the rest of `normalize_index_expr` behind the widened index
abbrev place : ℤ → ℤ → ℤ → SignalWidth → ExprId → Run Builder ExprId
place msb lsb offset width wide = do
  moved ← add_offset wide width offset
  base ← find_or_create_index lsb width true
  if leb_ℤ lsb msb then create_sub moved base else create_sub base moved

difference-Adds :
    (b : Builder)
    → IsValid b
    → size b < invalid_id
    → (forward : Bool) (p q : ExprId) → p < size b
    → q < size b
    → Returns (Adds 1 b) ((if forward then create_sub p q else create_sub q p) b)
unfolding create_sub
difference-Adds b v room true p q hp hq = create_binary-Adds b v room Op.sub p q refl hp hq
difference-Adds b v room false p q hp hq = create_binary-Adds b v room Op.sub q p refl hq hp

module _ (b : Builder) (v : IsValid b) (room : size b + 3 < invalid_id) where
  place-Adds :
      (msb lsb offset : ℤ) (width : SignalWidth) (wide : ExprId)
      → wide < size b
      → magnitude lsb < 2 ^ 64
      → magnitude offset < 2 ^ 64
      → signed_width lsb < width
      → signed_width offset < width
      → Returns (Adds 4 b) (place msb lsb offset width wide b)
  place-Adds msb lsb offset width wide there small_lsb small_offset fits_lsb fits_offset =
      bind-Adds 2 2 b (add_offset wide width offset) _
        (add_offset-Adds b v (omega arith) wide width offset there small_offset fits_offset)
        (λ moved t p.
          bind-Adds 1 1 t (find_or_create_index lsb width true) _
            (find_or_create_index-Adds t p.valid (omega (arith, p.bounded)) lsb width true
              (signed_width-FitsWidth lsb width small_lsb fits_lsb))
            (λ base u q.
              difference-Adds u q.valid (omega (arith, p.bounded, q.bounded)) (leb_ℤ lsb msb) moved
                base (omega (arith, p.there, q.grows)) q.there))

-- The bounds of a declared range and an offset are numbers of 64 bits.
abbrev pub IsSmall : ℤ → Type 0
IsSmall z = magnitude z < 2 ^ 64

pub add_range-Adds :
    (b : Builder)
    → IsValid b
    → size b < invalid_id
    → (value base : ExprId) (width : SignalWidth) (sign : Bool) → value < size b
    → base < size b
    → Returns (Adds 1 b) (add_range value base width sign b)
unfolding add_range
add_range-Adds b v room value base width sign h k =
    rw (create_node_lem b room, put_node-more b _) (plain-Adds b _ v room (inr h, (inr k, tt)) refl)

module _ (b : Builder) (v : IsValid b) (index : ExprId) (node : Node)
    (there : get_elem? (nodes b) index ≡ some node) (wide : HasRoom node) where
  -- Normalizing an index that is there, of a width below 2 ^ 64 - 4, adds at most five nodes, where
  -- five more identifiers are left and the lower bound and the offset have magnitudes below 2 ^ 64:
  -- no assertion on a width or a constant fails, the result is a node of the new graph, the earlier
  -- nodes are kept, and the builder stays valid.
  pub normalize_index_expr-Adds :
      (msb lsb offset : ℤ)
      → size b + 5 < invalid_id
      → IsSmall lsb
      → IsSmall offset
      → Returns (Adds 5 b) (normalize_index_expr index msb lsb offset b)
  unfolding normalize_index_expr get_node
  normalize_index_expr-Adds msb lsb offset room small_lsb small_offset =
      let exists : index < size b = lt_of_get_elem? (nodes b) index there in
      elim (Bool-cases (eqb_ℤ offset (pos 0) && eqb_ℤ lsb (pos 0) && leb_ℤ lsb msb)) [
        | inl same ↦ rw same (Adds-weaken 0 5 b index b (omega arith) (Adds-same b index v exists))
        | inr other ↦
            let (fits_lsb, fits_offset) = width_for_bounds node msb lsb offset in
            rw (other, there, arithmetic_width_lem b node msb lsb offset wide)
              (bind-Adds 1 4 b (create_convert index (width_for node msb lsb offset) true)
                (place msb lsb offset (width_for node msb lsb offset))
                (create_convert-Adds b v (omega arith) index _ true (inr exists))
                (λ i t p.
                  place-Adds t p.valid (omega (arith, p.bounded)) msb lsb offset _ i p.there
                    small_lsb small_offset fits_lsb fits_offset))
      ]

  pub create_select-Adds :
      (value : ExprId) (msb lsb : ℤ)
      → value < size b
      → size b + 6 < invalid_id
      → IsSmall lsb
      → Returns (Adds 6 b) (create_select value index msb lsb b)
  unfolding create_select
  create_select-Adds value msb lsb known room small =
      bind-Adds 5 1 b (normalize_index_expr index msb lsb (pos 0)) _
        (normalize_index_expr-Adds msb lsb (pos 0) (omega arith) small (omega arith))
        (λ i t p.
          add_range-Adds t p.valid (omega (arith, p.bounded)) value i 1 false
            (omega (arith, p.grows)) p.there)
