-- ===== src/Expr/Valid/Select.antt =====
-- The selection of a bit by `create_select` of src/ir/expr_builder.cpp.
use abys.Prelude.{
  ◌+◌, ◌≤◌, ◌<◌, ◌≡◌, refl, max, ◌&&◌, true, false, Bool, some, List, [], ◌∷◌, ◌++◌, inl, inr,
  arith, if◌then◌else◌, Bool-cases, get_elem?, lt_of_get_elem?,
}
use abys.Prelude.Int.{ℤ, pos, leb_ℤ, eqb_ℤ}
use abys.Prelude.Text.{Text}
use abys.Run.{Returns, Returns-both}
use abys.Expr.Graph.{ExprId, Node, Constant, Op, SignalWidth, blank, invalid_id}
use abys.Expr.Literal.{signed_width, literal, parse_binary_constant}
use abys.Expr.Literal.Digits.{parse-literal}
use abys.Expr.Eval.Word.{int32}
use abys.Expr.Builder.{Builder, size, nodes, get_node}
use abys.Expr.Builder.Simple.{create_sub}
use abys.Expr.Builder.Choice.{create_convert}
use abys.Expr.Builder.Index.{
  find_or_create_index, add_offset, normalize_index_expr, add_range, create_select,
}
use abys.Expr.Valid.{IsValid, Adds}
use abys.Expr.Valid.Append.{plain-Adds, get_elem?-last, get_elem?-keeps}
use abys.Expr.Valid.Made.{more, size-more, create_node_lem, put_node-more}
use abys.Expr.Valid.Constant.{with_constant, const_node, signed_index_lem, signed_width-FitsWidth}
use abys.Expr.Valid.Index.{
  HasRoom, IsSmall, grown, grown_bounds, width_for, width_for_bounds, arithmetic_width_lem,
  create_select-Adds,
}

abbrev wide_node : SignalWidth → ExprId → Node
wide_node width index = record {
  op = Op.convert;
  width = width;
  sign = true;
  operands = index ∷ [];
}

abbrev sub_node : SignalWidth → List ExprId → Node
sub_node width operands = record { op = Op.sub; width = width; sign = true; operands = operands }

abbrev range_node : ExprId → ExprId → Node
range_node value position = record {
  op = Op.range;
  width = 1;
  sign = false;
  operands = value ∷ position ∷ [];
}

-- the difference of an index and a lower bound, which is positive on the side of the upper bound
abbrev difference : Bool → ExprId → ExprId → List ExprId
difference true index lsb = index ∷ lsb ∷ []
difference false index lsb = lsb ∷ index ∷ []

-- The selection of the bit at a difference, which new nodes compute: of the index, in a width that
-- holds it and the lower bound, and of a constant that reads back as the lower bound.
pub record IsSelection (b : Builder) (value index : ExprId) (node : Node) (msb lsb : ℤ)
    (id : ExprId) (t : Builder) : Type 0 where
  pub grown : size t ≡ size b + 4
  pub width : SignalWidth
  pub wide : ExprId
  pub base : ExprId
  pub position : ExprId
  pub text : Text
  pub holds_index : (node.width ≤ width) × (node.sign ≡ false → node.width < width)
  pub holds_lsb : signed_width lsb < width
  pub wide_at : get_elem? (nodes t) wide ≡ some (wide_node width index)
  pub base_at : get_elem? (nodes t) base ≡ some (const_node width true)
  pub constants : t.graph.constants ≡ b.graph.constants ++ record { id = base; value = text } ∷ []
  pub reads : parse_binary_constant text ≡ int32 lsb
  pub position_at :
      get_elem? (nodes t) position ≡ some (sub_node width (difference (leb_ℤ lsb msb) wide base))
  pub selected : get_elem? (nodes t) id ≡ some (range_node value position)

-- The selection of the bit at the index itself.
pub record IsDirect (b : Builder) (value index id : ExprId) (t : Builder) : Type 0 where
  pub grown : size t ≡ size b + 1
  pub constants : t.graph.constants ≡ b.graph.constants
  pub selected : get_elem? (nodes t) id ≡ some (range_node value index)

-- Where the lower bound is 0 and the range goes down to it, the index is the position.
abbrev pub is_direct : ℤ → ℤ → Bool
is_direct msb lsb = eqb_ℤ lsb (pos 0) && leb_ℤ lsb msb

abbrev pub Selects : Builder → ExprId → ExprId → Node → ℤ → ℤ → Bool → ExprId → Builder → Type 0
Selects b value index node msb lsb true id t = IsDirect b value index id t
Selects b value index node msb lsb false id t = IsSelection b value index node msb lsb id t

sub_lem :
    (b : Builder) (p q : ExprId) (width : SignalWidth) (m n : Node)
    → size b < invalid_id
    → get_elem? (nodes b) p ≡ some m
    → get_elem? (nodes b) q ≡ some n
    → (m.width ≡ width) × (m.sign ≡ true)
    → (n.width ≡ width) × (n.sign ≡ true)
    → create_sub p q b ≡ some (size b, more b (sub_node width (p ∷ q ∷ [])))
unfolding create_sub abys.Expr.Builder.Simple.create_binary get_node
sub_lem b p q width m n room at_p at_q (w, z) (w', z') =
    let same : max width width ≡ width = omega arith in
    rw
      (
        create_node_lem b room,
        get_elem?-keeps (nodes b) blank p m at_p,
        get_elem?-keeps (nodes b) blank q n at_q,
        w,
        z,
        w',
        z',
        same,
        put_node-more b (sub_node width (p ∷ q ∷ [])),
      )
      refl

module _ (b : Builder) (v : IsValid b) (index : ExprId) (node : Node)
    (there : get_elem? (nodes b) index ≡ some node) (wide : HasRoom node) (msb lsb : ℤ)
    (room : size b + 6 < invalid_id) (small : IsSmall lsb) where
  abbrev W : SignalWidth
  W = width_for node msb lsb (pos 0)

  abbrev b₁ : Builder
  b₁ = more b (wide_node W index)

  abbrev entry : Constant
  entry = record { id = size b₁; value = literal lsb W true }

  abbrev b₂ : Builder
  b₂ = with_constant (more b₁ (const_node W true)) entry

  abbrev operands : List ExprId
  operands = difference (leb_ℤ lsb msb) (size b) (size b₁)

  abbrev b₃ : Builder
  b₃ = more b₂ (sub_node W operands)

  convert_lem : create_convert index W true b ≡ some (size b, b₁)
  unfolding create_convert
  convert_lem = rw (create_node_lem b (omega arith), put_node-more b (wide_node W index)) refl

  sizes : (size b₁ ≡ size b + 1) × (size b₂ ≡ size b + 2) × (size b₃ ≡ size b + 3)
  sizes =
      let one = size-more b (wide_node W index) in
      let two = size-more b₁ (const_node W true) in
      (one, omega (arith, one, two), omega (arith, one, two, size-more b₂ (sub_node W operands)))

  wide_at : get_elem? (nodes b₂) (size b) ≡ some (wide_node W index)
  wide_at =
      get_elem?-keeps (nodes b₁) (const_node W true) (size b) (wide_node W index)
        (get_elem?-last (nodes b) (wide_node W index))

  base_at : get_elem? (nodes b₂) (size b₁) ≡ some (const_node W true)
  base_at = get_elem?-last (nodes b₁) (const_node W true)

  difference_lem :
      (forward : Bool)
      → (if forward then create_sub (size b) (size b₁) else create_sub (size b₁) (size b)) b₂
        ≡ some (size b₂, more b₂ (sub_node W (difference forward (size b) (size b₁))))
  difference_lem true =
      sub_lem b₂ (size b) (size b₁) W (wide_node W index) (const_node W true)
        (omega (arith, sizes.1)) wide_at base_at (refl, refl) (refl, refl)
  difference_lem false =
      sub_lem b₂ (size b₁) (size b) W (const_node W true) (wide_node W index)
        (omega (arith, sizes.1)) base_at wide_at (refl, refl) (refl, refl)

  index_lem : find_or_create_index lsb W true b₁ ≡ some (size b₁, b₂)
  index_lem =
      signed_index_lem b₁ v₁ (omega (arith, sizes.0)) lsb W
        (signed_width-FitsWidth lsb W small (width_for_bounds node msb lsb (pos 0)).0)
    where
      v₁ : IsValid b₁
      v₁ =
          (plain-Adds b (wide_node W index) v (omega arith)
            (inr (lt_of_get_elem? (nodes b) index there), tt) refl).valid

  position_lem :
      is_direct msb lsb ≡ false → normalize_index_expr index msb lsb (pos 0) b ≡ some (size b₂, b₃)
  unfolding normalize_index_expr add_offset get_node
  position_lem e =
      rw (e, there, arithmetic_width_lem b node msb lsb (pos 0) wide, convert_lem, index_lem)
        (difference_lem (leb_ℤ lsb msb))

  range_lem :
      (t : Builder) (value position : ExprId)
      → size t < invalid_id
      → add_range value position 1 false t ≡ some (size t, more t (range_node value position))
  unfolding add_range
  range_lem t value position lt =
      rw (create_node_lem t lt, put_node-more t (range_node value position)) refl

  width_bounds : (node.width ≤ W) × (node.sign ≡ false → node.width < W)
  width_bounds = (
    omega (arith, (grown_bounds node.sign node.width).0),
    λ e. let one : grown node.sign node.width ≡ node.width + 1 = rw e refl in omega (arith, one),
  )

  through :
      (value : ExprId)
      → IsSelection b value index node msb lsb (size b₃) (more b₃ (range_node value (size b₂)))
  through value = record {
    grown = omega (arith, sizes.2, size-more b₃ (range_node value (size b₂)));
    width = W;
    wide = size b;
    base = size b₁;
    position = size b₂;
    text = literal lsb W true;
    holds_index = width_bounds;
    holds_lsb = (width_for_bounds node msb lsb (pos 0)).0;
    wide_at = kept (size b) (wide_node W index) wide_at;
    base_at = kept (size b₁) (const_node W true) base_at;
    constants = refl;
    reads = parse-literal lsb W true small;
    position_at =
        last (size b₂) (sub_node W operands) (get_elem?-last (nodes b₂) (sub_node W operands));
    selected = get_elem?-last (nodes b₃) (range_node value (size b₂));
  }
    where
      last :
          (i : ExprId) (m : Node)
          → get_elem? (nodes b₃) i ≡ some m
          → get_elem? (nodes (more b₃ (range_node value (size b₂)))) i ≡ some m
      last i m e = get_elem?-keeps (nodes b₃) (range_node value (size b₂)) i m e

      kept :
          (i : ExprId) (m : Node)
          → get_elem? (nodes b₂) i ≡ some m
          → get_elem? (nodes (more b₃ (range_node value (size b₂)))) i ≡ some m
      kept i m e = last i m (get_elem?-keeps (nodes b₂) (sub_node W operands) i m e)

  selects :
      (value : ExprId)
      → Returns
          (Selects b value index node msb lsb (is_direct msb lsb))
          (create_select value index msb lsb b)
  unfolding create_select normalize_index_expr
  selects value = elim (Bool-cases (is_direct msb lsb)) [
    | inl e ↦
        rw (e, range_lem b value index (omega arith))
          (record {
            grown = size-more b (range_node value index);
            constants = refl;
            selected = get_elem?-last (nodes b) (range_node value index);
          })
    | inr e ↦
        rw (position_lem e, e, range_lem b₃ value (size b₂) (omega (arith, sizes.2)))
          (through value)
  ]

  -- Selecting a bit of a node by an index that is there, of a width below 2 ^ 64 - 4, where six more
  -- identifiers are left and the lower bound has a magnitude below 2 ^ 64: where the lower bound is
  -- 0 and not above the upper one, the only new node is the range of one bit at the index; else it
  -- is that at the signed difference of the index and the lower bound, the index first where the
  -- lower bound is not above the upper one, in a width that holds both, with a new constant that
  -- `parse_binary_constant` reads as the lower bound, as an `int`. It has no fault, the earlier
  -- nodes are kept, and the builder stays valid.
  pub create_select_lem :
      (value : ExprId)
      → value < size b
      → Returns
          (λ id t. Adds 6 b id t × Selects b value index node msb lsb (is_direct msb lsb) id t)
          (create_select value index msb lsb b)
  create_select_lem value known =
      Returns-both (Adds 6 b) (Selects b value index node msb lsb (is_direct msb lsb))
        (create_select value index msb lsb b)
        (create_select-Adds b v index node there wide value msb lsb known room small)
        (selects value)
