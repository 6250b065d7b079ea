-- ===== src/Expr/Valid/Names.antt =====
-- The inputs and names of src/ir/expr_builder.cpp on valid builders.
use mathlib.Core.Option.{some-injective}
use abys.Prelude.{
  Option-cases, ◌<◌, ◌≡◌, refl, sym, ltb, ◌==◌, ◌⊎◌, true, false, Bool, String, Option, none, some,
  List, [], ◌∷◌, ◌++◌, ◌≢◌, inl, inr, arith, if◌then◌else◌, Bool-cases, lt_of_get_elem?, lt→ltb,
  set-append_right, lookup, insert, erase, lookup-insert, lookup-erase, str_eq, none-ne-some,
}
use abys.Run.{Returns, Returns-of_eq, Returns-both}
use abys.Expr.Graph.{ExprId, Node, Op, SignalWidth, blank, invalid_id}
use abys.Expr.Builder.{Builder, size, nodes, put_node}
use abys.Expr.Builder.Names.{
  or_invalid, get_current_value, update_value, remove_input, add_input, known_input,
  find_or_create_input,
}
use abys.Expr.Valid.{IsValid, Adds}
use abys.Expr.Valid.Append.{add-Adds, Adds-same, Adds-weaken}
use abys.Expr.Valid.Made.{more, create_node_lem, size-more}

abbrev with_input : Builder → String → ExprId → Builder
with_input b name id = record b {
  graph = record b.graph { inputs = insert name id b.graph.inputs };
  name_map = insert name id b.name_map;
}

abbrev input_node : SignalWidth → Bool → Node
input_node width sign = record { op = Op.input; width = width; sign = sign; operands = [] }

add_input_lem :
    (b : Builder)
    → size b < invalid_id
    → (name : String) (width : SignalWidth) (sign : Bool)
    → add_input name width sign b
      ≡ some (size b, with_input (more b (input_node width sign)) name (size b))
unfolding add_input update_value put_node
add_input_lem b room name width sign =
    let bound : ltb (size b) (size (more b blank)) ≡ true =
      lt→ltb _ _ (omega (arith, size-more b blank)) in
    rw (create_node_lem b room, bound, set-append_right (nodes b) [] blank (input_node width sign))
      refl

-- what a name stands for, after an insertion: the new value or what it stood for before
lookup_cases :
    (k j : String) (v w : ExprId) (m : List (String × ExprId))
    → lookup j (insert k v m) ≡ some w
    → (lookup j m ≡ some w) ⊎ (w ≡ v)
lookup_cases k j v w m h = elim (Bool-cases (str_eq k j)) [
  | inl same ↦ inr (sym (some-injective v w (rw (lookup-insert k j v m, same) at h)))
  | inr other ↦ inl (rw (lookup-insert k j v m, other) at h)
]

lookup_erased :
    (k j : String) (w : ExprId) (m : List (String × ExprId))
    → lookup j (erase k m) ≡ some w
    → lookup j m ≡ some w
lookup_erased k j w m h = elim (Bool-cases (str_eq k j)) [
  | inl same ↦ absurd (none-ne-some w (rw (lookup-erase k j m, same) at h))
  | inr other ↦ rw (lookup-erase k j m, other) at h
]

-- The node of a name: its current value, or its input where it has no value, or a new input, which is
-- then the input and the value of the name and of no other.
pub data Source (b : Builder) (name : String) (width : SignalWidth) (sign : Bool) (id : ExprId)
    (b' : Builder) : Type 0 where
  current :
      get_current_value name b ≢ invalid_id
      → id ≡ get_current_value name b
      → b' ≡ b
      → Source b name width sign id b'
  known :
      get_current_value name b ≡ invalid_id
      → lookup name b.graph.inputs ≡ some id
      → b' ≡ b
      → Source b name width sign id b'
  created :
      get_current_value name b ≡ invalid_id
      → lookup name b.graph.inputs ≡ none
      → id ≡ size b
      → nodes b' ≡ nodes b ++ input_node width sign ∷ []
      → ((other : String)
          → lookup other b'.graph.inputs
            ≡ (if str_eq name other then some id else lookup other b.graph.inputs))
      → ((other : String)
          → get_current_value other b'
            ≡ (if str_eq name other then id else get_current_value other b))
      → Source b name width sign id b'

module _ (b : Builder) (v : IsValid b) where
  add_input-Adds :
      size b < invalid_id
      → (name : String) (width : SignalWidth) (sign : Bool)
      → Returns (Adds 1 b) (add_input name width sign b)
  add_input-Adds room name width sign =
      Returns-of_eq (Adds 1 b) _ _ _ (add_input_lem b room name width sign) (
        add-Adds b _ (input_node width sign) v room tt
          (record {
            nodes = refl;
            inputs = λ other id h. elim (lookup_cases name other (size b) id b.graph.inputs h) [
              | inl old ↦ inl old
              | inr new ↦ inr (new, refl)
            ];
            constants = λ i w h. (w, h);
            constant = λ e. absurd (cc);
            properties = λ i p h. (p, h);
            property = λ e. absurd (cc);
          })
          (λ other id h. lookup_cases name other (size b) id b.name_map h))

  known_input-Adds :
      size b < invalid_id
      → (input : Option ExprId) (name : String) (width : SignalWidth) (sign : Bool)
      → ((id : ExprId) → input ≡ some id → id < size b)
      → Returns (Adds 1 b) (known_input input name width sign b)
  unfolding known_input
  known_input-Adds room none name width sign h = add_input-Adds room name width sign
  known_input-Adds room (some id) name width sign h =
      Adds-weaken 0 1 b id b (omega arith) (Adds-same b id v (h id refl))

  input_exists : (name : String) (id : ExprId) → lookup name b.graph.inputs ≡ some id → id < size b
  input_exists name id h =
      let (node, there, is_input) = v.well_formed.inputs name id h in
      lt_of_get_elem? (nodes b) id there

  current_exists :
      (name : String)
      → (get_current_value name b == invalid_id) ≡ false
      → get_current_value name b < size b
  unfolding get_current_value or_invalid
  current_exists name h = elim (Option-cases (lookup name b.name_map)) [
    | inl missing ↦ absurd (ground (arith, missing))
    | inr (id, there) ↦ rw there (v.names name id there)
  ]

  current_value-insert :
      (name other : String) (id : ExprId)
      → get_current_value other (record b { name_map = insert name id b.name_map })
        ≡ (if str_eq name other then id else get_current_value other b)
  unfolding get_current_value or_invalid
  current_value-insert name other id = elim (Bool-cases (str_eq name other)) [
    | inl same ↦ rw (lookup-insert name other id b.name_map, same) refl
    | inr different ↦ rw (lookup-insert name other id b.name_map, different) refl
  ]

  -- a new input, with what its name and other names stand for
  added_input-Source :
      (name : String) (width : SignalWidth) (sign : Bool)
      → get_current_value name b ≡ invalid_id
      → lookup name b.graph.inputs ≡ none
      → Source b name width sign
          (size b)
          (with_input (more b (input_node width sign)) name (size b))
  unfolding get_current_value
  added_input-Source name width sign free new =
      Source.created free new refl refl (λ other. lookup-insert name other (size b) b.graph.inputs)
        (λ other. current_value-insert name other (size b))

  found_or_created :
      size b < invalid_id
      → (name : String) (width : SignalWidth) (sign : Bool)
      → Returns (Source b name width sign) (find_or_create_input name width sign b)
  unfolding find_or_create_input known_input
  found_or_created room name width sign =
      elim (Bool-cases (get_current_value name b == invalid_id)) [
        | inr there ↦
            let valid : get_current_value name b ≢ invalid_id = ground arith in
            rw there (Source.current valid refl refl)
        | inl missing ↦
            let free : get_current_value name b ≡ invalid_id = ground arith in
            rw missing (elim (Option-cases (lookup name b.graph.inputs)) [
              | inr (id, listed) ↦ rw listed (Source.known free listed refl)
              | inl new ↦
                  rw (new, add_input_lem b room name width sign)
                    (added_input-Source name width sign free new)
            ])
      ]

  pub find_or_create_input-Adds :
      size b < invalid_id
      → (name : String) (width : SignalWidth) (sign : Bool)
      → Returns (Adds 1 b) (find_or_create_input name width sign b)
  unfolding find_or_create_input
  find_or_create_input-Adds room name width sign =
      elim (Bool-cases (get_current_value name b == invalid_id)) [
        | inl missing ↦ rw missing (
            known_input-Adds room (lookup name b.graph.inputs) name width sign
              (λ id h. input_exists name id h))
        | inr there ↦
            rw there
              (Adds-weaken 0 1 b _ b (omega arith) (Adds-same b _ v (current_exists name there)))
      ]

  -- Where an identifier is left, the node of a name is its current value where it has one, and else
  -- its input, and then nothing changes; a name with neither gets one new node, an input of the
  -- given width and sign, which becomes the input and the current value of this name and of no
  -- other. It has no fault, the earlier nodes are kept, and the builder stays valid.
  pub find_or_create_input-IsFound :
      size b < invalid_id
      → (name : String) (width : SignalWidth) (sign : Bool)
      → Returns
          (λ id b'. Adds 1 b id b' × Source b name width sign id b')
          (find_or_create_input name width sign b)
  find_or_create_input-IsFound room name width sign =
      Returns-both (Adds 1 b) (Source b name width sign) (find_or_create_input name width sign b)
        (find_or_create_input-Adds room name width sign) (found_or_created room name width sign)

  update_value-IsValid :
      (name : String) (id : ExprId)
      → id < size b
      → IsValid (record b { name_map = insert name id b.name_map })
  update_value-IsValid name id there = record {
    well_formed = v.well_formed;
    names = λ other i h. elim (lookup_cases name other id i b.name_map h) [
      | inl old ↦ v.names other i old
      | inr new ↦ rw new there
    ];
  }

  pub update_value_lem :
      (name : String) (id : ExprId)
      → id < size b
      → Returns
          (λ u b'.
            IsValid b'
            × ((other : String)
                → get_current_value other b'
                  ≡ (if str_eq name other then id else get_current_value other b)))
          (update_value name id b)
  unfolding update_value
  update_value_lem name id there =
      (update_value-IsValid name id there, λ other. current_value-insert name other id)

  pub remove_input_lem :
      (name : String)
      → Returns
          (λ u b'.
            IsValid b'
            × ((other : String)
                → lookup other b'.graph.inputs
                  ≡ (if str_eq name other then none else lookup other b.graph.inputs)))
          (remove_input name b)
  unfolding remove_input
  remove_input_lem name = (
    record {
      well_formed = record {
        rank = v.well_formed.rank;
        ranked = v.well_formed.ranked;
        shared = v.well_formed.shared;
        fits = v.well_formed.fits;
        inputs = λ other id h.
            v.well_formed.inputs other id (lookup_erased name other id b.graph.inputs h);
        constants = v.well_formed.constants;
        sequences = v.well_formed.sequences;
      };
      names = v.names;
    },
    λ other. lookup-erase name other b.graph.inputs,
  )
