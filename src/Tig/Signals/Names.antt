-- ===== src/Tig/Signals/Names.antt =====
-- The names of outputs and the map of signals, when outputs are added and names move:
-- src/ir/tig_builder.cpp.
use mathlib.Core.Option.{some-injective}
use mathlib.Core.Path.{subst}
use abys.Prelude.{
  set-append_right, get_elem?-top, ℕ, ◌≡◌, ◌≢◌, ◌⊎◌, inl, inr, refl, sym, ap, ◌∙◌, String, str_eq,
  eq_iff, none, some, List, [], ◌∷◌, ◌++◌, All, Assoc, length, get_elem?, set, lookup, insert,
  lookup-insert, arith, All-get_elem?, none-ne-some, Bool-cases, Option-cases, lt_of_get_elem?,
}
use abys.Tig.Graph.{Node, EdgeRef, Output}
use abys.Tig.Signals.{output_at, AreNamed, signal_shape}
use abys.Tig.Signals.Nodes.{
  at_port, output_at-append, output_at-append_cases, output_at-push_old, output_at-push_new,
  output_at-push_cases, output_at-set, output_at-set_self, output_at_of,
}

-- The map has the outputs with names but for one name, which no output has.
pub record AreNamedBut (name : String) (nodes : List Node) (signal_map : Assoc EdgeRef)
    : Type 0 where
  pub named :
      (other : String) (edge : EdgeRef)
      → other ≢ name
      → lookup other signal_map ≡ some edge
      → (output : Output) × (output_at nodes edge ≡ some output) × (output.name ≡ other)
  pub mapped :
      (edge : EdgeRef) (output : Output)
      → output_at nodes edge ≡ some output
      → output.name ≢ ""
      → (output.name ≢ name) × (lookup output.name signal_map ≡ some edge)

pub lookup-insert_self :
    {A : Type 0} (name : String) (v : A) (entries : Assoc A)
    → lookup name (insert name v entries) ≡ some v
lookup-insert_self name v entries =
    ground (lookup-insert name name v entries, eq_iff name name, arith)

pub lookup-insert_other :
    {A : Type 0} (name asked : String) (v : A) (entries : Assoc A)
    → asked ≢ name
    → lookup asked (insert name v entries) ≡ lookup asked entries
lookup-insert_other name asked v entries ne =
    ground (lookup-insert name asked v entries, eq_iff name asked, arith)

pub same_name : (a b : String) → (a ≡ b) ⊎ (a ≢ b)
same_name a b = elim (Bool-cases (str_eq a b)) [
  | inl e ↦ inl (ground (arith, eq_iff a b))
  | inr e ↦ inr (λ h. ground (arith, eq_iff a b))
]

abbrev pub IsUnnamed : Node → Type 0
IsUnnamed node = All (λ (o : Output). o.name ≡ "") node.outputs

new_name :
    (more : List Node) (j : ℕ) (node : Node) (port : ℕ) (o : Output)
    → All IsUnnamed more
    → get_elem? more j ≡ some node
    → get_elem? node.outputs port ≡ some o
    → o.name ≡ ""
new_name more j node port o h there at =
    All-get_elem? (λ (o : Output). o.name ≡ "") node.outputs port
      (All-get_elem? IsUnnamed more j h there) at

pub AreNamedBut-append :
    (name : String) (nodes more : List Node) (sm : Assoc EdgeRef)
    → AreNamedBut name nodes sm
    → All IsUnnamed more
    → AreNamedBut name (nodes ++ more) sm
AreNamedBut-append name nodes more sm h unnamed = record {
  named = λ other edge ne e.
      let (o, there, is) = h.named other edge ne e in
      (o, output_at-append nodes more edge o there, is);
  mapped = λ edge o there has. elim (output_at-append_cases nodes more edge o there) [
    | inl old ↦ h.mapped edge o old has
    | inr (j, node, e, new, at) ↦ absurd (has (new_name more j node edge.port_idx o unnamed new at))
  ];
}

pub AreNamed-append :
    (nodes more : List Node) (sm : Assoc EdgeRef)
    → AreNamed nodes sm
    → All IsUnnamed more
    → AreNamed (nodes ++ more) sm
AreNamed-append nodes more sm h unnamed = record {
  named = λ other edge e.
      let (o, there, is) = h.named other edge e in
      (o, output_at-append nodes more edge o there, is);
  mapped = λ edge o there has. elim (output_at-append_cases nodes more edge o there) [
    | inl old ↦ h.mapped edge o old has
    | inr (j, node, e, new, at) ↦ absurd (has (new_name more j node edge.port_idx o unnamed new at))
  ];
}

pub AreNamed-same :
    (nodes nodes' : List Node) (sm : Assoc EdgeRef)
    → ((edge : EdgeRef) → output_at nodes' edge ≡ output_at nodes edge)
    → AreNamed nodes sm
    → AreNamed nodes' sm
AreNamed-same nodes nodes' sm same h = record {
  named = λ name edge e. let (o, at, is) = h.named name edge e in (o, same edge ∙ at, is);
  mapped = λ edge o at has. h.mapped edge o (sym (same edge) ∙ at) has;
}

-- A name that is not driven.
pub AreNamed-none :
    (name : String) (nodes : List Node) (sm : Assoc EdgeRef)
    → AreNamed nodes sm
    → lookup name sm ≡ none
    → AreNamedBut name nodes sm
AreNamed-none name nodes sm h e = record {
  named = λ other edge ne found. h.named other edge found;
  mapped = λ edge o there has.
      let found = h.mapped edge o there has in
      (λ same. none-ne-some edge (sym e ∙ ap (λ n. lookup n sm) (sym same) ∙ found), found);
}

module _ (nodes : List Node) (k : ℕ) (old new : Node) (output : Output)
    (there : get_elem? nodes k ≡ some old) (more : new.outputs ≡ old.outputs ++ output ∷ []) where
  -- an output without a name
  pub AreNamed-push :
      (sm : Assoc EdgeRef) → AreNamed nodes sm → output.name ≡ "" → AreNamed (set nodes k new) sm
  AreNamed-push sm h unnamed = record {
    named = λ other edge e.
        let (o, at, is) = h.named other edge e in
        (o, output_at-push_old nodes k old new output edge o there more at, is);
    mapped = λ edge o at has.
        elim (output_at-push_cases nodes k old new output edge o there more at) [
          | inl old_one ↦ h.mapped edge o old_one has
          | inr (e, same) ↦ absurd (has (ap (λ (p : Output). p.name) same ∙ unnamed))
        ];
  }

  -- the output that gets the name
  pub AreNamed-give :
      (sm : Assoc EdgeRef)
      → AreNamedBut output.name nodes sm
      → AreNamed (set nodes k new) (insert output.name (at_port k (length old.outputs)) sm)
  AreNamed-give sm h = record {
    named = λ other edge e. elim (same_name other output.name) [
      | inl same ↦ (
        output,
        ap (output_at (set nodes k new)) (sym (edge_of other edge same e))
            ∙ output_at-push_new nodes k old new output there more,
        sym same,
      )
      | inr ne ↦
          let found = sym (lookup-insert_other output.name other _ sm ne) ∙ e in
          let (o, at, is) = h.named other edge ne found in
          (o, output_at-push_old nodes k old new output edge o there more at, is)
    ];
    mapped = λ edge o at has.
        elim (output_at-push_cases nodes k old new output edge o there more at) [
          | inl old_one ↦
              let (ne, found) = h.mapped edge o old_one has in
              lookup-insert_other output.name o.name _ sm ne ∙ found
          | inr (e, same) ↦
              rw (same, e) (lookup-insert_self output.name (at_port k (length old.outputs)) sm)
        ];
  }
    where
      edge_of :
          (other : String) (edge : EdgeRef)
          → other ≡ output.name
          → lookup other (insert output.name (at_port k (length old.outputs)) sm) ≡ some edge
          → at_port k (length old.outputs) ≡ edge
      edge_of other edge same e =
          some-injective _ _ (
            sym (lookup-insert_self output.name (at_port k (length old.outputs)) sm) ∙ rw same at e)

-- A name is taken from the output that has it.
module _ (nodes : List Node) (name : String) (d : EdgeRef) (old new : Node) (output : Output)
    (there : get_elem? nodes d.node_id ≡ some old)
    (driver : get_elem? old.outputs d.port_idx ≡ some output)
    (cleared : new.outputs ≡ set old.outputs d.port_idx (record output { name = "" })) where
  pub AreNamed-take :
      (sm : Assoc EdgeRef)
      → AreNamed nodes sm
      → lookup name sm ≡ some d
      → AreNamedBut name (set nodes d.node_id new) sm
  AreNamed-take sm h found = record {
    named = λ other edge ne e.
        let (o, at, is) = h.named other edge e in
        (
          o,
          output_at-set nodes d old new _ edge there cleared (not_driver other edge ne o at is)
              ∙ at,
          is,
        );
    mapped = λ edge o at has.
        let apart = not_cleared edge o at has in
        let at' = sym (output_at-set nodes d old new _ edge there cleared apart) ∙ at in
        let found' = h.mapped edge o at' has in
        (
          λ same. apart (some-injective edge d (sym found' ∙ ap (λ n. lookup n sm) same ∙ found)),
          found',
        );
  }
    where
      driver_at : output_at nodes d ≡ some output
      driver_at = output_at_of nodes d old output there driver

      not_driver :
          (other : String) (edge : EdgeRef)
          → other ≢ name
          → (o : Output) → output_at nodes edge ≡ some o
          → o.name ≡ other
          → edge ≢ d
      not_driver other edge ne o at is e =
          let (p, at', is') = h.named name d found in
          let o_is = some-injective o output (sym at ∙ ap (output_at nodes) e ∙ driver_at) in
          let p_is = some-injective p output (sym at' ∙ driver_at) in
          ne (sym is ∙ ap (λ (q : Output). q.name) (o_is ∙ sym p_is) ∙ is')

      not_cleared :
          (edge : EdgeRef) (o : Output)
          → output_at (set nodes d.node_id new) edge ≡ some o
          → o.name ≢ ""
          → edge ≢ d
      not_cleared edge o at has e = has (
          ap (λ (q : Output). q.name)
            (some-injective o _ (
              sym at
              ∙ ap (output_at (set nodes d.node_id new)) e
              ∙ output_at-set_self nodes d old new _ there
                  (lt_of_get_elem? old.outputs d.port_idx driver) cleared)))

  -- Every output but the one of the name stays.
  pub take-keeps :
      (edge : EdgeRef) (o : Output)
      → output.name ≡ name
      → output_at nodes edge ≡ some o
      → o.name ≢ name
      → output_at (set nodes d.node_id new) edge ≡ some o
  take-keeps edge o is at ne =
      output_at-set nodes d old new _ edge there cleared (λ e. ne (
        ap (λ (q : Output). q.name)
          (some-injective o output
            (sym at ∙ ap (output_at nodes) e ∙ output_at_of nodes d old output there driver))
        ∙ is))
      ∙ at

-- The outputs of all names but one stay.
abbrev pub KeepsBut : String → List Node → List Node → Type 0
KeepsBut name nodes nodes' =
    (edge : EdgeRef) (o : Output)
    → output_at nodes edge ≡ some o
    → o.name ≢ name
    → output_at nodes' edge ≡ some o

-- What is promised of a name that keeps its output.
pub signal_shape-keeps :
    (asked : String) (nodes nodes' : List Node) (sm sm' : Assoc EdgeRef)
    → AreNamed nodes sm
    → ((edge : EdgeRef) (o : Output)
        → output_at nodes edge ≡ some o
        → o.name ≡ asked
        → output_at nodes' edge ≡ some o)
    → lookup asked sm' ≡ lookup asked sm
    → signal_shape nodes' sm' asked ≡ signal_shape nodes sm asked
unfolding signal_shape
signal_shape-keeps asked nodes nodes' sm sm' h keeps same = elim (Option-cases (lookup asked sm)) [
  | inl e ↦ rw (same, e) refl
  | inr (edge, e) ↦
      let (o, at, is) = h.named asked edge e in rw (same, e, at, keeps edge o at is) refl
]

pub signal_shape-others :
    (name asked : String) (nodes nodes' : List Node) (sm sm' : Assoc EdgeRef)
    → AreNamed nodes sm
    → KeepsBut name nodes nodes'
    → lookup asked sm' ≡ lookup asked sm
    → asked ≢ name
    → signal_shape nodes' sm' asked ≡ signal_shape nodes sm asked
signal_shape-others name asked nodes nodes' sm sm' h keeps same ne =
    signal_shape-keeps asked nodes nodes' sm sm' h
      (λ edge o at is. keeps edge o at (λ q. ne (sym is ∙ q))) same

pub signal_shape_of :
    (name : String) (nodes : List Node) (sm : Assoc EdgeRef) (edge : EdgeRef) (o : Output)
    → lookup name sm ≡ some edge
    → output_at nodes edge ≡ some o
    → signal_shape nodes sm name ≡ some (o.width, o.sign)
unfolding signal_shape
signal_shape_of name nodes sm edge o e at = rw (e, at) refl

-- A new node gets the name.
pub AreNamed-top :
    (nodes : List Node) (node : Node) (output : Output) (sm : Assoc EdgeRef)
    → AreNamedBut output.name nodes sm
    → node.outputs ≡ output ∷ []
    → AreNamed (nodes ++ node ∷ []) (insert output.name (at_port (length nodes) 0) sm)
AreNamed-top nodes node output sm h only =
    let bare : Node = record node { outputs = [] } in
    subst (λ ns. AreNamed ns (insert output.name (at_port (length nodes) 0) sm))
      (set-append_right nodes [] bare node)
      (AreNamed-give (nodes ++ bare ∷ []) (length nodes) bare node output (get_elem?-top nodes bare)
        only sm (AreNamedBut-append output.name nodes (bare ∷ []) sm h (tt, tt)))
