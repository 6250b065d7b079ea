-- ===== src/Tig/Signals/Moved.antt =====
-- The merge node that a driven name gets, in src/ir/tig_builder.cpp.
use native.Mathlib.Decide.{ℕ_discrete}
use mathlib.Core.Option.{some-injective}
use abys.Prelude.{
  ℕ, suc, ◌≤◌, ◌<◌, ◌≡◌, ◌≢◌, inl, inr, refl, sym, ap, ◌∙◌, String, Bool, true, false, some, List,
  [], ◌∷◌, ◌++◌, Assoc, length, get_elem?, set, lookup, insert, arith, Bool-cases, lt_of_get_elem?,
  get_elem?-top, length-append, length-set, get_elem?-set_self, get_elem?-set_other,
  get_elem?-append_left,
}
use abys.Expr.Graph.{SignalWidth, id_limit, invalid_id}
use abys.Tig.Graph.{
  Node, NodeKind, NodeId, Module, ModuleId, EdgeRef, Output, node_of_kind, is_kind,
}
use abys.Tig.Builder.{TigBuilder, with_node}
use abys.Tig.Builder.Ports.{push_input, push_output, create_merge}
use abys.Tig.Builder.Outputs.{clear_name, insert_merge, merge_of}
use abys.Tig.Builder.Ffs.{is_driver_kind}
use abys.Tig.Signals.{At, output_at, AreNamed}
use abys.Tig.Signals.Nodes.{at_port, output_at-append, output_at_of}
use abys.Tig.Signals.Steps.{
  Reaches, with_nodes, get_node_lem, put_node_lem, create_node_lem, add_node_input_lem,
  move_signal_lem, At-top,
}
use abys.Tig.Signals.Names.{
  AreNamed-take, AreNamed-top, take-keeps, KeepsBut, lookup-insert_self, lookup-insert_other,
}

-- What a name's driver has become: `edge`, of the same width and sign. All other names stay.
pub record Moved (name : String) (width : SignalWidth) (sign : Bool) (m m' : Module)
    (sm sm' : Assoc EdgeRef) (edge : EdgeRef) : Type 0 where
  pub named : AreNamed m'.nodes sm'
  pub driver : lookup name sm' ≡ some edge
  pub shape :
      (o : Output) × (output_at m'.nodes edge ≡ some o) × (o.width ≡ width) × (o.sign ≡ sign)
  pub others : (asked : String) → asked ≢ name → lookup asked sm' ≡ lookup asked sm
  pub keeps : KeepsBut name m.nodes m'.nodes
  pub ports :
      (n : NodeId) (node : Node)
      → get_elem? m.nodes n ≡ some node
      → (node' : Node) × (get_elem? m'.nodes n ≡ some node')
        × (length node'.outputs ≡ length node.outputs)
  pub grows : length m'.nodes ≤ suc (length m.nodes)

-- the node between a driver and its name
abbrev pub merge_node : String → SignalWidth → Bool → EdgeRef → Node
merge_node name width sign driver =
    push_input
      (push_output (node_of_kind NodeKind.merge)
        (record { name = name; width = width; sign = sign }) invalid_id false)
      (record { node_id = driver.node_id; port_idx = driver.port_idx })

module _ (k : ModuleId) (m : Module) (sm : Assoc EdgeRef) (s : TigBuilder) (at : At k m sm s) where
  insert_merge_lem :
      (name : String) (width : SignalWidth) (sign : Bool) (d : EdgeRef)
      → suc (length m.nodes) < id_limit
      → Reaches k
          (with_nodes m (m.nodes ++ merge_node name width sign d ∷ []))
          (insert name (at_port (length m.nodes) 0) sm)
          (at_port (length m.nodes) 0)
          (insert_merge k name width sign d s)
  unfolding insert_merge create_merge
  insert_merge_lem name width sign d room =
      let n : ℕ = length m.nodes in
      let blank : Node = node_of_kind NodeKind.merge in
      let out : Node =
        push_output blank (record { name = name; width = width; sign = sign }) invalid_id false in
      let (t₁, e₁, at₁) = create_node_lem k m sm s at NodeKind.merge (omega arith) in
      let top₁ = get_elem?-top m.nodes blank in
      let (t₂, e₂, at₂) = put_node_lem k _ sm t₁ at₁ n blank out top₁ in
      let at₂' = At-top k m m.nodes blank out sm t₂ at₂ in
      let (t₃, e₃, at₃) =
        add_node_input_lem k _ sm t₂ at₂' n out d.node_id d.port_idx (get_elem?-top m.nodes out)
          room in
      let at₃' = At-top k m m.nodes out (merge_node name width sign d) sm t₃ at₃ in
      let (t₄, e₄, at₄) = move_signal_lem k _ sm t₃ at₃' name (at_port n 0) in
      (t₄, rw (e₁, get_node_lem k _ sm t₁ at₁ n blank top₁, e₂, e₃, e₄) refl, at₄)

  module _ (d : EdgeRef) (old : Node) (output : Output)
      (there : get_elem? m.nodes d.node_id ≡ some old)
      (driver : get_elem? old.outputs d.port_idx ≡ some output) where
    abbrev pub cleared : Node
    cleared = record old { outputs = set old.outputs d.port_idx (record output { name = "" }) }

    pub clear_name_lem : Reaches k (with_node m d.node_id cleared) sm tt (clear_name k d s)
    unfolding clear_name
    clear_name_lem =
        let (t, e, at') = put_node_lem k m sm s at d.node_id old cleared there in
        (t, rw (get_node_lem k m sm s at d.node_id old there, driver, e) refl, at')

-- A name whose driver is an operation or a merge can be driven once more.
pub record IsDriver (m : Module) (d : EdgeRef) (width : SignalWidth) (sign : Bool) : Type 0 where
  pub node : Node
  pub output : Output
  pub there : get_elem? m.nodes d.node_id ≡ some node
  pub driver : get_elem? node.outputs d.port_idx ≡ some output
  pub kind : is_driver_kind node.kind ≡ true
  pub same_width : output.width ≡ width
  pub same_sign : output.sign ≡ sign

module _ (k : ModuleId) (m : Module) (sm : Assoc EdgeRef) (s : TigBuilder) (at : At k m sm s)
    (h : AreNamed m.nodes sm) (name : String) (d : EdgeRef) (found : lookup name sm ≡ some d)
    (width : SignalWidth) (sign : Bool) (is : IsDriver m d width sign) where
  driver_at : output_at m.nodes d ≡ some is.output
  driver_at = output_at_of m.nodes d is.node is.output is.there is.driver

  driver_name : is.output.name ≡ name
  driver_name =
      let (o, o_at, o_is) = h.named name d found in
      ap (λ (q : Output). q.name) (some-injective is.output o (sym driver_at ∙ o_at)) ∙ o_is

  -- the merge that is there already
  stays-Moved : Moved name width sign m m sm sm d
  stays-Moved = record {
    named = h;
    driver = found;
    shape = (is.output, driver_at, is.same_width, is.same_sign);
    others = λ asked ne. refl;
    keeps = λ edge o o_at ne. o_at;
    ports = λ n node there. (node, there, refl);
    grows = omega arith;
  }

  abbrev nodes₁ : List Node
  nodes₁ = set m.nodes d.node_id (cleared k m sm s at d is.node is.output is.there is.driver)

  -- the merge that is made
  new-Moved :
      Moved name width sign m
        (with_nodes m (nodes₁ ++ merge_node name width sign d ∷ []))
        sm
        (insert name (at_port (length nodes₁) 0) sm)
        (at_port (length nodes₁) 0)
  new-Moved =
      let new : Node = merge_node name width sign d in
      let out : Output = record { name = name; width = width; sign = sign } in
      let taken =
        AreNamed-take m.nodes name d is.node
          (cleared k m sm s at d is.node is.output is.there is.driver) is.output is.there is.driver
          refl sm h found in
      let top =
        output_at_of (nodes₁ ++ new ∷ []) (at_port (length nodes₁) 0) new out
          (get_elem?-top nodes₁ new) refl in
      record {
        named = AreNamed-top nodes₁ new out sm taken refl;
        driver = lookup-insert_self name _ sm;
        shape = (out, top, refl, refl);
        others = λ asked ne. lookup-insert_other name asked _ sm ne;
        keeps = λ edge o o_at ne. output_at-append nodes₁ (new ∷ []) edge o (
            take-keeps m.nodes name d is.node _ is.output is.there is.driver refl edge o driver_name
              o_at ne);
        ports = λ n node there. ports n node there (ℕ_discrete d.node_id n);
        grows = omega (
          arith,
          length-append nodes₁ (new ∷ []),
          length-set m.nodes d.node_id (cleared k m sm s at d is.node is.output is.there is.driver),
        );
      }
    where
      ports :
          (n : NodeId) (node : Node)
          → get_elem? m.nodes n ≡ some node
          → Dec (d.node_id ≡ n)
          → (node' : Node) × (get_elem? (nodes₁ ++ merge_node name width sign d ∷ []) n
              ≡ some node')
            × (length node'.outputs ≡ length node.outputs)
      ports n node there (yes e) =
          let wiped = cleared k m sm s at d is.node is.output is.there is.driver in
          let same =
            some-injective is.node node (sym is.there ∙ ap (get_elem? m.nodes) e ∙ there) in
          let self =
            get_elem?-set_self m.nodes d.node_id wiped
              (lt_of_get_elem? m.nodes d.node_id is.there) in
          (
            wiped,
            ap (get_elem? (nodes₁ ++ merge_node name width sign d ∷ [])) (sym e)
                ∙ (get_elem?-append_left nodes₁ (merge_node name width sign d ∷ []) d.node_id
                      (lt_of_get_elem? nodes₁ d.node_id self)
                    ∙ self),
            length-set is.node.outputs d.port_idx (record is.output { name = "" })
                ∙ ap (λ (q : Node). length q.outputs) same,
          )
      ports n node there (no ne) =
          let kept =
            get_elem?-set_other m.nodes d.node_id n
              (cleared k m sm s at d is.node is.output is.there is.driver) ne
            ∙ there in
          (
            node,
            get_elem?-append_left nodes₁ (merge_node name width sign d ∷ []) n
                  (lt_of_get_elem? nodes₁ n kept)
                ∙ kept,
            refl,
          )

  pub merge_of_lem :
      suc (length m.nodes) < id_limit
      → (m' : Module) × (sm' : Assoc EdgeRef) × (edge : EdgeRef) × Moved name width sign m m' sm sm'
          edge
        × Reaches k m' sm' edge (merge_of k name width sign d s)
  unfolding merge_of
  merge_of_lem room = elim (Bool-cases (is_kind is.node.kind NodeKind.merge)) [
    | inl e ↦ (
      m,
      sm,
      d,
      stays-Moved,
      (s, rw (get_node_lem k m sm s at d.node_id is.node is.there, e) refl, at),
    )
    | inr e ↦
        let (t₁, e₁, at₁) = clear_name_lem k m sm s at d is.node is.output is.there is.driver in
        let (t₂, e₂, at₂) = insert_merge_lem k _ sm t₁ at₁ name width sign d (
          omega (
            arith,
            room,
            length-set m.nodes d.node_id
                (cleared k m sm s at d is.node is.output is.there is.driver),
          )) in
        (
          _,
          _,
          _,
          new-Moved,
          (
            t₂,
            rw (get_node_lem k m sm s at d.node_id is.node is.there, e, op_kind e, e₁, e₂) refl,
            at₂,
          ),
        )
  ]
    where
      op_kind :
          is_kind is.node.kind NodeKind.merge ≡ false → is_kind is.node.kind NodeKind.op ≡ true
      op_kind e = let e' = is.kind in ground arith
