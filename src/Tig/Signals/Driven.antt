-- ===== src/Tig/Signals/Driven.antt =====
-- `add_node_output` in src/ir/tig_builder.cpp, which drives a name.
use abys.Prelude.{
  suc, ◌%◌, ◌<◌, ◌≡◌, ◌≢◌, ◌⊎◌, inl, inr, refl, ◌∙◌, ◌==◌, ◌&&◌, not, String, str_eq, eq_iff, Bool,
  true, false, none, some, List, [], ◌∷◌, ◌++◌, Assoc, length, get_elem?, lookup, insert,
  if◌then◌else◌, arith, Option-cases, lt_of_get_elem?, get_elem?-set_self,
}
use abys.Run.{Returns}
use abys.Expr.Graph.{ExprId, SignalWidth, id_limit}
use abys.Tig.Graph.{Node, NodeId, Module, ModuleId, EdgeRef, Output, invalid_node}
use abys.Tig.Builder.{TigBuilder, with_node}
use abys.Tig.Builder.Ports.{push_input, push_output}
use abys.Tig.Builder.Outputs.{add_node_output, name_output, eq_bool}
use abys.Tig.Signals.{At, output_at, AreNamed, signal_shape}
use abys.Tig.Signals.Nodes.{
  at_port, output_at-same, output_at_of, output_at-push_old, output_at-push_new, node_of,
  node_after,
}
use abys.Tig.Signals.Steps.{
  get_node_lem, put_node_lem, get_signal_map_lem, get_signal_spec_lem, add_node_input_lem,
  add_signal_lem,
}
use abys.Tig.Signals.Names.{
  AreNamed-same, AreNamed-push, AreNamed-give, AreNamed-none, signal_shape-keeps,
  signal_shape-others, signal_shape_of, lookup-insert_self, lookup-insert_other, same_name,
}
use abys.Tig.Signals.Moved.{IsDriver, merge_of_lem}

-- The driver of a name is an output, or a node whose last input is that output.
abbrev pub IsDrivenBy : Module → Assoc EdgeRef → String → EdgeRef → Type 0
IsDrivenBy m sm name source =
    (edge : EdgeRef) × (lookup name sm ≡ some edge)
    × ((edge ≡ source)
        ⊎ ((node : Node) × (before : List EdgeRef) × (get_elem? m.nodes edge.node_id ≡ some node)
            × (node.inputs ≡ before ++ source ∷ [])))

-- What a module has after an output was added: the names are in the map, and the name of the output is
-- driven, by it too.
pub record HasOutput (k : ModuleId) (m : Module) (sm : Assoc EdgeRef) (name : String)
    (width : SignalWidth) (sign : Bool) (source : EdgeRef) (t : TigBuilder) : Type 0 where
  pub m' : Module
  pub sm' : Assoc EdgeRef
  pub at : At k m' sm' t
  pub named : AreNamed m'.nodes sm'
  pub shapes :
      (asked : String)
      → signal_shape m'.nodes sm' asked ≡ (
          if not (str_eq name "") && str_eq name asked
          then some (width, sign)
          else signal_shape m.nodes sm asked)
  pub driven : name ≢ "" → IsDrivenBy m' sm' name source

has_name : (name : String) → name ≢ "" → str_eq name "" ≡ false
has_name name ne = ground (arith, eq_iff name "")

pub spec_check :
    (o : Output) (width : SignalWidth) (sign : Bool)
    → o.width ≡ width
    → o.sign ≡ sign
    → (o.width == width && eq_bool o.sign sign) ≡ true
spec_check o width sign e e' = rw (e, e') (ground arith)

module _ (k : ModuleId) (m : Module) (sm : Assoc EdgeRef) (h : AreNamed m.nodes sm) (n : NodeId)
    (node : Node) (there : get_elem? m.nodes n ≡ some node) (name : String) (width : SignalWidth)
    (sign : Bool) where
  -- The shapes, from those of the name and of all other names.
  shapes_of :
      (m' : Module) (sm' : Assoc EdgeRef)
      → name ≢ ""
      → signal_shape m'.nodes sm' name ≡ some (width, sign)
      → ((asked : String)
          → asked ≢ name
          → signal_shape m'.nodes sm' asked ≡ signal_shape m.nodes sm asked)
      → (asked : String)
      → signal_shape m'.nodes sm' asked ≡ (
          if not (str_eq name "") && str_eq name asked
          then some (width, sign)
          else signal_shape m.nodes sm asked)
  shapes_of m' sm' ne own others asked = elim (same_name asked name) [
    | inl e ↦ rw (e, has_name name ne, str_eq_self) own
    | inr other ↦ rw (has_name name ne, str_eq_other other) (others asked other)
  ]
    where
      str_eq_self : str_eq name name ≡ true
      str_eq_self = ground (arith, eq_iff name name)

      str_eq_other : asked ≢ name → str_eq name asked ≡ false
      str_eq_other other = ground (arith, eq_iff name asked)

  module _ (s : TigBuilder) (at : At k m sm s) (expr_id : ExprId) (comb : Bool)
      (room : suc (length m.nodes) < id_limit) (ports : length node.outputs < id_limit) where
    abbrev source : EdgeRef
    source = at_port n (length node.outputs)

    fresh_lem :
        name ≢ ""
        → lookup name sm ≡ none
        → Returns
            (λ port t. (port ≡ length node.outputs) × HasOutput k m sm name width sign source t)
            (add_node_output k n name width sign expr_id comb s)
    unfolding add_node_output name_output
    fresh_lem ne free =
        let output : Output = record { name = name; width = width; sign = sign } in
        let new : Node = push_output node output expr_id comb in
        let (t₁, e₁, at₁) = add_signal_lem k m sm s at name source free in
        let (t₂, e₂, at₂) = put_node_lem k m _ t₁ at₁ n node new there in
        let port : length node.outputs % id_limit ≡ length node.outputs = omega arith in
        let own = output_at-push_new m.nodes n node new output there refl in
        rw
          (
            get_node_lem k m sm s at n node there,
            get_signal_map_lem k m sm s at,
            has_name name ne,
            free,
            port,
            e₁,
            get_node_lem k m _ t₁ at₁ n node there,
            e₂,
          )
          (
            refl,
            record {
              m' = with_node m n new;
              sm' = insert name source sm;
              at = at₂;
              named =
                  AreNamed-give m.nodes n node new output there refl sm
                    (AreNamed-none name m.nodes sm h free);
              shapes =
                  shapes_of (with_node m n new) (insert name source sm) ne
                    (signal_shape_of name _ _ source output (lookup-insert_self name source sm) own)
                    (λ asked other.
                      signal_shape-others name asked m.nodes _ sm _ h
                        (λ edge o o_at ne'.
                          output_at-push_old m.nodes n node new output edge o there refl o_at)
                        (lookup-insert_other name asked source sm other) other);
              driven = λ ne'. (source, lookup-insert_self name source sm, inl refl);
            },
          )

    unnamed_lem :
        name ≡ ""
        → Returns
            (λ port t. (port ≡ length node.outputs) × HasOutput k m sm name width sign source t)
            (add_node_output k n name width sign expr_id comb s)
    unfolding add_node_output
    unnamed_lem e =
        let output : Output = record { name = ""; width = width; sign = sign } in
        let new : Node = push_output node output expr_id comb in
        let (t, e', at') = put_node_lem k m sm s at n node new there in
        let port : length node.outputs % id_limit ≡ length node.outputs = omega arith in
        rw
          (
            e,
            get_node_lem k m sm s at n node there,
            get_signal_map_lem k m sm s at,
            port,
            get_node_lem k m sm s at n node there,
            e',
          )
          (
            refl,
            record {
              m' = with_node m n new;
              sm' = sm;
              at = at';
              named = AreNamed-push m.nodes n node new output there refl sm h refl;
              shapes = λ asked.
                  signal_shape-keeps asked m.nodes _ sm sm h
                    (λ edge o o_at is.
                      output_at-push_old m.nodes n node new output edge o there refl o_at)
                    refl;
              driven = λ ne. absurd (ne refl);
            },
          )

    merged_lem :
        (d : EdgeRef)
        → name ≢ ""
        → lookup name sm ≡ some d
        → IsDriver m d width sign
        → Returns
            (λ port t. (port ≡ length node.outputs) × HasOutput k m sm name width sign source t)
            (add_node_output k n name width sign expr_id comb s)
    unfolding add_node_output name_output
    merged_lem d ne found is =
        let (m₁, sm₁, edge, moved, (t₁, e₁, at₁)) =
          merge_of_lem k m sm s at h name d found width sign is room in
        let (o, o_at, o_width, o_sign) = moved.shape in
        let (merge, merge_there) = node_of m₁.nodes edge o o_at in
        let (t₂, e₂, at₂) =
          add_node_input_lem k m₁ sm₁ t₁ at₁ edge.node_id merge n (length node.outputs) merge_there
            (omega (arith, lt_of_get_elem? m₁.nodes edge.node_id merge_there, moved.grows)) in
        let fed : Node = push_input merge source in
        let m₂ : Module = with_node m₁ edge.node_id fed in
        let same₂ =
          λ (e : EdgeRef). output_at-same m₁.nodes edge.node_id merge fed e merge_there refl in
        let (node₁, there₁, long₁) = moved.ports n node there in
        let (node₂, there₂, outputs₂) =
          node_after (λ (q : Node). q.outputs) m₁.nodes edge.node_id n merge fed node₁ merge_there
            refl there₁ in
        let out : Output = record { name = ""; width = width; sign = sign } in
        let node₃ : Node = push_output node₂ out expr_id comb in
        let m₃ : Module = with_node m₂ n node₃ in
        let (t₃, e₃, at₃) = put_node_lem k m₂ sm₁ t₂ at₂ n node₂ node₃ there₂ in
        let kept₃ = λ (e : EdgeRef) (p : Output) (q : output_at m₁.nodes e ≡ some p).
          output_at-push_old m₂.nodes n node₂ node₃ out e p there₂ refl (same₂ e ∙ q) in
        let own = signal_shape_of name m₃.nodes sm₁ edge o moved.driver (kept₃ edge o o_at) in
        let (fed', fed_there, fed_inputs) =
          node_after (λ (q : Node). q.inputs) m₂.nodes n edge.node_id node₂ node₃ fed there₂ refl
            (get_elem?-set_self m₁.nodes edge.node_id fed
              (lt_of_get_elem? m₁.nodes edge.node_id merge_there)) in
        let port : length node.outputs % id_limit ≡ length node.outputs = omega arith in
        rw
          (
            get_node_lem k m sm s at n node there,
            get_signal_map_lem k m sm s at,
            has_name name ne,
            found,
            port,
            get_signal_spec_lem k m sm s at d is.output
                (output_at_of m.nodes d is.node is.output is.there is.driver),
            spec_check is.output width sign is.same_width is.same_sign,
            driver_check d is,
            e₁,
            e₂,
            get_node_lem k m₂ sm₁ t₂ at₂ n node₂ there₂,
            e₃,
          )
          (
            refl,
            record {
              m' = m₃;
              sm' = sm₁;
              at = at₃;
              named =
                  AreNamed-push m₂.nodes n node₂ node₃ out there₂ refl sm₁
                    (AreNamed-same m₁.nodes m₂.nodes sm₁ same₂ moved.named) refl;
              shapes = shapes_of m₃ sm₁ ne (own ∙ (λ i. some (o_width i, o_sign i))) (λ asked other.
                  signal_shape-others name asked m.nodes m₃.nodes sm sm₁ h
                    (λ e p q ne'. kept₃ e p (moved.keeps e p q ne')) (moved.others asked other)
                    other);
              driven = λ ne'. (edge, moved.driver, inr (fed', merge.inputs, fed_there, fed_inputs));
            },
          )
      where
        driver_check : (d : EdgeRef) → IsDriver m d width sign → (d.node_id == invalid_node) ≡ false
        driver_check d is = let lt = lt_of_get_elem? m.nodes d.node_id is.there in ground arith

    -- An output for a node that is there, under a name or none, where the map of signals has exactly
    -- the outputs with names, an identifier and a port are left, and a driver that the name has is
    -- an operation or a merge of the same width and sign: adding it has no fault and yields the next
    -- port of the node; the map has exactly the outputs with names again, the name has the width and
    -- sign and all other signals keep theirs, and the name is driven by the output, or by a node
    -- whose last input it is.
    pub add_node_output_lem :
        ((d : EdgeRef) → name ≢ "" → lookup name sm ≡ some d → IsDriver m d width sign)
        → Returns
            (λ port t. (port ≡ length node.outputs) × HasOutput k m sm name width sign source t)
            (add_node_output k n name width sign expr_id comb s)
    add_node_output_lem drivers = elim (same_name name "") [
      | inl e ↦ unnamed_lem e
      | inr ne ↦ elim (Option-cases (lookup name sm)) [
        | inl free ↦ fresh_lem ne free
        | inr (d, found) ↦ merged_lem d ne found (drivers d ne found)
      ]
    ]
