-- ===== src/Tig/Signals/Wired.antt =====
-- `wire_connections` in src/ir/tig_builder.cpp: inputs that are given by name.
use mathlib.Core.List
use mathlib.Core.Path.{subst}
use abys.Prelude.{
  ℕ, suc, ◌%◌, ◌≤◌, ◌<◌, ◌≡◌, inl, inr, refl, sym, ap, ◌∙◌, ◌==◌, str_eq, false, none, some, List,
  [], ◌∷◌, ◌++◌, Assoc, length, get_elem?, set, lookup, arith, Bool-cases, Option-cases,
  length-append, get_elem?-at, set-append_right, lt_of_get_elem?, lt→ltb, get_elem?-set_self,
  if◌then◌else◌,
}
use abys.Run.{Returns}
use abys.Diagnostics.{Diagnostics, Entry, warning}
use abys.Diagnostics.Log.{log, log-append, log-nil, log-warning}
use abys.Expr.Graph.{id_limit}
use abys.Tig.Graph.{Node, Module, ModuleId, EdgeRef, Output, invalid_node}
use abys.Tig.Builder.{TigBuilder, put_node, put_module, get_module, get_node}
use abys.Tig.Builder.Ports.{set_node_input, get_node_input}
use abys.Tig.Builder.Wire.{
  wire_connections, wire_nodes, wire_node, wire_input, connect, report_unresolved,
}
use abys.Tig.Signals.{At, output_at}
use abys.Tig.Signals.Nodes.{output_at-same, node_of}
use abys.Tig.Signals.Steps.{
  with_nodes, get_module_lem, get_node_lem, get_signal_map_lem, get_signal_spec_lem,
}
use abys.Tig.Signals.Driven.{spec_check}
use abys.Tig.Signals.Wires.{
  connected, wired, wired_nodes, unresolved, report_of, missing, missing_all, Fits, FitInputs,
  FitNodes,
}

wire_node_step :
    (k : ModuleId) (n n' i i' : ℕ) (spec : Output) (specs : List Output) (s t u : TigBuilder)
    → n % id_limit ≡ n'
    → i % id_limit ≡ i'
    → wire_input k n' i' spec s ≡ some (tt, t)
    → wire_node k n specs (suc i) t ≡ some (tt, u)
    → wire_node k n (spec ∷ specs) i s ≡ some (tt, u)
unfolding wire_node
wire_node_step k n n' i i' spec specs s t u at at' e e' = rw (at, at', e, e') refl

wire_nodes_step :
    (k : ModuleId) (n j : ℕ) (specs : List Output) (rest : List (List Output)) (s t u : TigBuilder)
    → j ≡ n
    → wire_node k n specs 0 s ≡ some (tt, t)
    → wire_nodes k rest (suc j) t ≡ some (tt, u)
    → wire_nodes k (specs ∷ rest) j s ≡ some (tt, u)
unfolding wire_nodes
wire_nodes_step k n j specs rest s t u at e e' =
    rw (ap (λ i. wire_node k i specs 0 s) at ∙ e, e') refl

module _ (k : ModuleId) (m : Module) (sm : Assoc EdgeRef) where
  -- A state of the loops: the nodes so far, with the outputs of the module, and the log.
  record Wiring (nodes : List Node) (d : Diagnostics) (s : TigBuilder) : Type 0 where
    at : At k (with_nodes m nodes) sm s
    outputs : (edge : EdgeRef) → output_at nodes edge ≡ output_at m.nodes edge
    logged : s.diagnostics ≡ d

  -- one input is set
  set_lem :
      (pre post : List Node) (node : Node) (before after : List EdgeRef) (old new : EdgeRef)
      (d : Diagnostics) (s : TigBuilder)
      → Wiring (pre ++ record node { inputs = before ++ old ∷ after } ∷ post) d s
      → (t : TigBuilder) × (set_node_input k (length pre) (length before) new s ≡ some (tt, t))
        × Wiring (pre ++ record node { inputs = before ++ new ∷ after } ∷ post) d t
  unfolding set_node_input put_node put_module get_module get_node
  set_lem pre post node before after old new d s w =
      let from : Node = record node { inputs = before ++ old ∷ after } in
      let to : Node = record node { inputs = before ++ new ∷ after } in
      let there = get_elem?-at pre post from in
      let t : TigBuilder = record s {
        design = record s.design {
          modules = set s.design.modules k (with_nodes m (pre ++ to ∷ post));
        };
      } in
      (
        t,
        rw
            (
              w.at.module',
              there,
              lt→ltb (length before) (length (before ++ old ∷ after))
                  (omega (arith, length-append before (old ∷ after))),
              w.at.module',
              lt→ltb (length pre) (length (pre ++ from ∷ post))
                  (lt_of_get_elem? (pre ++ from ∷ post) (length pre) there),
              set-append_right before after old new,
              set-append_right pre post from to,
            )
            refl,
        record {
          at = record {
            module' =
                get_elem?-set_self s.design.modules k _
                  (lt_of_get_elem? s.design.modules k w.at.module');
            signals = w.at.signals;
            specs = w.at.specs;
            pending = w.at.pending;
          };
          outputs = λ edge.
              ap (λ ns. output_at ns edge) (sym (set-append_right pre post from to))
              ∙ (output_at-same (pre ++ from ∷ post) (length pre) from to edge there refl
                  ∙ w.outputs edge);
          logged = w.logged;
        },
      )

  -- what is reported of an input
  abbrev reported : Output → List Entry
  reported spec = if str_eq spec.name "" then [] else report_of m spec (lookup spec.name sm)

  module _ (room : length m.nodes < id_limit) (pre post : List Node) (node : Node) where
    abbrev nodes_with : List EdgeRef → List Node
    nodes_with inputs = pre ++ record node { inputs = inputs } ∷ post

    free_input :
        (before after : List EdgeRef) (old : EdgeRef) (spec : Output) (d : Diagnostics)
        (s : TigBuilder)
        → Wiring (nodes_with (before ++ old ∷ after)) d s
        → (t : TigBuilder) × (connect k (length pre) (length before) spec none s ≡ some (tt, t))
          × Wiring (nodes_with (before ++ old ∷ after)) (log (unresolved m spec ∷ []) d) t
    unfolding connect report_unresolved
    free_input before after old spec d s w =
        let entry : Entry = unresolved m spec in
        let t : TigBuilder = record s {
          diagnostics = warning entry.id entry.detail s.diagnostics;
        } in
        (
          t,
          rw (get_module_lem k _ sm s w.at) refl,
          record {
            at = record {
              module' = w.at.module';
              signals = w.at.signals;
              specs = w.at.specs;
              pending = w.at.pending;
            };
            outputs = w.outputs;
            logged =
                ap (warning entry.id entry.detail) w.logged
                ∙ sym (log-warning entry.id entry.detail d);
          },
        )

    driven_input :
        (before after : List EdgeRef) (old : EdgeRef) (spec : Output) (d : Diagnostics)
        (s : TigBuilder)
        → Wiring (nodes_with (before ++ old ∷ after)) d s
        → (driver : EdgeRef) (o : Output) → output_at m.nodes driver ≡ some o
        → o.width ≡ spec.width
        → o.sign ≡ spec.sign
        → (t : TigBuilder) × (connect k (length pre) (length before) spec (some driver) s
            ≡ some (tt, t))
          × Wiring (nodes_with (before ++ driver ∷ after)) (log [] d) t
    unfolding connect
    driven_input before after old spec d s w driver o o_at o_width o_sign =
        let (node', there) = node_of m.nodes driver o o_at in
        let lt = lt_of_get_elem? m.nodes driver.node_id there in
        let valid : (driver.node_id == invalid_node) ≡ false = ground arith in
        let (t, e, w') = set_lem pre post node before after old driver d s w in
        (
          t,
          rw
              (
                valid,
                get_signal_spec_lem k _ sm s w.at driver o (w.outputs driver ∙ o_at),
                spec_check spec o.width o.sign (sym o_width) (sym o_sign),
                e,
              )
              refl,
          rw (log-nil d) w',
        )

    wire_input_lem :
        (before after : List EdgeRef) (old : EdgeRef) (spec : Output) (d : Diagnostics)
        (s : TigBuilder)
        → Wiring (nodes_with (before ++ old ∷ after)) d s
        → Fits m sm spec
        → (t : TigBuilder) × (wire_input k (length pre) (length before) spec s ≡ some (tt, t))
          × Wiring (nodes_with (before ++ connected sm spec old ∷ after)) (log (reported spec) d) t
    unfolding wire_input get_node_input
    wire_input_lem before after old spec d s w fits = elim (Bool-cases (str_eq spec.name "")) [
      | inl e ↦ (
        s,
        rw
            (
              get_signal_map_lem k _ sm s w.at,
              e,
              get_node_lem k _ sm s w.at (length pre) _ (get_elem?-at pre post _),
              get_elem?-at before after old,
            )
            refl,
        rw (e, log-nil d) w,
      )
      | inr e ↦ elim (Option-cases (lookup spec.name sm)) [
        | inl free ↦
            rw (get_signal_map_lem k _ sm s w.at, e, free) (free_input before after old spec d s w)
        | inr (driver, found) ↦
            let (o, o_at, o_width, o_sign) = fits driver found in
            rw (get_signal_map_lem k _ sm s w.at, e, found)
              (driven_input before after old spec d s w driver o o_at o_width o_sign)
      ]
    ]

    wire_node_lem :
        (specs : List Output) (before edges : List EdgeRef) (i : ℕ) (d : Diagnostics)
        (s : TigBuilder)
        → i ≡ length before
        → length pre < id_limit
        → length (before ++ edges) ≤ id_limit
        → FitInputs m sm specs edges
        → Wiring (nodes_with (before ++ edges)) d s
        → (t : TigBuilder) × (wire_node k (length pre) specs i s ≡ some (tt, t))
          × Wiring (nodes_with (before ++ wired sm specs edges)) (log (missing m sm specs) d) t
    unfolding wire_node wired missing
    wire_node_lem [] before edges i d s at room fits h w = (s, refl, rw (log-nil d) w)
    wire_node_lem (spec ∷ specs) before [] i d s at room fits h w = absurd h
    wire_node_lem (spec ∷ specs) before (edge ∷ edges) i d s at room fits h w =
        let long = length-append before (edge ∷ edges) in
        let index : i % id_limit ≡ length before = omega (arith, at, fits, long) in
        let here : length pre % id_limit ≡ length pre = omega arith in
        let (t, e, w') = wire_input_lem before edges edge spec d s w h.0 in
        let next : List EdgeRef = before ++ connected sm spec edge ∷ [] in
        let same = List.append_assoc before (connected sm spec edge ∷ []) edges in
        let longer = length-append next edges in
        let one = length-append before (connected sm spec edge ∷ []) in
        let (u, e', w'') =
          wire_node_lem specs next edges (suc i) (log (reported spec) d) t (omega (arith, at, one))
            room (omega (arith, fits, long, longer, one)) h.1
            (subst (λ es. Wiring (nodes_with es) (log (reported spec) d) t) (sym same) w') in
        (
          u,
          wire_node_step k (length pre) (length pre) i (length before) spec specs s t u here index e
              e',
          rw (log-append (reported spec) (missing m sm specs) d) (
              subst
                (λ es. Wiring (nodes_with es) (log (missing m sm specs) (log (reported spec) d)) u)
                (List.append_assoc before (connected sm spec edge ∷ []) (wired sm specs edges))
                w''),
        )

  wire_nodes_lem :
      (rest : List (List Output)) (pre nodes : List Node) (j : ℕ) (d : Diagnostics) (s : TigBuilder)
      → length m.nodes < id_limit
      → j ≡ length pre
      → length (pre ++ nodes) < id_limit
      → FitNodes m sm rest nodes
      → Wiring (pre ++ nodes) d s
      → (t : TigBuilder) × (wire_nodes k rest j s ≡ some (tt, t))
        × Wiring (pre ++ wired_nodes sm rest nodes) (log (missing_all m sm rest) d) t
  unfolding wire_nodes wired_nodes missing_all
  wire_nodes_lem [] pre nodes j d s room at few h w = (s, refl, rw (log-nil d) w)
  wire_nodes_lem (specs ∷ rest) pre [] j d s room at few h w = absurd h
  wire_nodes_lem (specs ∷ rest) pre (node ∷ nodes) j d s room at few h w =
      let new : Node = record node { inputs = wired sm specs node.inputs } in
      let long = length-append pre (node ∷ nodes) in
      let (t, e, w') =
        wire_node_lem room pre nodes node specs [] node.inputs 0 d s refl (omega (arith, few, long))
          (omega (arith, h.1)) h.0 w in
      let longer = length-append (pre ++ new ∷ []) nodes in
      let one = length-append pre (new ∷ []) in
      let (u, e', w'') =
        wire_nodes_lem rest (pre ++ new ∷ []) nodes (suc j) (log (missing m sm specs) d) t room
          (omega (arith, at, one)) (omega (arith, few, long, longer, one)) h.2
          (subst (λ ns. Wiring ns (log (missing m sm specs) d) t)
            (sym (List.append_assoc pre (new ∷ []) nodes)) w') in
      (
        u,
        wire_nodes_step k (length pre) j specs rest s t u at e e',
        rw (log-append (missing m sm specs) (missing_all m sm rest) d) (
            subst (λ ns. Wiring ns (log (missing_all m sm rest) (log (missing m sm specs) d)) u)
              (List.append_assoc pre (new ∷ []) (wired_nodes sm rest nodes)) w''),
      )

-- Where the specifications of the inputs are those of nodes that are there, no specification stands
-- behind the last input of its node, the nodes and the inputs of each node are below the limit of
-- identifiers, and a driver of a name that is read has the width and sign that the reader asks for,
-- the wiring of a module has no fault: each input whose name is driven is connected to the driver of
-- the name, all else of the module and the map of signals are kept, and each name that is not driven
-- is reported once, in order.
pub wire_connections_lem :
    (k : ModuleId) (m : Module) (sm : Assoc EdgeRef) (s : TigBuilder) (specs : List (List Output))
    → At k m sm s
    → get_elem? s.input_specs k ≡ some specs
    → length m.nodes < id_limit
    → FitNodes m sm specs m.nodes
    → Returns
        (λ r t.
          At k (with_nodes m (wired_nodes sm specs m.nodes)) sm t
          × (t.diagnostics ≡ log (missing_all m sm specs) s.diagnostics))
        (wire_connections k s)
unfolding wire_connections
wire_connections_lem k m sm s specs at known room h =
    let (t, e, w) =
      wire_nodes_lem k m sm specs [] m.nodes 0 s.diagnostics s room refl room h
        (record { at = at; outputs = λ edge. refl; logged = refl }) in
    rw (get_module_lem k m sm s at, known, e) (w.at, w.logged)
