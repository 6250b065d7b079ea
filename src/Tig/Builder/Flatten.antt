-- ===== src/Tig/Builder/Flatten.antt =====
-- All calls of all graphs, replaced by the graphs of their subroutines: src/ir/tig_builder.cpp.
use abys.Prelude.{
  ℕ, zero, suc, leb, Bool, true, false, Option, none, some, List, [], ◌∷◌, length, get_elem?,
}
use abys.Run.{Run, pure, gets, ◌>>=◌, ◌>>◌}
use abys.Diagnostics.{Diagnostics}
use abys.Tig.Graph.{Node, Module, Subroutine}
use abys.Tig.Builder.{TigBuilder}
use abys.Tig.Builder.Inline.{Inlining, inline_call}

-- The calls from `i` on. A call may append calls, so the rounds of the loop are fuel; `false` is its
-- end.
unfoldable pub inline_calls : List Subroutine → ℕ → ℕ → Run Inlining Bool
unfolding inline_call
inline_calls subroutines zero i = gets (λ s. leb (length s.graph.calls) i)
inline_calls subroutines (suc fuel) i = do
  next ← gets (λ s. get_elem? s.graph.calls i)
  elim next [
    | none ↦ pure true
    | some call ↦ do inline_call subroutines call; inline_calls subroutines fuel (suc i)
  ]

abbrev pub clear_calls : Inlining → Inlining
clear_calls s = record s { graph = record s.graph { calls = [] } }

-- A loop that has not ended yields nothing.
abbrev pub ended : Node → Option (Bool × Inlining) → Option (Option Node × Diagnostics)
ended node none = none
ended node (some (false, s)) = some (none, s.diagnostics)
ended node (some (true, s)) =
    some (some (record node { expr_graph = (clear_calls s).graph }), s.diagnostics)

unfoldable pub flatten_node : List Subroutine → ℕ → Node → Run Diagnostics (Option Node)
unfolding inline_calls
flatten_node subroutines fuel node d =
    ended node
      (inline_calls subroutines fuel 0 (record { graph = node.expr_graph; diagnostics = d }))

-- `for (auto &x : xs) body(x)`, until a body does not end
module _ {A : Type 0} where
  unfoldable pub keep_rest : A → Option (List A) → Option (List A)
  keep_rest y none = none
  keep_rest y (some ys) = some (y ∷ ys)

  unfoldable pub keep_first :
      Option A → Run Diagnostics (Option (List A)) → Run Diagnostics (Option (List A))
  unfolding keep_rest
  keep_first none rest = pure none
  keep_first (some y) rest = do ys ← rest; pure (keep_rest y ys)

  unfoldable pub flatten_each :
      (A → Run Diagnostics (Option A)) → List A → Run Diagnostics (Option (List A))
  unfolding keep_first
  flatten_each body [] = pure (some [])
  flatten_each body (x ∷ xs) = do first ← body x; keep_first first (flatten_each body xs)

abbrev pub with_module_nodes : Module → Option (List Node) → Option Module
with_module_nodes module' none = none
with_module_nodes module' (some nodes) = some (record module' { nodes = nodes })

unfoldable pub flatten_module : List Subroutine → ℕ → Module → Run Diagnostics (Option Module)
unfolding flatten_each flatten_node
flatten_module subroutines fuel module' = do
  nodes ← flatten_each (flatten_node subroutines fuel) module'.nodes
  pure (with_module_nodes module' nodes)

abbrev pub flatten_result :
    TigBuilder → Option (Option (List Module) × Diagnostics) → Option (Bool × TigBuilder)
flatten_result s none = none
flatten_result s (some (none, d)) = some (false, record s { diagnostics = d })
flatten_result s (some (some modules, d)) =
    some (true, record s { design = record s.design { modules = modules }; diagnostics = d })

-- `false` where the loop over some graph's calls has not ended
unfoldable pub flatten_calls : ℕ → Run TigBuilder Bool
unfolding flatten_each flatten_module
flatten_calls fuel s =
    flatten_result s
      (flatten_each (flatten_module s.design.subroutines fuel) s.design.modules s.diagnostics)
