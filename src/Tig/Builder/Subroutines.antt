-- ===== src/Tig/Builder/Subroutines.antt =====
-- The subroutines of a design: src/ir/tig_builder.cpp.
use abys.Prelude.{
  suc, leb, ◌==◌, String, Bool, not, none, some, Option, List, [], ◌∷◌, ◌++◌, length, get_elem?,
  set, if◌then◌else◌,
}
use abys.Run.{Run, pure, found, ◌>>=◌, ◌>>◌, modify}
use abys.Diagnostics.{DiagnosticId, error}
use abys.Expr.Graph.{ExprId, SubrId, SignalWidth, ExprGraph, invalid_id}
use abys.Stmt.Case.{resize}
use abys.Tig.Graph.{Subroutine, new_subroutine}
use abys.Tig.Builder.{TigBuilder}

-- `design_.subroutines[id]`
unfoldable pub get_subroutine : SubrId → Run TigBuilder Subroutine
get_subroutine id s = found (get_elem? s.design.subroutines id) s

abbrev pub with_subroutines : TigBuilder → List Subroutine → TigBuilder
with_subroutines s subroutines = record s { design = record s.design { subroutines = subroutines } }

unfoldable pub put_subroutine : SubrId → Subroutine → Run TigBuilder (Unit {0})
put_subroutine id subr = modify (λ s. with_subroutines s (set s.design.subroutines id subr))

unfoldable pub grow_subroutines : SubrId → TigBuilder → TigBuilder
unfolding resize
grow_subroutines id s =
    if leb (length s.design.subroutines) id
    then with_subroutines s (resize (suc id) new_subroutine s.design.subroutines)
    else s

-- The graph of the subroutine is to be filled, and `none` stands for the null pointer.
unfoldable pub create_subroutine : SubrId → String → Run TigBuilder (Option ExprGraph)
unfolding get_subroutine put_subroutine grow_subroutines
create_subroutine id name = do
  modify (grow_subroutines id)
  subr ← get_subroutine id
  let duplicate = do
    modify (λ s. record s {
      diagnostics = error DiagnosticId.lowering_duplicate_subroutine_ignored name s.diagnostics;
    })
    pure none
  let fresh = do put_subroutine id (record subr { name = name }); pure (some subr.expr_graph)
  if not (subr.expr_root == invalid_id) then duplicate else fresh

unfoldable pub add_subroutine_input :
    SubrId → String → SignalWidth → Bool → List SignalWidth → Run TigBuilder (Unit {0})
unfolding get_subroutine put_subroutine
add_subroutine_input id name width sign unpacked_dims = do
  subr ← get_subroutine id
  put_subroutine id (record subr {
    inputs =
        subr.inputs
        ++ record { name = name; unpacked_dims = unpacked_dims; width = width; sign = sign } ∷ [];
  })

unfoldable pub set_subroutine_root : SubrId → ExprId → Run TigBuilder (Unit {0})
unfolding get_subroutine put_subroutine
set_subroutine_root id root = do
  subr ← get_subroutine id
  put_subroutine id (record subr { expr_root = root })
