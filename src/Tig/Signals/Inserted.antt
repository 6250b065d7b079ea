-- ===== src/Tig/Signals/Inserted.antt =====
-- `insert_ffs` in src/ir/tig_builder.cpp: the signals that flip-flops drive.
use abys.Prelude.{◌≡◌, ◌⊎◌, String, some, List, [], ◌∷◌, All, Assoc, get_elem?}
use abys.Tig.Graph.{Module, ModuleId, EdgeRef}
use abys.Tig.Builder.{TigBuilder, PendingFf}
use abys.Tig.Builder.Ffs.{Items}
use abys.Tig.Signals.{At, AreNamed, signal_shape, HasKind, is_sequential}
use abys.Tig.Signals.Ran.{Ran}

-- The names of runs.
abbrev Among : List Items → String → Type 0
Among [] asked = ⊥
Among (run ∷ rest) asked = (asked ≡ run.0.name) ⊎ Among rest asked

-- What a module has after the insertion: the names are in the map, each with the width and sign that it
-- had, and the names of the flip-flops are driven by flip-flops.
pub record HasFfs (k : ModuleId) (m : Module) (sm : Assoc EdgeRef) (ffs : List PendingFf)
    (t : TigBuilder) : Type 0 where
  pub m' : Module
  pub sm' : Assoc EdgeRef
  pub at : At k m' sm' t
  pub named : AreNamed m'.nodes sm'
  pub shapes : (asked : String) → signal_shape m'.nodes sm' asked ≡ signal_shape m.nodes sm asked
  pub clocked : All (λ (ff : PendingFf). HasKind is_sequential m' sm' ff.name) ffs
  pub no_pending : get_elem? t.pending_ffs k ≡ some []
