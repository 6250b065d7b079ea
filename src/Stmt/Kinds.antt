-- ===== src/Stmt/Kinds.antt =====
-- The kinds that `collect_last_output_indices` of src/ir/stmt_builder.cpp leaves for the last
-- assignments.
use abys.Prelude.{
  ℕ, suc, ◌+◌, ◌≤◌, ◌≡◌, refl, sym, ◌∙◌, ap, str_eq, String, Bool, Option, some, none, List, [],
  ◌∷◌, arith, if◌then◌else◌, length, get_elem?, none-ne-some, lookup,
}
use abys.Run.{Returns, Returns-map, Returns-both, bind-Returns}
use abys.Stmt.Builder.{StmtBuilder, Context}
use abys.Stmt.Positions.{position}
use abys.Stmt.Last.{note_outputs_lem}
use abys.Stmt.Flags.{flag_at, kind_of, joined, Tidy, Step, note_output-Step}
use abys.Stmt.Outputs.{Last, note_output, note_outputs, collect_last_output_indices}

-- Whether some assignment to a name is nonblocking, where there is one or a kind before.
unfoldable pub any_kind : String → List String → List Bool → Option Bool → Option Bool
any_kind n [] kinds before = before
any_kind n (x ∷ rest) [] before = before
any_kind n (x ∷ rest) (k ∷ kinds) before =
    any_kind n rest kinds (if str_eq x n then some (joined before k) else before)

-- The flags from a position on.
abbrev Aligned : List Bool → ℕ → List Bool → Type 0
Aligned flags i kinds =
    (k : ℕ) (b : Bool) → get_elem? kinds k ≡ some b → get_elem? flags (i + k) ≡ some b

note_outputs_kinds :
    (rest : List String) (kinds : List Bool) (i : ℕ) (last : Last) (s : StmtBuilder)
    → Tidy last i
    → i + length rest ≤ length last.nonblocking
    → length rest ≤ length kinds
    → Aligned last.nonblocking i kinds
    → Returns
        (λ next t. (n : String) → kind_of next n ≡ any_kind n rest kinds (kind_of last n))
        (note_outputs rest i last s)
unfolding note_outputs any_kind
note_outputs_kinds [] kinds i last s t bound enough aligned = λ n. refl
note_outputs_kinds (name ∷ rest) [] i last s t bound enough aligned = absurd (omega arith)
note_outputs_kinds (name ∷ rest) (kind ∷ kinds) i last s t bound enough aligned =
    let e : i + 0 ≡ i = omega arith in
    let here : get_elem? last.nonblocking i ≡ some kind = rw e at (aligned 0 kind refl) in
    bind-Returns _ (λ next u. Step name i kind last next)
      (note_output (lookup name last.last_index) name i last) (note_outputs rest (suc i)) s
      (note_output-Step (lookup name last.last_index) name i kind last s refl t (omega arith) here)
      (λ next u p.
        Returns-map _ _ (note_outputs rest (suc i) next u)
          (λ last' w all_kinds n. rw (all_kinds n, p.kinds n) refl)
          (note_outputs_kinds rest kinds (suc i) next u p.tidy (omega (arith, p.same_length))
            (omega arith)
            (λ k b h.
              let f : i + suc k ≡ suc i + k = omega arith in
              p.later (suc i + k) (omega arith) ∙ rw f at (aligned (suc k) b h))))

-- Where every output of a block has a kind, collecting has no fault, and the kind that it leaves at
-- the last assignment to a name is nonblocking where any of the assignments to the name is, and
-- blocking where none is; a name without an assignment has no kind.
pub collect_last_output_indices-kinds :
    (ctx : Context) (s : StmtBuilder)
    → length ctx.output_names ≤ length ctx.output_nonblocking
    → Returns
        (λ (indices, kinds) t.
          (n : String)
          → flag_at (position n ctx.output_names 0 none) kinds.output_nonblocking
            ≡ any_kind n ctx.output_names ctx.output_nonblocking none)
        (collect_last_output_indices ctx s)
unfolding collect_last_output_indices lookup
collect_last_output_indices-kinds ctx s h =
    let initial : Last = record { last_index = []; nonblocking = ctx.output_nonblocking } in
    bind-Returns _ _ (note_outputs ctx.output_names 0 initial) _ s
      (Returns-both _ _ (note_outputs ctx.output_names 0 initial s)
        (note_outputs_lem ctx.output_names 0 initial s (λ n j e. absurd (none-ne-some j e))
          (omega arith))
        (note_outputs_kinds ctx.output_names ctx.output_nonblocking 0 initial s
          (record {
            before = λ n j e. absurd (none-ne-some j e);
            apart = λ n m j e k. absurd (none-ne-some j e);
          })
          (omega arith) h (λ k b e. let f : 0 + k ≡ k = omega arith in rw f e)))
      (λ last t (noted, kinds) n. ap (λ o. flag_at o last.nonblocking) (sym (noted n)) ∙ kinds n)
