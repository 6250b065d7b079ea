-- ===== src/Tig/Signals/Runs.antt =====
-- The runs of one name and their clusters, in the insertion of flip-flops in src/ir/tig_builder.cpp.
use mathlib.Core.Path.{subst}
use abys.Prelude.{
  ℕ, suc, ◌+◌, ◌*◌, ◌≤◌, ◌≡◌, ◌≢◌, ◌⊎◌, inl, inr, refl, sym, ◌∙◌, String, str_eq, eq_iff, true,
  false, List, [], ◌∷◌, All, All-map, length, arith, Bool-cases,
}
use abys.Tig.Builder.{PendingFf}
use abys.Tig.Builder.Ffs.{
  Items, join_run, runs_of, add_to_clusters, clusters_of, run_clusters, same_ff_props,
}

str_eq→eq : (a b : String) → str_eq a b ≡ true → a ≡ b
str_eq→eq a b h = ground (arith, eq_iff a b)

pub str_eq-false : (a b : String) → str_eq a b ≡ false → a ≢ b
str_eq-false a b h e = ground (arith, eq_iff a b)

-- Flip-flops of one name stand together.
abbrev IsHead : String → List PendingFf → Type 0
IsHead name [] = Unit
IsHead name (ff ∷ rest) =
    (ff.name ≡ name) ⊎ All (λ (other : PendingFf). other.name ≢ name) (ff ∷ rest)

abbrev pub IsGrouped : List PendingFf → Type 0
IsGrouped [] = Unit
IsGrouped (ff ∷ rest) = IsHead ff.name rest × IsGrouped rest

-- The names of runs are different.
abbrev pub AreApart : List Items → Type 0
AreApart [] = Unit
AreApart (run ∷ rest) = All (λ (other : Items). other.0.name ≢ run.0.name) rest × AreApart rest

-- All flip-flops of a run have its name.
abbrev pub IsRun : Items → Type 0
IsRun (first, others) = All (λ (ff : PendingFf). ff.name ≡ first.name) others

module _ (P : String → Type 0) where
  join_run-All :
      (ff : PendingFf) (runs : List Items)
      → P ff.name
      → All (λ (run : Items). P run.0.name) runs
      → All (λ (run : Items). P run.0.name) (join_run ff runs)
  unfolding join_run
  join_run-All ff [] p h = (p, tt)
  join_run-All ff ((next, others) ∷ runs) p h = elim (Bool-cases (str_eq next.name ff.name)) [
    | inl e ↦ rw e (p, h.1)
    | inr e ↦ rw e (p, h)
  ]

  pub runs_of-All :
      (ffs : List PendingFf)
      → All (λ (ff : PendingFf). P ff.name) ffs
      → All (λ (run : Items). P run.0.name) (runs_of ffs)
  unfolding runs_of
  runs_of-All [] h = tt
  runs_of-All (ff ∷ rest) h = join_run-All ff (runs_of rest) h.0 (runs_of-All rest h.1)

  join_run-All_back :
      (ff : PendingFf) (runs : List Items)
      → All (λ (run : Items). P run.0.name) (join_run ff runs)
      → P ff.name × All (λ (run : Items). P run.0.name) runs
  unfolding join_run
  join_run-All_back ff [] h = (h.0, tt)
  join_run-All_back ff ((next, others) ∷ runs) h = elim (Bool-cases (str_eq next.name ff.name)) [
    | inl e ↦
        let h' : P ff.name × All (λ (run : Items). P run.0.name) runs = rw e at h in
        (h'.0, (subst P (sym (str_eq→eq next.name ff.name e)) h'.0, h'.1))
    | inr e ↦ rw e at h
  ]

  pub runs_of-All_back :
      (ffs : List PendingFf)
      → All (λ (run : Items). P run.0.name) (runs_of ffs)
      → All (λ (ff : PendingFf). P ff.name) ffs
  unfolding runs_of
  runs_of-All_back [] h = tt
  runs_of-All_back (ff ∷ rest) h =
      let back = join_run-All_back ff (runs_of rest) h in (back.0, runs_of-All_back rest back.1)

join_run-IsRun :
    (ff : PendingFf) (runs : List Items) → All IsRun runs → All IsRun (join_run ff runs)
unfolding join_run
join_run-IsRun ff [] h = (tt, tt)
join_run-IsRun ff ((next, others) ∷ runs) h = elim (Bool-cases (str_eq next.name ff.name)) [
  | inl e ↦
      let same = str_eq→eq next.name ff.name e in
      rw e (
        (
          same,
          All-map (λ (g : PendingFf). g.name ≡ next.name) (λ (g : PendingFf). g.name ≡ ff.name)
              (λ g q. q ∙ same) others h.0,
        ),
        h.1,
      )
  | inr e ↦ rw e (tt, h)
]

pub runs_of-IsRun : (ffs : List PendingFf) → All IsRun (runs_of ffs)
unfolding runs_of
runs_of-IsRun [] = tt
runs_of-IsRun (ff ∷ rest) = join_run-IsRun ff (runs_of rest) (runs_of-IsRun rest)

abbrev IsHeadRun : String → List Items → Type 0
IsHeadRun name [] = Unit
IsHeadRun name (run ∷ rest) =
    (run.0.name ≡ name) ⊎ All (λ (other : Items). other.0.name ≢ name) (run ∷ rest)

join_run-first :
    (name : String) (ff : PendingFf) (runs : List Items)
    → ff.name ≡ name
    → IsHeadRun name (join_run ff runs)
unfolding join_run
join_run-first name ff [] e = inl e
join_run-first name ff ((next, others) ∷ runs) e = elim (Bool-cases (str_eq next.name ff.name)) [
  | inl q ↦ rw q (inl e)
  | inr q ↦ rw q (inl e)
]

all_apart :
    (name : String) (runs : List Items)
    → All (λ (other : Items). other.0.name ≢ name) runs
    → IsHeadRun name runs
all_apart name [] h = tt
all_apart name (run ∷ rest) h = inr h

runs_of-IsHeadRun :
    (name : String) (ffs : List PendingFf) → IsHead name ffs → IsHeadRun name (runs_of ffs)
unfolding runs_of
runs_of-IsHeadRun name [] h = tt
runs_of-IsHeadRun name (ff ∷ rest) (inl e) = join_run-first name ff (runs_of rest) e
runs_of-IsHeadRun name (ff ∷ rest) (inr h) =
    all_apart name (join_run ff (runs_of rest)) (runs_of-All (λ n. n ≢ name) (ff ∷ rest) h)

join_run-AreApart :
    (ff : PendingFf) (runs : List Items)
    → AreApart runs
    → IsHeadRun ff.name runs
    → AreApart (join_run ff runs)
unfolding join_run
join_run-AreApart ff [] h head = (tt, tt)
join_run-AreApart ff ((next, others) ∷ runs) h head = elim (Bool-cases (str_eq next.name ff.name)) [
  | inl e ↦
      let same = str_eq→eq next.name ff.name e in
      rw e (
        All-map (λ (o : Items). o.0.name ≢ next.name) (λ (o : Items). o.0.name ≢ ff.name)
            (λ o ne q. ne (q ∙ sym same)) runs h.0,
        h.1,
      )
  | inr e ↦ rw e (apart e head, h)
]
  where
    apart :
        str_eq next.name ff.name ≡ false
        → IsHeadRun ff.name ((next, others) ∷ runs)
        → All (λ (other : Items). other.0.name ≢ ff.name) ((next, others) ∷ runs)
    apart e (inl same) = absurd (str_eq-false next.name ff.name e same)
    apart e (inr all) = all

pub runs_of-AreApart : (ffs : List PendingFf) → IsGrouped ffs → AreApart (runs_of ffs)
unfolding runs_of
runs_of-AreApart [] h = tt
runs_of-AreApart (ff ∷ rest) h =
    join_run-AreApart ff (runs_of rest) (runs_of-AreApart rest h.1)
      (runs_of-IsHeadRun ff.name rest h.0)

-- What the runs need of nodes: two for each flip-flop, and one for each run.
abbrev pub nodes_for : Items → ℕ
nodes_for (first, others) = suc (2 * suc (length others))

abbrev pub nodes_for_all : List Items → ℕ
nodes_for_all [] = 0
nodes_for_all (run ∷ rest) = nodes_for run + nodes_for_all rest

join_run-nodes :
    (ff : PendingFf) (runs : List Items) → nodes_for_all (join_run ff runs) ≤ 3 + nodes_for_all runs
unfolding join_run
join_run-nodes ff [] = omega arith
join_run-nodes ff ((next, others) ∷ runs) = ground arith

pub runs_of-nodes : (ffs : List PendingFf) → nodes_for_all (runs_of ffs) ≤ 3 * length ffs
unfolding runs_of
runs_of-nodes [] = omega arith
runs_of-nodes (ff ∷ rest) = omega (arith, join_run-nodes ff (runs_of rest), runs_of-nodes rest)

module _ (name : String) where
  add_to_clusters-names :
      (ff : PendingFf) (clusters : List Items)
      → ff.name ≡ name
      → All (λ (c : Items). c.0.name ≡ name) clusters
      → All (λ (c : Items). c.0.name ≡ name) (add_to_clusters ff clusters)
        × (length (add_to_clusters ff clusters) ≤ suc (length clusters))
  unfolding add_to_clusters
  add_to_clusters-names ff [] e h = ((e, tt), omega arith)
  add_to_clusters-names ff ((front, others) ∷ rest) e h =
      let (later, few) = add_to_clusters-names ff rest e h.1 in
      elim (Bool-cases (same_ff_props ff front)) [
        | inl q ↦ rw q ((h.0, h.1), omega arith)
        | inr q ↦ rw q ((h.0, later), omega (arith, few))
      ]

  clusters_of-names :
      (ffs : List PendingFf) (clusters : List Items)
      → All (λ (ff : PendingFf). ff.name ≡ name) ffs
      → All (λ (c : Items). c.0.name ≡ name) clusters
      → All (λ (c : Items). c.0.name ≡ name) (clusters_of ffs clusters)
        × (length (clusters_of ffs clusters) ≤ length ffs + length clusters)
  unfolding clusters_of
  clusters_of-names [] clusters h g = (g, omega arith)
  clusters_of-names (ff ∷ rest) clusters h g =
      let (g', few) = add_to_clusters-names ff clusters h.0 g in
      let (g'', few') = clusters_of-names rest (add_to_clusters ff clusters) h.1 g' in
      (g'', omega (arith, few, few'))

pub run_clusters-names :
    (run : Items)
    → IsRun run
    → All (λ (c : Items). c.0.name ≡ run.0.name) (run_clusters run)
      × (length (run_clusters run) ≤ suc (length run.1))
unfolding run_clusters
run_clusters-names (first, others) h =
    let (g, few) = clusters_of-names first.name (first ∷ others) [] (refl, h) tt in
    (g, omega (arith, few))
