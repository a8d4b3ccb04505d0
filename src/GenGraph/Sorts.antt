-- ===== src/GenGraph/Sorts.antt =====
-- Assignment_05/LA5: the boss and the workers on a graph that gengraph.c prints.
use mathlib.Core.Path.{subst}
use os_lab_spr.Base.{
  ℕ, ◌≤◌, ◌<◌, ◌≡◌, sym, ap, ◌∙◌, inl, inr, Bool, true, false, ◌&&◌, ◌==◌, ltb, arith, Bool-cases,
  some, List, ◌++◌,
}
use os_lab_spr.Shuffle.{shuffled, shuffled-IsPerm, place, perm-place}
use os_lab_spr.GenGraph.{gengraph, print_graph, read_graph}
use os_lab_spr.GenGraph.Edges.{gengraph_lem}
use os_lab_spr.GenGraph.File.{read_graph-print_graph}
use os_lab_spr.TopSort.{edge, checked, setup, Turn, run, max_nodes}
use os_lab_spr.TopSort.Cover.{IsListing}
use os_lab_spr.TopSort.Completion.{IsChecked, IsAcyclic, checked_cases, run_checks, run-run}
use os_lab_spr.TopSort.Outcome.{boss_verdict, verdict-IsTopological}

-- The matrix that the boss reads of the file.
abbrev pub matrix : (ℕ → ℕ) → (ℕ → ℕ → Bool) → ℕ → (ℕ → ℕ → ℕ) → (ℕ → ℕ) → ℕ → ℕ
matrix rand coin n fresh memory = (read_graph (print_graph n (gengraph rand coin n fresh)) memory).1

module _ (rand : ℕ → ℕ) (coin : ℕ → ℕ → Bool) (n : ℕ) (fresh : ℕ → ℕ → ℕ) (memory : ℕ → ℕ) where
  abbrev perm : ℕ → ℕ
  perm = shuffled rand n

  edge_lem :
      (x y : ℕ)
      → x < n
      → y < n
      → edge n (matrix rand coin n fresh memory) (perm x) (perm y) ≡ (ltb x y && coin x y)
  edge_lem x y p q =
      let v = shuffled-IsPerm rand n in
      let read = (read_graph-print_graph n (gengraph rand coin n fresh) memory).1 in
      ap (λ z. z == 1)
        (read (perm x) (perm y) (v.below x p) (v.below y q)
          ∙ gengraph_lem rand coin n fresh x y p q)
      ∙ ground arith

  -- The place of a vertex in PERM.
  rank : ℕ → ℕ
  rank = place n perm (shuffled-IsPerm rand n)

  edges_up :
      (u w : ℕ)
      → u < n
      → w < n
      → edge n (matrix rand coin n fresh memory) u w ≡ true
      → rank u < rank w
  unfolding rank
  edges_up u w p q e =
      let first = perm-place n perm (shuffled-IsPerm rand n) u p in
      let second = perm-place n perm (shuffled-IsPerm rand n) w q in
      let drawn =
        sym (edge_lem (rank u) (rank w) first.0 second.0)
        ∙ ap (λ z. edge n (matrix rand coin n fresh memory) z (perm (rank w))) first.1
        ∙ ap (edge n (matrix rand coin n fresh memory) u) second.1
        ∙ e in
      ground (arith, drawn)

  matrix-IsAcyclic : IsAcyclic n (matrix rand coin n fresh memory) rank
  matrix-IsAcyclic u w p q e = edges_up u w p q (ground (arith, e))

  no_loops : (u : ℕ) → u < n → edge n (matrix rand coin n fresh memory) u u ≡ false
  no_loops u p = elim (Bool-cases (edge n (matrix rand coin n fresh memory) u u)) [
    | inl e ↦ let less = edges_up u u p p e in absurd (omega arith)
    | inr e ↦ e
  ]

-- For a number n of vertices up to MAX_NODES, on the graph that gengraph.c prints for it, whatever is drawn, after any turns
-- of the boss and the workers there are further turns after which the boss has found the list valid: it
-- holds all vertices, each once, and for every edge that was drawn it holds the one end before the other.
pub generated_graph_sorted :
    (rand : ℕ → ℕ) (coin : ℕ → ℕ → Bool) (n : ℕ) (fresh : ℕ → ℕ → ℕ) (memory t : ℕ → ℕ)
    (xs : List Turn)
    → n ≤ max_nodes
    → (ys : List Turn) × ((run n (matrix rand coin n fresh memory) (setup t) (xs ++ ys)).boss
        ≡ checked (some true))
      × IsListing n (run n (matrix rand coin n fresh memory) (setup t) (xs ++ ys)).shared.t n
      × ((x y : ℕ)
          → y < n
          → x < y
          → coin x y ≡ true
          → (j k : ℕ) × (j < k)
            × (k < n)
            × ((run n (matrix rand coin n fresh memory) (setup t) (xs ++ ys)).shared.t j
                ≡ shuffled rand n x)
            × ((run n (matrix rand coin n fresh memory) (setup t) (xs ++ ys)).shared.t k
                ≡ shuffled rand n y))
generated_graph_sorted rand coin n fresh memory t xs small =
    let a : ℕ → ℕ = matrix rand coin n fresh memory in
    let (ys, ended) =
      run_checks n a t (rank rand coin n fresh memory) xs
        (matrix-IsAcyclic rand coin n fresh memory) in
    let (r, e) =
      checked_cases (run n a (setup t) (xs ++ ys)).boss
        (subst (λ s. IsChecked s.boss) (run-run n a (setup t) xs ys) ended) in
    let (l, (b, f, iff)) = boss_verdict n a t (xs ++ ys) r small e in
    let valid : (run n a (setup t) (xs ++ ys)).boss ≡ checked (some true) =
      e ∙ ap checked f ∙ ap (λ z. checked (some z)) (iff.1 (no_loops rand coin n fresh memory)) in
    let (listing, listed, sorted) = verdict-IsTopological n a t (xs ++ ys) small valid in
    (
      ys,
      valid,
      listing,
      λ x y p q drawn.
          let (k, low, at) = listed (shuffled rand n y) ((shuffled-IsPerm rand n).below y p) in
          let it : edge n a (shuffled rand n x) ((run n a (setup t) (xs ++ ys)).shared.t k) ≡ true =
            ap (edge n a (shuffled rand n x)) at
            ∙ edge_lem rand coin n fresh memory x y (omega arith) p
            ∙ ground (arith, drawn) in
          let (j, early, here) =
            sorted k (shuffled rand n x) low ((shuffled-IsPerm rand n).below x (omega arith)) it in
          (j, k, early, low, here, at),
    )
