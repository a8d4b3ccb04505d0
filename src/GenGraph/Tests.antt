-- ===== src/GenGraph/Tests.antt =====
-- A graph of three vertices of Assignment_05/LA5/gengraph.c.
use os_lab_spr.Base.{
  ℕ, ◌+◌, ◌<◌, ◌==◌, ltb, if◌then◌else◌, ◌≡◌, Bool, true, refl, arith, some, List, [], ◌∷◌, ◌++◌,
}
use os_lab_spr.Shuffle.{shuffled}
use os_lab_spr.GenGraph.{gengraph, print_graph}
use os_lab_spr.GenGraph.Sorts.{matrix, generated_graph_sorted}
use os_lab_spr.TopSort.{checked, setup, Turn, boss, worker, run}
use os_lab_spr.TopSort.Cover.{IsListing}

-- PERM is 2, 0, 1, and all draws but that for 0 and 2 are small enough.
abbrev rand : ℕ → ℕ
rand i = if i == 0 then 2 else 7

abbrev coin : ℕ → ℕ → Bool
coin x y = ltb y (x + 2)

abbrev turns : List Turn
turns = worker 1 ∷ boss ∷ worker 2 ∷ []

printed :
    print_graph 3 (gengraph rand coin 3 (λ _ _. 9)) ≡ 3 ∷ 0 ∷ 1 ∷ 0 ∷ 0 ∷ 0 ∷ 0 ∷ 1 ∷ 0 ∷ 0 ∷ []
unfolding gengraph print_graph shuffled
printed = refl

generated_graph_sorted_example :
    (ys : List Turn) × ((run 3
        (matrix rand coin 3 (λ _ _. 9) (λ _. 0))
        (setup (λ _. 0))
        (turns ++ ys)).boss
      ≡ checked (some true))
    × IsListing 3
        (run 3 (matrix rand coin 3 (λ _ _. 9) (λ _. 0)) (setup (λ _. 0)) (turns ++ ys)).shared.t
        3
    × ((x y : ℕ)
        → y < 3
        → x < y
        → coin x y ≡ true
        → (j k : ℕ) × (j < k)
          × (k < 3)
          × ((run 3
                  (matrix rand coin 3 (λ _ _. 9) (λ _. 0))
                  (setup (λ _. 0))
                  (turns ++ ys)).shared.t
                j
              ≡ shuffled rand 3 x)
          × ((run 3
                  (matrix rand coin 3 (λ _ _. 9) (λ _. 0))
                  (setup (λ _. 0))
                  (turns ++ ys)).shared.t
                k
              ≡ shuffled rand 3 y))
generated_graph_sorted_example =
    generated_graph_sorted rand coin 3 (λ _ _. 9) (λ _. 0) (λ _. 0) turns (omega arith)
