-- ===== src/GenTree/Tests.antt =====
-- A tree of four nodes of Assignment_07/gentree.c.
use os_lab_spr.Base.{
  ℕ, ◌+◌, ◌≡◌, ◌<◌, true, false, ◌==◌, if◌then◌else◌, refl, arith, total, some, List, [], ◌∷◌,
}
use os_lab_spr.Shuffle.{shuffled}
use os_lab_spr.GenTree.{gentree}
use os_lab_spr.GenTree.Summed.{generated_tree_summed}
use os_lab_spr.TreeSum.{initialize_tree, read_values}
use os_lab_spr.TreeSum.Invariant.{done}
use os_lab_spr.TreeSum.Threads.{Program, create_threads, run}

-- PERM is 2, 0, 1, 3; the first node gets one child, which gets two.
abbrev rand : ℕ → ℕ
rand i = if i == 0 then 2 else if i == 1 then 1 else if i == 5 then 1 else 0

written : gentree 4 rand 4 (λ _. 9) ≡ some ((0, 2) ∷ (1, 0) ∷ (2, 2) ∷ (3, 0) ∷ [])
unfolding gentree shuffled
written = refl

generated_tree_summed_example :
    (lines : List (ℕ × ℕ)) × (gentree 4 rand 4 (λ _. 9) ≡ some lines)
    × (s : Program) × (create_threads 4 (read_values (λ i. i + 10) (initialize_tree lines).nodes)
        ≡ some s)
    × ((is : List ℕ) × ((j : ℕ) → j < 4 → done ((run 4 s is).work.place j) ≡ true)
        × ((run 4 s is).exited ≡ false))
    × ((is : List ℕ)
        → ((j : ℕ) → j < 4 → done ((run 4 s is).work.place j) ≡ true)
        → ((run 4 s is).work.nodes (initialize_tree lines).root).sum
          ≡ total 4 (λ j. if ((initialize_tree lines).nodes j).children == 0 then j + 10 else 0))
generated_tree_summed_example =
    generated_tree_summed 4 rand 4 (λ _. 9) (λ i. i + 10) (omega arith) (omega arith) (omega arith)
