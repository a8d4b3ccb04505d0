-- ===== src/TopSort/Tests.antt =====
-- Runs of Assignment_05/LA5 on the graph with two vertices and the edge from 0 to 1.
use os_lab_spr.Base.{
  ℕ, zero, suc, ◌-◌, ◌<◌, ◌≡◌, ◌↔◌, refl, Bool, true, false, some, List, [], ◌∷◌, ◌++◌, arith, ◌==◌,
  if◌then◌else◌, ◌+ℤ◌,
}
use os_lab_spr.TopSort.{
  Boss, checked, edge, linked, setup, Turn, boss, worker, run, turn, work, oversee,
  is_topological_sort_valid, add_row, drop_row,
}
use os_lab_spr.TopSort.Cover.{IsListing, Listed}
use os_lab_spr.TopSort.Checker.{IsTopological, is_topological_sort_valid_iff}
use os_lab_spr.TopSort.Outcome.{run_ordered, run_exclusive, boss_verdict}
use os_lab_spr.TopSort.Progress.{Advance}
use os_lab_spr.TopSort.Completion.{IsAcyclic, run_advances, run_finishes}

abbrev one_edge : ℕ → ℕ
one_edge i = if i == 1 then 1 else 0

abbrev fresh : ℕ → ℕ
fresh i = 0

abbrev times : ℕ → Turn → List Turn
times zero x = []
times (suc k) x = x ∷ times k x

-- Worker 1 starts first, and is blocked; then worker 0 runs, then worker 1, then the boss.
abbrev all_turns : List Turn
all_turns = times 3 (worker 1) ++ times 9 (worker 0) ++ times 9 (worker 1) ++ times 3 boss

-- Worker 0 is in its critical section.
abbrev some_turns : List Turn
some_turns = times 3 (worker 1) ++ times 4 (worker 0)

ends_checked : (run 2 one_edge (setup fresh) all_turns).boss ≡ checked (some true)
unfolding run turn work oversee setup add_row drop_row ◌+ℤ◌
ends_checked = refl

keeps_order : (run 2 one_edge (setup fresh) all_turns).shared.t 1 ≡ 1
unfolding run turn work oversee setup add_row drop_row ◌+ℤ◌
keeps_order = refl

in_section : (run 2 one_edge (setup fresh) some_turns).boss ≡ Boss.collecting 0
unfolding run turn work oversee setup
in_section = refl

one_edge-IsAcyclic : IsAcyclic 2 one_edge (λ u. u)
one_edge-IsAcyclic u v p q e = ground arith

run_ordered_example :
    let s = (run 2 one_edge (setup fresh) all_turns).shared in
    IsListing 2 s.t s.idx
    × ((k u : ℕ) → k < s.idx → u < 2 → linked 2 one_edge u (s.t k) ≡ true → Listed s.t k u)
run_ordered_example = run_ordered 2 one_edge fresh all_turns

alone_in_section : ◌≡◌ {A = ℕ} 0 0
unfolding run turn work oversee setup
alone_in_section =
    run_exclusive 2 one_edge fresh some_turns 0 0 (omega arith) (omega arith) refl refl

boss_verdict_example :
    IsListing 2 (run 2 one_edge (setup fresh) all_turns).shared.t 2
    × ((b : Bool) × (some true ≡ some b)
        × ((b ≡ true) ↔ ((v : ℕ) → v < 2 → edge 2 one_edge v v ≡ false)))
boss_verdict_example =
    boss_verdict 2 one_edge fresh all_turns (some true) (omega arith) ends_checked

some_turns-Advance : Advance 2 one_edge (run 2 one_edge (setup fresh) some_turns)
some_turns-Advance =
    run_advances 2 one_edge fresh (λ u. u) some_turns 0 one_edge-IsAcyclic in_section

run_finishes_example :
    (ys : List Turn) × (b : Bool) × ((run 2 one_edge
        (run 2 one_edge (setup fresh) some_turns)
        ys).boss
      ≡ checked (some b))
run_finishes_example =
    run_finishes 2 one_edge fresh (λ u. u) some_turns (omega arith) one_edge-IsAcyclic

identity-IsListing : IsListing 2 (λ i. i) 2
identity-IsListing = record { range = λ j p. p; distinct = λ j k p q e. e }

is_topological_sort_valid_iff_example :
    (b : Bool) × (is_topological_sort_valid one_edge (λ i. i) 2 ≡ some b)
    × ((b ≡ true) ↔ IsTopological 2 one_edge (λ i. i))
is_topological_sort_valid_iff_example =
    is_topological_sort_valid_iff 2 one_edge (λ i. i) (omega arith) identity-IsListing

reversed_refused : is_topological_sort_valid one_edge (λ i. 1 - i) 2 ≡ some false
unfolding is_topological_sort_valid add_row drop_row ◌+ℤ◌
reversed_refused = refl
