-- ===== src/FooMutex/Tests.antt =====
-- Three threads at the mutex of Assignment_07/foothread.c.
use os_lab_spr.Base.{◌+◌, ◌≤◌, ◌≡◌, arith, true, [], ◌∷◌, total}
use os_lab_spr.FooMutex.{inside, begin, turn, run}
use os_lab_spr.FooMutex.Owner.{holds, run_apart, owner_erased}

run_apart_example :
    let s = run 3 begin (0 ∷ 1 ∷ 0 ∷ 2 ∷ 1 ∷ []) in
    (holds (s.at 0) + holds (s.at 1) ≤ 1)
    × (s.mutex.semaphore + holds (s.at 0) + holds (s.at 1) ≤ 1)
    × (s.mutex.semaphore + total 3 (λ k. holds (s.at k)) ≡ 1)
run_apart_example =
    run_apart 3 (0 ∷ 1 ∷ 0 ∷ 2 ∷ 1 ∷ []) 0 1 (omega arith) (omega arith) (omega arith)

erased_owner :
    let s = run 3 begin (0 ∷ 0 ∷ 0 ∷ 0 ∷ 0 ∷ 2 ∷ 2 ∷ 2 ∷ 0 ∷ []) in
    (s.at 2 ≡ inside) × ((turn 3 s 2).exited ≡ true)
erased_owner = owner_erased 3 0 2 (omega arith) (omega arith) (omega arith)
