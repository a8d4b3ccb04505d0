-- ===== src/FooBarrier/Tests.antt =====
-- Three threads at a barrier of Assignment_07/foothread.c.
use os_lab_spr.Base.{ℕ, ◌≡◌, refl, arith, List, [], ◌∷◌}
use os_lab_spr.FooBarrier.{assemble, statement, turn, run, passing, through}
use os_lab_spr.FooBarrier.Gate.{arrived, all, gone}
use os_lab_spr.FooBarrier.Passage.{barrier_holds, barrier_opens}

-- Two threads come and wait, the third opens the semaphore and goes through.
abbrev turns : List ℕ
turns = 0 ∷ 0 ∷ 1 ∷ 0 ∷ 0 ∷ 1 ∷ 1 ∷ 1 ∷ 1 ∷ 2 ∷ 2 ∷ 1 ∷ 2 ∷ 2 ∷ 2 ∷ 2 ∷ 2 ∷ []

third_through : (run 3 (assemble 3) turns).at 2 ≡ through
unfolding run turn statement
third_through = refl

first_waits : (run 3 (assemble 3) turns).at 0 ≡ passing
unfolding run turn statement
first_waits = refl

barrier_holds_example : arrived ((run 3 (assemble 3) turns).at 0) ≡ 1
barrier_holds_example =
    barrier_holds 3 turns (omega arith) 2 0 (omega arith) (omega arith) third_through

barrier_opens_example : (js : List ℕ) × (all gone 3 (run 3 (run 3 (assemble 3) turns) js).at ≡ 3)
barrier_opens_example = barrier_opens 3 turns (omega arith)
