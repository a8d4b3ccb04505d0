-- ===== src/TreeSum/Guarded.antt =====
-- Assignment_07/computesum.c: the mutex leaves the sums as they are.
use os_lab_spr.Base.{
  ℕ, ◌≡◌, ◌⊎◌, inl, inr, refl, ap, ◌∙◌, true, not, ◌&&◌, ◌||◌, ltb, arith, Bool-cases, List, [],
  ◌∷◌,
}
use os_lab_spr.FooMutex.{Outcome, blocked, moves, exits, statement}
use os_lab_spr.TreeSum.{Work, node_work}
use os_lab_spr.TreeSum
use os_lab_spr.TreeSum.Threads.{
  Program, is_adding, is_waiting, is_inside, needs_mutex, within_mutex, follow, node_thread, turn,
  run,
}

follow_work : (i : ℕ) (s : Program) (o : Outcome) → (follow i s o).work ≡ s.work
follow_work i s blocked = refl
follow_work i s (moves m p) = refl
follow_work i s exits = refl

within_work :
    (n i : ℕ) (s : Program)
    → ((within_mutex n i s).work ≡ s.work)
      ⊎ ((within_mutex n i s).work ≡ node_work n i (s.work.place i) s.work)
within_work n i s = elim (Bool-cases (is_adding (s.work.place i))) [
  | inl e ↦ inr (rw e refl)
  | inr e ↦ inl (rw e refl)
]

thread_work :
    (n i : ℕ) (s : Program)
    → ((node_thread n i s).work ≡ s.work)
      ⊎ ((node_thread n i s).work ≡ node_work n i (s.work.place i) s.work)
unfolding node_thread
thread_work n i s = elim (Bool-cases (needs_mutex i s && is_inside (s.at i))) [
  | inl e ↦ rw e (within_work n i s)
  | inr e ↦ rw e (elim (Bool-cases (needs_mutex i s || not (is_waiting (s.at i)))) [
    | inl w ↦ rw w (inl (follow_work i s (statement i s.mutex (s.at i))))
    | inr w ↦ rw w (inr refl)
  ])
]

-- A turn leaves the tree and the barriers alone, or is one of the work without the mutex.
turn_work :
    (n : ℕ) (s : Program) (i : ℕ)
    → ((turn n s i).work ≡ s.work) ⊎ ((turn n s i).work ≡ TreeSum.turn n s.work i)
unfolding turn TreeSum.turn
turn_work n s i = elim (Bool-cases (s.exited || not (ltb i n))) [
  | inl e ↦ rw e (inl refl)
  | inr e ↦ let low : ltb i n ≡ true = ground arith in rw (e, low) (thread_work n i s)
]

-- So a run is one of the work without the mutex.
pub run_work :
    (n : ℕ) (s : Program) (is : List ℕ)
    → (js : List ℕ) × ((run n s is).work ≡ TreeSum.run n s.work js)
unfolding run TreeSum.run
run_work n s [] = ([], refl)
run_work n s (i ∷ is) =
    let (js, e) = run_work n (turn n s i) is in
    elim (turn_work n s i) [
      | inl same ↦ (js, e ∙ ap (λ w. TreeSum.run n w js) same)
      | inr on ↦ (i ∷ js, e ∙ ap (λ w. TreeSum.run n w js) on)
    ]
