-- ===== src/Sched/Rounds.antt =====
-- What the rounds of Assignment_08/sched.c do with the processes and when they end.
use mathlib.Core.Bool.{false≢true}
use os_lab_spr.Base.{
  ℕ, suc, ◌+◌, ◌≤◌, ◌<◌, ◌≡◌, ◌≢◌, ◌⊎◌, inl, inr, refl, ap, ◌∙◌, ◌==◌, true, false, List, [], ◌∷◌,
  ◌++◌, if◌then◌else◌, Bool-cases, arith,
}
use os_lab_spr.Mmu.{Notice, process_term, page_fault_handled}
use os_lab_spr.Sched.{
  Sched, start_first, start_next, hear, done, Rest, stopped, waits_for_ready, waits_for_mmu, loop,
}

-- How often `x` stands in a list.
abbrev pub count : ℕ → List ℕ → ℕ
count x [] = 0
count x (y ∷ ys) = if x == y then suc (count x ys) else count x ys

abbrev pub size : List ℕ → ℕ
size [] = 0
size (y ∷ ys) = suc (size ys)

-- The number of processes that the memory manager says have ended.
abbrev pub terms : List Notice → ℕ
terms [] = 0
terms (process_term ∷ xs) = suc (terms xs)
terms (page_fault_handled ∷ xs) = terms xs

count-append : (x : ℕ) (xs ys : List ℕ) → count x (xs ++ ys) ≡ count x xs + count x ys
count-append x [] ys = omega arith
count-append x (z ∷ xs) ys = ground (arith, count-append x xs ys)

size-append : (xs ys : List ℕ) → size (xs ++ ys) ≡ size xs + size ys
size-append [] ys = omega arith
size-append (z ∷ xs) ys = omega (arith, size-append xs ys)

-- How often process `x` stands in the ready queue or among those that were counted as ended.
abbrev pub known : ℕ → Sched → ℕ
known x s = count x s.ready + count x s.gone

-- The state in which the loop rests, and the process that it then hears about.
abbrev pub resting : Rest → Sched
resting (stopped s) = s
resting (waits_for_ready s xs) = s
resting (waits_for_mmu s id) = s

abbrev pub running : ℕ → Rest → ℕ
running x (stopped s) = 0
running x (waits_for_ready s xs) = 0
running x (waits_for_mmu s id) = if x == id then 1 else 0

-- The state after a round that starts process `id` and hears `x` of it.
abbrev pub round : Sched → ℕ → List ℕ → Notice → Sched
round s id ready x = hear (record s { ready = ready; sent = s.sent ++ id ∷ [] }) id x

round-known :
    (s : Sched) (id : ℕ) (ready : List ℕ) (x : Notice) (y : ℕ)
    → s.ready ≡ id ∷ ready
    → known y (round s id ready x) ≡ known y s
unfolding hear
round-known s id ready process_term y e = rw e (ground arith)
round-known s id ready page_fault_handled y e =
    rw e (ground (arith, count-append y ready (id ∷ [])))

module _ (k : ℕ) (s : Sched) where
  loop-no_process : (xs : List Notice) → s.ready ≡ [] → loop k s xs ≡ waits_for_ready s xs
  unfolding loop start_next start_first
  loop-no_process [] e = rw e refl
  loop-no_process (x ∷ xs) e = rw e refl

  loop-no_notice :
      (id : ℕ) (ready : List ℕ)
      → s.ready ≡ id ∷ ready
      → loop k s [] ≡ waits_for_mmu (record s { ready = ready; sent = s.sent ++ id ∷ [] }) id
  unfolding loop start_next start_first
  loop-no_notice id ready e = rw e refl

  pub loop-round :
      (id : ℕ) (ready : List ℕ) (x : Notice) (xs : List Notice)
      → s.ready ≡ id ∷ ready
      → let t = round s id ready x in
        loop k s (x ∷ xs) ≡ (if done k t x then stopped t else loop k t xs)
  unfolding loop start_next start_first
  loop-round id ready x xs e = rw e refl

keeps_on :
    (k : ℕ) (s : Sched) (notices : List Notice) (y : ℕ) (ready : List ℕ)
    → s.ready ≡ ready
    → known y (resting (loop k s notices)) + running y (loop k s notices) ≡ known y s
keeps_on k s xs y [] e = rw (loop-no_process k s xs e) (omega arith)
keeps_on k s [] y (id ∷ ready) e =
    let c : count y s.ready ≡ count y (id ∷ ready) = ap (count y) e in
    rw (loop-no_notice k s id ready e) (ground (arith, c))
keeps_on k s (x ∷ xs) y (id ∷ ready) e =
    let t = round s id ready x in
    let kept : known y t ≡ known y s = round-known s id ready x y e in
    rw (loop-round k s id ready x xs e) (elim (Bool-cases (done k t x)) [
      | inl stop ↦ rw stop (omega (arith, kept))
      | inr more ↦ rw more (keeps_on k t xs y t.ready refl ∙ kept)
    ])

-- The scheduler loses no process and makes none up: wherever its loop rests, each process is in the
-- ready queue, counted as ended, or the one that it waits to hear about, as often as at the start.
pub loop_keeps :
    (k : ℕ) (s : Sched) (notices : List Notice) (y : ℕ)
    → known y (resting (loop k s notices)) + running y (loop k s notices) ≡ known y s
loop_keeps k s notices y = keeps_on k s notices y s.ready refl

-- What one round does to the lengths.
round-size :
    (s : Sched) (id : ℕ) (ready : List ℕ) (x : Notice)
    → let t = round s id ready x in
      (size t.ready + terms (x ∷ []) ≡ size ready + 1)
      × (t.term_count ≡ s.term_count + terms (x ∷ []))
      × (size t.gone ≡ size s.gone + terms (x ∷ []))
unfolding hear
round-size s id ready process_term = (omega arith, omega arith, omega arith)
round-size s id ready page_fault_handled =
    (omega (arith, size-append ready (id ∷ [])), omega arith, omega arith)

terms-cons : (x : Notice) (xs : List Notice) → terms (x ∷ xs) ≡ terms (x ∷ []) + terms xs
terms-cons process_term xs = omega arith
terms-cons page_fault_handled xs = omega arith

done-true :
    (k : ℕ) (t : Sched) (x : Notice) → done k t x ≡ true → (t.term_count ≡ k) × (terms (x ∷ []) ≡ 1)
unfolding done
done-true k t process_term e = (ground arith, refl)
done-true k t page_fault_handled e = absurd (false≢true e)

done-false :
    (k : ℕ) (t : Sched) (x : Notice)
    → done k t x ≡ false
    → (t.term_count ≢ k) ⊎ (terms (x ∷ []) ≡ 0)
unfolding done
done-false k t process_term e = inl (ground arith)
done-false k t page_fault_handled e = inr refl

-- The loop ends with `k` terminations counted, each with a process of its own.
abbrev Ends : ℕ → Sched → Rest → Type 0
Ends k s r =
    (t : Sched) × (r ≡ stopped t)
    × (t.term_count ≡ k)
    × (size t.gone + s.term_count ≡ size s.gone + k)
    × (size t.ready + k ≡ size s.ready + s.term_count)

Ends-on :
    (k : ℕ) (s : Sched) (xs : List Notice) (ready : List ℕ)
    → s.ready ≡ ready
    → s.term_count < k
    → k ≤ s.term_count + terms xs
    → k ≤ s.term_count + size ready
    → Ends k s (loop k s xs)
Ends-on k s [] ready e less enough queue = absurd (omega arith)
Ends-on k s (x ∷ xs) [] e less enough queue = absurd (omega arith)
Ends-on k s (x ∷ xs) (id ∷ ready) e less enough queue =
    let t = round s id ready x in
    let (r, c, g) = round-size s id ready x in
    let z : size s.ready ≡ suc (size ready) = ap size e in
    let split = terms-cons x xs in
    rw (loop-round k s id ready x xs e) (elim (Bool-cases (done k t x)) [
      | inl stop ↦
          let (at, one) = done-true k t x stop in
          rw stop (t, refl, at, omega (arith, c, g, at), omega (arith, c, r, z, at))
      | inr more ↦
          let below = done-false k t x more in
          let (u, eu, cu, gu, ru) =
            Ends-on k t xs t.ready refl (ground (arith, c, below)) (omega (arith, c, split))
              (omega (arith, c, r)) in
          rw more (u, eu, cu, omega (arith, gu, c, g), omega (arith, ru, c, r, z))
    ])

-- If the queue has enough processes and the memory manager tells of enough terminations, the
-- scheduler ends with exactly `k` of them counted, one for each process that left the queue.
pub loop_ends :
    (k : ℕ) (s : Sched) (notices : List Notice)
    → s.term_count < k
    → k ≤ s.term_count + terms notices
    → k ≤ s.term_count + size s.ready
    → (t : Sched) × (loop k s notices ≡ stopped t)
      × (t.term_count ≡ k)
      × (size t.gone + s.term_count ≡ size s.gone + k)
      × (size t.ready + k ≡ size s.ready + s.term_count)
loop_ends k s notices = Ends-on k s notices s.ready refl
