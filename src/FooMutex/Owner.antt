-- ===== src/FooMutex/Owner.antt =====
-- The mutex of Assignment_07/foothread.c keeps threads apart, but its owner can be erased.
use os_lab_spr.Base.{
  ℕ, ◌+◌, ◌≤◌, ◌<◌, ◌≡◌, ◌≢◌, ◌⊎◌, inl, inr, refl, sym, true, false, not, ◌||◌, some, List, [], ◌∷◌,
  ◌==◌, ltb, total, total-at, total-null, two-total, arith, Bool-cases,
}
use os_lab_spr.FooMutex.{
  Mutex, foothread_mutex_init, At, waiting, naming, marking, inside, releasing, unnaming, unmarking,
  Outcome, blocked, moves, exits, statement, Threads, begin, turn, run,
}

-- 1 for a thread between `wait` and `signal` on the semaphore.
abbrev pub holds : At → ℕ
holds waiting = 0
holds naming = 1
holds marking = 1
holds inside = 1
holds releasing = 1
holds unnaming = 0
holds unmarking = 0

-- The semaphore and the threads that hold it add up to one.
abbrev pub Single : ℕ → Threads → Type 0
Single n s = s.mutex.semaphore + total n (λ i. holds (s.at i)) ≡ 1

statement_keeps :
    (self : ℕ) (m t : Mutex) (p q : At)
    → statement self m p ≡ moves t q
    → t.semaphore + holds q ≡ m.semaphore + holds p
unfolding statement
statement_keeps self m t waiting q e = ground (arith, e)
statement_keeps self m t naming q e = ground (arith, e)
statement_keeps self m t marking q e = ground (arith, e)
statement_keeps self m t inside q e = ground (arith, e)
statement_keeps self m t releasing q e = ground (arith, e)
statement_keeps self m t unnaming q e = ground (arith, e)
statement_keeps self m t unmarking q e = ground (arith, e)

Outcome-cases :
    (o : Outcome) → (o ≡ blocked) ⊎ ((o ≡ exits) ⊎ ((t : Mutex) × (q : At) × (o ≡ moves t q)))
Outcome-cases blocked = inl refl
Outcome-cases exits = inr (inl refl)
Outcome-cases (moves t q) = inr (inr (t, q, refl))

turn-Single : (n : ℕ) (s : Threads) (i : ℕ) → Single n s → Single n (turn n s i)
unfolding turn
turn-Single n s i k = elim (Bool-cases (s.exited || not (ltb i n))) [
  | inl still ↦ rw still k
  | inr runs ↦ rw runs (elim (Outcome-cases (statement i s.mutex (s.at i))) [
    | inl e ↦ rw e k
    | inr (inl e) ↦ rw e k
    | inr (inr (t, q, e)) ↦
        let low : i < n = ground arith in
        rw e (
          omega (
            arith,
            k,
            statement_keeps i s.mutex t (s.at i) q e,
            total-at (λ _. holds) n s.at i q low,
          ))
  ])
]

run-Single : (n : ℕ) (s : Threads) (is : List ℕ) → Single n s → Single n (run n s is)
unfolding run
run-Single n s [] k = k
run-Single n s (i ∷ is) k = run-Single n (turn n s i) is (turn-Single n s i k)

begin-Single : (n : ℕ) → Single n begin
unfolding begin
begin-Single n = omega (arith, total-null n (λ _. 0) (λ i h. refl))

-- However the threads take turns, no two of them are between `wait` and `signal` of the mutex together,
-- and while none is, the mutex can be taken.
pub run_apart :
    (n : ℕ) (is : List ℕ) (i j : ℕ)
    → i < n
    → j < n
    → i ≢ j
    → let s = run n begin is in
      (holds (s.at i) + holds (s.at j) ≤ 1)
      × (s.mutex.semaphore + holds (s.at i) + holds (s.at j) ≤ 1)
      × (s.mutex.semaphore + total n (λ k. holds (s.at k)) ≡ 1)
run_apart n is i j p q ne =
    let s = run n begin is in
    let k = run-Single n begin is (begin-Single n) in
    let two = two-total n (λ k. holds (s.at k)) i j p q ne in
    (omega (arith, k, two), omega (arith, k, two), k)

-- What two threads and the mutex look like.
record Seen (i j : ℕ) (s : Threads) (m : Mutex) (p q : At) : Type 0 where
  mutex : s.mutex ≡ m
  first : s.at i ≡ p
  second : s.at j ≡ q
  running : s.exited ≡ false

module _ (n i j : ℕ) (low : i < n) (ne : i ≢ j) (s : Threads) where
  moved :
      {m t : Mutex} {p q r : At}
      → Seen i j s m p r
      → statement i m p ≡ moves t q
      → Seen i j (turn n s i) t q r
  unfolding turn
  moved {m} {t} {p} {q} {r} v e =
      let known : statement i s.mutex (s.at i) ≡ moves t q = rw (v.mutex, v.first) e in
      let inside_n : ltb i n ≡ true = ground arith in
      rw (v.running, inside_n, known)
        (record {
          mutex = refl;
          first = ground arith;
          second = ground (arith, v.second);
          running = v.running;
        })

  exited :
      {m : Mutex} {p r : At}
      → Seen i j s m p r
      → statement i m p ≡ exits
      → (turn n s i).exited ≡ true
  unfolding turn
  exited {m} {p} {r} v e =
      let known : statement i s.mutex (s.at i) ≡ exits = rw (v.mutex, v.first) e in
      let inside_n : ltb i n ≡ true = ground arith in rw (v.running, inside_n, known) refl

Seen-from : {i j : ℕ} {s : Threads} {m : Mutex} {p q : At} → Seen i j s m p q → Seen j i s m q p
Seen-from v = record { mutex = v.mutex; first = v.second; second = v.first; running = v.running }

-- Two threads whose turns come so that the first unlocks up to its `signal` and the second then
-- locks: the next statement of the first erases the owner, so that the second, inside the lock, ends
-- the program when it unlocks.
pub owner_erased :
    (n a b : ℕ)
    → a < n
    → b < n
    → a ≢ b
    → let s = run n begin (a ∷ a ∷ a ∷ a ∷ a ∷ b ∷ b ∷ b ∷ a ∷ []) in
      (s.at b ≡ inside) × ((turn n s b).exited ≡ true)
unfolding run begin foothread_mutex_init statement
owner_erased n a b p q ne =
    let en : b ≢ a = λ e. ne (sym e) in
    let aa : (a == a) ≡ true = ground arith in
    let v0 : Seen a b begin foothread_mutex_init waiting waiting = record {
      mutex = refl;
      first = refl;
      second = refl;
      running = refl;
    } in
    let v1 = moved n a b p ne _ v0 refl in
    let v2 = moved n a b p ne _ v1 refl in
    let v3 = moved n a b p ne _ v2 refl in
    let owned : Mutex = record { semaphore = 0; tid = some a; status = true } in
    let passes : statement a owned inside ≡ moves owned releasing = rw aa refl in
    let v4 = moved n a b p ne _ v3 passes in
    let v5 = moved n a b p ne _ v4 refl in
    let v6 = moved n b a q en _ (Seen-from v5) refl in
    let v7 = moved n b a q en _ v6 refl in
    let v8 = moved n b a q en _ v7 refl in
    let v9 = moved n a b p ne _ (Seen-from v8) refl in
    (v9.second, exited n b a q en _ (Seen-from v9) refl)
