-- ===== src/FooBarrier/Gate.antt =====
-- Assignment_07/foothread.c: what stays true of the threads at a barrier.
use os_lab_spr.Base.{
  ℕ, ◌+◌, ◌≤◌, ◌<◌, ◌≡◌, ◌⊎◌, ◌≢◌, refl, sym, Bool, true, false, store, arith, store_self,
  ℕ_discrete, total, total-at, total-null,
}
use mathlib.Core.Bool.{false≢true}
use os_lab_spr.FooBarrier.{
  At, arriving, counting, testing, last_releasing, opening, resetting, releasing, passing, through,
  Crowd, assemble,
}

-- Whether a thread holds the mutex, has counted itself, or has gone through.
abbrev pub holds : At → ℕ
holds counting = 1
holds testing = 1
holds last_releasing = 1
holds releasing = 1
holds _ = 0

abbrev pub arrived : At → ℕ
arrived arriving = 0
arrived counting = 0
arrived _ = 1

abbrev pub gone : At → ℕ
gone through = 1
gone _ = 0

abbrev pub all : (At → ℕ) → ℕ → (ℕ → At) → ℕ
all w n at = total n (λ j. w (at j))

-- Before the last thread tests: where a thread is, and the one that finds the count full still tests.
abbrev pub early : At → Bool
early arriving = true
early counting = true
early testing = true
early releasing = true
early passing = true
early _ = false

-- After the semaphore is opened.
abbrev pub late : At → Bool
late resetting = true
late passing = true
late through = true
late _ = false

abbrev pub is_testing : At → Bool
is_testing testing = true
is_testing _ = false

pub record Gathers (n : ℕ) (s : Crowd) : Type 0 where
  pub count : s.barrier.count ≡ n
  pub mutex : s.barrier.mutex_semaphore + all holds n s.at ≡ 1
  pub reached : s.barrier.reached ≡ all arrived n s.at
  pub semaphore : s.barrier.semaphore ≡ 0
  pub places : (j : ℕ) → j < n → early (s.at j) ≡ true
  pub full : (s.barrier.reached ≡ n) → (k : ℕ) × (k < n) × (s.at k ≡ testing)

-- The last thread is about to open the semaphore, and the others wait for it.
pub record Opens (n : ℕ) (s : Crowd) : Type 0 where
  pub count : s.barrier.count ≡ n
  pub semaphore : s.barrier.semaphore ≡ 0
  pub opener :
      (k : ℕ) × (k < n)
      × ((s.at k ≡ last_releasing) ⊎ (s.at k ≡ opening))
      × ((j : ℕ) → j < n → j ≢ k → s.at j ≡ passing)

pub record Flows (n : ℕ) (s : Crowd) : Type 0 where
  pub semaphore : s.barrier.semaphore + all gone n s.at ≡ n
  pub places : (j : ℕ) → j < n → late (s.at j) ≡ true

pub data Gate (n : ℕ) (s : Crowd) : Type 0 where
  gathers : Gathers n s → Gate n s
  opens : Opens n s → Gate n s
  flows : Flows n s → Gate n s

pub assemble-Gate : (n : ℕ) → 0 < n → Gate n (assemble n)
assemble-Gate n some_thread = gathers record {
  count = refl;
  mutex = omega (arith, total-null n (λ _. 0) (λ i p. refl));
  reached = sym (total-null n (λ _. 0) (λ i p. refl));
  semaphore = refl;
  places = λ j p. refl;
  full = λ e. absurd (omega arith);
}

-- The sums after one thread moved.
pub all-store :
    (w : At → ℕ) (n : ℕ) (at : ℕ → At) (i : ℕ) (p : At)
    → i < n
    → all w n (store at i p) + w (at i) ≡ all w n at + w p
all-store w n at i p low = total-at (λ _. w) n at i p low

pub store_other : (at : ℕ → At) (i j : ℕ) (p : At) → i ≢ j → store at i p j ≡ at j
store_other at i j p ne = ground arith

pub places-store :
    (f : At → Bool) (n : ℕ) (at : ℕ → At) (i : ℕ) (p : At)
    → f p ≡ true
    → ((j : ℕ) → j < n → f (at j) ≡ true)
    → (j : ℕ) → j < n
    → f (store at i p j) ≡ true
places-store f n at i p ok old j low = elim (ℕ_discrete i j) [
  | yes e ↦ rw e (rw (store_self at j p) ok)
  | no ne ↦ rw (store_other at i j p ne) (old j low)
]

-- A thread that has counted itself and does not hold the mutex is parked at the semaphore.
pub parked : (p : At) → early p ≡ true → arrived p ≡ 1 → holds p ≡ 0 → p ≡ passing
parked arriving e a h = absurd (omega arith)
parked counting e a h = absurd (omega arith)
parked testing e a h = absurd (omega arith)
parked last_releasing e a h = absurd (omega arith)
parked opening e a h = absurd (false≢true e)
parked resetting e a h = absurd (false≢true e)
parked releasing e a h = absurd (omega arith)
parked passing e a h = refl
parked through e a h = absurd (false≢true e)

pub arrived_small : (p : At) → arrived p ≤ 1
arrived_small arriving = omega arith
arrived_small counting = omega arith
arrived_small testing = omega arith
arrived_small last_releasing = omega arith
arrived_small opening = omega arith
arrived_small resetting = omega arith
arrived_small releasing = omega arith
arrived_small passing = omega arith
arrived_small through = omega arith
