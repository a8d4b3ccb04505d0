-- ===== src/FooBarrier.antt =====
-- Assignment_07/foothread.c: the barrier of the thread library, as threads that run between any two
-- statements of each other. Each of them waits at the barrier once.
pub mod Gate
pub mod Steps
pub mod Passage
mod Tests
use os_lab_spr.Base.{
  ℕ, zero, suc, ◌+◌, ◌-◌, Bool, true, false, not, Option, none, some, List, [], ◌∷◌, ◌==◌, ltb,
  if◌then◌else◌, store,
}

-- `foothread_barrier_t`, with the values of its semaphores.
pub record Barrier : Type 0 where
  pub count : ℕ
  pub reached : ℕ
  pub semaphore : ℕ
  pub mutex_semaphore : ℕ

abbrev pub foothread_barrier_init : ℕ → Barrier
foothread_barrier_init count = record {
  count = count;
  reached = 0;
  semaphore = 0;
  mutex_semaphore = 1;
}

-- The statement of `foothread_barrier_wait` that a thread is before: P on the mutex, the increment, the
-- test, then V on the mutex in its two branches, V on the semaphore, the reset, and P on the semaphore.
pub data At : Type 0 where
  arriving counting testing last_releasing opening resetting releasing passing through : At

-- One statement; `none`: it is blocked.
unfoldable pub statement : Barrier → At → Option (Barrier × At)
statement b arriving =
    if b.mutex_semaphore == 0
    then none
    else some (record b { mutex_semaphore = b.mutex_semaphore - 1 }, counting)
statement b counting = some (record b { reached = b.reached + 1 }, testing)
statement b testing = some (b, if b.reached == b.count then last_releasing else releasing)
statement b last_releasing = some (record b { mutex_semaphore = b.mutex_semaphore + 1 }, opening)
statement b opening = some (record b { semaphore = b.semaphore + b.count }, resetting)
statement b resetting = some (record b { reached = 0 }, passing)
statement b releasing = some (record b { mutex_semaphore = b.mutex_semaphore + 1 }, passing)
statement b passing =
    if b.semaphore == 0 then none else some (record b { semaphore = b.semaphore - 1 }, through)
statement b through = none

pub record Crowd : Type 0 where
  pub barrier : Barrier
  pub at : ℕ → At

abbrev pub assemble : ℕ → Crowd
assemble n = record { barrier = foothread_barrier_init n; at = λ _. arriving }

abbrev pub moved : Crowd → ℕ → Option (Barrier × At) → Crowd
moved s i none = s
moved s i (some (b, p)) = record { barrier = b; at = store s.at i p }

-- The turn of thread `i` of `n`. A turn that is blocked changes nothing.
unfoldable pub turn : ℕ → Crowd → ℕ → Crowd
turn n s i = if ltb i n then moved s i (statement s.barrier (s.at i)) else s

unfoldable pub run : ℕ → Crowd → List ℕ → Crowd
run n s [] = s
run n s (i ∷ is) = run n (turn n s i) is
