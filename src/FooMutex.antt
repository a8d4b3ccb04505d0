-- ===== src/FooMutex.antt =====
-- Assignment_07/foothread.c: the mutex of the thread library, as threads that run between any two
-- statements of each other.
pub mod Owner
mod Tests
use os_lab_spr.Base.{
  ℕ, zero, suc, ◌+◌, ◌-◌, Bool, true, false, not, ◌||◌, Option, none, some, List, [], ◌∷◌, ◌==◌,
  ltb, if◌then◌else◌, store,
}

-- `foothread_mutex_t`, with the value of its semaphore; `tid` is `none` at -1.
pub record Mutex : Type 0 where
  pub semaphore : ℕ
  pub tid : Option ℕ
  pub status : Bool

unfoldable pub foothread_mutex_init : Mutex
foothread_mutex_init = record { semaphore = 1; tid = none; status = false }

-- The statement that a thread is before: the three of `foothread_mutex_lock`, the tests and the three
-- last ones of `foothread_mutex_unlock`. A thread locks and unlocks in turn.
pub data At : Type 0 where
  waiting naming marking inside releasing unnaming unmarking : At

-- A step: it is blocked, the thread goes on, or the program exits.
pub data Outcome : Type 0 where
  blocked : Outcome
  moves : Mutex → At → Outcome
  exits : Outcome

abbrev pub is_owner : Option ℕ → ℕ → Bool
is_owner none self = false
is_owner (some t) self = t == self

-- One statement of thread `self`.
unfoldable pub statement : ℕ → Mutex → At → Outcome
statement self m waiting =
    if m.semaphore == 0 then blocked else moves (record m { semaphore = m.semaphore - 1 }) naming
statement self m naming = moves (record m { tid = some self }) marking
statement self m marking = moves (record m { status = true }) inside
statement self m inside =
    if not (is_owner m.tid self) then exits else if not m.status then exits else moves m releasing
statement self m releasing = moves (record m { semaphore = m.semaphore + 1 }) unnaming
statement self m unnaming = moves (record m { tid = none }) unmarking
statement self m unmarking = moves (record m { status = false }) waiting

pub record Threads : Type 0 where
  pub mutex : Mutex
  pub at : ℕ → At
  pub exited : Bool

unfoldable pub begin : Threads
unfolding foothread_mutex_init
begin = record { mutex = foothread_mutex_init; at = λ _. waiting; exited = false }

-- The turn of thread `i` of `n`. A turn that is blocked changes nothing.
unfoldable pub turn : ℕ → Threads → ℕ → Threads
unfolding statement
turn n s i = if s.exited || not (ltb i n) then s else elim (statement i s.mutex (s.at i)) [
  | blocked ↦ s
  | moves m p ↦ record s { mutex = m; at = store s.at i p }
  | exits ↦ record s { exited = true }
]

pub run : ℕ → Threads → List ℕ → Threads
run n s [] = s
run n s (i ∷ is) = run n (turn n s i) is
