-- ===== src/FooTable.antt =====
-- Assignment_07/foothread.c: the thread table, with the creation and the exit of threads, and the
-- operation buffer `pop` that all threads share. A part of the code between P and V on `mutex_semaphore` is
-- one step, and threads take turns between these parts; such a part may also be taken where the P before it
-- would never go through, since it has found a greater number in `pop`. The calls of the system succeed; a
-- thread id is not given twice.
pub mod Loops
pub mod Invariant
pub mod Leaving
pub mod Passing
pub mod Creating
pub mod Join
pub mod Orphans
mod Tests
use os_lab_spr.Base.{
  ℕ, zero, suc, ◌+◌, ◌-◌, ◌*◌, ◌≡◌, Bool, true, false, not, ◌&&◌, Option, none, some, ◌==◌, leb,
  if◌then◌else◌, store, bit,
}

abbrev pub max_threads : ℕ
max_threads = 50

abbrev pub joinable : ℕ
joinable = 1

abbrev pub detached : ℕ
detached = 0

abbrev pub default_stack_size : ℕ
default_stack_size = 2 * 1024 * 1024

-- `ThreadEntry`; `semaphore` is the name of a semaphore, which `value` looks up.
pub record Entry : Type 0 where
  pub tid : ℕ
  pub parent_tid : ℕ
  pub join_type : ℕ
  pub stack_size : ℕ
  pub valid : Bool
  pub semaphore : ℕ

pub record Attr : Type 0 where
  pub join_type : ℕ
  pub stack_size : ℕ

-- The thread table, the values of the semaphores that `semget` has made, and `init`.
pub record Table : Type 0 where
  pub entries : ℕ → Entry
  pub value : ℕ → ℕ
  pub made : ℕ
  pub init : Bool

-- `for (i = ...; i < ...; ++i) if (test) break;` on the `n` indices from `i` on.
unfoldable pub first : (ℕ → Bool) → ℕ → ℕ → ℕ
first test zero i = i
first test (suc n) i = let rest = first test n (i + 1) in if test i then i else rest

-- `for (i = 0; i < n; ++i) if (test) count++;`
unfoldable pub count_of : ℕ → (ℕ → Bool) → ℕ
count_of zero test = 0
count_of (suc n) test = count_of n test + bit (test n)

-- `semget` with IPC_PRIVATE, and SETVAL 0.
abbrev pub new_semaphore : Table → Table
new_semaphore t = record t { value = store t.value t.made 0; made = t.made + 1 }

abbrev pub ready : Table → Table
ready t =
    if t.init
    then t
    else record t { entries = λ i. record (t.entries i) { valid = false }; init = true }

abbrev pub is_free : Table → ℕ → Bool
is_free t i = not (t.entries i).valid

-- The entry of the first thread that creates one.
abbrev pub enter_first : ℕ → ℕ → Table → Table
enter_first i self t = record (new_semaphore t) {
  entries = store t.entries i record {
    tid = self;
    parent_tid = self;
    join_type = joinable;
    stack_size = (t.entries i).stack_size;
    valid = true;
    semaphore = t.made;
  };
}

abbrev pub join_type_of : Option Attr → ℕ
join_type_of none = detached
join_type_of (some a) = a.join_type

abbrev pub stack_size_of : Option Attr → ℕ
stack_size_of none = default_stack_size
stack_size_of (some a) = a.stack_size

abbrev pub enter : ℕ → ℕ → ℕ → Option Attr → Table → Table
enter i self tid attr t = record (new_semaphore t) {
  entries = store t.entries i record {
    tid = tid;
    parent_tid = self;
    join_type = join_type_of attr;
    stack_size = stack_size_of attr;
    valid = true;
    semaphore = t.made;
  };
}

-- `tid` is what `clone` returns. `none`: the program ends with EXIT_FAILURE.
unfoldable pub foothread_create : ℕ → ℕ → Option Attr → Table → Option Table
foothread_create self tid attr t =
    let i = first (is_free (ready t)) max_threads 0 in
    if i == max_threads
    then none
    else if i == 0
    then some (enter 1 self tid attr (enter_first 0 self (ready t)))
    else some (enter i self tid attr (ready t))

-- Where a thread is in the lines 220 and 221: before the assignment to `pop`, before the call of `semop`,
-- and in the call, which has copied a P of `n` from `pop`.
pub data Call : Type 0 where
  setting calling : Call
  asleep : ℕ → Call

-- What `foothread_exit` keeps of its thread: `index` and `semaphore` are `none` at -1.
pub record Exiting : Type 0 where
  pub index : Option ℕ
  pub semaphore : Option ℕ
  pub count : ℕ
  pub mychild : ℕ → Bool
  pub call : Call

abbrev pub is_entry_of : Table → ℕ → ℕ → Bool
is_entry_of t tid i = (t.entries i).valid && (t.entries i).tid == tid

abbrev pub found : ℕ → Option ℕ
found i = if i == max_threads then none else some i

abbrev pub entry_of : Table → ℕ → Option ℕ
entry_of t tid = found (first (is_entry_of t tid) max_threads 0)

abbrev pub is_child : Table → ℕ → ℕ → Bool
is_child t tid i =
    (t.entries i).valid
    && (t.entries i).parent_tid == tid
    && (t.entries i).join_type == joinable
    && not ((t.entries i).tid == tid)

-- V on a semaphore of the table.
abbrev pub signal : Option ℕ → Table → Table
signal none t = t
signal (some i) t =
    let x = (t.entries i).semaphore in record t { value = store t.value x (t.value x + 1) }

-- Lines 190 to 200.
abbrev pub notify : ℕ → Option ℕ → Table → Table
notify self none t = t
notify self (some i) t =
    let e = t.entries i in
    if e.join_type == joinable && not (e.parent_tid == self)
    then signal (entry_of t e.parent_tid) t
    else t

abbrev pub semaphore_at : Table → Option ℕ → Option ℕ
semaphore_at t none = none
semaphore_at t (some i) = some (t.entries i).semaphore

-- `foothread_exit` to line 218.
abbrev pub leave : ℕ → Table → Table
leave self t = notify self (entry_of t self) t

abbrev pub exiting : ℕ → Table → Exiting
exiting self t = record {
  index = entry_of t self;
  semaphore = semaphore_at t (entry_of t self);
  count = count_of max_threads (is_child t self);
  mychild = is_child t self;
  call = setting;
}

-- The P that the thread is in, on its own semaphore; `none`: it is blocked, or not there yet. On
-- semaphore -1 the call fails.
abbrev pub pass_on : Call → Option ℕ → Table → Option Table
pass_on setting sem t = none
pass_on calling sem t = none
pass_on (asleep n) none t = some t
pass_on (asleep n) (some x) t =
    if leb n (t.value x) then some (record t { value = store t.value x (t.value x - n) }) else none

unfoldable pub pass : Exiting → Table → Option Table
pass l t = if l.count == 0 then some t else pass_on l.call l.semaphore t

-- The second part under the mutex.
abbrev pub clear_children : (ℕ → Bool) → Table → Table
clear_children mychild t = record t {
  entries = λ i. if mychild i then record (t.entries i) { valid = false } else t.entries i;
}

abbrev pub clear : Exiting → Table → Table
clear l t = elim l.index [ none ↦ t | some i ↦ clear_children l.mychild t ]

-- Where a thread is.
pub data Phase : Type 0 where
  absent running : Phase
  waiting clearing : Exiting → Phase
  ended : Phase

-- A thread that may call a function of the library that sets `pop.sem_op` to -1: one that runs or has
-- ended does so at any call, and one that has passed its own semaphore does so in line 225.
abbrev pub may_reset : Phase → Bool
may_reset absent = false
may_reset running = true
may_reset (waiting l) = false
may_reset (clearing l) = true
may_reset ended = true

-- `pop` is -`pop.sem_op`.
pub record System : Type 0 where
  pub table : Table
  pub pop : ℕ
  pub phase : ℕ → Phase

-- Before the first call: the table is zero, and one thread runs.
abbrev pub no_entry : Entry
no_entry = record {
  tid = 0;
  parent_tid = 0;
  join_type = 0;
  stack_size = 0;
  valid = false;
  semaphore = 0;
}

abbrev pub start : ℕ → System
start main = record {
  table = record { entries = λ _. no_entry; value = λ _. 0; made = 0; init = false };
  pop = 0;
  phase = store (λ _. absent) main running;
}

pub data Step (s : System) : System → Type 0 where
  creates :
      (self tid : ℕ) (attr : Option Attr) (t : Table)
      → s.phase self ≡ running
      → s.phase tid ≡ absent
      → foothread_create self tid attr s.table ≡ some t
      → Step s (record s { table = t; phase = store s.phase tid running })
  resets : (self : ℕ) → may_reset (s.phase self) ≡ true → Step s (record s { pop = 1 })
  leaves :
      (self : ℕ)
      → s.table.init ≡ true
      → s.phase self ≡ running
      → Step s (record s {
        table = leave self s.table;
        phase = store s.phase self (waiting (exiting self s.table));
      })
  sets :
      (self : ℕ) (l : Exiting)
      → s.phase self ≡ waiting l
      → l.call ≡ setting
      → (l.count == 0) ≡ false
      → Step s (record s {
        pop = l.count;
        phase = store s.phase self (waiting (record l { call = calling }));
      })
  calls :
      (self : ℕ) (l : Exiting)
      → s.phase self ≡ waiting l
      → l.call ≡ calling
      → Step s
          (record s { phase = store s.phase self (waiting (record l { call = asleep s.pop })) })
  passes :
      (self : ℕ) (l : Exiting) (t : Table)
      → s.phase self ≡ waiting l
      → pass l s.table ≡ some t
      → Step s (record s { table = t; phase = store s.phase self (clearing l) })
  clears :
      (self : ℕ) (l : Exiting)
      → s.phase self ≡ clearing l
      → Step s (record s { table = clear l s.table; phase = store s.phase self ended })

-- What the turns of the threads lead to from a first thread.
pub data Reached (main : ℕ) : System → Type 0 where
  begins : Reached main (start main)
  goes_on : {t : System} (s : System) → Reached main s → Step s t → Reached main t

pub data Turns (s : System) : System → Type 0 where
  stays : Turns s s
  turn : {u : System} (t : System) → Turns s t → Step t u → Turns s u

-- The operand that a thread copies from `pop` is the one that it has set itself.
abbrev pub OwnCall : (s t : System) → Step s t → Type 0
OwnCall s t (creates self tid attr u runs new h) = Unit {0}
OwnCall s t (resets self may) = Unit {0}
OwnCall s t (leaves self init runs) = Unit {0}
OwnCall s t (sets self l w c some_left) = Unit {0}
OwnCall s t (calls self l w c) = s.pop ≡ l.count
OwnCall s t (passes self l u w h) = Unit {0}
OwnCall s t (clears self l w) = Unit {0}

-- No thread changed `pop` between the lines 220 and 221 of another.
abbrev pub Undisturbed : (main : ℕ) (s : System) → Reached main s → Type 0
Undisturbed main s begins = Unit {0}
Undisturbed main t (goes_on s r step) = Undisturbed main s r × OwnCall s t step

abbrev pub UndisturbedTurns : (s t : System) → Turns s t → Type 0
UndisturbedTurns s t stays = Unit {0}
UndisturbedTurns s u (turn t turns step) = UndisturbedTurns s t turns × OwnCall t u step
