-- ===== src/FooTable/Invariant.antt =====
-- Assignment_07/foothread.c: what stays true of the thread table, the semaphores and the threads.
use os_lab_spr.Base.{
  ℕ, ◌≤◌, ◌<◌, ◌≡◌, ◌⊎◌, inl, inr, ◌≢◌, refl, sym, ap, ◌∙◌, Bool, true, false, ◌&&◌, store, arith,
  some, dec_lt,
}
use os_lab_spr.FooTable.{
  Entry, Table, Call, setting, calling, asleep, Exiting, Phase, absent, running, waiting, clearing,
  ended, count_of, max_threads, is_child, new_semaphore, start,
}
use mathlib.Core.Bool.{false≢true}
use os_lab_spr.FooTable.Loops.{count_of_le, store_cases}

-- The thread has called `foothread_exit` and notified its parent.
abbrev pub has_left : Phase → Bool
has_left absent = false
has_left running = false
has_left (waiting l) = true
has_left (clearing l) = true
has_left ended = true

-- It has passed the P on its own semaphore.
abbrev pub has_joined : Phase → Bool
has_joined absent = false
has_joined running = false
has_joined (waiting l) = false
has_joined (clearing l) = true
has_joined ended = true

abbrev pub is_running : Phase → Bool
is_running running = true
is_running _ = false

abbrev pub left_child : Table → (ℕ → Phase) → ℕ → ℕ → Bool
left_child t phase q i = is_child t q i && has_left (phase (t.entries i).tid)

-- How many joinable children of a thread have left.
abbrev pub left : Table → (ℕ → Phase) → ℕ → ℕ
left t phase q = count_of max_threads (left_child t phase q)

-- A valid entry is in the table and its semaphore belongs to its thread.
abbrev pub Entered : (ℕ → ℕ) → Table → Type 0
Entered owner t =
    (i : ℕ)
    → (t.entries i).valid ≡ true
    → (i < max_threads)
      × ((t.entries i).semaphore < t.made)
      × (owner (t.entries i).semaphore ≡ (t.entries i).tid)

-- A P that waits is for the thread's own count.
abbrev pub OwnOperand : Call → ℕ → Type 0
OwnOperand setting count = Unit {0}
OwnOperand calling count = Unit {0}
OwnOperand (asleep n) count = n ≡ count

-- What a thread between the two parts of its exit remembers is still so.
abbrev pub Waits : (ℕ → ℕ) → Table → ℕ → Exiting → Type 0
Waits owner t q l =
    (x : ℕ) × (l.semaphore ≡ some x)
    × (x < t.made)
    × (owner x ≡ q)
    × (l.count ≡ count_of max_threads l.mychild)
    × ((i : ℕ) → is_child t q i ≡ l.mychild i)
    × OwnOperand l.call l.count

abbrev pub Joined : Table → (ℕ → Phase) → ℕ → Exiting → Type 0
Joined t phase q l =
    (i : ℕ)
    → l.mychild i ≡ true
    → (is_child t q i ≡ true) × (has_left (phase (t.entries i).tid) ≡ true)

-- The semaphore of a thread that has not joined counts no more than the children that have left.
abbrev pub Counted : (ℕ → ℕ) → Table → (ℕ → Phase) → Type 0
Counted owner t phase =
    (x : ℕ) → x < t.made → has_joined (phase (owner x)) ≡ false → t.value x ≤ left t phase (owner x)

pub record Sound (owner : ℕ → ℕ) (t : Table) (phase : ℕ → Phase) : Type 0 where
  pub entered : Entered owner t
  pub waits : (q : ℕ) (l : Exiting) → phase q ≡ waiting l → Waits owner t q l
  pub joined : (q : ℕ) (l : Exiting) → phase q ≡ clearing l → Joined t phase q l
  pub counted : Counted owner t phase

abbrev pub Empty : Table → Type 0
Empty t = (i : ℕ) → (t.entries i).valid ≡ false

abbrev pub HasEntry : Table → ℕ → Type 0
HasEntry t q = (i : ℕ) × ((t.entries i).valid ≡ true) × ((t.entries i).tid ≡ q)

-- Before the first creation only the first thread runs; after it the first entry is for good, and every
-- thread that runs has an entry.
abbrev pub Before : ℕ → Table → (ℕ → Phase) → Type 0
Before main t phase = (t.init ≡ false) × Empty t × ((q : ℕ) → phase q ≡ running → q ≡ main)

abbrev pub After : Table → (ℕ → Phase) → Type 0
After t phase =
    (t.init ≡ true)
    × ((t.entries 0).valid ≡ true)
    × ((t.entries 0).parent_tid ≡ (t.entries 0).tid)
    × ((q : ℕ) → phase q ≡ running → HasEntry t q)

abbrev pub Inv : ℕ → Table → (ℕ → Phase) → Type 0
Inv main t phase = ((owner : ℕ → ℕ) × Sound owner t phase) × (Before main t phase ⊎ After t phase)

-- A thread that runs is not one that has left.
pub running_other :
    (phase : ℕ → Phase) (q self : ℕ) → phase self ≡ running → has_left (phase q) ≡ true → q ≢ self
running_other phase q self runs gone =
    λ same. false≢true (sym (ap has_left runs) ∙ ap (λ x. has_left (phase x)) (sym same) ∙ gone)

no_one_left : (main q : ℕ) → has_left (store (λ _. absent) main running q) ≡ true → ⊥
no_one_left main q h = elim (store_cases (λ _. absent) main running q) [
  | inl c ↦ false≢true (ap has_left (sym c.1) ∙ h)
  | inr c ↦ false≢true (ap has_left (sym c.1) ∙ h)
]

only_main : (main q : ℕ) → store (λ _. absent) main running q ≡ running → q ≡ main
only_main main q h = elim (store_cases (λ _. absent) main running q) [
  | inl c ↦ sym c.0
  | inr c ↦ absurd (false≢true (ap is_running (sym c.1 ∙ h)))
]

pub start-Inv : (main : ℕ) → Inv main (start main).table (start main).phase
start-Inv main = (
  (
    (λ _. 0),
    record {
      entered = λ i e. absurd (false≢true e);
      waits = λ q l e. absurd (no_one_left main q (ap has_left e));
      joined = λ q l e. absurd (no_one_left main q (ap has_left e));
      counted = λ x p e. absurd (omega arith);
    },
  ),
  inl (refl, (λ i. refl), (λ q e. only_main main q e)),
)

-- A new entry, of the thread that runs, at an index that is free.
module _ (owner : ℕ → ℕ) (t : Table) (phase : ℕ → Phase) (sound : Sound owner t phase) (i self : ℕ)
    (e : Entry) (free : (t.entries i).valid ≡ false) (room : i < max_threads)
    (runs : phase self ≡ running) (valid : e.valid ≡ true) (new : e.semaphore ≡ t.made)
    (own : e.parent_tid ≡ self) where
  abbrev placed : Table
  placed = record (new_semaphore t) { entries = store t.entries i e }

  abbrev owners : ℕ → ℕ
  owners = store owner t.made e.tid

  others-is_child : (q j : ℕ) → q ≢ self → is_child placed q j ≡ is_child t q j
  others-is_child q j ne = elim (store_cases t.entries i e j) [
    | inl c ↦ let f : (t.entries j).valid ≡ false = rw (← c.0) free in rw c.1 (ground arith)
    | inr c ↦ rw c.1 refl
  ]

  more-is_child : (q j : ℕ) → is_child t q j ≡ true → is_child placed q j ≡ true
  more-is_child q j h = elim (store_cases t.entries i e j) [
    | inl c ↦ let f : (t.entries j).valid ≡ false = rw (← c.0) free in ground arith
    | inr c ↦ rw c.1 h
  ]

  more-left_child : (q j : ℕ) → left_child t phase q j ≡ true → left_child placed phase q j ≡ true
  more-left_child q j h = elim (store_cases t.entries i e j) [
    | inl c ↦ let f : (t.entries j).valid ≡ false = rw (← c.0) free in ground arith
    | inr c ↦ rw c.1 h
  ]

  owners_old : (x : ℕ) → x < t.made → owners x ≡ owner x
  owners_old x less = ground arith

  pub kept : (j : ℕ) → (t.entries j).valid ≡ true → store t.entries i e j ≡ t.entries j
  kept j v = elim (store_cases t.entries i e j) [
    | inl c ↦
        let f : (t.entries j).valid ≡ false = rw (← c.0) free in absurd (false≢true (sym f ∙ v))
    | inr c ↦ c.1
  ]

  placed-Entered : Entered owners placed
  placed-Entered j v = elim (store_cases t.entries i e j) [
    | inl c ↦ let same : i ≡ j = c.0 in rw c.1 (omega arith, omega (arith, new), ground arith)
    | inr c ↦
        let v2 : (t.entries j).valid ≡ true = ap (λ k. k.valid) (sym c.1) ∙ v in
        let (low, less, own) = sound.entered j v2 in
        rw c.1 (low, omega arith, owners_old (t.entries j).semaphore less ∙ own)
  ]

  placed-Counted : Counted owners placed phase
  placed-Counted x p u = elim (dec_lt x t.made) [
    | yes less ↦
        let same = owners_old x less in
        let u2 : has_joined (phase (owner x)) ≡ false = rw (← same) u in
        let old = sound.counted x less u2 in
        let more =
          count_of_le max_threads (left_child t phase (owner x)) (left_child placed phase (owner x))
            (more-left_child (owner x)) in
        let v : store t.value t.made 0 x ≡ t.value x = ground arith in rw (same, v) (omega arith)
    | no ge ↦ let v : store t.value t.made 0 x ≡ 0 = ground arith in rw v (omega arith)
  ]

  pub placed-Sound : Sound owners placed phase
  placed-Sound = record {
    entered = placed-Entered;
    waits = λ q l p.
        let (x, has, less, own, counts, kids, call) = sound.waits q l p in
        (
          x,
          has,
          omega arith,
          owners_old x less ∙ own,
          counts,
          (λ j. others-is_child q j (running_other phase q self runs (ap has_left p)) ∙ kids j),
          call,
        );
    joined = λ q l p j m.
        let (child, gone) = sound.joined q l p j m in
        (more-is_child q j child, rw (kept j (ground arith)) gone);
    counted = placed-Counted;
  }
