-- ===== src/FooTable/Leaving.antt =====
-- Assignment_07/foothread.c: the first part of `foothread_exit` under the mutex.
use os_lab_spr.Base.{
  ℕ, ◌+◌, ◌<◌, ◌≡◌, ◌⊎◌, inl, inr, ◌≢◌, refl, sym, ap, ◌∙◌, Bool, true, false, not, ◌&&◌, ◌==◌,
  store, arith, Bool-cases, Option-cases, some, store_self,
}
use os_lab_spr.FooTable.{
  Table, Exiting, Phase, absent, running, waiting, clearing, ended, max_threads, is_child,
  is_entry_of, entry_of, found, first, semaphore_at, notify, leave, exiting, joinable,
}
use mathlib.Core.Bool.{false≢true}
use os_lab_spr.FooTable.Loops.{count_of_le, count_of_lt, store_cases, first_lem, first_stops}
use os_lab_spr.FooTable.Invariant.{
  has_left, has_joined, left_child, Waits, Counted, Sound, HasEntry,
}

abbrev pub exiting_of : Exiting → Phase → Exiting
exiting_of l absent = l
exiting_of l running = l
exiting_of l (waiting k) = k
exiting_of l (clearing k) = k
exiting_of l ended = l

pub and_parts : (a b : Bool) → (a && b) ≡ true → (a ≡ true) × (b ≡ true)
and_parts a b h = ground arith

pub and_both : (a b : Bool) → a ≡ true → b ≡ true → (a && b) ≡ true
and_both a b h k = ground arith

pub and_off : (a b : Bool) → b ≡ false → (a && b) ≡ false
and_off a b h = ground arith

abbrev pub IsEntry : Table → ℕ → ℕ → Type 0
IsEntry t q i = ((t.entries i).valid ≡ true) × ((t.entries i).tid ≡ q)

found-some : (k i : ℕ) → found k ≡ some i → (k ≢ max_threads) × (k ≡ i)
found-some k i h = ground arith

-- The search for an entry finds one, and where there is one it finds some.
pub entry_of_lem : (t : Table) (q i : ℕ) → entry_of t q ≡ some i → IsEntry t q i × (i < max_threads)
entry_of_lem t q i h =
    let k : ℕ = first (is_entry_of t q) max_threads 0 in
    let (low, high, stop) = first_lem (is_entry_of t q) max_threads 0 in
    let (inside, same) = found-some k i h in
    elim stop [
      | inl p ↦ absurd (inside p)
      | inr p ↦
          let at : is_entry_of t q i ≡ true = rw (← same) p in
          ((ground arith, ground arith), omega arith)
    ]

pub entry_of-some :
    (t : Table) (q j : ℕ) → IsEntry t q j → j < max_threads → (i : ℕ) × (entry_of t q ≡ some i)
entry_of-some t q j at low =
    let stop =
      first_stops (is_entry_of t q) max_threads 0 j (omega arith) (omega arith) (ground arith) in
    (first (is_entry_of t q) max_threads 0, ground arith)

-- V on the semaphore of the parent, if it has an entry and the thread is joinable, and no other change.
abbrev pub Notified : Table → ℕ → ℕ → ℕ → Type 0
Notified t self i x =
    ((t.entries i).join_type ≡ joinable)
    × ((t.entries i).parent_tid ≢ self)
    × (k : ℕ) × IsEntry t (t.entries i).parent_tid k
    × ((t.entries k).semaphore ≡ x)

pub notify_lem :
    (t : Table) (self i : ℕ)
    → (v : ℕ → ℕ) × (notify self (some i) t ≡ record t { value = v })
      × ((x : ℕ) → (v x ≡ t.value x) ⊎ ((v x ≡ t.value x + 1) × Notified t self i x))
notify_lem t self i =
    elim (Bool-cases
      ((t.entries i).join_type == joinable && not ((t.entries i).parent_tid == self))) [
        | inr e ↦ (t.value, rw e refl, (λ x. inl refl))
        | inl e ↦ elim (Option-cases (entry_of t (t.entries i).parent_tid)) [
          | inl nobody ↦ (t.value, rw (e, nobody) refl, (λ x. inl refl))
          | inr c ↦
              let x : ℕ = (t.entries c.0).semaphore in
              (
                store t.value x (t.value x + 1),
                rw (e, c.1) refl,
                (λ y. elim (store_cases t.value x (t.value x + 1) y) [
                  | inl d ↦ inr (
                    d.1 ∙ ap (λ z. t.value z + 1) d.0,
                    (
                      ground arith,
                      ground arith,
                      c.0,
                      (entry_of_lem t (t.entries i).parent_tid c.0 c.1).0,
                      d.0,
                    ),
                  )
                  | inr d ↦ inl d.1
                ]),
              )
        ]
      ]

-- The thread that leaves.
module _ (owner : ℕ → ℕ) (t : Table) (phase : ℕ → Phase) (sound : Sound owner t phase) (self i : ℕ)
    (runs : phase self ≡ running) (entry : entry_of t self ≡ some i) (v : ℕ → ℕ)
    (values : (x : ℕ) → (v x ≡ t.value x) ⊎ ((v x ≡ t.value x + 1) × Notified t self i x)) where
  abbrev now : ℕ → Phase
  now = store phase self (waiting (exiting self t))

  abbrev told : Table
  told = record t { value = v }

  more_left : (q : ℕ) → has_left (phase q) ≡ true → has_left (now q) ≡ true
  more_left q h = elim (store_cases phase self (waiting (exiting self t)) q) [
    | inl c ↦ rw c.1 refl
    | inr c ↦ rw c.1 h
  ]

  as_joined : (q : ℕ) → has_joined (now q) ≡ false → has_joined (phase q) ≡ false
  as_joined q h = elim (store_cases phase self (waiting (exiting self t)) q) [
    | inl c ↦ ap (λ x. has_joined (phase x)) (sym c.0) ∙ ap has_joined runs
    | inr c ↦ ap has_joined (sym c.1) ∙ h
  ]

  told-Counted : Counted owner told now
  told-Counted x p u =
      let old = sound.counted x p (as_joined (owner x) u) in
      let grows : (j : ℕ)
          → left_child t phase (owner x) j ≡ true
          → left_child told now (owner x) j ≡ true =
        λ j h.
          let (child, gone) =
            and_parts (is_child t (owner x) j) (has_left (phase (t.entries j).tid)) h in
          and_both (is_child t (owner x) j) (has_left (now (t.entries j).tid)) child
            (more_left (t.entries j).tid gone) in
      elim (values x) [
        | inl same ↦
            let more =
              count_of_le max_threads (left_child t phase (owner x)) (left_child told now (owner x))
                grows in
            rw same (omega arith)
        | inr c ↦
            let (one, (join, ne, k, at, its)) = c in
            let same : owner x ≡ (t.entries i).parent_tid =
              ap owner (sym its) ∙ (sound.entered k at.0).2 ∙ at.1 in
            let ((valid, mine), low) = entry_of_lem t self i entry in
            let off =
              and_off (is_child t (owner x) i) (has_left (phase (t.entries i).tid))
                (ap (λ q. has_left (phase q)) mine ∙ ap has_left runs) in
            let child : is_child t (owner x) i ≡ true = ground arith in
            let on = and_both (is_child t (owner x) i) (has_left (now (t.entries i).tid)) child (
              ap (λ q. has_left (now q)) mine
              ∙ ap has_left (store_self phase self (waiting (exiting self t)))) in
            let more =
              count_of_lt max_threads (left_child t phase (owner x)) (left_child told now (owner x))
                i grows low off on in
            omega arith
      ]

  told-Waits : Waits owner told self (exiting self t)
  told-Waits =
      let ((valid, mine), low) = entry_of_lem t self i entry in
      let (inside, less, own) = sound.entered i valid in
      ((t.entries i).semaphore, ap (semaphore_at t) entry, less, own ∙ mine, refl, (λ j. refl), tt)

  told-Sound : Sound owner told now
  told-Sound = record {
    entered = sound.entered;
    waits = λ q l p. elim (store_cases phase self (waiting (exiting self t)) q) [
      | inl c ↦
          let e : exiting self t ≡ l = ap (exiting_of l) (sym c.1 ∙ p) in
          rw (← e) (rw (← c.0) told-Waits)
      | inr c ↦ sound.waits q l (sym c.1 ∙ p)
    ];
    joined = λ q l p j m. elim (store_cases phase self (waiting (exiting self t)) q) [
      | inl c ↦ absurd (false≢true (ap has_joined (sym c.1 ∙ p)))
      | inr c ↦
          let (child, gone) = sound.joined q l (sym c.1 ∙ p) j m in
          (child, more_left (t.entries j).tid gone)
    ];
    counted = told-Counted;
  }

pub leave-Sound :
    (owner : ℕ → ℕ) (t : Table) (phase : ℕ → Phase)
    → Sound owner t phase
    → (self : ℕ) → phase self ≡ running
    → HasEntry t self
    → Sound owner (leave self t) (store phase self (waiting (exiting self t)))
leave-Sound owner t phase sound self runs (j, valid, mine) =
    let (i, entry) = entry_of-some t self j (valid, mine) (sound.entered j valid).0 in
    let (v, does, values) = notify_lem t self i in
    let known : leave self t ≡ record t { value = v } = rw entry does in
    rw known (told-Sound owner t phase sound self i runs entry v values)

-- Leaving changes the value of a semaphore in the table at most.
pub leave_lem :
    (t : Table) (self : ℕ)
    → (v : ℕ → ℕ) × (leave self t ≡ record t { value = v })
      × ((x : ℕ)
          → (v x ≡ t.value x)
            ⊎ ((k : ℕ) × ((t.entries k).valid ≡ true) × ((t.entries k).semaphore ≡ x)))
leave_lem t self = elim (Option-cases (entry_of t self)) [
  | inl nobody ↦ (t.value, rw nobody refl, (λ x. inl refl))
  | inr c ↦
      let (i, entry) = c in
      let (v, does, values) = notify_lem t self i in
      (
        v,
        rw entry does,
        (λ x. elim (values x) [
          | inl same ↦ inl same
          | inr d ↦ let (more, (one, ne, k, at, its)) = d in inr (k, at.0, its)
        ]),
      )
]
