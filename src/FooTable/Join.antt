-- ===== src/FooTable/Join.antt =====
-- Assignment_07/foothread.c: what holds of the threads and the table after any turns.
use os_lab_spr.Base.{ℕ, ◌≡◌, ◌⊎◌, inl, inr, refl, sym, ap, ◌∙◌, true, false, store, arith, some}
use os_lab_spr.FooTable.{
  Table, Call, calling, asleep, Exiting, Phase, running, waiting, clearing, ended, System, Step,
  creates, resets, leaves, sets, calls, passes, OwnCall, Undisturbed, clears, Reached, begins,
  goes_on, is_child, leave, exiting, pass, clear,
}
use mathlib.Core.Bool.{false≢true}
use os_lab_spr.FooTable.Loops.{store_cases}
use os_lab_spr.FooTable.Leaving.{leave-Sound, notify_lem, entry_of-some}
use os_lab_spr.FooTable.Passing.{pass_lem, clear_lem, passed-Sound, cleared-Sound, recall-Sound}
use os_lab_spr.FooTable.Creating.{entered, create-Inv}
use os_lab_spr.FooTable.Invariant.{
  has_left, is_running, OwnOperand, Sound, HasEntry, Empty, Before, After, Inv, start-Inv,
}

-- Who runs after one thread, which does not run any more, moved.
still_running :
    (phase : ℕ → Phase) (self : ℕ) (p : Phase)
    → is_running p ≡ false
    → (q : ℕ) → store phase self p q ≡ running
    → phase q ≡ running
still_running phase self p stopped q h = elim (store_cases phase self p q) [
  | inl c ↦ absurd (false≢true (sym stopped ∙ ap is_running (sym c.1 ∙ h)))
  | inr c ↦ sym c.1 ∙ h
]

-- A step that leaves the entries alone.
Main-values :
    (main : ℕ) (t : Table) (v : ℕ → ℕ) (phase now : ℕ → Phase)
    → ((q : ℕ) → now q ≡ running → phase q ≡ running)
    → Before main t phase ⊎ After t phase
    → Before main (record t { value = v }) now ⊎ After (record t { value = v }) now
Main-values main t v phase now more (inl (fresh, empty, only)) =
    inl (fresh, empty, (λ q r. only q (more q r)))
Main-values main t v phase now more (inr (going, valid, own, entries)) =
    inr (going, valid, own, (λ q r. entries q (more q r)))

leave-Inv :
    (main self : ℕ) (t : Table) (phase : ℕ → Phase)
    → t.init ≡ true
    → phase self ≡ running
    → Inv main t phase
    → Inv main (leave self t) (store phase self (waiting (exiting self t)))
leave-Inv main self t phase init runs (s, inl (fresh, empty, only)) =
    absurd (false≢true (sym fresh ∙ init))
leave-Inv main self t phase init runs ((owner, sound), inr (going, valid, own, entries)) =
    let (j, v, mine) = entries self runs in
    let (i, entry) = entry_of-some t self j (v, mine) (sound.entered j v).0 in
    let (w, does, values) = notify_lem t self i in
    let known : leave self t ≡ record t { value = w } = rw entry does in
    (
      (owner, leave-Sound owner t phase sound self runs (j, v, mine)),
      rw known (
          Main-values main t w phase (store phase self (waiting (exiting self t)))
            (still_running phase self (waiting (exiting self t)) refl)
            (inr (going, valid, own, entries))),
    )

pass-Inv :
    (main self : ℕ) (l : Exiting) (t u : Table) (phase : ℕ → Phase)
    → phase self ≡ waiting l
    → pass l t ≡ some u
    → Inv main t phase
    → Inv main u (store phase self (clearing l))
pass-Inv main self l t u phase w h ((owner, sound), rest) =
    let (x, has, less, own, counts, kids, call) = sound.waits self l w in
    let (enough, v, e, small) = pass_lem l t u x has call h in
    (
      (owner, passed-Sound owner t phase sound self l u w h),
      rw e (
          Main-values main t v phase (store phase self (clearing l))
            (still_running phase self (clearing l) refl) rest),
    )

-- An entry that is cleared is one of a child that has left.
clear_entry :
    (owner : ℕ → ℕ) (t : Table) (phase : ℕ → Phase)
    → Sound owner t phase
    → (self : ℕ) (l : Exiting) → phase self ≡ clearing l
    → (j : ℕ)
    → ((clear l t).entries j ≡ t.entries j)
      ⊎ ((is_child t self j ≡ true) × (has_left (phase (t.entries j).tid) ≡ true))
clear_entry owner t phase sound self l w j =
    let (es, e, wiped) = clear_lem l t in
    elim (wiped j) [
      | inl same ↦ inl (ap (λ u. u.entries j) e ∙ same)
      | inr c ↦ inr (sound.joined self l w j c.0)
    ]

clear-Empty : (l : Exiting) (t : Table) → Empty t → Empty (clear l t)
clear-Empty l t empty j =
    let (es, e, wiped) = clear_lem l t in
    ap (λ u. (u.entries j).valid) e
    ∙ elim (wiped j) [ inl same ↦ ap (λ k. k.valid) same ∙ empty j | inr c ↦ ap (λ k. k.valid) c.1 ]

clear_init : (l : Exiting) (t : Table) → (clear l t).init ≡ t.init
clear_init l t = let (es, e, wiped) = clear_lem l t in ap (λ u. u.init) e

clear-After :
    (owner : ℕ → ℕ) (t : Table) (phase : ℕ → Phase)
    → Sound owner t phase
    → (self : ℕ) (l : Exiting) → phase self ≡ clearing l
    → After t phase
    → After (clear l t) (store phase self ended)
clear-After owner t phase sound self l w (going, valid, own, entries) =
    let zero_stays : (clear l t).entries 0 ≡ t.entries 0 =
      elim (clear_entry owner t phase sound self l w 0) [
        | inl same ↦ same
        | inr c ↦ let child = c.0 in absurd (ground arith)
      ] in
    let has : (q : ℕ) → phase q ≡ running → HasEntry (clear l t) q = λ q r.
      let (j, v, mine) = entries q r in
      elim (clear_entry owner t phase sound self l w j) [
        | inl same ↦ (j, ap (λ k. k.valid) same ∙ v, ap (λ k. k.tid) same ∙ mine)
        | inr c ↦
            absurd (false≢true (sym (ap (λ x. has_left (phase x)) mine ∙ ap has_left r) ∙ c.1))
      ] in
    (
      clear_init l t ∙ going,
      ap (λ k. k.valid) zero_stays ∙ valid,
      ap (λ k. k.parent_tid) zero_stays ∙ own ∙ sym (ap (λ k. k.tid) zero_stays),
      (λ q r. has q (still_running phase self ended refl q r)),
    )

clear-Inv :
    (main self : ℕ) (l : Exiting) (t : Table) (phase : ℕ → Phase)
    → phase self ≡ clearing l
    → Inv main t phase
    → Inv main (clear l t) (store phase self ended)
clear-Inv main self l t phase w ((owner, sound), inl (fresh, empty, only)) = (
  (owner, cleared-Sound owner t phase sound self l w),
  inl (
    clear_init l t ∙ fresh,
    clear-Empty l t empty,
    (λ q r. only q (still_running phase self ended refl q r)),
  ),
)
clear-Inv main self l t phase w ((owner, sound), inr after) = (
  (owner, cleared-Sound owner t phase sound self l w),
  inr (clear-After owner t phase sound self l w after),
)

recall-Inv :
    (main self : ℕ) (l : Exiting) (c : Call) (t : Table) (phase : ℕ → Phase)
    → phase self ≡ waiting l
    → OwnOperand c l.count
    → Inv main t phase
    → Inv main t (store phase self (waiting (record l { call = c })))
recall-Inv main self l c t phase w own ((owner, sound), rest) = (
  (owner, recall-Sound owner t phase sound self l c w own),
  Main-values main t t.value phase (store phase self (waiting (record l { call = c })))
      (still_running phase self (waiting (record l { call = c })) refl) rest,
)

pub step-Inv :
    (main : ℕ) (s t : System) (step : Step s t)
    → OwnCall s t step
    → Inv main s.table s.phase
    → Inv main t.table t.phase
step-Inv main s t (creates self tid attr u runs new h) own inv =
    create-Inv main self tid attr s.table u s.phase runs new h inv
step-Inv main s t (resets self may) own inv = inv
step-Inv main s t (leaves self init runs) own inv =
    leave-Inv main self s.table s.phase init runs inv
step-Inv main s t (sets self l w c some_left) own inv =
    recall-Inv main self l calling s.table s.phase w tt inv
step-Inv main s t (calls self l w c) own inv =
    recall-Inv main self l (asleep s.pop) s.table s.phase w own inv
step-Inv main s t (passes self l u w h) own inv = pass-Inv main self l s.table u s.phase w h inv
step-Inv main s t (clears self l w) own inv = clear-Inv main self l s.table s.phase w inv

pub Reached-Inv :
    (main : ℕ) (s : System) (r : Reached main s) → Undisturbed main s r → Inv main s.table s.phase
Reached-Inv main s begins own = start-Inv main
Reached-Inv main t (goes_on s r step) own =
    step-Inv main s t step own.1 (Reached-Inv main s r own.0)
