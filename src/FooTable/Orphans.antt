-- ===== src/FooTable/Orphans.antt =====
-- Assignment_07/foothread.c: a thread whose parent has cleared its entry while it waits for its own children.
use os_lab_spr.Base.{
  ℕ, ◌<◌, ◌≡◌, ◌⊎◌, inl, inr, ◌≢◌, Bool, refl, sym, ap, ◌∙◌, true, false, store, arith, Option,
  none, some,
}
use os_lab_spr.FooTable.{
  Entry, Attr, Table, Call, setting, calling, asleep, Exiting, Phase, absent, running, waiting,
  clearing, ended, System, Step, creates, resets, leaves, sets, calls, passes, clears, OwnCall,
  Undisturbed, UndisturbedTurns, Reached, Turns, stays, turn, exiting, foothread_create, ready,
  new_semaphore, enter, enter_first,
}
use mathlib.Core.Bool.{false≢true}
use mathlib.Core.Path.{subst}
use os_lab_spr.FooTable.Loops.{store_cases}
use os_lab_spr.FooTable.Leaving.{leave_lem, exiting_of}
use os_lab_spr.FooTable.Passing.{pass_lem, clear_lem}
use os_lab_spr.FooTable.Creating.{create_first, create_later, blank, entered}
use os_lab_spr.FooTable.Invariant.{has_left, has_joined, OwnOperand, Before, After, Inv}
use os_lab_spr.FooTable.Join.{step-Inv, Reached-Inv}

abbrev get : ℕ → Option ℕ → ℕ
get y none = y
get y (some z) = z

abbrev pub Unlisted : Table → ℕ → Type 0
Unlisted t q = (i : ℕ) → (t.entries i).valid ≡ true → (t.entries i).tid ≢ q

-- A thread whose P is called for more than its semaphore has, and which stands in no entry.
abbrev pub Orphan : Table → (ℕ → Phase) → ℕ → Exiting → ℕ → Type 0
Orphan t phase q l x =
    (phase q ≡ waiting l)
    × (l.semaphore ≡ some x)
    × (x < t.made)
    × ((n : ℕ) × (l.call ≡ asleep n) × (t.value x < n))
    × Unlisted t q

placed-Orphan :
    (t : Table) (phase : ℕ → Phase) (q : ℕ) (l : Exiting) (x i : ℕ) (e : Entry)
    → e.tid ≢ q
    → Orphan t phase q l x
    → Orphan (record (new_semaphore t) { entries = store t.entries i e }) phase q l x
placed-Orphan t phase q l x i e other (w, has, less, short, unlisted) = (
  w,
  has,
  omega arith,
  (short.0, short.1, ground (arith, short.2)),
  (λ j v. elim (store_cases t.entries i e j) [
    | inl c ↦ rw c.1 other
    | inr c ↦ rw c.1 (unlisted j (ap (λ k. k.valid) (sym c.1) ∙ v))
  ]),
)

-- A thread that runs or is yet to start is another one.
elsewhere :
    (phase : ℕ → Phase) (q self : ℕ) (l : Exiting) (p : Phase)
    → phase q ≡ waiting l
    → phase self ≡ p
    → has_left p ≡ false
    → self ≢ q
elsewhere phase q self l p w h off = λ same.
    false≢true (sym off ∙ ap has_left (sym h) ∙ ap (λ y. has_left (phase y)) same ∙ ap has_left w)

other_phase :
    (phase : ℕ → Phase) (q self : ℕ) (p : Phase) → self ≢ q → store phase self p q ≡ phase q
other_phase phase q self p ne = elim (store_cases phase self p q) [
  | inl c ↦ absurd (ne c.0)
  | inr c ↦ c.1
]

create-Orphan :
    (main self tid : ℕ) (attr : Option Attr) (t u : Table) (phase : ℕ → Phase) (q x : ℕ)
    (l : Exiting)
    → phase self ≡ running
    → phase tid ≡ absent
    → foothread_create self tid attr t ≡ some u
    → Before main t phase ⊎ After t phase
    → Orphan t phase q l x
    → Orphan u (store phase tid running) q l x
create-Orphan main self tid attr t u phase q x l runs new h rest o =
    let (w, has, less, short, unlisted) = o in
    let not_self = elsewhere phase q self l running w runs refl in
    let not_tid = elsewhere phase q tid l absent w new refl in
    let placed : Orphan u phase q l x = elim rest [
      | inl before ↦
          let same : ready t ≡ blank t = rw before.0 refl in
          let e =
            create_first self tid attr t u before.0 h
            ∙ ap (λ r. enter 1 self tid attr (enter_first 0 self r)) same in
          let o0 : Orphan (blank t) phase q l x =
            (w, has, less, short, (λ i v. absurd (false≢true v))) in
          let o1 =
            placed-Orphan (blank t) phase q l x 0 ((enter_first 0 self (blank t)).entries 0)
              not_self o0 in
          rw e (
            placed-Orphan (enter_first 0 self (blank t)) phase q l x 1
              (entered self tid attr (enter_first 0 self (blank t))) not_tid o1)
      | inr after ↦
          let (i, low, free, e) = create_later self tid attr t u after.0 after.1 h in
          rw e (placed-Orphan t phase q l x i (entered self tid attr t) not_tid o)
    ] in
    (other_phase phase q tid running not_tid ∙ w, placed.1, placed.2, placed.3, placed.4)

abbrev is_asleep : Call → Bool
is_asleep (asleep n) = true
is_asleep _ = false

not_asleep : (c : Call) (n : ℕ) → is_asleep c ≡ false → c ≡ asleep n → ⊥
not_asleep c n off e = false≢true (sym off ∙ ap is_asleep e)

step-Orphan :
    (main : ℕ) (s t : System) (q x : ℕ) (l : Exiting)
    → Inv main s.table s.phase
    → (step : Step s t) → OwnCall s t step
    → Orphan s.table s.phase q l x
    → Orphan t.table t.phase q l x
step-Orphan main s t q x l inv (creates self tid attr u runs new h) mine o =
    create-Orphan main self tid attr s.table u s.phase q x l runs new h inv.1 o
step-Orphan main s t q x l inv (resets self may) mine o = o
step-Orphan main s t q x l inv (sets self k p c some_left) mine (w, has, less, short, unlisted) =
    let not_self : self ≢ q = λ same.
      let kl : k ≡ l = ap (exiting_of k) (sym p ∙ ap s.phase same ∙ w) in
      not_asleep setting short.0 refl (sym c ∙ ap (λ z. z.call) kl ∙ short.1) in
    (
      other_phase s.phase q self (waiting (record k { call = calling })) not_self ∙ w,
      has,
      less,
      short,
      unlisted,
    )
step-Orphan main s t q x l inv (calls self k p c) mine (w, has, less, short, unlisted) =
    let not_self : self ≢ q = λ same.
      let kl : k ≡ l = ap (exiting_of k) (sym p ∙ ap s.phase same ∙ w) in
      not_asleep calling short.0 refl (sym c ∙ ap (λ z. z.call) kl ∙ short.1) in
    (
      other_phase s.phase q self (waiting (record k { call = asleep s.pop })) not_self ∙ w,
      has,
      less,
      short,
      unlisted,
    )
step-Orphan main s t q x l inv (leaves self init runs) mine (w, has, less, short, unlisted) =
    let (v, does, values) = leave_lem s.table self in
    let ((owner, sound), rest) = inv in
    let (y, has_y, less_y, own, counts, kids, call) = sound.waits q l w in
    let same_y : y ≡ x = ap (get y) (sym has_y ∙ has) in
    let value : v x ≡ s.table.value x = elim (values x) [
      | inl same ↦ same
      | inr c ↦
          absurd
            (unlisted c.0 c.1 (sym (sound.entered c.0 c.1).2 ∙ ap owner (c.2 ∙ sym same_y) ∙ own))
    ] in
    let moved =
      other_phase s.phase q self (waiting (exiting self s.table))
        (elsewhere s.phase q self l running w runs refl) in
    (moved ∙ w, has, rw does less, rw does (short.0, short.1, rw value short.2), rw does unlisted)
step-Orphan main s t q x l inv (passes self k u p h) mine (w, has, less, short, unlisted) =
    let ((owner, sound), rest) = inv in
    let (y, has_y, less_y, own, counts, kids, call) = sound.waits self k p in
    let (enough, v, e, small) = pass_lem k s.table u y has_y call h in
    let not_self : self ≢ q = λ same.
      let kl : k ≡ l = ap (exiting_of k) (sym p ∙ ap s.phase same ∙ w) in
      let at : s.table.value y ≡ s.table.value x =
        ap s.table.value (ap (get y) (sym has_y ∙ ap (λ z. z.semaphore) kl ∙ has)) in
      let as_many : k.count ≡ short.0 =
        sym (subst (λ z. OwnOperand z k.count) (ap (λ z. z.call) kl ∙ short.1) call) in
      absurd (omega (arith, enough, short.2)) in
    (
      other_phase s.phase q self (clearing k) not_self ∙ w,
      has,
      rw e less,
      rw e (short.0, short.1, omega (arith, small x, short.2)),
      rw e unlisted,
    )
step-Orphan main s t q x l inv (clears self k p) mine (w, has, less, short, unlisted) =
    let (es, e, wiped) = clear_lem k s.table in
    let not_self : self ≢ q = λ same.
      false≢true
        (sym (ap has_joined w) ∙ ap (λ y. has_joined (s.phase y)) (sym same) ∙ ap has_joined p) in
    (
      other_phase s.phase q self ended not_self ∙ w,
      has,
      rw e less,
      rw e short,
      rw e (λ i v. elim (wiped i) [
        | inl same ↦ rw same (unlisted i (ap (λ y. y.valid) (sym same) ∙ v))
        | inr c ↦ absurd (false≢true (ap (λ y. y.valid) (sym c.1) ∙ v))
      ]),
    )

Turns-Orphan :
    (main : ℕ) (s t : System) (q x : ℕ) (l : Exiting)
    → Inv main s.table s.phase
    → Orphan s.table s.phase q l x
    → (turns : Turns s t) → UndisturbedTurns s t turns
    → Inv main t.table t.phase × Orphan t.table t.phase q l x
Turns-Orphan main s t q x l inv o stays own = (inv, o)
Turns-Orphan main s t q x l inv o (turn m turns step) (own, mine) =
    let (inv1, o1) = Turns-Orphan main s m q x l inv o turns own in
    (step-Inv main m t step mine inv1, step-Orphan main m t q x l inv1 step mine o1)

-- Whatever turns led there, and while each P of an exit is called with the number that the thread has set in
-- the shared `pop` itself, a thread that is in its P for more than its semaphore holds, and that no valid
-- entry names any more, is still there after any further turns.
pub Orphan-waits :
    (main : ℕ) (s t : System) (q x : ℕ) (l : Exiting)
    → (r : Reached main s) → Undisturbed main s r
    → Orphan s.table s.phase q l x
    → (turns : Turns s t) → UndisturbedTurns s t turns
    → t.phase q ≡ waiting l
Orphan-waits main s t q x l r own_calls o turns own =
    (Turns-Orphan main s t q x l (Reached-Inv main s r own_calls) o turns own).1.0
