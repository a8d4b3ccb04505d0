-- ===== src/FooTable/Creating.antt =====
-- Assignment_07/foothread.c: `foothread_create`.
use os_lab_spr.Base.{
  ℕ, ◌<◌, ◌≡◌, inl, inr, refl, sym, ap, ◌∙◌, true, false, ◌==◌, store, arith, Bool-cases, Option,
  none, some, store_self,
}
use os_lab_spr.FooTable.{
  Entry, Attr, Table, Phase, absent, running, first, max_threads, is_child, is_free, ready, enter,
  enter_first, foothread_create, join_type_of, stack_size_of,
}
use mathlib.Core.Bool.{false≢true}
use os_lab_spr.FooTable.Loops.{first_lem, first_stops, count_of_le, store_cases}
use os_lab_spr.FooTable.Leaving.{and_parts}
use os_lab_spr.FooTable.Passing.{or_else, spawned-Sound}
use os_lab_spr.FooTable.Invariant.{
  has_left, left_child, Sound, HasEntry, Empty, Inv, placed-Sound, kept,
}

-- The first creation takes the entries 0 and 1.
pub create_first :
    (self tid : ℕ) (attr : Option Attr) (t u : Table)
    → t.init ≡ false
    → foothread_create self tid attr t ≡ some u
    → u ≡ enter 1 self tid attr (enter_first 0 self (ready t))
unfolding foothread_create
create_first self tid attr t u fresh h =
    let free : is_free (ready t) 0 ≡ true = rw fresh refl in
    let at = first_stops (is_free (ready t)) max_threads 0 0 (omega arith) (omega arith) free in
    let zero_at : first (is_free (ready t)) max_threads 0 ≡ 0 = omega arith in
    let here : foothread_create self tid attr t
        ≡ some (enter 1 self tid attr (enter_first 0 self (ready t))) =
      rw zero_at refl in
    ap (or_else u) (sym h ∙ here)

-- A later one takes an entry that is free, and not the first.
pub create_later :
    (self tid : ℕ) (attr : Option Attr) (t u : Table)
    → t.init ≡ true
    → (t.entries 0).valid ≡ true
    → foothread_create self tid attr t ≡ some u
    → (i : ℕ) × (i < max_threads) × ((t.entries i).valid ≡ false) × (u ≡ enter i self tid attr t)
unfolding foothread_create
create_later self tid attr t u going first_valid h =
    let same : ready t ≡ t = rw going refl in
    let i : ℕ = first (is_free t) max_threads 0 in
    let (low, high, stop) = first_lem (is_free t) max_threads 0 in
    elim (Bool-cases (i == max_threads)) [
      | inl e ↦
          let here : foothread_create self tid attr t ≡ none = rw (same, e) refl in
          let never : none ≡ some u = sym here ∙ h in absurd (ground (arith, never))
      | inr e ↦
          let free : is_free t i ≡ true = elim stop [
            | inl end ↦ absurd (ground arith)
            | inr at ↦ at
          ] in
          let off : (i == 0) ≡ false = elim (Bool-cases (i == 0)) [
            | inl z ↦
                let zero_at : i ≡ 0 = ground arith in
                let there : is_free t 0 ≡ true = rw (← zero_at) free in absurd (ground arith)
            | inr z ↦ z
          ] in
          let here : foothread_create self tid attr t ≡ some (enter i self tid attr t) =
            rw (same, e, off) refl in
          (i, ground arith, ground arith, ap (or_else u) (sym h ∙ here))
    ]

-- The table after the loop of the first creation.
abbrev pub blank : Table → Table
blank t = record t { entries = λ i. record (t.entries i) { valid = false }; init = true }

Empty-is_child : (t : Table) → Empty t → (q j : ℕ) → is_child t q j ≡ false
Empty-is_child t empty q j = rw (empty j) refl

blank-Sound :
    (owner : ℕ → ℕ) (t : Table) (phase : ℕ → Phase)
    → Sound owner t phase
    → Empty t
    → Sound owner (blank t) phase
blank-Sound owner t phase sound empty = record {
  entered = λ i v. absurd (false≢true v);
  waits = λ q l p.
      let (x, has, less, own, counts, kids, call) = sound.waits q l p in
      (x, has, less, own, counts, (λ i. sym (Empty-is_child t empty q i) ∙ kids i), call);
  joined = λ q l p i m.
      absurd (false≢true (sym (Empty-is_child t empty q i) ∙ (sound.joined q l p i m).0));
  counted = λ x p u.
      let old = sound.counted x p u in
      let more =
        count_of_le max_threads (left_child t phase (owner x))
          (left_child (blank t) phase (owner x))
          (λ j h. absurd (
            false≢true (
              sym (Empty-is_child t empty (owner x) j)
              ∙ (and_parts (is_child t (owner x) j) (has_left (phase (t.entries j).tid)) h).0))) in
      omega arith;
}

-- A thread that starts and the one that created it have entries, and so has every other that runs.
spawned_running :
    (t : Table) (phase : ℕ → Phase) (tid : ℕ)
    → HasEntry t tid
    → ((q : ℕ) → phase q ≡ running → HasEntry t q)
    → (q : ℕ) → store phase tid running q ≡ running
    → HasEntry t q
spawned_running t phase tid new old q h = elim (store_cases phase tid running q) [
  | inl c ↦ rw (← c.0) new
  | inr c ↦ old q (sym c.1 ∙ h)
]

abbrev pub entered : ℕ → ℕ → Option Attr → Table → Entry
entered self tid attr t = record {
  tid = tid;
  parent_tid = self;
  join_type = join_type_of attr;
  stack_size = stack_size_of attr;
  valid = true;
  semaphore = t.made;
}

pub create-Inv :
    (main self tid : ℕ) (attr : Option Attr) (t u : Table) (phase : ℕ → Phase)
    → phase self ≡ running
    → phase tid ≡ absent
    → foothread_create self tid attr t ≡ some u
    → Inv main t phase
    → Inv main u (store phase tid running)
create-Inv main self tid attr t u phase runs new h ((owner, sound), inl (fresh, empty, only)) =
    let same : ready t ≡ blank t = rw fresh refl in
    let e = create_first self tid attr t u fresh h in
    let t1 : Table = enter_first 0 self (blank t) in
    let e1 : u ≡ enter 1 self tid attr t1 =
      e ∙ ap (λ r. enter 1 self tid attr (enter_first 0 self r)) same in
    let s0 = blank-Sound owner t phase sound empty in
    let s1 =
      placed-Sound owner (blank t) phase s0 0 self (t1.entries 0) refl (omega arith) runs refl refl
        refl in
    let s2 =
      placed-Sound (store owner t.made self) t1 phase s1 1 self
        ((enter 1 self tid attr t1).entries 1) refl (omega arith) runs refl refl refl in
    rw e1 (
      (_, spawned-Sound _ _ phase s2 tid new),
      inr (
        refl,
        refl,
        refl,
        spawned_running (enter 1 self tid attr t1) phase tid (1, refl, refl)
            (λ q r. (0, refl, only self runs ∙ sym (only q r))),
      ),
    )
create-Inv main self tid attr t u phase runs new h
      ((owner, sound), inr (going, valid, own, entries)) =
    let (i, low, free, e) = create_later self tid attr t u going valid h in
    let it : Entry = entered self tid attr t in
    let s1 = placed-Sound owner t phase sound i self it free low runs refl refl refl in
    let keep : (j : ℕ) → (t.entries j).valid ≡ true → store t.entries i it j ≡ t.entries j =
      kept owner t phase sound i self it free low runs refl refl refl in
    let at : store t.entries i it i ≡ it = store_self t.entries i it in
    let has : HasEntry (enter i self tid attr t) tid =
      (i, ap (λ k. k.valid) at, ap (λ k. k.tid) at) in
    let olds : (q : ℕ) → phase q ≡ running → HasEntry (enter i self tid attr t) q = λ q r.
      let (j, v, mine) = entries q r in
      (j, ap (λ k. k.valid) (keep j v) ∙ v, ap (λ k. k.tid) (keep j v) ∙ mine) in
    let zero_keeps = keep 0 valid in
    rw e (
      (_, spawned-Sound _ _ phase s1 tid new),
      inr (
        going,
        ap (λ k. k.valid) zero_keeps ∙ valid,
        ap (λ k. k.parent_tid) zero_keeps ∙ own ∙ sym (ap (λ k. k.tid) zero_keeps),
        spawned_running (enter i self tid attr t) phase tid has olds,
      ),
    )
