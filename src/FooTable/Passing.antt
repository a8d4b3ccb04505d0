-- ===== src/FooTable/Passing.antt =====
-- Assignment_07/foothread.c: the other steps of a thread.
use os_lab_spr.Base.{
  ℕ, ◌-◌, ◌≤◌, ◌≡◌, ◌⊎◌, inl, inr, ◌≢◌, refl, sym, ap, ◌∙◌, Bool, true, false, ◌==◌, leb, store,
  arith, Bool-cases, Option-cases, Option, none, some,
}
use os_lab_spr.FooTable.{
  Entry, Table, Call, setting, calling, asleep, Exiting, Phase, absent, running, waiting, clearing,
  ended, max_threads, is_child, pass, pass_on, clear, clear_children,
}
use mathlib.Core.Bool.{false≢true}
use mathlib.Core.Path.{subst}
use os_lab_spr.FooTable.Loops.{count_of_le, count_of_full, store_cases}
use os_lab_spr.FooTable.Leaving.{exiting_of, and_parts, and_both}
use os_lab_spr.FooTable.Invariant.{
  has_left, has_joined, left_child, left, Entered, OwnOperand, Waits, Joined, Counted, Sound,
}

abbrev is_waiting : Phase → Bool
is_waiting (waiting l) = true
is_waiting _ = false

abbrev is_clearing : Phase → Bool
is_clearing (clearing l) = true
is_clearing _ = false

-- A flag of the threads after one of them moved.
at_store :
    (f : Phase → Bool) (phase : ℕ → Phase) (self : ℕ) (p : Phase)
    → f p ≡ f (phase self)
    → (q : ℕ) → f (store phase self p q) ≡ f (phase q)
at_store f phase self p same q = elim (store_cases phase self p q) [
  | inl c ↦ ap f c.1 ∙ same ∙ ap (λ x. f (phase x)) c.0
  | inr c ↦ ap f c.1
]

-- The children that have left still have after one thread moved on.
left_child-store :
    (t : Table) (phase : ℕ → Phase) (self : ℕ) (p : Phase)
    → has_left p ≡ has_left (phase self)
    → (q j : ℕ) → left_child t phase q j ≡ true
    → left_child t (store phase self p) q j ≡ true
left_child-store t phase self p same q j h =
    let (child, gone) = and_parts (is_child t q j) (has_left (phase (t.entries j).tid)) h in
    and_both (is_child t q j) (has_left (store phase self p (t.entries j).tid)) child
      (at_store has_left phase self p same (t.entries j).tid ∙ gone)

abbrev pub or_else : Table → Option Table → Table
or_else t none = t
or_else t (some u) = u

-- A P of the thread's own count.
pass_on_lem :
    (c : Call) (n x : ℕ) (t u : Table)
    → OwnOperand c n
    → pass_on c (some x) t ≡ some u
    → (n ≤ t.value x) × (v : ℕ → ℕ) × (u ≡ record t { value = v }) × ((y : ℕ) → v y ≤ t.value y)
pass_on_lem setting n x t u own h = let never : none ≡ some u = h in absurd (ground (arith, never))
pass_on_lem calling n x t u own h = let never : none ≡ some u = h in absurd (ground (arith, never))
pass_on_lem (asleep m) n x t u own h = elim (Bool-cases (leb m (t.value x))) [
  | inl enough ↦
      let v : ℕ → ℕ = store t.value x (t.value x - m) in
      let here : pass_on (asleep m) (some x) t ≡ some (record t { value = v }) = rw enough refl in
      (ground (arith, own), v, ap (or_else u) (sym h ∙ here), (λ y. ground arith))
  | inr short ↦
      let here : pass_on (asleep m) (some x) t ≡ none = rw short refl in
      let never : none ≡ some u = sym here ∙ h in absurd (ground (arith, never))
]

pub pass_lem :
    (l : Exiting) (t u : Table) (x : ℕ)
    → l.semaphore ≡ some x
    → OwnOperand l.call l.count
    → pass l t ≡ some u
    → (l.count ≤ t.value x)
      × (v : ℕ → ℕ) × (u ≡ record t { value = v })
      × ((y : ℕ) → v y ≤ t.value y)
unfolding pass
pass_lem l t u x has own h = elim (Bool-cases (l.count == 0)) [
  | inl nobody ↦
      let here : pass l t ≡ some t = rw nobody refl in
      (ground arith, t.value, ap (or_else u) (sym h ∙ here), (λ y. omega arith))
  | inr some_left ↦
      let here : pass l t ≡ pass_on l.call (some x) t = rw (some_left, has) refl in
      pass_on_lem l.call l.count x t u own (sym here ∙ h)
]

pub clear_lem :
    (l : Exiting) (t : Table)
    → (es : ℕ → Entry) × (clear l t ≡ record t { entries = es })
      × ((j : ℕ)
          → (es j ≡ t.entries j)
            ⊎ ((l.mychild j ≡ true) × (es j ≡ record (t.entries j) { valid = false })))
clear_lem l t = elim (Option-cases l.index) [
  | inl e ↦ (t.entries, rw e refl, (λ j. inl refl))
  | inr e ↦ (
    (clear_children l.mychild t).entries,
    rw e.1 refl,
    (λ j. elim (Bool-cases (l.mychild j)) [ inl m ↦ inr (m, rw m refl) | inr m ↦ inl (rw m refl) ]),
  )
]

module _ (owner : ℕ → ℕ) (t : Table) (phase : ℕ → Phase) (sound : Sound owner t phase) where
  -- A thread that starts.
  pub spawned-Sound : (tid : ℕ) → phase tid ≡ absent → Sound owner t (store phase tid running)
  spawned-Sound tid new = record {
    entered = sound.entered;
    waits = λ q l p. elim (store_cases phase tid running q) [
      | inl c ↦ absurd (false≢true (ap has_left (sym c.1 ∙ p)))
      | inr c ↦ sound.waits q l (sym c.1 ∙ p)
    ];
    joined = λ q l p j m. elim (store_cases phase tid running q) [
      | inl c ↦ absurd (false≢true (ap has_left (sym c.1 ∙ p)))
      | inr c ↦
          let (child, gone) = sound.joined q l (sym c.1 ∙ p) j m in
          (
            child,
            at_store has_left phase tid running (ap has_left (sym new)) (t.entries j).tid ∙ gone,
          )
    ];
    counted = λ x p u.
        let old =
          sound.counted x p
            (sym (at_store has_joined phase tid running (ap has_joined (sym new)) (owner x)) ∙ u) in
        let more =
          count_of_le max_threads (left_child t phase (owner x))
            (left_child t (store phase tid running) (owner x))
            (left_child-store t phase tid running (ap has_left (sym new)) (owner x)) in
        omega arith;
  }

  -- A thread that passes the P on its own semaphore has seen all its joinable children leave.
  pub pass-Joined :
      (self : ℕ) (l : Exiting) (u : Table)
      → phase self ≡ waiting l
      → pass l t ≡ some u
      → Joined t phase self l
  pass-Joined self l u w h i m =
      let (x, has, less, own, counts, kids, call) = sound.waits self l w in
      let (enough, v, e, small) = pass_lem l t u x has call h in
      let open_still : has_joined (phase (owner x)) ≡ false = rw own (rw w refl) in
      let value : t.value x ≤ left t phase self = rw own at (sound.counted x less open_still) in
      let same = count_of_le max_threads (is_child t self) l.mychild (λ j c. sym (kids j) ∙ c) in
      let child = kids i ∙ m in
      let inside = (sound.entered i (ground arith)).0 in
      let full =
        count_of_full max_threads (left_child t phase self) (is_child t self)
          (λ j c. (and_parts (is_child t self j) (has_left (phase (t.entries j).tid)) c).0)
          (omega arith) i inside child in
      (child, (and_parts (is_child t self i) (has_left (phase (t.entries i).tid)) full).1)

  pub passed-Sound :
      (self : ℕ) (l : Exiting) (u : Table)
      → phase self ≡ waiting l
      → pass l t ≡ some u
      → Sound owner u (store phase self (clearing l))
  passed-Sound self l u w h =
      let (x, has, less, own, counts, kids, call) = sound.waits self l w in
      let (enough, v, e, small) = pass_lem l t u x has call h in
      let now : ℕ → Phase = store phase self (clearing l) in
      let same : (q : ℕ) → has_left (now q) ≡ has_left (phase q) =
        at_store has_left phase self (clearing l) (sym (ap has_left w)) in
      let not_yet : (q : ℕ) → has_joined (now q) ≡ false → has_joined (phase q) ≡ false = λ q un.
        elim (store_cases phase self (clearing l) q) [
          | inl c ↦ ap (λ x. has_joined (phase x)) (sym c.0) ∙ ap has_joined w
          | inr c ↦ ap has_joined (sym c.1) ∙ un
        ] in
      rw e record {
        entered = sound.entered;
        waits = λ q k p. elim (store_cases phase self (clearing l) q) [
          | inl c ↦ absurd (false≢true (sym (ap has_joined (sym c.1 ∙ p))))
          | inr c ↦ sound.waits q k (sym c.1 ∙ p)
        ];
        joined = λ q k p j m. elim (store_cases phase self (clearing l) q) [
          | inl c ↦
              let mine : l.mychild j ≡ true = rw (ap (exiting_of l) (sym c.1 ∙ p)) m in
              let (child, gone) = pass-Joined self l u w h j mine in
              (rw (← c.0) child, same (t.entries j).tid ∙ gone)
          | inr c ↦
              let (child, gone) = sound.joined q k (sym c.1 ∙ p) j m in
              (child, same (t.entries j).tid ∙ gone)
        ];
        counted = λ y p un.
            let old = sound.counted y p (not_yet (owner y) un) in
            let more =
              count_of_le max_threads (left_child t phase (owner y)) (left_child t now (owner y))
                (left_child-store t phase self (clearing l) (sym (ap has_left w)) (owner y)) in
            omega (arith, small y);
      }

  -- A thread that goes on to its P.
  pub recall-Sound :
      (self : ℕ) (l : Exiting) (c : Call)
      → phase self ≡ waiting l
      → OwnOperand c l.count
      → Sound owner t (store phase self (waiting (record l { call = c })))
  recall-Sound self l c w mine =
      let at : Phase = waiting (record l { call = c }) in
      let now : ℕ → Phase = store phase self at in
      let same : (q : ℕ) → has_left (now q) ≡ has_left (phase q) =
        at_store has_left phase self at (sym (ap has_left w)) in
      let as_joined : (q : ℕ) → has_joined (now q) ≡ has_joined (phase q) =
        at_store has_joined phase self at (sym (ap has_joined w)) in
      record {
        entered = sound.entered;
        waits = λ q k p. elim (store_cases phase self at q) [
          | inl d ↦
              let e : record l { call = c } ≡ k = ap (exiting_of l) (sym d.1 ∙ p) in
              let (x, has, less, own, counts, kids, call) = sound.waits self l w in
              subst (λ z. Waits owner t q z) e
                (subst (λ z. Waits owner t z (record l { call = c })) d.0
                  (x, has, less, own, counts, kids, mine))
          | inr d ↦ sound.waits q k (sym d.1 ∙ p)
        ];
        joined = λ q k p j m. elim (store_cases phase self at q) [
          | inl d ↦ absurd (false≢true (ap has_joined (sym d.1 ∙ p)))
          | inr d ↦
              let (child, gone) = sound.joined q k (sym d.1 ∙ p) j m in
              (child, same (t.entries j).tid ∙ gone)
        ];
        counted = λ y p un.
            let old = sound.counted y p (sym (as_joined (owner y)) ∙ un) in
            let more =
              count_of_le max_threads (left_child t phase (owner y)) (left_child t now (owner y))
                (left_child-store t phase self at (sym (ap has_left w)) (owner y)) in
            omega arith;
      }

  -- The entries of the children go.
  module _ (self : ℕ) (l : Exiting) (w : phase self ≡ clearing l) (es : ℕ → Entry)
      (wiped : (j : ℕ)
        → (es j ≡ t.entries j)
          ⊎ ((l.mychild j ≡ true) × (es j ≡ record (t.entries j) { valid = false }))) where
    abbrev rest : Table
    rest = record t { entries = es }

    wiped-is_child : (q j : ℕ) → q ≢ self → is_child rest q j ≡ is_child t q j
    wiped-is_child q j ne = elim (wiped j) [
      | inl e ↦ rw e refl
      | inr c ↦ let mine = (sound.joined self l w j c.0).0 in rw c.1 (ground arith)
    ]

    wiped-tid : (j : ℕ) → (es j).tid ≡ (t.entries j).tid
    wiped-tid j = elim (wiped j) [ inl e ↦ ap (λ k. k.tid) e | inr c ↦ ap (λ k. k.tid) c.1 ]

    abbrev gone_on : ℕ → Phase
    gone_on = store phase self ended

    gone_on-left :
        (j : ℕ) → has_left (phase (t.entries j).tid) ≡ true → has_left (gone_on (es j).tid) ≡ true
    gone_on-left j gone =
        ap (λ y. has_left (gone_on y)) (wiped-tid j)
        ∙ at_store has_left phase self ended (sym (ap has_left w)) (t.entries j).tid
        ∙ gone

    rest-Entered : Entered owner rest
    rest-Entered j v = elim (wiped j) [
      | inl e ↦ rw e (sound.entered j (ap (λ k. k.valid) (sym e) ∙ v))
      | inr c ↦ absurd (false≢true (ap (λ k. k.valid) (sym c.1) ∙ v))
    ]

    rest-Counted : Counted owner rest gone_on
    rest-Counted x p u =
        let un = sym (at_store has_joined phase self ended (sym (ap has_joined w)) (owner x)) ∙ u in
        let ne : owner x ≢ self =
          λ s. false≢true (sym un ∙ ap (λ y. has_joined (phase y)) s ∙ ap has_joined w) in
        let old = sound.counted x p un in
        let more =
          count_of_le max_threads (left_child t phase (owner x)) (left_child rest gone_on (owner x))
            (λ j h.
              let (child, gone) =
                and_parts (is_child t (owner x) j) (has_left (phase (t.entries j).tid)) h in
              and_both (is_child rest (owner x) j) (has_left (gone_on (es j).tid))
                (wiped-is_child (owner x) j ne ∙ child) (gone_on-left j gone)) in
        omega arith

    rest-Sound : Sound owner rest gone_on
    rest-Sound = record {
      entered = rest-Entered;
      waits = λ q k p. elim (store_cases phase self ended q) [
        | inl c ↦ absurd (false≢true (ap is_waiting (sym c.1 ∙ p)))
        | inr c ↦
            let (x, has, less, own, counts, kids, call) = sound.waits q k (sym c.1 ∙ p) in
            (x, has, less, own, counts, (λ i. wiped-is_child q i (λ s. c.0 (sym s)) ∙ kids i), call)
      ];
      joined = λ q k p j m. elim (store_cases phase self ended q) [
        | inl c ↦ absurd (false≢true (ap is_clearing (sym c.1 ∙ p)))
        | inr c ↦
            let (child, gone) = sound.joined q k (sym c.1 ∙ p) j m in
            (wiped-is_child q j (λ s. c.0 (sym s)) ∙ child, gone_on-left j gone)
      ];
      counted = rest-Counted;
    }

  pub cleared-Sound :
      (self : ℕ) (l : Exiting)
      → phase self ≡ clearing l
      → Sound owner (clear l t) (store phase self ended)
  cleared-Sound self l w = let (es, e, wiped) = clear_lem l t in rw e (rest-Sound self l w es wiped)
