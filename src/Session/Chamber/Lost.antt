-- ===== src/Session/Chamber/Lost.antt =====
-- Assignment_06/session.c: the signal for a visitor who has tested its token and does not sleep yet.
use mathlib.Core.Bool.{false≢true}
use mathlib.Core.Path.{subst}
use os_lab_spr.Base.{
  ℕ, ◌+◌, ◌≡◌, refl, sym, ap, ◌∙◌, inl, inr, Bool, true, false, ◌&&◌, ◌==◌, if◌then◌else◌, store,
  pos, eqb_ℤ, arith, Bool-cases, List, [], ◌∷◌,
}
use os_lab_spr.Session.Chamber.{
  Doctor, resting, checking, opening, meeting, completing, left, Visitor, coming, about, asleep,
  admitted, inside, gone, calling, finishing, Desk, Clinic, Summons, put_visitor, wake, assistant,
  join, doctor_step, visitor_step, moves, Turn, of_assistant, of_join, of_doctor, of_visitor, turn,
  run, opens,
}

-- The doctor waits for a visitor who does not come.
abbrev alone : Doctor → Bool
alone resting = true
alone checking = true
alone opening = true
alone meeting = true
alone completing = false
alone left = false

-- Outside, and not to be let in.
abbrev outside : Visitor → Bool
outside coming = true
outside about = true
outside asleep = true
outside _ = false

abbrev is_asleep : Visitor → Bool
is_asleep asleep = true
is_asleep _ = false

-- The first visitor of line `k` sleeps, whose token is the current one, and all wait for the visit to end.
record Stuck (k : ℕ) (calls : List Summons) (s : Clinic) : Type 0 where
  desk : s.desk ≡ finishing calls
  doctor : alone s.doctor ≡ true
  flags : (s.doctor_done ≡ false) × (s.doctor_met ≡ false) × (s.session_done ≡ false)
  sleeps : s.visitor k 0 ≡ asleep
  nobody : (l j : ℕ) → outside (s.visitor l j) ≡ true
  uncalled : (l j : ℕ) → (k == l && 0 == j) ≡ false → (j + 1 == s.current l) ≡ false

module _ (k : ℕ) (calls : List Summons) (s : Clinic) (v : Stuck k calls s) where
  goes_to :
      (d : Doctor)
      → alone d ≡ true
      → (free : Bool) → Stuck k calls (record s { doctor = d; doctor_free = free })
  goes_to d e free = record {
    desk = v.desk;
    doctor = e;
    flags = v.flags;
    sleeps = v.sleeps;
    nobody = v.nobody;
    uncalled = v.uncalled;
  }

  doctor-Stuck : (d : Doctor) → s.doctor ≡ d → Stuck k calls (doctor_step d s)
  doctor-Stuck resting at =
      let after : Bool → Clinic =
        λ b. if b then record s { doctor_free = false; doctor = checking } else s in
      elim (Bool-cases s.doctor_free) [
        | inl e ↦ subst (λ b. Stuck k calls (after b)) (sym e) (goes_to checking refl false)
        | inr e ↦ subst (λ b. Stuck k calls (after b)) (sym e) v
      ]
  doctor-Stuck checking at =
      subst
        (λ b. Stuck k calls (
          if b
          then record s { doctor_done = true; doctor = left }
          else record s { doctor = opening }))
        (sym v.flags.2) (goes_to opening refl s.doctor_free)
  doctor-Stuck opening at = record {
    desk = v.desk;
    doctor = refl;
    flags = v.flags;
    sleeps = v.sleeps;
    nobody = v.nobody;
    uncalled = v.uncalled;
  }
  doctor-Stuck meeting at =
      subst
        (λ b. Stuck k calls (if b then record s { doctor_met = false; doctor = completing } else s))
        (sym v.flags.1) v
  doctor-Stuck completing at = absurd (false≢true (ap alone (sym at) ∙ v.doctor))
  doctor-Stuck left at = absurd (false≢true (ap alone (sym at) ∙ v.doctor))

  -- A visitor other than the first of the line stays outside.
  waits :
      (l j : ℕ) (p : Visitor)
      → (k == l && 0 == j) ≡ false
      → outside p ≡ true
      → Stuck k calls (moves l j p s)
  waits l j p apart out = record {
    desk = v.desk;
    doctor = v.doctor;
    flags = v.flags;
    sleeps = ground (arith, v.sleeps);
    nobody = λ l' j'. elim (Bool-cases (l == l' && j == j')) [
      | inl e ↦ rw e out
      | inr e ↦ rw e (v.nobody l' j')
    ];
    uncalled = v.uncalled;
  }

  not_sleeper :
      (l j : ℕ) (p : Visitor) → s.visitor l j ≡ p → is_asleep p ≡ false → (k == l && 0 == j) ≡ false
  not_sleeper l j p at up = elim (Bool-cases (k == l && 0 == j)) [
    | inr e ↦ e
    | inl e ↦
        let line : l ≡ k = ground arith in
        let first : j ≡ 0 = ground arith in
        absurd (
          false≢true (
            sym up
            ∙ ap is_asleep
                (sym at ∙ ap (λ z. s.visitor z j) line ∙ ap (s.visitor k) first ∙ v.sleeps)))
  ]

  visitor-Stuck : (l j : ℕ) (p : Visitor) → s.visitor l j ≡ p → Stuck k calls (visitor_step l j p s)
  visitor-Stuck l j coming at =
      let other = not_sleeper l j coming at refl in
      subst (λ b. Stuck k calls (if b then moves l j admitted s else moves l j about s))
        (sym (v.uncalled l j other)) (waits l j about other refl)
  visitor-Stuck l j about at = waits l j asleep (not_sleeper l j about at refl) refl
  visitor-Stuck l j asleep at = v
  visitor-Stuck l j admitted at = absurd (false≢true (ap outside (sym at) ∙ v.nobody l j))
  visitor-Stuck l j inside at = absurd (false≢true (ap outside (sym at) ∙ v.nobody l j))
  visitor-Stuck l j gone at = absurd (false≢true (ap outside (sym at) ∙ v.nobody l j))

  turn-Stuck : (full : Bool) (x : Turn) → Stuck k calls (turn full s x)
  unfolding turn
  turn-Stuck full (of_assistant woken) =
      subst (λ d. Stuck k calls (assistant full woken d s)) (sym v.desk)
        (subst
          (λ b.
            Stuck k calls (if b then record s { doctor_done = false; desk = calling calls } else s))
          (sym v.flags.0) v)
  turn-Stuck full of_join = subst (λ d. Stuck k calls (join d s)) (sym v.desk) v
  turn-Stuck full of_doctor = doctor-Stuck s.doctor refl
  turn-Stuck full (of_visitor l j) = visitor-Stuck l j (s.visitor l j) refl

run-Stuck :
    (k : ℕ) (calls : List Summons) (full : Bool) (s : Clinic) (xs : List Turn)
    → Stuck k calls s
    → Stuck k calls (run full s xs)
unfolding run
run-Stuck k calls full s [] v = v
run-Stuck k calls full s (x ∷ xs) v =
    run-Stuck k calls full (turn full s x) xs (turn-Stuck k calls s v full x)

-- The visitor tests its token, is called, and goes to sleep.
abbrev late : ℕ → List Turn
late k = of_visitor k 0 ∷ of_assistant 0 ∷ of_assistant 0 ∷ of_assistant 0 ∷ of_visitor k 0 ∷ []

late-Stuck :
    (full : Bool) (c : Summons) (calls : List Summons)
    → eqb_ℤ c.time (pos 0) ≡ false
    → Stuck c.line calls (run full (opens (c ∷ calls)) (late c.line))
unfolding run turn
late-Stuck full c calls timed =
    let k : ℕ = c.line in
    let tested : ℕ → ℕ → Visitor = put_visitor (λ _ _. coming) k 0 about in
    let self : (k == k && 0 == 0) ≡ true = ground arith in
    let once : tested k 0 ≡ about = ap (λ b. if b then about else coming) self in
    let signalled : ℕ → ℕ → Visitor = put_visitor tested k 0 (wake (tested k 0)) in
    let twice : signalled k 0 ≡ about =
      ap (λ b. if b then wake (tested k 0) else tested k 0) self ∙ ap wake once in
    let base : Desk → Clinic = λ d. record (opens (c ∷ calls)) {
      doctor_free = true;
      current = store (λ _. 0) k 1;
      desk = d;
      visitor = signalled;
    } in
    subst
      (λ b.
        Stuck k calls
          (visitor_step k 0 (signalled k 0) (base (if b then calling calls else finishing calls))))
      (sym timed)
      (subst (λ p. Stuck k calls (visitor_step k 0 p (base (finishing calls)))) (sym twice)
        (record {
          desk = refl;
          doctor = refl;
          flags = (refl, refl, refl);
          sleeps = ap (λ b. if b then asleep else signalled k 0) self;
          nobody =
              λ l j. elim (Bool-cases (k == l && 0 == j)) [ inl e ↦ rw e refl | inr e ↦ rw e refl ];
          uncalled = λ l j e. ground (arith, e);
        }))

-- Whatever visitors are let in, where the visit of the first would not be done at time 0, there are turns after which the assistant waits for the end of the first
-- visit whatever the further turns: the visitor has tested its token, is called, and sleeps then.
pub wake_up_lost :
    (full : Bool) (k : Summons) (calls : List Summons)
    → eqb_ℤ k.time (pos 0) ≡ false
    → (xs : List Turn) × ((ys : List Turn)
        → (run full (run full (opens (k ∷ calls)) xs) ys).desk ≡ finishing calls)
wake_up_lost full k calls timed = (
  late k.line,
  λ ys.
      (run-Stuck k.line calls full (run full (opens (k ∷ calls)) (late k.line)) ys
        (late-Stuck full k calls timed)).desk,
)
