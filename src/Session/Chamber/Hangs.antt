-- ===== src/Session/Chamber/Hangs.antt =====
-- Assignment_06/session.c: a session that does not end by its quotas.
use mathlib.Core.Bool.{false≢true}
use mathlib.Core.Path.{subst}
use os_lab_spr.Base.{
  ℕ, ◌+◌, ◌==◌, ◌≡◌, refl, sym, ap, ◌∙◌, inl, inr, Bool, true, false, if◌then◌else◌, arith,
  Bool-cases, List, [], ◌∷◌,
}
use os_lab_spr.Session.Chamber.{
  Doctor, resting, checking, opening, meeting, completing, left, Visitor, coming, about, asleep,
  admitted, inside, gone, Desk, calling, counting, signalling, finishing, dismissing, joining,
  ended, Clinic, Summons, AllTimed, put_visitor, wake, assistant, has_left, join, doctor_step,
  visitor_step, moves, Turn, of_assistant, of_join, of_doctor, of_visitor, turn, run, opens,
}
use os_lab_spr.Session.Chamber.Stages.{doctor-desk}

abbrev pub has_ended : Desk → Bool
has_ended ended = true
has_ended _ = false

-- Where the doctor may be between being freed and the assistant's going on, by `doctor_free` and
-- `doctor_done`.
abbrev called : Doctor → Bool → Bool → Bool
called resting true false = true
called resting false true = true
called checking false false = true
called opening false false = true
called meeting false false = true
called completing false false = true
called _ _ _ = false

-- What stays true of the doctor, by where the assistant is.
abbrev Kept : Desk → Clinic → Type 0
Kept (calling calls) s =
    (s.doctor ≡ resting)
    × (s.doctor_free ≡ false)
    × (s.doctor_done ≡ false)
    × (s.session_done ≡ false)
    × AllTimed calls
Kept (counting k calls) s =
    (called s.doctor s.doctor_free s.doctor_done ≡ true)
    × (s.session_done ≡ false)
    × AllTimed (k ∷ calls)
Kept (signalling k calls) s =
    (called s.doctor s.doctor_free s.doctor_done ≡ true)
    × (s.session_done ≡ false)
    × AllTimed (k ∷ calls)
Kept (finishing calls) s =
    (called s.doctor s.doctor_free s.doctor_done ≡ true) × (s.session_done ≡ false) × AllTimed calls
Kept dismissing s = ⊥
Kept joining s = (s.doctor ≡ resting) × (s.doctor_free ≡ false)
Kept ended s = ⊥

-- The doctor goes on within a visit.
called-step :
    (d : Doctor) (s : Clinic)
    → s.doctor ≡ d
    → called d s.doctor_free s.doctor_done ≡ true
    → s.session_done ≡ false
    → (called (doctor_step d s).doctor (doctor_step d s).doctor_free (doctor_step d s).doctor_done
        ≡ true)
      × ((doctor_step d s).session_done ≡ false)
called-step resting s at c on = ground arith
called-step checking s at c on = ground arith
called-step opening s at c on = ground arith
called-step meeting s at c on = ground arith
called-step completing s at c on = ground arith
called-step left s at c on = ground arith

-- A doctor who has done a visit rests.
called-done :
    (d : Doctor) (free done : Bool)
    → called d free done ≡ true
    → done ≡ true
    → (d ≡ resting) × (free ≡ false)
called-done resting true true c e = absurd (false≢true c)
called-done resting false true c e = (refl, refl)
called-done d free false c e = absurd (false≢true e)
called-done checking true true c e = absurd (false≢true c)
called-done checking false true c e = absurd (false≢true c)
called-done opening true true c e = absurd (false≢true c)
called-done opening false true c e = absurd (false≢true c)
called-done meeting true true c e = absurd (false≢true c)
called-done meeting false true c e = absurd (false≢true c)
called-done completing true true c e = absurd (false≢true c)
called-done completing false true c e = absurd (false≢true c)
called-done left true true c e = absurd (false≢true c)
called-done left false true c e = absurd (false≢true c)

-- Each turn of the assistant.
assistant-Kept :
    (woken : ℕ) (k : Desk) (s : Clinic)
    → s.desk ≡ k
    → Kept k s
    → Kept (assistant false woken k s).desk (assistant false woken k s)
assistant-Kept woken (calling []) s at v = (v.0, refl)
assistant-Kept woken (calling (k ∷ calls)) s at v =
    (ap (λ d. called d true s.doctor_done) v.0 ∙ ap (called resting true) v.2, v.3, v.4)
assistant-Kept woken (counting k calls) s at v = v
assistant-Kept woken (signalling k calls) s at v =
    let t : Desk → Clinic = λ d. record s {
      visitor = put_visitor s.visitor k.line woken (wake (s.visitor k.line woken));
      desk = d;
    } in
    subst
      (λ b.
        Kept (if b then calling calls else finishing calls)
          (t (if b then calling calls else finishing calls)))
      (sym v.2.0) (v.0, v.1, v.2.1)
assistant-Kept woken (finishing calls) s at v =
    let after : Bool → Clinic =
      λ b. if b then record s { doctor_done = false; desk = calling calls } else s in
    elim (Bool-cases s.doctor_done) [
      | inl e ↦
          let rests = called-done s.doctor s.doctor_free s.doctor_done v.0 e in
          subst (λ b. Kept (after b).desk (after b)) (sym e) (rests.0, rests.1, refl, v.1, v.2)
      | inr e ↦
          subst (λ b. Kept (after b).desk (after b)) (sym e) (subst (λ k. Kept k s) (sym at) v)
    ]
assistant-Kept woken dismissing s at v = absurd v
assistant-Kept woken joining s at v = subst (λ k. Kept k s) (sym at) v
assistant-Kept woken ended s at v = absurd v

-- Only the doctor and the assistant change what is kept.
abbrev Same : Clinic → Clinic → Type 0
Same s t =
    (t.doctor ≡ s.doctor)
    × (t.doctor_free ≡ s.doctor_free)
    × (t.doctor_done ≡ s.doctor_done)
    × (t.session_done ≡ s.session_done)
    × (t.desk ≡ s.desk)

visitor-Same : (k j : ℕ) (p : Visitor) (s : Clinic) → Same s (visitor_step k j p s)
visitor-Same k j coming s = elim (Bool-cases (j + 1 == s.current k)) [
  | inl e ↦ rw e (refl, refl, refl, refl, refl)
  | inr e ↦ rw e (refl, refl, refl, refl, refl)
]
visitor-Same k j about s = (refl, refl, refl, refl, refl)
visitor-Same k j asleep s = (refl, refl, refl, refl, refl)
visitor-Same k j admitted s =
    let after : Bool → Clinic =
      λ b. if b then moves k j inside (record s { doctor_enter = false }) else s in
    elim (Bool-cases s.doctor_enter) [
      | inl e ↦ subst (λ b. Same s (after b)) (sym e) (refl, refl, refl, refl, refl)
      | inr e ↦ subst (λ b. Same s (after b)) (sym e) (refl, refl, refl, refl, refl)
    ]
visitor-Same k j inside s = (refl, refl, refl, refl, refl)
visitor-Same k j gone s = (refl, refl, refl, refl, refl)

called-Same :
    (s t : Clinic)
    → Same s t
    → called s.doctor s.doctor_free s.doctor_done ≡ true
    → called t.doctor t.doctor_free t.doctor_done ≡ true
called-Same s t same c =
    ap (λ d. called d t.doctor_free t.doctor_done) same.0
    ∙ ap (λ b. called s.doctor b t.doctor_done) same.1
    ∙ ap (called s.doctor s.doctor_free) same.2
    ∙ c

Kept-Same : (k : Desk) (s t : Clinic) → Same s t → Kept k s → Kept k t
Kept-Same (calling calls) s t same v = (same.0 ∙ v.0, same.1 ∙ v.1, same.2 ∙ v.2, same.3 ∙ v.3, v.4)
Kept-Same (counting k calls) s t same v = (called-Same s t same v.0, same.3 ∙ v.1, v.2)
Kept-Same (signalling k calls) s t same v = (called-Same s t same v.0, same.3 ∙ v.1, v.2)
Kept-Same (finishing calls) s t same v = (called-Same s t same v.0, same.3 ∙ v.1, v.2)
Kept-Same dismissing s t same v = absurd v
Kept-Same joining s t same v = (same.0 ∙ v.0, same.1 ∙ v.1)
Kept-Same ended s t same v = absurd v

rests : (s : Clinic) → s.doctor ≡ resting → s.doctor_free ≡ false → doctor_step s.doctor s ≡ s
rests s at free =
    ap (λ d. doctor_step d s) at
    ∙ ap (λ b. if b then record s { doctor_free = false; doctor = checking } else s) free

doctor-Kept : (k : Desk) (s : Clinic) → Kept k s → Kept k (doctor_step s.doctor s)
doctor-Kept (calling calls) s v = subst (Kept (calling calls)) (sym (rests s v.0 v.1)) v
doctor-Kept (counting k calls) s v =
    let on = called-step s.doctor s refl v.0 v.1 in (on.0, on.1, v.2)
doctor-Kept (signalling k calls) s v =
    let on = called-step s.doctor s refl v.0 v.1 in (on.0, on.1, v.2)
doctor-Kept (finishing calls) s v =
    let on = called-step s.doctor s refl v.0 v.1 in (on.0, on.1, v.2)
doctor-Kept dismissing s v = absurd v
doctor-Kept joining s v = subst (Kept joining) (sym (rests s v.0 v.1)) v
doctor-Kept ended s v = absurd v

-- The doctor rests, so the join waits.
join-Kept : (k : Desk) (s : Clinic) → s.desk ≡ k → Kept k s → join k s ≡ s
join-Kept joining s at v = ap (λ d. if has_left d then record s { desk = ended } else s) v.0
join-Kept (calling calls) s at v = refl
join-Kept (counting k calls) s at v = refl
join-Kept (signalling k calls) s at v = refl
join-Kept (finishing calls) s at v = refl
join-Kept dismissing s at v = refl
join-Kept ended s at v = refl

turn-Kept : (s : Clinic) (x : Turn) → Kept s.desk s → Kept (turn false s x).desk (turn false s x)
unfolding turn
turn-Kept s (of_assistant woken) v = assistant-Kept woken s.desk s refl v
turn-Kept s of_join v = subst (λ t. Kept t.desk t) (sym (join-Kept s.desk s refl v)) v
turn-Kept s of_doctor v =
    subst (λ k. Kept k (doctor_step s.doctor s)) (sym (doctor-desk s.doctor s))
      (doctor-Kept s.desk s v)
turn-Kept s (of_visitor k j) v =
    let same = visitor-Same k j (s.visitor k j) s in
    let t : Clinic = visitor_step k j (s.visitor k j) s in
    subst (λ d. Kept d t) (sym same.4) (Kept-Same s.desk s t same v)

run-Kept :
    (s : Clinic) (xs : List Turn) → Kept s.desk s → Kept (run false s xs).desk (run false s xs)
unfolding run
run-Kept s [] v = v
run-Kept s (x ∷ xs) v = run-Kept (turn false s x) xs (turn-Kept s x v)

not_left : (d : Doctor) (free done : Bool) → called d free done ≡ true → has_left d ≡ false
not_left left free done c = absurd (false≢true c)
not_left d free done c = refl

never_past :
    (k : Desk) (s : Clinic) → Kept k s → (has_left s.doctor ≡ false) × (has_ended k ≡ false)
never_past (calling calls) s v = (ap has_left v.0, refl)
never_past (counting k calls) s v = (not_left s.doctor s.doctor_free s.doctor_done v.0, refl)
never_past (signalling k calls) s v = (not_left s.doctor s.doctor_free s.doctor_done v.0, refl)
never_past (finishing calls) s v = (not_left s.doctor s.doctor_free s.doctor_done v.0, refl)
never_past dismissing s v = absurd v
never_past joining s v = (ap has_left v.0, refl)
never_past ended s v = absurd v

-- Where the session does not end by its quotas, whatever visitors are let in of whom none would be done at
-- time 0, and whatever the turns of the threads, the doctor never leaves, and the assistant never returns from the join.
pub never_ends :
    (calls : List Summons) (xs : List Turn)
    → AllTimed calls
    → (has_left (run false (opens calls) xs).doctor ≡ false)
      × (has_ended (run false (opens calls) xs).desk ≡ false)
never_ends calls xs timed =
    let s : Clinic = run false (opens calls) xs in
    never_past s.desk s (run-Kept (opens calls) xs (refl, refl, refl, refl, timed))
