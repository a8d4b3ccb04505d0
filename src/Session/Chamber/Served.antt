-- ===== src/Session/Chamber/Served.antt =====
-- Assignment_06/session.c: the visits, one after the other.
use mathlib.Core.Bool.{false≢true}
use mathlib.Core.Path.{subst}
use os_lab_spr.Base.{
  ℕ, ◌≡◌, refl, sym, ap, ◌∙◌, inl, inr, Bool, true, false, ltb, if◌then◌else◌, arith, Bool-cases,
  List, [], ◌∷◌, ◌++◌,
}
use os_lab_spr.Session.Chamber.{
  Doctor, resting, checking, opening, meeting, completing, left, Visitor, coming, about, asleep,
  admitted, inside, gone, Desk, calling, counting, signalling, finishing, dismissing, joining,
  ended, Clinic, Summons, AllTimed, put_visitor, wake, assistant, has_left, join, doctor_step,
  visitor_step, Turn, of_assistant, of_join, of_doctor, of_visitor, turn, run, opens,
}
use os_lab_spr.Session.Chamber.Stages.{
  Stage, idle, freed, next, doctor-at, doctor-desk, suits-next, is_gone,
}
use os_lab_spr.Session.Chamber.Places.{stands, visitor-desk}
use os_lab_spr.Session.Chamber.Called.{visitor-Calm, visitor-Busy}
use os_lab_spr.Session.Chamber.Visit.{
  times, Counted, Counted-next, Calm, Busy, Visits, Busy-next, Busy-wake, Calm-done,
}

assistant-Visits :
    (calls : List Summons) (full : Bool) (w : ℕ) (d : Desk) (s : Clinic)
    → s.desk ≡ d
    → Visits calls d s
    → Visits calls (assistant full w d s).desk (assistant full w d s)
assistant-Visits calls true w (calling []) s e v = tt
assistant-Visits calls false w (calling []) s e v = tt
assistant-Visits calls full w (calling (k ∷ rest)) s e v =
    let frees : Clinic → Clinic = λ t. record t { doctor_free = true; desk = counting k rest } in
    ((freed, record { keeps = ap frees v.0.keeps; placed = v.0.placed }, refl), v.1)
assistant-Visits calls full w (counting k rest) s e v =
    (Busy-next v.0.0 k rest s v.0.1 v.0.2, Counted-next calls k rest s.current v.1, v.1.3.0)
assistant-Visits calls full w (signalling k rest) s e v =
    let t : Desk → Clinic = λ d. record s {
      visitor = put_visitor s.visitor k.line w (wake (s.visitor k.line w));
      desk = d;
    } in
    subst
      (λ b.
        Visits calls (if b then calling rest else finishing rest)
          (t (if b then calling rest else finishing rest)))
      (sym v.2) (Busy-wake k.line w rest s v.0, v.1)
assistant-Visits calls full w (finishing rest) s e v =
    let after : Bool → Clinic =
      λ b. if b then record s { doctor_done = false; desk = calling rest } else s in
    elim (Bool-cases s.doctor_done) [
      | inl h ↦
          subst (λ b. Visits calls (after b).desk (after b)) (sym h) (Calm-done rest s v.0 h, v.1)
      | inr h ↦
          subst (λ b. Visits calls (after b).desk (after b)) (sym h)
            (subst (λ z. Visits calls z s) (sym e) v)
    ]
assistant-Visits calls full w dismissing s e v =
    let after : Bool → Clinic =
      λ b. if b then record s { doctor_done = false; desk = joining } else s in
    elim (Bool-cases s.doctor_done) [
      | inl h ↦ subst (λ b. Visits calls (after b).desk (after b)) (sym h) tt
      | inr h ↦
          subst (λ b. Visits calls (after b).desk (after b)) (sym h)
            (subst (λ z. Visits calls z s) (sym e) v)
    ]
assistant-Visits calls full w joining s e v = subst (λ z. Visits calls z s) (sym e) v
assistant-Visits calls full w ended s e v = subst (λ z. Visits calls z s) (sym e) v

join-Visits :
    (calls : List Summons) (d : Desk) (s : Clinic)
    → s.desk ≡ d
    → Visits calls d s
    → Visits calls (join d s).desk (join d s)
join-Visits calls joining s e v =
    let after : Bool → Clinic = λ b. if b then record s { desk = ended } else s in
    elim (Bool-cases (has_left s.doctor)) [
      | inl h ↦ subst (λ b. Visits calls (after b).desk (after b)) (sym h) tt
      | inr h ↦
          subst (λ b. Visits calls (after b).desk (after b)) (sym h)
            (subst (λ z. Visits calls z s) (sym e) v)
    ]
join-Visits calls (calling rest) s e v = subst (λ z. Visits calls z s) (sym e) v
join-Visits calls (counting k rest) s e v = subst (λ z. Visits calls z s) (sym e) v
join-Visits calls (signalling k rest) s e v = subst (λ z. Visits calls z s) (sym e) v
join-Visits calls (finishing rest) s e v = subst (λ z. Visits calls z s) (sym e) v
join-Visits calls dismissing s e v = subst (λ z. Visits calls z s) (sym e) v
join-Visits calls ended s e v = subst (λ z. Visits calls z s) (sym e) v

-- The doctor goes on to the next stage.
doctor-Calm : (g : Stage) (s : Clinic) → Calm g s → Calm (next g) (doctor_step s.doctor s)
doctor-Calm g s v =
    subst (Calm (next g)) (sym (doctor-at g s v.keeps)) (record { keeps = refl; placed = v.placed })

doctor-Busy : (s : Clinic) → Busy s → Busy (doctor_step s.doctor s)
doctor-Busy s v = subst Busy (sym (doctor-at v.stage s v.keeps)) (record {
  stage = next v.stage;
  line = v.line;
  last = v.last;
  keeps = refl;
  called = v.called;
  fits = suits-next v.stage (s.visitor v.line v.last) v.fits;
  placed = v.placed;
})

doctor-current : (d : Doctor) (s : Clinic) → (doctor_step d s).current ≡ s.current
doctor-current resting s = ground arith
doctor-current checking s = ground arith
doctor-current opening s = refl
doctor-current meeting s = ground arith
doctor-current completing s = refl
doctor-current left s = refl

module _ (calls : List Summons) (s : Clinic) where
  counted_on :
      (rest : List Summons)
      → Counted calls rest s.current
      → Counted calls rest (doctor_step s.doctor s).current
  counted_on rest = subst (Counted calls rest) (sym (doctor-current s.doctor s))

  doctor-Visits : (d : Desk) → Visits calls d s → Visits calls d (doctor_step s.doctor s)
  doctor-Visits (calling rest) v = (doctor-Calm idle s v.0, counted_on rest v.1)
  doctor-Visits (counting k rest) v = (
    (next v.0.0, doctor-Calm v.0.0 s v.0.1, suits-next v.0.0 coming v.0.2),
    counted_on (k ∷ rest) v.1,
  )
  doctor-Visits (signalling k rest) v = (doctor-Busy s v.0, counted_on rest v.1, v.2)
  doctor-Visits (finishing rest) v = (doctor-Busy s v.0, counted_on rest v.1)
  doctor-Visits dismissing v = tt
  doctor-Visits joining v = tt
  doctor-Visits ended v = tt

  visitor-Counted :
      (rest : List Summons) (l j : ℕ)
      → Counted calls rest s.current
      → Counted calls rest (visitor_step l j (s.visitor l j) s).current
  visitor-Counted rest l j = subst (Counted calls rest) (sym (visitor-desk s l j (s.visitor l j)).1)

  visitor-Visits :
      (d : Desk) (l j : ℕ) → Visits calls d s → Visits calls d (visitor_step l j (s.visitor l j) s)
  visitor-Visits (calling rest) l j v = (visitor-Calm idle s l j v.0, visitor-Counted rest l j v.1)
  visitor-Visits (counting k rest) l j v =
      ((v.0.0, visitor-Calm v.0.0 s l j v.0.1, v.0.2), visitor-Counted (k ∷ rest) l j v.1)
  visitor-Visits (signalling k rest) l j v =
      (visitor-Busy s v.0 l j, visitor-Counted rest l j v.1, v.2)
  visitor-Visits (finishing rest) l j v = (visitor-Busy s v.0 l j, visitor-Counted rest l j v.1)
  visitor-Visits dismissing l j v = tt
  visitor-Visits joining l j v = tt
  visitor-Visits ended l j v = tt

  turn-Visits :
      (full : Bool) (x : Turn)
      → Visits calls s.desk s
      → Visits calls (turn full s x).desk (turn full s x)
  unfolding turn
  turn-Visits full (of_assistant w) v = assistant-Visits calls full w s.desk s refl v
  turn-Visits full of_join v = join-Visits calls s.desk s refl v
  turn-Visits full of_doctor v =
      subst (λ d. Visits calls d (doctor_step s.doctor s)) (sym (doctor-desk s.doctor s))
        (doctor-Visits s.desk v)
  turn-Visits full (of_visitor l j) v =
      subst (λ d. Visits calls d (visitor_step l j (s.visitor l j) s))
        (sym (visitor-desk s l j (s.visitor l j)).0) (visitor-Visits s.desk l j v)

run-Visits :
    (calls : List Summons) (full : Bool) (s : Clinic) (xs : List Turn)
    → Visits calls s.desk s
    → Visits calls (run full s xs).desk (run full s xs)
unfolding run
run-Visits calls full s [] v = v
run-Visits calls full s (x ∷ xs) v =
    run-Visits calls full (turn full s x) xs (turn-Visits calls s full x v)

opens-Visits : (calls : List Summons) → AllTimed calls → Visits calls (calling calls) (opens calls)
opens-Visits calls timed = (
  record {
    keeps = refl;
    placed = λ l j apart.
        let none_called : ltb j 0 ≡ false = ground arith in ap (stands coming) none_called;
  },
  ([], refl, λ l. refl, timed),
)

gone_if_called : (p : Visitor) (b : Bool) → stands p b ≡ true → is_gone p ≡ b
gone_if_called p true e = e
gone_if_called coming false e = refl
gone_if_called about false e = refl
gone_if_called asleep false e = refl
gone_if_called admitted false e = refl
gone_if_called inside false e = refl
gone_if_called gone false e = absurd (false≢true e)

-- Whatever the turns of the threads, while no visit would be done at time 0, where the assistant is about to let in the next visitor and the calls
-- `rest` are left, the calls are those made before and `rest`, and the visitors of each line who are gone
-- are its first ones, as many as calls of the line were made.
pub visits_in_order :
    (full : Bool) (calls : List Summons) (xs : List Turn) (rest : List Summons)
    → AllTimed calls
    → (run full (opens calls) xs).desk ≡ calling rest
    → (made : List Summons) × (calls ≡ made ++ rest)
      × ((l j : ℕ) → is_gone ((run full (opens calls) xs).visitor l j) ≡ ltb j (times l made))
visits_in_order full calls xs rest timed here =
    let s : Clinic = run full (opens calls) xs in
    let v : Visits calls (calling rest) s =
      subst (λ d. Visits calls d s) here
        (run-Visits calls full (opens calls) xs (opens-Visits calls timed)) in
    (
      v.1.0,
      v.1.1,
      λ l j.
          gone_if_called (s.visitor l j) (ltb j (s.current l)) (v.0.placed l j refl)
          ∙ ap (ltb j) (v.1.2 l),
    )
