-- ===== src/Session/Day.antt =====
-- The day of the assistant of Assignment_06/session.c: it ends, and who has been let in by then.
use os_lab_spr.Base.{
  ℕ, ◌+◌, ◌≤◌, ◌≡◌, refl, Bool, true, false, not, ◌||◌, Option, some, if◌then◌else◌, ℤ, pos, ltb_ℤ,
  arith, bit,
}
use os_lab_spr.Event.{Kind, Event}
use os_lab_spr.Session.{
  max_reporters, max_patients, max_sales_reps, Hall, quota_arrives, arrive, is_doctor,
}
use os_lab_spr.Session.Lines.{Lines, waiting_in, quota_arrives-Filled, reporter_arrives-Open}

-- 1 for an event of one kind.
abbrev pub of_doctor : Event → ℕ
of_doctor x = bit (is_doctor x.type)

abbrev is_reporter : Kind → Bool
is_reporter Kind.reporter = true
is_reporter _ = false

abbrev is_patient : Kind → Bool
is_patient Kind.patient = true
is_patient _ = false

abbrev is_sales_rep : Kind → Bool
is_sales_rep Kind.sales_rep = true
is_sales_rep _ = false

abbrev pub of_reporter : Event → ℕ
of_reporter x = bit (is_reporter x.type)

abbrev pub of_patient : Event → ℕ
of_patient x = bit (is_patient x.type)

abbrev pub of_sales_rep : Event → ℕ
of_sales_rep x = bit (is_sales_rep x.type)

-- 1 for an event that is neither the doctor's, at a time from 0 on, nor that of a visitor of one of
-- the three kinds whose visit has some length.
abbrev pub odd_one : Event → ℕ
odd_one x =
    if is_doctor x.type
    then bit (ltb_ℤ x.time (pos 0))
    else bit (
        not (is_reporter x.type || is_patient x.type || is_sales_rep x.type)
        || not (ltb_ℤ (pos 0) x.duration))

-- What an arrival does to the lines.
abbrev pub Arrived : Hall → Event → Option Hall → Type 0
Arrived h x r =
    (t : Hall) × (r ≡ some t)
    × (t.queue ≡ h.queue)
    × Lines t
    × (t.reporters.token ≡ h.reporters.token + of_reporter x)
    × (t.patients.token ≡ h.patients.token + of_patient x)
    × (t.sales_reps.token ≡ h.sales_reps.token + of_sales_rep x)
    × (waiting_in t ≤ waiting_in h + 1)

pub arrive-Arrived :
    (k : Kind) (time duration : ℤ) (h : Hall)
    → let x : Event = record { type = k; time = time; duration = duration } in
      is_doctor k ≡ false
      → odd_one x ≡ 0
      → h.reporters.token + of_reporter x ≤ max_reporters
      → Lines h
      → Arrived h x (arrive k h x)
unfolding arrive
arrive-Arrived Kind.reporter time duration h e ok few k =
    let x : Event = record { type = Kind.reporter; time = time; duration = duration } in
    let (l, el, ol, tl, nl) =
      reporter_arrives-Open h.session_done h.reporters x (ground (arith, ok)) few k.reporters in
    (
      record h { current_time = time; reporters = l },
      rw el refl,
      refl,
      record { reporters = ol; patients = k.patients; sales_reps = k.sales_reps },
      tl,
      omega arith,
      omega arith,
      omega (arith, nl),
    )
arrive-Arrived Kind.patient time duration h e ok few k =
    let x : Event = record { type = Kind.patient; time = time; duration = duration } in
    let (f, tl, nl) =
      quota_arrives-Filled max_patients h.session_done h.patients x (ground (arith, ok))
        k.patients in
    (
      record h {
        current_time = time;
        patients = quota_arrives max_patients h.session_done h.patients x;
      },
      refl,
      refl,
      record { reporters = k.reporters; patients = f; sales_reps = k.sales_reps },
      omega arith,
      tl,
      omega arith,
      omega (arith, nl),
    )
arrive-Arrived Kind.sales_rep time duration h e ok few k =
    let x : Event = record { type = Kind.sales_rep; time = time; duration = duration } in
    let (f, tl, nl) =
      quota_arrives-Filled max_sales_reps h.session_done h.sales_reps x (ground (arith, ok))
        k.sales_reps in
    (
      record h {
        current_time = time;
        sales_reps = quota_arrives max_sales_reps h.session_done h.sales_reps x;
      },
      refl,
      refl,
      record { reporters = k.reporters; patients = k.patients; sales_reps = f },
      omega arith,
      omega arith,
      tl,
      omega (arith, nl),
    )
arrive-Arrived Kind.doctor time duration h e ok few k = absurd (ground arith)
arrive-Arrived Kind.ending time duration h e ok few k = absurd (ground (arith, ok))
arrive-Arrived Kind.other time duration h e ok few k = absurd (ground (arith, ok))
