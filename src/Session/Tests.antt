-- ===== src/Session/Tests.antt =====
-- A short session of Assignment_06/session.c, and times that it prints.
use os_lab_spr.Base.{
  ℕ, ◌+◌, ◌≡◌, ◌⊎◌, refl, arith, pos, negsuc, List, [], ◌∷◌, some, true, false, ◌≤ℤ◌, ◌<ℤ◌, ◌+ℤ◌,
  ◌%◌,
}
use os_lab_spr.Event.{Kind, Event}
use os_lab_spr.Session.{Waiting, Hall, print_time, session, let_in, no_line}
use os_lab_spr.Session.Time.{minute_of_day, print_time_lem}
use os_lab_spr.Session.Lines.{least, waiting_in, let_in_lem}
use os_lab_spr.Session.Visits.{Served, session_serves}

abbrev visit : Kind → ℕ → ℕ → Event
visit k t d = record { type = k; time = pos t; duration = pos d }

-- Two patients, a reporter and a sales representative.
abbrev visitors : List Event
visitors =
    visit Kind.patient 3 10
    ∷ visit Kind.sales_rep 4 5
    ∷ visit Kind.patient 6 7
    ∷ visit Kind.reporter 9 2
    ∷ []

abbrev fresh : ℕ → Event
fresh i = record { type = Kind.doctor; time = negsuc i; duration = pos 0 }

abbrev no_one : ℕ → Waiting
no_one i = record { time = pos 0; duration = negsuc 5 }

session_serves_example :
    (h : Hall) × (session 17 fresh no_one visitors ≡ some h) × Served visitors h
session_serves_example =
    session_serves 17 fresh no_one visitors
      (
        (omega arith, omega arith),
        (
          (omega arith, omega arith),
          ((omega arith, omega arith), ((omega arith, omega arith), tt)),
        ),
      )
      (omega arith) (omega arith) (omega arith)

abbrev hall : Hall
hall = record {
  queue = record { cap = 128; n = 0; q = fresh };
  current_time = pos 20;
  reporters = no_line no_one;
  patients = record { waiting = no_one; current = 0; num = 2; token = 2 };
  sales_reps = record { waiting = no_one; current = 0; num = 1; token = 1 };
  session_done = false;
  doctor_firstcase = false;
}

hall_lets_in :
    let t = (let_in hall).0 in
    ((t.patients.current ≡ 0) ⊎ (hall.reporters.num ≡ 0))
    × ((t.sales_reps.current ≡ 0) ⊎ ((hall.reporters.num ≡ 0) × (hall.patients.num ≡ 0)))
    × (waiting_in hall ≡ waiting_in t + least 1 (waiting_in hall))
    × (t.reporters.current + t.reporters.num ≡ hall.reporters.current + hall.reporters.num)
    × (t.patients.current + t.patients.num ≡ hall.patients.current + hall.patients.num)
    × (t.sales_reps.current + t.sales_reps.num ≡ hall.sales_reps.current + hall.sales_reps.num)
hall_lets_in = let_in_lem hall

-- Noon, and a minute before nine in the morning.
noon : print_time (pos 180) ≡ record { hours = pos 12; minutes = pos 0; pm = true }
unfolding print_time ◌+ℤ◌
noon = refl

before_nine : print_time (negsuc 0) ≡ record { hours = pos 8; minutes = pos 59; pm = false }
unfolding print_time ◌+ℤ◌
before_nine = refl

quarter_past :
    let c = print_time (pos 1979 +ℤ negsuc 1979) in
    (minute_of_day c ≡ 1979 % 1440)
    × (pos 1 ≤ℤ c.hours)
    × (c.hours ≤ℤ pos 12)
    × (pos 0 ≤ℤ c.minutes)
    × (c.minutes <ℤ pos 60)
quarter_past = print_time_lem 1979
