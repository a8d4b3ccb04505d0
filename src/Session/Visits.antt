-- ===== src/Session/Visits.antt =====
-- Who has been let in at the end of a session of Assignment_06/session.c.
use os_lab_spr.Base.{
  ℕ, ◌+◌, ◌*◌, ◌≤◌, ◌<◌, ◌≡◌, ◌⊎◌, inl, inr, refl, ap, true, false, some, List, [], ◌∷◌, pos, ◌<ℤ◌,
  arith, Bool-cases,
}
use os_lab_spr.Event.{Event, EventQ, capacity}
use os_lab_spr.Event.Order.{rank}
use os_lab_spr.Event.Queue.{addevent_adds, init_eq_reads, length, sum_list}
use os_lab_spr.Session.{
  max_reporters, max_patients, max_sales_reps, Waiting, Hall, doctor_at, no_line, session,
}
use os_lab_spr.Session.Lines.{least, Lines}
use os_lab_spr.Session.Day.{of_doctor, of_reporter, of_patient, of_sales_rep, odd_one}
use os_lab_spr.Session.Rounds.{Going, Ended}
use os_lab_spr.Session.Closing.{day_ends}

-- A file of visitors of the three kinds, each with a visit of some length.
abbrev pub AllVisit : List Event → Type 0
AllVisit [] = Unit {0}
AllVisit (x ∷ xs) = ((rank x.type < 3) × (pos 0 <ℤ x.duration)) × AllVisit xs

visitors_sound :
    (xs : List Event) → AllVisit xs → (sum_list odd_one xs ≡ 0) × (sum_list of_doctor xs ≡ 0)
visitors_sound [] a = (refl, refl)
visitors_sound (x ∷ xs) (v, a) =
    let (o, d) = visitors_sound xs a in
    let here : (odd_one x ≡ 0) × (of_doctor x ≡ 0) = ground (arith, v) in
    (omega (arith, o, here), omega (arith, d, here))

-- How the day ends: all visitors have come, nobody waits, the patients and the sales representatives
-- have been let in up to their quotas, and the reporters too, unless both quotas are used up.
pub record Served (xs : List Event) (h : Hall) : Type 0 where
  pub none_queued : h.queue.n ≡ 0
  pub none_waiting : h.reporters.num + h.patients.num + h.sales_reps.num ≡ 0
  pub patients : h.patients.current ≡ least max_patients (sum_list of_patient xs)
  pub sales_reps : h.sales_reps.current ≡ least max_sales_reps (sum_list of_sales_rep xs)
  pub reporters :
      (h.reporters.current ≡ sum_list of_reporter xs)
      ⊎ ((max_patients ≤ sum_list of_patient xs) × (max_sales_reps ≤ sum_list of_sales_rep xs))

Ended-Served :
    (xs : List Event) (h : Hall)
    → Ended (sum_list of_reporter xs) (sum_list of_patient xs) (sum_list of_sales_rep xs) h
    → Served xs (record h { session_done = true })
Ended-Served xs h e =
    let k = e.lines in
    record {
      none_queued = e.none_queued;
      none_waiting = e.none_waiting;
      patients =
          omega (arith, k.patients.taken, ap (least max_patients) e.all_patients, e.none_waiting);
      sales_reps =
          omega
            (arith, k.sales_reps.taken, ap (least max_sales_reps) e.all_sales_reps, e.none_waiting);
      reporters = elim (Bool-cases h.session_done) [
        | inl done ↦ inr (
          omega (arith, k.patients.full done, e.all_patients),
          omega (arith, k.sales_reps.full done, e.all_sales_reps),
        )
        | inr going ↦ inl (omega (arith, k.reporters.taken going, e.all_reporters, e.none_waiting))
      ];
    }

-- The state in which the assistant starts.
abbrev opening : EventQ → (ℕ → Waiting) → Hall
opening q m = record {
  queue = q;
  current_time = pos 0;
  reporters = no_line m;
  patients = no_line m;
  sales_reps = no_line m;
  session_done = false;
  doctor_firstcase = false;
}

opening-Lines : (q : EventQ) (m : ℕ → Waiting) → Lines (opening q m)
opening-Lines q m = record {
  reporters = record { timed = λ i lo up. absurd (omega arith); taken = λ e. refl };
  patients = record {
    timed = λ i lo up. absurd (omega arith);
    taken = refl;
    full = λ e. absurd (ground arith);
  };
  sales_reps = record {
    timed = λ i lo up. absurd (omega arith);
    taken = refl;
    full = λ e. absurd (ground arith);
  };
}

-- A session on a file of fewer than 128 visitors, at most 250 of them reporters, ends, with fuel of
-- three rounds for each visitor and five more, whatever the memory holds. By then all have come and
-- nobody waits; the first 25 patients and the first 3 sales representatives have been let in, and so
-- have all reporters, unless there are as many patients and sales representatives as are taken.
pub session_serves :
    (fuel : ℕ) (fresh : ℕ → Event) (m : ℕ → Waiting) (xs : List Event)
    → AllVisit xs
    → length xs < capacity
    → sum_list of_reporter xs ≤ max_reporters
    → 3 * length xs + 4 < fuel
    → (h : Hall) × (session fuel fresh m xs ≡ some h) × Served xs h
unfolding session
session_serves fuel fresh m xs visit size few enough =
    let (o, d) = visitors_sound xs visit in
    let (b, sums) = init_eq_reads fresh xs (omega arith) in
    let (c, more) =
      addevent_adds b.queue (doctor_at (pos 0)) b.ordered (omega (arith, b.count, b.room, size)) in
    let go : Going (sum_list of_reporter xs) (sum_list of_patient xs) (sum_list of_sales_rep xs)
        (opening c.queue m) =
      record {
        heap = c.ordered;
        room = omega (arith, c.count, c.room, b.count, b.room, size);
        one = omega (arith, more of_doctor, sums of_doctor, d);
        sound = omega (arith, more odd_one, sums odd_one, o);
        lines = opening-Lines c.queue m;
        all_reporters = omega (arith, more of_reporter, sums of_reporter);
        all_patients = omega (arith, more of_patient, sums of_patient);
        all_sales_reps = omega (arith, more of_sales_rep, sums of_sales_rep);
      } in
    let (h, e, end) =
      day_ends fuel _ _ _ (opening c.queue m) few (ground (arith, c.count, b.count)) go in
    (record h { session_done = true }, rw (b.returned, c.returned, e) refl, Ended-Served xs h end)
