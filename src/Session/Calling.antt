-- ===== src/Session/Calling.antt =====
-- What the doctor's event leads to in Assignment_06/session.c.
use os_lab_spr.Base.{
  ℕ, ◌+◌, ◌<◌, ◌≡◌, ◌⊎◌, inl, inr, refl, ap, ◌∙◌, true, Option, some, ltb, ℤ, pos, ◌≤ℤ◌, ◌<ℤ◌,
  arith, Bool-cases, sum_of, sum_of-zero,
}
use os_lab_spr.Event.{Event, EventQ, nextevent, addevent, delevent}
use os_lab_spr.Event.Order.{◌≼◌, late, ahead}
use os_lab_spr.Event.Heap.{IsHeap}
use os_lab_spr.Event.Queue.{addevent_adds, delevent_removes, delevent-nextevent}
use os_lab_spr.Session.{
  Hall, is_doctor, let_in, check_done, Course, closes, goes_on, doctor_at, requeue, call_next,
}
use os_lab_spr.Session.Lines.{Lines, waiting_in, let_in-LetIn, check_done-Lines}
use os_lab_spr.Session.Day.{of_doctor, of_reporter, of_patient, of_sales_rep, odd_one}
use os_lab_spr.Session.Rounds.{
  Going, Ended, rounds, not_empty, arrival_first, requeue-later, requeue-close, requeue-idle,
}

-- What the doctor's event leads to.
abbrev pub Called : ℕ → ℕ → ℕ → Hall → Option Course → Type 0
Called r p s h c =
    (t : Hall) × (((c ≡ some (closes t)) × Ended r p s t)
      ⊎ ((c ≡ some (goes_on t)) × Going r p s t × (rounds t < rounds h)))

not_early : (x : Event) → is_doctor x.type ≡ true → odd_one x ≡ 0 → pos 0 ≤ℤ x.time
not_early x e h = ground (arith, e, h)

order_of_time : (x y : Event) → x ≼ y → pos 0 ≤ℤ x.time → pos 0 ≤ℤ y.time
unfolding late ahead
order_of_time x y h l = ground arith

doctor_sound : (t : ℤ) → pos 0 ≤ℤ t → odd_one (doctor_at t) ≡ 0
doctor_sound t h = ground arith

not_visitor :
    (x : Event) → is_doctor x.type ≡ true → of_reporter x + of_patient x + of_sales_rep x ≡ 0
not_visitor x e = ground (arith, e)

of_doctor-one : (x : Event) → is_doctor x.type ≡ true → of_doctor x ≡ 1
of_doctor-one x e = rw e refl

-- The queue without its first event.
record Rest (h : Hall) (e : EventQ) : Type 0 where
  heap : IsHeap e
  size : e.n + 1 ≡ h.queue.n
  room : e.cap ≡ h.queue.cap
  sums : (w : Event → ℕ) → sum_of w e.n e.q + w (nextevent h.queue) ≡ sum_of w h.queue.n h.queue.q

-- The lines where the doctor's event was taken.
record Same (h t : Hall) : Type 0 where
  lines : Lines t
  reporters : t.reporters.token ≡ h.reporters.token
  patients : t.patients.token ≡ h.patients.token
  sales_reps : t.sales_reps.token ≡ h.sales_reps.token

module _ (r p s : ℕ) (h : Hall) (g : Going r p s h)
    (doc : is_doctor (nextevent h.queue).type ≡ true) where
  queued_again :
      (e : EventQ) (t : Hall) (time : ℤ)
      → Rest h e
      → Same h t
      → pos 0 ≤ℤ time
      → (f : EventQ) × (addevent e (doctor_at time) ≡ some f)
        × (f.n ≡ e.n + 1)
        × IsHeap f
        × ((w : Event → ℕ) → sum_of w f.n f.q ≡ sum_of w e.n e.q + w (doctor_at time))
        × Going r p s (record t { queue = f })
  queued_again e t time d k l =
      let (b, sums) =
        addevent_adds e (doctor_at time) d.heap (omega (arith, d.size, d.room, g.room)) in
      let one = of_doctor-one (nextevent h.queue) doc in
      let none_of = not_visitor (nextevent h.queue) doc in
      let k1 = k.lines in
      (
        b.queue,
        b.returned,
        b.count,
        b.ordered,
        sums,
        record {
          heap = b.ordered;
          room = omega (arith, b.count, b.room, d.size, d.room, g.room);
          one = omega (arith, sums of_doctor, d.sums of_doctor, g.one, one);
          sound = omega (arith, sums odd_one, d.sums odd_one, g.sound, doctor_sound time l);
          lines = record {
            reporters = k1.reporters;
            patients = k1.patients;
            sales_reps = k1.sales_reps;
          };
          all_reporters =
              omega (
                arith,
                sums of_reporter,
                d.sums of_reporter,
                g.all_reporters,
                none_of,
                k.reporters,
              );
          all_patients =
              omega
                (arith, sums of_patient, d.sums of_patient, g.all_patients, none_of, k.patients);
          all_sales_reps = omega (
            arith,
            sums of_sales_rep,
            d.sums of_sales_rep,
            g.all_sales_reps,
            none_of,
            k.sales_reps,
          );
        },
      )

  -- A visitor was let in, who is done at `time`.
  Called-later :
      (e : EventQ) (t : Hall) (time : ℤ)
      → t.queue ≡ e
      → Rest h e
      → Same h t
      → waiting_in h ≡ waiting_in t + 1
      → pos 0 <ℤ time
      → Called r p s h (requeue (t, time))
  Called-later e t time q d k w l =
      let (f, ef, size, heap, sums, go) = queued_again e t time d k (omega (arith, l)) in
      (
        record t { queue = f },
        inr (
          requeue-later t time f (λ z. absurd (ground arith)) (rw q ef),
          go,
          ground (arith, size, d.size, w, of_doctor-one (nextevent h.queue) doc),
        ),
      )

  -- Nobody waits and nobody is to come: the session ends.
  Called-close :
      (e : EventQ) (t : Hall) (time : ℤ)
      → t.queue ≡ e
      → Rest h e
      → Same h t
      → waiting_in t ≡ 0
      → e.n ≡ 0
      → (time ≡ pos 0)
      → Called r p s h (requeue (t, time))
  Called-close e t time q d k w empty z =
      let none_of = not_visitor (nextevent h.queue) doc in
      let gone : (v : Event → ℕ) → sum_of v e.n e.q ≡ 0 =
        λ v. sum_of-zero v e.n e.q (λ i l. absurd (omega (arith, l, empty))) in
      let taken : (v : Event → ℕ) → v (nextevent h.queue) ≡ sum_of v h.queue.n h.queue.q =
        λ v. omega (arith, gone v, d.sums v) in
      (
        t,
        inl (
          requeue-close t time z (rw q empty),
          record {
            lines = k.lines;
            none_queued = rw q empty;
            none_waiting = w;
            all_reporters = omega (arith, taken of_reporter, g.all_reporters, none_of, k.reporters);
            all_patients = omega (arith, taken of_patient, g.all_patients, none_of, k.patients);
            all_sales_reps =
                omega (arith, taken of_sales_rep, g.all_sales_reps, none_of, k.sales_reps);
          },
        ),
      )

  -- Nobody waits: the doctor's event waits for the next arrival.
  Called-idle :
      (e : EventQ) (t : Hall) (time : ℤ)
      → t.queue ≡ e
      → Rest h e
      → Same h t
      → waiting_in t ≡ 0
      → waiting_in h ≡ 0
      → delevent h.queue ≡ some e
      → 0 < e.n
      → (time ≡ pos 0)
      → Called r p s h (requeue (t, time))
  Called-idle e t time q d k w wh de more z =
      let one = of_doctor-one (nextevent h.queue) doc in
      let now = not_early (nextevent h.queue) doc (omega (arith, d.sums odd_one, g.sound)) in
      let next =
        order_of_time (nextevent h.queue) (nextevent e)
          (delevent-nextevent h.queue e g.heap de more) now in
      let (f, ef, size, heap, sums, go) = queued_again e t (nextevent e).time d k next in
      let visitor =
        arrival_first e f heap more size sums (omega (arith, d.sums of_doctor, g.one, one))
          (omega (arith, d.sums odd_one, g.sound)) in
      (
        record t { queue = f },
        inr (
          requeue-idle t time f z (rw q more) (rw q ef),
          go,
          ground (arith, size, d.size, w, wh, one, visitor),
        ),
      )

  pub called : Called r p s h (call_next h)
  unfolding call_next check_done
  called =
      let (b, sums) = delevent_removes h.queue g.heap (not_empty r p s h g) in
      let d : Rest h b.queue = record {
        heap = b.ordered;
        size = omega (arith, b.count, not_empty r p s h g);
        room = b.room;
        sums = sums;
      } in
      let now = not_early (nextevent h.queue) doc (omega (arith, sums odd_one, g.sound)) in
      let h0 = record h { queue = b.queue; current_time = (nextevent h.queue).time } in
      let k0 : Lines h0 = record {
        reporters = g.lines.reporters;
        patients = g.lines.patients;
        sales_reps = g.lines.sales_reps;
      } in
      let h1 = check_done h0 in
      let (k, q, tr, tp, ts, how) = let_in-LetIn h1 now (check_done-Lines h0 k0) in
      let (t, time) = let_in h1 in
      let same : Same h t = record { lines = k; reporters = tr; patients = tp; sales_reps = ts } in
      rw b.returned (elim how [
        | inl (w, l) ↦ Called-later b.queue t time q d same w l
        | inr (w, e, z) ↦ elim (Bool-cases (ltb 0 b.queue.n)) [
          | inl more ↦
              Called-idle b.queue t time q d same (ap waiting_in e ∙ w) w b.returned (ground arith)
                z
          | inr less ↦ Called-close b.queue t time q d same (ap waiting_in e ∙ w) (ground arith) z
        ]
      ])
