-- ===== src/Session/Rounds.antt =====
-- The rounds of the assistant of Assignment_06/session.c over the event queue.
use os_lab_spr.Base.{
  ℕ, ◌+◌, ◌*◌, ◌≤◌, ◌<◌, ◌≡◌, ◌≢◌, inl, inr, refl, sym, ap, true, false, not, some, ◌==◌, ltb,
  if◌then◌else◌, ℤ, pos, eqb_ℤ, arith, Bool-cases, bit, sum_of, sum_of-zero, zero-sum_of,
}
use os_lab_spr.Event.{Event, EventQ, empty_q, nextevent, addevent, delevent}
use os_lab_spr.Event.Order.{◌≼◌, late, ahead}
use os_lab_spr.Event.Heap.{IsHeap}
use os_lab_spr.Event.Queue.{delevent_removes, nextevent_least}
use os_lab_spr.Session.{max_reporters, Hall, arrive, is_doctor, closes, goes_on, doctor_at, requeue}
use os_lab_spr.Session.Lines.{Lines, waiting_in}
use os_lab_spr.Session.Day.{
  of_doctor, of_reporter, of_patient, of_sales_rep, odd_one, arrive-Arrived,
}

-- 1 for an event that comes before `x` and not after it.
ahead_of : Event → Event → ℕ
ahead_of x y = bit (ltb (late y + ahead x) (late x + ahead y))

-- 1 for an event of the doctor at another time than `t`.
elsewhere : ℤ → Event → ℕ
elsewhere t y = if is_doctor y.type then bit (not (eqb_ℤ y.time t)) else 0

ahead_of-least : (x y : Event) → x ≼ y → ahead_of x y ≡ 0
unfolding ahead_of
ahead_of-least x y h = ground arith

ahead_of-visitor :
    (d x : Event) (t : ℤ)
    → is_doctor d.type ≡ true
    → elsewhere t d ≡ 0
    → x.time ≡ t
    → is_doctor x.type ≡ false
    → odd_one x ≡ 0
    → ahead_of d x ≡ 1
unfolding ahead_of elsewhere late ahead
ahead_of-visitor d x t isd at same isv ok = ground (arith, isd, at, isv, ok)

elsewhere-no_doctor : (t : ℤ) (y : Event) → of_doctor y ≡ 0 → elsewhere t y ≡ 0
unfolding elsewhere
elsewhere-no_doctor t y h = ground (arith, h)

elsewhere-at : (t : ℤ) → elsewhere t (doctor_at t) ≡ 0
unfolding elsewhere
elsewhere-at t = ground arith

top_in : (e : EventQ) → 0 < e.n → nextevent e ≡ e.q 0
unfolding nextevent
top_in e h = ground arith

-- An event of the doctor that is queued for the time of the next arrival comes behind that arrival.
pub arrival_first :
    (e f : EventQ)
    → IsHeap f
    → 0 < e.n
    → f.n ≡ e.n + 1
    → ((w : Event → ℕ) → sum_of w f.n f.q ≡ sum_of w e.n e.q + w (doctor_at (nextevent e).time))
    → sum_of of_doctor e.n e.q ≡ 0
    → sum_of odd_one e.n e.q ≡ 0
    → is_doctor (nextevent f).type ≡ false
arrival_first e f heap some_left size sums no_doctor ok =
    elim (Bool-cases (is_doctor (nextevent f).type)) [
      | inr visitor ↦ visitor
      | inl doctor ↦
          let t = (nextevent e).time in
          let d = nextevent f in
          let x = e.q 0 in
          let at_f : d ≡ f.q 0 = top_in f (omega arith) in
          let at_e : nextevent e ≡ x = top_in e some_left in
          let none_else : sum_of (elsewhere t) e.n e.q ≡ 0 =
            sum_of-zero (elsewhere t) e.n e.q (λ i l.
              elsewhere-no_doctor t (e.q i) (zero-sum_of of_doctor e.n e.q i no_doctor l)) in
          let d_at : elsewhere t (f.q 0) ≡ 0 =
            zero-sum_of (elsewhere t) f.n f.q 0
              (omega (arith, sums (elsewhere t), none_else, elsewhere-at t)) (omega arith) in
          let least_f : sum_of (ahead_of d) f.n f.q ≡ 0 =
            sum_of-zero (ahead_of d) f.n f.q
              (λ i l. ahead_of-least d (f.q i) (nextevent_least f i heap l)) in
          let x_behind : ahead_of d x ≡ 0 =
            zero-sum_of (ahead_of d) e.n e.q 0 (omega (arith, sums (ahead_of d), least_f))
              some_left in
          let x_visits : of_doctor x ≡ 0 = zero-sum_of of_doctor e.n e.q 0 no_doctor some_left in
          let x_ahead : ahead_of d x ≡ 1 =
            ahead_of-visitor d x t doctor (rw at_f d_at) (ap (λ (y : Event). y.time) (sym at_e))
              (ground (arith, x_visits)) (zero-sum_of odd_one e.n e.q 0 ok some_left) in
          absurd (omega (arith, x_behind, x_ahead))
    ]

-- Between two rounds: one event of the doctor, at a time from 0 on, is in the queue, and as many visitors
-- of each kind have come or are still in the queue as the file has.
pub record Going (r p s : ℕ) (h : Hall) : Type 0 where
  pub heap : IsHeap h.queue
  pub room : h.queue.n ≤ h.queue.cap
  pub one : sum_of of_doctor h.queue.n h.queue.q ≡ 1
  pub sound : sum_of odd_one h.queue.n h.queue.q ≡ 0
  pub lines : Lines h
  pub all_reporters : h.reporters.token + sum_of of_reporter h.queue.n h.queue.q ≡ r
  pub all_patients : h.patients.token + sum_of of_patient h.queue.n h.queue.q ≡ p
  pub all_sales_reps : h.sales_reps.token + sum_of of_sales_rep h.queue.n h.queue.q ≡ s

-- The rounds left, at most.
abbrev pub rounds : Hall → ℕ
rounds h = 3 * h.queue.n + waiting_in h + of_doctor (nextevent h.queue)

module _ (r p s : ℕ) (h : Hall) (g : Going r p s h) where
  pub not_empty : 0 < h.queue.n
  not_empty = elim (Bool-cases (ltb 0 h.queue.n)) [
    | inl more ↦ ground arith
    | inr none_left ↦
        let none_in : sum_of of_doctor h.queue.n h.queue.q ≡ 0 =
          sum_of-zero of_doctor h.queue.n h.queue.q (λ i l. absurd (ground arith)) in
        absurd (omega (arith, g.one, none_in))
  ]

  -- An arrival.
  pub arrival :
      r ≤ max_reporters
      → is_doctor (nextevent h.queue).type ≡ false
      → (t : Hall) × (q : EventQ) × (arrive (nextevent h.queue).type h (nextevent h.queue) ≡ some t)
        × (delevent t.queue ≡ some q)
        × Going r p s (record t { queue = q })
        × (rounds (record t { queue = q }) < rounds h)
  arrival few e =
      let x = nextevent h.queue in
      let (b, sums) = delevent_removes h.queue g.heap not_empty in
      let (t, et, eq, k, tr, tp, ts, w) =
        arrive-Arrived x.type x.time x.duration h e (omega (arith, sums odd_one, g.sound))
          (omega (arith, sums of_reporter, g.all_reporters)) g.lines in
      (
        t,
        b.queue,
        et,
        rw eq b.returned,
        record {
          heap = b.ordered;
          room = omega (arith, b.count, b.room, g.room);
          one = ground (arith, sums of_doctor, g.one, e);
          sound = omega (arith, sums odd_one, g.sound);
          lines = record {
            reporters = k.reporters;
            patients = k.patients;
            sales_reps = k.sales_reps;
          };
          all_reporters = omega (arith, sums of_reporter, g.all_reporters, tr);
          all_patients = omega (arith, sums of_patient, g.all_patients, tp);
          all_sales_reps = omega (arith, sums of_sales_rep, g.all_sales_reps, ts);
        },
        ground (arith, b.count, w, not_empty),
      )

-- The end of the day: the queue is empty and nobody waits.
pub record Ended (r p s : ℕ) (h : Hall) : Type 0 where
  pub lines : Lines h
  pub none_queued : h.queue.n ≡ 0
  pub none_waiting : waiting_in h ≡ 0
  pub all_reporters : h.reporters.token ≡ r
  pub all_patients : h.patients.token ≡ p
  pub all_sales_reps : h.sales_reps.token ≡ s

module _ (h : Hall) (t : ℤ) where
  pub requeue-later :
      (q : EventQ)
      → (t ≢ pos 0)
      → addevent h.queue (doctor_at t) ≡ some q
      → requeue (h, t) ≡ some (goes_on (record h { queue = q }))
  unfolding requeue
  requeue-later q ne e = let off : eqb_ℤ t (pos 0) ≡ false = ground (arith, ne) in rw (off, e) refl

  pub requeue-close : (t ≡ pos 0) → h.queue.n ≡ 0 → requeue (h, t) ≡ some (closes h)
  unfolding requeue empty_q
  requeue-close e n =
      let at : eqb_ℤ t (pos 0) ≡ true = ground arith in
      let none_left : (h.queue.n == 0) ≡ true = ground arith in rw (at, none_left) refl

  pub requeue-idle :
      (q : EventQ)
      → (t ≡ pos 0)
      → 0 < h.queue.n
      → addevent h.queue (doctor_at (nextevent h.queue).time) ≡ some q
      → requeue (h, t) ≡ some (goes_on (record h { queue = q }))
  unfolding requeue empty_q
  requeue-idle q e n a =
      let at : eqb_ℤ t (pos 0) ≡ true = ground arith in
      let more : (h.queue.n == 0) ≡ false = ground arith in rw (at, more, a) refl
