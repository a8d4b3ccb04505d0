-- ===== src/Session/Closing.antt =====
-- The end of the day of Assignment_06/session.c: the assistant lets in everyone who was taken.
use os_lab_spr.Base.{
  ℕ, zero, suc, ◌≤◌, ◌<◌, ◌≡◌, inl, inr, refl, ◌∙◌, true, false, some, ◌==◌, arith, Bool-cases,
}
use os_lab_spr.Event.{EventQ, empty_q, nextevent, delevent}
use os_lab_spr.Session.{max_reporters, Hall, arrive, is_doctor, closes, goes_on, call_next, day}
use os_lab_spr.Session.Rounds.{Going, Ended, rounds, not_empty, arrival}
use os_lab_spr.Session.Calling.{called}

module _ (fuel : ℕ) (h : Hall) where
  day-arrival :
      (t : Hall) (q : EventQ)
      → (h.queue.n == 0) ≡ false
      → is_doctor (nextevent h.queue).type ≡ false
      → arrive (nextevent h.queue).type h (nextevent h.queue) ≡ some t
      → delevent t.queue ≡ some q
      → day (suc fuel) h ≡ day fuel (record t { queue = q })
  unfolding day empty_q
  day-arrival t q more visitor a d = rw (more, visitor, a, d) refl

  day-closes :
      (t : Hall)
      → (h.queue.n == 0) ≡ false
      → is_doctor (nextevent h.queue).type ≡ true
      → call_next h ≡ some (closes t)
      → day (suc fuel) h ≡ some t
  unfolding day empty_q
  day-closes t more doctor c = rw (more, doctor, c) refl

  day-goes_on :
      (t : Hall)
      → (h.queue.n == 0) ≡ false
      → is_doctor (nextevent h.queue).type ≡ true
      → call_next h ≡ some (goes_on t)
      → day (suc fuel) h ≡ day fuel t
  unfolding day empty_q
  day-goes_on t more doctor c = rw (more, doctor, c) refl

-- Every day ends, with fuel for the rounds left.
pub day_ends :
    (fuel r p s : ℕ) (h : Hall)
    → r ≤ max_reporters
    → rounds h < fuel
    → Going r p s h
    → (t : Hall) × (day fuel h ≡ some t) × Ended r p s t
day_ends zero r p s h few l g = absurd (omega arith)
day_ends (suc fuel) r p s h few l g =
    let more : (h.queue.n == 0) ≡ false = ground (arith, not_empty r p s h g) in
    elim (Bool-cases (is_doctor (nextevent h.queue).type)) [
      | inr visitor ↦
          let (t, q, et, eq, go, less) = arrival r p s h g few visitor in
          let (u, eu, end) =
            day_ends fuel r p s (record t { queue = q }) few (omega (arith, less)) go in
          (u, day-arrival fuel h t q more visitor et eq ∙ eu, end)
      | inl doctor ↦
          let (t, how) = called r p s h g doctor in
          elim how [
            | inl (e, end) ↦ (t, day-closes fuel h t more doctor e, end)
            | inr (e, go, less) ↦
                let (u, eu, end) = day_ends fuel r p s t few (omega (arith, less)) go in
                (u, day-goes_on fuel h t more doctor e ∙ eu, end)
          ]
    ]
