-- ===== src/Session.antt =====
-- Assignment_06/session.c: the assistant of the doctor, who takes the arrivals from the event queue and
-- lets the visitors in one by one, and the printing of times. A visitor who is let in is
-- taken to finish the visit here; Chamber has the threads of the doctor and of the visitors.
pub mod Time
pub mod Lines
pub mod Day
pub mod Rounds
pub mod Calling
pub mod Closing
pub mod Visits
pub mod Chamber
mod Tests
use os_lab_spr.Base.{
  ℕ, zero, suc, ◌+◌, ◌-◌, ◌*◌, ◌/◌, ◌%◌, Bool, true, false, not, ◌&&◌, ◌||◌, Option, none, some,
  ◌==◌, leb, ltb, if◌then◌else◌, ℤ, pos, negsuc, ltb_ℤ, eqb_ℤ, ◌+ℤ◌, store, ◌>>=◌, List,
}
use os_lab_spr.Event.{Kind, Event, EventQ, empty_q, nextevent, addevent, delevent, init_eq}

abbrev pub max_reporters : ℕ
max_reporters = 250

abbrev pub max_patients : ℕ
max_patients = 25

abbrev pub max_sales_reps : ℕ
max_sales_reps = 3

pub record Waiting : Type 0 where
  pub time : ℤ
  pub duration : ℤ

-- The globals for one kind of visitors: `waiting_…`, `current_…`, `num_…` and `token_…`.
pub record Line : Type 0 where
  pub waiting : ℕ → Waiting
  pub current : ℕ
  pub num : ℕ
  pub token : ℕ

pub record Hall : Type 0 where
  pub queue : EventQ
  pub current_time : ℤ
  pub reporters : Line
  pub patients : Line
  pub sales_reps : Line
  pub session_done : Bool
  pub doctor_firstcase : Bool

-- A visitor who stays, and one who leaves.
abbrev pub joins : Line → Event → Line
joins l x = record {
  waiting = store l.waiting (l.token + 1) (record { time = x.time; duration = x.duration });
  current = l.current;
  num = l.num + 1;
  token = l.token + 1;
}

abbrev pub leaves : Line → Line
leaves l = record l { token = l.token + 1 }

-- `none`: the store is past the end of `waiting_reporters`.
unfoldable pub reporter_arrives : Bool → Line → Event → Option Line
reporter_arrives session_done l x =
    if session_done
    then some (leaves l)
    else if ltb max_reporters (l.token + 1)
    then none
    else some (joins l x)

-- The same for patients and sales representatives, who have a quota.
unfoldable pub quota_arrives : ℕ → Bool → Line → Event → Line
quota_arrives quota session_done l x =
    if session_done then leaves l else if ltb quota (l.token + 1) then leaves l else joins l x

-- The body of the inner loop up to `delevent`, by the type of the event.
unfoldable pub arrive : Kind → Hall → Event → Option Hall
unfolding reporter_arrives quota_arrives
arrive Kind.reporter h x = do
  l ← reporter_arrives h.session_done h.reporters x
  some (record h { current_time = x.time; reporters = l })
arrive Kind.patient h x = some (record h {
  current_time = x.time;
  patients = quota_arrives max_patients h.session_done h.patients x;
})
arrive Kind.sales_rep h x = some (record h {
  current_time = x.time;
  sales_reps = quota_arrives max_sales_reps h.session_done h.sales_reps x;
})
arrive _ h x = some (record h { current_time = x.time })

abbrev pub is_doctor : Kind → Bool
is_doctor Kind.doctor = true
is_doctor _ = false

abbrev pub advance : Line → Line
advance l = record l { num = l.num - 1; current = l.current + 1 }

-- The time at which the first of the line would be done; the sum is taken to fit an `int`.
abbrev pub until : ℤ → Line → ℤ
until now l = now +ℤ (l.waiting (l.current + 1)).duration

-- The choice of the visitor, and `temp.time` behind it.
unfoldable pub let_in : Hall → Hall × ℤ
let_in h =
    if ltb 0 h.reporters.num
    then (record h { reporters = advance h.reporters }, until h.current_time h.reporters)
    else if ltb 0 h.patients.num
    then (record h { patients = advance h.patients }, until h.current_time h.patients)
    else if ltb 0 h.sales_reps.num
    then (record h { sales_reps = advance h.sales_reps }, until h.current_time h.sales_reps)
    else (h, pos 0)

-- The test whether the session is done, and the doctor's leave.
unfoldable pub check_done : Hall → Hall
check_done h =
    let done =
      (h.reporters.num == 0)
      && leb max_patients h.patients.current
      && leb max_sales_reps h.sales_reps.current in
    let now_done = h.session_done || done in
    record h { session_done = now_done; doctor_firstcase = h.doctor_firstcase || now_done }

-- Behind the outer loop, and on with it.
pub data Course : Type 0 where
  closes : Hall → Course
  goes_on : Hall → Course

abbrev pub doctor_at : ℤ → Event
doctor_at t = record { type = Kind.doctor; time = t; duration = pos 0 }

-- The rest of the outer loop for the choice, on the queue without the doctor's event.
unfoldable pub requeue : Hall × ℤ → Option Course
requeue (h, t) =
    if eqb_ℤ t (pos 0)
    then (if empty_q h.queue
        then some (closes h)
        else (addevent h.queue (doctor_at (nextevent h.queue).time) >>= λ q.
            some (goes_on (record h { queue = q }))))
    else (addevent h.queue (doctor_at t) >>= λ q. some (goes_on (record h { queue = q })))

-- The outer loop behind the inner one, on an event of the doctor.
unfoldable pub call_next : Hall → Option Course
unfolding check_done let_in requeue
call_next h = do
  q ← delevent h.queue
  requeue (let_in (check_done (record h { queue = q; current_time = (nextevent h.queue).time })))

-- The two loops of `assistant`: an arrival, or the doctor. `none`: the fuel ran out, or a store is
-- past the end of an array.
pub day : ℕ → Hall → Option Hall
day zero h = none
day (suc fuel) h =
    if empty_q h.queue
    then some h
    else if is_doctor (nextevent h.queue).type
    then (call_next h >>= λ c. elim c [ closes t ↦ some t | goes_on t ↦ day fuel t ])
    else (do
      t ← arrive (nextevent h.queue).type h (nextevent h.queue)
      q ← delevent t.queue
      day fuel (record t { queue = q }))

-- The globals before `main`; `m` is what the arrays hold.
abbrev pub no_line : (ℕ → Waiting) → Line
no_line m = record { waiting = m; current = 0; num = 0; token = 0 }

-- `main` and `assistant`, on the events of the file; behind the loop the session is done.
unfoldable pub session : ℕ → (ℕ → Event) → (ℕ → Waiting) → List Event → Option Hall
unfolding day
session fuel fresh m events = do
  e ← init_eq fresh events
  q ← addevent e (doctor_at (pos 0))
  h ← day fuel (record {
    queue = q;
    current_time = pos 0;
    reporters = no_line m;
    patients = no_line m;
    sales_reps = no_line m;
    session_done = false;
    doctor_firstcase = false;
  })
  some (record h { session_done = true })

-- `print_time`: hours, minutes and whether it is "pm"; `%` and `/` round towards 0.
pub record Clock : Type 0 where
  pub hours : ℤ
  pub minutes : ℤ
  pub pm : Bool

abbrev pub rem : ℤ → ℕ → ℤ
rem (pos a) b = pos (a % b)
rem (negsuc a) b = let r = suc a % b in if r == 0 then pos 0 else negsuc (r - 1)

abbrev pub quot : ℤ → ℕ → ℤ
quot (pos a) b = pos (a / b)
quot (negsuc a) b = let r = suc a / b in if r == 0 then pos 0 else negsuc (r - 1)

-- The adjustment to 12 hours.
abbrev pub twelve : ℤ → ℤ
twelve h = if eqb_ℤ h (pos 0) then pos 12 else if ltb_ℤ (pos 12) h then h +ℤ negsuc 11 else h

unfoldable pub print_time : ℤ → Clock
print_time time =
    let t = rem (time +ℤ pos 1980) 1440 in
    let h = quot t 60 in
    record { hours = twelve h; minutes = rem t 60; pm = not (ltb_ℤ h (pos 12)) }
