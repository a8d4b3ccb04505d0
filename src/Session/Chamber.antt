-- ===== src/Session/Chamber.antt =====
-- Assignment_06/session.c: the threads of the assistant, the doctor and the visitors, and the flags by
-- which they hand the turn on. The lines of the three kinds of visitors are numbered, and visitor `j` of a
-- line has the token j + 1. A wait whose flag is set and signalled under the mutex of the wait is blocked
-- until the flag is set; the wait for the own token is not of this kind, and sleeps until it is woken.
pub mod Stages
pub mod Places
pub mod Visit
pub mod Called
pub mod Served
pub mod Hangs
pub mod Lost
mod Tests
use os_lab_spr.Base.{
  ℕ, zero, suc, ◌+◌, ◌≡◌, Bool, true, false, ◌&&◌, List, [], ◌∷◌, ◌==◌, if◌then◌else◌, store, ℤ,
  pos, eqb_ℤ,
}

-- `doctor`, before each of its statements.
pub data Doctor : Type 0 where
  resting checking opening meeting completing left : Doctor

-- `reporter`, `patient` and `sales_rep`: before the test of the token, before it sleeps, asleep, before the
-- wait for the door, inside, and past the end.
pub data Visitor : Type 0 where
  coming about asleep admitted inside gone : Visitor

-- A visitor of a line who is let in, with `temp.time`: the time at which the visit would be done.
pub record Summons : Type 0 where
  pub line : ℕ
  pub time : ℤ

-- `assistant`, with the visitors that it still lets in: before it frees the doctor, before it counts,
-- before it signals, at its wait for the doctor; the same for the doctor's leave; in the join, and past it.
pub data Desk : Type 0 where
  calling : List Summons → Desk
  counting : Summons → List Summons → Desk
  signalling : Summons → List Summons → Desk
  finishing : List Summons → Desk
  dismissing joining ended : Desk

pub record Clinic : Type 0 where
  pub doctor_free : Bool
  pub doctor_enter : Bool
  pub doctor_met : Bool
  pub doctor_done : Bool
  pub session_done : Bool
  pub current : ℕ → ℕ
  pub desk : Desk
  pub doctor : Doctor
  pub visitor : ℕ → ℕ → Visitor

abbrev pub put_visitor : (ℕ → ℕ → Visitor) → ℕ → ℕ → Visitor → ℕ → ℕ → Visitor
put_visitor v k j p k' j' = if k == k' && j == j' then p else v k' j'

abbrev pub wake : Visitor → Visitor
wake asleep = coming
wake p = p

-- The assistant; `full` is whether the session ends by its quotas, and `woken` the visitor of the line that
-- its signal wakes, if it sleeps. Where `temp.time` is 0 it does not wait for the doctor, and goes on with
-- the next event or leaves the loop.
abbrev pub assistant : Bool → ℕ → Desk → Clinic → Clinic
assistant full woken (calling []) s =
    if full
    then record s { session_done = true; doctor_free = true; desk = dismissing }
    else record s { doctor_free = false; session_done = true; desk = joining }
assistant full woken (calling (k ∷ calls)) s = record s {
  doctor_free = true;
  desk = counting k calls;
}
assistant full woken (counting k calls) s = record s {
  current = store s.current k.line (s.current k.line + 1);
  desk = signalling k calls;
}
assistant full woken (signalling k calls) s = record s {
  visitor = put_visitor s.visitor k.line woken (wake (s.visitor k.line woken));
  desk = if eqb_ℤ k.time (pos 0) then calling calls else finishing calls;
}
assistant full woken (finishing calls) s =
    if s.doctor_done then record s { doctor_done = false; desk = calling calls } else s
assistant full woken dismissing s =
    if s.doctor_done then record s { doctor_done = false; desk = joining } else s
assistant full woken joining s = s
assistant full woken ended s = s

abbrev pub has_left : Doctor → Bool
has_left left = true
has_left _ = false

-- `pthread_join(doctorThread, NULL)`
abbrev pub join : Desk → Clinic → Clinic
join joining s = if has_left s.doctor then record s { desk = ended } else s
join _ s = s

abbrev pub doctor_step : Doctor → Clinic → Clinic
doctor_step resting s =
    if s.doctor_free then record s { doctor_free = false; doctor = checking } else s
doctor_step checking s =
    if s.session_done
    then record s { doctor_done = true; doctor = left }
    else record s { doctor = opening }
doctor_step opening s = record s { doctor_enter = true; doctor = meeting }
doctor_step meeting s =
    if s.doctor_met then record s { doctor_met = false; doctor = completing } else s
doctor_step completing s = record s { doctor_done = true; doctor = resting }
doctor_step left s = s

abbrev pub moves : ℕ → ℕ → Visitor → Clinic → Clinic
moves k j p s = record s { visitor = put_visitor s.visitor k j p }

-- Visitor `j` of line `k`.
abbrev pub visitor_step : ℕ → ℕ → Visitor → Clinic → Clinic
visitor_step k j coming s = if j + 1 == s.current k then moves k j admitted s else moves k j about s
visitor_step k j about s = moves k j asleep s
visitor_step k j asleep s = s
visitor_step k j admitted s =
    if s.doctor_enter then moves k j inside (record s { doctor_enter = false }) else s
visitor_step k j inside s = moves k j gone (record s { doctor_met = true })
visitor_step k j gone s = s

pub data Turn : Type 0 where
  of_assistant : ℕ → Turn
  of_join : Turn
  of_doctor : Turn
  of_visitor : ℕ → ℕ → Turn

unfoldable pub turn : Bool → Clinic → Turn → Clinic
turn full s (of_assistant woken) = assistant full woken s.desk s
turn full s of_join = join s.desk s
turn full s of_doctor = doctor_step s.doctor s
turn full s (of_visitor k j) = visitor_step k j (s.visitor k j) s

unfoldable pub run : Bool → Clinic → List Turn → Clinic
unfolding turn
run full s [] = s
run full s (x ∷ xs) = run full (turn full s x) xs

abbrev pub opens : List Summons → Clinic
opens calls = record {
  doctor_free = false;
  doctor_enter = false;
  doctor_met = false;
  doctor_done = false;
  session_done = false;
  current = λ _. 0;
  desk = calling calls;
  doctor = resting;
  visitor = λ _ _. coming;
}

-- No visit would be done at time 0.
abbrev pub AllTimed : List Summons → Type 0
AllTimed [] = Unit {0}
AllTimed (k ∷ ks) = (eqb_ℤ k.time (pos 0) ≡ false) × AllTimed ks
