-- ===== src/Session/Chamber/Stages.antt =====
-- Assignment_06/session.c: how the flags and the doctor stand during one visit.
use mathlib.Core.Bool.{false≢true}
use os_lab_spr.Base.{◌≡◌, refl, sym, ap, ◌∙◌, Bool, true, false, arith}
use os_lab_spr.Session.Chamber.{
  Doctor, resting, checking, opening, meeting, completing, left, Visitor, coming, about, asleep,
  admitted, inside, gone, Clinic, wake, doctor_step,
}

-- No visit, and the stages of a visit: the doctor is freed, sees that the session goes on, is about to
-- open, the door is open, the visitor is inside, has told the doctor to be done, the doctor is done with
-- the visitor, and has told the assistant.
pub data Stage : Type 0 where
  idle freed checked opened unlocked within met seen finished : Stage

abbrev doctor_of : Stage → Doctor
doctor_of idle = resting
doctor_of freed = resting
doctor_of checked = checking
doctor_of opened = opening
doctor_of unlocked = meeting
doctor_of within = meeting
doctor_of met = meeting
doctor_of seen = completing
doctor_of finished = resting

abbrev free_of : Stage → Bool
free_of freed = true
free_of _ = false

abbrev pub enter_of : Stage → Bool
enter_of unlocked = true
enter_of _ = false

abbrev met_of : Stage → Bool
met_of met = true
met_of _ = false

abbrev pub done_of : Stage → Bool
done_of finished = true
done_of _ = false

-- The doctor and the flags as the stage has them.
abbrev pub at : Stage → Clinic → Clinic
at g s = record s {
  doctor_free = free_of g;
  doctor_enter = enter_of g;
  doctor_met = met_of g;
  doctor_done = done_of g;
  session_done = false;
  doctor = doctor_of g;
}

-- What the doctor's step makes of the stage.
abbrev pub next : Stage → Stage
next freed = checked
next checked = opened
next opened = unlocked
next met = seen
next seen = finished
next g = g

pub doctor-at : (g : Stage) (s : Clinic) → s ≡ at g s → doctor_step s.doctor s ≡ at (next g) s
doctor-at idle s e = ap (λ t. doctor_step t.doctor t) e
doctor-at freed s e = ap (λ t. doctor_step t.doctor t) e
doctor-at checked s e = ap (λ t. doctor_step t.doctor t) e
doctor-at opened s e = ap (λ t. doctor_step t.doctor t) e
doctor-at unlocked s e = ap (λ t. doctor_step t.doctor t) e
doctor-at within s e = ap (λ t. doctor_step t.doctor t) e
doctor-at met s e = ap (λ t. doctor_step t.doctor t) e
doctor-at seen s e = ap (λ t. doctor_step t.doctor t) e
doctor-at finished s e = ap (λ t. doctor_step t.doctor t) e

abbrev pub is_gone : Visitor → Bool
is_gone gone = true
is_gone _ = false

abbrev pub is_inside : Visitor → Bool
is_inside inside = true
is_inside _ = false

-- Outside, and not yet let in.
abbrev pub outside : Visitor → Bool
outside coming = true
outside about = true
outside asleep = true
outside _ = false

-- Outside, or let in.
abbrev pub before : Visitor → Bool
before admitted = true
before p = outside p

-- Where the visitor may be at each stage.
abbrev pub suits : Stage → Visitor → Bool
suits idle p = false
suits freed p = before p
suits checked p = before p
suits opened p = before p
suits unlocked p = before p
suits within p = is_inside p
suits met p = is_gone p
suits seen p = is_gone p
suits finished p = is_gone p

pub suits-next : (g : Stage) (p : Visitor) → suits g p ≡ true → suits (next g) p ≡ true
suits-next idle p e = e
suits-next freed p e = e
suits-next checked p e = e
suits-next opened p e = e
suits-next unlocked p e = e
suits-next within p e = e
suits-next met p e = e
suits-next seen p e = e
suits-next finished p e = e

outside_apart : (p : Visitor) → outside p ≡ true → (is_inside p ≡ false) × (is_gone p ≡ false)
outside_apart coming o = (refl, refl)
outside_apart about o = (refl, refl)
outside_apart asleep o = (refl, refl)
outside_apart admitted o = (refl, refl)
outside_apart inside o = absurd (false≢true o)
outside_apart gone o = absurd (false≢true o)

-- A stage that suits one outside suits all outside, and those let in.
pub suits-before :
    (g : Stage) (p q : Visitor)
    → outside p ≡ true
    → before q ≡ true
    → suits g p ≡ true
    → suits g q ≡ true
suits-before idle p q o b e = absurd (false≢true e)
suits-before freed p q o b e = b
suits-before checked p q o b e = b
suits-before opened p q o b e = b
suits-before unlocked p q o b e = b
suits-before within p q o b e = absurd (false≢true (sym (outside_apart p o).0 ∙ e))
suits-before met p q o b e = absurd (false≢true (sym (outside_apart p o).1 ∙ e))
suits-before seen p q o b e = absurd (false≢true (sym (outside_apart p o).1 ∙ e))
suits-before finished p q o b e = absurd (false≢true (sym (outside_apart p o).1 ∙ e))

pub outside-before : (p : Visitor) → outside p ≡ true → before p ≡ true
outside-before coming o = refl
outside-before about o = refl
outside-before asleep o = refl
outside-before admitted o = refl
outside-before inside o = o
outside-before gone o = o

pub doctor-desk : (d : Doctor) (s : Clinic) → (doctor_step d s).desk ≡ s.desk
doctor-desk resting s = ground arith
doctor-desk checking s = ground arith
doctor-desk opening s = refl
doctor-desk meeting s = ground arith
doctor-desk completing s = refl
doctor-desk left s = refl

pub suits-wake : (g : Stage) (p : Visitor) → suits g p ≡ true → suits g (wake p) ≡ true
suits-wake g asleep e = suits-before g asleep coming refl refl e
suits-wake g coming e = e
suits-wake g about e = e
suits-wake g admitted e = e
suits-wake g inside e = e
suits-wake g gone e = e

-- Each flag is set at one stage alone, and the visitor is inside at one.
pub done_at : (g : Stage) → done_of g ≡ true → g ≡ finished
done_at finished e = refl
done_at g e = absurd (false≢true e)

pub enter_at : (g : Stage) → enter_of g ≡ true → g ≡ unlocked
enter_at unlocked e = refl
enter_at g e = absurd (false≢true e)

pub inside_at : (g : Stage) → suits g inside ≡ true → g ≡ within
inside_at within e = refl
inside_at g e = absurd (false≢true e)
