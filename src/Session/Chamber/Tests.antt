-- ===== src/Session/Chamber/Tests.antt =====
-- Two visitors of different lines in Assignment_06/session.c.
use os_lab_spr.Base.{ℕ, ◌≡◌, refl, true, false, List, [], ◌∷◌, ◌++◌, ltb, pos}
use os_lab_spr.Session.Chamber.{
  Summons, calling, finishing, joining, ended, has_left, Turn, of_assistant, of_join, of_doctor,
  of_visitor, run, opens,
}
use os_lab_spr.Session.Chamber.Hangs.{has_ended, never_ends}
use os_lab_spr.Session.Chamber.Lost.{wake_up_lost}
use os_lab_spr.Session.Chamber.Served.{visits_in_order}
use os_lab_spr.Session.Chamber.Stages.{is_gone}
use os_lab_spr.Session.Chamber.Visit.{times}

abbrev first : Summons
first = record { line = 1; time = pos 5 }

abbrev second : Summons
second = record { line = 0; time = pos 9 }

abbrev two : List Summons
two = first ∷ second ∷ []

-- The first visitor of line 1 sleeps, is let in and goes.
abbrev visit : List Turn
visit =
    of_visitor 1 0
    ∷ of_visitor 1 0
    ∷ of_assistant 0
    ∷ of_assistant 0
    ∷ of_assistant 0
    ∷ of_doctor
    ∷ of_visitor 1 0
    ∷ of_doctor
    ∷ of_doctor
    ∷ of_visitor 1 0
    ∷ of_visitor 1 0
    ∷ of_doctor
    ∷ of_doctor
    ∷ of_assistant 0
    ∷ []

visit_done : (run false (opens two) visit).desk ≡ calling (second ∷ [])
unfolding run
visit_done = refl

dismissed :
    (run true
      (opens [])
      (of_assistant 0 ∷ of_doctor ∷ of_doctor ∷ of_assistant 0 ∷ of_join ∷ [])).desk
    ≡ ended
unfolding run
dismissed = refl

joins : (run false (opens []) (of_assistant 0 ∷ of_doctor ∷ of_join ∷ [])).desk ≡ joining
unfolding run
joins = refl

never_ends_example :
    (has_left (run false (opens two) visit).doctor ≡ false)
    × (has_ended (run false (opens two) visit).desk ≡ false)
never_ends_example = never_ends two visit (refl, (refl, tt))

wake_up_lost_example :
    (xs : List Turn) × ((ys : List Turn)
      → (run false (run false (opens two) xs) ys).desk ≡ finishing (second ∷ []))
wake_up_lost_example = wake_up_lost false first (second ∷ []) refl

visits_in_order_example :
    (made : List Summons) × (two ≡ made ++ second ∷ [])
    × ((l j : ℕ) → is_gone ((run false (opens two) visit).visitor l j) ≡ ltb j (times l made))
visits_in_order_example =
    visits_in_order false two visit (second ∷ []) (refl, (refl, tt)) visit_done

-- A visit that would be done at time 0 is not waited for.
not_awaited :
    (run false
      (opens (record { line = 1; time = pos 0 } ∷ second ∷ []))
      (of_assistant 0 ∷ of_assistant 0 ∷ of_assistant 0 ∷ [])).desk
    ≡ calling (second ∷ [])
unfolding run
not_awaited = refl
