-- ===== src/Cse/Tests.antt =====
-- A session of Assignment_03/cse.c: ls, the change of roles, then pwd and exit in the second window.
use os_lab_spr.Base.{ℕ, zero, suc, ◌≡◌, refl, Bool, true, false, List, [], ◌∷◌, ◌++◌}
use os_lab_spr.Cse.{space, exit_word, swaprole_word, strstr, fgets, split, targs, start, run}
use os_lab_spr.Cse.Lines.{line, words}
use os_lab_spr.Cse.Session.{Command, transcript}
use os_lab_spr.Cse.Agrees.{typing, executed_agrees}
use os_lab_spr.Cse.Completes.{all_executed}
use os_lab_spr.Cse.Long.{rest_of_line_executed}

abbrev ls_word : List ℕ
ls_word = 108 ∷ 115 ∷ []

abbrev pwd_word : List ℕ
pwd_word = 112 ∷ 119 ∷ 100 ∷ []

abbrev first_types : List (List ℕ)
first_types = ls_word ∷ swaprole_word ∷ []

abbrev second_types : List (List ℕ)
second_types = pwd_word ∷ exit_word ∷ ls_word ∷ []

abbrev order : List Bool
order = true ∷ true ∷ false ∷ false ∷ true ∷ []

agreed_commands :
    transcript true first_types second_types ≡ (false, ls_word ∷ []) ∷ (true, pwd_word ∷ []) ∷ []
unfolding transcript strstr split
agreed_commands = refl

so_far : (run (typing first_types second_types) order).executed ≡ (false, ls_word ∷ []) ∷ []
unfolding run fgets strstr targs
so_far = refl

executed_agrees_example :
    (rest : List Command) × (transcript true first_types second_types
      ≡ (run (typing first_types second_types) order).executed ++ rest)
executed_agrees_example = executed_agrees first_types second_types order refl refl

all_executed_example :
    (ys : List Bool) × ((run (run (typing first_types second_types) order) ys).executed
      ≡ transcript true first_types second_types)
all_executed_example = all_executed first_types second_types order refl refl

abbrev spaces : ℕ → List ℕ
spaces zero = []
spaces (suc n) = space ∷ spaces n

rest_of_line_executed_example :
    (run
      (start (((swaprole_word ++ spaces 90) ++ line ls_word) ∷ []) [])
      (true ∷ true ∷ true ∷ [])).executed
    ≡ (true, words ls_word) ∷ []
unfolding strstr
rest_of_line_executed_example =
    rest_of_line_executed (swaprole_word ++ spaces 90) ls_word [] [] refl refl refl refl refl
