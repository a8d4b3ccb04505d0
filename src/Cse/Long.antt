-- ===== src/Cse/Long.antt =====
-- Assignment_03/cse.c: a line of more than 98 characters that changes the roles.
use mathlib.Core.List.{append-nil}
use mathlib.Core.Bool.{false≢true}
use os_lab_spr.Base.{
  ℕ, zero, suc, ◌≡◌, refl, sym, ap, ◌∙◌, inl, inr, Bool, true, false, not, ◌&&◌, ◌==◌,
  if◌then◌else◌, arith, Bool-cases, some, ◌>>=◌, List, [], ◌∷◌, ◌++◌, map,
}
use os_lab_spr.Cse.{
  still, newline, room, fgets, Window, System, give, take, type_line, receive, swap_on, start,
  first_executes, first_turn, turn, run,
}
use os_lab_spr.Cse.Lines.{
  line, fits, fgets-line, fgets-nothing, says_exit, says_swaprole, words, executes_of-line,
}

-- Exactly `k` characters, and no newline.
abbrev pub fills_room : ℕ → List ℕ → Bool
fills_room zero [] = true
fills_room zero (b ∷ t) = false
fills_room (suc k) [] = false
fills_room (suc k) (b ∷ t) = not (b == newline) && fills_room k t

fgets-full_from :
    (k : ℕ) (t rest : List ℕ) → fills_room k t ≡ true → fgets k (t ++ rest) ≡ some (t, rest)
unfolding fgets
fgets-full_from zero [] rest h = refl
fgets-full_from zero (b ∷ t) rest h = absurd (false≢true h)
fgets-full_from (suc k) [] rest h = absurd (false≢true h)
fgets-full_from (suc k) (b ∷ t) rest h = elim (Bool-cases (b == newline)) [
  | inl e ↦ absurd (ground (arith, h))
  | inr e ↦ rw e (
      ap (λ o. o >>= λ (r : List ℕ × List ℕ). some (b ∷ r.0, r.1))
        (fgets-full_from k t rest (ground (arith, h))))
]

module _ (front tail : List ℕ) (more es : List (List ℕ)) (full : fills_room room front ≡ true)
    (swapping : says_swaprole front ≡ true) (staying : says_exit front ≡ false) where
  abbrev begun : System
  begun = start ((front ++ line tail) ∷ more) es

  abbrev typed : System
  typed = record begun { first = record begun.first { buffer = front ++ line tail; typed = more } }

  abbrev swapped : System
  swapped = record begun {
    first = record { mode = true; buffer = line tail; typed = more; ended = false };
    pipe_a = front;
  }

  begun-typed : turn begun true ≡ typed
  unfolding turn
  begun-typed = ap (λ o. first_turn begun (give (type_line begun.first o) [] [])) fgets-nothing

  typed-swapped : turn typed true ≡ swapped
  unfolding turn
  typed-swapped =
      ap (λ o. first_turn typed (give (type_line typed.first o) [] []))
        (fgets-full_from room front (line tail) full)
      ∙ ap
          (λ b. first_turn typed (
            still
              (if b
                then record typed.first { buffer = line tail; ended = true }
                else swap_on (says_swaprole front) (record typed.first { buffer = line tail }))
              front []))
          staying
      ∙ ap
          (λ b.
            first_turn typed
              (still (swap_on b (record typed.first { buffer = line tail })) front []))
          swapping

  swapped-executed :
      fits room tail ≡ true
      → says_exit tail ≡ false
      → (turn swapped true).executed ≡ (true, words tail) ∷ []
  unfolding turn
  swapped-executed fit on =
      let read : fgets room (line tail) ≡ some (line tail, []) =
        ap (fgets room) (sym (append-nil (line tail))) ∙ fgets-line tail [] fit in
      let w : Window = record { mode = true; buffer = []; typed = more; ended = false } in
      ap
        (λ o.
          (first_turn swapped (take first_executes (receive swapped.first [] o) front)).executed)
        read
      ∙ ap (λ (z : Window × List (List (List ℕ))). map (λ c. (true, c)) z.1)
          (executes_of-line true tail w fit)
      ∙ elim (Bool-cases (says_swaprole tail)) [
        | inl e ↦ rw on (rw e refl)
        | inr e ↦ rw on (rw e refl)
      ]

-- The first user types a line whose first 98 characters ask for the change of roles, and goes on with
-- text: after three turns of the first window that window executes the rest of its own user's line.
pub rest_of_line_executed :
    (front tail : List ℕ) (more es : List (List ℕ))
    → fills_room room front ≡ true
    → says_swaprole front ≡ true
    → says_exit front ≡ false
    → fits room tail ≡ true
    → says_exit tail ≡ false
    → (run (start ((front ++ line tail) ∷ more) es) (true ∷ true ∷ true ∷ [])).executed
      ≡ (true, words tail) ∷ []
unfolding run
rest_of_line_executed front tail more es full swapping staying fit on =
    ap (λ s. (turn (turn s true) true).executed)
      (begun-typed front tail more es full swapping staying)
    ∙ ap (λ s. (turn s true).executed) (typed-swapped front tail more es full swapping staying)
    ∙ swapped-executed front tail more es full swapping staying fit on
