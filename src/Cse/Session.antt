-- ===== src/Cse/Session.antt =====
-- Assignment_03/cse.c: what the two users agree on: each command is executed by the other window, in order,
-- until one of them types exit.
use os_lab_spr.Base.{
  ◌≡◌, refl, ap, inl, inr, Bool, true, false, not, ◌&&◌, if◌then◌else◌, ℕ, arith, Bool-cases, List,
  [], ◌∷◌, ◌++◌,
}
use os_lab_spr.Cse.Lines.{says_exit, says_swaprole, words}

-- A command, and whether the first child executes it.
abbrev pub Command : Type 0
Command = Bool × List (List ℕ)

-- The commands of a session in which the first window gives commands, or the second, from the texts that
-- are typed in the two. The first child executes also the text that changes the roles.
unfoldable pub transcript : Bool → List (List ℕ) → List (List ℕ) → List Command
transcript true [] es = []
transcript true (t ∷ cs) es =
    let swapped = transcript false cs es in
    let more = (false, words t) ∷ transcript true cs es in
    if says_exit t then [] else (if says_swaprole t then swapped else more)
transcript false cs [] = []
transcript false cs (t ∷ es) =
    let more = (true, words t) ∷ transcript (says_swaprole t) cs es in
    if says_exit t then [] else more

-- The same, by the texts of the window that gives commands and of the other.
abbrev pub agreed : Bool → List (List ℕ) → List (List ℕ) → List Command
agreed true own other = transcript true own other
agreed false own other = transcript false other own

-- What window `b` makes of the texts on their way to it, and what comes after them.
abbrev pub awaited : Bool → List (List ℕ) → List Command → List Command
awaited b [] after = after
awaited b (t ∷ q) after =
    if says_exit t
    then []
    else (if says_swaprole t
        then (if not b then after else (b, words t) ∷ after)
        else (b, words t) ∷ awaited b q after)

abbrev pub clean : List (List ℕ) → Bool
clean [] = true
clean (t ∷ q) = (not (says_exit t) && not (says_swaprole t)) && clean q

pub awaited-append :
    (b : Bool) (q r : List (List ℕ)) (after : List Command)
    → clean q ≡ true
    → awaited b (q ++ r) after ≡ awaited b q (awaited b r after)
awaited-append b [] r after h = refl
awaited-append b (t ∷ q) r after h =
    let stays : says_exit t ≡ false = ground (arith, h) in
    let keeps : says_swaprole t ≡ false = ground (arith, h) in
    rw stays
      (rw keeps (ap (λ z. (b, words t) ∷ z) (awaited-append b q r after (ground (arith, h)))))

-- The next text, on its way to the other window.
pub agreed-next :
    (h : Bool) (t : List ℕ) (own other : List (List ℕ))
    → agreed h (t ∷ own) other
      ≡ awaited
          (not h)
          (t ∷ [])
          (if says_swaprole t then agreed (not h) other own else agreed h own other)
unfolding transcript
agreed-next true t own other = elim (Bool-cases (says_swaprole t)) [
  | inl e ↦ rw e refl
  | inr e ↦ rw e refl
]
agreed-next false t own other = elim (Bool-cases (says_swaprole t)) [
  | inl e ↦ rw e refl
  | inr e ↦ rw e refl
]

pub agreed-nothing : (h : Bool) (other : List (List ℕ)) → agreed h [] other ≡ []
unfolding transcript
agreed-nothing true other = refl
agreed-nothing false other = refl
