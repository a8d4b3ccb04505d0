-- ===== src/Cse/Lines.antt =====
-- Assignment_03/cse.c: what fgets, strstr and the cutting at the newline make of whole lines.
use mathlib.Core.List.{append_assoc}
use mathlib.Core.Bool.{false≢true}
use os_lab_spr.Base.{
  ℕ, zero, suc, ◌+◌, ◌≡◌, refl, sym, ap, ◌∙◌, inl, inr, Bool, true, false, not, ◌&&◌, ◌||◌, ◌==◌,
  if◌then◌else◌, arith, Bool-cases, none, some, ◌>>=◌, List, [], ◌∷◌, ◌++◌,
}
use os_lab_spr.Cse.{
  newline, exit_word, swaprole_word, starts_with, strstr, room, fgets, chop, split, targs, Window,
  swap_on, first_executes, second_executes, Executes,
}

-- A line is a text and its newline.
abbrev pub line : List ℕ → List ℕ
line t = t ++ newline ∷ []

-- The text has no newline, and with one it has at most `k` characters.
abbrev pub fits : ℕ → List ℕ → Bool
fits zero t = false
fits (suc k) [] = true
fits (suc k) (b ∷ t) = not (b == newline) && fits k t

abbrev pub all_fit : List (List ℕ) → Bool
all_fit [] = true
all_fit (t ∷ ts) = fits room t && all_fit ts

abbrev pub joined : List (List ℕ) → List ℕ
joined [] = []
joined (t ∷ ts) = line t ++ joined ts

pub both_true : (a b : Bool) → (a && b) ≡ true → (a ≡ true) × (b ≡ true)
both_true true b h = (refl, h)
both_true false b h = absurd (false≢true h)

pub both : (a b : Bool) → a ≡ true → b ≡ true → (a && b) ≡ true
both a b p q = ap (λ z. z && b) p ∙ q

pub all_fit-append :
    (ts us : List (List ℕ)) → all_fit ts ≡ true → all_fit us ≡ true → all_fit (ts ++ us) ≡ true
all_fit-append [] us p q = q
all_fit-append (t ∷ ts) us p q =
    let each = both_true (fits room t) (all_fit ts) p in
    both (fits room t) (all_fit (ts ++ us)) each.0 (all_fit-append ts us each.1 q)

pub joined-append : (ts us : List (List ℕ)) → joined (ts ++ us) ≡ joined ts ++ joined us
joined-append [] us = refl
joined-append (t ∷ ts) us =
    ap (λ z. line t ++ z) (joined-append ts us)
    ∙ sym (append_assoc (line t) (joined ts) (joined us))

fgets-line_from :
    (k : ℕ) (t rest : List ℕ) → fits k t ≡ true → fgets k (line t ++ rest) ≡ some (line t, rest)
unfolding fgets
fgets-line_from zero t rest h = absurd (false≢true h)
fgets-line_from (suc k) [] rest h = refl
fgets-line_from (suc k) (b ∷ t) rest h = elim (Bool-cases (b == newline)) [
  | inl e ↦ absurd (ground (arith, h))
  | inr e ↦ rw e (
      ap (λ o. o >>= λ (r : List ℕ × List ℕ). some (b ∷ r.0, r.1))
        (fgets-line_from k t rest (ground (arith, h))))
]

-- Of whole lines that fit, fgets reads the first.
pub fgets-line :
    (t : List ℕ) (rest : List ℕ)
    → fits room t ≡ true
    → fgets room (line t ++ rest) ≡ some (line t, rest)
fgets-line t rest h = fgets-line_from room t rest h

pub fgets-nothing : fgets room [] ≡ none
unfolding fgets
fgets-nothing = refl

pub chop-line : (k : ℕ) (t : List ℕ) → fits k t ≡ true → chop (line t) ≡ t
unfolding chop
chop-line zero t h = absurd (false≢true h)
chop-line (suc k) [] h = refl
chop-line (suc k) (b ∷ t) h = elim (Bool-cases (b == newline)) [
  | inl e ↦ absurd (ground (arith, h))
  | inr e ↦ rw e (ap (λ z. b ∷ z) (chop-line k t (ground (arith, h))))
]

abbrev plain : List ℕ → Bool
plain [] = true
plain (w ∷ word) = not (w == newline) && plain word

starts_with-line :
    (word t : List ℕ) → plain word ≡ true → starts_with word (line t) ≡ starts_with word t
unfolding starts_with
starts_with-line [] t h = refl
starts_with-line (w ∷ word) [] h = ground (arith, h)
starts_with-line (w ∷ word) (b ∷ t) h =
    ap (λ z. b == w && z) (starts_with-line word t (ground (arith, h)))

-- The newline is no part of a word that is looked for.
strstr-line :
    (w : ℕ) (word t : List ℕ)
    → plain (w ∷ word) ≡ true
    → strstr (line t) (w ∷ word) ≡ strstr t (w ∷ word)
unfolding strstr
strstr-line w word [] h = ground (arith, h, starts_with-line (w ∷ word) [] h)
strstr-line w word (b ∷ t) h =
    ap (λ z. z || strstr (line t) (w ∷ word)) (starts_with-line (w ∷ word) (b ∷ t) h)
    ∙ ap (λ z. starts_with (w ∷ word) (b ∷ t) || z) (strstr-line w word t h)

abbrev pub says_exit : List ℕ → Bool
says_exit t = strstr t exit_word

abbrev pub says_swaprole : List ℕ → Bool
says_swaprole t = strstr t swaprole_word

pub says_exit-line : (t : List ℕ) → says_exit (line t) ≡ says_exit t
says_exit-line t = strstr-line 101 (120 ∷ 105 ∷ 116 ∷ []) t refl

pub says_swaprole-line : (t : List ℕ) → says_swaprole (line t) ≡ says_swaprole t
says_swaprole-line t = strstr-line 115 (119 ∷ 97 ∷ 112 ∷ 114 ∷ 111 ∷ 108 ∷ 101 ∷ []) t refl

abbrev pub words : List ℕ → List (List ℕ)
words t = split [] t

targs-line : (t : List ℕ) → fits room t ≡ true → targs (line t) ≡ words t
unfolding targs
targs-line t h = ap (split []) (chop-line room t h)

abbrev pub executes_of : Bool → Executes
executes_of true = first_executes
executes_of false = second_executes

-- What a window makes of a line: only the first child executes the line that changes the roles.
pub executes_of-line :
    (b : Bool) (t : List ℕ) (w : Window)
    → fits room t ≡ true
    → executes_of b (line t) w ≡ (
        if says_exit t
        then (record w { ended = true }, [])
        else (swap_on (says_swaprole t) w, if says_swaprole t && not b then [] else words t ∷ []))
executes_of-line true t w h = rw (chop-line room t h) (rw (targs-line t h) (ground (arith)))
executes_of-line false t w h = rw (chop-line room t h) (rw (targs-line t h) (ground (arith)))

abbrev pub length : List ℕ → ℕ
length [] = 0
length (b ∷ bs) = length bs + 1

abbrev pub characters : List (List ℕ) → ℕ
characters [] = 0
characters (l ∷ ls) = length l + characters ls

pub length-append : (cs bs : List ℕ) → length (cs ++ bs) ≡ length cs + length bs
length-append [] bs = omega arith
length-append (c ∷ cs) bs = omega (arith, length-append cs bs)

pub length-line : (t : List ℕ) → length (line t) ≡ length t + 1
length-line t = length-append t (newline ∷ [])
