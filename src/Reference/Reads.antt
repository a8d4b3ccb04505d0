-- ===== src/Reference/Reads.antt =====
-- The reference string of Assignment_08 reads back as the pages it was printed from.
use mathlib.Core.List.{append_assoc, append-nil}
use os_lab_spr.Base.{
  ℕ, zero, suc, ◌+◌, ◌-◌, ◌*◌, ◌/◌, ◌%◌, ◌≤◌, ◌<◌, ◌≡◌, inl, inr, some, refl, sym, ap, ◌∙◌, false,
  List, [], ◌∷◌, ◌++◌, ltb, leb, ◌==◌, arith, Bool-cases,
}
use os_lab_spr.Reference.{
  bar, digits_from, digits, ref_str, atoi_from, atoi, put, strtok, max_pages, store_pages,
  process_ref_string,
}

-- Every character is a digit.
abbrev AreDigits : List ℕ → Type 0
AreDigits [] = Unit {0}
AreDigits (c ∷ cs) = ((48 ≤ c) × (c < 58)) × AreDigits cs

AreDigits-append : (cs : List ℕ) (c : ℕ) → AreDigits cs → 48 ≤ c → c < 58 → AreDigits (cs ++ c ∷ [])
AreDigits-append [] c d h l = ((h, l), tt)
AreDigits-append (x ∷ xs) c (here, d) h l = (here, AreDigits-append xs c d h l)

digits_from-AreDigits : (fuel n : ℕ) → AreDigits (digits_from fuel n)
unfolding digits_from
digits_from-AreDigits zero n = tt
digits_from-AreDigits (suc fuel) n = elim (Bool-cases (ltb n 10)) [
  | inl small ↦ rw small ((omega arith, ground arith), tt)
  | inr big ↦ rw big (
      AreDigits-append (digits_from fuel (n / 10)) (48 + n % 10)
        (digits_from-AreDigits fuel (n / 10)) (omega arith) (omega arith))
]

atoi-append :
    (n : ℕ) (cs : List ℕ) (c : ℕ)
    → AreDigits cs
    → 48 ≤ c
    → c < 58
    → atoi_from n (cs ++ c ∷ []) ≡ 10 * atoi_from n cs + (c - 48)
unfolding atoi_from
atoi-append n [] c d h l = ground arith
atoi-append n (x ∷ xs) c (here, d) h l = ground (arith, atoi-append (10 * n + (x - 48)) xs c d h l)

atoi-digits_from : (fuel n : ℕ) → n < fuel → atoi (digits_from fuel n) ≡ n
unfolding digits_from
atoi-digits_from zero n h = absurd (omega arith)
atoi-digits_from (suc fuel) n h = elim (Bool-cases (ltb n 10)) [
  | inl small ↦ rw small (unfold atoi_from in ground arith)
  | inr big ↦ rw big (
      atoi-append 0 (digits_from fuel (n / 10)) (48 + n % 10) (digits_from-AreDigits fuel (n / 10))
        (omega arith) (omega arith)
      ∙ ground (arith, atoi-digits_from fuel (n / 10)))
]

strtok-digits :
    (token cs rest : List ℕ)
    → AreDigits cs
    → strtok token (cs ++ bar ∷ rest) ≡ put (token ++ cs) (strtok [] rest)
unfolding strtok
strtok-digits token [] rest d = ap (λ (t : List ℕ). put t (strtok [] rest)) (sym (append-nil token))
strtok-digits token (c ∷ cs) rest (here, d) =
    let plain : (c == bar) ≡ false = ground arith in
    rw plain (
      strtok-digits (token ++ c ∷ []) cs rest d
      ∙ ap (λ (t : List ℕ). put t (strtok [] rest)) (append_assoc token (c ∷ []) cs))

put-append :
    (cs : List ℕ) (c : ℕ) (rest : List (List ℕ)) → put (cs ++ c ∷ []) rest ≡ (cs ++ c ∷ []) ∷ rest
put-append [] c rest = refl
put-append (x ∷ xs) c rest = refl

-- A list that is not empty is kept by `put`.
digits_from-put :
    (fuel n : ℕ) (rest : List (List ℕ))
    → 0 < fuel
    → put (digits_from fuel n) rest ≡ digits_from fuel n ∷ rest
unfolding digits_from
digits_from-put zero n rest h = absurd (omega arith)
digits_from-put (suc fuel) n rest h = elim (Bool-cases (ltb n 10)) [
  | inl small ↦ rw small refl
  | inr big ↦ rw big (put-append (digits_from fuel (n / 10)) (48 + n % 10) rest)
]

abbrev pub length : List ℕ → ℕ
length [] = 0
length (p ∷ ps) = suc (length ps)

tokens_of : List ℕ → List (List ℕ)
tokens_of [] = []
tokens_of (p ∷ ps) = digits p ∷ tokens_of ps

strtok-ref_str : (pages : List ℕ) → strtok [] (ref_str pages) ≡ tokens_of pages
unfolding ref_str digits tokens_of
strtok-ref_str [] = unfold strtok in refl
strtok-ref_str (p ∷ ps) =
    strtok-digits [] (digits_from (p + 1) p) (ref_str ps) (digits_from-AreDigits (p + 1) p)
    ∙ digits_from-put (p + 1) p (strtok [] (ref_str ps)) (omega arith)
    ∙ ap (λ (l : List (List ℕ)). digits_from (p + 1) p ∷ l) (strtok-ref_str ps)

store_pages-tokens_of :
    (total : ℕ) (pages : List ℕ)
    → total + length pages ≤ max_pages
    → store_pages total (tokens_of pages) ≡ some pages
unfolding store_pages tokens_of digits
store_pages-tokens_of total [] h = refl
store_pages-tokens_of total (p ∷ ps) h =
    let room : leb max_pages total ≡ false = ground arith in
    rw
      (
        room,
        store_pages-tokens_of (total + 1) ps (omega arith),
        atoi-digits_from (p + 1) p (omega arith),
      )
      refl

-- Whatever pages master.c prints, proc.c reads these pages, if they are at most 1024.
pub process_ref_string-ref_str :
    (pages : List ℕ) → length pages ≤ max_pages → process_ref_string (ref_str pages) ≡ some pages
unfolding process_ref_string
process_ref_string-ref_str pages h =
    rw (strtok-ref_str pages) (store_pages-tokens_of 0 pages (omega arith))
