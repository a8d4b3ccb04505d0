-- ===== src/Reference/Fits.antt =====
-- The reference string of Assignment_08/master.c fits into its buffer, and into the pages of proc.c.
use native.Mathlib.Nat.{mod-lt}
use os_lab_spr.Base.{
  ℕ, zero, suc, ◌+◌, ◌*◌, ◌/◌, ◌%◌, ◌≤◌, ◌<◌, ◌≡◌, refl, inl, inr, true, some, List, [], ◌∷◌, ◌++◌,
  ltb, arith, Bool-cases, pos, ◌≤ℤ◌, to_int-small,
}
use os_lab_spr.Reference.{
  bar, digits_from, digits, ref_str, process_ref_string, ref_str_size, draw_refs, ref_str_len,
  pages_of,
}
use os_lab_spr.Reference.Reads.{length, process_ref_string-ref_str}

-- Every page number is below `b`.
abbrev Below : ℕ → List ℕ → Type 0
Below b [] = Unit {0}
Below b (p ∷ ps) = (p < b) × Below b ps

length-append : (xs ys : List ℕ) → length (xs ++ ys) ≡ length xs + length ys
length-append [] ys = omega arith
length-append (x ∷ xs) ys = omega (arith, length-append xs ys)

-- 10 ^ (k + 1)
abbrev limit : ℕ → ℕ
limit zero = 10
limit (suc k) = 10 * limit k

digits_from-length : (fuel n k : ℕ) → n < limit k → length (digits_from fuel n) ≤ k + 1
unfolding digits_from
digits_from-length zero n k h = omega arith
digits_from-length (suc fuel) n zero h =
    let small : ltb n 10 ≡ true = ground arith in rw small (omega arith)
digits_from-length (suc fuel) n (suc k) h = elim (Bool-cases (ltb n 10)) [
  | inl small ↦ rw small (omega arith)
  | inr big ↦
      let front = digits_from-length fuel (n / 10) k (omega arith) in
      rw big (omega (arith, front, length-append (digits_from fuel (n / 10)) ((48 + n % 10) ∷ [])))
]

ref_str-length :
    (pages : List ℕ) → Below 10000000000 pages → length (ref_str pages) ≤ 11 * length pages
unfolding ref_str digits
ref_str-length [] b = omega arith
ref_str-length (p ∷ ps) (here, b) = omega (
  arith,
  length-append (digits_from (p + 1) p) (bar ∷ ref_str ps),
  digits_from-length (p + 1) p 9 (omega arith),
  ref_str-length ps b,
)

draw_refs-length :
    (m own : ℕ) (rand : ℕ → ℕ) (at rounds : ℕ) → length (draw_refs m own rand at rounds) ≡ rounds
unfolding draw_refs
draw_refs-length m own rand at zero = refl
draw_refs-length m own rand at (suc rounds) = ground (
  arith,
  draw_refs-length m own rand (at + 3) rounds,
  draw_refs-length m own rand (at + 2) rounds,
)

draw_refs-Below :
    (m own : ℕ) (rand : ℕ → ℕ) (at rounds : ℕ)
    → 0 < own
    → own ≤ m
    → m ≤ 100000000
    → Below 10000000000 (draw_refs m own rand at rounds)
unfolding draw_refs
draw_refs-Below m own rand at zero h l u = tt
draw_refs-Below m own rand at (suc rounds) h l u =
    elim (Bool-cases (ltb (1 + rand (at + 1) % 100) 2)) [
      | inl stray ↦ rw stray (
        omega (arith, mod-lt (rand (at + 2)) {m = 10 * m} (omega arith)),
        draw_refs-Below m own rand (at + 3) rounds h l u,
      )
      | inr inside ↦
          rw inside
            (omega (arith, mod-lt (rand at) h), draw_refs-Below m own rand (at + 2) rounds h l u)
    ]

-- For a process with at least one page and at most `m`, which is at most 2684354 so that `m*20*40` is an
-- `int`, the printed reference string and its terminator fit into `ref_str[m*20*40]`.
pub ref_str_fits :
    (m own : ℕ) (rand : ℕ → ℕ)
    → 0 < own
    → own ≤ m
    → m ≤ 2684354
    → pos (length (ref_str (pages_of m own rand)) + 1) ≤ℤ ref_str_size m
unfolding pages_of
ref_str_fits m own rand h l u =
    let rounds = ref_str_len own rand in
    rw (to_int-small (m * 20 * 40) (omega arith)) (
      omega (
        arith,
        ref_str-length (draw_refs m own rand 1 rounds)
            (draw_refs-Below m own rand 1 rounds h l (omega arith)),
        draw_refs-length m own rand 1 rounds,
        mod-lt (rand 0) {m = 8 * own} (omega arith),
      ))

-- A process with at most 102 pages reads exactly the pages that master.c drew for it.
pub process_reads :
    (m own : ℕ) (rand : ℕ → ℕ)
    → 0 < own
    → own ≤ 102
    → process_ref_string (ref_str (pages_of m own rand)) ≡ some (pages_of m own rand)
unfolding pages_of
process_reads m own rand h l =
    let rounds = ref_str_len own rand in
    process_ref_string-ref_str (draw_refs m own rand 1 rounds) (
      omega
        (arith, draw_refs-length m own rand 1 rounds, mod-lt (rand 0) {m = 8 * own} (omega arith)))
