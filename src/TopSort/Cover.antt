-- ===== src/TopSort/Cover.antt =====
-- Counting along a list of vertices: a list without repetitions adds up to no more than the whole
-- graph, and reaches it exactly when it covers every vertex of positive weight.
use os_lab_spr.Base.{
  ℕ, zero, suc, ◌≤◌, ◌<◌, ◌≡◌, ◌≢◌, ◌⊎◌, inl, inr, arith, store, total, total-zero, total-suc,
  total-eq, total-change, total-le, total-null, dec_lt, ℕ_discrete, ◌+◌,
}

-- The first `i` entries are vertices below `n`, no two the same.
pub record IsListing (n : ℕ) (t : ℕ → ℕ) (i : ℕ) : Type 0 where
  pub range : (j : ℕ) → j < i → t j < n
  pub distinct : (j k : ℕ) → j < i → k < i → t j ≡ t k → j ≡ k

-- `u` stands among the first `i` entries.
abbrev pub Listed : (ℕ → ℕ) → ℕ → ℕ → Type 0
Listed t i u = (j : ℕ) × (j < i) × (t j ≡ u)

pub IsListing-upto : {n i : ℕ} {t : ℕ → ℕ} (k : ℕ) → k ≤ i → IsListing n t i → IsListing n t k
IsListing-upto k h l = record {
  range = λ j p. l.range j (omega arith);
  distinct = λ j m p q e. l.distinct j m (omega arith) (omega arith) e;
}

IsListing-shorter : {n i : ℕ} {t : ℕ → ℕ} → IsListing n t (suc i) → IsListing n t i
IsListing-shorter l = record {
  range = λ j p. l.range j (omega arith);
  distinct = λ j k p q e. l.distinct j k (omega arith) (omega arith) e;
}

pub total-listing-le :
    (i n : ℕ) (t f : ℕ → ℕ) → IsListing n t i → total i (λ j. f (t j)) ≤ total n f
total-listing-le zero n t f l = omega (arith, total-zero (λ j. f (t j)))
total-listing-le (suc i) n t f l =
    let g = store f (t i) 0 in
    let same : total i (λ j. g (t j)) ≡ total i (λ j. f (t j)) =
      total-eq i _ _ (λ j p. ground (arith, l.distinct i j (omega arith) (omega arith))) in
    let at : g (t i) ≡ 0 = ground arith in
    omega (
      arith,
      at,
      same,
      total-suc i (λ j. f (t j)),
      total-listing-le i n t g (IsListing-shorter l),
      total-change n f g (t i) (l.range i (omega arith)) (λ j ne. ground arith),
    )

pub total-le-covered :
    (i n : ℕ) (t f : ℕ → ℕ)
    → ((j : ℕ) → j < i → t j < n)
    → ((u : ℕ) → u < n → 0 < f u → Listed t i u)
    → total n f ≤ total i (λ j. f (t j))
total-le-covered zero n t f r c = omega (arith, total-null n f (λ u p. uncovered u p (c u p)))
  where
    uncovered : (u : ℕ) → u < n → (0 < f u → Listed t 0 u) → f u ≡ 0
    uncovered u p h = elim (dec_lt 0 (f u)) [
      | yes q ↦ absurd (omega (arith, (h q).1))
      | no q ↦ omega arith
    ]
total-le-covered (suc i) n t f r c =
    let g = store f (t i) 0 in
    let at : g (t i) ≡ 0 = ground arith in
    omega (
      arith,
      at,
      total-suc i (λ j. f (t j)),
      total-le i (λ j. g (t j)) (λ j. f (t j)) (λ j p. ground arith),
      total-le-covered i n t g (λ j p. r j (omega arith))
          (λ u p q. let (j, below, e) = c u p (ground arith) in (j, ground arith, e)),
      total-change n f g (t i) (r i (omega arith)) (λ j ne. ground arith),
    )

-- An entry of positive weight that the list leaves out shows in the sum.
pub total-missed :
    (i n : ℕ) (t f : ℕ → ℕ) (u : ℕ)
    → IsListing n t i
    → u < n
    → ((j : ℕ) → j < i → t j ≢ u)
    → total i (λ j. f (t j)) + f u ≤ total n f
total-missed i n t f u l p missed =
    let g = store f u 0 in
    let same : total i (λ j. g (t j)) ≡ total i (λ j. f (t j)) =
      total-eq i _ _ (λ j q. ground (arith, missed j q)) in
    let at : g u ≡ 0 = ground arith in
    omega
      (arith, at, same, total-listing-le i n t g l, total-change n f g u p (λ j ne. ground arith))

-- A bounded search in the list.
pub find-Listed : (t : ℕ → ℕ) (i u : ℕ) → Listed t i u ⊎ ((j : ℕ) → j < i → t j ≢ u)
find-Listed t zero u = inr (λ j p. absurd (omega arith))
find-Listed t (suc i) u = elim (find-Listed t i u) [
  | inl (j, p, e) ↦ inl (j, omega arith, e)
  | inr out ↦ elim (ℕ_discrete (t i) u) [
    | yes e ↦ inl (i, omega arith, e)
    | no ne ↦
        inr (λ j p e. elim (ℕ_discrete j i) [
          | yes s ↦ ne (rw (← s) e)
          | no d ↦ out j (omega arith) e
        ])
  ]
]
