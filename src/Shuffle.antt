-- ===== src/Shuffle.antt =====
-- Assignment_05/LA5/gengraph.c, Assignment_07/gentree.c: the loop that shuffles PERM, the same in both.
use os_lab_spr.Base.{
  ℕ, zero, suc, ◌+◌, ◌-◌, ◌%◌, ◌≤◌, ◌<◌, ◌≡◌, refl, sym, ap, ◌∙◌, ◌==◌, if◌then◌else◌, inl, inr,
  swap, arith, Bool-cases, dec_lt, true, false,
}

-- PERM after the first rounds; `rand i` is what the call of rand in round `i` returns.
unfoldable pub shuffle : (ℕ → ℕ) → ℕ → ℕ → ℕ → ℕ
shuffle rand n zero = λ i. i
shuffle rand n (suc i) = swap (shuffle rand n i) i (i + rand i % (n - i))

unfoldable pub shuffled : (ℕ → ℕ) → ℕ → ℕ → ℕ
unfolding shuffle
shuffled rand n = shuffle rand n n

-- The first `n` entries are the numbers below `n`, each once.
pub record IsPerm (n : ℕ) (perm : ℕ → ℕ) : Type 0 where
  pub below : (i : ℕ) → i < n → perm i < n
  pub distinct : (i j : ℕ) → i < n → j < n → perm i ≡ perm j → i ≡ j
  pub onto : (u : ℕ) → u < n → (i : ℕ) × (i < n) × (perm i ≡ u)

-- The place that an entry comes from when those at `i` and `j` are exchanged.
abbrev exchange : ℕ → ℕ → ℕ → ℕ
exchange i j k = if j == k then i else if i == k then j else k

swap-exchange : (perm : ℕ → ℕ) (i j k : ℕ) → swap perm i j k ≡ perm (exchange i j k)
swap-exchange perm i j k = elim (Bool-cases (j == k)) [
  | inl e ↦ rw e refl
  | inr e ↦ rw e (elim (Bool-cases (i == k)) [ inl f ↦ rw f refl | inr f ↦ rw f refl ])
]

exchange_twice : (i j k : ℕ) → exchange i j (exchange i j k) ≡ k
exchange_twice i j k = ground arith

exchange_below : (n i j k : ℕ) → i < n → j < n → k < n → exchange i j k < n
exchange_below n i j k p q r = ground arith

swap-IsPerm :
    (n : ℕ) (perm : ℕ → ℕ) (i j : ℕ) → i < n → j < n → IsPerm n perm → IsPerm n (swap perm i j)
swap-IsPerm n perm i j p q v = record {
  below = λ k r. rw (swap-exchange perm i j k) (v.below _ (exchange_below n i j k p q r));
  distinct = λ k l r s e.
      let places =
        v.distinct (exchange i j k) (exchange i j l) (exchange_below n i j k p q r)
          (exchange_below n i j l p q s)
          (sym (swap-exchange perm i j k) ∙ e ∙ swap-exchange perm i j l) in
      sym (exchange_twice i j k) ∙ ap (exchange i j) places ∙ exchange_twice i j l;
  onto = λ u r.
      let (k, low, e) = v.onto u r in
      (
        exchange i j k,
        exchange_below n i j k p q low,
        swap-exchange perm i j (exchange i j k) ∙ ap perm (exchange_twice i j k) ∙ e,
      );
}

drawn_below : (n i r : ℕ) → i < n → i + r % (n - i) < n
drawn_below n i r p = grind arith

shuffle-IsPerm : (rand : ℕ → ℕ) (n k : ℕ) → k ≤ n → IsPerm n (shuffle rand n k)
unfolding shuffle
shuffle-IsPerm rand n zero h = record {
  below = λ i p. p;
  distinct = λ i j p q e. e;
  onto = λ u p. (u, p, refl);
}
shuffle-IsPerm rand n (suc k) h =
    swap-IsPerm n (shuffle rand n k) k (k + rand k % (n - k)) (omega arith)
      (drawn_below n k (rand k) (omega arith)) (shuffle-IsPerm rand n k (omega arith))

-- Whatever is drawn, PERM holds the numbers below n, each once.
pub shuffled-IsPerm : (rand : ℕ → ℕ) (n : ℕ) → IsPerm n (shuffled rand n)
unfolding shuffled
shuffled-IsPerm rand n = shuffle-IsPerm rand n n (omega arith)

-- Entries are equal where their places are.
pub same_place :
    (n : ℕ) (perm : ℕ → ℕ) (i j : ℕ) → IsPerm n perm → i < n → j < n → (perm i == perm j) ≡ (i == j)
same_place n perm i j v p q = elim (Bool-cases (i == j)) [
  | inl e ↦
      let same : i ≡ j = ground arith in
      let this : (perm i == perm j) ≡ true = ground (arith, ap perm same) in this ∙ sym e
  | inr e ↦
      let this : (perm i == perm j) ≡ false = ground (arith, v.distinct i j p q) in this ∙ sym e
]

-- The place of a number below `n`.
pub place : (n : ℕ) (perm : ℕ → ℕ) → IsPerm n perm → ℕ → ℕ
place n perm v u = elim (dec_lt u n) [ yes low ↦ (v.onto u low).0 | no high ↦ 0 ]

pub perm-place :
    (n : ℕ) (perm : ℕ → ℕ) (v : IsPerm n perm) (u : ℕ)
    → u < n
    → (place n perm v u < n) × (perm (place n perm v u) ≡ u)
unfolding place
perm-place n perm v u low =
    elim (dec_lt u n)
      as (λ d.
        (elim d [ yes p ↦ (v.onto u p).0 | no _ ↦ 0 ] < n)
        × (perm (elim d [ yes p ↦ (v.onto u p).0 | no _ ↦ 0 ]) ≡ u)) [
          | yes p ↦ ((v.onto u p).1, (v.onto u p).2)
          | no high ↦ absurd (omega arith)
        ]

pub place-perm :
    (n : ℕ) (perm : ℕ → ℕ) (v : IsPerm n perm) (x : ℕ) → x < n → place n perm v (perm x) ≡ x
place-perm n perm v x low =
    let at = perm-place n perm v (perm x) (v.below x low) in
    v.distinct (place n perm v (perm x)) x at.0 low at.1
