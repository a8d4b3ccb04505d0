-- ===== src/GenGraph/Edges.antt =====
-- Assignment_05/LA5/gengraph.c: which entries of the matrix are 1.
use os_lab_spr.Base.{
  ℕ, zero, suc, ◌+◌, ◌-◌, ◌≤◌, ◌<◌, ◌≡◌, ◌≢◌, refl, sym, ap, ◌∙◌, inl, inr, Bool, true, false, ◌&&◌,
  ◌||◌, ◌==◌, ltb, leb, if◌then◌else◌, bit, arith, Bool-cases, ℕ_discrete,
}
use os_lab_spr.Shuffle.{shuffled, IsPerm, shuffled-IsPerm, same_place}
use os_lab_spr.GenGraph.{set_entry, fill_row, fill_rows, gengraph}

-- The entry that the loops mean for two places of PERM.
abbrev pub wanted : (ℕ → ℕ → Bool) → ℕ → ℕ → ℕ
wanted coin x y = if ltb x y then bit (coin x y) else 0

-- Whether the places are `i` and one of the `m` after it, in either order.
abbrev touched : ℕ → ℕ → ℕ → ℕ → Bool
touched i m x y = (x == i && (ltb i y && leb y (i + m))) || (y == i && (ltb i x && leb x (i + m)))

one_more :
    (c : ℕ → ℕ → Bool) (i m x y r : ℕ)
    → (if (i + 1 + m) == x && i == y
        then 0
        else (if i == x && (i + 1 + m) == y
            then bit (c i (i + 1 + m))
            else (if touched i m x y then wanted c x y else r)))
      ≡ (if touched i (suc m) x y then wanted c x y else r)
one_more c i m x y r = elim (Bool-cases (i == x && (i + 1 + m) == y)) [
  | inl e ↦
      let here : x ≡ i = ground arith in
      let there : y ≡ i + 1 + m = ground arith in rw here (rw there (ground arith))
  | inr e ↦ ground arith
]

module _ (coin : ℕ → ℕ → Bool) (n : ℕ) (perm : ℕ → ℕ) (v : IsPerm n perm) where
  set_entry-perm :
      (a : ℕ → ℕ → ℕ) (i j w x y : ℕ)
      → i < n
      → j < n
      → x < n
      → y < n
      → set_entry a (perm i) (perm j) w (perm x) (perm y)
        ≡ (if i == x && j == y then w else a (perm x) (perm y))
  set_entry-perm a i j w x y p q r s =
      ap (λ b. if b && perm j == perm y then w else a (perm x) (perm y))
        (same_place n perm i x v p r)
      ∙ ap (λ b. if i == x && b then w else a (perm x) (perm y)) (same_place n perm j y v q s)

  fill_row_lem :
      (i m : ℕ) (a : ℕ → ℕ → ℕ) (x y : ℕ)
      → i + m < n
      → x < n
      → y < n
      → fill_row coin perm i m a (perm x) (perm y)
        ≡ (if touched i m x y then wanted coin x y else a (perm x) (perm y))
  unfolding fill_row
  fill_row_lem i zero a x y h p q = ground arith
  fill_row_lem i (suc m) a x y h p q =
      let before = fill_row_lem i m a x y (omega arith) p q in
      set_entry-perm
        (set_entry (fill_row coin perm i m a) (perm i) (perm (i + 1 + m))
          (bit (coin i (i + 1 + m))))
        (i + 1 + m) i 0 x y (omega arith) (omega arith) p q
      ∙ ap (λ r. if (i + 1 + m) == x && i == y then 0 else r)
          (set_entry-perm (fill_row coin perm i m a) i (i + 1 + m) (bit (coin i (i + 1 + m))) x y
              (omega arith) (omega arith) p q
            ∙ ap (λ r. if i == x && (i + 1 + m) == y then bit (coin i (i + 1 + m)) else r) before)
      ∙ one_more coin i m x y (a (perm x) (perm y))

  diagonal_kept :
      (k : ℕ) (a : ℕ → ℕ → ℕ) (u : ℕ)
      → k < n
      → u < n
      → fill_row coin perm k (n - (k + 1)) a u u ≡ a u u
  diagonal_kept k a u h low =
      let (x, p, e) = v.onto u low in
      let away : touched k (n - (k + 1)) x x ≡ false = ground arith in
      rw (← e) (
        fill_row_lem k (n - (k + 1)) a x x (omega arith) p p
        ∙ ap (λ b. if b then wanted coin x x else a (perm x) (perm x)) away)

  fill_rows_diagonal :
      (k : ℕ) (a : ℕ → ℕ → ℕ) (u : ℕ) → k ≤ n → u < k → fill_rows coin perm n a k u u ≡ 0
  unfolding fill_rows
  fill_rows_diagonal zero a u h low = absurd (omega arith)
  fill_rows_diagonal (suc k) a u h low =
      diagonal_kept k (set_entry (fill_rows coin perm n a k) k k 0) u (omega arith) (omega arith)
      ∙ elim (Bool-cases (k == u)) [
        | inl e ↦ rw e refl
        | inr e ↦ rw e (fill_rows_diagonal k a u (omega arith) (ground arith))
      ]

  fill_rows_apart :
      (k : ℕ) (a : ℕ → ℕ → ℕ) (x y : ℕ)
      → k ≤ n
      → x < n
      → y < n
      → x ≢ y
      → (ltb x k || ltb y k) ≡ true
      → fill_rows coin perm n a k (perm x) (perm y) ≡ wanted coin x y
  unfolding fill_rows
  fill_rows_apart zero a x y h p q ne early = absurd (ground arith)
  fill_rows_apart (suc k) a x y h p q ne early =
      let m : ℕ = n - (k + 1) in
      let old : ℕ → ℕ → ℕ = set_entry (fill_rows coin perm n a k) k k 0 in
      fill_row_lem k m old x y (omega arith) p q ∙ elim (Bool-cases (touched k m x y)) [
        | inl now ↦ rw now refl
        | inr before ↦
            let away : (k == perm x && k == perm y) ≡ false = ground (arith, v.distinct x y p q) in
            rw before (rw away (fill_rows_apart k a x y (omega arith) p q ne (ground arith)))
      ]

-- The matrix has a 1 from one entry of PERM to another exactly where the first stands earlier and the
-- number drawn for the two is small enough, and 0 elsewhere.
pub gengraph_lem :
    (rand : ℕ → ℕ) (coin : ℕ → ℕ → Bool) (n : ℕ) (memory : ℕ → ℕ → ℕ) (x y : ℕ)
    → x < n
    → y < n
    → gengraph rand coin n memory (shuffled rand n x) (shuffled rand n y) ≡ wanted coin x y
unfolding gengraph
gengraph_lem rand coin n memory x y p q =
    let perm : ℕ → ℕ = shuffled rand n in
    let v = shuffled-IsPerm rand n in
    elim (ℕ_discrete x y) [
      | yes e ↦
          let nothing : wanted coin x y ≡ 0 = ground arith in
          ap (λ z. fill_rows coin perm n memory n (perm x) (perm z)) (sym e)
          ∙ fill_rows_diagonal coin n perm v n memory (perm x) (omega arith) (v.below x p)
          ∙ sym nothing
      | no ne ↦ fill_rows_apart coin n perm v n memory x y (omega arith) p q ne (ground arith)
    ]
