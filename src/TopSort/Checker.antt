-- ===== src/TopSort/Checker.antt =====
-- `isTopologicalSortValid` of Assignment_05/LA5/boss.c decides that the list is a topological order.
use os_lab_spr.Base.{
  ℕ, zero, suc, ◌+◌, ◌≤◌, ◌<◌, ◌≡◌, ◌≢◌, inl, inr, refl, Bool, true, ◌&&◌, some, arith, ltb,
  if◌then◌else◌, ℤ, pos, negsuc, ◌+ℤ◌, pos_part, neg_part, +ℤ_parts, eqb_ℤ, bit, total, total-zero,
  total-suc, total-add_one, ◌↔◌, ℕ_discrete,
}
use os_lab_spr.TopSort.Cover.{
  IsListing, Listed, total-listing-le, total-le-covered, total-missed, find-Listed, IsListing-upto,
}
use os_lab_spr.TopSort.{
  edge, max_nodes, add_row, drop_row, in_degrees, check_from, is_topological_sort_valid,
}

module _ (n : ℕ) (a : ℕ → ℕ) where
  add_row_value :
      (u k : ℕ) (deg : ℕ → ℤ) (v : ℕ)
      → add_row n a u k deg v ≡ (if ltb v k && edge n a u v then deg v +ℤ pos 1 else deg v)
  unfolding add_row
  add_row_value u zero deg v = ground arith
  add_row_value u (suc k) deg v = elim (ℕ_discrete k v) [
    | yes e ↦ rw (← e) (ground (arith, add_row_value u k deg k))
    | no ne ↦ ground (arith, add_row_value u k deg v)
  ]

  drop_row_value :
      (u k : ℕ) (deg : ℕ → ℤ) (v : ℕ)
      → drop_row n a u k deg v ≡ (if ltb v k && edge n a u v then deg v +ℤ negsuc 0 else deg v)
  unfolding drop_row
  drop_row_value u zero deg v = ground arith
  drop_row_value u (suc k) deg v = elim (ℕ_discrete k v) [
    | yes e ↦ rw (← e) (ground (arith, drop_row_value u k deg k))
    | no ne ↦ ground (arith, drop_row_value u k deg v)
  ]

  -- edges into `v` from the first `k` vertices
  abbrev into : ℕ → ℕ → ℕ
  into v u = bit (edge n a u v)

  in_degrees_value : (k v : ℕ) → v < n → in_degrees n a k v ≡ pos (total k (into v))
  unfolding in_degrees ◌+ℤ◌
  in_degrees_value zero v h = rw total-zero
  in_degrees_value (suc k) v h =
      ground (
        arith,
        add_row_value k n (in_degrees n a k) v,
        in_degrees_value k v h,
        total-suc k (into v),
      )

  -- What the counters hold when `i` entries of the list are checked off.
  abbrev Counts : (ℕ → ℕ) → ℕ → (ℕ → ℤ) → Type 0
  Counts t i deg =
      (v : ℕ)
      → v < n
      → pos_part (deg v) + total i (λ j. into v (t j)) ≡ neg_part (deg v) + total n (into v)

  Counts-start : (t : ℕ → ℕ) → Counts t 0 (in_degrees n a n)
  Counts-start t v h = rw (in_degrees_value n v h) (omega (arith, total-zero (λ j. into v (t j))))

  Counts-drop :
      (t : ℕ → ℕ) (i : ℕ) (deg : ℕ → ℤ)
      → Counts t i deg
      → Counts t (i + 1) (drop_row n a (t i) n deg)
  Counts-drop t i deg c v h = ground (
    arith,
    c v h,
    drop_row_value (t i) n deg v,
    +ℤ_parts (deg v) (negsuc 0),
    total-add_one i (λ j. into v (t j)),
  )

  -- Entry `k` has all its edges from entries before it.
  abbrev Balanced : (ℕ → ℕ) → ℕ → Type 0
  Balanced t k = total k (λ j. into (t k) (t j)) ≡ total n (into (t k))

  test_iff :
      (t : ℕ → ℕ) (i : ℕ) (deg : ℕ → ℤ)
      → Counts t i deg
      → t i < n
      → (eqb_ℤ (deg (t i)) (pos 0) ≡ true) ↔ Balanced t i
  test_iff t i deg c r = (λ h. ground (arith, c (t i) r), λ h. ground (arith, c (t i) r))

  -- `check_from` passes exactly when every entry from `i` on is balanced.
  check_from_iff :
      (rounds i : ℕ) (t : ℕ → ℕ) (deg : ℕ → ℤ)
      → i + rounds ≡ n
      → ((j : ℕ) → j < n → t j < n)
      → Counts t i deg
      → (check_from n a t rounds i deg ≡ true) ↔ ((k : ℕ) → i ≤ k → k < n → Balanced t k)
  unfolding check_from
  check_from_iff zero i t deg e r c = (λ _ k p q. absurd (omega arith), λ _. refl)
  check_from_iff (suc rounds) i t deg e r c =
      let later =
        check_from_iff rounds (i + 1) t (drop_row n a (t i) n deg) (omega arith) r
          (Counts-drop t i deg c) in
      let here = test_iff t i deg c (r i (omega arith)) in
      (
        λ h k p q. elim (ℕ_discrete i k) [
          | yes same ↦ rw (← same) (here.0 (ground arith))
          | no ne ↦ later.0 (ground arith) k (omega arith) q
        ],
        λ all.
            rw (here.1 (all i (omega arith) (omega arith)))
              (later.1 (λ k p q. all k (omega arith) q)),
      )

  -- A balanced entry is one whose edges all come from entries before it.
  Balanced-iff :
      (t : ℕ → ℕ) (k : ℕ)
      → IsListing n t k
      → Balanced t k ↔ ((u : ℕ) → u < n → edge n a u (t k) ≡ true → Listed t k u)
  Balanced-iff t k l = (
    λ b u p e. elim (find-Listed t k u) [
      | inl found ↦ found
      | inr out ↦ absurd (missed b u p e out)
    ],
    λ all. omega (
      arith,
      total-listing-le k n t (into (t k)) l,
      total-le-covered k n t (into (t k)) l.range (λ u p q. all u p (ground arith)),
    ),
  )
    where
      missed :
          Balanced t k → (u : ℕ) → u < n → edge n a u (t k) ≡ true → ¬ ((j : ℕ) → j < k → t j ≢ u)
      missed b u p e none_is =
          let one : into (t k) u ≡ 1 = rw e in
          absurd (omega (arith, one, total-missed k n t (into (t k)) u l p none_is))

-- The entries of `t` are in topological order: every edge into one comes from one before it.
abbrev pub IsTopological : ℕ → (ℕ → ℕ) → (ℕ → ℕ) → Type 0
IsTopological n a t = (k u : ℕ) → k < n → u < n → edge n a u (t k) ≡ true → Listed t k u

-- On a list of all vertices of a graph of at most `MAX_NODES`, the check returns, and returns 1
-- exactly when the list is in topological order.
pub is_topological_sort_valid_iff :
    (n : ℕ) (a t : ℕ → ℕ)
    → n ≤ max_nodes
    → IsListing n t n
    → (b : Bool) × (is_topological_sort_valid a t n ≡ some b) × ((b ≡ true) ↔ IsTopological n a t)
unfolding is_topological_sort_valid
is_topological_sort_valid_iff n a t h l =
    let c =
      check_from_iff n a n 0 t (in_degrees n a n) (omega arith) l.range (Counts-start n a t) in
    (
      check_from n a t n 0 (in_degrees n a n),
      ground arith,
      (
        λ ok k u p q e.
            (Balanced-iff n a t k (IsListing-upto k (omega arith) l)).0 (c.0 ok k (omega arith) p) u
              q e,
        λ all. c.1 (λ k p q.
            (Balanced-iff n a t k (IsListing-upto k (omega arith) l)).1 (λ u r e. all k u q r e)),
      ),
    )
