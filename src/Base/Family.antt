-- ===== src/Base/Family.antt =====
-- A block of memory as a family `ℕ → A` read at its indices: a store at one index, and the sum of
-- a weight over the first entries.
use Prim.Native.Nat.{ℕ, zero, suc, ◌+◌, ◌≤◌, ◌<◌}
use mathlib.Core.Path.{◌≡◌, refl, fun_ext}
use mathlib.Core.Logic.{◌≢◌}
use mathlib.Core.Bool.{Bool, true, false}
use native.Mathlib.Omega.{arith}
use native.Mathlib.Decide.{dec_lt, ℕ_discrete}
use os_lab_spr.Base.Tests.{◌==◌, if◌then◌else◌}

-- `a[i] = x`
abbrev pub store {ℓ} : {A : Type ℓ} → (ℕ → A) → ℕ → A → ℕ → A
store a i x j = if i == j then x else a j

-- `t = a[i]; a[i] = a[j]; a[j] = t`
abbrev pub swap {ℓ} : {A : Type ℓ} → (ℕ → A) → ℕ → ℕ → ℕ → A
swap a i j = store (store a i (a j)) j (a i)

module _ {ℓ} {A : Type ℓ} (w : A → ℕ) where
  pub sum_of : ℕ → (ℕ → A) → ℕ
  sum_of zero a = 0
  sum_of (suc n) a = sum_of n a + w (a n)

  pub sum_of-none : (a : ℕ → A) → sum_of 0 a ≡ 0
  unfolding sum_of
  sum_of-none a = refl

  pub sum_of-suc : (n : ℕ) (a : ℕ → A) → sum_of (n + 1) a ≡ sum_of n a + w (a n)
  unfolding sum_of
  sum_of-suc n a = ground arith

  -- A store past the summed part is not seen.
  pub sum_of-store_out :
      (n : ℕ) (a : ℕ → A) (i : ℕ) (x : A) → n ≤ i → sum_of n (store a i x) ≡ sum_of n a
  unfolding sum_of
  sum_of-store_out zero a i x h = refl
  sum_of-store_out (suc n) a i x h = ground (arith, sum_of-store_out n a i x)

  -- A store inside it trades the old entry for the new one.
  pub sum_of-store :
      (n : ℕ) (a : ℕ → A) (i : ℕ) (x : A)
      → i < n
      → sum_of n (store a i x) + w (a i) ≡ sum_of n a + w x
  unfolding sum_of
  sum_of-store zero a i x h = absurd (omega arith)
  sum_of-store (suc n) a i x h = elim (dec_lt i n) [
    | yes below ↦ ground (arith, sum_of-store n a i x below)
    | no last ↦ ground (arith, sum_of-store_out n a i x)
  ]

  -- A swap inside it keeps the sum.
  pub sum_of-swap :
      (n : ℕ) (a : ℕ → A) (i j : ℕ) → i < n → j < n → sum_of n (swap a i j) ≡ sum_of n a
  sum_of-swap n a i j hi hj =
      ground (arith, sum_of-store n a i (a j), sum_of-store n (store a i (a j)) j (a i))

  -- The sum is zero exactly when every weight is.
  pub sum_of-zero : (n : ℕ) (a : ℕ → A) → ((i : ℕ) → i < n → w (a i) ≡ 0) → sum_of n a ≡ 0
  unfolding sum_of
  sum_of-zero zero a h = refl
  sum_of-zero (suc n) a h =
      omega (arith, sum_of-zero n a (λ i p. h i (omega arith)), h n (omega arith))

  pub zero-sum_of : (n : ℕ) (a : ℕ → A) (i : ℕ) → sum_of n a ≡ 0 → i < n → w (a i) ≡ 0
  unfolding sum_of
  zero-sum_of zero a i h p = absurd (omega arith)
  zero-sum_of (suc n) a i h p = ground (arith, zero-sum_of n a i)

abbrev pub bit : Bool → ℕ
bit true = 1
bit false = 0

-- The sum of the first `n` numbers of a family.
pub total : ℕ → (ℕ → ℕ) → ℕ
total zero f = 0
total (suc n) f = total n f + f n

pub total-zero : (f : ℕ → ℕ) → total 0 f ≡ 0
unfolding total
total-zero f = refl

pub total-suc : (n : ℕ) (f : ℕ → ℕ) → total (suc n) f ≡ total n f + f n
unfolding total
total-suc n f = refl

pub total-add_one : (n : ℕ) (f : ℕ → ℕ) → total (n + 1) f ≡ total n f + f n
unfolding total
total-add_one n f = ground arith

pub total-eq : (n : ℕ) (f g : ℕ → ℕ) → ((i : ℕ) → i < n → f i ≡ g i) → total n f ≡ total n g
unfolding total
total-eq zero f g h = refl
total-eq (suc n) f g h = omega (arith, total-eq n f g (λ i p. h i (omega arith)), h n (omega arith))

pub total-le : (n : ℕ) (f g : ℕ → ℕ) → ((i : ℕ) → i < n → f i ≤ g i) → total n f ≤ total n g
unfolding total
total-le zero f g h = omega arith
total-le (suc n) f g h = omega (arith, total-le n f g (λ i p. h i (omega arith)), h n (omega arith))

-- A change at one index.
pub total-change :
    (n : ℕ) (f g : ℕ → ℕ) (i : ℕ)
    → i < n
    → ((j : ℕ) → j ≢ i → f j ≡ g j)
    → total n g + f i ≡ total n f + g i
unfolding total
total-change zero f g i p h = absurd (omega arith)
total-change (suc n) f g i p h = elim (dec_lt i n) [
  | yes below ↦ omega (arith, total-change n f g i below h, h n (omega arith))
  | no last ↦
      let e : i ≡ n = omega arith in rw e (omega (arith, total-eq n f g (λ j q. h j (omega arith))))
]

pub le-total : (n : ℕ) (f : ℕ → ℕ) (i : ℕ) → i < n → f i ≤ total n f
unfolding total
le-total zero f i p = absurd (omega arith)
le-total (suc n) f i p = ground (arith, le-total n f i)

-- Two families in order with the same sum are equal.
pub total-squeeze :
    (n : ℕ) (f g : ℕ → ℕ)
    → ((i : ℕ) → i < n → f i ≤ g i)
    → total n g ≤ total n f
    → (i : ℕ) → i < n
    → f i ≡ g i
unfolding total
total-squeeze zero f g h t i p = absurd (omega arith)
total-squeeze (suc n) f g h t i p =
    let below = total-le n f g (λ j q. h j (omega arith)) in
    let at = h n (omega arith) in
    elim (dec_lt i n) [
      | yes q ↦ total-squeeze n f g (λ j r. h j (omega arith)) (omega arith) i q
      | no q ↦ let e : i ≡ n = omega arith in rw e (omega arith)
    ]

pub total-null : (n : ℕ) (f : ℕ → ℕ) → ((i : ℕ) → i < n → f i ≡ 0) → total n f ≡ 0
unfolding total
total-null zero f h = refl
total-null (suc n) f h = omega (arith, total-null n f (λ i p. h i (omega arith)), h n (omega arith))

pub total-le-size : (n : ℕ) (f : ℕ → ℕ) → ((i : ℕ) → i < n → f i ≤ 1) → total n f ≤ n
unfolding total
total-le-size zero f h = omega arith
total-le-size (suc n) f h =
    omega (arith, total-le-size n f (λ i p. h i (omega arith)), h n (omega arith))

pub total-plus : (n : ℕ) (f g : ℕ → ℕ) → total n (λ j. f j + g j) ≡ total n f + total n g
unfolding total
total-plus zero f g = refl
total-plus (suc n) f g = omega (arith, total-plus n f g)

pub total-single : (n i x : ℕ) → i < n → total n (λ j. if i == j then x else 0) ≡ x
unfolding total
total-single zero i x low = absurd (omega arith)
total-single (suc n) i x low = elim (ℕ_discrete i n) [
  | yes e ↦
      let off : total n (λ j. if i == j then x else 0) ≡ 0 =
        total-null n (λ j. if i == j then x else 0) (λ j p. ground arith) in
      ground arith
  | no ne ↦ let ih = total-single n i x (omega arith) in ground arith
]

-- The sum over a family of states, after a store at one index.
pub total-at {ℓ} :
    {A : Type ℓ} (w : ℕ → A → ℕ) (n : ℕ) (a : ℕ → A) (i : ℕ) (x : A)
    → i < n
    → total n (λ j. w j (store a i x j)) + w i (a i) ≡ total n (λ j. w j (a j)) + w i x
total-at w n a i x p =
    let same : w i (store a i x i) ≡ w i x = ground arith in
    omega (
      arith,
      same,
      total-change n (λ j. w j (a j)) (λ j. w j (store a i x j)) i p (λ j ne. ground arith),
    )

pub two-total : (n : ℕ) (f : ℕ → ℕ) (i j : ℕ) → i < n → j < n → i ≢ j → f i + f j ≤ total n f
two-total n f i j p q ne =
    let g = store f i 0 in
    let at : g i ≡ 0 = ground arith in
    let other : g j ≡ f j = ground arith in
    omega (arith, at, other, total-change n f g i p (λ k d. ground arith), le-total n g j q)

pub total-full :
    (n : ℕ) (f : ℕ → ℕ) → ((i : ℕ) → f i ≤ 1) → total n f ≡ n → (i : ℕ) → i < n → f i ≡ 1
total-full n f small e =
    total-squeeze n f (λ _. 1) (λ i _. small i)
      (omega (arith, e, total-le-size n (λ _. 1) (λ i _. omega arith)))

-- Where a sum is smaller than another, some entry is.
pub total-lt_find : (n : ℕ) (f g : ℕ → ℕ) → total n f < total n g → (i : ℕ) × (i < n) × (f i < g i)
unfolding total
total-lt_find zero f g h = absurd (omega arith)
total-lt_find (suc n) f g h = elim (dec_lt (f n) (g n)) [
  | yes at ↦ (n, omega arith, at)
  | no off ↦ let (i, p, q) = total-lt_find n f g (omega arith) in (i, omega arith, q)
]

pub total-shorter : (i n : ℕ) (f : ℕ → ℕ) → i < n → total i f + f i ≤ total n f
unfolding total
total-shorter i zero f h = absurd (omega arith)
total-shorter i (suc n) f h = elim (ℕ_discrete i n) [
  | yes e ↦ rw e (omega arith)
  | no ne ↦ omega (arith, total-shorter i n f (omega arith))
]

pub total-one : (n : ℕ) → total n (λ _. 1) ≡ n
unfolding total
total-one zero = refl
total-one (suc n) = omega (arith, total-one n)

pub store_self {ℓ} : {A : Type ℓ} (a : ℕ → A) (i : ℕ) (x : A) → store a i x i ≡ x
store_self a i x = ground arith

pub store-store {ℓ} :
    {A : Type ℓ} (a : ℕ → A) (i : ℕ) (x y : A) → store (store a i x) i y ≡ store a i y
store-store a i x y = fun_ext (λ j. ground arith)
