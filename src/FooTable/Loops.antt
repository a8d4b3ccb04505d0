-- ===== src/FooTable/Loops.antt =====
-- Assignment_07/foothread.c: the loops over the thread table.
use os_lab_spr.Base.{
  ℕ, zero, suc, ◌+◌, ◌≤◌, ◌<◌, ◌≡◌, ◌⊎◌, inl, inr, ◌≢◌, refl, Bool, true, false, store, arith,
  Bool-cases, dec_lt,
}
use os_lab_spr.FooTable.{first, count_of}

-- `first` stops at an index that passes the test, or at the end.
pub first_lem :
    (test : ℕ → Bool) (n i : ℕ)
    → (i ≤ first test n i)
      × (first test n i ≤ i + n)
      × ((first test n i ≡ i + n) ⊎ (test (first test n i) ≡ true))
unfolding first
first_lem test zero i = (omega arith, omega arith, inl (omega arith))
first_lem test (suc n) i =
    let (low, high, stop) = first_lem test n (i + 1) in
    elim (Bool-cases (test i)) [
      | inl e ↦ rw e (omega arith, omega arith, inr e)
      | inr e ↦
          rw e
            (omega arith, omega arith, elim stop [ inl at ↦ inl (omega arith) | inr at ↦ inr at ])
    ]

-- One that passes stops it before the end.
pub first_stops :
    (test : ℕ → Bool) (n i j : ℕ) → i ≤ j → j < i + n → test j ≡ true → first test n i ≤ j
unfolding first
first_stops test zero i j low high h = absurd (omega arith)
first_stops test (suc n) i j low high h = elim (Bool-cases (test i)) [
  | inl e ↦ rw e low
  | inr e ↦ rw e (first_stops test n (i + 1) j (ground arith) (omega arith) h)
]

pub count_of-zero : (test : ℕ → Bool) → count_of 0 test ≡ 0
unfolding count_of
count_of-zero test = refl

-- A test that lets more through counts more.
pub count_of_le :
    (n : ℕ) (a b : ℕ → Bool) → ((i : ℕ) → a i ≡ true → b i ≡ true) → count_of n a ≤ count_of n b
unfolding count_of
count_of_le zero a b h = omega arith
count_of_le (suc n) a b h = let ih = count_of_le n a b h in let at = h n in ground arith

pub count_of_lt :
    (n : ℕ) (a b : ℕ → Bool) (k : ℕ)
    → ((i : ℕ) → a i ≡ true → b i ≡ true)
    → k < n
    → a k ≡ false
    → b k ≡ true
    → count_of n a + 1 ≤ count_of n b
unfolding count_of
count_of_lt zero a b k h p off on = absurd (omega arith)
count_of_lt (suc n) a b k h p off on = elim (dec_lt k n) [
  | yes below ↦ let ih = count_of_lt n a b k h below off on in let at = h n in ground arith
  | no last ↦ let same : k ≡ n = omega arith in let ih = count_of_le n a b h in ground arith
]

-- Where the smaller count is as large, the tests agree.
pub count_of_full :
    (n : ℕ) (a b : ℕ → Bool)
    → ((i : ℕ) → a i ≡ true → b i ≡ true)
    → count_of n b ≤ count_of n a
    → (k : ℕ) → k < n
    → b k ≡ true
    → a k ≡ true
count_of_full n a b h le k p at = elim (Bool-cases (a k)) [
  | inl e ↦ e
  | inr e ↦ let more = count_of_lt n a b k h p e at in absurd (omega arith)
]

pub store_cases :
    {A : Type 0} (a : ℕ → A) (i : ℕ) (x : A) (j : ℕ)
    → ((i ≡ j) × (store a i x j ≡ x)) ⊎ ((i ≢ j) × (store a i x j ≡ a j))
store_cases a i x j = ground arith
