-- ===== src/ProdCons/Measure.antt =====
-- Assignment_04/prodcons.c: how much the producer and the consumers still have to do.
use os_lab_spr.Base.{
  ℕ, suc, ◌+◌, ◌*◌, ◌≤◌, ◌<◌, ◌≡◌, ap, true, ◌==◌, if◌then◌else◌, store, arith, total, total-at,
  total-eq, List, [], ◌∷◌,
}
use os_lab_spr.ProdCons.{
  Cell, empty, item_for, over, Producer, offering, filling, ended, Consumer, watching, adding,
  clearing, exited, Shop,
}

-- How much there is still to do.
abbrev length : List (ℕ × ℕ) → ℕ
length [] = 0
length (d ∷ draws) = length draws + 1

abbrev pub offers : Producer → ℕ
offers (offering draws) = 6 * length draws + 1
offers (filling c item rest) = 6 * length rest + 2
offers ended = 0

abbrev pub waits : Consumer → ℕ
waits watching = 3
waits adding = 2
waits clearing = 1
waits exited = 0

abbrev pub slot : Cell → (ℕ → Consumer) → ℕ
slot empty a = 0
slot (item_for c) a = waits (a c)
slot over a = 0

abbrev pub stays_in : Consumer → ℕ
stays_in exited = 0
stays_in _ = 1

abbrev pub staff : ℕ → (ℕ → Consumer) → ℕ
staff n a = total n (λ j. stays_in (a (suc j)))

abbrev pub ahead : ℕ → Shop → ℕ
ahead n s = offers s.producer + slot s.m0 s.consumer + staff n s.consumer

pub ==_self : (p : ℕ) → (p == p) ≡ true
==_self p = ground arith

suc_== : (i j : ℕ) → (suc i == suc j) ≡ (i == j)
suc_== i j = ground arith

same_index :
    (a : ℕ → Consumer) (i : ℕ) (q : Consumer) (j : ℕ)
    → store a (suc i) q (suc j) ≡ store (λ k. a (suc k)) i q j
same_index a i q j = ap (λ b. if b then q else a (suc j)) (suc_== i j)

pub waits_small : (p : Consumer) → waits p ≤ 3
waits_small watching = omega arith
waits_small adding = omega arith
waits_small clearing = omega arith
waits_small exited = omega arith

pub staff-store :
    (n : ℕ) (a : ℕ → Consumer) (i : ℕ) (q : Consumer)
    → i < n
    → staff n (store a (suc i) q) + stays_in (a (suc i)) ≡ staff n a + stays_in q
staff-store n a i q low =
    let shifted =
      total-eq n (λ j. stays_in (store a (suc i) q (suc j)))
        (λ j. stays_in (store (λ k. a (suc k)) i q j)) (λ j p. ap stays_in (same_index a i q j)) in
    let moves = total-at (λ _. stays_in) n (λ k. a (suc k)) i q low in omega arith
