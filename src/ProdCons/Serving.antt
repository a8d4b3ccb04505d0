-- ===== src/ProdCons/Serving.antt =====
-- Assignment_04/prodcons.c: the consumers that items are drawn for.
use os_lab_spr.Base.{
  ℕ, zero, suc, ◌≡◌, inl, inr, refl, sym, ap, ◌∙◌, Bool, true, false, ◌&&◌, ◌==◌, ltb, arith,
  Bool-cases, List, [], ◌∷◌,
}
use os_lab_spr.ProdCons.{
  Cell, empty, item_for, over, Producer, offering, filling, ended, Consumer, watching, adding,
  clearing, exited, Shop, offer, produce, look, consume, turn, run,
}
use os_lab_spr.ProdCons.Protocol.{left}

-- Items are drawn for the consumers 1 to `n`.
abbrev pub serves : ℕ → ℕ → Bool
serves n zero = false
serves n (suc i) = ltb i n

abbrev pub all_serve : ℕ → List (ℕ × ℕ) → Bool
all_serve n [] = true
all_serve n (d ∷ draws) = serves n d.0 && all_serve n draws

abbrev pub cell_serves : ℕ → Cell → Bool
cell_serves n empty = true
cell_serves n (item_for c) = serves n c
cell_serves n over = true

abbrev pub Served : ℕ → Shop → Type 0
Served n s = (all_serve n (left s.producer) ≡ true) × (cell_serves n s.m0 ≡ true)

module _ (n : ℕ) (s : Shop) (served : Served n s) where
  offer-Served :
      (rest : List (ℕ × ℕ)) (m : Cell) → s.producer ≡ offering rest → Served n (offer rest m s)
  offer-Served [] empty here = (refl, refl)
  offer-Served (d ∷ rest) empty here =
      let all = sym (ap (λ p. all_serve n (left p)) here) ∙ served.0 in
      (ground (arith, all), ground (arith, all))
  offer-Served [] (item_for c) here = served
  offer-Served (d ∷ rest) (item_for c) here = served
  offer-Served [] over here = served
  offer-Served (d ∷ rest) over here = served

  produce-Served : (p : Producer) → s.producer ≡ p → Served n (produce p s)
  produce-Served (offering rest) here = offer-Served rest s.m0 here
  produce-Served (filling c item rest) here =
      (sym (ap (λ p. all_serve n (left p)) here) ∙ served.0, served.1)
  produce-Served ended here = served

  look-Served : (i : ℕ) (m : Cell) → Served n (look i m s)
  look-Served i empty = served
  look-Served i (item_for c) = elim (Bool-cases (c == i)) [
    | inl e ↦ rw e served
    | inr e ↦ rw e served
  ]
  look-Served i over = served

  consume-Served : (i : ℕ) (p : Consumer) → Served n (consume i p s)
  consume-Served i watching = look-Served i s.m0
  consume-Served i adding = served
  consume-Served i clearing = (served.0, refl)
  consume-Served i exited = served

  pub turn-Served : (i : ℕ) → Served n (turn n s i)
  unfolding turn
  turn-Served zero = produce-Served s.producer refl
  turn-Served (suc i) = elim (Bool-cases (ltb i n)) [
    | inl e ↦ rw e (consume-Served (suc i) (s.consumer (suc i)))
    | inr e ↦ rw e served
  ]

pub run-Served : (n : ℕ) (is : List ℕ) (s : Shop) → Served n s → Served n (run n s is)
unfolding run
run-Served n [] s served = served
run-Served n (i ∷ is) s served = run-Served n is (turn n s i) (turn-Served n s served i)
