-- ===== src/ProdCons/Ending.antt =====
-- Assignment_04/prodcons.c: the producer and the consumers come to their end.
use os_lab_spr.Base.{
  ℕ, zero, suc, ◌+◌, ◌≤◌, ◌<◌, ◌≡◌, ◌⊎◌, inl, inr, refl, sym, ap, ◌∙◌, true, ltb, if◌then◌else◌,
  store, arith, store_self, ℕ_discrete, total-null, total-lt_find, List, [], ◌∷◌,
}
use mathlib.Core.Bool.{false≢true}
use os_lab_spr.ProdCons.{
  Cell, empty, item_for, over, Producer, offering, filling, ended, Consumer, watching, adding,
  clearing, exited, Shop, open_shop, offer, produce, look, consume, turn, run,
}
use os_lab_spr.ProdCons.Protocol.{
  is_exited, is_ended, is_over, at_work, Sound, open_shop-Sound, turn-Sound, run-Sound,
}
use os_lab_spr.ProdCons.Serving.{all_serve, cell_serves, Served, turn-Served, run-Served}
use os_lab_spr.ProdCons.Measure.{
  offers, waits, slot, stays_in, staff, ahead, ==_self, waits_small, staff-store,
}

is_over_lem : (m : Cell) → is_over m ≡ true → m ≡ over
is_over_lem over h = refl
is_over_lem empty h = absurd (false≢true h)
is_over_lem (item_for c) h = absurd (false≢true h)

module _ (n : ℕ) (draws : List (ℕ × ℕ)) (s : Shop) (sound : Sound draws s)
    (served : Served n s) where
  abbrev Less : Type 0
  Less = (i : ℕ) × (ahead n (turn n s i) < ahead n s)

  filling-Less : (c item : ℕ) (rest : List (ℕ × ℕ)) → s.producer ≡ filling c item rest → Less
  unfolding turn
  filling-Less c item rest here =
      let turned : turn n s 0 ≡ produce (filling c item rest) s = ap (λ p. produce p s) here in
      (0, rw turned (omega (arith, ap offers here)))

  offering-Less : (rest : List (ℕ × ℕ)) → s.producer ≡ offering rest → s.m0 ≡ empty → Less
  unfolding turn
  offering-Less [] here cell =
      let turned : turn n s 0 ≡ offer [] empty s =
        ap (λ p. produce p s) here ∙ ap (λ m. offer [] m s) cell in
      (0, rw turned (omega (arith, ap offers here)))
  offering-Less (d ∷ rest) here cell =
      let turned : turn n s 0 ≡ offer (d ∷ rest) empty s =
        ap (λ p. produce p s) here ∙ ap (λ m. offer (d ∷ rest) m s) cell in
      (0, rw turned (omega (arith, ap offers here, waits_small (s.consumer d.0))))

  turned :
      (i : ℕ)
      → i < n
      → (p : Consumer) → s.consumer (suc i) ≡ p
      → turn n s (suc i) ≡ consume (suc i) p s
  unfolding turn
  turned i low p here =
      let inside : ltb i n ≡ true = ground arith in
      ap (λ b. if b then consume (suc i) (s.consumer (suc i)) s else s) inside
      ∙ ap (λ q. consume (suc i) q s) here

  at_slot :
      (i : ℕ)
      → s.m0 ≡ item_for (suc i)
      → (p : Consumer) → s.consumer (suc i) ≡ p
      → slot s.m0 s.consumer ≡ waits p
  at_slot i cell p here = ap (λ m. slot m s.consumer) cell ∙ ap waits here

  new_slot :
      (i : ℕ)
      → s.m0 ≡ item_for (suc i)
      → (q : Consumer) → slot s.m0 (store s.consumer (suc i) q) ≡ waits q
  new_slot i cell q =
      ap (λ m. slot m (store s.consumer (suc i) q)) cell
      ∙ ap waits (store_self s.consumer (suc i) q)

  moves :
      (i : ℕ)
      → i < n
      → (p q : Consumer) → s.consumer (suc i) ≡ p
      → staff n (store s.consumer (suc i) q) + stays_in p ≡ staff n s.consumer + stays_in q
  moves i low p q here =
      let m = staff-store n s.consumer i q low in let e = ap stays_in here in omega arith

  item-Less :
      (i : ℕ) → i < n → s.m0 ≡ item_for (suc i) → (p : Consumer) → s.consumer (suc i) ≡ p → Less
  item-Less i low cell watching here =
      let seen =
        ap (λ m. look (suc i) m s) cell
        ∙ ap (λ b. if b then record s { consumer = store s.consumer (suc i) adding } else s)
            (==_self (suc i)) in
      (
        suc i,
        rw (turned i low watching here ∙ seen) (
            omega (
              arith,
              at_slot i cell watching here,
              new_slot i cell adding,
              moves i low watching adding here,
            )),
      )
  item-Less i low cell adding here = (
    suc i,
    rw (turned i low adding here) (
        omega (
          arith,
          at_slot i cell adding here,
          new_slot i cell clearing,
          moves i low adding clearing here,
        )),
  )
  item-Less i low cell clearing here = (
    suc i,
    rw (turned i low clearing here)
        (omega (arith, at_slot i cell clearing here, moves i low clearing watching here)),
  )
  item-Less i low cell exited here =
      absurd (false≢true (ap is_over (sym cell) ∙ sound.gone (suc i) (ap is_exited here)))

  over-Less :
      s.m0 ≡ over
      → (i : ℕ) → i < n
      → (p : Consumer) → s.consumer (suc i) ≡ p
      → 0 < stays_in p
      → Less
  over-Less cell i low watching here more =
      let seen = ap (λ m. look (suc i) m s) cell in
      (
        suc i,
        rw (turned i low watching here ∙ seen) (
            omega (
              arith,
              ap (λ m. slot m s.consumer) cell,
              ap (λ m. slot m (store s.consumer (suc i) exited)) cell,
              moves i low watching exited here,
            )),
      )
  over-Less cell i low adding here more =
      absurd
        (false≢true (ap is_over (sym (sound.busy (suc i) (ap at_work here))) ∙ ap is_over cell))
  over-Less cell i low clearing here more =
      absurd
        (false≢true (ap is_over (sym (sound.busy (suc i) (ap at_work here))) ∙ ap is_over cell))
  over-Less cell i low exited here more = absurd (omega arith)

  cell-Less : (m : Cell) → s.m0 ≡ m → (p : Producer) → s.producer ≡ p → (is_ended p ≡ true) ⊎ Less
  cell-Less empty cell (offering rest) here = inr (offering-Less rest here cell)
  cell-Less empty cell ended here = inl refl
  cell-Less over cell ended here = inl refl
  cell-Less over cell (offering rest) here =
      absurd (false≢true (sym (ap is_ended here) ∙ sym sound.last ∙ ap is_over cell))
  cell-Less m cell (filling c item rest) here = inr (filling-Less c item rest here)
  cell-Less (item_for zero) cell p here =
      absurd (false≢true (sym (ap (cell_serves n) cell) ∙ served.1))
  cell-Less (item_for (suc i)) cell p here = inr (
      item-Less i (let inside = sym (ap (cell_serves n) cell) ∙ served.1 in ground arith) cell
        (s.consumer (suc i)) refl)

  over_or_ended : is_ended s.producer ≡ true → s.m0 ≡ over
  over_or_ended end = is_over_lem s.m0 (sound.last ∙ end)

  done_or_Less : ((is_ended s.producer ≡ true) × (staff n s.consumer ≡ 0)) ⊎ Less
  done_or_Less = elim (cell-Less s.m0 refl s.producer refl) [
    | inr less ↦ inr less
    | inl end ↦ elim (ℕ_discrete (staff n s.consumer) 0) [
      | yes e ↦ inl (end, e)
      | no ne ↦
          let (i, low, more) =
            total-lt_find n (λ _. 0) (λ j. stays_in (s.consumer (suc j)))
              (omega (arith, total-null n (λ _. 0) (λ j p. refl))) in
          inr (over-Less (over_or_ended end) i low (s.consumer (suc i)) refl more)
    ]
  ]

ends :
    (fuel n : ℕ) (draws : List (ℕ × ℕ)) (s : Shop)
    → Sound draws s
    → Served n s
    → ahead n s ≤ fuel
    → (js : List ℕ) × (is_ended (run n s js).producer ≡ true) × (staff n (run n s js).consumer ≡ 0)
unfolding run
ends zero n draws s sound served h = elim (done_or_Less n draws s sound served) [
  | inl e ↦ ([], e.0, e.1)
  | inr c ↦ let less = c.1 in absurd (omega arith)
]
ends (suc fuel) n draws s sound served h = elim (done_or_Less n draws s sound served) [
  | inl e ↦ ([], e.0, e.1)
  | inr c ↦
      let less = c.1 in
      let (js, end, gone) =
        ends fuel n draws (turn n s c.0) (turn-Sound n draws s c.0 sound)
          (turn-Served n s served c.0) (omega arith) in
      (c.0 ∷ js, end, gone)
]

-- Where items are drawn for the consumers 1 to n only, after any turns there are further turns after which
-- the producer has written its -1 and all the consumers are at their end.
pub all_end :
    (n : ℕ) (draws : List (ℕ × ℕ)) (is : List ℕ)
    → all_serve n draws ≡ true
    → (js : List ℕ) × (is_ended (run n (run n (open_shop draws) is) js).producer ≡ true)
      × (staff n (run n (run n (open_shop draws) is) js).consumer ≡ 0)
all_end n draws is all =
    let s : Shop = run n (open_shop draws) is in
    ends (ahead n s) n draws s (run-Sound n draws is (open_shop draws) (open_shop-Sound draws))
      (run-Served n is (open_shop draws) (all, refl)) (omega arith)
