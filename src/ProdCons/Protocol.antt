-- ===== src/ProdCons/Protocol.antt =====
-- Assignment_04/prodcons.c: how the two cells and the counts hang together.
use os_lab_spr.Base.{
  ℕ, zero, suc, ◌+◌, ◌≡◌, ◌⊎◌, inl, inr, ◌≢◌, refl, sym, ap, ◌∙◌, Bool, true, false, ◌==◌, ltb,
  store, bit, arith, Bool-cases, store_self, ℕ_discrete, List, [], ◌∷◌,
}
use mathlib.Core.Bool.{false≢true}
use os_lab_spr.ProdCons.{
  Cell, empty, item_for, over, Producer, offering, filling, ended, Consumer, watching, adding,
  clearing, exited, Shop, open_shop, offer, produce, look, consume, turn, run,
}

-- How many of the items drawn are for a consumer.
abbrev pub drawn : ℕ → List (ℕ × ℕ) → ℕ
drawn c [] = 0
drawn c (d ∷ draws) = bit (d.0 == c) + drawn c draws

abbrev pub left : Producer → List (ℕ × ℕ)
left (offering draws) = draws
left (filling c item rest) = rest
left ended = []

abbrev pub named : Cell → ℕ → ℕ
named empty c = 0
named (item_for d) c = bit (d == c)
named over c = 0

abbrev pub unfilled : Producer → ℕ → ℕ
unfilled (offering draws) c = 0
unfilled (filling d item rest) c = bit (d == c)
unfilled ended c = 0

-- Where a consumer can be, by what `M[0]` holds.
abbrev pub at_work : Consumer → Bool
at_work adding = true
at_work clearing = true
at_work _ = false

abbrev pub is_exited : Consumer → Bool
is_exited exited = true
is_exited _ = false

abbrev pub is_ended : Producer → Bool
is_ended ended = true
is_ended _ = false

abbrev pub is_over : Cell → Bool
is_over over = true
is_over _ = false

pub record Sound (draws : List (ℕ × ℕ)) (s : Shop) : Type 0 where
  pub taken : (c : ℕ) → s.count c + named s.m0 c + drawn c (left s.producer) ≡ drawn c draws
  pub given :
      (c : ℕ) → s.num_items c + unfilled s.producer c + drawn c (left s.producer) ≡ drawn c draws
  pub busy : (i : ℕ) → at_work (s.consumer i) ≡ true → s.m0 ≡ item_for i
  pub gone : (i : ℕ) → is_exited (s.consumer i) ≡ true → is_over s.m0 ≡ true
  pub last : is_over s.m0 ≡ is_ended s.producer

pub open_shop-Sound : (draws : List (ℕ × ℕ)) → Sound draws (open_shop draws)
open_shop-Sound draws = record {
  taken = λ c. omega arith;
  given = λ c. omega arith;
  busy = λ i h. absurd (false≢true h);
  gone = λ i h. absurd (false≢true h);
  last = refl;
}

abbrev is_empty : Cell → Bool
is_empty empty = true
is_empty _ = false

add_bit : (f : ℕ → ℕ) (i j : ℕ) → store f i (f i + 1) j ≡ f j + bit (i == j)
add_bit f i j = ground arith

-- A flag of the consumers after one of them moved.
flag-store :
    (f : Consumer → Bool) (a : ℕ → Consumer) (i : ℕ) (q : Consumer) (j : ℕ)
    → f (store a i q j) ≡ true
    → ((i ≡ j) × (f q ≡ true)) ⊎ ((i ≢ j) × (f (a j) ≡ true))
flag-store f a i q j h = elim (ℕ_discrete i j) [
  | yes e ↦ inl (e, sym (ap f (ap (store a i q) (sym e) ∙ store_self a i q)) ∙ h)
  | no ne ↦ let same : store a i q j ≡ a j = ground arith in inr (ne, sym (ap f same) ∙ h)
]

module _ (draws : List (ℕ × ℕ)) (s : Shop) (sound : Sound draws s) where
  -- Nobody is at work on an item while the cell is empty, or after the end.
  idle : (i : ℕ) → (s.m0 ≡ empty) ⊎ (s.m0 ≡ over) → at_work (s.consumer i) ≡ true → ⊥
  idle i m h = elim m [
    | inl e ↦ absurd (false≢true (ap is_empty (sym (sound.busy i h)) ∙ ap is_empty e))
    | inr e ↦ absurd (false≢true (ap is_over (sym (sound.busy i h)) ∙ ap is_over e))
  ]

  offer-Sound :
      (rest : List (ℕ × ℕ)) (m : Cell)
      → s.producer ≡ offering rest
      → s.m0 ≡ m
      → Sound draws (offer rest m s)
  offer-Sound [] empty here cell = record {
    taken = λ c.
        let old = sound.taken c in
        let a = ap (λ p. drawn c (left p)) here in let b = ap (λ m. named m c) cell in omega arith;
    given = λ c.
        let old = sound.given c in
        let a = ap (λ p. drawn c (left p)) here in
        let b = ap (λ p. unfilled p c) here in omega arith;
    busy = λ i h. absurd (idle i (inl cell) h);
    gone = λ i h. refl;
    last = refl;
  }
  offer-Sound (d ∷ rest) empty here cell = record {
    taken = λ c.
        let old = sound.taken c in
        let a = ap (λ p. drawn c (left p)) here in let b = ap (λ m. named m c) cell in omega arith;
    given = λ c.
        let old = sound.given c in
        let a = ap (λ p. drawn c (left p)) here in
        let b = ap (λ p. unfilled p c) here in omega arith;
    busy = λ i h. absurd (idle i (inl cell) h);
    gone = λ i h. absurd (false≢true (ap is_over (sym cell) ∙ sound.gone i h));
    last = refl;
  }
  offer-Sound [] (item_for c) here cell = sound
  offer-Sound (d ∷ rest) (item_for c) here cell = sound
  offer-Sound [] over here cell = sound
  offer-Sound (d ∷ rest) over here cell = sound

  produce-Sound : (p : Producer) → s.producer ≡ p → Sound draws (produce p s)
  produce-Sound (offering rest) here = offer-Sound rest s.m0 here refl
  produce-Sound (filling c item rest) here = record {
    taken = λ d. let old = sound.taken d in let a = ap (λ p. drawn d (left p)) here in omega arith;
    given = λ d.
        let old = sound.given d in
        let a = ap (λ p. drawn d (left p)) here in
        let b = ap (λ p. unfilled p d) here in omega (arith, add_bit s.num_items c d);
    busy = sound.busy;
    gone = sound.gone;
    last = sound.last ∙ ap is_ended here;
  }
  produce-Sound ended here = sound

  look-Sound : (i : ℕ) (m : Cell) → s.m0 ≡ m → Sound draws (look i m s)
  look-Sound i empty cell = sound
  look-Sound i (item_for c) cell = elim (Bool-cases (c == i)) [
    | inr e ↦ rw e sound
    | inl e ↦
        let mine : s.m0 ≡ item_for i = let same : c ≡ i = ground arith in cell ∙ ap item_for same in
        rw e record {
          taken = sound.taken;
          given = sound.given;
          busy = λ j h. elim (flag-store at_work s.consumer i adding j h) [
            | inl a ↦ mine ∙ ap item_for a.0
            | inr b ↦ sound.busy j b.1
          ];
          gone = λ j h. elim (flag-store is_exited s.consumer i adding j h) [
            | inl a ↦ absurd (false≢true a.1)
            | inr b ↦ sound.gone j b.1
          ];
          last = sound.last;
        }
  ]
  look-Sound i over cell = record {
    taken = sound.taken;
    given = sound.given;
    busy = λ j h. elim (flag-store at_work s.consumer i exited j h) [
      | inl a ↦ absurd (false≢true a.1)
      | inr b ↦ sound.busy j b.1
    ];
    gone = λ j h. ap is_over cell;
    last = sound.last;
  }

  consume-Sound : (i : ℕ) (p : Consumer) → s.consumer i ≡ p → Sound draws (consume i p s)
  consume-Sound i watching here = look-Sound i s.m0 refl
  consume-Sound i adding here = record {
    taken = sound.taken;
    given = sound.given;
    busy = λ j h. elim (flag-store at_work s.consumer i clearing j h) [
      | inl a ↦ sound.busy i (ap at_work here) ∙ ap item_for a.0
      | inr b ↦ sound.busy j b.1
    ];
    gone = λ j h. elim (flag-store is_exited s.consumer i clearing j h) [
      | inl a ↦ absurd (false≢true a.1)
      | inr b ↦ sound.gone j b.1
    ];
    last = sound.last;
  }
  consume-Sound i clearing here =
      let mine = sound.busy i (ap at_work here) in
      record {
        taken = λ d.
            let old = sound.taken d in
            let b = ap (λ m. named m d) mine in omega (arith, add_bit s.count i d);
        given = sound.given;
        busy = λ j h. elim (flag-store at_work s.consumer i watching j h) [
          | inl a ↦ absurd (false≢true a.1)
          | inr b ↦
              let other = ap (λ m. named m i) (sym mine ∙ sound.busy j b.1) in
              let ne = b.0 in absurd (ground arith)
        ];
        gone = λ j h. elim (flag-store is_exited s.consumer i watching j h) [
          | inl a ↦ absurd (false≢true a.1)
          | inr b ↦ absurd (false≢true (ap is_over (sym mine) ∙ sound.gone j b.1))
        ];
        last = sym (ap is_over mine) ∙ sound.last;
      }
  consume-Sound i exited here = sound

pub turn-Sound :
    (n : ℕ) (draws : List (ℕ × ℕ)) (s : Shop) (i : ℕ) → Sound draws s → Sound draws (turn n s i)
unfolding turn
turn-Sound n draws s zero sound = produce-Sound draws s sound s.producer refl
turn-Sound n draws s (suc i) sound = elim (Bool-cases (ltb i n)) [
  | inl e ↦ rw e (consume-Sound draws s sound (suc i) (s.consumer (suc i)) refl)
  | inr e ↦ rw e sound
]

pub run-Sound :
    (n : ℕ) (draws : List (ℕ × ℕ)) (is : List ℕ) (s : Shop)
    → Sound draws s
    → Sound draws (run n s is)
unfolding run
run-Sound n draws [] s sound = sound
run-Sound n draws (i ∷ is) s sound =
    run-Sound n draws is (turn n s i) (turn-Sound n draws s i sound)
