-- ===== src/ProdCons/Counts.antt =====
-- Assignment_04/prodcons.c: what the two sides have counted at the end.
use os_lab_spr.Base.{ℕ, suc, ◌≡◌, refl, ap, ◌∙◌, true, ltb, arith, List, [], ◌∷◌}
use mathlib.Core.Bool.{false≢true}
use os_lab_spr.ProdCons.{Cell, empty, item_for, over, ended, exited, Shop, open_shop, turn, run}
use os_lab_spr.ProdCons.Protocol.{
  drawn, left, named, unfilled, is_ended, is_over, open_shop-Sound, run-Sound,
}

-- Whatever the turns of the producer and the consumers, once the producer has written its -1 each consumer
-- has read as many items as the producer has counted for it, and these are all that were drawn for it.
pub counts_agree :
    (n : ℕ) (draws : List (ℕ × ℕ)) (is : List ℕ)
    → (run n (open_shop draws) is).producer ≡ ended
    → (c : ℕ)
    → ((run n (open_shop draws) is).count c ≡ (run n (open_shop draws) is).num_items c)
      × ((run n (open_shop draws) is).num_items c ≡ drawn c draws)
counts_agree n draws is end c =
    let s : Shop = run n (open_shop draws) is in
    let sound = run-Sound n draws is (open_shop draws) (open_shop-Sound draws) in
    let taken = sound.taken c in
    let given = sound.given c in
    let nothing_left = ap (λ p. drawn c (left p)) end in
    let nothing_open = ap (λ p. unfilled p c) end in
    let nothing_named = over_named s.m0 c (sound.last ∙ ap is_ended end) in
    (omega arith, omega arith)
  where
    over_named : (m : Cell) (c : ℕ) → is_over m ≡ true → named m c ≡ 0
    over_named over c h = refl
    over_named empty c h = refl
    over_named (item_for d) c h = absurd (false≢true h)

-- An item that is drawn for the first consumer is not what the consumer adds up in some turns: it reads
-- M[1] after the producer has named it in M[0] and before the producer has stored the item.
pub stale_item :
    (n item : ℕ)
    → (is : List ℕ) × ((run (suc n) (open_shop ((1, item) ∷ [])) is).consumer 1 ≡ exited)
      × ((run (suc n) (open_shop ((1, item) ∷ [])) is).sum 1 ≡ 0)
      × ((run (suc n) (open_shop ((1, item) ∷ [])) is).sum_items 1 ≡ item)
unfolding run turn
stale_item n item =
    let inside : ltb 0 (suc n) ≡ true = ground arith in
    (0 ∷ 1 ∷ 1 ∷ 1 ∷ 0 ∷ 0 ∷ 1 ∷ [], rw inside refl, rw inside refl, rw inside (omega arith))
