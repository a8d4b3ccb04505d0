-- ===== src/ProdCons/Tests.antt =====
-- A producer of Assignment_04/prodcons.c with two consumers and three items.
use os_lab_spr.Base.{ℕ, ◌≡◌, refl, true, List, [], ◌∷◌}
use os_lab_spr.ProdCons.{open_shop, turn, run, ended, exited}
use os_lab_spr.ProdCons.Protocol.{drawn, is_ended}
use os_lab_spr.ProdCons.Counts.{counts_agree, stale_item}
use os_lab_spr.ProdCons.Measure.{staff}
use os_lab_spr.ProdCons.Ending.{all_end}

abbrev draws : List (ℕ × ℕ)
draws = (2, 150) ∷ (1, 300) ∷ (2, 777) ∷ []

-- One item after the other is stored and read, and then the producer ends.
abbrev turns : List ℕ
turns = 0 ∷ 0 ∷ 1 ∷ 2 ∷ 2 ∷ 2 ∷ 0 ∷ 0 ∷ 1 ∷ 0 ∷ 1 ∷ 1 ∷ 0 ∷ 0 ∷ 2 ∷ 2 ∷ 2 ∷ 0 ∷ 2 ∷ 1 ∷ []

producer_ends : (run 2 (open_shop draws) turns).producer ≡ ended
unfolding run turn
producer_ends = refl

sums_right : (run 2 (open_shop draws) turns).sum 2 ≡ 927
unfolding run turn
sums_right = refl

counts_agree_example :
    ((run 2 (open_shop draws) turns).count 2 ≡ (run 2 (open_shop draws) turns).num_items 2)
    × ((run 2 (open_shop draws) turns).num_items 2 ≡ drawn 2 draws)
counts_agree_example = counts_agree 2 draws turns producer_ends 2

all_end_example :
    (js : List ℕ) × (is_ended (run 2 (run 2 (open_shop draws) turns) js).producer ≡ true)
    × (staff 2 (run 2 (run 2 (open_shop draws) turns) js).consumer ≡ 0)
all_end_example = all_end 2 draws turns refl

stale_item_added :
    (is : List ℕ) × ((run 4 (open_shop ((1, 500) ∷ [])) is).consumer 1 ≡ exited)
    × ((run 4 (open_shop ((1, 500) ∷ [])) is).sum 1 ≡ 0)
    × ((run 4 (open_shop ((1, 500) ∷ [])) is).sum_items 1 ≡ 500)
stale_item_added = stale_item 3 500
