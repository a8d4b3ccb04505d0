-- ===== src/Reference/Tests.antt =====
-- Reference strings of Assignment_08 on small inputs.
use os_lab_spr.Base.{◌+◌, ◌*◌, ◌≡◌, refl, arith, [], ◌∷◌, some, pos, ◌≤ℤ◌}
use os_lab_spr.Reference.{
  digits_from, digits, ref_str, atoi_from, strtok, store_pages, process_ref_string, pages_of,
  ref_str_size,
}
use os_lab_spr.Reference.Reads.{length, process_ref_string-ref_str}
use os_lab_spr.Reference.Fits.{ref_str_fits, process_reads}

-- "12|0|"
printed : ref_str (12 ∷ 0 ∷ []) ≡ 49 ∷ 50 ∷ 124 ∷ 48 ∷ 124 ∷ []
unfolding ref_str digits digits_from
printed = refl

-- "|7||3"
skips_empty : process_ref_string (124 ∷ 55 ∷ 124 ∷ 124 ∷ 51 ∷ []) ≡ some (7 ∷ 3 ∷ [])
unfolding process_ref_string strtok store_pages atoi_from
skips_empty = refl

process_ref_string-ref_str_example :
    process_ref_string (ref_str (12 ∷ 0 ∷ 305 ∷ [])) ≡ some (12 ∷ 0 ∷ 305 ∷ [])
process_ref_string-ref_str_example = process_ref_string-ref_str (12 ∷ 0 ∷ 305 ∷ []) (omega arith)

ref_str_fits_example : pos (length (ref_str (pages_of 5 3 (λ i. 7 * i))) + 1) ≤ℤ ref_str_size 5
ref_str_fits_example = ref_str_fits 5 3 (λ i. 7 * i) (omega arith) (omega arith) (omega arith)

reads_drawn :
    process_ref_string (ref_str (pages_of 5 3 (λ i. 7 * i))) ≡ some (pages_of 5 3 (λ i. 7 * i))
reads_drawn = process_reads 5 3 (λ i. 7 * i) (omega arith) (omega arith)
