-- ===== src/Sync/Copy.antt =====
-- Assignment_09/code.c: `copy_file`, block by block.
use os_lab_spr.Base.{
  ℕ, zero, suc, ◌+◌, ◌<◌, true, some, List, [], ◌∷◌, ◌++◌, ◌==◌, ◌≡◌, refl, sym, ap, ◌∙◌, arith,
  Bool-cases, inl, inr,
}
use os_lab_spr.Sync.{File, ok, copy_from, copy_file, fread, buffer_size, length}
use mathlib.Core.List.{append-nil, append_assoc}

fread_joined : (room : ℕ) (bs : List ℕ) → (fread room bs).0 ++ (fread room bs).1 ≡ bs
unfolding fread
fread_joined zero bs = refl
fread_joined (suc room) [] = refl
fread_joined (suc room) (b ∷ bs) = ap (λ l. b ∷ l) (fread_joined room bs)

length-append : (a b : List ℕ) → length (a ++ b) ≡ length a + length b
length-append [] b = omega arith
length-append (x ∷ a) b = let ih = length-append a b in omega arith

-- A read of some room returns nothing at the end of the file only.
fread_nothing : (room : ℕ) (bs : List ℕ) → (length (fread (suc room) bs).0 == 0) ≡ true → bs ≡ []
unfolding fread
fread_nothing room [] h = refl
fread_nothing room (b ∷ bs) h = ground arith

pub copy_from_complete :
    (fuel : ℕ) (bs out : List ℕ) → length bs < fuel → copy_from fuel bs out ≡ some (out ++ bs)
unfolding copy_from
copy_from_complete zero bs out h = ground arith
copy_from_complete (suc fuel) bs out h =
    let r : List ℕ × List ℕ = fread buffer_size bs in
    let parts : length r.0 + length r.1 ≡ length bs =
      sym (length-append r.0 r.1) ∙ ap length (fread_joined buffer_size bs) in
    elim (Bool-cases (length (fread buffer_size bs).0 == 0)) [
      | inl e ↦ rw e (rw (fread_nothing 4095 bs e) (ap some (sym (append-nil out))))
      | inr e ↦ rw e (
          copy_from_complete fuel r.1 (out ++ r.0) (ground arith)
          ∙ ap some (append_assoc out r.0 r.1 ∙ ap (λ l. out ++ l) (fread_joined buffer_size bs)))
    ]

-- What `copy_file` writes is the file.
pub copy_file-copies : (s : File) → copy_file s ≡ ok s
copy_file-copies s = rw (copy_from_complete (suc (length s.bytes)) s.bytes [] (omega arith)) refl
