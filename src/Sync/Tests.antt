-- ===== src/Sync/Tests.antt =====
-- Runs of Assignment_09/code.c on small directories.
use os_lab_spr.Base.{
  ℕ, ◌≡◌, ◌≤◌, ◌==◌, if◌then◌else◌, refl, arith, Bool, true, false, Option, some, none, List, [],
  ◌∷◌,
}
use os_lab_spr.Sync.{
  File, Node, file, dir, Entries, end, entry, added, removed, overwritten, touched, permitted,
  Report, Env, ok, exits, main, sync_items, remove_directory, copy_from, fread,
}
use os_lab_spr.Sync.View.{Leaf, a_dir, a_file, at, clash, Apart, Synced, size}
use os_lab_spr.Sync.Refines.{main-Synced}
use os_lab_spr.Sync.Again.{main_again}
use os_lab_spr.Sync.Ends.{Ends, main-Ends, file_over_directory}

abbrev text : File
text = record { bytes = 72 ∷ 105 ∷ []; mtime = 50; mode = 420 }

abbrev old_text : File
old_text = record { bytes = 72 ∷ []; mtime = 20; mode = 384 }

abbrev here : Env
here = record { unset = λ p. 0; dir_stamp = λ p. (4096, 7); masked = λ m. m }

-- A file and a directory with a file; a changed file and one that is too much.
abbrev source : Entries
source = entry 1 (file text) (entry 2 (dir 493 (entry 3 (file text) end)) end)

abbrev destination : Entries
destination = entry 1 (file old_text) (entry 8 (file old_text) end)

main_run :
    main 6 here (some (dir 493 source)) (some (dir 493 destination))
    ≡ ok (
      some (dir 493 source),
      (overwritten, 1 ∷ [])
          ∷ (touched, 1 ∷ [])
          ∷ (permitted, 1 ∷ [])
          ∷ (added, 2 ∷ [])
          ∷ (touched, 2 ∷ [])
          ∷ (permitted, 2 ∷ [])
          ∷ (added, 2 ∷ 3 ∷ [])
          ∷ (touched, 2 ∷ 3 ∷ [])
          ∷ (permitted, 2 ∷ 3 ∷ [])
          ∷ (removed, 8 ∷ [])
          ∷ [],
    )
unfolding sync_items copy_from fread remove_directory
main_run = refl

-- The destination has no directory, so none is in the way of a file.
file_in_the_way : (l : Option Leaf) (p : List ℕ) → clash l (at p (some (file old_text))) ≡ false
file_in_the_way none p = refl
file_in_the_way (some a_dir) p = refl
file_in_the_way (some (a_file f)) [] = refl
file_in_the_way (some (a_file f)) (x ∷ p) = refl

nothing_in_the_way : (l : Option Leaf) → clash l none ≡ false
nothing_in_the_way none = refl
nothing_in_the_way (some a_dir) = refl
nothing_in_the_way (some (a_file f)) = refl

file_or_none :
    (b c : Bool) (l : Option Leaf) (p : List ℕ)
    → clash l (at p (if b then some (file old_text) else if c then some (file old_text) else none))
      ≡ false
file_or_none true c l p = file_in_the_way l p
file_or_none false true l p = file_in_the_way l p
file_or_none false false l p = nothing_in_the_way l

apart : Apart (some (dir 493 source)) (some (dir 493 destination))
apart [] = refl
apart (x ∷ p) = file_or_none (1 == x) (8 == x) _ p

room : size (dir 493 source) ≤ 6
unfolding size
room = omega arith

main-Synced_example :
    (r : Option Node) × (log : List Report) × (main 6 here
        (some (dir 493 source))
        (some (dir 493 destination))
      ≡ ok (r, log))
    × Synced (some (dir 493 source)) (some (dir 493 destination)) r
main-Synced_example = main-Synced 6 here 493 source (some (dir 493 destination)) room refl apart

main_again_example :
    (r : Option Node) × (log : List Report) × (main 6 here
        (some (dir 493 source))
        (some (dir 493 destination))
      ≡ ok (r, log))
    × (main 6 here (some (dir 493 source)) r ≡ ok (r, []))
main_again_example = main_again 6 here 493 source (some (dir 493 destination)) room refl apart

main-Ends_example : Ends (main 6 here (some (dir 493 source)) (some (file text)))
main-Ends_example = main-Ends 6 here (some (dir 493 source)) (some (file text)) room

notes_over_directory :
    main 6 here (some (dir 493 source)) (some (dir 493 (entry 1 (dir 448 end) end))) ≡ exits
notes_over_directory =
    file_over_directory 6 here 493 493 448 1 source (entry 1 (dir 448 end) end) end text room refl
      refl refl
