-- ===== src/Sync/Again.antt =====
-- Assignment_09/code.c: a second run of the synchronisation.
use os_lab_spr.Base.{
  ℕ, zero, suc, ◌≤◌, ◌<◌, Bool, true, false, Option, none, some, List, [], ◌∷◌, ◌++◌, ◌==◌,
  if◌then◌else◌, ◌≡◌, refl, sym, ap, ◌∙◌, arith, Bool-cases, inl, inr,
}
use os_lab_spr.Sync.{
  File, Node, file, dir, Entries, lookup, names, ok, Report, Env, Visit, loop, fill, sync_items,
  main,
}
use os_lab_spr.Sync.View.{
  Leaf, a_dir, a_file, Synced, Apart, at, merge, merge-merge, same_file, size_of, size, sizes,
  put-lookup,
}
use os_lab_spr.Sync.Refines.{main-Synced, smaller, takes_items}

loop_quiet :
    (visit : Visit) (path : List ℕ) (es ds : Entries)
    → ((x : ℕ) → visit (path ++ x ∷ []) (lookup x es) (lookup x ds) ≡ ok (lookup x ds, []))
    → (xs : List ℕ) → loop visit path es xs ds ≡ ok (ds, [])
loop_quiet visit path es ds h [] = refl
loop_quiet visit path es ds h (x ∷ xs) =
    rw (h x, put-lookup x ds, loop_quiet visit path es ds h xs) refl

fill_quiet :
    (visit : Visit) (path : List ℕ) (m k : ℕ) (es ds : Entries)
    → ((x : ℕ) → visit (path ++ x ∷ []) (lookup x es) (lookup x ds) ≡ ok (lookup x ds, []))
    → fill visit path (dir m es) (dir k ds) [] ≡ ok (some (dir k ds), [])
fill_quiet visit path m k es ds h =
    rw (loop_quiet visit path es ds h (names es), loop_quiet visit path es ds h (names ds)) refl

abbrev kind : Option Leaf → ℕ
kind none = 0
kind (some a_dir) = 1
kind (some (a_file f)) = 2

unlike : (a b : Option Leaf) → a ≡ b → (kind a == kind b) ≡ false → ⊥
unlike a b e apart = let same = ap kind e in ground arith

same_file_self : (f : File) → same_file f f ≡ true
same_file_self f = ground arith

abbrev same_leaf : File → Option Leaf → Bool
same_leaf f none = false
same_leaf f (some a_dir) = false
same_leaf f (some (a_file g)) = same_file f g

same_file_taken :
    (f g : File)
    → ◌≡◌ {A = Option Leaf} (some (a_file g)) (some (a_file (if same_file f g then g else f)))
    → same_file f g ≡ true
same_file_taken f g h = elim (Bool-cases (same_file f g)) [
  | inl e ↦ e
  | inr e ↦ ap (same_leaf f) h ∙ ap (λ b. same_file f (if b then g else f)) e ∙ same_file_self f
]

sync_items_quiet :
    (n : ℕ) (env : Env) (path : List ℕ) (s r : Option Node)
    → size_of s < n
    → Synced s r r
    → sync_items n env path s r ≡ ok (r, [])
unfolding sync_items sizes
sync_items_quiet zero env path s r more h = absurd (omega arith)
sync_items_quiet (suc n) env path none none more h = refl
sync_items_quiet (suc n) env path none (some (file f)) more h = absurd (unlike _ _ (h []) refl)
sync_items_quiet (suc n) env path none (some (dir k ds)) more h = absurd (unlike _ _ (h []) refl)
sync_items_quiet (suc n) env path (some (file f)) none more h = absurd (unlike _ _ (h []) refl)
sync_items_quiet (suc n) env path (some (file f)) (some (file g)) more h =
    rw (same_file_taken f g (h [])) refl
sync_items_quiet (suc n) env path (some (file f)) (some (dir k ds)) more h =
    absurd (unlike _ _ (h []) refl)
sync_items_quiet (suc n) env path (some (dir m es)) none more h = absurd (unlike _ _ (h []) refl)
sync_items_quiet (suc n) env path (some (dir m es)) (some (file g)) more h =
    absurd (unlike _ _ (h []) refl)
sync_items_quiet (suc n) env path (some (dir m es)) (some (dir k ds)) more h =
    fill_quiet (sync_items n env) path m k es ds (λ x.
      sync_items_quiet n env (path ++ x ∷ []) (lookup x es) (lookup x ds) (smaller n x m es more)
        (λ p. h (x ∷ p)))

Synced-twice : (s d r : Option Node) → Synced s d r → Synced s r r
Synced-twice s d r h p =
    h p ∙ sym (merge-merge (at p s) (at p d)) ∙ sym (ap (λ l. merge (at p s) l) (h p))

main_quiet :
    (n : ℕ) (env : Env) (m : ℕ) (es : Entries) (r : Option Node)
    → size (dir m es) ≤ n
    → Synced (some (dir m es)) r r
    → main n env (some (dir m es)) r ≡ ok (r, [])
unfolding sync_items
main_quiet n env m es none fuel h =
    sync_items_quiet (suc n) env [] (some (dir m es)) none (omega arith) h
main_quiet n env m es (some (file f)) fuel h = absurd (unlike _ _ (h []) refl)
main_quiet n env m es (some (dir k ds)) fuel h =
    sync_items_quiet (suc n) env [] (some (dir m es)) (some (dir k ds)) (omega arith) h

-- Under the conditions of a run that returns (a source directory, a destination that is a directory or
-- not there, no file where the destination has a directory, fuel for the items of the source), a second
-- run on what the first one made changes and reports nothing.
pub main_again :
    (n : ℕ) (env : Env) (m : ℕ) (es : Entries) (d : Option Node)
    → size (dir m es) ≤ n
    → takes_items d ≡ true
    → Apart (some (dir m es)) d
    → (r : Option Node) × (log : List Report) × (main n env (some (dir m es)) d ≡ ok (r, log))
      × (main n env (some (dir m es)) r ≡ ok (r, []))
main_again n env m es d fuel takes apart =
    let (r, log, runs, synced) = main-Synced n env m es d fuel takes apart in
    (r, log, runs, main_quiet n env m es r fuel (Synced-twice (some (dir m es)) d r synced))
