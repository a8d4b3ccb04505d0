-- ===== src/Sync/Refines.antt =====
-- Assignment_09/code.c: the synchronisation does what the merge of the two trees asks for.
use os_lab_spr.Base.{
  ℕ, zero, suc, ◌≤◌, ◌<◌, Bool, true, false, Option, none, some, List, [], ◌∷◌, ◌++◌, ◌==◌,
  if◌then◌else◌, ◌≡◌, refl, sym, ap, ◌∙◌, arith, Bool-cases, inl, inr,
}
use os_lab_spr.Sync.{
  added, removed, overwritten, touched, permit, File, Node, file, dir, Entries, end, lookup, ok,
  Report, Env, Visit, sync_items, make_directory, remove_directory, main,
}
use os_lab_spr.Sync.View.{
  Leaf, a_dir, a_file, Synced, Apart, at, merge, clash, same_file, size_of, size, sizes,
  size-lookup,
}
use os_lab_spr.Sync.Copy.{copy_file-copies}
use os_lab_spr.Sync.Loops.{fill_lem}
use mathlib.Core.Bool.{false≢true}

abbrev made_mode : Env → List ℕ → ℕ → ℕ
made_mode env path m = if m == env.unset path then env.masked m else m

-- A visit that returns what it is to return.
abbrev Syncs : Visit → List ℕ → Option Node → Option Node → Type 0
Syncs visit path s d =
    (r : Option Node) × (log : List Report) × (visit path s d ≡ ok (r, log)) × Synced s d r

-- What is not there or a file gives way to a directory that starts empty.
Synced-made :
    (m k : ℕ) (es : Entries) (r d : Option Node)
    → ((x : ℕ) (p : List ℕ) → at (x ∷ p) d ≡ none)
    → Synced (some (dir m es)) (some (dir k end)) r
    → Synced (some (dir m es)) d r
Synced-made m k es r d empty h [] = h []
Synced-made m k es r d empty h (x ∷ p) =
    h (x ∷ p) ∙ ap (λ l. merge (at p (lookup x es)) l) (sym (empty x p))

Synced-kept :
    (f g : File) → same_file f g ≡ true → Synced (some (file f)) (some (file g)) (some (file g))
Synced-kept f g e [] = rw e refl
Synced-kept f g e (x ∷ p) = refl

Synced-taken :
    (f g : File) → same_file f g ≡ false → Synced (some (file f)) (some (file g)) (some (file f))
Synced-taken f g e [] = rw e refl
Synced-taken f g e (x ∷ p) = refl

Synced-copy : (f : File) → Synced (some (file f)) none (some (file f))
Synced-copy f [] = refl
Synced-copy f (x ∷ p) = refl

clash-none : (l : Option Leaf) → clash l none ≡ false
clash-none none = refl
clash-none (some a_dir) = refl
clash-none (some (a_file f)) = refl

Apart-made : (es : Entries) (x : ℕ) → Apart (lookup x es) none
Apart-made es x p = clash-none (at p (lookup x es))

pub smaller :
    (n x m : ℕ) (es : Entries) → size_of (some (dir m es)) < suc n → size_of (lookup x es) < n
unfolding sizes
smaller n x m es h = let bound = size-lookup x es in omega arith

pub sync_items-Synced :
    (n : ℕ) (env : Env) (path : List ℕ) (s d : Option Node)
    → size_of s < n
    → Apart s d
    → Syncs (sync_items n env) path s d
unfolding sync_items sizes
sync_items-Synced zero env path s d more apart = absurd (omega arith)
sync_items-Synced (suc n) env path none none more apart = (none, [], refl, (λ p. refl))
sync_items-Synced (suc n) env path none (some d) more apart =
    (none, remove_directory path d, refl, (λ p. refl))
sync_items-Synced (suc n) env path (some (file f)) none more apart = (
  some (file f),
  (added, path) ∷ (touched, path) ∷ permit path f.mode (env.unset path),
  rw (copy_file-copies f) refl,
  Synced-copy f,
)
sync_items-Synced (suc n) env path (some (file f)) (some (file g)) more apart =
    elim (Bool-cases (same_file f g)) [
      | inl e ↦ (some (file g), [], rw e refl, Synced-kept f g e)
      | inr e ↦ (
        some (file f),
        (overwritten, path) ∷ (touched, path) ∷ permit path f.mode g.mode,
        rw (e, copy_file-copies f) refl,
        Synced-taken f g e,
      )
    ]
sync_items-Synced (suc n) env path (some (file f)) (some (dir k ds)) more apart =
    absurd (false≢true (sym (apart [])))
sync_items-Synced (suc n) env path (some (dir m es)) none more apart =
    let made : Node × List Report = make_directory env path m in
    let (r, log, runs, synced) =
      fill_lem (sync_items n env) path es
        (λ x d f.
          sync_items-Synced n env (path ++ x ∷ []) (lookup x es) d (smaller n x m es more) f)
        end (Apart-made es) m (made_mode env path m) made.1 in
    (some r, log, runs, Synced-made m (made_mode env path m) es (some r) none (λ x p. refl) synced)
sync_items-Synced (suc n) env path (some (dir m es)) (some (file g)) more apart =
    let made : Node × List Report = make_directory env path m in
    let (r, log, runs, synced) =
      fill_lem (sync_items n env) path es
        (λ x d f.
          sync_items-Synced n env (path ++ x ∷ []) (lookup x es) d (smaller n x m es more) f)
        end (Apart-made es) m (made_mode env path m) made.1 in
    (
      some r,
      (removed, path) ∷ log,
      rw runs refl,
      Synced-made m (made_mode env path m) es (some r) (some (file g)) (λ x p. refl) synced,
    )
sync_items-Synced (suc n) env path (some (dir m es)) (some (dir k ds)) more apart =
    let (r, log, runs, synced) =
      fill_lem (sync_items n env) path es
        (λ x d f.
          sync_items-Synced n env (path ++ x ∷ []) (lookup x es) d (smaller n x m es more) f)
        ds (λ x p. apart (x ∷ p)) m k [] in
    (some r, log, runs, synced)

-- Whether the destination is not there or is a directory.
abbrev pub takes_items : Option Node → Bool
takes_items none = true
takes_items (some (file f)) = false
takes_items (some (dir k ds)) = true

-- For a source directory, a destination that is a directory or not there, no file where the destination
-- has a directory, and fuel for the items of the source, the run returns. Path by path the destination
-- then has what the source has; a file is the source's, but where both had one with the same size and
-- time, the destination's own is left.
pub main-Synced :
    (n : ℕ) (env : Env) (m : ℕ) (es : Entries) (d : Option Node)
    → size (dir m es) ≤ n
    → takes_items d ≡ true
    → Apart (some (dir m es)) d
    → (r : Option Node) × (log : List Report) × (main n env (some (dir m es)) d ≡ ok (r, log))
      × Synced (some (dir m es)) d r
unfolding sync_items
main-Synced n env m es none more takes apart =
    sync_items-Synced (suc n) env [] (some (dir m es)) none (omega arith) apart
main-Synced n env m es (some (file f)) more takes apart = absurd (false≢true takes)
main-Synced n env m es (some (dir k ds)) more takes apart =
    sync_items-Synced (suc n) env [] (some (dir m es)) (some (dir k ds)) (omega arith) apart
