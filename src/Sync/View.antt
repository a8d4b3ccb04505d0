-- ===== src/Sync/View.antt =====
-- Assignment_09/code.c: what two directories hold, path by path, and what a synchronisation is to make of them.
use os_lab_spr.Base.{
  ℕ, suc, ◌+◌, ◌≤◌, Bool, true, false, Option, none, some, List, [], ◌∷◌, ◌==◌, ◌&&◌, if◌then◌else◌,
  ◌≡◌, refl, arith,
}
use os_lab_spr.Sync.{File, Node, file, dir, Entries, end, entry, lookup, write, delete, put, length}

-- What is at a path: a directory, or a file with its bytes, time and mode.
pub data Leaf : Type 0 where
  a_dir : Leaf
  a_file : File → Leaf

abbrev pub at : List ℕ → Option Node → Option Leaf
at p none = none
at [] (some (file f)) = some (a_file f)
at (x ∷ p) (some (file f)) = none
at [] (some (dir m es)) = some a_dir
at (x ∷ p) (some (dir m es)) = at p (lookup x es)

-- A file is left where size and time agree, and taken from the source otherwise.
abbrev pub same_file : File → File → Bool
same_file s d = length s.bytes == length d.bytes && s.mtime == d.mtime

abbrev pub merge_file : File → Option Leaf → Leaf
merge_file s none = a_file s
merge_file s (some a_dir) = a_file s
merge_file s (some (a_file d)) = a_file (if same_file s d then d else s)

abbrev pub merge : Option Leaf → Option Leaf → Option Leaf
merge none d = none
merge (some a_dir) d = some a_dir
merge (some (a_file s)) d = some (merge_file s d)

-- `r` is what a destination `d` is to become for a source `s`.
abbrev pub Synced : Option Node → Option Node → Option Node → Type 0
Synced s d r = (p : List ℕ) → at p r ≡ merge (at p s) (at p d)

-- A file of the source where the destination has a directory.
abbrev pub clash : Option Leaf → Option Leaf → Bool
clash (some (a_file s)) (some a_dir) = true
clash s d = false

abbrev pub Apart : Option Node → Option Node → Type 0
Apart s d = (p : List ℕ) → clash (at p s) (at p d) ≡ false

-- The number of items below a node and the node itself.
unfoldable mutual
  pub size : Node → ℕ
  size (file f) = 1
  size (dir m es) = suc (sizes es)

  pub sizes : Entries → ℕ
  sizes end = 0
  sizes (entry x n es) = size n + sizes es

abbrev pub size_of : Option Node → ℕ
size_of none = 0
size_of (some n) = size n

if_leaf :
    (b : Bool) (s : File)
    → ◌≡◌ {A = Option Leaf} (some (a_file (if b then s else s))) (some (a_file s))
if_leaf true s = refl
if_leaf false s = refl

pub merge-merge : (s d : Option Leaf) → merge s (merge s d) ≡ merge s d
merge-merge none d = refl
merge-merge (some a_dir) d = refl
merge-merge (some (a_file s)) none = if_leaf (same_file s s) s
merge-merge (some (a_file s)) (some a_dir) = if_leaf (same_file s s) s
merge-merge (some (a_file s)) (some (a_file d)) = ground arith

pub clash-merge : (s d : Option Leaf) → clash s (merge s d) ≡ false
clash-merge none d = refl
clash-merge (some a_dir) d = refl
clash-merge (some (a_file s)) none = refl
clash-merge (some (a_file s)) (some a_dir) = refl
clash-merge (some (a_file s)) (some (a_file d)) = refl

size_if :
    (b : Bool) (n : Node) (o : Option Node) (k : ℕ)
    → size_of o ≤ k
    → size_of (if b then some n else o) ≤ size n + k
size_if true n o k h = omega arith
size_if false n o k h = omega arith

pub size-lookup : (x : ℕ) (es : Entries) → size_of (lookup x es) ≤ sizes es
unfolding sizes
size-lookup x end = omega arith
size-lookup x (entry y n es) = size_if (y == x) n (lookup x es) (sizes es) (size-lookup x es)

lookup-write :
    (x y : ℕ) (n : Node) (es : Entries)
    → lookup x (write y n es) ≡ (if y == x then some n else lookup x es)
lookup-write x y n end = refl
lookup-write x y n (entry z m es) = let ih = lookup-write x y n es in ground arith

lookup-delete :
    (x y : ℕ) (es : Entries) → lookup x (delete y es) ≡ (if y == x then none else lookup x es)
lookup-delete x y end = ground arith
lookup-delete x y (entry z m es) = let ih = lookup-delete x y es in ground arith

pub lookup-put :
    (x y : ℕ) (v : Option Node) (es : Entries)
    → lookup x (put y v es) ≡ (if y == x then v else lookup x es)
lookup-put x y none es = lookup-delete x y es
lookup-put x y (some n) es = lookup-write x y n es

-- Putting back what is there changes nothing.
write-lookup : (x : ℕ) (n : Node) (es : Entries) → lookup x es ≡ some n → write x n es ≡ es
write-lookup x n end h = ground arith
write-lookup x n (entry y m es) h = let ih = write-lookup x n es in ground arith

delete-lookup : (x : ℕ) (es : Entries) → lookup x es ≡ none → delete x es ≡ es
delete-lookup x end h = refl
delete-lookup x (entry y m es) h = let ih = delete-lookup x es in ground arith

pub put-lookup : (x : ℕ) (es : Entries) → put x (lookup x es) es ≡ es
put-lookup x es =
    elim (lookup x es) as (λ v. lookup x es ≡ v → put x v es ≡ es) [
      | none ↦ delete-lookup x es
      | some n ↦ write-lookup x n es
    ]
      refl
