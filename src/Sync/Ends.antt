-- ===== src/Sync/Ends.antt =====
-- Assignment_09/code.c: the synchronisation ends, and where it gives up.
use os_lab_spr.Base.{
  ℕ, zero, suc, ◌≤◌, ◌<◌, Bool, true, false, Option, none, some, List, [], ◌∷◌, ◌++◌, ◌==◌,
  if◌then◌else◌, ◌≡◌, refl, ap, ◌∙◌, arith, Bool-cases, inl, inr, ◌⊎◌,
}
use mathlib.Core.Bool.{false≢true}
use os_lab_spr.Sync.{
  File, Node, file, dir, Entries, lookup, names, put, Result, ok, exits, ◌>>=◌, Report, Env, Visit,
  loop, fill, sync_items, sync_directories, same_stamp, length, main, make_directory,
}
use os_lab_spr.Sync.View.{size_of, size, sizes, lookup-put}
use os_lab_spr.Sync.Copy.{copy_file-copies}
use os_lab_spr.Sync.Loops.{listed, names-lookup}
use os_lab_spr.Sync.Refines.{smaller}

-- A call returns, or ends the program.
abbrev pub Ends : {A : Type 0} → Result A → Type 0
Ends {A} r = (r ≡ exits) ⊎ ((a : A) × (r ≡ ok a))

bind-Ends :
    {A B : Type 0} (r : Result A) (f : A → Result B)
    → Ends r
    → ((a : A) → Ends (f a))
    → Ends (r >>= f)
bind-Ends r f (inl e) next = inl (rw e refl)
bind-Ends r f (inr (a, e)) next = rw e (next a)

if-Ends : {A : Type 0} (b : Bool) (r t : Result A) → Ends r → Ends t → Ends (if b then r else t)
if-Ends true r t h k = h
if-Ends false r t h k = k

named : (x : ℕ) (n : Node) (es : Entries) → lookup x es ≡ some n → listed x (names es) ≡ true
named x n es h = elim (Bool-cases (listed x (names es))) [
  | inl e ↦ e
  | inr e ↦ let nothing = names-lookup x es e in ground arith
]

later : (x y : ℕ) (ys : List ℕ) → (y == x) ≡ false → listed x (y ∷ ys) ≡ true → listed x ys ≡ true
later x y ys e h = ground arith

module _ (visit : Visit) (path : List ℕ) (es : Entries)
    (visits : (x : ℕ) (d : Option Node) → Ends (visit (path ++ x ∷ []) (lookup x es) d)) where
  loop-Ends : (xs : List ℕ) (ds : Entries) → Ends (loop visit path es xs ds)
  loop-Ends [] ds = inr ((ds, []), refl)
  loop-Ends (x ∷ xs) ds =
      bind-Ends _ _ (visits x (lookup x ds))
        (λ now. bind-Ends _ _ (loop-Ends xs (put x now.0 ds)) (λ rest. inr (_, refl)))

  pub fill-Ends : (m : ℕ) (d : Node) (log : List Report) → Ends (fill visit path (dir m es) d log)
  fill-Ends m (file g) log = inl refl
  fill-Ends m (dir k ds) log =
      bind-Ends _ _ (loop-Ends (names es) ds)
        (λ first. bind-Ends _ _ (loop-Ends (names first.0) first.0) (λ second. inr (_, refl)))

  pub sync_directories-Ends :
      (env : Env) (m : ℕ) (d : Option Node)
      → Ends (sync_directories env visit path (some (dir m es)) d)
  sync_directories-Ends env m none =
      fill-Ends m (make_directory env path m).0 (make_directory env path m).1
  sync_directories-Ends env m (some d) = fill-Ends m d []

  -- One item that stops the program is enough.
  loop_exits :
      (x : ℕ) (o : Option Node)
      → visit (path ++ x ∷ []) (lookup x es) o ≡ exits
      → (xs : List ℕ) (ds : Entries) → listed x xs ≡ true
      → lookup x ds ≡ o
      → loop visit path es xs ds ≡ exits
  loop_exits x o stops [] ds h there = absurd (false≢true h)
  loop_exits x o stops (y ∷ xs) ds h there = elim (Bool-cases (y == x)) [
    | inl e ↦ let same : y ≡ x = ground arith in rw same (rw there (rw stops refl))
    | inr e ↦ elim (visits y (lookup y ds)) [
      | inl stop ↦ rw stop refl
      | inr (v, goes) ↦ rw goes (
          rw
            (loop_exits x o stops xs (put y v.0 ds) (later x y xs e h)
              (lookup-put x y v.0 ds ∙ ap (λ b. if b then v.0 else lookup x ds) e ∙ there))
            refl)
    ]
  ]

  pub fill_exits :
      (x m k : ℕ) (n o : Node) (ds : Entries) (log : List Report)
      → lookup x es ≡ some n
      → lookup x ds ≡ some o
      → visit (path ++ x ∷ []) (some n) (some o) ≡ exits
      → fill visit path (dir m es) (dir k ds) log ≡ exits
  fill_exits x m k n o ds log in_s in_d stops =
      rw (loop_exits x (some o) (rw in_s stops) (names es) ds (named x n es in_s) in_d) refl

pub sync_items-Ends :
    (n : ℕ) (env : Env) (path : List ℕ) (s d : Option Node)
    → size_of s < n
    → Ends (sync_items n env path s d)
unfolding sync_items sizes
sync_items-Ends zero env path s d more = absurd (omega arith)
sync_items-Ends (suc n) env path none none more = inr (_, refl)
sync_items-Ends (suc n) env path none (some d) more = inr (_, refl)
sync_items-Ends (suc n) env path (some (file f)) none more =
    bind-Ends _ _ (inr (_, copy_file-copies f)) (λ g. inr (_, refl))
sync_items-Ends (suc n) env path (some (file f)) (some (file g)) more =
    if-Ends (same_stamp f (length g.bytes) g.mtime) _ _ (inr (_, refl))
      (bind-Ends _ _ (inr (_, copy_file-copies f)) (λ h. inr (_, refl)))
sync_items-Ends (suc n) env path (some (file f)) (some (dir k ds)) more =
    if-Ends (same_stamp f (env.dir_stamp path).0 (env.dir_stamp path).1) _ _ (inr (_, refl))
      (inl refl)
sync_items-Ends (suc n) env path (some (dir m es)) none more =
    sync_directories-Ends (sync_items n env) path es
      (λ x d. sync_items-Ends n env (path ++ x ∷ []) (lookup x es) d (smaller n x m es more)) env m
      none
sync_items-Ends (suc n) env path (some (dir m es)) (some (file g)) more =
    bind-Ends _ _
      (sync_directories-Ends (sync_items n env) path es
        (λ x d. sync_items-Ends n env (path ++ x ∷ []) (lookup x es) d (smaller n x m es more)) env
        m none)
      (λ made. inr (_, refl))
sync_items-Ends (suc n) env path (some (dir m es)) (some (dir k ds)) more =
    sync_directories-Ends (sync_items n env) path es
      (λ x d. sync_items-Ends n env (path ++ x ∷ []) (lookup x es) d (smaller n x m es more)) env m
      (some (dir k ds))

-- With fuel for the items of the source the run ends, whatever the two sides are: it returns or it ends
-- the program.
pub main-Ends : (n : ℕ) (env : Env) (s d : Option Node) → size_of s ≤ n → Ends (main n env s d)
unfolding sizes
main-Ends n env none d fuel = inr (_, refl)
main-Ends n env (some (file f)) none fuel = inl refl
main-Ends n env (some (file f)) (some d) fuel = inl refl
main-Ends n env (some (dir m es)) d fuel =
    sync_directories-Ends (sync_items n env) [] es
      (λ x d. sync_items-Ends n env (x ∷ []) (lookup x es) d (smaller n x m es (omega arith))) env m
      d

-- A file in the source directory, where the destination directory has a directory of another size or
-- time under that name, makes the run end the program, whatever else there is.
pub file_over_directory :
    (n : ℕ) (env : Env) (m k l x : ℕ) (es ds below : Entries) (f : File)
    → size (dir m es) ≤ n
    → lookup x es ≡ some (file f)
    → lookup x ds ≡ some (dir l below)
    → same_stamp f (env.dir_stamp (x ∷ [])).0 (env.dir_stamp (x ∷ [])).1 ≡ false
    → main n env (some (dir m es)) (some (dir k ds)) ≡ exits
unfolding sync_items sizes
file_over_directory zero env m k l x es ds below f fuel in_s in_d unlike = absurd (omega arith)
file_over_directory (suc n) env m k l x es ds below f fuel in_s in_d unlike =
    fill_exits (sync_items (suc n) env) [] es
      (λ x d.
        sync_items-Ends (suc n) env (x ∷ []) (lookup x es) d (smaller (suc n) x m es (omega arith)))
      x m k (file f) (dir l below) ds [] in_s in_d (rw unlike refl)
