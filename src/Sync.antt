-- ===== src/Sync.antt =====
-- Assignment_09/code.c: makes a destination directory like a source directory, and reports what it
-- changes. A name is a number, since names are only compared; `.` and `..` are no entries. The calls on
-- items that are there succeed, paths are shorter than the buffers, and there are no links.
pub mod View
pub mod Copy
pub mod Loops
pub mod Refines
pub mod Again
pub mod Ends
mod Tests
use os_lab_spr.Base.{
  ℕ, zero, suc, ◌+◌, Bool, true, false, not, ◌&&◌, ◌||◌, Option, none, some, List, [], ◌∷◌, ◌++◌,
  ◌==◌, if◌then◌else◌,
}

-- A regular file; `st_size` is the length of its bytes.
pub record File : Type 0 where
  pub bytes : List ℕ
  pub mtime : ℕ
  pub mode : ℕ

mutual
  pub data Node : Type 0 where
    file : File → Node
    dir : ℕ → Entries → Node

  pub data Entries : Type 0 where
    end : Entries
    entry : ℕ → Node → Entries → Entries

-- The letters of `report_change`.
pub data Change : Type 0 where
  added removed overwritten touched permitted : Change

abbrev pub Report : Type 0
Report = Change × List ℕ

-- How a call ends: it returns, or it ends the program with EXIT_FAILURE.
pub data Result (A : Type 0) : Type 0 where
  ok : A → Result A
  exits : Result A
  out_of_fuel : Result A

infixl 5 ◌>>=◌
abbrev pub ◌>>=◌ : {A B : Type 0} → Result A → (A → Result B) → Result B
ok a >>= f = f a
exits >>= f = exits
out_of_fuel >>= f = out_of_fuel

-- What the code reads and does not set: the mode in a `dst_stat` that no call of `stat` filled in, and
-- the size and time of a directory. `masked` is what `mkdir` makes of a mode.
pub record Env : Type 0 where
  pub unset : List ℕ → ℕ
  pub dir_stamp : List ℕ → ℕ × ℕ
  pub masked : ℕ → ℕ

-- `stat` and `readdir` below an open directory.
abbrev pub lookup : ℕ → Entries → Option Node
lookup x end = none
lookup x (entry y n es) = let rest = lookup x es in if y == x then some n else rest

abbrev pub names : Entries → List ℕ
names end = []
names (entry x n es) = x ∷ names es

-- An item of a directory replaced, added behind the others, or removed.
abbrev pub write : ℕ → Node → Entries → Entries
write x n end = entry x n end
write x n (entry y m es) =
    let rest = write x n es in if y == x then entry y n es else entry y m rest

abbrev pub delete : ℕ → Entries → Entries
delete x end = end
delete x (entry y m es) = let rest = delete x es in if y == x then rest else entry y m rest

abbrev pub put : ℕ → Option Node → Entries → Entries
put x none es = delete x es
put x (some n) es = write x n es

abbrev pub length : List ℕ → ℕ
length [] = 0
length (b ∷ bs) = suc (length bs)

-- One `fread` of at most `room` bytes: what it reads, and what is left.
unfoldable pub fread : ℕ → List ℕ → List ℕ × List ℕ
fread zero bs = ([], bs)
fread (suc room) [] = ([], [])
fread (suc room) (b ∷ bs) = let r = fread room bs in (b ∷ r.0, r.1)

abbrev pub buffer_size : ℕ
buffer_size = 4096

-- The loop of `copy_file` on the bytes left, with what is written so far. `none`: the fuel ran out.
unfoldable pub copy_from : ℕ → List ℕ → List ℕ → Option (List ℕ)
copy_from zero bs out = none
copy_from (suc fuel) bs out =
    let r = fread buffer_size bs in
    let rest = copy_from fuel r.1 (out ++ r.0) in if length r.0 == 0 then some out else rest

-- The reports of removing an item with all that is below it: a directory comes after its own items.
mutual
  pub remove_directory : List ℕ → Node → List Report
  remove_directory path (file f) = (removed, path) ∷ []
  remove_directory path (dir m es) = remove_items path es ++ (removed, path) ∷ []

  pub remove_items : List ℕ → Entries → List Report
  remove_items path end = []
  remove_items path (entry x n es) = remove_directory (path ++ x ∷ []) n ++ remove_items path es

abbrev pub Outcome : Type 0
Outcome = Option Node × List Report

-- What the code does with the item at a path, given the item of the source and that of the destination.
abbrev pub Visit : Type 0
Visit = List ℕ → Option Node → Option Node → Result Outcome

-- `remove`: a file or an empty directory.
abbrev pub remove : List ℕ → Option Node → Outcome
remove path none = (none, [])
remove path (some (file f)) = (none, (removed, path) ∷ [])
remove path (some (dir m end)) = (none, (removed, path) ∷ [])
remove path (some (dir m (entry x n es))) = (some (dir m (entry x n es)), [])

abbrev pub mode_of : Node → ℕ
mode_of (file f) = f.mode
mode_of (dir m es) = m

-- The report of a mode, where it is not the one that `dst_stat` holds.
abbrev pub permit : List ℕ → ℕ → ℕ → List Report
permit path mode old = if mode == old then [] else (permitted, path) ∷ []

abbrev pub make_directory : Env → List ℕ → ℕ → Node × List Report
make_directory env path mode = (
  dir (if mode == env.unset path then env.masked mode else mode) end,
  (added, path) ∷ (touched, path) ∷ permit path mode (env.unset path),
)

-- One `while` loop of `sync_directories` over the names that `readdir` returns.
abbrev pub loop : Visit → List ℕ → Entries → List ℕ → Entries → Result (Entries × List Report)
loop visit path es [] ds = ok (ds, [])
loop visit path es (x ∷ xs) ds =
    visit (path ++ x ∷ []) (lookup x es) (lookup x ds) >>= λ (now : Outcome).
    loop visit path es xs (put x now.0 ds) >>= λ (rest : Entries × List Report).
    ok (rest.0, now.1 ++ rest.1)

-- Lines 68 to 108. The second loop is over the names that are there after the first one.
abbrev pub fill : Visit → List ℕ → Node → Node → List Report → Result Outcome
fill visit path (file f) d log = exits
fill visit path (dir m es) (file g) log = exits
fill visit path (dir m es) (dir k ds) log =
    loop visit path es (names es) ds >>= λ (first : Entries × List Report).
    loop visit path es (names first.0) first.0 >>= λ (second : Entries × List Report).
    ok (some (dir k second.0), log ++ first.1 ++ second.1)

abbrev pub sync_directories : Env → Visit → Visit
sync_directories env visit path none d = ok (remove path d)
sync_directories env visit path (some s) none =
    let made = make_directory env path (mode_of s) in fill visit path s made.0 made.1
sync_directories env visit path (some s) (some d) = fill visit path s d []

abbrev pub copied : Option (List ℕ) → File → Result File
copied none s = out_of_fuel
copied (some bs) s = ok record { bytes = bs; mtime = s.mtime; mode = s.mode }

-- `copy_file` with the `utime` and `chmod` that follow each of its calls.
abbrev pub copy_file : File → Result File
copy_file s = copied (copy_from (suc (length s.bytes)) s.bytes []) s

abbrev pub same_stamp : File → ℕ → ℕ → Bool
same_stamp s size mtime = length s.bytes == size && s.mtime == mtime

-- `sync_items`; the fuel is for the depth of the source.
unfoldable pub sync_items : ℕ → Env → Visit
sync_items zero env path s d = out_of_fuel
sync_items (suc n) env path none none = ok (none, [])
sync_items (suc n) env path none (some d) = ok (none, remove_directory path d)
sync_items (suc n) env path (some (dir m es)) none =
    sync_directories env (sync_items n env) path (some (dir m es)) none
sync_items (suc n) env path (some (dir m es)) (some (file g)) =
    sync_directories env (sync_items n env) path (some (dir m es)) none >>= λ (made : Outcome).
    ok (made.0, (removed, path) ∷ made.1)
sync_items (suc n) env path (some (dir m es)) (some (dir k ds)) =
    sync_directories env (sync_items n env) path (some (dir m es)) (some (dir k ds))
sync_items (suc n) env path (some (file f)) none = copy_file f >>= λ (g : File).
    ok (some (file g), (added, path) ∷ (touched, path) ∷ permit path f.mode (env.unset path))
sync_items (suc n) env path (some (file f)) (some (file g)) =
    let copy = copy_file f >>= λ (h : File).
    ok (some (file h), (overwritten, path) ∷ (touched, path) ∷ permit path f.mode g.mode) in
    if same_stamp f (length g.bytes) g.mtime then ok (some (file g), []) else copy
sync_items (suc n) env path (some (file f)) (some (dir k ds)) =
    -- `fopen` does not open a directory for writing
    if same_stamp f (env.dir_stamp path).0 (env.dir_stamp path).1
    then ok (some (dir k ds), [])
    else exits

-- `main` with its two arguments, for a source and a destination at the empty path.
abbrev pub main : ℕ → Env → Option Node → Option Node → Result Outcome
main n env s d = sync_directories env (sync_items n env) [] s d
