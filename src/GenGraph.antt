-- ===== src/GenGraph.antt =====
-- Assignment_05/LA5/gengraph.c: a random graph whose edges go from earlier to later entries of PERM, and
-- the file that it prints. boss.c of the same directory reads the file.
pub mod Edges
pub mod File
pub mod Sorts
mod Tests
use os_lab_spr.Base.{
  ℕ, zero, suc, ◌+◌, ◌-◌, ◌*◌, Bool, ◌&&◌, ◌==◌, if◌then◌else◌, bit, store, List, [], ◌∷◌, ◌++◌,
}
use os_lab_spr.Shuffle.{shuffled}

-- `A[x][y] = v`
abbrev pub set_entry : (ℕ → ℕ → ℕ) → ℕ → ℕ → ℕ → ℕ → ℕ → ℕ
set_entry a x y v x' y' = if x == x' && y == y' then v else a x' y'

-- The loop over j in round `i`, after its first rounds; `coin i j` is whether the number that is drawn
-- there is at most `p`.
pub fill_row : (ℕ → ℕ → Bool) → (ℕ → ℕ) → ℕ → ℕ → (ℕ → ℕ → ℕ) → ℕ → ℕ → ℕ
fill_row coin perm i zero a = a
fill_row coin perm i (suc m) a =
    set_entry
      (set_entry (fill_row coin perm i m a) (perm i) (perm (i + 1 + m)) (bit (coin i (i + 1 + m))))
      (perm (i + 1 + m)) (perm i) 0

-- The loop over i, after its first rounds.
pub fill_rows : (ℕ → ℕ → Bool) → (ℕ → ℕ) → ℕ → (ℕ → ℕ → ℕ) → ℕ → ℕ → ℕ → ℕ
fill_rows coin perm n a zero = a
fill_rows coin perm n a (suc i) =
    fill_row coin perm i (n - (i + 1)) (set_entry (fill_rows coin perm n a i) i i 0)

-- The matrix; what malloc returns is not known.
unfoldable pub gengraph : (ℕ → ℕ) → (ℕ → ℕ → Bool) → ℕ → (ℕ → ℕ → ℕ) → ℕ → ℕ → ℕ
unfolding fill_rows fill_row
gengraph rand coin n memory = fill_rows coin (shuffled rand n) n memory n

-- The numbers of the file, in the order of printing.
pub print_row : (ℕ → ℕ → ℕ) → ℕ → ℕ → List ℕ
print_row a i zero = []
print_row a i (suc j) = print_row a i j ++ a i j ∷ []

pub print_rows : ℕ → (ℕ → ℕ → ℕ) → ℕ → List ℕ
print_rows n a zero = []
print_rows n a (suc i) = print_rows n a i ++ print_row a i n

unfoldable pub print_graph : ℕ → (ℕ → ℕ → ℕ) → List ℕ
unfolding print_rows print_row
print_graph n a = n ∷ print_rows n a n

-- `fscanf(file, "%d", &A[k])` of boss.c, on what is left of the file; at its end nothing is stored.
abbrev pub scan_entry : ℕ → List ℕ × (ℕ → ℕ) → List ℕ × (ℕ → ℕ)
scan_entry k ([], a) = ([], a)
scan_entry k (x ∷ xs, a) = (xs, store a k x)

pub read_row : ℕ → ℕ → ℕ → List ℕ × (ℕ → ℕ) → List ℕ × (ℕ → ℕ)
read_row n i zero s = s
read_row n i (suc j) s = scan_entry (i * n + j) (read_row n i j s)

pub read_rows : ℕ → ℕ → List ℕ × (ℕ → ℕ) → List ℕ × (ℕ → ℕ)
read_rows n zero s = s
read_rows n (suc i) s = read_row n i n (read_rows n i s)

-- The number of vertices and the matrix in row order; `n` is 0 before it is read.
unfoldable pub read_graph : List ℕ → (ℕ → ℕ) → ℕ × (ℕ → ℕ)
unfolding read_rows read_row
read_graph [] memory = (0, memory)
read_graph (n ∷ file) memory = (n, (read_rows n n (file, memory)).1)
