-- ===== src/GenTree.antt =====
-- Assignment_07/gentree.c: a random tree, whose nodes get children in the order of PERM, and the lines of
-- the file tree.txt. computesum.c of the same directory reads the file.
pub mod Growing
pub mod Written
pub mod Summed
mod Tests
use os_lab_spr.Base.{
  ℕ, zero, suc, ◌+◌, ◌-◌, ◌%◌, ◌==◌, ltb, if◌then◌else◌, store, Option, none, some, ◌>>=◌, List, [],
  ◌∷◌,
}
use os_lab_spr.Shuffle.{shuffled}

-- `P` and the variables of the loop.
pub record Growth : Type 0 where
  pub parents : ℕ → ℕ
  pub nextchild : ℕ
  pub nextparent : ℕ
  pub remaining : ℕ

-- How many children the next parent gets; `r` is what rand returns.
abbrev pub family : ℕ → Growth → ℕ
family r g =
    if ltb 5 g.remaining
    then (if g.nextchild == g.nextparent then 1 + r % 5 else r % 5)
    else (if g.nextchild == g.nextparent then 1 + r % g.remaining else r % g.remaining)

-- `++nextchild; P[PERM[nextchild]] = PERM[nextparent];`
abbrev pub adopt : (ℕ → ℕ) → Growth → Growth
adopt perm g = record g {
  nextchild = g.nextchild + 1;
  parents = store g.parents (perm (g.nextchild + 1)) (perm g.nextparent);
}

pub adopt_all : (ℕ → ℕ) → ℕ → Growth → Growth
adopt_all perm zero g = g
adopt_all perm (suc t) g = adopt perm (adopt_all perm t g)

pub raise_family : (ℕ → ℕ) → ℕ → Growth → Growth
raise_family perm r g =
    let t : ℕ = family r g in
    let after : Growth = adopt_all perm t (record g { remaining = g.remaining - t }) in
    record after { nextparent = after.nextparent + 1 }

-- The loop; `rand i` is what rand returns in round `i`, and `none` that the fuel ran out.
pub grow : ℕ → (ℕ → ℕ) → (ℕ → ℕ) → ℕ → Growth → Option Growth
grow zero perm rand i g = none
grow (suc fuel) perm rand i g =
    let rest = grow fuel perm rand (i + 1) (raise_family perm (rand i) g) in
    if ltb 0 g.remaining then rest else some g

-- The lines from node `i` on.
pub print_lines : (ℕ → ℕ) → ℕ → ℕ → List (ℕ × ℕ)
print_lines parents i zero = []
print_lines parents i (suc k) = (i, parents i) ∷ print_lines parents (i + 1) k

-- The lines of the file for `n` nodes; what malloc returns is not known. The shuffle takes the first `n`
-- numbers of rand.
unfoldable pub gentree : ℕ → (ℕ → ℕ) → ℕ → (ℕ → ℕ) → Option (List (ℕ × ℕ))
unfolding grow print_lines raise_family adopt_all
gentree fuel rand n memory =
    let perm : ℕ → ℕ = shuffled rand n in
    grow fuel perm (λ i. rand (n + i)) 0
      (record {
        parents = store memory (perm 0) (perm 0);
        nextchild = 0;
        nextparent = 0;
        remaining = n - 1;
      })
    >>= λ g. some (print_lines g.parents 0 n)
