-- ===== src/GenTree/Written.antt =====
-- Assignment_07/gentree.c: what the lines of the file say of the nodes.
use os_lab_spr.Base.{
  ℕ, zero, suc, ◌+◌, ◌-◌, ◌≤◌, ◌<◌, ◌≡◌, ◌≢◌, sym, ap, ◌∙◌, true, false, ◌&&◌, ◌==◌, ltb, leb,
  if◌then◌else◌, bit, arith, ℕ_discrete, none, some,
}
use os_lab_spr.Shuffle.{IsPerm, same_place, place, place-perm}
use os_lab_spr.GenTree.{print_lines}
use os_lab_spr.GenTree.Growing.{EarlierParents}
use os_lab_spr.TreeSum.{Tree, blank_tree, read_line, read_lines, initialize_tree}
use os_lab_spr.TreeSum.Lines.{listed, roots, Fits, read_line-parent}

module _ (parents : ℕ → ℕ) where
  listed_lem : (i k j : ℕ) → listed j (print_lines parents i k) ≡ (leb i j && ltb j (i + k))
  unfolding print_lines
  listed_lem i zero j = ground arith
  listed_lem i (suc k) j = ground (arith, listed_lem (i + 1) k j)

  lines-Fits :
      (n i k : ℕ) → i + k ≤ n → ((j : ℕ) → j < n → parents j < n) → Fits n (print_lines parents i k)
  unfolding print_lines
  lines-Fits n i zero h below = tt
  lines-Fits n i (suc k) h below = (
    omega arith,
    below i (omega arith),
    listed_lem (i + 1) k i ∙ ground arith,
    lines-Fits n (i + 1) k (omega arith) below,
  )

  roots_lem :
      (r i k : ℕ)
      → ((j : ℕ) → i ≤ j → j < i + k → (j == parents j) ≡ (j == r))
      → roots (print_lines parents i k) ≡ bit (leb i r && ltb r (i + k))
  unfolding print_lines
  roots_lem r i zero only = ground arith
  roots_lem r i (suc k) only =
      let rest = roots_lem r (i + 1) k (λ j p q. only j (omega arith) (omega arith)) in
      let this = only i (omega arith) (omega arith) in rw this (ground (arith, rest))

  -- The parent of a node, once the lines are read.
  parent_lem :
      (i k j : ℕ) (t : Tree)
      → ((read_lines (print_lines parents i k) t).nodes j).parent ≡ (
          if leb i j && ltb j (i + k)
          then (if j == parents j then none else some (parents j))
          else (t.nodes j).parent)
  unfolding print_lines read_lines
  parent_lem i zero j t = ground arith
  parent_lem i (suc k) j t =
      parent_lem (i + 1) k j (read_line i (parents i) t)
      ∙ ap
          (λ o.
            if leb (i + 1) j && ltb j (i + 1 + k)
            then (if j == parents j then none else some (parents j))
            else o)
          (read_line-parent i (parents i) t j)
      ∙ elim (ℕ_discrete i j) [ yes e ↦ rw (← e) (ground arith) | no ne ↦ ground arith ]

-- The tree of the lines: the first of PERM is the root, and its own parent in the file only.
module _ (n : ℕ) (perm parents : ℕ → ℕ) (v : IsPerm n perm) (tree : EarlierParents n perm parents)
    (pos : 0 < n) where
  parents_below : (j : ℕ) → j < n → parents j < n
  parents_below j low =
      let (c, p, e) = v.onto j low in
      elim (ℕ_discrete c 0) [
        | yes z ↦
            let at : parents j ≡ perm 0 = ap parents (sym e ∙ ap perm z) ∙ tree.root in
            rw at (v.below 0 pos)
        | no nz ↦
            let (q, less, at) = tree.chosen c (omega arith) p in
            let to : parents j ≡ perm q = ap parents (sym e) ∙ at in rw to (v.below q (omega arith))
      ]

  -- A node names itself only if it is the first of PERM.
  own_parent : (j : ℕ) → j < n → (j == parents j) ≡ (j == perm 0)
  own_parent j low =
      let (c, p, e) = v.onto j low in
      elim (ℕ_discrete c 0) [
        | yes z ↦
            let first : j ≡ perm 0 = sym e ∙ ap perm z in
            ap (λ y. j == y) (ap parents first ∙ tree.root)
        | no nz ↦
            let (q, less, at) = tree.chosen c (omega arith) p in
            let to : parents j ≡ perm q = ap parents (sym e) ∙ at in
            let other : (j == perm q) ≡ false =
              ap (λ y. y == perm q) (sym e)
              ∙ same_place n perm c q v p (omega arith)
              ∙ ground arith in
            let away : (j == perm 0) ≡ false =
              ap (λ y. y == perm 0) (sym e) ∙ same_place n perm c 0 v p pos ∙ ground arith in
            ap (λ y. j == y) to ∙ other ∙ sym away
      ]

  pub written-Fits : Fits n (print_lines parents 0 n)
  written-Fits = lines-Fits parents n 0 n (omega arith) parents_below

  pub written-listed : (j : ℕ) → j < n → listed j (print_lines parents 0 n) ≡ true
  written-listed j low = listed_lem parents 0 n j ∙ ground arith

  pub written-roots : roots (print_lines parents 0 n) ≡ 1
  written-roots =
      let low = v.below 0 pos in
      roots_lem parents (perm 0) 0 n (λ j p q. own_parent j (omega arith)) ∙ ground arith

  -- The place of a node in PERM, counted from the end.
  pub height : ℕ → ℕ
  height u = n - place n perm v u

  pub height_grows :
      (j p : ℕ)
      → j < n
      → ((initialize_tree (print_lines parents 0 n)).nodes j).parent ≡ some p
      → height j < height p
  unfolding height initialize_tree
  height_grows j p low e =
      let known : (if leb 0 j && ltb j (0 + n)
            then (if j == parents j then none else some (parents j))
            else none)
          ≡ some p =
        sym (parent_lem parents 0 n j blank_tree) ∙ e in
      let up : parents j ≡ p = ground (arith, known) in
      let other : j ≢ perm 0 = λ same.
        let own : (j == parents j) ≡ true = own_parent j low ∙ ground arith in
        absurd (ground (arith, known)) in
      let (c, c_low, at) = v.onto j low in
      let nz : c ≢ 0 = λ z. other (sym at ∙ ap perm z) in
      let (q, less, to) = tree.chosen c (omega arith) c_low in
      let mine : place n perm v j ≡ c =
        ap (place n perm v) (sym at) ∙ place-perm n perm v c c_low in
      let its : place n perm v p ≡ q =
        ap (place n perm v) (sym up ∙ ap parents (sym at) ∙ to)
        ∙ place-perm n perm v q (omega arith) in
      omega arith
