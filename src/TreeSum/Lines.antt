-- ===== src/TreeSum/Lines.antt =====
-- Assignment_07/computesum.c: what the lines of the file say, and the stores of one line.
use os_lab_spr.Base.{
  ℕ, ◌+◌, ◌<◌, ◌≡◌, ◌⊎◌, inl, inr, ◌≢◌, refl, sym, ap, ◌∙◌, Bool, true, false, ◌||◌, ◌==◌,
  if◌then◌else◌, bit, arith, Bool-cases, Option, none, some, total, total-null, List, [], ◌∷◌,
}
use os_lab_spr.TreeSum.{TreeNode, Tree, blank_tree, set_parent, add_child, read_line}
use os_lab_spr.TreeSum.Invariant.{kid}

-- Whether a node is a child in some line, and how many lines name a node as its own parent.
abbrev pub listed : ℕ → List (ℕ × ℕ) → Bool
listed j [] = false
listed j (l ∷ lines) = (l.0 == j) || listed j lines

abbrev pub roots : List (ℕ × ℕ) → ℕ
roots [] = 0
roots (l ∷ lines) = bit (l.0 == l.1) + roots lines

-- Every line names two nodes of the tree, and no node is a child in two lines.
abbrev pub Fits : ℕ → List (ℕ × ℕ) → Type 0
Fits n [] = Unit {0}
Fits n (l ∷ lines) = (l.0 < n) × (l.1 < n) × (listed l.0 lines ≡ false) × Fits n lines

-- What stays true while the lines are read: those that are left, and the tree so far.
pub record Read (n : ℕ) (lines : List (ℕ × ℕ)) (t : Tree) : Type 0 where
  pub kids : (i : ℕ) → (t.nodes i).children ≡ total n (λ j. bit (kid t.nodes i j))
  pub parents : (j p : ℕ) → j < n → (t.nodes j).parent ≡ some p → (p < n) × (p ≢ j)
  pub new : (j : ℕ) → listed j lines ≡ true → (t.nodes j).parent ≡ none
  pub rooted :
      (roots lines ≡ 1)
      ⊎ ((t.root < n)
          × ((t.nodes t.root).parent ≡ none)
          × (listed t.root lines ≡ false)
          × (roots lines ≡ 0))
  pub orphans :
      (j : ℕ)
      → j < n
      → (t.nodes j).parent ≡ none
      → (listed j lines ≡ true) ⊎ ((j ≡ t.root) × (roots lines ≡ 0))
  pub values : (j : ℕ) → (t.nodes j).value ≡ 0

pub blank-Read :
    (n : ℕ) (lines : List (ℕ × ℕ))
    → ((j : ℕ) → j < n → listed j lines ≡ true)
    → roots lines ≡ 1
    → Read n lines blank_tree
blank-Read n lines all one = record {
  kids = λ i. sym (total-null n (λ j. bit false) (λ j p. refl));
  parents = λ j p low e. absurd (ground (arith, e));
  new = λ j h. refl;
  rooted = inl one;
  orphans = λ j low e. inl (all j low);
  values = λ j. refl;
}

-- The fields after one of the two stores.
pub set_parent_lem :
    (c : ℕ) (o : Option ℕ) (nodes : ℕ → TreeNode) (j : ℕ)
    → ((set_parent c o nodes j).parent ≡ (if c == j then o else (nodes j).parent))
      × ((set_parent c o nodes j).children ≡ (nodes j).children)
      × ((set_parent c o nodes j).value ≡ (nodes j).value)
set_parent_lem c o nodes j = elim (Bool-cases (c == j)) [
  | inl e ↦
      let same : c ≡ j = ground arith in
      rw e (refl, ap (λ y. (nodes y).children) same, ap (λ y. (nodes y).value) same)
  | inr e ↦ rw e (refl, refl, refl)
]

pub add_child_lem :
    (p : ℕ) (nodes : ℕ → TreeNode) (j : ℕ)
    → ((add_child p nodes j).parent ≡ (nodes j).parent)
      × ((add_child p nodes j).children ≡ (nodes j).children + bit (p == j))
      × ((add_child p nodes j).value ≡ (nodes j).value)
add_child_lem p nodes j = elim (Bool-cases (p == j)) [
  | inl e ↦
      let same : p ≡ j = ground arith in
      rw e (
        ap (λ y. (nodes y).parent) same,
        ap (λ y. (nodes y).children + 1) same,
        ap (λ y. (nodes y).value) same,
      )
  | inr e ↦ rw e (refl, omega arith, refl)
]

pub later :
    (j c p : ℕ) (lines : List (ℕ × ℕ))
    → listed j ((c, p) ∷ lines) ≡ true
    → ((c == j) ≡ true) ⊎ (listed j lines ≡ true)
later j c p lines h = elim (Bool-cases (c == j)) [ inl e ↦ inl e | inr e ↦ inr (ground arith) ]

pub sooner :
    (j c p : ℕ) (lines : List (ℕ × ℕ)) → listed j lines ≡ true → listed j ((c, p) ∷ lines) ≡ true
sooner j c p lines h = ground arith

pub unlisted :
    (j c p : ℕ) (lines : List (ℕ × ℕ))
    → listed j ((c, p) ∷ lines) ≡ false
    → ((c == j) ≡ false) × (listed j lines ≡ false)
unlisted j c p lines h = (ground arith, ground arith)

-- What one line makes of the parents.
pub read_line-parent :
    (c p : ℕ) (t : Tree) (j : ℕ)
    → ((read_line c p t).nodes j).parent
      ≡ (if c == j then (if c == p then none else some p) else (t.nodes j).parent)
read_line-parent c p t j = elim (Bool-cases (c == p)) [
  | inl e ↦ rw e (set_parent_lem c none t.nodes j).0
  | inr e ↦
      let known : read_line c p t
          ≡ record t { nodes = add_child p (set_parent c (some p) t.nodes) } =
        ap
          (λ b.
            if b
            then record { nodes = set_parent c none t.nodes; root = c }
            else record t { nodes = add_child p (set_parent c (some p) t.nodes) })
          e in
      ap (λ z. (z.nodes j).parent) known
      ∙ (add_child_lem p (set_parent c (some p) t.nodes) j).0
      ∙ (set_parent_lem c (some p) t.nodes j).0
      ∙ ap (λ b. if c == j then (if b then none else some p) else (t.nodes j).parent) (sym e)
]
