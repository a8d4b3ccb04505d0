-- ===== src/TreeSum/Linking.antt =====
-- Assignment_07/computesum.c: each line of the file in turn.
use os_lab_spr.Base.{
  ℕ, ◌<◌, ◌≡◌, inl, inr, ◌≢◌, sym, ap, ◌∙◌, true, false, ◌==◌, if◌then◌else◌, bit, arith,
  Bool-cases, none, some, total, total-change, total-eq, List, [], ◌∷◌,
}
use mathlib.Core.Bool.{false≢true}
use os_lab_spr.TreeSum.{
  TreeNode, Tree, blank_tree, set_parent, add_child, read_line, read_lines, initialize_tree,
  has_parent,
}
use os_lab_spr.TreeSum.Invariant.{kid}
use os_lab_spr.TreeSum.Places.{==_self}
use os_lab_spr.TreeSum.Lines.{
  listed, roots, Fits, Read, blank-Read, set_parent_lem, add_child_lem, later, sooner, unlisted,
}

module _ (n c p : ℕ) (lines : List (ℕ × ℕ)) (t : Tree) (read : Read n ((c, p) ∷ lines) t)
    (c_low : c < n) (p_low : p < n) (once : listed c lines ≡ false) where
  c_new : (t.nodes c).parent ≡ none
  c_new = read.new c (ground arith)

  -- A line that names the root.
  module _ (same : c ≡ p) where
    root_nodes : (j : ℕ) → (set_parent c none t.nodes j).parent ≡ (t.nodes j).parent
    root_nodes j = elim (Bool-cases (c == j)) [
      | inl e ↦
          let at : c ≡ j = ground arith in
          (set_parent_lem c none t.nodes j).0
          ∙ ap (λ b. if b then none else (t.nodes j).parent) e
          ∙ sym c_new
          ∙ ap (λ y. (t.nodes y).parent) at
      | inr e ↦
          (set_parent_lem c none t.nodes j).0 ∙ ap (λ b. if b then none else (t.nodes j).parent) e
    ]

    last_root : roots lines ≡ 0
    last_root =
        let this : bit (c == p) ≡ 1 = ap bit (ap (λ y. c == y) (sym same) ∙ ==_self c) in
        elim read.rooted [
          | inl one ↦ omega arith
          | inr r ↦ let nothing = r.3 in absurd (omega arith)
        ]

    root_line : Read n lines (record { nodes = set_parent c none t.nodes; root = c })
    root_line = record {
      kids = λ i.
          (set_parent_lem c none t.nodes i).1
          ∙ read.kids i
          ∙ total-eq n (λ j. bit (kid t.nodes i j)) (λ j. bit (kid (set_parent c none t.nodes) i j))
              (λ j q. ap (λ o. bit (has_parent o i)) (sym (root_nodes j)));
      parents = λ j q low e. read.parents j q low (sym (root_nodes j) ∙ e);
      new = λ j h. root_nodes j ∙ read.new j (sooner j c p lines h);
      rooted = inr (c_low, root_nodes c ∙ c_new, once, last_root);
      orphans = λ j low e. elim (read.orphans j low (sym (root_nodes j) ∙ e)) [
        | inl l ↦ elim (later j c p lines l) [
          | inl at ↦ inr (ground arith, last_root)
          | inr h ↦ inl h
        ]
        | inr r ↦
            let this : bit (c == p) ≡ 1 = ap bit (ap (λ y. c == y) (sym same) ∙ ==_self c) in
            let nothing = r.1 in absurd (omega arith)
      ];
      values = λ j. (set_parent_lem c none t.nodes j).2 ∙ read.values j;
    }

  module _ (apart : (c == p) ≡ false) where
    abbrev linked : ℕ → TreeNode
    linked = add_child p (set_parent c (some p) t.nodes)

    linked_parent : (j : ℕ) → (linked j).parent ≡ (if c == j then some p else (t.nodes j).parent)
    linked_parent j =
        (add_child_lem p (set_parent c (some p) t.nodes) j).0
        ∙ (set_parent_lem c (some p) t.nodes j).0

    linked_other : (j : ℕ) → (c == j) ≡ false → (linked j).parent ≡ (t.nodes j).parent
    linked_other j e = linked_parent j ∙ ap (λ b. if b then some p else (t.nodes j).parent) e

    linked_child : (linked c).parent ≡ some p
    linked_child = linked_parent c ∙ ap (λ b. if b then some p else (t.nodes c).parent) (==_self c)

    same_roots : roots lines ≡ roots ((c, p) ∷ lines)
    same_roots = let off : bit (c == p) ≡ 0 = ap bit apart in omega arith

    linked_kids : (i : ℕ) → (linked i).children ≡ total n (λ j. bit (kid linked i j))
    linked_kids i =
        let one = (add_child_lem p (set_parent c (some p) t.nodes) i).1 in
        let before = (set_parent_lem c (some p) t.nodes i).1 in
        let old = read.kids i in
        let change =
          total-change n (λ j. bit (kid t.nodes i j)) (λ j. bit (kid linked i j)) c c_low
            (λ j ne. ap (λ o. bit (has_parent o i)) (sym (linked_other j (ground arith)))) in
        let was : bit (kid t.nodes i c) ≡ 0 = ap (λ o. bit (has_parent o i)) c_new in
        let now : bit (kid linked i c) ≡ bit (p == i) =
          ap (λ o. bit (has_parent o i)) linked_child in
        omega arith

    linked_parents : (j q : ℕ) → j < n → (linked j).parent ≡ some q → (q < n) × (q ≢ j)
    linked_parents j q low e = elim (Bool-cases (c == j)) [
      | inl at ↦
          let up : some p ≡ some q =
            sym (linked_parent j ∙ ap (λ b. if b then some p else (t.nodes j).parent) at) ∙ e in
          let this : p ≡ q = ground (arith, up) in (omega arith, λ s. absurd (ground (arith, s)))
      | inr at ↦ read.parents j q low (sym (linked_other j at) ∙ e)
    ]

    child_line : Read n lines (record t { nodes = linked })
    child_line = record {
      kids = linked_kids;
      parents = linked_parents;
      new = λ j h. linked_other j (ground (arith, once)) ∙ read.new j (sooner j c p lines h);
      rooted = elim read.rooted [
        | inl one ↦ inl (same_roots ∙ one)
        | inr (low, top, away, none_left) ↦
            let other = unlisted t.root c p lines away in
            inr (low, linked_other t.root other.0 ∙ top, other.1, same_roots ∙ none_left)
      ];
      orphans = λ j low e. elim (Bool-cases (c == j)) [
        | inl at ↦
            let never : none ≡ some p =
              sym e ∙ linked_parent j ∙ ap (λ b. if b then some p else (t.nodes j).parent) at in
            absurd (ground (arith, never))
        | inr at ↦ elim (read.orphans j low (sym (linked_other j at) ∙ e)) [
          | inl l ↦ elim (later j c p lines l) [
            | inl here ↦ absurd (false≢true (sym at ∙ here))
            | inr h ↦ inl h
          ]
          | inr r ↦ inr (r.0, same_roots ∙ r.1)
        ]
      ];
      values = λ j.
          (add_child_lem p (set_parent c (some p) t.nodes) j).2
          ∙ (set_parent_lem c (some p) t.nodes j).2
          ∙ read.values j;
    }

read_line-Read :
    (n c p : ℕ) (lines : List (ℕ × ℕ)) (t : Tree)
    → Read n ((c, p) ∷ lines) t
    → c < n
    → p < n
    → listed c lines ≡ false
    → Read n lines (read_line c p t)
read_line-Read n c p lines t read c_low p_low once = elim (Bool-cases (c == p)) [
  | inl e ↦ rw e (root_line n c p lines t read c_low p_low once (ground arith))
  | inr e ↦
      let known : read_line c p t
          ≡ record t { nodes = add_child p (set_parent c (some p) t.nodes) } =
        ap
          (λ b.
            if b
            then record { nodes = set_parent c none t.nodes; root = c }
            else record t { nodes = add_child p (set_parent c (some p) t.nodes) })
          e in
      rw known (child_line n c p lines t read c_low p_low once e)
]

read_lines-Read :
    (n : ℕ) (lines : List (ℕ × ℕ)) (t : Tree)
    → Fits n lines
    → Read n lines t
    → Read n [] (read_lines lines t)
unfolding read_lines
read_lines-Read n [] t fits read = read
read_lines-Read n ((c, p) ∷ lines) t (c_low, p_low, once, fits) read =
    read_lines-Read n lines (read_line c p t) fits
      (read_line-Read n c p lines t read c_low p_low once)

pub initialize_tree-Read :
    (n : ℕ) (lines : List (ℕ × ℕ))
    → Fits n lines
    → ((j : ℕ) → j < n → listed j lines ≡ true)
    → roots lines ≡ 1
    → Read n [] (initialize_tree lines)
unfolding initialize_tree
initialize_tree-Read n lines fits all one =
    read_lines-Read n lines blank_tree fits (blank-Read n lines all one)
