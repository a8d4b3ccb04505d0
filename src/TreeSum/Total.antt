-- ===== src/TreeSum/Total.antt =====
-- Assignment_07/computesum.c: the sum at the root.
use os_lab_spr.Base.{
  ℕ, ◌<◌, ◌≡◌, inl, inr, refl, sym, ap, ◌∙◌, true, false, ◌==◌, ltb, if◌then◌else◌, arith,
  Bool-cases, Option, none, some, total, total-eq, total-null, total-single, List, [], ◌∷◌,
}
use os_lab_spr.TreeSum.{
  TreeNode, Work, Place, fresh, gathering, adding, summed, handing, finished, begin, has_parent,
  add_children, set_sum, goes, is_open, hand_on, leave_parent, node_work, turn, run,
}
use os_lab_spr.TreeSum.Invariant.{
  done, came, past, handed, kid, IsTree, parent_done, front, counted, Sound, begin-Sound,
  add_children_lem,
}
use os_lab_spr.TreeSum.Moves.{goes_gathering, goes_adding, goes_handing, goes_finished, has_kids}
use os_lab_spr.TreeSum.Adding.{goes_summed, front_lem}
use os_lab_spr.TreeSum.Places.{==_self}

module _ (n : ℕ) (t : ℕ → TreeNode) (root : ℕ) (tree : IsTree n t root) (w : Work)
    (sound : Sound n t w) (i : ℕ) (low : i < n) where
  leaf-Sound :
      w.place i ≡ fresh
      → (t i).children ≡ 0
      → Sound n t (goes i summed (record w { nodes = set_sum i (w.nodes i).value w.nodes }))
  leaf-Sound here leaf =
      let none_kid : (j : ℕ) → j < n → kid t i j ≡ true → ⊥ = λ j j_low child.
        let some_kid = has_kids n t root tree w sound i low j j_low child in omega arith in
      let nothing =
        total-null n (λ j. if kid t i j then (w.nodes j).sum else 0)
          (λ j j_low. elim (Bool-cases (kid t i j)) [
            | inl e ↦ absurd (none_kid j j_low e)
            | inr e ↦ ap (λ b. if b then (w.nodes j).sum else 0) e
          ]) in
      let value = (sound.same i).2 in
      goes_summed n t root tree w sound i low (w.nodes i).value (ap done here) (omega arith)
        (λ j j_low child. absurd (none_kid j j_low child)) (λ some_child. absurd (omega arith))

  adds-Sound :
      w.place i ≡ adding
      → Sound n t (
          goes i summed
            (record w { nodes = set_sum i (add_children n w.nodes i (w.nodes i).value) w.nodes }))
  adds-Sound here =
      let value = (sound.same i).2 in
      let adds = add_children_lem n w.nodes i (w.nodes i).value in
      let kids =
        total-eq n (λ j. if has_parent (w.nodes j).parent i then (w.nodes j).sum else 0)
          (λ j. if kid t i j then (w.nodes j).sum else 0)
          (λ j p. ap (λ o. if has_parent o i then (w.nodes j).sum else 0) (sound.same j).0) in
      goes_summed n t root tree w sound i low (add_children n w.nodes i (w.nodes i).value)
        (ap done here) (omega arith)
        (λ j j_low child. sound.through i j low j_low (ap past here) child)
        (λ some_child. ap came here)

  hand_on-Sound : w.place i ≡ summed → (o : Option ℕ) → (t i).parent ≡ o → Sound n t (hand_on i o w)
  hand_on-Sound here none e = goes_finished n t root tree w sound i low (ap done here) (λ k.
      ap (λ o. if has_parent o k then handed (w.place i) else 0) e
      ∙ sym (ap (λ o. if has_parent o k then 1 else 0) e))
  hand_on-Sound here (some p) e = goes_handing n t root tree w sound i low p here e

  leave_parent-Sound : w.place i ≡ handing → (o : Option ℕ) → Sound n t (leave_parent i o w)
  leave_parent-Sound here o =
      let ends =
        goes_finished n t root tree w sound i low (ap done here)
          (λ k. ap (λ p. if kid t k i then handed p else 0) here) in
      elim o as (λ k. Sound n t (leave_parent i k w)) [
        | none ↦ ends
        | some p ↦ elim (Bool-cases (is_open p w)) [ inl e ↦ rw e ends | inr e ↦ rw e sound ]
      ]

  node_work-Sound : (p : Place) → w.place i ≡ p → Sound n t (node_work n i p w)
  unfolding node_work
  node_work-Sound fresh here = elim (Bool-cases (ltb 0 (w.nodes i).children)) [
    | inl e ↦
        let c = (sound.same i).1 in
        rw e (goes_gathering n t root tree w sound i low here (ground arith))
    | inr e ↦ let c = (sound.same i).1 in rw e (leaf-Sound here (ground arith))
  ]
  node_work-Sound gathering here = elim (Bool-cases (is_open i w)) [
    | inl e ↦ rw e (goes_adding n t root tree w sound i low here e)
    | inr e ↦ rw e sound
  ]
  node_work-Sound adding here = adds-Sound here
  node_work-Sound summed here = hand_on-Sound here (w.nodes i).parent (sym (sound.same i).0)
  node_work-Sound handing here = leave_parent-Sound here (w.nodes i).parent
  node_work-Sound finished here = sound

pub turn-Sound :
    (n : ℕ) (t : ℕ → TreeNode) (root : ℕ)
    → IsTree n t root
    → (w : Work) (i : ℕ) → Sound n t w
    → Sound n t (turn n w i)
unfolding turn
turn-Sound n t root tree w i sound = elim (Bool-cases (ltb i n)) [
  | inl e ↦ rw e (node_work-Sound n t root tree w sound i (ground arith) (w.place i) refl)
  | inr e ↦ rw e sound
]

pub run-Sound :
    (n : ℕ) (t : ℕ → TreeNode) (root : ℕ)
    → IsTree n t root
    → (is : List ℕ) (w : Work) → Sound n t w
    → Sound n t (run n w is)
unfolding run
run-Sound n t root tree [] w sound = sound
run-Sound n t root tree (i ∷ is) w sound =
    run-Sound n t root tree is (turn n w i) (turn-Sound n t root tree w i sound)

-- When all threads are done, the sum that no parent has added is the root's.
root_front :
    (n : ℕ) (t : ℕ → TreeNode) (root : ℕ)
    → IsTree n t root
    → (w : Work) → ((j : ℕ) → j < n → done (w.place j) ≡ true)
    → (j : ℕ) → j < n
    → (o : Option ℕ) → (t j).parent ≡ o
    → front t w j ≡ (if root == j then (w.nodes root).sum else 0)
root_front n t root tree w all j j_low none e =
    let same = tree.one_root j j_low e in
    let mine =
      front_lem t w j true false (w.nodes j).sum (all j j_low) (ap (parent_done w.place) e) refl in
    let is_root : (root == j) ≡ true = ap (λ y. root == y) same ∙ ==_self root in
    mine
    ∙ ap (λ y. (w.nodes y).sum) same
    ∙ sym (ap (λ b. if b then (w.nodes root).sum else 0) is_root)
root_front n t root tree w all j j_low (some p) e =
    let mine =
      front_lem t w j true true (w.nodes j).sum (all j j_low)
        (ap (parent_done w.place) e ∙ all p (tree.parents j p j_low e).0) refl in
    let other : (root == j) ≡ false = elim (Bool-cases (root == j)) [
      | inl r ↦
          let same : root ≡ j = ground arith in
          let never : none ≡ some p = sym tree.rooted.1 ∙ ap (λ y. (t y).parent) same ∙ e in
          absurd (ground (arith, never))
      | inr r ↦ r
    ] in
    mine ∙ sym (ap (λ b. if b then (w.nodes root).sum else 0) other)

-- On a tree, whatever the order of the threads' turns, once all of them have their sums the sum at the
-- root is that of the values of all nodes.
pub root_sum :
    (n : ℕ) (t : ℕ → TreeNode) (root : ℕ)
    → IsTree n t root
    → (is : List ℕ) → ((j : ℕ) → j < n → done ((run n (begin t) is).place j) ≡ true)
    → ((run n (begin t) is).nodes root).sum ≡ total n (λ j. (t j).value)
root_sum n t root tree is all =
    let w : Work = run n (begin t) is in
    let sound = run-Sound n t root tree is (begin t) (begin-Sound n t) in
    let fronts =
      total-eq n (front t w) (λ j. if root == j then (w.nodes root).sum else 0)
        (λ j p. root_front n t root tree w all j p (t j).parent refl) in
    let values =
      total-eq n (counted t w) (λ j. (t j).value)
        (λ j p. ap (λ b. if b then (t j).value else 0) (all j p)) in
    sym (total-single n root (w.nodes root).sum tree.rooted.0) ∙ sym fronts ∙ sound.sums ∙ values
