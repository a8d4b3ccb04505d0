-- ===== src/TreeSum/Reading.antt =====
-- Assignment_07/computesum.c: the tree that the lines of the file make, and the whole program on it.
use os_lab_spr.Base.{
  ℕ, ◌<◌, ◌≡◌, inl, inr, refl, sym, ap, ◌∙◌, true, ◌==◌, if◌then◌else◌, bit, arith, Bool-cases,
  none, total, total-eq, List,
}
use mathlib.Core.Bool.{false≢true}
use os_lab_spr.TreeSum.{TreeNode, Tree, initialize_tree, read_values, begin, has_parent, run}
use os_lab_spr.TreeSum.Invariant.{done, kid, IsTree}
use os_lab_spr.TreeSum.Total.{root_sum}
use os_lab_spr.TreeSum.Lines.{listed, roots, Fits}
use os_lab_spr.TreeSum.Linking.{initialize_tree-Read}

-- The numbers that are typed change no parent and no count.
pub read_values_lem :
    (input : ℕ → ℕ) (nodes : ℕ → TreeNode) (j : ℕ)
    → ((read_values input nodes j).parent ≡ (nodes j).parent)
      × ((read_values input nodes j).children ≡ (nodes j).children)
      × ((read_values input nodes j).value
          ≡ (if (nodes j).children == 0 then input j else (nodes j).value))
read_values_lem input nodes j = elim (Bool-cases ((nodes j).children == 0)) [
  | inl e ↦ rw e (refl, refl, refl)
  | inr e ↦ rw e (refl, refl, refl)
]

pub values-IsTree :
    (n : ℕ) (lines : List (ℕ × ℕ)) (input : ℕ → ℕ)
    → Fits n lines
    → ((j : ℕ) → j < n → listed j lines ≡ true)
    → roots lines ≡ 1
    → IsTree n (read_values input (initialize_tree lines).nodes) (initialize_tree lines).root
values-IsTree n lines input fits all one =
    let t : Tree = initialize_tree lines in
    let read = initialize_tree-Read n lines fits all one in
    let up : (j : ℕ) → (read_values input t.nodes j).parent ≡ (t.nodes j).parent =
      λ j. (read_values_lem input t.nodes j).0 in
    let top : (t.root < n) × ((t.nodes t.root).parent ≡ none) = elim read.rooted [
      | inl e ↦ absurd (omega arith)
      | inr r ↦ (r.0, r.1)
    ] in
    record {
      kids = λ i low.
          (read_values_lem input t.nodes i).1
          ∙ read.kids i
          ∙ total-eq n (λ j. bit (kid t.nodes i j)) (λ j. bit (kid (read_values input t.nodes) i j))
              (λ j q. ap (λ o. bit (has_parent o i)) (sym (up j)));
      parents = λ j p low e. read.parents j p low (sym (up j) ∙ e);
      rooted = (top.0, up t.root ∙ top.1);
      one_root = λ j low e. elim (read.orphans j low (sym (up j) ∙ e)) [
        | inl l ↦ absurd (false≢true l)
        | inr r ↦ r.0
      ];
    }

-- On a file in which each of the nodes below n is a child in one line, with parents below n and one line
-- that names a root, whatever numbers are typed and whatever the order of the threads' turns, once all
-- threads have their sums the sum at the root is that of the numbers at the leaves.
pub leaves_summed :
    (n : ℕ) (lines : List (ℕ × ℕ)) (input : ℕ → ℕ)
    → Fits n lines
    → ((j : ℕ) → j < n → listed j lines ≡ true)
    → roots lines ≡ 1
    → (is : List ℕ)
    → ((j : ℕ)
        → j < n
        → done ((run n (begin (read_values input (initialize_tree lines).nodes)) is).place j)
          ≡ true)
    → ((run n (begin (read_values input (initialize_tree lines).nodes)) is).nodes
        (initialize_tree lines).root).sum
      ≡ total n (λ j. if ((initialize_tree lines).nodes j).children == 0 then input j else 0)
leaves_summed n lines input fits all one is ended =
    let t : Tree = initialize_tree lines in
    let read = initialize_tree-Read n lines fits all one in
    root_sum n (read_values input t.nodes) t.root (values-IsTree n lines input fits all one) is
      ended
    ∙ total-eq n (λ j. (read_values input t.nodes j).value)
        (λ j. if (t.nodes j).children == 0 then input j else 0)
        (λ j p.
          (read_values_lem input t.nodes j).2
          ∙ ap (λ v. if (t.nodes j).children == 0 then input j else v) (read.values j))
