-- ===== src/GenTree/Summed.antt =====
-- Assignment_07: the threads of computesum.c on a tree that gentree.c writes.
use os_lab_spr.Base.{
  ℕ, ◌≤◌, ◌<◌, ◌≡◌, refl, sym, ◌∙◌, true, false, ◌==◌, if◌then◌else◌, arith, total, le-total, some,
  List,
}
use os_lab_spr.Shuffle.{shuffled, shuffled-IsPerm}
use os_lab_spr.GenTree.{print_lines, gentree}
use os_lab_spr.GenTree.Growing.{gentree-EarlierParents}
use os_lab_spr.GenTree.Written.{written-Fits, written-listed, written-roots, height, height_grows}
use os_lab_spr.TreeSum.{TreeNode, Place, finished, Work, initialize_tree, read_values}
use os_lab_spr.TreeSum.Invariant.{done}
use os_lab_spr.TreeSum.Reading.{read_values_lem, values-IsTree}
use os_lab_spr.TreeSum.Finish.{ahead, all_ahead}
use os_lab_spr.TreeSum.Threads.{Program, create_threads, run}
use os_lab_spr.TreeSum.Whole.{create_small, sum_of_leaves, threads_can_finish}

at_end : (p : Place) → ahead p ≡ 0 → done p ≡ true
at_end finished e = refl
at_end p e = absurd (omega arith)

all_at_end : (n : ℕ) (w : Work) → all_ahead n w ≡ 0 → (j : ℕ) → j < n → done (w.place j) ≡ true
all_at_end n w e j low =
    at_end (w.place j) (omega (arith, e, le-total n (λ i. ahead (w.place i)) j low))

-- For a number n of nodes from 1 to 49 and fuel for them gentree.c writes its lines, whatever is drawn; and on
-- the tree of these lines, whatever numbers are typed, main can create the threads, there are turns of theirs
-- after which all have their sums and the program has not exited, and after whatever turns all have their
-- sums, the sum at the root is that of the numbers at the leaves.
pub generated_tree_summed :
    (fuel : ℕ) (rand : ℕ → ℕ) (n : ℕ) (memory input : ℕ → ℕ)
    → 0 < n
    → n ≤ 49
    → n ≤ fuel
    → (lines : List (ℕ × ℕ)) × (gentree fuel rand n memory ≡ some lines)
      × (s : Program) × (create_threads n (read_values input (initialize_tree lines).nodes)
          ≡ some s)
      × ((is : List ℕ) × ((j : ℕ) → j < n → done ((run n s is).work.place j) ≡ true)
          × ((run n s is).exited ≡ false))
      × ((is : List ℕ)
          → ((j : ℕ) → j < n → done ((run n s is).work.place j) ≡ true)
          → ((run n s is).work.nodes (initialize_tree lines).root).sum
            ≡ total n (λ j. if ((initialize_tree lines).nodes j).children == 0 then input j else 0))
generated_tree_summed fuel rand n memory input pos small enough =
    let (parents, made, tree) = gentree-EarlierParents fuel rand n memory pos enough in
    let v = shuffled-IsPerm rand n in
    let lines : List (ℕ × ℕ) = print_lines parents 0 n in
    let nodes : ℕ → TreeNode = read_values input (initialize_tree lines).nodes in
    let fits = written-Fits n (shuffled rand n) parents v tree pos in
    let all = written-listed n (shuffled rand n) parents v tree pos in
    let one = written-roots n (shuffled rand n) parents v tree pos in
    let (s, created) = create_small n nodes small in
    let (is, ended, on) =
      threads_can_finish n nodes (initialize_tree lines).root
        (values-IsTree n lines input fits all one) (height n (shuffled rand n) parents v tree pos)
        (λ j p low e.
          height_grows n (shuffled rand n) parents v tree pos j p low
            (sym (read_values_lem input (initialize_tree lines).nodes j).0 ∙ e))
        s created in
    (
      lines,
      made,
      s,
      created,
      (is, all_at_end n (run n s is).work ended, on),
      sum_of_leaves n lines input fits all one s created,
    )
