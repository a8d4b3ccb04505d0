-- ===== src/TreeSum/Tests.antt =====
-- Four nodes of Assignment_07/computesum.c: a root with two children, one of which has a child.
use os_lab_spr.Base.{
  ℕ, zero, suc, Bool, ◌+◌, ◌<◌, ◌≡◌, refl, arith, true, false, none, some, List, [], ◌∷◌, ◌==◌,
  if◌then◌else◌, total,
}
use os_lab_spr.TreeSum.{
  TreeNode, Tree, read_lines, initialize_tree, read_values, begin, node_work, turn, run,
  add_children,
}
use os_lab_spr.TreeSum.Invariant.{done}
use os_lab_spr.TreeSum.Lines.{listed, Fits}
use os_lab_spr.TreeSum.Threads
use os_lab_spr.TreeSum.Threads.{Program, create_threads, node_thread}
use os_lab_spr.TreeSum.Whole.{sum_of_leaves}
use os_lab_spr.FooMutex.{waiting, statement, foothread_mutex_init}

abbrev lines : List (ℕ × ℕ)
lines = (0, 0) ∷ (1, 0) ∷ (2, 0) ∷ (3, 1) ∷ []

abbrev typed : ℕ → ℕ
typed i = i + 10

abbrev tree : Tree
tree = initialize_tree lines

abbrev order : List ℕ
order = 3 ∷ 3 ∷ 1 ∷ 1 ∷ 1 ∷ 1 ∷ 2 ∷ 2 ∷ 0 ∷ 0 ∷ 0 ∷ []

lines-Fits : Fits 4 lines
lines-Fits = (
  omega arith,
  omega arith,
  refl,
  (
    omega arith,
    omega arith,
    refl,
    (omega arith, omega arith, refl, (omega arith, omega arith, refl, tt)),
  ),
)

all_listed : (j : ℕ) → j < 4 → listed j lines ≡ true
all_listed j low = ground arith

root_gets : ((run 4 (begin (read_values typed tree.nodes)) order).nodes 0).sum ≡ 25
unfolding run turn node_work add_children initialize_tree read_lines
root_gets = refl

all_done :
    (j : ℕ) → j < 4 → done ((run 4 (begin (read_values typed tree.nodes)) order).place j) ≡ true
unfolding run turn node_work add_children initialize_tree read_lines
all_done j low = ground arith

abbrev nodes : ℕ → TreeNode
nodes = read_values typed tree.nodes

abbrev program : Program
program = record {
  work = begin nodes;
  mutex = record { semaphore = 1; tid = none; status = false };
  at = λ _. waiting;
  reported = λ _. false;
  exited = false;
}

created : create_threads 4 nodes ≡ some program
unfolding create_threads foothread_mutex_init
created = refl

-- The nodes with children lock and unlock around their additions.
abbrev guarded_order : List ℕ
guarded_order =
    3 ∷ 3 ∷ 1 ∷ 1 ∷ 1 ∷ 1 ∷ 1 ∷ 1 ∷ 1 ∷ 1 ∷ 1 ∷ 1 ∷ 1 ∷ 2 ∷ 2 ∷ 0 ∷ 0 ∷ 0 ∷ 0 ∷ 0 ∷ 0 ∷ []

below_four :
    (f : ℕ → Bool)
    → f 0 ≡ true
    → f 1 ≡ true
    → f 2 ≡ true
    → f 3 ≡ true
    → (j : ℕ) → j < 4
    → f j ≡ true
below_four f a b c d zero low = a
below_four f a b c d (suc zero) low = b
below_four f a b c d (suc (suc zero)) low = c
below_four f a b c d (suc (suc (suc zero))) low = d
below_four f a b c d (suc (suc (suc (suc j)))) low = absurd (omega arith)

all_added : (j : ℕ) → j < 4 → done ((Threads.run 4 program guarded_order).work.place j) ≡ true
unfolding Threads.run Threads.turn node_thread statement node_work add_children initialize_tree
    read_lines
all_added =
    below_four (λ j. done ((Threads.run 4 program guarded_order).work.place j)) refl refl refl refl

sum_of_leaves_example :
    ((Threads.run 4 program guarded_order).work.nodes tree.root).sum
    ≡ total 4 (λ j. if (tree.nodes j).children == 0 then typed j else 0)
sum_of_leaves_example =
    sum_of_leaves 4 lines typed lines-Fits all_listed refl program created guarded_order all_added

abbrev later_parent : ℕ → ℕ
later_parent i = if i == 0 then 2 else if i == 1 then 1 else 0

too_many : create_threads 50 nodes ≡ none
unfolding create_threads
too_many = refl
