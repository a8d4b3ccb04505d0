-- ===== src/TreeSum.antt =====
-- Assignment_07/computesum.c: the sum of the values at the leaves of a tree, by one thread for each node.
-- A barrier is the count of the threads that wait at it, and lets them on when its count is reached, as
-- FooBarrier shows. The reading of the file's lines into pairs of numbers is left out. What is here leaves out
-- the mutex and the thread table; Threads has the threads with both.
pub mod Lines
pub mod Linking
pub mod Reading
pub mod Invariant
pub mod Places
pub mod Moves
pub mod Adding
pub mod Total
pub mod Finish
pub mod Threads
pub mod Guarded
pub mod Schedule
pub mod Whole
mod Tests
use os_lab_spr.Base.{
  ℕ, zero, suc, ◌+◌, Bool, true, false, not, ◌&&◌, Option, none, some, List, [], ◌∷◌, ◌==◌, ltb,
  if◌then◌else◌, store,
}

-- `TreeNode`; `parent` is `none` at -1.
pub record TreeNode : Type 0 where
  pub value : ℕ
  pub sum : ℕ
  pub parent : Option ℕ
  pub children : ℕ

pub record Tree : Type 0 where
  pub nodes : ℕ → TreeNode
  pub root : ℕ

abbrev pub blank_tree : Tree
blank_tree = record {
  nodes = λ _. record { value = 0; sum = 0; parent = none; children = 0 };
  root = 0;
}

-- `tree[i].parent = p` and `tree[i].children += 1`
abbrev pub set_parent : ℕ → Option ℕ → (ℕ → TreeNode) → ℕ → TreeNode
set_parent i p nodes = store nodes i (record (nodes i) { parent = p })

abbrev pub add_child : ℕ → (ℕ → TreeNode) → ℕ → TreeNode
add_child i nodes = store nodes i (record (nodes i) { children = (nodes i).children + 1 })

-- One line of the file: a child and its parent.
abbrev pub read_line : ℕ → ℕ → Tree → Tree
read_line child parent t =
    if child == parent
    then record { nodes = set_parent child none t.nodes; root = child }
    else record t { nodes = add_child parent (set_parent child (some parent) t.nodes) }

unfoldable pub read_lines : List (ℕ × ℕ) → Tree → Tree
read_lines [] t = t
read_lines ((child, parent) ∷ lines) t = read_lines lines (read_line child parent t)

unfoldable pub initialize_tree : List (ℕ × ℕ) → Tree
unfolding read_lines
initialize_tree lines = read_lines lines blank_tree

-- The loop of `main` that asks for the numbers of the leaves.
abbrev pub read_values : (ℕ → ℕ) → (ℕ → TreeNode) → ℕ → TreeNode
read_values input nodes i =
    if (nodes i).children == 0 then record (nodes i) { value = input i } else nodes i

-- Where a thread is: before everything, at its own barrier, before the additions, before its parent's
-- barrier, at that barrier, and after it.
pub data Place : Type 0 where
  fresh gathering adding summed handing finished : Place

-- `waiting i` is how many threads have called `foothread_barrier_wait` on `barriers[i]`.
pub record Work : Type 0 where
  pub nodes : ℕ → TreeNode
  pub waiting : ℕ → ℕ
  pub place : ℕ → Place

abbrev pub begin : (ℕ → TreeNode) → Work
begin nodes = record { nodes = nodes; waiting = λ _. 0; place = λ _. fresh }

abbrev pub has_parent : Option ℕ → ℕ → Bool
has_parent none k = false
has_parent (some p) k = p == k

-- The additions over the first `m` nodes to what is there.
unfoldable pub add_children : ℕ → (ℕ → TreeNode) → ℕ → ℕ → ℕ
add_children zero nodes k acc = acc
add_children (suc m) nodes k acc =
    add_children m nodes k acc + (if has_parent (nodes m).parent k then (nodes m).sum else 0)

abbrev pub set_sum : ℕ → ℕ → (ℕ → TreeNode) → ℕ → TreeNode
set_sum i x nodes = store nodes i (record (nodes i) { sum = x })

abbrev pub goes : ℕ → Place → Work → Work
goes i p w = record w { place = store w.place i p }

abbrev pub arrive : ℕ → Work → Work
arrive i w = record w { waiting = store w.waiting i (w.waiting i + 1) }

-- All the threads that `barriers[i]` is set up for have come.
abbrev pub is_open : ℕ → Work → Bool
is_open i w = w.waiting i == 1 + (w.nodes i).children

abbrev pub hand_on : ℕ → Option ℕ → Work → Work
hand_on i none w = goes i finished w
hand_on i (some p) w = goes i handing (arrive p w)

abbrev pub leave_parent : ℕ → Option ℕ → Work → Work
leave_parent i none w = goes i finished w
leave_parent i (some p) w = if is_open p w then goes i finished w else w

-- `node_thread` without the mutex for node `i` of `n`, up to its next wait.
unfoldable pub node_work : ℕ → ℕ → Place → Work → Work
node_work n i fresh w =
    if ltb 0 (w.nodes i).children
    then goes i gathering (arrive i w)
    else goes i summed (record w { nodes = set_sum i (w.nodes i).value w.nodes })
node_work n i gathering w = if is_open i w then goes i adding w else w
node_work n i adding w =
    goes i summed
      (record w { nodes = set_sum i (add_children n w.nodes i (w.nodes i).value) w.nodes })
node_work n i summed w = hand_on i (w.nodes i).parent w
node_work n i handing w = leave_parent i (w.nodes i).parent w
node_work n i finished w = w

unfoldable pub turn : ℕ → Work → ℕ → Work
turn n w i = if ltb i n then node_work n i (w.place i) w else w

unfoldable pub run : ℕ → Work → List ℕ → Work
run n w [] = w
run n w (i ∷ is) = run n (turn n w i) is
