-- ===== src/TreeSum/Whole.antt =====
-- Assignment_07/computesum.c: the whole program, with the mutex and the thread table.
use os_lab_spr.Base.{
  ℕ, ◌-◌, ◌≤◌, ◌<◌, ◌≡◌, refl, sym, ap, ◌∙◌, true, false, leb, ◌==◌, if◌then◌else◌, arith, inl, inr,
  Bool-cases, total, Option, none, some, List, [],
}
use mathlib.Core.Path.{subst}
use os_lab_spr.FooMutex.{waiting, foothread_mutex_init}
use os_lab_spr.FooTable.{max_threads}
use os_lab_spr.TreeSum
use os_lab_spr.TreeSum.{TreeNode, Work, begin, initialize_tree, read_values}
use os_lab_spr.TreeSum.Invariant.{done, IsTree}
use os_lab_spr.TreeSum.Lines.{listed, roots, Fits}
use os_lab_spr.TreeSum.Reading.{leaves_summed}
use os_lab_spr.TreeSum.Finish.{Ranked, all_ahead, threads_finish}
use os_lab_spr.TreeSum.Threads.{Program, create_threads, run}
use os_lab_spr.TreeSum.Guarded.{run_work}
use os_lab_spr.TreeSum.Schedule.{Quiet, run_turns}

started : ℕ → (ℕ → TreeNode) → Program
started n nodes = record {
  work = begin nodes;
  mutex = foothread_mutex_init;
  at = λ _. waiting;
  reported = λ _. false;
  exited = false;
}

abbrev or_else : Program → Option Program → Program
or_else s none = s
or_else s (some t) = t

-- The program goes on where the threads that it creates fit into the table.
pub create_small :
    (n : ℕ) (nodes : ℕ → TreeNode) → n ≤ 49 → (s : Program) × (create_threads n nodes ≡ some s)
unfolding create_threads started
create_small n nodes h =
    let room : leb n (max_threads - 1) ≡ true = ground arith in (started n nodes, rw room refl)

create_lem :
    (n : ℕ) (nodes : ℕ → TreeNode) (s : Program)
    → create_threads n nodes ≡ some s
    → s ≡ started n nodes
unfolding create_threads started
create_lem n nodes s e = elim (Bool-cases (leb n (max_threads - 1))) [
  | inl room ↦
      let here : create_threads n nodes ≡ some (started n nodes) = rw room refl in
      ap (or_else s) (sym e ∙ here)
  | inr full ↦
      let here : create_threads n nodes ≡ none = rw full refl in
      let never : none ≡ some s = sym here ∙ e in absurd (ground (arith, never))
]

create-Quiet :
    (n : ℕ) (nodes : ℕ → TreeNode) (s : Program)
    → create_threads n nodes ≡ some s
    → Quiet (begin nodes) s
unfolding started foothread_mutex_init
create-Quiet n nodes s e =
    subst (Quiet (begin nodes)) (sym (create_lem n nodes s e))
      (record { work = refl; mutex = refl; outside = λ j. refl; on = refl })

create_work :
    (n : ℕ) (nodes : ℕ → TreeNode) (s : Program)
    → create_threads n nodes ≡ some s
    → s.work ≡ begin nodes
create_work n nodes s e = (create-Quiet n nodes s e).work

-- On a file in which each of the nodes below n is a child in one line, with parents below n and one line
-- that names a root, where main can create the threads, whatever numbers are typed and whatever the order of
-- the threads' turns, once all threads have their sums the sum at the root is that of the numbers at the leaves.
pub sum_of_leaves :
    (n : ℕ) (lines : List (ℕ × ℕ)) (input : ℕ → ℕ)
    → Fits n lines
    → ((j : ℕ) → j < n → listed j lines ≡ true)
    → roots lines ≡ 1
    → (s : Program) → create_threads n (read_values input (initialize_tree lines).nodes) ≡ some s
    → (is : List ℕ) → ((j : ℕ) → j < n → done ((run n s is).work.place j) ≡ true)
    → ((run n s is).work.nodes (initialize_tree lines).root).sum
      ≡ total n (λ j. if ((initialize_tree lines).nodes j).children == 0 then input j else 0)
sum_of_leaves n lines input fits all one s e is ended =
    let (js, on) = run_work n s is in
    let same : (run n s is).work
        ≡ TreeSum.run n (begin (read_values input (initialize_tree lines).nodes)) js =
      on
      ∙ ap (λ w. TreeSum.run n w js)
          (create_work n (read_values input (initialize_tree lines).nodes) s e) in
    ap (λ (w : Work). (w.nodes (initialize_tree lines).root).sum) same
    ∙ leaves_summed n lines input fits all one js
        (λ j low. ap (λ (w : Work). done (w.place j)) (sym same) ∙ ended j low)

pub threads_can_finish :
    (n : ℕ) (t : ℕ → TreeNode) (root : ℕ)
    → IsTree n t root
    → (rank : ℕ → ℕ) → Ranked n t rank
    → (s : Program) → create_threads n t ≡ some s
    → (is : List ℕ) × (all_ahead n (run n s is).work ≡ 0) × ((run n s is).exited ≡ false)
unfolding TreeSum.run
threads_can_finish n t root tree rank ranked s e =
    let (js, ended) = threads_finish n t root tree rank ranked [] in
    let (is, q) = run_turns n js (begin t) s (create-Quiet n t s e) in
    (is, ap (all_ahead n) q.work ∙ ended, q.on)
