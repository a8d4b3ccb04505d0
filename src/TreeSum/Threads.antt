-- ===== src/TreeSum/Threads.antt =====
-- Assignment_07/computesum.c: the threads with the mutex of foothread.c, whose statements they take one by
-- one, and with the thread table, which has an entry for the main thread and one for each other.
use os_lab_spr.Base.{
  ℕ, ◌-◌, Bool, true, false, not, ◌&&◌, ◌||◌, Option, none, some, List, [], ◌∷◌, leb, ltb,
  if◌then◌else◌, store,
}
use os_lab_spr.FooMutex.{
  Mutex, At, waiting, inside, Outcome, blocked, moves, exits, statement, foothread_mutex_init,
}
use os_lab_spr.FooTable.{max_threads}
use os_lab_spr.TreeSum.{TreeNode, Place, adding, finished, Work, begin, node_work}

-- `at i` is the statement of `foothread_mutex_lock` or `foothread_mutex_unlock` that thread `i` is before;
-- `reported i` says that it has printed its partial sum.
pub record Program : Type 0 where
  pub work : Work
  pub mutex : Mutex
  pub at : ℕ → At
  pub reported : ℕ → Bool
  pub exited : Bool

-- The calls of `foothread_create` in `main`. `none`: the table is full, and the program ends.
unfoldable pub create_threads : ℕ → (ℕ → TreeNode) → Option Program
create_threads n nodes =
    if leb n (max_threads - 1)
    then some record {
      work = begin nodes;
      mutex = foothread_mutex_init;
      at = λ _. waiting;
      reported = λ _. false;
      exited = false;
    }
    else none

abbrev pub is_adding : Place → Bool
is_adding adding = true
is_adding _ = false

abbrev pub is_finished : Place → Bool
is_finished finished = true
is_finished _ = false

abbrev pub is_waiting : At → Bool
is_waiting waiting = true
is_waiting _ = false

abbrev pub is_inside : At → Bool
is_inside inside = true
is_inside _ = false

-- The thread is to add up, or to print its partial sum: what it does with the mutex.
abbrev pub needs_mutex : ℕ → Program → Bool
needs_mutex i s =
    is_adding (s.work.place i)
    || (is_finished (s.work.place i) && ltb 0 (s.work.nodes i).children && not (s.reported i))

-- What it does there.
abbrev pub within_mutex : ℕ → ℕ → Program → Program
within_mutex n i s =
    if is_adding (s.work.place i)
    then record s { work = node_work n i (s.work.place i) s.work }
    else record s { reported = store s.reported i true }

abbrev pub follow : ℕ → Program → Outcome → Program
follow i s blocked = s
follow i s (moves m p) = record s { mutex = m; at = store s.at i p }
follow i s exits = record s { exited = true }

-- `node_thread` for node `i` of `n`, up to its next wait or statement of the mutex.
unfoldable pub node_thread : ℕ → ℕ → Program → Program
node_thread n i s =
    if needs_mutex i s && is_inside (s.at i)
    then within_mutex n i s
    else if needs_mutex i s || not (is_waiting (s.at i))
    then follow i s (statement i s.mutex (s.at i))
    else record s { work = node_work n i (s.work.place i) s.work }

unfoldable pub turn : ℕ → Program → ℕ → Program
turn n s i = if s.exited || not (ltb i n) then s else node_thread n i s

unfoldable pub run : ℕ → Program → List ℕ → Program
run n s [] = s
run n s (i ∷ is) = run n (turn n s i) is
