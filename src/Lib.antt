-- ===== src/Lib.antt =====
-- Models and theorems for the programs of the OS lab repository: the parts of each assignment that
-- keep state and make decisions, as functions by clauses with theorems about them.
--
-- Assignment_06/event.c is in Event. The queue is a buffer read by index, a count and a capacity;
-- `sift_up` and `sift_down` are the loops of `addevent` and of `initEQ` and `delevent`. Event/Order has
-- the order of `eventcmp`, Event/Heap, Up and Down the loops, Event/Queue the operations. A time is an
-- integer, since the code only compares times. The fuel of a sift is the number of entries plus one,
-- and the theorems show that it is enough. A store past the buffer is `none`.
--
-- Assignment_05/LA5 (boss.c, worker.c) is in TopSort. A worker is a state machine over the statements
-- of its `main`, the boss one over its loop of `P(sem_ntfy)`; a run is a list of turns, each of which
-- lets one process make one step, and a process that is blocked on a semaphore stays where it is. So
-- the theorems hold for every interleaving. TopSort/Workers has the invariant of the workers,
-- TopSort/Runs that of the whole system, Outcome, Progress and Completion what follows. The setup is
-- taken to be done before the first turn, as the script `dowork` and the boss's output ask for. The
-- check of the boss is `is_topological_sort_valid`; it is `none` for more than MAX_NODES vertices.
--
-- Assignment_02/mgr.c is in Mgr. The process table is read by index; `sent` records every `kill`. What
-- `fork` returns, the choice that the user types and the keys that are struck while a job runs are
-- arguments; `await` is `waitpid` with those keys. `sub_mgr.c` has the same functions and installs the
-- handlers later. Printing is left out.
--
-- Assignment_08 is in Mmu (mmu.c), Proc (proc.c), Master (master.c) and Sched (sched.c), with runs of
-- the four in PagingTests. Mmu has the page table, the free list, the process blocks and the messages
-- sent as one record; `serve_request` is the function of that name on the message it read. Mmu/Frames
-- and Mmu/Serve follow the frames, Mmu/Evict the page faults with no free frame. `scan` has fuel, and
-- more than every process's number of pages is enough. Proc is the loop of a process against the
-- memory manager, one process at a time; its fuel is two requests for each page and one turn for the
-- end. `to_char` is the byte that a page number becomes on its way. Master/Setup is about what
-- master.c writes before the others start; the numbers that `rand` draws are an argument, the float
-- quotient is taken as exact, and the product `m*(f-k)` and the size of `ref_str` wrap to an int. Sched is the loop of the scheduler on the notices it gets, and
-- Sched/Early what becomes of an invalid reference there. Reference is the string of pages that master.c
-- prints and proc.c reads, as character codes. Counters do not wrap.
--
-- Assignment_06/session.c is in Session: the assistant, who takes arrivals from the event queue into one
-- of three lines and, on an event of the doctor, lets in the next visitor. Session/Lines has what
-- stays true of the lines, Day, Rounds, Calling and Closing the rounds over the queue, Visits the whole session,
-- Time the clock that is printed. There a visitor who is let in is taken to finish the visit, and the sums of times are taken to fit an int.
-- Session/Chamber has the threads of the assistant, the doctor and the visitors with their flags; a run is
-- a list of turns. Stages, Places and Visit have the state of a visit, Called and Served its turns, Hangs
-- is about the end of the session and Lost about the signals. A signal wakes one sleeper, who is chosen by
-- the turn. The fuel of Session is the number of rounds; three for each visitor and five more are enough.
--
-- Assignment_07/foothread.c is in FooMutex as far as its mutex goes: each thread is before one statement
-- of lock or unlock, and a run is a list of turns of one statement each, so that the theorems hold for
-- every interleaving of statements. FooTable has the thread table: `Step` is what one thread does
-- between two waits, `Reached` the states that turns lead to. FooTable/Invariant says what stays true,
-- Creating, Leaving and Passing are the three calls, Join and Orphans what follows. A semaphore is a name
-- with a value, and each part under `mutex_semaphore` is one step. The operation buffer `pop` is shared: the
-- assignment to it, the call of `semop`, which copies it, and the end of the P are steps of their own, and
-- any other call sets it back. `OwnCall` says that a call copies what its thread has set; without it
-- FooTable/Tests has a run in which a thread joins too early. FooBarrier has the barrier, with threads that take turns between statements and
-- each wait once; Gate says what stays true of them, Steps shows it of each turn, and Passage is about who
-- gets through and when.
--
-- Assignment_07/computesum.c is in TreeSum: the tree is a family of nodes, a thread is at one of the places
-- where it waits, and a barrier is the number of threads that wait at it, which FooBarrier justifies.
-- Lines and Linking are about the tree the lines of the file make. Invariant says what stays true of the
-- threads, Places, Moves and Adding are the steps, Total and Reading are about the sum at the root, Finish
-- about the end of the threads, all without the mutex. Threads has the threads with the statements of the
-- mutex from FooMutex, whose unlock can exit, and with the limit of the thread table; Guarded and Schedule
-- relate the two, and Whole is about the program.
--
-- The two generators of input are in GenGraph (Assignment_05/LA5/gengraph.c) and GenTree
-- (Assignment_07/gentree.c), with what rand returns as an argument, and the shuffle of PERM that both have
-- in Shuffle. GenGraph/Edges says which entries of the matrix are 1, File that boss.c reads the matrix
-- that is printed, Sorts what the boss and the workers make of it. GenTree/Growing is the loop, whose fuel
-- is the number of nodes, Written the lines of the file, Summed what the threads of computesum.c make of it.
--
-- Assignment_04/prodcons.c is in ProdCons: the two cells of shared memory, the producer and each consumer
-- at a place in its loop, and turns of one access each; `M[1]` never holds -1. ProdCons/Protocol has what
-- stays true, Counts what is counted in the end, Serving and Measure what the end depends on, Ending that it
-- is reached.
--
-- Assignment_03/cse.c is in Cse: each window has a mode, the buffer of its stdin and the lines that its user
-- types, and two pipes of characters join them; a turn is one fgets of one window with what it does with the
-- line. The terminal gives a line at a time, the pipe all that it holds. Cse/Lines is about whole lines,
-- Session says what the users agree on, Phases what stays true, Sends and Turns are the turns of the window
-- that gives commands, Takes, Ending and Changes those of the other, Agrees and Completes are about runs,
-- Long about a line that does not fit.
--
-- Assignment_09/code.c is in Sync: a file tree is a data type, a directory's entries in a mutual block
-- with it, and each function takes what the source and the destination have at a path and returns what
-- the destination has after it, with the reports. A name is a number. Sync/View has the two trees path
-- by path and what is to become of them, Copy the loop of `copy_file`, Loops the two loops of
-- `sync_directories`, Refines, Again and Ends the whole run. The fuel of `sync_items` is for the depth
-- of the source, and the number of its items is enough; that of `copy_file` is the number of blocks.
-- The calls of the system on items that are there are taken to succeed.
--
-- Not modelled: the exercises that only call the system (fork, exec, pipes, clone), the generator of
-- arrivals, and what the programs print. The process tree
-- (Assignment_01) has no model here.
pub mod Base
pub mod Cse
pub mod Event
pub mod FooBarrier
pub mod FooMutex
pub mod FooTable
pub mod GenGraph
pub mod GenTree
pub mod Master
pub mod Mgr
pub mod Mmu
pub mod PagingTests
pub mod Proc
pub mod ProdCons
pub mod Reference
pub mod Sched
pub mod Session
pub mod Shuffle
pub mod Sync
pub mod TopSort
pub mod TreeSum
