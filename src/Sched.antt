-- ===== src/Sched.antt =====
-- Assignment_08/sched.c: the scheduler of the demand-paging system, which starts the processes of its
-- ready queue in turn and hears from the memory manager what became of each.
pub mod Rounds
pub mod Early
use os_lab_spr.Base.{
  ℕ, zero, suc, ◌+◌, ◌==◌, Bool, true, false, Option, none, some, List, [], ◌∷◌, ◌++◌,
  if◌then◌else◌,
}
use os_lab_spr.Mmu.{Notice, process_term, page_fault_handled}

-- `ready` are the `FROM` messages of the ready queue, oldest first, and `sent` the messages `TO + id`.
-- `gone` are the processes that it printed as terminated, last one first.
pub record Sched : Type 0 where
  pub ready : List ℕ
  pub sent : List ℕ
  pub gone : List ℕ
  pub term_count : ℕ

start_first : Sched → List ℕ → Option (ℕ × Sched)
start_first s [] = none
start_first s (id ∷ ready) = some (id, record s { ready = ready; sent = s.sent ++ id ∷ [] })

-- `read_msg` on the ready queue and `send_msg` to the process; `none` if the queue is empty.
unfoldable pub start_next : Sched → Option (ℕ × Sched)
unfolding start_first
start_next s = start_first s s.ready

-- The process that was started, and what the memory manager said: requeued, or counted.
unfoldable pub hear : Sched → ℕ → Notice → Sched
hear s id page_fault_handled = record s { ready = s.ready ++ id ∷ [] }
hear s id process_term = record s { gone = id ∷ s.gone; term_count = s.term_count + 1 }

-- The `break` of the loop, which only a process that ended can reach.
unfoldable pub done : ℕ → Sched → Notice → Bool
done k s process_term = s.term_count == k
done k s page_fault_handled = false

-- Where the loop of `main` is: behind its `break`, or in a `msgrcv` that has no message.
pub data Rest : Type 0 where
  stopped : Sched → Rest
  waits_for_ready : Sched → List Notice → Rest
  waits_for_mmu : Sched → ℕ → Rest

-- The loop, on the notices that the memory manager sends.
unfoldable pub loop : ℕ → Sched → List Notice → Rest
unfolding start_next hear done
loop k s [] = elim (start_next s) [
  | none ↦ waits_for_ready s []
  | some (id, t) ↦ waits_for_mmu t id
]
loop k s (x ∷ notices) = elim (start_next s) [
  | none ↦ waits_for_ready s (x ∷ notices)
  | some (id, t) ↦
      let u : Sched = hear t id x in
      let rest : Rest = loop k u notices in if done k u x then stopped u else rest
]
