-- ===== src/Event/Tests.antt =====
-- Events of Assignment_06/ARRIVAL.txt in the queue.
use mathlib.Core.Option
use os_lab_spr.Base.{
  ℕ, ◌+◌, ◌≤◌, ◌<◌, ◌≡◌, ◌↔◌, ◌⊎◌, refl, some, List, [], ◌∷◌, arith, pos, negsuc, sum_of, store,
  ◌<ℤ◌,
}
use os_lab_spr.Event.{
  Kind, Event, EventQ, eventcmp, nextevent, addevent, delevent, init_eq, capacity, sift_down, fill,
  heapify, first_child,
}
use os_lab_spr.Event.Order.{rank, eventcmp_sign, ◌≼◌, late, ahead}
use os_lab_spr.Event.Heap.{IsHeap}
use os_lab_spr.Event.Queue.{
  Becomes, addevent_adds, delevent_removes, nextevent_least, delevent-nextevent, init_eq_reads,
  sum_list,
}

abbrev early : Event
early = record { type = Kind.patient; time = negsuc 14; duration = pos 9 }

abbrev late_rep : Event
late_rep = record { type = Kind.sales_rep; time = pos 20; duration = pos 5 }

abbrev reporter : Event
reporter = record { type = Kind.reporter; time = pos 20; duration = pos 1 }

abbrev lines : List Event
lines = late_rep ∷ reporter ∷ early ∷ []

abbrev fresh : ℕ → Event
fresh i = late_rep

-- Two events, the earlier one at the root.
abbrev pair : EventQ
pair = record { cap = 128; n = 2; q = store fresh 0 reporter }

pair-IsHeap : IsHeap pair
unfolding late ahead
pair-IsHeap c p q r = ground arith

read_first : Option.map nextevent (init_eq fresh lines) ≡ some early
unfolding init_eq fill heapify sift_down first_child eventcmp nextevent
read_first = refl

reporter_before_late_rep :
    let a = reporter in
    let b = late_rep in
    ((eventcmp a b ≡ negsuc 0) ↔ (
      (a.time <ℤ b.time) ⊎ ((a.time ≡ b.time) × (rank a.type ≤ rank b.type) × (rank a.type < 3))))
    × ((eventcmp a b ≡ pos 1)
        ↔ ((b.time <ℤ a.time) ⊎ ((a.time ≡ b.time) × (rank b.type < rank a.type))))
    × ((eventcmp a b ≡ pos 0) ↔ ((a.time ≡ b.time) × (rank a.type ≡ 3) × (rank b.type ≡ 3)))
reporter_before_late_rep = eventcmp_sign reporter late_rep

addevent_adds_example :
    (b : Becomes pair 3 (addevent pair early)) × ((w : Event → ℕ)
      → sum_of w b.queue.n b.queue.q ≡ sum_of w 2 pair.q + w early)
addevent_adds_example = addevent_adds pair early pair-IsHeap (omega arith)

delevent_removes_example :
    (b : Becomes pair 1 (delevent pair)) × ((w : Event → ℕ)
      → sum_of w b.queue.n b.queue.q + w (nextevent pair) ≡ sum_of w 2 pair.q)
delevent_removes_example = delevent_removes pair pair-IsHeap (omega arith)

first_comes_first : nextevent pair ≼ late_rep
first_comes_first = nextevent_least pair 1 pair-IsHeap (omega arith)

abbrev rest : EventQ
rest = record { cap = 128; n = 1; q = store (store fresh 0 reporter) 0 late_rep }

one_left : delevent pair ≡ some rest
unfolding delevent sift_down
one_left = refl

delevent-nextevent_example : nextevent pair ≼ nextevent rest
delevent-nextevent_example = delevent-nextevent pair rest pair-IsHeap one_left (omega arith)

init_eq_reads_example :
    (b : Becomes (record { cap = capacity; n = 0; q = fresh }) 3 (init_eq fresh lines))
    × ((w : Event → ℕ) → sum_of w b.queue.n b.queue.q ≡ sum_list w lines)
init_eq_reads_example = init_eq_reads fresh lines (omega arith)
