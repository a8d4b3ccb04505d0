-- ===== src/Event/Queue.antt =====
-- The operations of the event queue (Assignment_06/event.c) as those of a priority queue.
use os_lab_spr.Base.{
  ℕ, zero, suc, ◌+◌, ◌-◌, ◌/◌, ◌≤◌, ◌<◌, ◌≡◌, inl, inr, refl, some, List, [], ◌∷◌, arith, sum_of,
  sum_of-suc, sum_of-none, sum_of-store, sum_of-store_out, sum_of-zero, zero-sum_of, store, leb,
  if◌then◌else◌, Option, Bool-cases, ◌==◌,
}
use mathlib.Core.Path.{subst}
use os_lab_spr.Event.{Event, EventQ, addevent, delevent, nextevent, fill, init_eq, capacity}
use os_lab_spr.Event.Order.{◌≼◌, late, ahead}
use os_lab_spr.Event.Heap.{IsHeap, root_least}
use os_lab_spr.Event.Up.{UpInv, sift_up_restores}
use os_lab_spr.Event.Down.{DownInv, sift_down_restores, heapify_restores}

-- `r` is a queue in order, with `n` entries in a buffer of the same size.
pub record Becomes (e : EventQ) (n : ℕ) (r : Option EventQ) : Type 0 where
  pub queue : EventQ
  pub returned : r ≡ some queue
  pub ordered : IsHeap queue
  pub count : queue.n ≡ n
  pub room : queue.cap ≡ e.cap

add_start : (e : EventQ) (x : Event) → IsHeap e → UpInv (e.n + 1) (store e.q e.n x) e.n
add_start e x h = record {
  inside = omega arith;
  edges = λ c p r t. ground (arith, h c);
  bridged = λ c p r t u s. absurd (omega arith);
}

-- With room in the buffer, `addevent` returns, keeps the heap order, and holds the old events and
-- the new one: every weight of events grows by that of the new one.
pub addevent_adds :
    (e : EventQ) (x : Event)
    → IsHeap e
    → e.n < e.cap
    → (b : Becomes e (e.n + 1) (addevent e x)) × ((w : Event → ℕ)
        → sum_of w b.queue.n b.queue.q ≡ sum_of w e.n e.q + w x)
unfolding addevent
addevent_adds e x h room =
    let s =
      sift_up_restores (e.n + 1) (e.n + 1) (store e.q e.n x) e.n (omega arith) (add_start e x h) in
    (
      record {
        queue = record e { n = e.n + 1; q = s.result };
        returned = ground (arith, s.returned);
        ordered = s.ordered;
        count = refl;
        room = refl;
      },
      λ w. ground (
        arith,
        s.same.sums w,
        sum_of-suc w e.n (store e.q e.n x),
        sum_of-store_out w e.n e.q e.n x,
      ),
    )

take_start : (e : EventQ) → IsHeap e → 0 < e.n → DownInv 0 (e.n - 1) (store e.q 0 (e.q (e.n - 1))) 0
take_start e h pos = record {
  edges = λ c p r t u. ground (arith, h c);
  bridged = λ c p r t u w. absurd (omega arith);
}

take_sum :
    (w : Event → ℕ) (n : ℕ) (q : ℕ → Event)
    → 0 < n
    → sum_of w (n - 1) (store q 0 (q (n - 1))) + w (q 0) ≡ sum_of w n q
take_sum w (suc zero) q p = ground (arith, sum_of-suc w 0 q)
take_sum w (suc (suc m)) q p =
    ground (arith, sum_of-store w (suc m) q 0 (q (suc m)), sum_of-suc w (suc m) q)
take_sum w zero q p = absurd (omega arith)

-- On a queue that is not empty `delevent` returns, keeps the heap order, and removes the event that
-- `nextevent` shows, and no other.
pub delevent_removes :
    (e : EventQ)
    → IsHeap e
    → 0 < e.n
    → (b : Becomes e (e.n - 1) (delevent e)) × ((w : Event → ℕ)
        → sum_of w b.queue.n b.queue.q + w (nextevent e) ≡ sum_of w e.n e.q)
unfolding delevent nextevent
delevent_removes e h pos =
    let s =
      sift_down_restores (e.n + 1) 0 (e.n - 1) (store e.q 0 (e.q (e.n - 1))) 0 (omega arith)
        (take_start e h pos) in
    (
      record {
        queue = record e { n = e.n - 1; q = s.result };
        returned = ground (arith, s.returned);
        ordered = s.ordered;
        count = refl;
        room = refl;
      },
      λ w. ground (arith, s.same.sums w, take_sum w e.n e.q),
    )

-- On the empty queue `delevent` changes nothing.
pub delevent_empty : (e : EventQ) → e.n ≡ 0 → delevent e ≡ some e
unfolding delevent
delevent_empty e h = ground arith

-- `nextevent` shows the first event of all.
pub nextevent_least : (e : EventQ) (i : ℕ) → IsHeap e → i < e.n → nextevent e ≼ e.q i
unfolding nextevent
nextevent_least e i h p = ground (arith, root_least e.n e.q i h)

-- 1 for an event that comes before `x`
misplaced : Event → Event → ℕ
misplaced x y = if leb (late x + ahead y) (late y + ahead x) then 0 else 1

misplaced-zero : (x y : Event) → x ≼ y → misplaced x y ≡ 0
unfolding misplaced
misplaced-zero x y h = ground arith

≼-misplaced : (x y : Event) → misplaced x y ≡ 0 → x ≼ y
unfolding misplaced
≼-misplaced x y h = ground arith

module _ (e g : EventQ) (h : IsHeap e) where
  -- What is left of a queue in order does not come before its first event.
  left_later :
      ((w : Event → ℕ) → sum_of w g.n g.q + w (nextevent e) ≡ sum_of w e.n e.q)
      → 0 < g.n
      → nextevent e ≼ g.q 0
  left_later sums p =
      let x = nextevent e in
      let gone : sum_of (misplaced x) e.n e.q ≡ 0 =
        sum_of-zero (misplaced x) e.n e.q (λ i q. misplaced-zero x _ (nextevent_least e i h q)) in
      ≼-misplaced x _
        (zero-sum_of (misplaced x) g.n g.q 0 (omega (arith, gone, sums (misplaced x))) p)

-- The events come out in order: what `delevent` leaves does not come before what it removed.
pub delevent-nextevent :
    (e f : EventQ) → IsHeap e → delevent e ≡ some f → 0 < f.n → nextevent e ≼ nextevent f
delevent-nextevent e f h d p = elim (Bool-cases (e.n == 0)) [
  | inl none_left ↦ absurd (ground (arith, delevent_empty e))
  | inr more ↦
      let (b, sums) = delevent_removes e h (ground arith) in
      let same : b.queue ≡ f = cc (b.returned, d) in
      subst (λ g. 0 < g.n → nextevent e ≼ nextevent g) same
        (λ q. let root = left_later e b.queue h sums q in unfold nextevent in ground (arith, root))
        p
]

-- The lines in the file, as a sum of weights.
abbrev pub sum_list : (Event → ℕ) → List Event → ℕ
sum_list w [] = 0
sum_list w (x ∷ xs) = w x + sum_list w xs

abbrev pub length : List Event → ℕ
length [] = 0
length (x ∷ xs) = suc (length xs)

record Filled (e : EventQ) (xs : List Event) (r : Option EventQ) : Type 0 where
  queue : EventQ
  returned : r ≡ some queue
  count : queue.n ≡ e.n + length xs
  room : queue.cap ≡ e.cap
  sums : (w : Event → ℕ) → sum_of w queue.n queue.q ≡ sum_of w e.n e.q + sum_list w xs

fill_reads : (e : EventQ) (xs : List Event) → e.n + length xs ≤ e.cap → Filled e xs (fill e xs)
unfolding fill
fill_reads e [] h = record {
  queue = e;
  returned = refl;
  count = omega arith;
  room = refl;
  sums = λ w. omega arith;
}
fill_reads e (x ∷ xs) h =
    let f = fill_reads (record e { n = e.n + 1; q = store e.q e.n x }) xs (omega arith) in
    record {
      queue = f.queue;
      returned = ground (arith, f.returned);
      count = omega (arith, f.count);
      room = f.room;
      sums = λ w.
          ground
            (arith, f.sums w, sum_of-suc w e.n (store e.q e.n x), sum_of-store_out w e.n e.q e.n x);
    }

-- A file of at most 128 events is read whole, whatever the fresh memory holds: `initEQ` returns the
-- events of the file, as often as they stand there and no others, in heap order.
pub init_eq_reads :
    (m : ℕ → Event) (xs : List Event)
    → length xs ≤ capacity
    → (b : Becomes (record { cap = capacity; n = 0; q = m }) (length xs) (init_eq m xs))
      × ((w : Event → ℕ) → sum_of w b.queue.n b.queue.q ≡ sum_list w xs)
unfolding init_eq
init_eq_reads m xs h =
    let f = fill_reads (record { cap = capacity; n = 0; q = m }) xs (omega arith) in
    let s =
      heapify_restores (f.queue.n / 2) f.queue.n f.queue.q (λ c p r t. absurd (omega arith)) in
    (
      record {
        queue = record f.queue { q = s.result };
        returned = rw (f.returned, s.returned);
        ordered = s.ordered;
        count = omega (arith, f.count);
        room = f.room;
      },
      λ w. ground (arith, f.sums w, s.same.sums w, sum_of-none w m),
    )
