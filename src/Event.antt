-- ===== src/Event.antt =====
-- Assignment_06/event.h and event.c: the event queue of the session, a binary heap in an array.
-- A time is an `int`; the buffer is read as a family over the indices of its `cap` entries.
pub mod Order
pub mod Heap
pub mod Up
pub mod Down
pub mod Queue
mod Tests
use os_lab_spr.Base.{
  ℕ, zero, suc, ◌+◌, ◌-◌, ◌*◌, ◌/◌, Bool, true, false, Option, none, some, List, [], ◌∷◌, ◌||◌,
  ◌==◌, leb, ltb, if◌then◌else◌, ℤ, pos, negsuc, ltb_ℤ, store, swap, ◌>>=◌,
}

-- The `type` of an event: the letters R, P, S, D and E, and any other.
pub data Kind : Type 0 where
  reporter patient sales_rep doctor ending other : Kind

pub record Event : Type 0 where
  pub type : Kind
  pub time : ℤ
  pub duration : ℤ

-- `eventQ`, with the number of entries that `Q` has room for.
pub record EventQ : Type 0 where
  pub cap : ℕ
  pub n : ℕ
  pub q : ℕ → Event

abbrev pub is_reporter : Kind → Bool
is_reporter Kind.reporter = true
is_reporter _ = false

abbrev pub is_patient : Kind → Bool
is_patient Kind.patient = true
is_patient _ = false

abbrev pub is_sales_rep : Kind → Bool
is_sales_rep Kind.sales_rep = true
is_sales_rep _ = false

unfoldable pub eventcmp : Event → Event → ℤ
eventcmp e1 e2 =
    if ltb_ℤ e1.time e2.time
    then negsuc 0
    else if ltb_ℤ e2.time e1.time
    then pos 1
    else if is_reporter e1.type
    then negsuc 0
    else if is_reporter e2.type
    then pos 1
    else if is_patient e1.type
    then negsuc 0
    else if is_patient e2.type
    then pos 1
    else if is_sales_rep e1.type
    then negsuc 0
    else if is_sales_rep e2.type
    then pos 1
    else pos 0

-- `eventcmp(a, b) < 0`
abbrev pub before : Event → Event → Bool
before a b = ltb_ℤ (eventcmp a b) (pos 0)

unfoldable pub empty_q : EventQ → Bool
empty_q e = e.n == 0

unfoldable pub nextevent : EventQ → Event
nextevent e =
    if e.n == 0 then record { type = Kind.ending; time = pos 0; duration = pos 0 } else e.q 0

abbrev pub parent : ℕ → ℕ
parent i = (i - 1) / 2

-- The loop of `addevent`, from `i` towards the root. `none`: the fuel ran out.
pub sift_up : ℕ → (ℕ → Event) → ℕ → Option (ℕ → Event)
sift_up zero q i = none
sift_up (suc fuel) q i =
    let rise = sift_up fuel (swap q i (parent i)) (parent i) in
    if i == 0 then some q else if before (q (parent i)) (q i) then some q else rise

-- `m`, the child of `i` that comes first, of the children below `n`
pub first_child : ℕ → (ℕ → Event) → ℕ → ℕ
first_child n q i =
    if 2 * i + 2 == n || before (q (2 * i + 1)) (q (2 * i + 2)) then 2 * i + 1 else 2 * i + 2

-- The inner loop of `initEQ` and of `delevent`, from `i` towards the leaves.
pub sift_down : ℕ → ℕ → (ℕ → Event) → ℕ → Option (ℕ → Event)
sift_down zero n q i = none
sift_down (suc fuel) n q i =
    let m = first_child n q i in
    let sink = sift_down fuel n (swap q i m) m in
    if leb n (2 * i + 1) then some q else if before (q i) (q m) then some q else sink

-- A store past the end of the buffer is `none` as well.
unfoldable pub addevent : EventQ → Event → Option EventQ
addevent e x =
    if leb e.cap e.n
    then none
    else (do q ← sift_up (e.n + 1) (store e.q e.n x) e.n; some (record e { n = e.n + 1; q = q }))

unfoldable pub delevent : EventQ → Option EventQ
delevent e =
    if ltb 0 e.n
    then (do
      q ← sift_down (e.n + 1) (e.n - 1) (store e.q 0 (e.q (e.n - 1))) 0
      some (record e { n = e.n - 1; q = q }))
    else some e

-- The reading loop of `initEQ`, over the lines of the file above the one that starts with E.
pub fill : EventQ → List Event → Option EventQ
fill e [] = some e
fill e (x ∷ xs) =
    let rest = fill (record e { n = e.n + 1; q = store e.q e.n x }) xs in
    if leb e.cap e.n then none else rest

-- `for (j = n / 2 - 1; j >= 0; --j)`, with `j + 1` rounds left.
pub heapify : ℕ → ℕ → (ℕ → Event) → Option (ℕ → Event)
heapify zero n q = some q
heapify (suc j) n q = sift_down (n + 1) n q j >>= heapify j n

-- `malloc(128 * sizeof(event))`; what the fresh memory `m` holds is not known.
abbrev pub capacity : ℕ
capacity = 128

unfoldable pub init_eq : (ℕ → Event) → List Event → Option EventQ
init_eq m events = do
  e ← fill (record { cap = capacity; n = 0; q = m }) events
  q ← heapify (e.n / 2) e.n e.q
  some (record e { q = q })
