-- ===== src/ProdCons.antt =====
-- Assignment_04/prodcons.c: a producer and n consumers that hand items over in two cells of shared memory,
-- as processes that take turns between any two accesses to it.
pub mod Protocol
pub mod Counts
pub mod Serving
pub mod Measure
pub mod Ending
mod Tests
use os_lab_spr.Base.{
  ℕ, zero, suc, ◌+◌, Bool, true, false, not, ◌&&◌, List, [], ◌∷◌, ◌==◌, ltb, leb, if◌then◌else◌,
  store, bit,
}

-- What `M[0]` holds: 0, the number of a consumer, or -1.
pub data Cell : Type 0 where
  empty : Cell
  item_for : ℕ → Cell
  over : Cell

-- The producer is before its test of `M[0]`, with the consumers and items that it is still to draw; or it
-- has named a consumer in `M[0]`; or it has written -1 and waits for the consumers to end.
pub data Producer : Type 0 where
  offering : List (ℕ × ℕ) → Producer
  filling : ℕ → ℕ → List (ℕ × ℕ) → Producer
  ended : Producer

-- A consumer is before its tests of `M[0]`, before it reads `M[1]`, before it clears `M[0]`, or at its end.
-- `M[1]` holds an item or the 0 of new memory, so that the test of it for -1 fails.
pub data Consumer : Type 0 where
  watching adding clearing exited : Consumer

pub record Shop : Type 0 where
  pub m0 : Cell
  pub m1 : ℕ
  pub producer : Producer
  pub num_items : ℕ → ℕ
  pub sum_items : ℕ → ℕ
  pub consumer : ℕ → Consumer
  pub count : ℕ → ℕ
  pub sum : ℕ → ℕ

abbrev pub open_shop : List (ℕ × ℕ) → Shop
open_shop draws = record {
  m0 = empty;
  m1 = 0;
  producer = offering draws;
  num_items = λ _. 0;
  sum_items = λ _. 0;
  consumer = λ _. watching;
  count = λ _. 0;
  sum = λ _. 0;
}

-- Line 98 for the next item, or lines 116 and 117.
abbrev pub offer : List (ℕ × ℕ) → Cell → Shop → Shop
offer [] empty s = record s { m0 = over; producer = ended }
offer ((c, item) ∷ rest) empty s = record s { m0 = item_for c; producer = filling c item rest }
offer draws (item_for c) s = s
offer draws over s = s

abbrev pub produce : Producer → Shop → Shop
produce (offering draws) s = offer draws s.m0 s
produce (filling c item rest) s = record s {
  m1 = item;
  num_items = store s.num_items c (s.num_items c + 1);
  sum_items = store s.sum_items c (s.sum_items c + item);
  producer = offering rest;
}
produce ended s = s

abbrev pub look : ℕ → Cell → Shop → Shop
look i empty s = s
look i (item_for c) s = if c == i then record s { consumer = store s.consumer i adding } else s
look i over s = record s { consumer = store s.consumer i exited }

abbrev pub consume : ℕ → Consumer → Shop → Shop
consume i watching s = look i s.m0 s
consume i adding s = record s {
  sum = store s.sum i (s.sum i + s.m1);
  consumer = store s.consumer i clearing;
}
consume i clearing s = record s {
  count = store s.count i (s.count i + 1);
  m0 = empty;
  consumer = store s.consumer i watching;
}
consume i exited s = s

-- The turn of the producer, 0, or of one of the consumers 1 to `n`.
unfoldable pub turn : ℕ → Shop → ℕ → Shop
turn n s zero = produce s.producer s
turn n s (suc i) = if ltb i n then consume (suc i) (s.consumer (suc i)) s else s

unfoldable pub run : ℕ → Shop → List ℕ → Shop
run n s [] = s
run n s (i ∷ is) = run n (turn n s i) is
