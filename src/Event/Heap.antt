-- ===== src/Event/Heap.antt =====
-- The heap order of the queue's array (Assignment_06/event.c), and what a sift keeps.
use os_lab_spr.Base.{
  ℕ, zero, suc, ◌≤◌, ◌<◌, ◌≡◌, refl, Option, some, arith, sum_of, sum_of-swap, swap,
}
use os_lab_spr.Event.{Event, EventQ, parent}
use os_lab_spr.Event.Order.{◌≼◌}

-- Every edge whose parent is at `lo` or later is in order.
abbrev pub IsHeapFrom : ℕ → ℕ → (ℕ → Event) → Type 0
IsHeapFrom lo n q = (c : ℕ) → 0 < c → c < n → lo ≤ parent c → q (parent c) ≼ q c

abbrev pub IsHeap : EventQ → Type 0
IsHeap e = IsHeapFrom 0 e.n e.q

-- The edges past `i`, from its parent to its children, are in order.
abbrev pub IsBridged : ℕ → ℕ → (ℕ → Event) → ℕ → Type 0
IsBridged lo n q i =
    (c : ℕ) → 0 < c → c < n → parent c ≡ i → 0 < i → lo ≤ parent i → q (parent i) ≼ q c

-- The first `n` entries of `r` are those of `q` in some order: every weight has the same sum.
-- The entries from `n` on are untouched.
pub record SameEntries (n : ℕ) (q r : ℕ → Event) : Type 0 where
  pub sums : (w : Event → ℕ) → sum_of w n r ≡ sum_of w n q
  pub outside : (c : ℕ) → n ≤ c → r c ≡ q c

pub SameEntries-self : (n : ℕ) (q : ℕ → Event) → SameEntries n q q
SameEntries-self n q = record { sums = λ w. refl; outside = λ c h. refl }

pub SameEntries-swap :
    {n : ℕ} {q r : ℕ → Event} (i j : ℕ)
    → i < n
    → j < n
    → SameEntries n (swap q i j) r
    → SameEntries n q r
SameEntries-swap {n} {q} i j hi hj s = record {
  sums = λ w. omega (arith, s.sums w, sum_of-swap w n q i j hi hj);
  outside = λ c h. ground (arith, s.outside c h);
}

-- The loop has stopped on an array that is in order from `lo`.
pub record Sifted (lo n : ℕ) (q : ℕ → Event) (r : Option (ℕ → Event)) : Type 0 where
  pub result : ℕ → Event
  pub returned : r ≡ some result
  pub ordered : IsHeapFrom lo n result
  pub same : SameEntries n q result

pub Sifted-swap :
    {lo n : ℕ} {q : ℕ → Event} {r : Option (ℕ → Event)} (i j : ℕ)
    → i < n
    → j < n
    → Sifted lo n (swap q i j) r
    → Sifted lo n q r
Sifted-swap i j hi hj s = record {
  result = s.result;
  returned = s.returned;
  ordered = s.ordered;
  same = SameEntries-swap i j hi hj s.same;
}

pub Sifted-start : {lo n : ℕ} {q : ℕ → Event} → IsHeapFrom lo n q → Sifted lo n q (some q)
Sifted-start {n = n} {q = q} h = record {
  result = q;
  returned = refl;
  ordered = h;
  same = SameEntries-self n q;
}

least_below : (k n : ℕ) (q : ℕ → Event) (i : ℕ) → IsHeapFrom 0 n q → i < k → i < n → q 0 ≼ q i
least_below zero n q i h f p = absurd (omega arith)
least_below (suc k) n q i h f p = ground (arith, h i, least_below k n q (parent i) h)

-- The root of a heap comes before every entry.
pub root_least : (n : ℕ) (q : ℕ → Event) (i : ℕ) → IsHeapFrom 0 n q → i < n → q 0 ≼ q i
root_least n q i h p = least_below (suc i) n q i h (omega arith) p
