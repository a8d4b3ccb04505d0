-- ===== src/Event/Down.antt =====
-- The downward sift of `initEQ` and `delevent` (Assignment_06/event.c), and the rounds of `initEQ`.
use os_lab_spr.Base.{
  ℕ, zero, suc, ◌+◌, ◌-◌, ◌*◌, ◌≤◌, ◌<◌, ◌≡◌, ◌≢◌, ◌⊎◌, inl, inr, arith, swap, ◌==◌, leb,
  Bool-cases, ◌∙◌,
}
use os_lab_spr.Event.{Event, before, parent, first_child, sift_down, heapify}
use os_lab_spr.Event.Order.{◌≼◌, before-≼, not_before-≼}
use os_lab_spr.Event.Heap.{IsHeapFrom, IsBridged, Sifted, Sifted-swap, Sifted-start}

-- Only the edges below `i` may be out of order.
pub record DownInv (lo n : ℕ) (q : ℕ → Event) (i : ℕ) : Type 0 where
  pub edges : (c : ℕ) → 0 < c → c < n → lo ≤ parent c → parent c ≢ i → q (parent c) ≼ q c
  pub bridged : IsBridged lo n q i

-- `m` is the child of `i` that comes first.
record IsFirstChild (n : ℕ) (q : ℕ → Event) (i m : ℕ) : Type 0 where
  inside : m < n
  child : (m ≡ 2 * i + 1) ⊎ (m ≡ 2 * i + 2)
  least : (c : ℕ) → 0 < c → c < n → parent c ≡ i → q m ≼ q c

child_cases : (c i : ℕ) → 0 < c → parent c ≡ i → (c ≡ 2 * i + 1) ⊎ (c ≡ 2 * i + 2)
child_cases c i p e = elim (Bool-cases (c == 2 * i + 1)) [
  | inl left ↦ inl (ground arith)
  | inr right ↦ inr (ground arith)
]

first_child-IsFirstChild :
    (n : ℕ) (q : ℕ → Event) (i : ℕ) → 2 * i + 1 < n → IsFirstChild n q i (first_child n q i)
unfolding first_child
first_child-IsFirstChild n q i h = record {
  inside = ground arith;
  child = ground arith;
  least = λ c p r e. ground (
    arith,
    child_cases c i p e,
    before-≼ (q (2 * i + 1)) (q (2 * i + 2)),
    not_before-≼ (q (2 * i + 1)) (q (2 * i + 2)),
  );
}

swap-DownInv :
    (lo n : ℕ) (q : ℕ → Event) (i m : ℕ)
    → DownInv lo n q i
    → IsFirstChild n q i m
    → q m ≼ q i
    → DownInv lo n (swap q i m) m
swap-DownInv lo n q i m v s below = record {
  edges = λ c p r t u. ground (arith, v.edges c, v.bridged m, s.least c, s.child);
  bridged = λ c p r t u w. ground (arith, v.edges c, s.child);
}

pub sift_down_restores :
    (fuel lo n : ℕ) (q : ℕ → Event) (i : ℕ)
    → n - i < fuel
    → DownInv lo n q i
    → Sifted lo n q (sift_down fuel n q i)
unfolding sift_down
sift_down_restores zero lo n q i f v = absurd (omega arith)
sift_down_restores (suc fuel) lo n q i f v = elim (Bool-cases (leb n (2 * i + 1))) [
  | inl leaf ↦ rw leaf (Sifted-start (λ c p r t. v.edges c p r t (ground arith)))
  | inr inner ↦
      let s = first_child-IsFirstChild n q i (ground arith) in
      elim (Bool-cases (before (q i) (q (first_child n q i)))) [
        | inl settled ↦
            rw (inner, settled)
              (Sifted-start (λ c p r t.
                ground (arith, v.edges c, s.least c, before-≼ (q i) (q (first_child n q i)))))
        | inr sinks ↦
            rw (inner, sinks)
              (Sifted-swap i (first_child n q i) (omega (arith, s.inside, s.child)) s.inside (
                sift_down_restores fuel lo n (swap q i (first_child n q i)) (first_child n q i)
                  (omega (arith, s.inside, s.child))
                  (swap-DownInv lo n q i _ v s (not_before-≼ _ _ sinks))))
      ]
]

-- Each round of `initEQ` puts one more parent in order.
pub heapify_restores : (j n : ℕ) (q : ℕ → Event) → IsHeapFrom j n q → Sifted 0 n q (heapify j n q)
unfolding heapify
heapify_restores zero n q h = Sifted-start h
heapify_restores (suc j) n q h =
    let s = sift_down_restores (n + 1) j n q j (omega arith) (record {
      edges = λ c p r t u. h c p r (omega arith);
      bridged = λ c p r t u w. absurd (omega arith);
    }) in
    let t = heapify_restores j n s.result s.ordered in
    record {
      result = t.result;
      returned = rw s.returned t.returned;
      ordered = t.ordered;
      same = record {
        sums = λ w. t.same.sums w ∙ s.same.sums w;
        outside = λ c k. t.same.outside c k ∙ s.same.outside c k;
      };
    }
