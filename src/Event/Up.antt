-- ===== src/Event/Up.antt =====
-- The upward sift of `addevent` (Assignment_06/event.c).
use os_lab_spr.Base.{ℕ, zero, suc, ◌<◌, ◌≢◌, inl, inr, arith, swap, ◌==◌, Bool-cases}
use os_lab_spr.Event.{Event, before, parent, sift_up}
use os_lab_spr.Event.Order.{◌≼◌, before-≼, not_before-≼}
use os_lab_spr.Event.Heap.{IsBridged, Sifted, Sifted-swap, Sifted-start}

-- Only the edge above `i` may be out of order.
pub record UpInv (n : ℕ) (q : ℕ → Event) (i : ℕ) : Type 0 where
  pub inside : i < n
  pub edges : (c : ℕ) → 0 < c → c < n → c ≢ i → q (parent c) ≼ q c
  pub bridged : IsBridged 0 n q i

swap-UpInv :
    (n : ℕ) (q : ℕ → Event) (i : ℕ)
    → UpInv n q i
    → 0 < i
    → q i ≼ q (parent i)
    → UpInv n (swap q i (parent i)) (parent i)
swap-UpInv n q i v pos above = record {
  inside = omega (arith, v.inside);
  edges = λ c p r t. ground (arith, v.edges c, v.bridged c, v.edges (parent c));
  bridged = λ c p r t u s. ground (arith, v.edges c, v.edges (parent i), v.bridged c);
}

pub sift_up_restores :
    (fuel n : ℕ) (q : ℕ → Event) (i : ℕ) → i < fuel → UpInv n q i → Sifted 0 n q (sift_up fuel q i)
unfolding sift_up
sift_up_restores zero n q i f v = absurd (omega arith)
sift_up_restores (suc fuel) n q i f v = elim (Bool-cases (i == 0)) [
  | inl root ↦ rw root (Sifted-start (λ c p r t. v.edges c p r (ground arith)))
  | inr inner ↦ elim (Bool-cases (before (q (parent i)) (q i))) [
    | inl settled ↦
        rw (inner, settled)
          (Sifted-start (λ c p r t. ground (arith, v.edges c, before-≼ (q (parent i)) (q i))))
    | inr rises ↦
        rw (inner, rises)
          (Sifted-swap i (parent i) v.inside (ground (arith, v.inside)) (
            sift_up_restores fuel n (swap q i (parent i)) (parent i) (ground arith)
              (swap-UpInv n q i v (ground arith) (not_before-≼ _ _ rises))))
  ]
]
