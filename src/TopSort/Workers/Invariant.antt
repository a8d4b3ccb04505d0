-- ===== src/TopSort/Workers/Invariant.antt =====
-- What holds between the semaphores, the list and the workers of Assignment_05/LA5/worker.c.
use os_lab_spr.Base.{
  ℕ, ◌+◌, ◌≤◌, ◌<◌, ◌≡◌, ◌≢◌, sym, refl, arith, bit, store, total, total-at, total-add_one,
  ℕ_discrete,
}
use os_lab_spr.TopSort.{Shared, Pc, waiting, signalling, linked}
use os_lab_spr.TopSort.Workers.Moves.{
  Move, skip, take, lock, count, pass, post, notify, waited, sent, critical, counted,
}

abbrev pub IsWithin : ℕ → Pc → Type 0
IsWithin n (waiting i) = i ≤ n
IsWithin n (signalling i) = i ≤ n
IsWithin n _ = Unit {0}

-- The counters: each semaphore holds the signals sent and not yet waited for, and the index counts
-- the entries.
pub record Counters (n : ℕ) (a : ℕ → ℕ) (s : Shared) (pc : ℕ → Pc) : Type 0 where
  pub within : (v : ℕ) → v < n → IsWithin n (pc v)
  pub sync_ok :
      (v : ℕ) → v < n → s.sync v + waited n a v (pc v) ≡ total n (λ u. sent n a v u (pc u))
  pub mtx_ok : s.mtx + total n (λ u. critical (pc u)) ≡ 1
  pub idx_ok : s.idx ≡ total n (λ u. counted (pc u))

waited-all :
    (n : ℕ) (a : ℕ → ℕ) (v i : ℕ)
    → n ≤ i
    → i ≤ n
    → total i (λ u. bit (linked n a u v)) ≡ total n (λ u. bit (linked n a u v))
waited-all n a v i p q = let e : i ≡ n = omega arith in rw e

module _ {n : ℕ} {a : ℕ → ℕ} {v : ℕ} {s : Shared} where
  Move-IsWithin : {m : Shared} {p q : Pc} → Move n a v s p m q → IsWithin n p → IsWithin n q
  Move-IsWithin (skip r off) w = omega arith
  Move-IsWithin (take r on pos) w = omega arith
  Move-IsWithin (pass r off) w = omega arith
  Move-IsWithin (post r on) w = omega arith
  Move-IsWithin mv w = ground arith

  -- What a move does to the vertex's own semaphore.
  Move-own :
      {m : Shared} {p q : Pc}
      → Move n a v s p m q
      → IsWithin n p
      → (m.sync v + waited n a v q ≡ s.sync v + waited n a v p) × (sent n a v v q ≡ sent n a v v p)
  Move-own (skip {i} r off) w = (ground (arith, total-add_one i (λ u. bit (linked n a u v))), refl)
  Move-own (take {i} r on pos) w =
      (ground (arith, total-add_one i (λ u. bit (linked n a u v))), refl)
  Move-own (lock {i} r pos) w = (ground (arith, waited-all n a v i r w), refl)
  Move-own (pass {i} r off) w = (refl, ground arith)
  Move-own (post {i} r on) w = (ground arith, ground arith)
  Move-own (notify {i} r) w = (refl, ground arith)
  Move-own mv w = ground arith

  -- What it does to another vertex's.
  Move-other :
      {m : Shared} {p q : Pc}
      → Move n a v s p m q
      → (u : ℕ) → u < n
      → u ≢ v
      → m.sync u + sent n a u v p ≡ s.sync u + sent n a u v q
  Move-other (pass {i} r off) u h ne = ground arith
  Move-other (post {i} r on) u h ne = elim (ℕ_discrete i u) [
    | yes e ↦ rw (← e) (ground arith)
    | no d ↦ ground arith
  ]
  Move-other (notify {i} r) u h ne = ground arith
  Move-other mv u h ne = ground arith

  Move-critical :
      {m : Shared} {p q : Pc} → Move n a v s p m q → m.mtx + critical q ≡ s.mtx + critical p
  Move-critical (lock r pos) = omega arith
  Move-critical mv = omega arith

  Move-counted :
      {m : Shared} {p q : Pc} → Move n a v s p m q → m.idx + counted p ≡ s.idx + counted q
  Move-counted count = omega arith
  Move-counted mv = omega arith

-- Every move keeps the counters.
pub Move-Counters :
    {n : ℕ} {a : ℕ → ℕ} {s m : Shared} {pc : ℕ → Pc} {q : Pc} (v : ℕ)
    → v < n
    → Move n a v s (pc v) m q
    → Counters n a s pc
    → Counters n a m (store pc v q)
Move-Counters {n} {a} {s} {m} {pc} {q} v h mv c =
    let own = Move-own mv (c.within v h) in
    record {
      within = λ u r. elim (ℕ_discrete v u) [
        | yes e ↦
            rw (← e) (let w : IsWithin n q = Move-IsWithin mv (c.within v h) in ground (arith, w))
        | no ne ↦ ground (arith, c.within u r)
      ];
      sync_ok = λ u r. elim (ℕ_discrete v u) [
        | yes e ↦
            rw (← e) (ground (arith, own, c.sync_ok v h, total-at (λ x. sent n a v x) n pc v q h))
        | no ne ↦ ground (
          arith,
          Move-other mv u r (λ e. ne (sym e)),
          c.sync_ok u r,
          total-at (λ x. sent n a u x) n pc v q h,
        )
      ];
      mtx_ok = omega (arith, c.mtx_ok, Move-critical mv, total-at (λ _. critical) n pc v q h);
      idx_ok = omega (arith, c.idx_ok, Move-counted mv, total-at (λ _. counted) n pc v q h);
    }
