-- ===== src/TopSort/Progress.antt =====
-- The workers of Assignment_05/LA5 and the boss do not deadlock on a graph without cycles.
use os_lab_spr.Base.{
  ℕ, zero, suc, ◌+◌, ◌-◌, ◌<◌, ◌≡◌, ◌⊎◌, inl, inr, refl, true, Option, none, some, arith, ltb, bit,
  total, total-at, total-lt_find, total-shorter, total-null, Bool-cases, lt→ltb,
}
use os_lab_spr.TopSort.{
  Shared, Pc, waiting, writing, counting, leaving, signalling, finished, linked, work, Boss,
  collecting, checked, System, Turn, worker, turn,
}
use os_lab_spr.TopSort.Workers.Moves.{
  Move, skip, take, pass, post, critical, notified, sent, Worked, work-Worked,
}
use os_lab_spr.TopSort.Runs.{Inv}

-- The steps that a worker has before it, at most.
abbrev remaining : ℕ → Pc → ℕ
remaining n (waiting i) = (n - i) + n + 6
remaining n writing = n + 5
remaining n counting = n + 4
remaining n leaving = n + 3
remaining n (signalling i) = (n - i) + 1
remaining n finished = 0

abbrev boss_remaining : ℕ → Boss → ℕ
boss_remaining n (collecting i) = (n - i) + 1
boss_remaining n (checked r) = 0

unfoldable pub measure : ℕ → System → ℕ
measure n s = total n (λ u. remaining n (s.pc u)) + boss_remaining n s.boss

Move-remaining :
    {n : ℕ} {a : ℕ → ℕ} {v : ℕ} {s m : Shared} {p q : Pc}
    → Move n a v s p m q
    → remaining n q < remaining n p
Move-remaining (skip r off) = omega arith
Move-remaining (take r on pos) = omega arith
Move-remaining (pass r off) = omega arith
Move-remaining (post r on) = omega arith
Move-remaining mv = omega arith

-- A turn that lowers the measure.
abbrev pub Advance : ℕ → (ℕ → ℕ) → System → Type 0
Advance n a s = (x : Turn) × (measure n (turn n a s x) < measure n s)

module _ {n : ℕ} {a : ℕ → ℕ} (s : System) where
  -- Such a turn is one of a worker that is not blocked.
  worker_advances :
      (v : ℕ) (m : Shared) (q : Pc)
      → v < n
      → work n a v s.shared (s.pc v) ≡ some (m, q)
      → Move n a v s.shared (s.pc v) m q
      → Advance n a s
  unfolding turn measure
  worker_advances v m q h e mv = (
    worker v,
    rw (lt→ltb v n h, e)
        (omega (arith, Move-remaining mv, total-at (λ _. remaining n) n s.pc v q h)),
  )

-- Why a worker is blocked.
abbrev Blocked : ℕ → (ℕ → ℕ) → ℕ → Shared → Pc → Type 0
Blocked n a v s (waiting i) = ((i < n) × (linked n a i v ≡ true) × (s.sync v ≡ 0)) ⊎ (s.mtx ≡ 0)
Blocked n a v s finished = Unit
Blocked n a v s _ = ⊥

blocked :
    (n : ℕ) (a : ℕ → ℕ) (v : ℕ) (s : Shared) (p : Pc) → work n a v s p ≡ none → Blocked n a v s p
unfolding work
blocked n a v s (waiting i) e = elim (Bool-cases (ltb i n)) [
  | inl inside ↦ elim (Bool-cases (linked n a i v)) [
    | inl on ↦ inl (ground arith, on, ground arith)
    | inr off ↦ absurd (ground arith)
  ]
  | inr past ↦ inr (ground arith)
]
blocked n a v s (signalling i) e = ground arith
blocked n a v s finished e = tt
blocked n a v s p e = cc

module _ {n : ℕ} {a : ℕ → ℕ} (s : System) (inv : Inv n a s) where
  -- A worker advances, or is blocked.
  Advance-or_Blocked : (v : ℕ) → v < n → Advance n a s ⊎ Blocked n a v s.shared (s.pc v)
  Advance-or_Blocked v h =
      go (work n a v s.shared (s.pc v)) refl (work-Worked n a v s.shared (s.pc v))
    where
      go :
          (r : Option (Shared × Pc))
          → work n a v s.shared (s.pc v) ≡ r
          → Worked n a v s.shared (s.pc v) r
          → Advance n a s ⊎ Blocked n a v s.shared (s.pc v)
      go none e w = inr (blocked n a v s.shared (s.pc v) e)
      go (some (m, q)) e w = inl (worker_advances s v m q h e w)

  -- The holder of the mutex advances.
  holder_advances : (v : ℕ) → v < n → 0 < critical (s.pc v) → Advance n a s
  holder_advances v h p = go (s.pc v) refl
    where
      stuck : (q : Pc) → 0 < critical q → ¬ Blocked n a v s.shared q
      stuck writing c b = b
      stuck counting c b = b
      stuck leaving c b = b
      stuck (waiting i) c b = absurd (omega arith)
      stuck (signalling i) c b = b
      stuck finished c b = absurd (omega arith)

      go : (q : Pc) → s.pc v ≡ q → Advance n a s
      go q e = elim (Advance-or_Blocked v h) [ inl x ↦ x | inr b ↦ absurd (stuck (s.pc v) p b) ]

  mutex_advances : s.shared.mtx ≡ 0 → Advance n a s
  mutex_advances z =
      let (v, h, p) =
        total-lt_find n (λ _. 0) (λ u. critical (s.pc u))
          (omega (arith, z, inv.counters.mtx_ok, total-null n (λ _. 0) (λ i _. refl))) in
      holder_advances v h p

  -- A vertex that waits for a signal has a neighbour that has not ended.
  unsent :
      (v i : ℕ)
      → v < n
      → s.pc v ≡ waiting i
      → i < n
      → linked n a i v ≡ true
      → s.shared.sync v ≡ 0
      → (u : ℕ) × (u < n) × (linked n a u v ≡ true) × (notified (s.pc u) ≡ 0)
  unsent v i h e p on z =
      let (u, q, less) =
        total-lt_find n (λ u. sent n a v u (s.pc u)) (λ u. bit (linked n a u v))
          (ground
            (arith, inv.counters.sync_ok v h, total-shorter i n (λ u. bit (linked n a u v)) p)) in
      (u, q, ground arith, open_still u (s.pc u) less)
    where
      open_still : (u : ℕ) (q : Pc) → sent n a v u q < bit (linked n a u v) → notified q ≡ 0
      open_still u finished l = absurd (omega arith)
      open_still u q l = refl

  -- On a graph whose edges go up in rank, a worker that has not ended leads to one that advances.
  pub unfinished_advances :
      (rank : ℕ → ℕ)
      → ((u v : ℕ) → u < n → v < n → linked n a u v ≡ true → rank u < rank v)
      → (k v : ℕ) → v < n
      → rank v < k
      → notified (s.pc v) ≡ 0
      → Advance n a s
  unfinished_advances rank up zero v h r f = absurd (omega arith)
  unfinished_advances rank up (suc k) v h r f = elim (Advance-or_Blocked v h) [
    | inl x ↦ x
    | inr b ↦
        go (s.pc v) refl b f
          (λ u p on g. unfinished_advances rank up k u p (omega (arith, up u v p h on)) g)
  ]
    where
      go :
          (q : Pc)
          → s.pc v ≡ q
          → Blocked n a v s.shared q
          → notified q ≡ 0
          → ((u : ℕ) → u < n → linked n a u v ≡ true → notified (s.pc u) ≡ 0 → Advance n a s)
          → Advance n a s
      go (waiting i) e (inl (p, on, z)) g rec =
          let (u, q, link, o) = unsent v i h e p on z in rec u q link o
      go (waiting i) e (inr z) g rec = mutex_advances z
      go writing e b g rec = absurd b
      go counting e b g rec = absurd b
      go leaving e b g rec = absurd b
      go (signalling i) e b g rec = absurd b
      go finished e b g rec = absurd (omega arith)
