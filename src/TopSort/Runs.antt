-- ===== src/TopSort/Runs.antt =====
-- Every interleaving of the boss and the workers of Assignment_05/LA5.
use os_lab_spr.Base.{
  ℕ, ◌+◌, ◌-◌, ◌≤◌, ◌<◌, ◌≡◌, ◌≢◌, inl, inr, refl, Option, none, some, List, [], ◌∷◌, arith, ltb,
  ◌==◌, bit, store, total, total-at, total-full, total-le-size, total-null, total-zero, Bool-cases,
}
use os_lab_spr.TopSort.{
  Shared, Pc, writing, finished, linked, Boss, collecting, checked, oversee, System, setup, Turn,
  boss, worker, turn, run, is_topological_sort_valid,
}
use os_lab_spr.TopSort.Workers.Moves.{
  Move, skip, take, lock, write, count, unlock, pass, post, notify, notified, Worked, work-Worked,
}
use os_lab_spr.TopSort.Workers.Invariant.{Counters, Move-Counters}
use os_lab_spr.TopSort.Workers.Listing.{Written, write-Written, count-Written, keep-Written}

-- The boss has taken `i` notifications; when it has checked, all workers have sent theirs.
abbrev pub BossInv : ℕ → (ℕ → ℕ) → Shared → (ℕ → Pc) → Boss → Type 0
BossInv n a s pc (collecting i) = (i ≤ n) × (s.ntfy + i ≡ total n (λ u. notified (pc u)))
BossInv n a s pc (checked r) =
    (total n (λ u. notified (pc u)) ≡ n) × (r ≡ is_topological_sort_valid a s.t n)

pub record Inv (n : ℕ) (a : ℕ → ℕ) (s : System) : Type 0 where
  pub counters : Counters n a s.shared s.pc
  pub written : Written n a s.shared s.pc
  pub boss_ok : BossInv n a s.shared s.pc s.boss

pub notified-le : (p : Pc) → notified p ≤ 1
notified-le finished = omega arith
notified-le p = omega arith

finished_of_notified : (p : Pc) → notified p ≡ 1 → p ≡ finished
finished_of_notified finished e = refl
finished_of_notified writing e = absurd (omega arith)
finished_of_notified p e = absurd (omega arith)

Move-not_finished :
    {n : ℕ} {a : ℕ → ℕ} {v : ℕ} {s m : Shared} {p q : Pc} → Move n a v s p m q → p ≢ finished
Move-not_finished write e = cc
Move-not_finished mv e = cc

Move-notified :
    {n : ℕ} {a : ℕ → ℕ} {v : ℕ} {s m : Shared} {p q : Pc}
    → Move n a v s p m q
    → m.ntfy + notified p ≡ s.ntfy + notified q
Move-notified (notify r) = omega arith
Move-notified mv = omega arith

module _ {n : ℕ} {a : ℕ → ℕ} (v : ℕ) (h : v < n) where
  Move-Written :
      {s m : Shared} {pc : ℕ → Pc} {p q : Pc}
      → Move n a v s p m q
      → pc v ≡ p
      → Counters n a s pc
      → Written n a s pc
      → Written n a m (store pc v q)
  Move-Written write e c w = write-Written v h c w e
  Move-Written count e c w = count-Written v h c w e
  Move-Written (skip r off) e c w = keep-Written v h c w _ _ _ _ (ground arith) (λ x. cc)
  Move-Written (take r on pos) e c w = keep-Written v h c w _ _ _ _ (ground arith) (λ x. cc)
  Move-Written (lock r pos) e c w = keep-Written v h c w _ _ _ _ (ground arith) (λ x. cc)
  Move-Written unlock e c w = keep-Written v h c w _ _ _ _ (ground arith) (λ x. cc)
  Move-Written (pass r off) e c w = keep-Written v h c w _ _ _ _ (ground arith) (λ x. cc)
  Move-Written (post r on) e c w = keep-Written v h c w _ _ _ _ (ground arith) (λ x. cc)
  Move-Written (notify r) e c w = keep-Written v h c w _ _ _ _ (ground arith) (λ x. cc)

  Move-BossInv :
      {s m : Shared} (pc : ℕ → Pc) {q : Pc} (b : Boss)
      → Move n a v s (pc v) m q
      → BossInv n a s pc b
      → BossInv n a m (store pc v q) b
  Move-BossInv pc {q = q} (collecting i) mv (le, e) =
      (le, omega (arith, e, Move-notified mv, total-at (λ _. notified) n pc v q h))
  Move-BossInv pc (checked r) mv (all, e) = absurd (
      Move-not_finished mv (
        finished_of_notified _
          (total-full n (λ u. notified (pc u)) (λ u. notified-le (pc u)) all v h)))

-- What a step of the boss came to.
data Oversaw (n : ℕ) (a : ℕ → ℕ) (s : Shared) : Boss → Shared → Boss → Type 0 where
  collect :
      {i : ℕ}
      → i < n
      → 0 < s.ntfy
      → Oversaw n a s (collecting i) (record s { ntfy = s.ntfy - 1 }) (collecting (i + 1))
  check :
      {i : ℕ} → n ≤ i → Oversaw n a s (collecting i) s (checked (is_topological_sort_valid a s.t n))

abbrev Oversees : ℕ → (ℕ → ℕ) → Shared → Boss → Option (Shared × Boss) → Type 0
Oversees n a s b none = Unit {0}
Oversees n a s b (some (m, c)) = Oversaw n a s b m c

oversee-Oversees : (n : ℕ) (a : ℕ → ℕ) (s : Shared) (b : Boss) → Oversees n a s b (oversee n a s b)
unfolding oversee
oversee-Oversees n a s (collecting i) = elim (Bool-cases (ltb i n)) [
  | inl inside ↦ elim (Bool-cases (s.ntfy == 0)) [
    | inl z ↦ rw (inside, z) tt
    | inr pos ↦ rw (inside, pos) (collect (ground arith) (ground arith))
  ]
  | inr past ↦ rw past (check (ground arith))
]
oversee-Oversees n a s (checked r) = tt

Oversaw-Inv :
    {n : ℕ} {a : ℕ → ℕ} {s m : Shared} {pc : ℕ → Pc} {b c : Boss}
    → Oversaw n a s b m c
    → Inv n a (record { shared = s; pc = pc; boss = b })
    → Inv n a (record { shared = m; pc = pc; boss = c })
Oversaw-Inv (collect r pos) v = record {
  counters = record {
    within = v.counters.within;
    sync_ok = v.counters.sync_ok;
    mtx_ok = v.counters.mtx_ok;
    idx_ok = v.counters.idx_ok;
  };
  written = record {
    listing = v.written.listing;
    owner = v.written.owner;
    listed = v.written.listed;
    here = v.written.here;
    ordered = v.written.ordered;
  };
  boss_ok = (omega arith, omega (arith, v.boss_ok));
}
Oversaw-Inv {n} {pc = pc} (check {i} past) v = record {
  counters = v.counters;
  written = v.written;
  boss_ok = (
    omega (arith, v.boss_ok, total-le-size n (λ u. notified (pc u)) (λ u _. notified-le (pc u))),
    refl,
  );
}

boss_turn :
    {n : ℕ} {a : ℕ → ℕ} (s : System) (r : Option (Shared × Boss))
    → Oversees n a s.shared s.boss r
    → Inv n a s
    → Inv n a (elim r [ none ↦ s | some (m, b) ↦ record s { shared = m; boss = b } ])
boss_turn s none o v = v
boss_turn s (some (m, b)) o v = Oversaw-Inv o v

worker_turn :
    {n : ℕ} {a : ℕ → ℕ} (s : System) (i : ℕ) (r : Option (Shared × Pc))
    → i < n
    → Worked n a i s.shared (s.pc i) r
    → Inv n a s
    → Inv n a (elim r [ none ↦ s | some (m, p) ↦ record s { shared = m; pc = store s.pc i p } ])
worker_turn s i none h o v = v
worker_turn s i (some (m, p)) h o v = record {
  counters = Move-Counters i h o v.counters;
  written = Move-Written i h o refl v.counters v.written;
  boss_ok = Move-BossInv i h s.pc s.boss o v.boss_ok;
}

pub turn-Inv : (n : ℕ) (a : ℕ → ℕ) (s : System) (x : Turn) → Inv n a s → Inv n a (turn n a s x)
unfolding turn
turn-Inv n a s boss v = boss_turn s _ (oversee-Oversees n a s.shared s.boss) v
turn-Inv n a s (worker i) v = elim (Bool-cases (ltb i n)) [
  | inl inside ↦
      rw inside (worker_turn s i _ (ground arith) (work-Worked n a i s.shared (s.pc i)) v)
  | inr past ↦ rw past v
]

pub setup-Inv : (n : ℕ) (a t : ℕ → ℕ) → Inv n a (setup t)
unfolding setup
setup-Inv n a t = record {
  counters = record {
    within = λ v h. omega arith;
    sync_ok = λ v h.
        omega (arith, total-zero (λ u. bit (linked n a u v)), total-null n (λ u. 0) (λ i _. refl));
    mtx_ok = omega (arith, total-null n (λ u. 0) (λ i _. refl));
    idx_ok = omega (arith, total-null n (λ u. 0) (λ i _. refl));
  };
  written = record {
    listing = record {
      range = λ j p. absurd (omega arith);
      distinct = λ j k p. absurd (omega arith);
    };
    owner = λ j p. absurd (omega arith);
    listed = λ u p q. absurd (omega arith);
    here = λ u p q. cc;
    ordered = λ k u p. absurd (omega arith);
  };
  boss_ok = (omega arith, omega (arith, total-null n (λ u. 0) (λ i _. refl)));
}

pub run-Inv : (n : ℕ) (a : ℕ → ℕ) (s : System) (xs : List Turn) → Inv n a s → Inv n a (run n a s xs)
unfolding run
run-Inv n a s [] v = v
run-Inv n a s (x ∷ xs) v = run-Inv n a (turn n a s x) xs (turn-Inv n a s x v)
