-- ===== src/TopSort/Completion.antt =====
-- From every state of Assignment_05/LA5 the boss can still come to its verdict.
use mathlib.Core.Path.{subst}
use os_lab_spr.Base.{
  ℕ, zero, suc, ◌+◌, ◌<◌, ◌≤◌, ap, ◌∙◌, Bool, Option, some, ◌≡◌, ◌⊎◌, inl, inr, refl, true, List,
  [], ◌∷◌, ◌++◌, arith, total, total-lt_find, total-le-size, total-one, dec_lt,
}
use os_lab_spr.TopSort.{
  Shared, Pc, linked, Boss, collecting, checked, oversee, System, max_nodes, setup, Turn, boss,
  turn, run,
}
use os_lab_spr.TopSort.Workers.Moves.{notified}
use os_lab_spr.TopSort.Runs.{Inv, BossInv, notified-le, turn-Inv, run-Inv, setup-Inv}
use os_lab_spr.TopSort.Outcome.{boss_verdict}
use os_lab_spr.TopSort.Progress.{Advance, measure, unfinished_advances}

abbrev pub IsChecked : Boss → Type 0
IsChecked (collecting i) = ⊥
IsChecked (checked r) = Unit

boss_advances :
    (n : ℕ) (a : ℕ → ℕ) (s : System) (i : ℕ)
    → s.boss ≡ collecting i
    → s.shared.ntfy + i ≡ n
    → Advance n a s
unfolding turn measure oversee
boss_advances n a s i b e = (boss, ground arith)

boss_count :
    (n : ℕ) (a : ℕ → ℕ) (s : Shared) (pc : ℕ → Pc) (b : Boss) (i : ℕ)
    → b ≡ collecting i
    → BossInv n a s pc b
    → s.ntfy + i ≡ total n (λ u. notified (pc u))
boss_count n a s pc (collecting j) i e v = ground arith
boss_count n a s pc (checked r) i e v = cc

abbrev pub IsAcyclic : ℕ → (ℕ → ℕ) → (ℕ → ℕ) → Type 0
IsAcyclic n a rank = (u v : ℕ) → u < n → v < n → linked n a u v ≡ true → rank u < rank v

advances :
    (n : ℕ) (a rank : ℕ → ℕ) (s : System)
    → IsAcyclic n a rank
    → Inv n a s
    → (i : ℕ) → s.boss ≡ collecting i
    → Advance n a s
advances n a rank s up v i e = elim (dec_lt (total n (λ u. notified (s.pc u))) (total n (λ _. 1))) [
  | yes less ↦
      let (u, p, q) = total-lt_find n (λ x. notified (s.pc x)) (λ _. 1) less in
      unfinished_advances s v rank up (suc (rank u)) u p (omega arith) (omega arith)
  | no full ↦ boss_advances n a s i e (
      omega (
        arith,
        full,
        total-one n,
        total-le-size n (λ u. notified (s.pc u)) (λ u _. notified-le (s.pc u)),
        boss_count n a s.shared s.pc s.boss i e v.boss_ok,
      ))
]

run-append :
    (n : ℕ) (a : ℕ → ℕ) (s : System) (x : Turn) (xs : List Turn)
    → run n a s (x ∷ xs) ≡ run n a (turn n a s x) xs
unfolding run
run-append n a s x xs = refl

run-none : (n : ℕ) (a : ℕ → ℕ) (s : System) → run n a s [] ≡ s
unfolding run
run-none n a s = refl

boss_cases : (b : Boss) → IsChecked b ⊎ ((i : ℕ) × (b ≡ collecting i))
boss_cases (collecting i) = inr (i, refl)
boss_cases (checked r) = inl tt

finishes :
    (n : ℕ) (a rank : ℕ → ℕ)
    → IsAcyclic n a rank
    → (k : ℕ) (s : System) → measure n s < k
    → Inv n a s
    → (ys : List Turn) × IsChecked (run n a s ys).boss
finishes n a rank up zero s h v = absurd (omega arith)
finishes n a rank up (suc k) s h v = elim (boss_cases s.boss) [
  | inl done ↦ ([], rw (run-none n a s) done)
  | inr (i, e) ↦
      let (x, less) = advances n a rank s up v i e in
      let (ys, done) =
        finishes n a rank up k (turn n a s x) (omega (arith, less)) (turn-Inv n a s x v) in
      (x ∷ ys, rw (run-append n a s x ys) done)
]

-- No deadlock: on a graph whose edges go up in some rank, whatever turns have been taken, unless
-- the boss has checked there is a turn that takes the system strictly nearer to its end.
pub run_advances :
    (n : ℕ) (a t rank : ℕ → ℕ) (xs : List Turn) (i : ℕ)
    → IsAcyclic n a rank
    → (run n a (setup t) xs).boss ≡ collecting i
    → Advance n a (run n a (setup t) xs)
run_advances n a t rank xs i up e =
    advances n a rank _ up (run-Inv n a (setup t) xs (setup-Inv n a t)) i e

-- On such a graph, after any turns there are further turns that bring the boss to its check.
pub run_checks :
    (n : ℕ) (a t rank : ℕ → ℕ) (xs : List Turn)
    → IsAcyclic n a rank
    → (ys : List Turn) × IsChecked (run n a (run n a (setup t) xs) ys).boss
run_checks n a t rank xs up =
    let s = run n a (setup t) xs in
    finishes n a rank up (suc (measure n s)) s (omega arith)
      (run-Inv n a (setup t) xs (setup-Inv n a t))

-- Turns after turns.
pub run-run :
    (n : ℕ) (a : ℕ → ℕ) (s : System) (xs ys : List Turn)
    → run n a (run n a s xs) ys ≡ run n a s (xs ++ ys)
unfolding run
run-run n a s [] ys = refl
run-run n a s (x ∷ xs) ys = run-run n a (turn n a s x) xs ys

pub checked_cases : (b : Boss) → IsChecked b → (r : Option Bool) × (b ≡ checked r)
checked_cases (collecting i) h = absurd h
checked_cases (checked r) h = (r, refl)

-- On a graph of at most `MAX_NODES` vertices whose edges between distinct vertices go up in some rank, after
-- any turns there are further turns after which the boss has counted the list and come to its verdict.
pub run_finishes :
    (n : ℕ) (a t rank : ℕ → ℕ) (xs : List Turn)
    → n ≤ max_nodes
    → IsAcyclic n a rank
    → (ys : List Turn) × (b : Bool) × ((run n a (run n a (setup t) xs) ys).boss ≡ checked (some b))
run_finishes n a t rank xs small up =
    let (ys, done) = run_checks n a t rank xs up in
    let (r, e) = checked_cases (run n a (run n a (setup t) xs) ys).boss done in
    let on = run-run n a (setup t) xs ys in
    let (l, (b, f, iff)) =
      boss_verdict n a t (xs ++ ys) r small (subst (λ s. s.boss ≡ checked r) on e) in
    (ys, b, e ∙ ap checked f)
