-- ===== src/TopSort/Outcome.antt =====
-- What the boss and the workers of Assignment_05/LA5 come to, in every interleaving.
use mathlib.Core.Path.{subst}
use mathlib.Core.Bool.{false≢true}
use os_lab_spr.Base.{
  ℕ, ◌≤◌, ◌<◌, ◌≡◌, ◌↔◌, inl, inr, sym, ◌∙◌, Bool, true, false, Option, some, List, arith, total,
  total-full, total-le, total-le-size, two-total, ℕ_discrete, Bool-cases,
}
use os_lab_spr.TopSort.{Pc, finished, edge, linked, checked, System, setup, Turn, run, max_nodes}
use os_lab_spr.TopSort.Cover.{IsListing, Listed}
use os_lab_spr.TopSort.Checker.{IsTopological, is_topological_sort_valid_iff}
use os_lab_spr.TopSort.Workers.Moves.{critical, counted, notified}
use os_lab_spr.TopSort.Runs.{Inv, BossInv, run-Inv, setup-Inv}

-- Whatever the order of the turns, the list holds distinct vertices at all times, and each of them
-- stands after every vertex with an edge to it.
pub run_ordered :
    (n : ℕ) (a t : ℕ → ℕ) (xs : List Turn)
    → let s = (run n a (setup t) xs).shared in
      IsListing n s.t s.idx
      × ((k u : ℕ) → k < s.idx → u < n → linked n a u (s.t k) ≡ true → Listed s.t k u)
run_ordered n a t xs =
    let v = run-Inv n a (setup t) xs (setup-Inv n a t) in (v.written.listing, v.written.ordered)

-- Two workers are never between the `P` and the `V` of the mutex together.
pub run_exclusive :
    (n : ℕ) (a t : ℕ → ℕ) (xs : List Turn) (u v : ℕ)
    → u < n
    → v < n
    → critical ((run n a (setup t) xs).pc u) ≡ 1
    → critical ((run n a (setup t) xs).pc v) ≡ 1
    → u ≡ v
run_exclusive n a t xs u v p q e f =
    let c = (run-Inv n a (setup t) xs (setup-Inv n a t)).counters in
    elim (ℕ_discrete u v) [
      | yes same ↦ same
      | no ne ↦ absurd (
          omega (
            arith,
            c.mtx_ok,
            e,
            f,
            two-total n (λ x. critical ((run n a (setup t) xs).pc x)) u v p q ne,
          ))
    ]

notified-le-counted : (p : Pc) → notified p ≤ counted p
notified-le-counted finished = omega arith
notified-le-counted p = omega arith

counted-le : (p : Pc) → counted p ≤ 1
counted-le finished = omega arith
counted-le p = ground arith

-- When all workers have sent their notification, the list is complete.
complete :
    (n : ℕ) (a : ℕ → ℕ) (s : System)
    → Inv n a s
    → total n (λ u. notified (s.pc u)) ≡ n
    → (s.shared.idx ≡ n) × ((u : ℕ) → u < n → Listed s.shared.t n u)
complete n a s v all =
    let full : total n (λ u. counted (s.pc u)) ≡ n = omega (
      arith,
      all,
      total-le n (λ u. notified (s.pc u)) (λ u. counted (s.pc u))
          (λ u _. notified-le-counted (s.pc u)),
      total-le-size n (λ u. counted (s.pc u)) (λ u _. counted-le (s.pc u)),
    ) in
    let size : s.shared.idx ≡ n = omega (arith, full, v.counters.idx_ok) in
    (
      size,
      λ u h.
          let (j, p, e) =
            v.written.listed u h
              (total-full n (λ x. counted (s.pc x)) (λ x. counted-le (s.pc x)) full u h) in
          (j, omega (arith, size, p), e),
    )

-- A complete list in the order of the signals is a topological order unless an edge is a loop.
IsTopological-iff :
    (n : ℕ) (a t : ℕ → ℕ)
    → IsListing n t n
    → ((u : ℕ) → u < n → Listed t n u)
    → ((k u : ℕ) → k < n → u < n → linked n a u (t k) ≡ true → Listed t k u)
    → IsTopological n a t ↔ ((v : ℕ) → v < n → edge n a v v ≡ false)
IsTopological-iff n a t l all order = (
  λ top v h. elim (Bool-cases (edge n a v v)) [
    | inl loop ↦
        let (k, p, e) = all v h in
        let (j, below, f) = top k v p h (rw e loop) in
        let same = l.distinct j k (omega arith) p (f ∙ sym e) in absurd (omega (arith, same))
    | inr plain ↦ plain
  ],
  λ plain k u p q e. order k u p q (elim (ℕ_discrete u (t k)) [
    | yes same ↦ absurd (false≢true (sym (plain u q) ∙ rw (← same) at e))
    | no ne ↦ ground arith
  ]),
)

-- When the boss has checked, on a graph of at most `MAX_NODES` vertices, the list is complete, and
-- the verdict is 1 exactly when no vertex has an edge to itself: such an edge no worker waits for,
-- and the check counts it.
pub boss_verdict :
    (n : ℕ) (a t : ℕ → ℕ) (xs : List Turn) (r : Option Bool)
    → n ≤ max_nodes
    → (run n a (setup t) xs).boss ≡ checked r
    → IsListing n (run n a (setup t) xs).shared.t n
      × ((b : Bool) × (r ≡ some b) × ((b ≡ true) ↔ ((v : ℕ) → v < n → edge n a v v ≡ false)))
boss_verdict n a t xs r small e =
    let s = run n a (setup t) xs in
    let v = run-Inv n a (setup t) xs (setup-Inv n a t) in
    let (all, verdict) = subst (BossInv n a s.shared s.pc) e v.boss_ok in
    let (size, listed) = complete n a s v all in
    let l = subst (IsListing n s.shared.t) size v.written.listing in
    let (b, f, iff) = is_topological_sort_valid_iff n a s.shared.t small l in
    let top =
      IsTopological-iff n a s.shared.t l listed
        (λ k u p q. v.written.ordered k u (omega (arith, size, p)) q) in
    (l, (b, verdict ∙ f, (λ x. top.0 (iff.0 x), λ x. iff.1 (top.1 x))))

-- A list that the boss has found valid holds all vertices, each once, in topological order.
pub verdict-IsTopological :
    (n : ℕ) (a t : ℕ → ℕ) (xs : List Turn)
    → n ≤ max_nodes
    → (run n a (setup t) xs).boss ≡ checked (some true)
    → IsListing n (run n a (setup t) xs).shared.t n
      × ((u : ℕ) → u < n → Listed (run n a (setup t) xs).shared.t n u)
      × IsTopological n a (run n a (setup t) xs).shared.t
verdict-IsTopological n a t xs small e =
    let s = run n a (setup t) xs in
    let v = run-Inv n a (setup t) xs (setup-Inv n a t) in
    let (all, verdict) = subst (BossInv n a s.shared s.pc) e v.boss_ok in
    let (size, listed) = complete n a s v all in
    let l = subst (IsListing n s.shared.t) size v.written.listing in
    let (b, f, iff) = is_topological_sort_valid_iff n a s.shared.t small l in
    let found : some true ≡ some b = verdict ∙ f in (l, listed, iff.0 (ground (arith, found)))
