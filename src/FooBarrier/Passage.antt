-- ===== src/FooBarrier/Passage.antt =====
-- Assignment_07/foothread.c: who gets through the barrier, and when.
use os_lab_spr.Base.{
  ℕ, zero, suc, ◌-◌, ◌≤◌, ◌<◌, ◌≡◌, ◌⊎◌, inl, inr, ◌≢◌, refl, sym, ap, ◌∙◌, true, false, ◌==◌, ltb,
  arith, Bool-cases, some, ℕ_discrete, total-le-size, total-null, total-one, total-lt_find, List,
  [], ◌∷◌,
}
use mathlib.Core.Bool.{false≢true}
use os_lab_spr.FooBarrier.{
  Barrier, At, arriving, counting, testing, last_releasing, opening, resetting, releasing, passing,
  through, statement, Crowd, assemble, turn, run,
}
use os_lab_spr.FooBarrier.Gate.{
  holds, arrived, gone, all, early, late, Gathers, Opens, Gate, gathers, opens, flows,
  assemble-Gate, all-store, arrived_small,
}
use os_lab_spr.FooBarrier.Steps.{turn-Gate, run-Gate}

late-arrived : (p : At) → late p ≡ true → arrived p ≡ 1
late-arrived resetting l = refl
late-arrived passing l = refl
late-arrived through l = refl
late-arrived arriving l = absurd (false≢true l)
late-arrived counting l = absurd (false≢true l)
late-arrived testing l = refl
late-arrived last_releasing l = refl
late-arrived opening l = refl
late-arrived releasing l = refl

-- Nobody is through while the threads gather or the semaphore is about to open.
Opens-gone : (n : ℕ) (s : Crowd) (i : ℕ) → i < n → Opens n s → gone (s.at i) ≡ 0
Opens-gone n s i low o =
    let (k, k_low, at, others) = o.opener in
    elim (ℕ_discrete i k) [
      | yes e ↦ elim at [
        | inl last ↦ ap gone (ap s.at e ∙ last)
        | inr last ↦ ap gone (ap s.at e ∙ last)
      ]
      | no ne ↦ ap gone (others i low ne)
    ]

all_arrived :
    (n : ℕ) (s : Crowd) (i j : ℕ)
    → i < n
    → j < n
    → s.at i ≡ through
    → Gate n s
    → arrived (s.at j) ≡ 1
all_arrived n s i j i_low j_low out (gathers g) =
    absurd (false≢true (ap early (sym out) ∙ g.places i i_low))
all_arrived n s i j i_low j_low out (opens o) =
    let none_gone = Opens-gone n s i i_low o in let one = ap gone out in absurd (omega arith)
all_arrived n s i j i_low j_low out (flows f) = late-arrived (s.at j) (f.places j j_low)

-- However the threads take turns between statements, none is through the barrier before each of them has
-- counted itself.
pub barrier_holds :
    (n : ℕ) (is : List ℕ)
    → 0 < n
    → (i j : ℕ) → i < n
    → j < n
    → (run n (assemble n) is).at i ≡ through
    → arrived ((run n (assemble n) is).at j) ≡ 1
barrier_holds n is some_thread i j i_low j_low out =
    all_arrived n (run n (assemble n) is) i j i_low j_low out
      (run-Gate n is (assemble n) (assemble-Gate n some_thread))

-- How many statements a thread has before it at most.
abbrev rank : At → ℕ
rank arriving = 8
rank counting = 7
rank testing = 6
rank last_releasing = 5
rank opening = 4
rank resetting = 3
rank releasing = 2
rank passing = 1
rank through = 0

abbrev Moves : Barrier → At → Type 0
Moves b p = (c : Barrier) × (q : At) × (statement b p ≡ some (c, q)) × (rank q < rank p)

-- Every statement but a P on a semaphore at 0 and the end can be made.
Moves-on :
    (b : Barrier) (p : At)
    → (((p ≡ arriving) × (b.mutex_semaphore ≡ 0)) ⊎ ((p ≡ passing) × (b.semaphore ≡ 0)))
      ⊎ ((p ≡ through) ⊎ Moves b p)
unfolding statement
Moves-on b arriving = elim (Bool-cases (b.mutex_semaphore == 0)) [
  | inl e ↦ inl (inl (refl, ground arith))
  | inr e ↦
      inr (
        inr
          (record b { mutex_semaphore = b.mutex_semaphore - 1 }, counting, rw e refl, omega arith))
]
Moves-on b counting = inr (inr (_, _, refl, omega arith))
Moves-on b testing = elim (Bool-cases (b.reached == b.count)) [
  | inl e ↦ inr (inr (b, last_releasing, rw e refl, omega arith))
  | inr e ↦ inr (inr (b, releasing, rw e refl, omega arith))
]
Moves-on b last_releasing = inr (inr (_, _, refl, omega arith))
Moves-on b opening = inr (inr (_, _, refl, omega arith))
Moves-on b resetting = inr (inr (_, _, refl, omega arith))
Moves-on b releasing = inr (inr (_, _, refl, omega arith))
Moves-on b passing = elim (Bool-cases (b.semaphore == 0)) [
  | inl e ↦ inl (inr (refl, ground arith))
  | inr e ↦ inr (inr (record b { semaphore = b.semaphore - 1 }, through, rw e refl, omega arith))
]
Moves-on b through = inr (inl refl)

abbrev Mover : ℕ → Crowd → Type 0
Mover n s = (i : ℕ) × (i < n) × Moves s.barrier (s.at i)

unlike : (p a b : At) → p ≡ a → p ≡ b → (rank a == rank b) ≡ false → ⊥
unlike p a b ha hb apart = let same = ap rank (sym ha ∙ hb) in ground arith

-- A thread that is not blocked and not through can move.
Moves-unless :
    (b : Barrier) (p : At)
    → p ≢ through
    → (p ≡ arriving → 0 < b.mutex_semaphore)
    → (p ≡ passing → 0 < b.semaphore)
    → Moves b p
Moves-unless b p inside free open_to = elim (Moves-on b p) [
  | inl blocked ↦ absurd (elim blocked [
    | inl c ↦ let more = free c.0 in let shut = c.1 in omega arith
    | inr c ↦ let more = open_to c.0 in let shut = c.1 in omega arith
  ])
  | inr rest ↦ elim rest [ inl out ↦ absurd (inside out) | inr m ↦ m ]
]

-- A thread that holds the mutex can move, and so can one that has not counted itself when it is free.
holder-Moves : (b : Barrier) (p : At) → 0 < holds p → Moves b p
holder-Moves b p h =
    Moves-unless b p (λ e. off e refl) (λ e. absurd (off e refl)) (λ e. absurd (off e refl))
  where
    off : {q : At} → p ≡ q → (holds q == 0) ≡ true → ⊥
    off {q} e z = let same = ap holds e in ground arith

Gathers-Mover : (n : ℕ) (s : Crowd) → Gathers n s → Mover n s
Gathers-Mover n s g = elim (ℕ_discrete s.barrier.reached n) [
  | yes e ↦
      let (k, k_low, at) = g.full e in
      (k, k_low, holder-Moves s.barrier (s.at k) (omega (arith, ap holds at)))
  | no ne ↦
      let most = total-le-size n (λ j. arrived (s.at j)) (λ j p. arrived_small (s.at j)) in
      let (j, j_low, away) =
        total-lt_find n (λ j. arrived (s.at j)) (λ _. 1) (omega (arith, g.reached, total-one n)) in
      elim (Bool-cases (s.barrier.mutex_semaphore == 0)) [
        | inl shut ↦
            let (k, k_low, held) =
              total-lt_find n (λ _. 0) (λ j. holds (s.at j))
                (ground (arith, g.mutex, total-null n (λ _. 0) (λ j p. refl))) in
            (k, k_low, holder-Moves s.barrier (s.at k) (omega arith))
        | inr free ↦ (
          j,
          j_low,
          Moves-unless s.barrier (s.at j) (λ e. let here = ap arrived e in absurd (omega arith))
              (λ e. ground arith) (λ e. let here = ap arrived e in absurd (omega arith)),
        )
      ]
]

Gate-Mover : (n : ℕ) (s : Crowd) → Gate n s → (all gone n s.at ≡ n) ⊎ Mover n s
Gate-Mover n s (gathers g) = inr (Gathers-Mover n s g)
Gate-Mover n s (opens o) =
    let (k, k_low, at, others) = o.opener in
    inr (
      k,
      k_low,
      elim at [
        | inl last ↦ holder-Moves s.barrier (s.at k) (omega (arith, ap holds last))
        | inr last ↦
            Moves-unless s.barrier (s.at k) (λ e. unlike (s.at k) opening through last e refl)
              (λ e. absurd (unlike (s.at k) opening arriving last e refl))
              (λ e. absurd (unlike (s.at k) opening passing last e refl))
      ],
    )
Gate-Mover n s (flows f) = elim (ℕ_discrete (all gone n s.at) n) [
  | yes e ↦ inl e
  | no ne ↦
      let sum = f.semaphore in
      let (j, j_low, here) =
        total-lt_find n (λ j. gone (s.at j)) (λ _. 1) (omega (arith, total-one n)) in
      inr (
        j,
        j_low,
        Moves-unless s.barrier (s.at j) (λ e. let out = ap gone e in absurd (omega arith))
            (λ e. absurd (false≢true (sym (ap late e) ∙ f.places j j_low))) (λ e. omega arith),
      )
]

turn_moves : (n : ℕ) (s : Crowd) → (m : Mover n s) → all rank n (turn n s m.0).at < all rank n s.at
unfolding turn
turn_moves n s (i, low, (b, q, e, less)) =
    let inside : ltb i n ≡ true = ground arith in
    let sum = all-store rank n s.at i q low in rw (inside, e) (omega arith)

goes_through :
    (fuel n : ℕ) (s : Crowd)
    → Gate n s
    → all rank n s.at ≤ fuel
    → (js : List ℕ) × (all gone n (run n s js).at ≡ n)
unfolding run
goes_through zero n s gate h = elim (Gate-Mover n s gate) [
  | inl out ↦ ([], out)
  | inr m ↦ let less = turn_moves n s m in absurd (omega arith)
]
goes_through (suc fuel) n s gate h = elim (Gate-Mover n s gate) [
  | inl out ↦ ([], out)
  | inr m ↦
      let less = turn_moves n s m in
      let (js, out) = goes_through fuel n (turn n s m.0) (turn-Gate n s m.0 gate) (omega arith) in
      (m.0 ∷ js, out)
]

-- However the threads took turns between statements, there are further turns after which all of them are
-- through the barrier.
pub barrier_opens :
    (n : ℕ) (is : List ℕ)
    → 0 < n
    → (js : List ℕ) × (all gone n (run n (run n (assemble n) is) js).at ≡ n)
barrier_opens n is some_thread =
    let s : Crowd = run n (assemble n) is in
    goes_through (all rank n s.at) n s (run-Gate n is (assemble n) (assemble-Gate n some_thread))
      (omega arith)
