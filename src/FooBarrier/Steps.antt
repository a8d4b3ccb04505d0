-- ===== src/FooBarrier/Steps.antt =====
-- Assignment_07/foothread.c: each turn of a thread at the barrier.
use os_lab_spr.Base.{
  ℕ, ◌+◌, ◌-◌, ◌<◌, ◌≡◌, ◌⊎◌, inl, inr, ◌≢◌, refl, sym, ap, ◌∙◌, true, false, ◌==◌, ltb, store,
  arith, Bool-cases, store_self, ℕ_discrete, two-total, total-full, total-null, List, [], ◌∷◌,
}
use mathlib.Core.Bool.{false≢true}
use os_lab_spr.FooBarrier.{
  Barrier, At, arriving, counting, testing, last_releasing, opening, resetting, releasing, passing,
  through, statement, Crowd, moved, turn, run,
}
use os_lab_spr.FooBarrier.Gate.{
  holds, arrived, gone, early, late, is_testing, Gathers, Opens, Flows, Gate, gathers, opens, flows,
  all-store, store_other, places-store, parked, arrived_small,
}

module _ (n : ℕ) (s : Crowd) (i : ℕ) (low : i < n) where
  -- Nobody but the thread itself tests, when it does not test itself.
  full-store :
      (p q : At)
      → s.at i ≡ p
      → is_testing p ≡ false
      → (k : ℕ) × (k < n) × (s.at k ≡ testing)
      → (k : ℕ) × (k < n) × (store s.at i q k ≡ testing)
  full-store p q here off (k, k_low, at) = elim (ℕ_discrete i k) [
    | yes e ↦ absurd (false≢true (sym off ∙ ap is_testing (sym here ∙ ap s.at e ∙ at)))
    | no ne ↦ (k, k_low, store_other s.at i k q ne ∙ at)
  ]

  -- A step that keeps the threads gathering.
  goes_on :
      (b : Barrier) (p q : At)
      → s.at i ≡ p
      → Gathers n s
      → b.count ≡ n
      → b.mutex_semaphore + holds q ≡ s.barrier.mutex_semaphore + holds p
      → b.reached + arrived p ≡ s.barrier.reached + arrived q
      → b.semaphore ≡ 0
      → early q ≡ true
      → ((b.reached ≡ n) → (k : ℕ) × (k < n) × (store s.at i q k ≡ testing))
      → Gate n (record { barrier = b; at = store s.at i q })
  goes_on b p q here g count mutex reached semaphore ok full =
      let held = all-store holds n s.at i q low in
      let came = all-store arrived n s.at i q low in
      let h : holds (s.at i) ≡ holds p = ap holds here in
      let a : arrived (s.at i) ≡ arrived p = ap arrived here in
      gathers record {
        count = count;
        mutex = omega (arith, g.mutex);
        reached = omega (arith, g.reached);
        semaphore = semaphore;
        places = places-store early n s.at i q ok g.places;
        full = full;
      }

  fills :
      s.at i ≡ testing
      → Gathers n s
      → s.barrier.reached ≡ n
      → Gate n (record { barrier = s.barrier; at = store s.at i last_releasing })
  fills here g filled =
      let mine : holds (s.at i) ≡ 1 = ap holds here in
      let others : (j : ℕ) → j < n → j ≢ i → s.at j ≡ passing = λ j j_low ne.
        let two = two-total n (λ k. holds (s.at k)) i j low j_low (λ e. ne (sym e)) in
        let sum = g.mutex in
        parked (s.at j) (g.places j j_low)
          (total-full n (λ k. arrived (s.at k)) (λ k. arrived_small (s.at k))
            (sym g.reached ∙ filled) j j_low)
          (omega arith) in
      opens record {
        count = g.count;
        semaphore = g.semaphore;
        opener = (
          i,
          low,
          inl (store_self s.at i last_releasing),
          (λ j j_low ne. store_other s.at i j last_releasing (λ e. ne (sym e)) ∙ others j j_low ne),
        );
      }

  gathers_on : (p : At) → s.at i ≡ p → Gathers n s → Gate n (moved s i (statement s.barrier p))
  unfolding statement
  gathers_on arriving here g = elim (Bool-cases (s.barrier.mutex_semaphore == 0)) [
    | inl e ↦ rw e (gathers g)
    | inr e ↦ rw e (
        goes_on (record s.barrier { mutex_semaphore = s.barrier.mutex_semaphore - 1 }) arriving
          counting here g g.count (ground arith) refl g.semaphore refl
          (λ f. full-store arriving counting here refl (g.full f)))
  ]
  gathers_on counting here g =
      goes_on (record s.barrier { reached = s.barrier.reached + 1 }) counting testing here g g.count
        refl (omega arith) g.semaphore refl (λ f. (i, low, store_self s.at i testing))
  gathers_on testing here g = elim (Bool-cases (s.barrier.reached == s.barrier.count)) [
    | inl e ↦ rw e (fills here g (ground (arith, g.count)))
    | inr e ↦ rw e (
        goes_on s.barrier testing releasing here g g.count refl refl g.semaphore refl
          (λ f. absurd (ground (arith, g.count))))
  ]
  gathers_on releasing here g =
      goes_on (record s.barrier { mutex_semaphore = s.barrier.mutex_semaphore + 1 }) releasing
        passing here g g.count (omega arith) refl g.semaphore refl
        (λ f. full-store releasing passing here refl (g.full f))
  gathers_on passing here g =
      let shut : (s.barrier.semaphore == 0) ≡ true = ground (arith, g.semaphore) in
      rw shut (gathers g)
  gathers_on last_releasing here g = absurd (false≢true (ap early (sym here) ∙ g.places i low))
  gathers_on opening here g = absurd (false≢true (ap early (sym here) ∙ g.places i low))
  gathers_on resetting here g = absurd (false≢true (ap early (sym here) ∙ g.places i low))
  gathers_on through here g = absurd (false≢true (ap early (sym here) ∙ g.places i low))

  -- Where the threads are once the semaphore is open.
  opened_at :
      (j : ℕ)
      → ((j ≢ i) → store s.at i resetting j ≡ passing)
      → (store s.at i resetting j ≡ resetting) ⊎ (store s.at i resetting j ≡ passing)
  opened_at j others = elim (ℕ_discrete j i) [
    | yes e ↦ inl (rw e (store_self s.at i resetting))
    | no ne ↦ inr (others ne)
  ]

  opens_on : Opens n s → Gate n (moved s i (statement s.barrier (s.at i)))
  unfolding statement
  opens_on o =
      let (k, k_low, at, others) = o.opener in
      let still : (q : At) → (j : ℕ) → j < n → j ≢ i → i ≡ k → store s.at i q j ≡ passing =
        λ q j j_low ne e.
          store_other s.at i j q (λ x. ne (sym x)) ∙ others j j_low (λ x. ne (x ∙ sym e)) in
      elim (ℕ_discrete i k) [
        | yes e ↦ elim at [
          | inl last ↦
              let here : s.at i ≡ last_releasing = ap s.at e ∙ last in
              rw here (
                opens record {
                  count = o.count;
                  semaphore = o.semaphore;
                  opener = (
                    i,
                    low,
                    inr (store_self s.at i opening),
                    (λ j j_low ne. still opening j j_low ne e),
                  );
                })
          | inr last ↦
              let here : s.at i ≡ opening = ap s.at e ∙ last in
              let nobody =
                total-null n (λ j. gone (store s.at i resetting j))
                  (λ j j_low. elim (opened_at j (λ ne. still resetting j j_low ne e)) [
                    | inl a ↦ ap gone a
                    | inr a ↦ ap gone a
                  ]) in
              rw here (
                flows record {
                  semaphore = omega (arith, o.count, o.semaphore);
                  places = λ j j_low. elim (opened_at j (λ ne. still resetting j j_low ne e)) [
                    | inl a ↦ ap late a
                    | inr a ↦ ap late a
                  ];
                })
        ]
        | no ne ↦
            let here : s.at i ≡ passing = others i low ne in
            let shut : (s.barrier.semaphore == 0) ≡ true = ground (arith, o.semaphore) in
            rw here (rw shut (opens o))
      ]

  flows_on : (p : At) → s.at i ≡ p → Flows n s → Gate n (moved s i (statement s.barrier p))
  unfolding statement
  flows_on resetting here f =
      let sum = all-store gone n s.at i passing low in
      let g : gone (s.at i) ≡ 0 = ap gone here in
      flows record {
        semaphore = omega (arith, f.semaphore);
        places = places-store late n s.at i passing refl f.places;
      }
  flows_on passing here f =
      let sum = all-store gone n s.at i through low in
      let g : gone (s.at i) ≡ 0 = ap gone here in
      elim (Bool-cases (s.barrier.semaphore == 0)) [
        | inl e ↦ rw e (flows f)
        | inr e ↦
            let some_left : 0 < s.barrier.semaphore = ground arith in
            rw e (
              flows record {
                semaphore = omega (arith, f.semaphore);
                places = places-store late n s.at i through refl f.places;
              })
      ]
  flows_on through here f = flows f
  flows_on arriving here f = absurd (false≢true (ap late (sym here) ∙ f.places i low))
  flows_on counting here f = absurd (false≢true (ap late (sym here) ∙ f.places i low))
  flows_on testing here f = absurd (false≢true (ap late (sym here) ∙ f.places i low))
  flows_on last_releasing here f = absurd (false≢true (ap late (sym here) ∙ f.places i low))
  flows_on opening here f = absurd (false≢true (ap late (sym here) ∙ f.places i low))
  flows_on releasing here f = absurd (false≢true (ap late (sym here) ∙ f.places i low))

pub turn-Gate : (n : ℕ) (s : Crowd) (i : ℕ) → Gate n s → Gate n (turn n s i)
unfolding turn
turn-Gate n s i gate = elim (Bool-cases (ltb i n)) [
  | inr e ↦ rw e gate
  | inl e ↦
      let low : i < n = ground arith in
      rw e (elim gate [
        | gathers g ↦ gathers_on n s i low (s.at i) refl g
        | opens o ↦ opens_on n s i low o
        | flows f ↦ flows_on n s i low (s.at i) refl f
      ])
]

pub run-Gate : (n : ℕ) (is : List ℕ) (s : Crowd) → Gate n s → Gate n (run n s is)
unfolding run
run-Gate n [] s gate = gate
run-Gate n (i ∷ is) s gate = run-Gate n is (turn n s i) (turn-Gate n s i gate)
