-- ===== src/TreeSum/Finish.antt =====
-- Assignment_07/computesum.c: the threads come to their end.
use os_lab_spr.Base.{
  ℕ, zero, suc, ◌+◌, ◌≤◌, ◌<◌, ◌≡◌, ◌⊎◌, inl, inr, ◌≢◌, refl, sym, ap, ◌∙◌, true, false, ltb,
  if◌then◌else◌, store, bit, arith, Bool-cases, Option-cases, Option, none, some, ℕ_discrete, total,
  total-at, total-eq, total-null, total-le, total-lt_find, List, [], ◌∷◌,
}
use os_lab_spr.TreeSum.{
  TreeNode, Work, Place, fresh, gathering, adding, summed, handing, finished, begin, has_parent,
  is_open, node_work, turn, run,
}
use os_lab_spr.TreeSum.Invariant.{
  is_gathering, came, handed, kid, handed_kid, IsTree, Sound, begin-Sound,
}
use os_lab_spr.TreeSum.Moves.{has_kids}
use os_lab_spr.TreeSum.Places.{
  ==_self, has_parent-some, handed_small, handed-done, done-past, done-came,
}
use os_lab_spr.TreeSum.Total.{turn-Sound, run-Sound}

-- How far a thread is from its end.
abbrev pub ahead : Place → ℕ
ahead fresh = 5
ahead gathering = 4
ahead adding = 3
ahead summed = 2
ahead handing = 1
ahead finished = 0

abbrev pub all_ahead : ℕ → Work → ℕ
all_ahead n w = total n (λ j. ahead (w.place j))

-- Parents come later in some order.
abbrev pub Ranked : ℕ → (ℕ → TreeNode) → (ℕ → ℕ) → Type 0
Ranked n t rank = (j p : ℕ) → j < n → (t j).parent ≡ some p → rank j < rank p

-- A turn that brings the thread on.
abbrev Moves : ℕ → Work → ℕ → Type 0
Moves n w i = (q : Place) × ((turn n w i).place ≡ store w.place i q) × (ahead q < ahead (w.place i))

module _ (n : ℕ) (w : Work) (i : ℕ) (low : i < n) where
  inside : ltb i n ≡ true
  inside = ground arith

  fresh-Moves : w.place i ≡ fresh → Moves n w i
  unfolding turn node_work
  fresh-Moves here = elim (Bool-cases (ltb 0 (w.nodes i).children)) [
    | inl e ↦ (gathering, rw (inside, here, e) refl, rw here (omega arith))
    | inr e ↦ (summed, rw (inside, here, e) refl, rw here (omega arith))
  ]

  adding-Moves : w.place i ≡ adding → Moves n w i
  unfolding turn node_work
  adding-Moves here = (summed, rw (inside, here) refl, rw here (omega arith))

  summed-Moves : w.place i ≡ summed → Moves n w i
  unfolding turn node_work
  summed-Moves here = elim (Option-cases (w.nodes i).parent) [
    | inl e ↦ (finished, rw (inside, here, e) refl, rw here (omega arith))
    | inr c ↦ (handing, rw (inside, here, c.1) refl, rw here (omega arith))
  ]

  gathering-Moves : w.place i ≡ gathering → is_open i w ≡ true → Moves n w i
  unfolding turn node_work
  gathering-Moves here e = (adding, rw (inside, here, e) refl, rw here (omega arith))

  handing-Moves :
      w.place i ≡ handing
      → ((p : ℕ) → (w.nodes i).parent ≡ some p → is_open p w ≡ true)
      → Moves n w i
  unfolding turn node_work
  handing-Moves here full = elim (Option-cases (w.nodes i).parent) [
    | inl e ↦ (finished, rw (inside, here, e) refl, rw here (omega arith))
    | inr c ↦
        let e = full c.0 c.1 in (finished, rw (inside, here, c.1, e) refl, rw here (omega arith))
  ]

  turn_ahead : Moves n w i → all_ahead n (turn n w i) < all_ahead n w
  turn_ahead (q, e, less) =
      let moves = total-at (λ _. ahead) n w.place i q low in rw e (omega arith)

module _ (n : ℕ) (t : ℕ → TreeNode) (root : ℕ) (tree : IsTree n t root) (rank : ℕ → ℕ)
    (ranked : Ranked n t rank) (w : Work) (sound : Sound n t w) where
  abbrev Mover : Type 0
  Mover = (i : ℕ) × (i < n) × Moves n w i

  -- A thread that has not handed on its sum moves, or waits at its barrier.
  early-Mover :
      (k : ℕ)
      → k < n
      → (p : Place) → w.place k ≡ p
      → handed p ≡ 0
      → (w.place k ≡ gathering → Mover)
      → Mover
  early-Mover k low fresh here h waits = (k, low, fresh-Moves n w k low here)
  early-Mover k low gathering here h waits = waits here
  early-Mover k low adding here h waits = (k, low, adding-Moves n w k low here)
  early-Mover k low summed here h waits = (k, low, summed-Moves n w k low here)
  early-Mover k low handing here h waits = absurd (omega arith)
  early-Mover k low finished here h waits = absurd (omega arith)

  -- While the barrier is not full, some child has not come.
  missing_child :
      (j : ℕ)
      → j < n
      → w.place j ≡ gathering
      → is_open j w ≡ false
      → (k : ℕ) × (k < n) × (kid t j k ≡ true) × (handed (w.place k) ≡ 0)
  missing_child j low here shut =
      let count = sound.counts j low (sound.inner j low (ap is_gathering here)) in
      let one : came (w.place j) ≡ 1 = ap came here in
      let kids = tree.kids j low in
      let same = (sound.same j).1 in
      let few : (k : ℕ) → k < n → handed_kid t w.place j k ≤ bit (kid t j k) =
        λ k p. let small = handed_small (w.place k) in ground arith in
      let most = total-le n (handed_kid t w.place j) (λ k. bit (kid t j k)) few in
      let short : w.waiting j ≢ 1 + (w.nodes j).children = ground arith in
      let (k, k_low, less) =
        total-lt_find n (handed_kid t w.place j) (λ k. bit (kid t j k)) (omega arith) in
      (k, k_low, ground arith, ground arith)

  -- A thread at its barrier goes on, or one below it does.
  gathering-Mover : (fuel j : ℕ) → j < n → w.place j ≡ gathering → rank j < fuel → Mover
  gathering-Mover zero j low here less = absurd (omega arith)
  gathering-Mover (suc fuel) j low here less = elim (Bool-cases (is_open j w)) [
    | inl e ↦ (j, low, gathering-Moves n w j low here e)
    | inr e ↦
        let (k, k_low, child, away) = missing_child j low here e in
        let lower = ranked k j k_low (has_parent-some (t k).parent j child) in
        early-Mover k k_low (w.place k) refl away
          (λ at. gathering-Mover fuel k k_low at (omega arith))
  ]

  -- The barrier of a node is full when all its children have come and it has itself.
  full_barrier :
      (p j : ℕ) → p < n → j < n → kid t p j ≡ true → handed (w.place p) ≡ 1 → is_open p w ≡ true
  full_barrier p j p_low low child up =
      let is_done = handed-done (w.place p) up in
      let count = sound.counts p p_low (has_kids n t root tree w sound p p_low j low child) in
      let one = done-came (w.place p) is_done in
      let kids = tree.kids p p_low in
      let same = (sound.same p).1 in
      let each =
        total-eq n (handed_kid t w.place p) (λ k. bit (kid t p k))
          (λ k k_low. elim (Bool-cases (kid t p k)) [
            | inl e ↦
                ap (λ b. if b then handed (w.place k) else 0) e
                ∙ sound.through p k p_low k_low (done-past (w.place p) is_done) e
                ∙ sym (ap bit e)
            | inr e ↦ ap (λ b. if b then handed (w.place k) else 0) e ∙ sym (ap bit e)
          ]) in
      ground arith

  -- So a thread at its parent's barrier goes on, or the parent or one below it does.
  handing-Mover : (j : ℕ) → j < n → w.place j ≡ handing → (o : Option ℕ) → (t j).parent ≡ o → Mover
  handing-Mover j low here none e = (
    j,
    low,
    handing-Moves n w j low here (λ p up.
        let never : none ≡ some p = sym e ∙ sym (sound.same j).0 ∙ up in
        absurd (ground (arith, never))),
  )
  handing-Mover j low here (some p) e =
      let p_low = (tree.parents j p low e).0 in
      let child : kid t p j ≡ true = ap (λ o. has_parent o p) e ∙ ==_self p in
      elim (ℕ_discrete (handed (w.place p)) 1) [
        | yes up ↦
            let full = full_barrier p j p_low low child up in
            (
              j,
              low,
              handing-Moves n w j low here (λ q is.
                  let one : some q ≡ some p = sym is ∙ (sound.same j).0 ∙ e in
                  let same : q ≡ p = ground (arith, one) in rw same full),
            )
        | no not_up ↦
            let small = handed_small (w.place p) in
            early-Mover p p_low (w.place p) refl (omega arith)
              (λ at. gathering-Mover (suc (rank p)) p p_low at (omega arith))
      ]

  place-Mover : (j : ℕ) → j < n → (p : Place) → w.place j ≡ p → 0 < ahead p → Mover
  place-Mover j low fresh here more = (j, low, fresh-Moves n w j low here)
  place-Mover j low gathering here more = gathering-Mover (suc (rank j)) j low here (omega arith)
  place-Mover j low adding here more = (j, low, adding-Moves n w j low here)
  place-Mover j low summed here more = (j, low, summed-Moves n w j low here)
  place-Mover j low handing here more = handing-Mover j low here (t j).parent refl
  place-Mover j low finished here more = absurd (omega arith)

  finish_or_move : (all_ahead n w ≡ 0) ⊎ Mover
  finish_or_move = elim (ℕ_discrete (all_ahead n w) 0) [
    | yes e ↦ inl e
    | no ne ↦
        let (j, low, more) =
          total-lt_find n (λ _. 0) (λ j. ahead (w.place j))
            (omega (arith, total-null n (λ _. 0) (λ j p. refl))) in
        inr (place-Mover j low (w.place j) refl more)
  ]

finishes :
    (fuel n : ℕ) (t : ℕ → TreeNode) (root : ℕ)
    → IsTree n t root
    → (rank : ℕ → ℕ) → Ranked n t rank
    → (w : Work) → Sound n t w
    → all_ahead n w ≤ fuel
    → (js : List ℕ) × (all_ahead n (run n w js) ≡ 0)
unfolding run
finishes zero n t root tree rank ranked w sound h = ([], omega arith)
finishes (suc fuel) n t root tree rank ranked w sound h =
    elim (finish_or_move n t root tree rank ranked w sound) [
      | inl e ↦ ([], e)
      | inr c ↦
          let (i, low, moves) = c in
          let less = turn_ahead n w i low moves in
          let (js, e) =
            finishes fuel n t root tree rank ranked (turn n w i)
              (turn-Sound n t root tree w i sound) (omega arith) in
          (i ∷ js, e)
    ]

-- On a tree without cycles, after any turns of the threads there are further turns after which all of
-- them are at their end.
pub threads_finish :
    (n : ℕ) (t : ℕ → TreeNode) (root : ℕ)
    → IsTree n t root
    → (rank : ℕ → ℕ) → Ranked n t rank
    → (is : List ℕ) → (js : List ℕ) × (all_ahead n (run n (run n (begin t) is) js) ≡ 0)
threads_finish n t root tree rank ranked is =
    let w : Work = run n (begin t) is in
    finishes (all_ahead n w) n t root tree rank ranked w
      (run-Sound n t root tree is (begin t) (begin-Sound n t)) (omega arith)
