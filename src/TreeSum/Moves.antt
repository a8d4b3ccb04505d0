-- ===== src/TreeSum/Moves.antt =====
-- Assignment_07/computesum.c: the steps of a thread that gives no node its sum.
use os_lab_spr.Base.{
  ℕ, ◌+◌, ◌≤◌, ◌<◌, ◌≡◌, inl, inr, ◌≢◌, sym, ap, ◌∙◌, true, not, ◌&&◌, ◌==◌, if◌then◌else◌, store,
  bit, arith, Bool-cases, some, store_self, ℕ_discrete, total, total-at, total-eq, total-squeeze,
  le-total,
}
use mathlib.Core.Bool.{false≢true}
use os_lab_spr.TreeSum.{
  TreeNode, Work, Place, fresh, gathering, adding, summed, handing, finished, has_parent, goes,
  arrive, is_open,
}
use os_lab_spr.TreeSum.Invariant.{
  is_gathering, done, came, past, handed, kid, IsTree, parent_done, front, counted, handed_kid,
  Sound, place-store, if_zero,
}
use os_lab_spr.TreeSum.Places.{
  store_at, handed_small, done-past, done-came, has_parent-some, parent_done-store,
}

module _ (n : ℕ) (t : ℕ → TreeNode) (root : ℕ) (tree : IsTree n t root) (w : Work)
    (sound : Sound n t w) (i : ℕ) (low : i < n) where
  -- The children that have handed on their sums, after thread `i` moved.
  pub handed_moves :
      (q : Place) (k : ℕ)
      → total n (handed_kid t (store w.place i q) k) + (if kid t k i then handed (w.place i) else 0)
        ≡ total n (handed_kid t w.place k) + (if kid t k i then handed q else 0)
  handed_moves q k = total-at (λ j x. if kid t k j then handed x else 0) n w.place i q low

  pub handed-store :
      (q : Place)
      → handed q ≡ handed (w.place i)
      → (k : ℕ) → total n (handed_kid t (store w.place i q) k) ≡ total n (handed_kid t w.place k)
  handed-store q same k =
      let moves = handed_moves q k in
      let e : (if kid t k i then handed (w.place i) else 0) ≡ (if kid t k i then handed q else 0) =
        ap (λ x. if kid t k i then x else 0) (sym same) in
      omega arith

  pub through-store :
      (q : Place)
      → handed (w.place i) ≤ handed q
      → past q ≡ past (w.place i)
      → (k j : ℕ) → k < n
      → j < n
      → past (store w.place i q k) ≡ true
      → kid t k j ≡ true
      → handed (store w.place i q j) ≡ 1
  through-store q more same k j k_low j_low p child =
      let old =
        sound.through k j k_low j_low (sym (place-store past w.place i q same k) ∙ p) child in
      elim (ℕ_discrete i j) [
        | yes e ↦
            let at : store w.place i q j ≡ q =
              ap (store w.place i q) (sym e) ∙ store_self w.place i q in
            let was : handed (w.place i) ≡ 1 = rw e old in
            let most = handed_small q in rw at (omega arith)
        | no ne ↦ ap handed (store_at w.place i q j ne) ∙ old
      ]

  -- A move that gives nobody a sum.
  pub front-store :
      (q : Place) → done q ≡ done (w.place i) → (j : ℕ) → front t (goes i q w) j ≡ front t w j
  front-store q same j =
      ap
        (λ b.
          if b && not (parent_done (store w.place i q) (t j).parent) then (w.nodes j).sum else 0)
        (place-store done w.place i q same j)
      ∙ ap (λ b. if done (w.place j) && not b then (w.nodes j).sum else 0)
          (parent_done-store w.place i q same (t j).parent)

  pub counted-store :
      (q : Place) → done q ≡ done (w.place i) → (j : ℕ) → counted t (goes i q w) j ≡ counted t w j
  counted-store q same j =
      ap (λ b. if b then (t j).value else 0) (place-store done w.place i q same j)

  pub sums-store :
      (q : Place)
      → done q ≡ done (w.place i)
      → total n (front t (goes i q w)) ≡ total n (counted t (goes i q w))
  sums-store q same =
      total-eq n (front t (goes i q w)) (front t w) (λ j p. front-store q same j)
      ∙ sound.sums
      ∙ sym (total-eq n (counted t (goes i q w)) (counted t w) (λ j p. counted-store q same j))

  pub inner-store :
      (q : Place)
      → (is_gathering q ≡ true → 0 < (t i).children)
      → (k : ℕ) → k < n
      → is_gathering (store w.place i q k) ≡ true
      → 0 < (t k).children
  inner-store q own k k_low g = elim (ℕ_discrete i k) [
    | yes e ↦
        rw (← e) (
          own (sym (ap is_gathering (ap (store w.place i q) (sym e) ∙ store_self w.place i q)) ∙ g))
    | no ne ↦ sound.inner k k_low (sym (ap is_gathering (store_at w.place i q k ne)) ∙ g)
  ]

  -- A parent that waits has children only, and children are not their own parents.
  pub kid_self : (k : ℕ) → kid t k i ≡ true → k ≢ i
  kid_self k child = (tree.parents i k low (has_parent-some (t i).parent k child)).1

  pub has_kids : (j : ℕ) → j < n → kid t i j ≡ true → 0 < (t i).children
  has_kids j j_low child =
      let kids = tree.kids i low in
      let one = le-total n (λ k. bit (kid t i k)) j j_low in
      let b : bit (kid t i j) ≡ 1 = ap bit child in omega arith

  pub goes_gathering :
      w.place i ≡ fresh → 0 < (t i).children → Sound n t (goes i gathering (arrive i w))
  goes_gathering here some_child = record {
    same = sound.same;
    counts = λ k k_low inner.
        let old = sound.counts k k_low inner in
        let total_same = handed-store gathering (ap handed (sym here)) k in
        elim (ℕ_discrete i k) [
          | yes e ↦
              let v : store w.waiting i (w.waiting i + 1) k ≡ w.waiting k + 1 = ground arith in
              let now : came (store w.place i gathering k) ≡ 1 =
                ap came (ap (store w.place i gathering) (sym e) ∙ store_self w.place i gathering) in
              let before : came (w.place k) ≡ 0 = ap came (ap w.place (sym e) ∙ here) in omega arith
          | no ne ↦
              let v : store w.waiting i (w.waiting i + 1) k ≡ w.waiting k = ground arith in
              let now : came (store w.place i gathering k) ≡ came (w.place k) =
                ap came (store_at w.place i gathering k ne) in
              omega arith
        ];
    inner = inner-store gathering (λ e. some_child);
    through = through-store gathering (omega (arith, ap handed here)) (ap past (sym here));
    sums = sums-store gathering (ap done (sym here));
  }

  -- A barrier that is full has all the children.
  pub all_handed :
      w.place i ≡ gathering
      → is_open i w ≡ true
      → (j : ℕ) → j < n
      → kid t i j ≡ true
      → handed (w.place j) ≡ 1
  all_handed here full j j_low child =
      let inner = has_kids j j_low child in
      let count = sound.counts i low inner in
      let one : came (w.place i) ≡ 1 = ap came here in
      let filled : w.waiting i ≡ 1 + (w.nodes i).children = ground arith in
      let kids = tree.kids i low in
      let as_many = (sound.same i).1 in
      let few : (k : ℕ) → k < n → handed_kid t w.place i k ≤ bit (kid t i k) =
        λ k p. let small = handed_small (w.place k) in ground arith in
      let each =
        total-squeeze n (handed_kid t w.place i) (λ k. bit (kid t i k)) few (omega arith) j j_low in
      let this : handed_kid t w.place i j ≡ handed (w.place j) =
        ap (λ b. if b then handed (w.place j) else 0) child in
      sym this ∙ each ∙ ap bit child

  pub goes_adding : w.place i ≡ gathering → is_open i w ≡ true → Sound n t (goes i adding w)
  goes_adding here full =
      let all = all_handed here full in
      record {
        same = sound.same;
        counts = λ k k_low has.
            let old = sound.counts k k_low has in
            let total_same = handed-store adding (ap handed (sym here)) k in
            let now = place-store came w.place i adding (ap came (sym here)) k in omega arith;
        inner = inner-store adding (λ e. absurd (false≢true e));
        through = λ k j k_low j_low p child.
            place-store handed w.place i adding (ap handed (sym here)) j ∙ elim (ℕ_discrete i k) [
              | yes e ↦ all j j_low (ap (λ y. kid t y j) e ∙ child)
              | no ne ↦
                  sound.through k j k_low j_low (sym (ap past (store_at w.place i adding k ne)) ∙ p)
                    child
            ];
        sums = sums-store adding (ap done (sym here));
      }

  pub goes_handing :
      (p : ℕ) → w.place i ≡ summed → (t i).parent ≡ some p → Sound n t (goes i handing (arrive p w))
  goes_handing p here up = record {
    same = sound.same;
    counts = λ k k_low inner.
        let old = sound.counts k k_low inner in
        let moves = handed_moves handing k in
        let none_before : (if kid t k i then handed (w.place i) else 0) ≡ 0 =
          ap (λ y. if kid t k i then handed y else 0) here ∙ if_zero (kid t k i) in
        let now = place-store came w.place i handing (ap came (sym here)) k in
        let mine : kid t k i ≡ (p == k) = ap (λ o. has_parent o k) up in
        elim (Bool-cases (p == k)) [
          | inl e ↦
              let v : store w.waiting p (w.waiting p + 1) k ≡ w.waiting k + 1 = ground arith in
              let more : (if kid t k i then handed handing else 0) ≡ 1 =
                ap (λ b. if b then 1 else 0) (mine ∙ e) in
              omega arith
          | inr e ↦
              let v : store w.waiting p (w.waiting p + 1) k ≡ w.waiting k =
                ap (λ b. if b then w.waiting p + 1 else w.waiting k) e in
              let more : (if kid t k i then handed handing else 0) ≡ 0 =
                ap (λ b. if b then 1 else 0) (mine ∙ e) in
              omega arith
        ];
    inner = inner-store handing (λ e. absurd (false≢true e));
    through = through-store handing (omega (arith, ap handed here)) (ap past (sym here));
    sums = sums-store handing (ap done (sym here));
  }

  pub goes_finished :
      done (w.place i) ≡ true
      → ((k : ℕ) → (if kid t k i then handed (w.place i) else 0) ≡ (if kid t k i then 1 else 0))
      → Sound n t (goes i finished w)
  goes_finished is_done unseen = record {
    same = sound.same;
    counts = λ k k_low inner.
        let old = sound.counts k k_low inner in
        let moves = handed_moves finished k in
        let as_before = unseen k in
        let now = place-store came w.place i finished (sym (done-came (w.place i) is_done)) k in
        omega arith;
    inner = inner-store finished (λ e. absurd (false≢true e));
    through =
        through-store finished (handed_small (w.place i)) (sym (done-past (w.place i) is_done));
    sums = sums-store finished (sym is_done);
  }
