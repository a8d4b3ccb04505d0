-- ===== src/TreeSum/Adding.antt =====
-- Assignment_07/computesum.c: the step that gives a node its sum.
use os_lab_spr.Base.{
  ℕ, ◌+◌, ◌<◌, ◌≡◌, inl, inr, ◌≢◌, refl, sym, ap, ◌∙◌, Bool, true, false, not, ◌&&◌, ◌==◌,
  if◌then◌else◌, store, arith, Bool-cases, Option, none, some, store_self, ℕ_discrete, total,
  total-eq, total-plus, total-single,
}
use mathlib.Core.Bool.{false≢true}
use os_lab_spr.TreeSum.{TreeNode, Work, summed, has_parent, set_sum, goes}
use os_lab_spr.TreeSum.Invariant.{
  done, came, past, handed, kid, IsTree, parent_done, front, counted, Sound, place-store,
}
use os_lab_spr.TreeSum.Places.{
  store_at, handed-done, done-past, ==_self, undone-handed, has_parent-some,
}
use os_lab_spr.TreeSum.Moves.{handed-store, inner-store, kid_self}

abbrev pub weight : Bool → Bool → ℕ → ℕ
weight d u s = if d && not u then s else 0

weight_added : (d : Bool) (s : ℕ) → weight d true s ≡ 0
weight_added true s = refl
weight_added false s = refl

pub front_lem :
    (t : ℕ → TreeNode) (w : Work) (j : ℕ) (d u : Bool) (s : ℕ)
    → done (w.place j) ≡ d
    → parent_done w.place (t j).parent ≡ u
    → (w.nodes j).sum ≡ s
    → front t w j ≡ weight d u s
front_lem t w j d u s e f g = rw (e, f, g) refl

set_sum_keeps :
    (i x : ℕ) (nodes : ℕ → TreeNode) (j : ℕ)
    → ((set_sum i x nodes j).parent ≡ (nodes j).parent)
      × ((set_sum i x nodes j).children ≡ (nodes j).children)
      × ((set_sum i x nodes j).value ≡ (nodes j).value)
set_sum_keeps i x nodes j = elim (ℕ_discrete i j) [
  | yes e ↦ rw e (rw (store_self nodes j (record (nodes j) { sum = x })) (refl, refl, refl))
  | no ne ↦ rw (store_at nodes i (record (nodes i) { sum = x }) j ne) (refl, refl, refl)
]

-- The thread gets its sum, `x`.
module _ (n : ℕ) (t : ℕ → TreeNode) (root : ℕ) (tree : IsTree n t root) (w : Work)
    (sound : Sound n t w) (i : ℕ) (low : i < n) (x : ℕ) (off : done (w.place i) ≡ false)
    (adds : x ≡ (t i).value + total n (λ j. if kid t i j then (w.nodes j).sum else 0))
    (all : (j : ℕ) → j < n → kid t i j ≡ true → handed (w.place j) ≡ 1)
    (inner_came : 0 < (t i).children → came (w.place i) ≡ 1) where
  abbrev after : Work
  after = goes i summed (record w { nodes = set_sum i x w.nodes })

  -- The parent cannot have its sum, or the thread would be at its barrier.
  parent_not_done : (o : Option ℕ) → (t i).parent ≡ o → parent_done w.place o ≡ false
  parent_not_done none e = refl
  parent_not_done (some p) e = elim (Bool-cases (done (w.place p))) [
    | inr d ↦ d
    | inl d ↦
        let here = undone-handed (w.place i) off in
        let child : kid t p i ≡ true = ap (λ o. has_parent o p) e ∙ ==_self p in
        let there =
          sound.through p i (tree.parents i p low e).0 low (done-past (w.place p) d) child in
        absurd (omega arith)
  ]

  parent_done_here :
      (o : Option ℕ) → (t i).parent ≡ o → parent_done (store w.place i summed) o ≡ false
  parent_done_here none e = refl
  parent_done_here (some p) e =
      ap done (store_at w.place i summed p (λ s. (tree.parents i p low e).1 (sym s)))
      ∙ parent_not_done (some p) e

  same_parent_done :
      (j : ℕ)
      → kid t i j ≡ false
      → (o : Option ℕ) → (t j).parent ≡ o
      → parent_done (store w.place i summed) o ≡ parent_done w.place o
  same_parent_done j other none e = refl
  same_parent_done j other (some p) e =
      let ne : i ≢ p =
        λ s. false≢true (sym other ∙ ap (λ o. has_parent o i) e ∙ ap (λ y. p == y) s ∙ ==_self p) in
      ap done (store_at w.place i summed p ne)

  abbrev kid_sum : ℕ → ℕ
  kid_sum j = if kid t i j then (w.nodes j).sum else 0

  front_here : front t after i + kid_sum i ≡ front t w i + x
  front_here =
      let now =
        front_lem t after i true false x (ap done (store_self w.place i summed))
          (parent_done_here (t i).parent refl)
          (ap (λ k. k.sum) (store_self w.nodes i (record (w.nodes i) { sum = x }))) in
      let before =
        front_lem t w i false (parent_done w.place (t i).parent) (w.nodes i).sum off refl refl in
      let none_own : kid_sum i ≡ 0 = elim (Bool-cases (kid t i i)) [
        | inl e ↦ absurd (kid_self n t root tree w sound i low i e refl)
        | inr e ↦ ap (λ b. if b then (w.nodes i).sum else 0) e
      ] in
      omega arith

  front-kid : (j : ℕ) → j < n → i ≢ j → kid t i j ≡ true → front t after j + kid_sum j ≡ front t w j
  front-kid j j_low ne child =
      let up = has_parent-some (t j).parent i child in
      let now =
        front_lem t after j (done (w.place j)) true (w.nodes j).sum
          (ap done (store_at w.place i summed j ne))
          (ap (parent_done (store w.place i summed)) up ∙ ap done (store_self w.place i summed))
          (ap (λ k. k.sum) (store_at w.nodes i (record (w.nodes i) { sum = x }) j ne)) in
      let before =
        front_lem t w j true false (w.nodes j).sum (handed-done (w.place j) (all j j_low child))
          (ap (parent_done w.place) up ∙ off) refl in
      let added = weight_added (done (w.place j)) (w.nodes j).sum in
      let its : kid_sum j ≡ (w.nodes j).sum = ap (λ b. if b then (w.nodes j).sum else 0) child in
      omega arith

  front_other : (j : ℕ) → i ≢ j → kid t i j ≡ false → front t after j + kid_sum j ≡ front t w j
  front_other j ne other =
      let now =
        front_lem t after j (done (w.place j)) (parent_done w.place (t j).parent) (w.nodes j).sum
          (ap done (store_at w.place i summed j ne)) (same_parent_done j other (t j).parent refl)
          (ap (λ k. k.sum) (store_at w.nodes i (record (w.nodes i) { sum = x }) j ne)) in
      let its : kid_sum j ≡ 0 = ap (λ b. if b then (w.nodes j).sum else 0) other in omega arith

  front_at : (j : ℕ) → j < n → front t after j + kid_sum j ≡ front t w j + (if i == j then x else 0)
  front_at j j_low = elim (ℕ_discrete i j) [
    | yes e ↦
        let at : (if i == i then x else 0) ≡ x = ap (λ b. if b then x else 0) (==_self i) in
        rw (← e) (front_here ∙ ap (λ y. front t w i + y) (sym at))
    | no ne ↦
        let f : (i == j) ≡ false = ground arith in
        let at : (if i == j then x else 0) ≡ 0 = ap (λ b. if b then x else 0) f in
        elim (Bool-cases (kid t i j)) [
          | inl child ↦ omega (arith, front-kid j j_low ne child)
          | inr other ↦ omega (arith, front_other j ne other)
        ]
  ]

  counted_at : (j : ℕ) → counted t after j ≡ counted t w j + (if i == j then (t i).value else 0)
  counted_at j = elim (ℕ_discrete i j) [
    | yes e ↦
        let at : (if i == i then (t i).value else 0) ≡ (t i).value =
          ap (λ b. if b then (t i).value else 0) (==_self i) in
        let now : counted t after i ≡ (t i).value =
          ap (λ p. if done p then (t i).value else 0) (store_self w.place i summed) in
        let before : counted t w i ≡ 0 = ap (λ b. if b then (t i).value else 0) off in
        let here : counted t after i ≡ counted t w i + (if i == i then (t i).value else 0) =
          omega arith in
        rw (← e) here
    | no ne ↦
        let f : (i == j) ≡ false = ground arith in
        let at : (if i == j then (t i).value else 0) ≡ 0 =
          ap (λ b. if b then (t i).value else 0) f in
        let now : counted t after j ≡ counted t w j =
          ap (λ p. if done p then (t j).value else 0) (store_at w.place i summed j ne) in
        omega arith
  ]

  pub goes_summed : Sound n t after
  goes_summed =
      let fronts =
        total-eq n (λ j. front t after j + kid_sum j) (λ j. front t w j + (if i == j then x else 0))
          front_at in
      let values =
        total-eq n (counted t after) (λ j. counted t w j + (if i == j then (t i).value else 0))
          (λ j p. counted_at j) in
      let f1 = total-plus n (front t after) kid_sum in
      let f2 = total-plus n (front t w) (λ j. if i == j then x else 0) in
      let f3 = total-plus n (counted t w) (λ j. if i == j then (t i).value else 0) in
      let s1 = total-single n i x low in
      let s2 = total-single n i (t i).value low in
      let old = sound.sums in
      record {
        same = λ j.
            let (a, b, c) = set_sum_keeps i x w.nodes j in
            let (d, e, f) = sound.same j in (a ∙ d, b ∙ e, c ∙ f);
        counts = λ k k_low inner.
            let before = sound.counts k k_low inner in
            let total_same =
              handed-store n t root tree w sound i low summed (sym (undone-handed (w.place i) off))
                k in
            elim (ℕ_discrete i k) [
              | yes e ↦
                  let now : came (store w.place i summed k) ≡ 1 =
                    ap came (ap (store w.place i summed) (sym e) ∙ store_self w.place i summed) in
                  let own : 0 < (t i).children = rw e inner in
                  let was : came (w.place k) ≡ 1 =
                    ap (λ y. came (w.place y)) (sym e) ∙ inner_came own in
                  omega arith
              | no ne ↦
                  let now : came (store w.place i summed k) ≡ came (w.place k) =
                    ap came (store_at w.place i summed k ne) in
                  omega arith
            ];
        inner = inner-store n t root tree w sound i low summed (λ e. absurd (false≢true e));
        through = λ k j k_low j_low p child.
            place-store handed w.place i summed (sym (undone-handed (w.place i) off)) j
            ∙ elim (ℕ_discrete i k) [
              | yes e ↦ all j j_low (ap (λ y. kid t y j) e ∙ child)
              | no ne ↦
                  sound.through k j k_low j_low (sym (ap past (store_at w.place i summed k ne)) ∙ p)
                    child
            ];
        sums = omega arith;
      }
