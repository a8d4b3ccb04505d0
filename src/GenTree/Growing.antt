-- ===== src/GenTree/Growing.antt =====
-- Assignment_07/gentree.c: the loop gives every node but the first of PERM a parent that stands earlier.
use native.Mathlib.Nat.{mod-lt, zero-add}
use mathlib.Core.Path.{subst}
use os_lab_spr.Base.{
  ℕ, zero, suc, ◌+◌, ◌-◌, ◌%◌, ◌≤◌, ◌<◌, ◌≡◌, refl, sym, ap, ◌∙◌, inl, inr, false, ◌==◌, ltb,
  if◌then◌else◌, store, store_self, arith, Bool-cases, ℕ_discrete, some, ◌>>=◌,
}
use os_lab_spr.Shuffle.{shuffled, IsPerm, shuffled-IsPerm, same_place}
use os_lab_spr.GenTree.{Growth, family, adopt, adopt_all, raise_family, grow, print_lines, gentree}

module _ (n : ℕ) (perm : ℕ → ℕ) (v : IsPerm n perm) where
  -- The places of PERM up to `nextchild` have their parents, earlier ones, and `remaining` are left.
  pub record Grown (left : ℕ) (g : Growth) : Type 0 where
    pub count : g.nextchild + left + 1 ≡ n
    pub behind : g.nextparent ≤ g.nextchild
    pub root : g.parents (perm 0) ≡ perm 0
    pub chosen :
        (c : ℕ) → 0 < c → c ≤ g.nextchild → (q : ℕ) × (q < c) × (g.parents (perm c) ≡ perm q)

  adopt-Grown : (left : ℕ) (g : Growth) → Grown (suc left) g → Grown left (adopt perm g)
  adopt-Grown left g w = record {
    count = omega (arith, w.count);
    behind = omega (arith, w.behind);
    root =
        let new : (perm (g.nextchild + 1) == perm 0) ≡ false =
          same_place n perm (g.nextchild + 1) 0 v (omega (arith, w.count)) (omega (arith, w.count))
          ∙ ground arith in
        rw new w.root;
    chosen = λ c pos h. elim (ℕ_discrete (g.nextchild + 1) c) [
      | yes e ↦ (
        g.nextparent,
        omega (arith, w.behind),
        ap (λ z. store g.parents (perm (g.nextchild + 1)) (perm g.nextparent) (perm z)) (sym e)
            ∙ store_self g.parents (perm (g.nextchild + 1)) (perm g.nextparent),
      )
      | no ne ↦
          let (q, less, at) = w.chosen c pos (omega arith) in
          let old : (perm (g.nextchild + 1) == perm c) ≡ false =
            same_place n perm (g.nextchild + 1) c v (omega (arith, w.count))
              (omega (arith, w.count))
            ∙ ground arith in
          (q, less, rw old at)
    ];
  }

  adopt_all-Grown : (t left : ℕ) (g : Growth) → Grown (t + left) g → Grown left (adopt_all perm t g)
  unfolding adopt_all
  adopt_all-Grown zero left g w = subst (λ l. Grown l g) (zero-add left) w
  adopt_all-Grown (suc t) left g w =
      adopt-Grown left (adopt_all perm t g)
        (adopt_all-Grown t (suc left) g (subst (λ l. Grown l g) (omega arith) w))

  adopt_all_lem :
      (t : ℕ) (g : Growth)
      → ((adopt_all perm t g).remaining ≡ g.remaining)
        × ((adopt_all perm t g).nextparent ≡ g.nextparent)
        × ((adopt_all perm t g).nextchild ≡ g.nextchild + t)
  unfolding adopt_all
  adopt_all_lem zero g = (refl, refl, omega arith)
  adopt_all_lem (suc t) g = let (rest, up, down) = adopt_all_lem t g in (rest, up, omega arith)

  family_bounds :
      (r : ℕ) (g : Growth)
      → 0 < g.remaining
      → (family r g ≤ g.remaining) × (g.nextchild ≡ g.nextparent → 0 < family r g)
  family_bounds r g more =
      let small : r % g.remaining < g.remaining = mod-lt r more in
      let five : r % 5 < 5 = omega arith in (ground arith, λ e. ground arith)

  -- The rest that a round leaves, and what stays true.
  raise_family-Grown :
      (r : ℕ) (g : Growth)
      → 0 < g.remaining
      → Grown g.remaining g
      → Grown (raise_family perm r g).remaining (raise_family perm r g)
        × ((raise_family perm r g).nextparent ≡ g.nextparent + 1)
  unfolding raise_family
  raise_family-Grown r g more w =
      let t : ℕ = family r g in
      let start : Growth = record g { remaining = g.remaining - t } in
      let (small, some_child) = family_bounds r g more in
      let (rest, up, down) = adopt_all_lem t start in
      let begun : Grown (t + (g.remaining - t)) start = record {
        count = omega (arith, w.count);
        behind = w.behind;
        root = w.root;
        chosen = w.chosen;
      } in
      let grown = adopt_all-Grown t (g.remaining - t) start begun in
      let ahead : g.nextparent + 1 ≤ g.nextchild + t = elim (ℕ_discrete g.nextchild g.nextparent) [
        | yes e ↦ let pos = some_child e in omega arith
        | no ne ↦ let b = w.behind in omega arith
      ] in
      (
        record {
          count = omega (arith, grown.count);
          behind = omega arith;
          root = grown.root;
          chosen = grown.chosen;
        },
        omega arith,
      )

  grow-Grown :
      (fuel : ℕ) (rand : ℕ → ℕ) (i : ℕ) (g : Growth)
      → Grown g.remaining g
      → n ≤ fuel + g.nextparent
      → (h : Growth) × (grow fuel perm rand i g ≡ some h) × Grown 0 h
  unfolding grow
  grow-Grown zero rand i g w enough = absurd (omega (arith, w.count, w.behind))
  grow-Grown (suc fuel) rand i g w enough = elim (Bool-cases (ltb 0 g.remaining)) [
    | inl e ↦
        let (next, up) = raise_family-Grown (rand i) g (ground arith) w in
        rw e (grow-Grown fuel rand (i + 1) (raise_family perm (rand i) g) next (omega arith))
    | inr e ↦ (
      g,
      ap (λ b. if b then grow fuel perm rand (i + 1) (raise_family perm (rand i) g) else some g) e,
      subst (λ l. Grown l g) (ground arith) w,
    )
  ]

-- The first of PERM is its own parent, and each other node has one that stands earlier.
pub record EarlierParents (n : ℕ) (perm : ℕ → ℕ) (parents : ℕ → ℕ) : Type 0 where
  pub root : parents (perm 0) ≡ perm 0
  pub chosen : (c : ℕ) → 0 < c → c < n → (q : ℕ) × (q < c) × (parents (perm c) ≡ perm q)

-- With fuel for the nodes the loop ends, and what it writes are the lines of such a tree.
pub gentree-EarlierParents :
    (fuel : ℕ) (rand : ℕ → ℕ) (n : ℕ) (memory : ℕ → ℕ)
    → 0 < n
    → n ≤ fuel
    → (parents : ℕ → ℕ) × (gentree fuel rand n memory ≡ some (print_lines parents 0 n))
      × EarlierParents n (shuffled rand n) parents
unfolding gentree
gentree-EarlierParents fuel rand n memory pos enough =
    let perm : ℕ → ℕ = shuffled rand n in
    let start : Growth = record {
      parents = store memory (perm 0) (perm 0);
      nextchild = 0;
      nextparent = 0;
      remaining = n - 1;
    } in
    let begun : Grown n perm (shuffled-IsPerm rand n) (n - 1) start = record {
      count = omega arith;
      behind = omega arith;
      root = store_self memory (perm 0) (perm 0);
      chosen = λ c p h. absurd (omega arith);
    } in
    let (h, e, w) =
      grow-Grown n perm (shuffled-IsPerm rand n) fuel (λ i. rand (n + i)) 0 start begun
        (omega arith) in
    (
      h.parents,
      ap (λ o. o >>= λ g. some (print_lines g.parents 0 n)) e,
      record { root = w.root; chosen = λ c p low. w.chosen c p (omega (arith, w.count)) },
    )
