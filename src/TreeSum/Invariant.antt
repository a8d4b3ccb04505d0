-- ===== src/TreeSum/Invariant.antt =====
-- Assignment_07/computesum.c: what stays true of the nodes, the barriers and the threads.
use os_lab_spr.Base.{
  ℕ, zero, suc, ◌+◌, ◌<◌, ◌≡◌, ◌≢◌, refl, ap, ◌∙◌, Bool, true, false, not, ◌&&◌, if◌then◌else◌,
  store, bit, arith, Option, none, some, store_self, ℕ_discrete, total, total-eq, total-null,
  total-zero, total-suc,
}
use mathlib.Core.Bool.{false≢true}
use os_lab_spr.TreeSum.{
  TreeNode, Work, Place, fresh, gathering, summed, handing, finished, begin, has_parent,
  add_children,
}

-- A thread has its sum, has called wait at its own barrier, has come past it, at its parent's barrier.
abbrev pub done : Place → Bool
done summed = true
done handing = true
done finished = true
done _ = false

abbrev pub came : Place → ℕ
came fresh = 0
came _ = 1

abbrev pub past : Place → Bool
past fresh = false
past gathering = false
past _ = true

abbrev pub handed : Place → ℕ
handed handing = 1
handed finished = 1
handed _ = 0

abbrev pub is_gathering : Place → Bool
is_gathering gathering = true
is_gathering _ = false

abbrev pub kid : (ℕ → TreeNode) → ℕ → ℕ → Bool
kid t i j = has_parent (t j).parent i

-- The counts of children are right, parents are nodes of the tree, and one node has none.
pub record IsTree (n : ℕ) (t : ℕ → TreeNode) (root : ℕ) : Type 0 where
  pub kids : (i : ℕ) → i < n → (t i).children ≡ total n (λ j. bit (kid t i j))
  pub parents : (j p : ℕ) → j < n → (t j).parent ≡ some p → (p < n) × (p ≢ j)
  pub rooted : (root < n) × ((t root).parent ≡ none)
  pub one_root : (j : ℕ) → j < n → (t j).parent ≡ none → j ≡ root

abbrev pub parent_done : (ℕ → Place) → Option ℕ → Bool
parent_done place none = false
parent_done place (some p) = done (place p)

-- The sums that no parent has added yet, and the values that are in them.
abbrev pub front : (ℕ → TreeNode) → Work → ℕ → ℕ
front t w j =
    if done (w.place j) && not (parent_done w.place (t j).parent) then (w.nodes j).sum else 0

abbrev pub counted : (ℕ → TreeNode) → Work → ℕ → ℕ
counted t w j = if done (w.place j) then (t j).value else 0

abbrev pub handed_kid : (ℕ → TreeNode) → (ℕ → Place) → ℕ → ℕ → ℕ
handed_kid t place i j = if kid t i j then handed (place j) else 0

pub record Sound (n : ℕ) (t : ℕ → TreeNode) (w : Work) : Type 0 where
  pub same :
      (j : ℕ)
      → ((w.nodes j).parent ≡ (t j).parent)
        × ((w.nodes j).children ≡ (t j).children)
        × ((w.nodes j).value ≡ (t j).value)
  pub counts :
      (i : ℕ)
      → i < n
      → 0 < (t i).children
      → w.waiting i ≡ came (w.place i) + total n (handed_kid t w.place i)
  pub inner : (i : ℕ) → i < n → is_gathering (w.place i) ≡ true → 0 < (t i).children
  pub through :
      (i j : ℕ)
      → i < n
      → j < n
      → past (w.place i) ≡ true
      → kid t i j ≡ true
      → handed (w.place j) ≡ 1
  pub sums : total n (front t w) ≡ total n (counted t w)

pub if_zero : (b : Bool) → ◌≡◌ {A = ℕ} (if b then 0 else 0) 0
if_zero true = refl
if_zero false = refl

pub begin-Sound : (n : ℕ) (t : ℕ → TreeNode) → Sound n t (begin t)
begin-Sound n t = record {
  same = λ j. (refl, refl, refl);
  counts = λ i low some_child.
      omega (arith, total-null n (handed_kid t (λ _. fresh) i) (λ j p. if_zero (kid t i j)));
  inner = λ i low off. absurd (false≢true off);
  through = λ i j p q off k. absurd (false≢true off);
  sums = total-eq n (front t (begin t)) (counted t (begin t)) (λ j p. refl);
}

-- What the loop of a node adds.
pub add_children_lem :
    (m : ℕ) (nodes : ℕ → TreeNode) (k acc : ℕ)
    → add_children m nodes k acc
      ≡ acc + total m (λ j. if has_parent (nodes j).parent k then (nodes j).sum else 0)
unfolding add_children
add_children_lem zero nodes k acc =
    omega (arith, total-zero (λ j. if has_parent (nodes j).parent k then (nodes j).sum else 0))
add_children_lem (suc m) nodes k acc = omega (
  arith,
  add_children_lem m nodes k acc,
  total-suc m (λ j. if has_parent (nodes j).parent k then (nodes j).sum else 0),
)

-- A flag of the places after one thread moved.
pub place-store :
    {A : Type 0} (f : Place → A) (place : ℕ → Place) (i : ℕ) (q : Place)
    → f q ≡ f (place i)
    → (j : ℕ) → f (store place i q j) ≡ f (place j)
place-store f place i q same j = elim (ℕ_discrete i j) [
  | yes e ↦ rw (← e) (ap f (store_self place i q) ∙ same)
  | no ne ↦ let at : store place i q j ≡ place j = ground arith in ap f at
]
