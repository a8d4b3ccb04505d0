-- ===== src/TreeSum/Places.antt =====
-- Assignment_07/computesum.c: where a thread is, and what a step changes.
use os_lab_spr.Base.{
  ℕ, ◌≤◌, ◌≡◌, ◌≢◌, refl, sym, ap, ◌∙◌, true, false, ◌==◌, store, arith, Option, none, some,
  ℕ_discrete,
}
use mathlib.Core.Bool.{false≢true}
use os_lab_spr.TreeSum.{Place, fresh, gathering, adding, summed, handing, finished, has_parent}
use os_lab_spr.TreeSum.Invariant.{done, came, past, handed, parent_done, place-store}

pub store_at : {A : Type 0} (a : ℕ → A) (i : ℕ) (x : A) (j : ℕ) → i ≢ j → store a i x j ≡ a j
store_at a i x j ne = ground arith

pub handed_small : (p : Place) → handed p ≤ 1
handed_small fresh = omega arith
handed_small gathering = omega arith
handed_small adding = omega arith
handed_small summed = omega arith
handed_small handing = omega arith
handed_small finished = omega arith

-- How the flags of a place hang together.
pub handed-done : (p : Place) → handed p ≡ 1 → done p ≡ true
handed-done handing h = refl
handed-done finished h = refl
handed-done fresh h = absurd (omega arith)
handed-done gathering h = absurd (omega arith)
handed-done adding h = absurd (omega arith)
handed-done summed h = refl

pub done-past : (p : Place) → done p ≡ true → past p ≡ true
done-past handing h = refl
done-past finished h = refl
done-past summed h = refl
done-past adding h = refl
done-past fresh h = absurd (false≢true h)
done-past gathering h = absurd (false≢true h)

pub done-came : (p : Place) → done p ≡ true → came p ≡ 1
done-came handing h = refl
done-came finished h = refl
done-came summed h = refl
done-came adding h = refl
done-came fresh h = absurd (false≢true h)
done-came gathering h = refl

pub ==_self : (p : ℕ) → (p == p) ≡ true
==_self p = ground arith

pub undone-handed : (p : Place) → done p ≡ false → handed p ≡ 0
undone-handed p h = elim (ℕ_discrete (handed p) 1) [
  | yes e ↦ absurd (false≢true (sym h ∙ handed-done p e))
  | no ne ↦ let small = handed_small p in omega arith
]

pub has_parent-some : (o : Option ℕ) (k : ℕ) → has_parent o k ≡ true → o ≡ some k
has_parent-some none k h = absurd (false≢true h)
has_parent-some (some p) k h = let e : p ≡ k = ground arith in ap some e

pub parent_done-store :
    (place : ℕ → Place) (i : ℕ) (q : Place)
    → done q ≡ done (place i)
    → (o : Option ℕ) → parent_done (store place i q) o ≡ parent_done place o
parent_done-store place i q same none = refl
parent_done-store place i q same (some p) = place-store done place i q same p
