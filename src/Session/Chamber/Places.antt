-- ===== src/Session/Chamber/Places.antt =====
-- Assignment_06/session.c: where the visitors of each line stand by their tokens.
use mathlib.Core.Bool.{false≢true}
use mathlib.Core.Path.{subst}
use os_lab_spr.Base.{
  ℕ, ◌+◌, ◌≡◌, refl, sym, ap, ◌∙◌, ◌⊎◌, inl, inr, Bool, true, false, ◌&&◌, ◌==◌, ltb, if◌then◌else◌,
  arith, Bool-cases,
}
use os_lab_spr.Session.Chamber.{
  Visitor, coming, about, asleep, admitted, inside, gone, Clinic, put_visitor, wake, visitor_step,
  moves,
}
use os_lab_spr.Session.Chamber.Stages.{is_gone, outside}

-- A visitor who has been called is gone, and one who has not is outside.
abbrev pub stands : Visitor → Bool → Bool
stands p true = is_gone p
stands p false = outside p

-- All stand so but those of `except`.
abbrev pub Placed : (ℕ → ℕ → Bool) → Clinic → Type 0
Placed except s =
    (l j : ℕ) → except l j ≡ false → stands (s.visitor l j) (ltb j (s.current l)) ≡ true

pub Placed-moves :
    (except : ℕ → ℕ → Bool) (s : Clinic) (l j : ℕ) (q : Visitor)
    → stands q (ltb j (s.current l)) ≡ true
    → Placed except s
    → Placed except (moves l j q s)
Placed-moves except s l j q st v = λ l' j' apart. elim (Bool-cases (l == l' && j == j')) [
  | inl e ↦
      let line : l ≡ l' = ground arith in
      let token : j ≡ j' = ground arith in
      rw e (
        ap (λ z. stands q (ltb z (s.current l'))) (sym token)
        ∙ ap (λ z. stands q (ltb j (s.current z))) (sym line)
        ∙ st)
  | inr e ↦ rw e (v l' j' apart)
]

-- The signal wakes nobody up who is called already.
pub stands-wake : (p : Visitor) (b : Bool) → stands p b ≡ true → stands (wake p) b ≡ true
stands-wake asleep false e = refl
stands-wake asleep true e = absurd (false≢true e)
stands-wake coming b e = e
stands-wake about b e = e
stands-wake admitted b e = e
stands-wake inside b e = e
stands-wake gone b e = e

-- One who stands by the token stays so, and moves nobody else.
pub stands-step :
    (s : Clinic) (l j : ℕ) (p : Visitor)
    → stands p (ltb j (s.current l)) ≡ true
    → (visitor_step l j p s ≡ s)
      ⊎ ((q : Visitor) × (stands q (ltb j (s.current l)) ≡ true)
          × (visitor_step l j p s ≡ moves l j q s))
stands-step s l j coming e = elim (Bool-cases (ltb j (s.current l))) [
  | inl h ↦ absurd (false≢true (ap (stands coming) (sym h) ∙ e))
  | inr h ↦
      let early : (j + 1 == s.current l) ≡ false = ground arith in
      inr (
        about,
        ap (stands about) h,
        ap (λ b. if b then moves l j admitted s else moves l j about s) early,
      )
]
stands-step s l j about e = elim (Bool-cases (ltb j (s.current l))) [
  | inl h ↦ absurd (false≢true (ap (stands about) (sym h) ∙ e))
  | inr h ↦ inr (asleep, ap (stands asleep) h, refl)
]
stands-step s l j asleep e = inl refl
stands-step s l j admitted e = elim (Bool-cases (ltb j (s.current l))) [
  | inl h ↦ absurd (false≢true (ap (stands admitted) (sym h) ∙ e))
  | inr h ↦ absurd (false≢true (ap (stands admitted) (sym h) ∙ e))
]
stands-step s l j inside e = elim (Bool-cases (ltb j (s.current l))) [
  | inl h ↦ absurd (false≢true (ap (stands inside) (sym h) ∙ e))
  | inr h ↦ absurd (false≢true (ap (stands inside) (sym h) ∙ e))
]
stands-step s l j gone e = inl refl

pub visitor-desk :
    (s : Clinic) (l j : ℕ) (p : Visitor)
    → ((visitor_step l j p s).desk ≡ s.desk) × ((visitor_step l j p s).current ≡ s.current)
visitor-desk s l j coming = elim (Bool-cases (j + 1 == s.current l)) [
  | inl e ↦ rw e (refl, refl)
  | inr e ↦ rw e (refl, refl)
]
visitor-desk s l j about = (refl, refl)
visitor-desk s l j asleep = (refl, refl)
visitor-desk s l j admitted =
    let after : Bool → Clinic =
      λ b. if b then moves l j inside (record s { doctor_enter = false }) else s in
    elim (Bool-cases s.doctor_enter) [
      | inl e ↦
          subst (λ b. ((after b).desk ≡ s.desk) × ((after b).current ≡ s.current)) (sym e)
            (refl, refl)
      | inr e ↦
          subst (λ b. ((after b).desk ≡ s.desk) × ((after b).current ≡ s.current)) (sym e)
            (refl, refl)
    ]
visitor-desk s l j inside = (refl, refl)
visitor-desk s l j gone = (refl, refl)

-- The signal wakes one visitor, who may be any.
pub placed-wake :
    (f : Visitor → Bool)
    → ((p : Visitor) → f p ≡ true → f (wake p) ≡ true)
    → (v : ℕ → ℕ → Visitor) (k w l j : ℕ) → f (v l j) ≡ true
    → f (put_visitor v k w (wake (v k w)) l j) ≡ true
placed-wake f closed v k w l j e = elim (Bool-cases (k == l && w == j)) [
  | inl h ↦
      let line : l ≡ k = ground arith in
      let token : j ≡ w = ground arith in
      rw h (closed (v k w) (ap (λ z. f (v k z)) (sym token) ∙ ap (λ z. f (v z j)) (sym line) ∙ e))
  | inr h ↦ rw h e
]
