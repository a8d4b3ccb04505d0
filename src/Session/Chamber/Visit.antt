-- ===== src/Session/Chamber/Visit.antt =====
-- Assignment_06/session.c: the state between the visits and during one.
use mathlib.Core.List.{append_assoc}
use os_lab_spr.Base.{
  ℕ, suc, ◌+◌, ◌≡◌, refl, sym, ap, ◌∙◌, inl, inr, true, false, ◌&&◌, ◌==◌, ltb, if◌then◌else◌,
  store, pos, eqb_ℤ, arith, Bool-cases, List, [], ◌∷◌, ◌++◌,
}
use os_lab_spr.Session.Chamber.{
  coming, Desk, calling, counting, signalling, finishing, dismissing, joining, ended, Clinic,
  Summons, AllTimed, put_visitor, wake,
}
use os_lab_spr.Session.Chamber.Stages.{
  Stage, idle, finished, at, done_at, suits, suits-wake, suits-before, outside-before, outside,
}
use os_lab_spr.Session.Chamber.Places.{stands, Placed, stands-wake, placed-wake}

-- How often line `l` is called.
abbrev pub times : ℕ → List Summons → ℕ
times l [] = 0
times l (k ∷ ks) = if k.line == l then suc (times l ks) else times l ks

times-append :
    (l : ℕ) (ks : List Summons) (k : Summons)
    → times l (ks ++ k ∷ []) ≡ store (λ i. times i ks) k.line (times k.line ks + 1) l
times-append l [] k = ground arith
times-append l (x ∷ ks) k = ground (arith, times-append l ks k)

-- The calls made and those that are left.
abbrev pub Counted : List Summons → List Summons → (ℕ → ℕ) → Type 0
Counted calls rest current =
    (made : List Summons) × (calls ≡ made ++ rest)
    × ((l : ℕ) → current l ≡ times l made)
    × AllTimed rest

pub Counted-next :
    (calls : List Summons) (k : Summons) (rest : List Summons) (current : ℕ → ℕ)
    → Counted calls (k ∷ rest) current
    → Counted calls rest (store current k.line (current k.line + 1))
Counted-next calls k rest current c = (
  c.0 ++ k ∷ [],
  c.1 ∙ sym (append_assoc c.0 (k ∷ []) rest),
  λ l. ground (arith, c.2 l, c.2 k.line, times-append l c.0 k),
  c.3.1,
)

-- No visitor is called, and the stage of the doctor is `g`.
pub record Calm (g : Stage) (s : Clinic) : Type 0 where
  pub keeps : s ≡ at g s
  pub placed : Placed (λ _ _. false) s

-- One visitor is called, who may be anywhere that suits the stage.
pub record Busy (s : Clinic) : Type 0 where
  pub stage : Stage
  pub line : ℕ
  pub last : ℕ
  pub keeps : s ≡ at stage s
  pub called : s.current line ≡ last + 1
  pub fits : suits stage (s.visitor line last) ≡ true
  pub placed : Placed (λ l j. line == l && last == j) s

abbrev pub Visits : List Summons → Desk → Clinic → Type 0
Visits calls (calling rest) s = Calm idle s × Counted calls rest s.current
Visits calls (counting k rest) s =
    ((g : Stage) × Calm g s × (suits g coming ≡ true)) × Counted calls (k ∷ rest) s.current
Visits calls (signalling k rest) s =
    Busy s × Counted calls rest s.current × (eqb_ℤ k.time (pos 0) ≡ false)
Visits calls (finishing rest) s = Busy s × Counted calls rest s.current
Visits calls dismissing s = Unit {0}
Visits calls joining s = Unit {0}
Visits calls ended s = Unit {0}

-- The assistant counts: the next of the line is called.
pub Busy-next :
    (g : Stage) (c : Summons) (rest : List Summons) (s : Clinic)
    → Calm g s
    → suits g coming ≡ true
    → Busy (record s {
      current = store s.current c.line (s.current c.line + 1);
      desk = signalling c rest;
    })
Busy-next g c rest s v e =
    let k : ℕ = c.line in
    record {
      stage = g;
      line = k;
      last = s.current k;
      keeps =
          let counted : Clinic → Clinic = λ t. record t {
            current = store s.current k (s.current k + 1);
            desk = signalling c rest;
          } in
          ap counted v.keeps;
      called = ground arith;
      fits =
          let here : outside (s.visitor k (s.current k)) ≡ true =
            let self : ltb (s.current k) (s.current k) ≡ false = ground arith in
            ap (stands (s.visitor k (s.current k))) (sym self) ∙ v.placed k (s.current k) refl in
          suits-before g coming (s.visitor k (s.current k)) refl
            (outside-before (s.visitor k (s.current k)) here) e;
      placed = λ l j apart.
          let same : ltb j (store s.current k (s.current k + 1) l) ≡ ltb j (s.current l) =
            elim (Bool-cases (k == l)) [
              | inl e' ↦
                  let line : k ≡ l = ground arith in
                  let size : s.current k ≡ s.current l = ap s.current line in
                  ground (arith, size, apart)
              | inr e' ↦ ground (arith, e')
            ] in
          ap (stands (s.visitor l j)) same ∙ v.placed l j refl;
    }

pub Busy-wake :
    (k w : ℕ) (rest : List Summons) (s : Clinic)
    → Busy s
    → Busy (record s {
      visitor = put_visitor s.visitor k w (wake (s.visitor k w));
      desk = finishing rest;
    })
Busy-wake k w rest s v = record {
  stage = v.stage;
  line = v.line;
  last = v.last;
  keeps =
      let woken : Clinic → Clinic = λ t. record t {
        visitor = put_visitor s.visitor k w (wake (s.visitor k w));
        desk = finishing rest;
      } in
      ap woken v.keeps;
  called = v.called;
  fits = placed-wake (suits v.stage) (suits-wake v.stage) s.visitor k w v.line v.last v.fits;
  placed = λ l j apart.
      placed-wake (λ p. stands p (ltb j (s.current l))) (λ p. stands-wake p (ltb j (s.current l)))
        s.visitor k w l j (v.placed l j apart);
}

-- The doctor is done, and the visitor who was called is gone.
pub Calm-done :
    (rest : List Summons) (s : Clinic)
    → (v : Busy s) → s.doctor_done ≡ true
    → Calm idle (record s { doctor_done = false; desk = calling rest })
Calm-done rest s v e =
    let over : v.stage ≡ finished = done_at v.stage (sym (ap (λ t. t.doctor_done) v.keeps) ∙ e) in
    record {
      keeps =
          let goes : Clinic → Clinic = λ t. record t { doctor_done = false; desk = calling rest } in
          ap goes (v.keeps ∙ ap (λ g. at g s) over);
      placed = λ l j all. elim (Bool-cases (v.line == l && v.last == j)) [
        | inr h ↦ v.placed l j h
        | inl h ↦
            let line : l ≡ v.line = ground arith in
            let token : j ≡ v.last = ground arith in
            let counted : ltb v.last (s.current v.line) ≡ true = ground (arith, v.called) in
            ap (λ z. stands (s.visitor z j) (ltb j (s.current z))) line
            ∙ ap (λ z. stands (s.visitor v.line z) (ltb z (s.current v.line))) token
            ∙ ap (stands (s.visitor v.line v.last)) counted
            ∙ ap (λ g. suits g (s.visitor v.line v.last)) (sym over)
            ∙ v.fits
      ];
    }
