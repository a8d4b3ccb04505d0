-- ===== src/Session/Chamber/Called.antt =====
-- Assignment_06/session.c: the steps of the visitor who is called, and of all others.
use mathlib.Core.Path.{subst}
use os_lab_spr.Base.{
  ℕ, ◌+◌, ◌≡◌, refl, sym, ap, ◌∙◌, inl, inr, Bool, true, false, ◌&&◌, ◌==◌, ltb, if◌then◌else◌,
  arith, Bool-cases,
}
use os_lab_spr.Session.Chamber.{
  Visitor, coming, about, asleep, admitted, inside, gone, Clinic, put_visitor, visitor_step, moves,
}
use os_lab_spr.Session.Chamber.Stages.{
  Stage, unlocked, within, met, at, enter_at, inside_at, suits, suits-before,
}
use os_lab_spr.Session.Chamber.Places.{stands, Placed-moves, stands-step}
use os_lab_spr.Session.Chamber.Visit.{Calm, Busy}

pub visitor-Calm :
    (g : Stage) (s : Clinic) (l j : ℕ) → Calm g s → Calm g (visitor_step l j (s.visitor l j) s)
visitor-Calm g s l j v = elim (stands-step s l j (s.visitor l j) (v.placed l j refl)) [
  | inl e ↦ subst (Calm g) (sym e) v
  | inr (q, stays, e) ↦ subst (Calm g) (sym e) (record {
    keeps = ap (moves l j q) v.keeps;
    placed = Placed-moves (λ _ _. false) s l j q stays v.placed;
  })
]

module _ (s : Clinic) (v : Busy s) where
  abbrev others : ℕ → ℕ → Bool
  others l j = v.line == l && v.last == j

  -- The visitor who is called goes on, and with it the stage.
  goes_on :
      (g : Stage) (q : Visitor) (t : Clinic)
      → t ≡ at g t
      → t.current ≡ s.current
      → t.visitor ≡ put_visitor s.visitor v.line v.last q
      → suits g q ≡ true
      → Busy t
  goes_on g q t keeps current visitor fits = record {
    stage = g;
    line = v.line;
    last = v.last;
    keeps = keeps;
    called = ap (λ c. c v.line) current ∙ v.called;
    fits =
        let self : (v.line == v.line && v.last == v.last) ≡ true = ground arith in
        ap (λ f. suits g (f v.line v.last)) visitor
        ∙ ap (λ b. suits g (if b then q else s.visitor v.line v.last)) self
        ∙ fits;
    placed = λ l j apart.
        ap (λ f. stands (f l j) (ltb j (t.current l))) visitor
        ∙ ap (λ b. stands (if b then q else s.visitor l j) (ltb j (t.current l))) apart
        ∙ ap (λ c. stands (s.visitor l j) (ltb j (c l))) current
        ∙ v.placed l j apart;
  }

  called-step : (p : Visitor) → s.visitor v.line v.last ≡ p → Busy (visitor_step v.line v.last p s)
  called-step coming e =
      let turn : (v.last + 1 == s.current v.line) ≡ true = ground (arith, v.called) in
      subst (λ b. Busy (if b then moves v.line v.last admitted s else moves v.line v.last about s))
        (sym turn)
        (goes_on v.stage admitted (moves v.line v.last admitted s)
          (ap (moves v.line v.last admitted) v.keeps) refl refl
          (suits-before v.stage coming admitted refl refl (ap (suits v.stage) (sym e) ∙ v.fits)))
  called-step about e =
      goes_on v.stage asleep (moves v.line v.last asleep s)
        (ap (moves v.line v.last asleep) v.keeps) refl refl
        (suits-before v.stage about asleep refl refl (ap (suits v.stage) (sym e) ∙ v.fits))
  called-step asleep e = v
  called-step admitted e =
      let entered : Clinic = moves v.line v.last inside (record s { doctor_enter = false }) in
      elim (Bool-cases s.doctor_enter) [
        | inl h ↦
            let open_door : v.stage ≡ unlocked =
              enter_at v.stage (sym (ap (λ t. t.doctor_enter) v.keeps) ∙ h) in
            subst (λ b. Busy (if b then entered else s)) (sym h)
              (goes_on within inside entered
                (ap
                  (λ t. record entered {
                    doctor_free = t.doctor_free;
                    doctor_met = t.doctor_met;
                    doctor_done = t.doctor_done;
                    session_done = t.session_done;
                    doctor = t.doctor;
                  })
                  (v.keeps ∙ ap (λ g. at g s) open_door))
                refl refl refl)
        | inr h ↦ subst (λ b. Busy (if b then entered else s)) (sym h) v
      ]
  called-step inside e =
      let here : v.stage ≡ within = inside_at v.stage (ap (suits v.stage) (sym e) ∙ v.fits) in
      let leaves : Clinic → Clinic = λ t. record t { doctor_met = true } in
      goes_on met gone (moves v.line v.last gone (record s { doctor_met = true }))
        (ap (λ t. moves v.line v.last gone (leaves t)) (v.keeps ∙ ap (λ g. at g s) here)) refl refl
        refl
  called-step gone e = v

  pub visitor-Busy : (l j : ℕ) → Busy (visitor_step l j (s.visitor l j) s)
  visitor-Busy l j = elim (Bool-cases (others l j)) [
    | inl h ↦
        let line : v.line ≡ l = ground arith in
        let token : v.last ≡ j = ground arith in
        subst (λ z. Busy (visitor_step z j (s.visitor z j) s)) line
          (subst (λ z. Busy (visitor_step v.line z (s.visitor v.line z) s)) token
            (called-step (s.visitor v.line v.last) refl))
    | inr h ↦ elim (stands-step s l j (s.visitor l j) (v.placed l j h)) [
      | inl e ↦ subst Busy (sym e) v
      | inr (q, stays, e) ↦ subst Busy (sym e) (record {
        stage = v.stage;
        line = v.line;
        last = v.last;
        keeps = ap (moves l j q) v.keeps;
        called = v.called;
        fits =
            let apart : (l == v.line && j == v.last) ≡ false = ground (arith, h) in
            ap (λ b. suits v.stage (if b then q else s.visitor v.line v.last)) apart ∙ v.fits;
        placed = Placed-moves others s l j q stays v.placed;
      })
    ]
  ]
