-- ===== src/Cse/Turns.antt =====
-- Assignment_03/cse.c: each turn of the window that gives commands.
use mathlib.Core.List.{append-nil}
use mathlib.Core.Path.{subst}
use mathlib.Core.Bool.{false≢true}
use os_lab_spr.Base.{
  ℕ, ◌+◌, ◌<◌, ◌≡◌, ◌⊎◌, refl, sym, ap, ◌∙◌, inl, inr, Bool, true, false, not, arith, Bool-cases,
  none, some, List, [], ◌∷◌, ◌++◌, map,
}
use os_lab_spr.Cse.{
  still, room, fgets, Window, receive, take, give, sent, refill, type_line, child, Executes, Pass,
}
use os_lab_spr.Cse.Lines.{
  line, fits, all_fit, joined, fgets-line, fgets-nothing, says_exit, says_swaprole, both_true, both,
  length, characters, length-append, length-line,
}
use os_lab_spr.Cse.Session.{Command, agreed, awaited}
use os_lab_spr.Cse.Sends.{sent-Phase}
use os_lab_spr.Cse.Phases.{
  Giving, Handing, Phase, giving, handing, leaving, over, child-gives, child-takes, child-ended,
  load,
}

pub List-cases {ℓ} : {A : Type ℓ} (l : List A) → (l ≡ []) ⊎ ((x : A) × (r : List A) × (l ≡ x ∷ r))
List-cases [] = inl refl
List-cases (x ∷ r) = inr (x, r, refl)

-- The turn brings the windows on, if there is a line to give.
abbrev pub Less : Window → Window → List ℕ → Pass → Type 0
Less g t out p =
    g.mode ≡ false
    → g.ended ≡ false
    → 0 < length g.buffer + characters g.typed
    → load p.window t p.written < load g t out

-- What a turn of the window that gives commands leads to.
abbrev pub Given : List Command → Bool → Window → Window → List ℕ → List Command → Pass → Type 0
Given whole h g t out log p =
    Phase whole h p.window t p.written p.read (log ++ map (λ c. (h, c)) p.executed) × Less g t out p

sent-keeps :
    (l : List ℕ) (w : Window) → ((sent l w).buffer ≡ w.buffer) × ((sent l w).typed ≡ w.typed)
sent-keeps l w = elim (Bool-cases (says_exit l)) [
  | inl e ↦ rw e (refl, refl)
  | inr e ↦ rw e (elim (Bool-cases (says_swaprole l)) [
    | inl f ↦ rw f (refl, refl)
    | inr f ↦ rw f (refl, refl)
  ])
]

module _ (whole : List Command) (h : Bool) (g t : Window) (out back : List ℕ) (log : List Command)
    (executes : Executes) where
  idle :
      (w : Window)
      → child executes g out back ≡ (still w out back)
      → Phase whole h w t out back log
      → Less g t out (still w out back)
      → Given whole h g t out log (child executes g out back)
  idle w e phase less =
      subst (Given whole h g t out log) (sym e)
        (subst (Phase whole h w t out back) (sym (append-nil log)) phase, less)

  module _ (v : Giving whole h g t out back log) where
    refills : v.held ≡ [] → Given whole h g t out log (child executes g out back)
    refills empty =
        let buffer : g.buffer ≡ [] = v.holding ∙ ap joined empty in
        let (gives, takes, on, t_on) = v.modes in
        let step =
          child-gives executes g out back on gives
          ∙ ap (λ o. give (type_line g o) out back) (ap (fgets room) buffer ∙ fgets-nothing) in
        elim (List-cases v.own) [
          | inl none_left ↦
              idle g
                (step
                  ∙ ap (λ ls. give (none, refill g ls) out back)
                      (v.typed.0 ∙ ap (map line) none_left))
                (giving v)
                (λ _ _ more. absurd (
                  omega (
                    arith,
                    more,
                    ap length buffer,
                    ap characters (v.typed.0 ∙ ap (map line) none_left),
                  )))
          | inr (x, r, more) ↦
              let fit = both_true (fits room x) (all_fit r) (sym (ap all_fit more) ∙ v.fitting.0) in
              idle (record g { buffer = g.buffer ++ line x; typed = map line r })
                (step
                  ∙ ap (λ ls. give (none, refill g ls) out back) (v.typed.0 ∙ ap (map line) more))
                (giving record {
                  own = r;
                  other = v.other;
                  held = x ∷ [];
                  q = v.q;
                  modes = (gives, takes, on, t_on);
                  holding = ap (λ z. z ++ line x) buffer ∙ sym (append-nil (line x));
                  one = inr (x, refl);
                  typed = (refl, v.typed.1);
                  fitting = (fit.1, v.fitting.1, both (fits room x) true fit.0 refl, v.fitting.3);
                  transit = v.transit;
                  quiet = v.quiet;
                  unmixed = v.unmixed;
                  sum =
                      v.sum
                      ∙ ap (λ z. log ++ awaited (not h) v.q (agreed h z v.other))
                          (ap (λ z. z ++ v.own) empty ∙ more);
                })
                (λ _ _ _. omega (
                  arith,
                  ap length buffer,
                  length-append g.buffer (line x),
                  length-line x,
                  ap characters (v.typed.0 ∙ ap (map line) more),
                ))
        ]

    sends : (x : List ℕ) → v.held ≡ x ∷ [] → Given whole h g t out log (child executes g out back)
    sends x full =
        let (gives, takes, on, t_on) = v.modes in
        let fit : fits room x ≡ true =
          (both_true (fits room x) true (sym (ap all_fit full) ∙ v.fitting.2)).0 in
        let read : fgets room g.buffer ≡ some (line x, []) =
          ap (fgets room) (v.holding ∙ ap joined full) ∙ fgets-line x [] fit in
        let sends_it =
          child-gives executes g out back on gives ∙ ap (λ o. give (type_line g o) out back) read in
        let coming : whole ≡ log ++ awaited (not h) v.q (agreed h (x ∷ v.own) v.other) =
          v.sum ∙ ap (λ z. log ++ awaited (not h) v.q (agreed h (z ++ v.own) v.other)) full in
        let lighter : (w : Window)
            → (length w.buffer ≡ 0) × (w.typed ≡ g.typed)
            → load w t (out ++ line x) < load g t out =
          λ w same. omega (
            arith,
            ap length (v.holding ∙ ap joined full),
            length-append (line x) [],
            length-append out (line x),
            length-line x,
            same.0,
            ap characters same.1,
          ) in
        let keeps = sent-keeps (line x) (record g { buffer = [] }) in
        subst (Given whole h g t out log) (sym sends_it) (
          subst (Phase whole h (sent (line x) (record g { buffer = [] })) t (out ++ line x) back)
              (sym (append-nil log)) (sent-Phase whole h g t out back log v x fit coming),
          λ _ _ _. lighter (sent (line x) (record g { buffer = [] })) (ap length keeps.0, keeps.1),
        )

    Giving-turn : Given whole h g t out log (child executes g out back)
    Giving-turn = elim v.one [ inl empty ↦ refills empty | inr (x, full) ↦ sends x full ]

  Handing-turn :
      Handing whole h g t out back log → Given whole h g t out log (child executes g out back)
  Handing-turn v =
      let same : g ≡ record g { buffer = g.buffer ++ back } =
        ap (λ z. record g { buffer = z })
          (sym (append-nil g.buffer) ∙ ap (λ z. g.buffer ++ z) (sym v.quiet)) in
      idle (record g { buffer = g.buffer ++ back })
        (child-takes executes g out back v.modes.2 v.modes.0
          ∙ ap (λ o. take executes (receive g back o) out)
              (ap (fgets room) v.holding ∙ fgets-nothing)
          ∙ ap (λ z. (still (record g { buffer = g.buffer ++ back }) out z)) (sym v.quiet))
        (subst (λ w. Phase whole h w t out back log) same (handing v))
        (λ gives _ _. absurd (false≢true (sym gives ∙ v.modes.0)))

  Leaving-turn :
      g.ended ≡ true
      → Phase whole h g t out back log
      → Given whole h g t out log (child executes g out back)
  Leaving-turn e phase =
      idle g (child-ended executes g out back e) phase (λ _ on _. absurd (false≢true (sym on ∙ e)))

-- Whatever the window that gives commands does, what stays true is kept.
pub giver_turn :
    (whole : List Command) (h : Bool) (g t : Window) (out back : List ℕ) (log : List Command)
    (executes : Executes)
    → Phase whole h g t out back log
    → Given whole h g t out log (child executes g out back)
giver_turn whole h g t out back log executes (giving v) =
    Giving-turn whole h g t out back log executes v
giver_turn whole h g t out back log executes (handing v) =
    Handing-turn whole h g t out back log executes v
giver_turn whole h g t out back log executes (leaving v) =
    Leaving-turn whole h g t out back log executes v.modes.1 (leaving v)
giver_turn whole h g t out back log executes (over e f same) =
    Leaving-turn whole h g t out back log executes e (over e f same)
