-- ===== src/Cse/Sends.antt =====
-- Assignment_03/cse.c: a text that is sent is on its way, whichever it is.
use mathlib.Core.Path.{subst}
use os_lab_spr.Base.{
  ℕ, ◌≡◌, refl, sym, ap, ◌∙◌, inl, inr, Bool, true, false, not, ◌&&◌, if◌then◌else◌, Bool-cases,
  List, [], ◌∷◌, ◌++◌,
}
use os_lab_spr.Cse.{room, Window, sent, swap_on}
use os_lab_spr.Cse.Lines.{
  line, fits, all_fit-append, says_exit, says_swaprole, says_exit-line, says_swaprole-line,
  both_true, both,
}
use os_lab_spr.Cse.Session.{Command, agreed, agreed-next, awaited, awaited-append, clean}
use os_lab_spr.Cse.Phases.{Transit, Transit-write, Giving, Phase, giving, handing, leaving}

pub clean-append :
    (q : List (List ℕ)) (x : List ℕ)
    → clean q ≡ true
    → says_exit x ≡ false
    → says_swaprole x ≡ false
    → clean (q ++ x ∷ []) ≡ true
clean-append [] x c e s = rw e (rw s refl)
clean-append (t ∷ q) x c e s =
    let each = both_true (not (says_exit t) && not (says_swaprole t)) (clean q) c in
    both (not (says_exit t) && not (says_swaprole t)) (clean (q ++ x ∷ [])) each.0
      (clean-append q x each.1 e s)

-- What is to come does not change when a text is sent.
pub awaited-sent :
    (h : Bool) (q : List (List ℕ)) (x : List ℕ) (own other : List (List ℕ)) (after : List Command)
    → clean q ≡ true
    → awaited (not h) (x ∷ []) after
      ≡ awaited
          (not h)
          (x ∷ [])
          (if says_swaprole x then agreed (not h) other own else agreed h own other)
    → awaited (not h) q (agreed h (x ∷ own) other) ≡ awaited (not h) (q ++ x ∷ []) after
awaited-sent h q x own other after c e =
    ap (awaited (not h) q) (agreed-next h x own other ∙ sym e)
    ∙ sym (awaited-append (not h) q (x ∷ []) after c)

-- The text that is read is on its way, whichever it is.
module _ (whole : List Command) (h : Bool) (g t : Window) (out back : List ℕ) (log : List Command)
    (v : Giving whole h g t out back log) (x : List ℕ) (fit : fits room x ≡ true)
    (coming : whole ≡ log ++ awaited (not h) v.q (agreed h (x ∷ v.own) v.other)) where
  abbrev bare : Window
  bare = record g { buffer = [] }

  written_to : Transit t (out ++ line x) (v.q ++ x ∷ [])
  written_to = Transit-write t out v.q x v.transit

  becomes :
      (after : List Command)
      → awaited (not h) (x ∷ []) after
        ≡ awaited
            (not h)
            (x ∷ [])
            (if says_swaprole x then agreed (not h) v.other v.own else agreed h v.own v.other)
      → whole ≡ log ++ awaited (not h) (v.q ++ x ∷ []) after
  becomes after e =
      coming ∙ ap (λ z. log ++ z) (awaited-sent h v.q x v.own v.other after v.unmixed e)

  sends_exit :
      says_exit x ≡ true → Phase whole h (record bare { ended = true }) t (out ++ line x) back log
  sends_exit e = leaving record {
    q = v.q;
    last = x;
    modes = (v.modes.1, refl, v.modes.3);
    fitting = (v.fitting.3, fit);
    transit = written_to;
    unmixed = v.unmixed;
    closing = e;
    sum = becomes [] (rw e refl);
  }

  sends_swaprole :
      says_exit x ≡ false
      → says_swaprole x ≡ true
      → Phase whole h (record bare { mode = not g.mode }) t (out ++ line x) back log
  sends_swaprole e s = handing record {
    own = v.own;
    other = v.other;
    q = v.q;
    last = x;
    modes = (ap not v.modes.0, v.modes.1, v.modes.2, v.modes.3);
    holding = refl;
    typed = v.typed;
    fitting = (v.fitting.0, v.fitting.1, v.fitting.3, fit);
    transit = written_to;
    quiet = v.quiet;
    unmixed = v.unmixed;
    turning = (e, s);
    sum = becomes (agreed (not h) v.other v.own) (
        ap
          (λ b.
            awaited (not h) (x ∷ [])
              (if b then agreed (not h) v.other v.own else agreed h v.own v.other))
          (sym s));
  }

  sends_command :
      says_exit x ≡ false → says_swaprole x ≡ false → Phase whole h bare t (out ++ line x) back log
  sends_command e s = giving record {
    own = v.own;
    other = v.other;
    held = [];
    q = v.q ++ x ∷ [];
    modes = v.modes;
    holding = refl;
    one = inl refl;
    typed = v.typed;
    fitting = (
      v.fitting.0,
      v.fitting.1,
      refl,
      all_fit-append v.q (x ∷ []) v.fitting.3 (both (fits room x) true fit refl),
    );
    transit = written_to;
    quiet = v.quiet;
    unmixed = clean-append v.q x v.unmixed e s;
    sum = becomes (agreed h v.own v.other) (
        ap
          (λ b.
            awaited (not h) (x ∷ [])
              (if b then agreed (not h) v.other v.own else agreed h v.own v.other))
          (sym s));
  }

  sent-exit : says_exit x ≡ true → sent (line x) bare ≡ record bare { ended = true }
  sent-exit e =
      ap (λ b. if b then record bare { ended = true } else swap_on (says_swaprole (line x)) bare)
        (says_exit-line x ∙ e)

  sent-on :
      (b : Bool) → says_exit x ≡ false → says_swaprole x ≡ b → sent (line x) bare ≡ swap_on b bare
  sent-on b e s =
      ap (λ z. if z then record bare { ended = true } else swap_on (says_swaprole (line x)) bare)
        (says_exit-line x ∙ e)
      ∙ ap (λ z. swap_on z bare) (says_swaprole-line x ∙ s)

  pub sent-Phase : Phase whole h (sent (line x) bare) t (out ++ line x) back log
  sent-Phase = elim (Bool-cases (says_exit x)) [
    | inl e ↦
        subst (λ w. Phase whole h w t (out ++ line x) back log) (sym (sent-exit e)) (sends_exit e)
    | inr e ↦ elim (Bool-cases (says_swaprole x)) [
      | inl s ↦
          subst (λ w. Phase whole h w t (out ++ line x) back log) (sym (sent-on true e s))
            (sends_swaprole e s)
      | inr s ↦
          subst (λ w. Phase whole h w t (out ++ line x) back log) (sym (sent-on false e s))
            (sends_command e s)
    ]
  ]
