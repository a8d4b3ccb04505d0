-- ===== src/Cse/Ending.antt =====
-- Assignment_03/cse.c: the window that executes commands comes to the text that ends the session.
use mathlib.Core.Path.{subst}
use os_lab_spr.Base.{
  ℕ, ◌≡◌, ◌⊎◌, refl, sym, ap, ◌∙◌, inl, inr, Bool, true, not, arith, some, List, [], ◌∷◌, ◌++◌,
}
use os_lab_spr.Cse.{room, fgets, Window}
use os_lab_spr.Cse.Lines.{
  line, fits, all_fit, all_fit-append, both_true, both, length, length-append, length-line,
}
use os_lab_spr.Cse.Session.{Command, awaited, clean}
use os_lab_spr.Cse.Phases.{Transit, Transit-Read, Leaving, leaving, over}
use os_lab_spr.Cse.Takes.{Taken, executed_next, clean_head, turn_of, fills, reads, executes_it}

pub last_or_more :
    (q : List (List ℕ)) (last x : List ℕ) (r : List (List ℕ))
    → q ++ last ∷ [] ≡ x ∷ r
    → ((q ≡ []) × (x ≡ last) × (r ≡ []))
      ⊎ ((p : List (List ℕ)) × (q ≡ x ∷ p) × (p ++ last ∷ [] ≡ r))
last_or_more [] last x r e = inl (refl, cc, cc)
last_or_more (y ∷ q) last x r e = inr (q, cc, cc)

module _ (whole : List Command) (h : Bool) (g t : Window) (out back : List ℕ)
    (log : List Command) where
  module _ (v : Leaving whole h g t out log) (rest : List ℕ) (r : List (List ℕ))
      (moved : Transit (record t { buffer = rest }) out r) where
    leaves_later :
        (x : List ℕ) (p : List (List ℕ))
        → v.q ≡ x ∷ p
        → p ++ v.last ∷ [] ≡ r
        → fits room x ≡ true
        → fgets room t.buffer ≡ some (line x, rest)
        → t.buffer ≡ line x ++ rest
        → Taken whole h g t out log (turn_of whole h g t out back log)
    leaves_later x p at e fit read here =
        let head = clean_head x p (sym (ap clean at) ∙ v.unmixed) in
        executes_it whole h g t out back log x rest v.modes.2 v.modes.0 fit read here head.0 head.1
          (leaving record {
            q = p;
            last = v.last;
            modes = v.modes;
            fitting = (
              (both_true (fits room x) (all_fit p) (sym (ap all_fit at) ∙ v.fitting.0)).1,
              v.fitting.1,
            );
            transit = subst (Transit (record t { buffer = rest }) out) (sym e) moved;
            unmixed = head.2;
            closing = v.closing;
            sum =
                executed_next whole log [] (not h) x (p ++ v.last ∷ []) head.0 head.1
                  (v.sum ∙ ap (λ z. log ++ awaited (not h) (z ++ v.last ∷ []) []) at);
          })

    ends_it :
        v.q ≡ []
        → fgets room t.buffer ≡ some (line v.last, rest)
        → t.buffer ≡ line v.last ++ rest
        → Taken whole h g t out log (turn_of whole h g t out back log)
    ends_it at read here =
        let pass =
          reads whole h g t out back log v.last rest v.modes.2 v.modes.0 v.fitting.1 read
            (record t { buffer = rest; ended = true }, []) (rw v.closing refl) in
        let nothing : awaited (not h) (v.last ∷ []) [] ≡ [] = rw v.closing refl in
        subst (Taken whole h g t out log) (sym pass) (
          inl (
            over v.modes.1 refl (
                v.sum
                ∙ ap (λ z. log ++ awaited (not h) (z ++ v.last ∷ []) []) at
                ∙ ap (λ z. log ++ z) nothing),
            λ _ _.
                omega (arith, ap length here, length-append (line v.last) rest, length-line v.last),
          ))

  pub Leaving-Taken :
      Leaving whole h g t out log → Taken whole h g t out log (turn_of whole h g t out back log)
  Leaving-Taken v =
      let fit : all_fit (v.q ++ v.last ∷ []) ≡ true =
        all_fit-append v.q (v.last ∷ []) v.fitting.0
          (both (fits room v.last) true v.fitting.1 refl) in
      elim (Transit-Read t out (v.q ++ v.last ∷ []) fit v.transit) [
        | inl (read, moved, empty) ↦ fills whole h g t out back log v.modes.2 v.modes.0 read empty (
            leaving record {
              q = v.q;
              last = v.last;
              modes = v.modes;
              fitting = v.fitting;
              transit = moved;
              unmixed = v.unmixed;
              closing = v.closing;
              sum = v.sum;
            })
        | inr (x, r, rest, e, read, moved, at) ↦ elim (last_or_more v.q v.last x r e) [
          | inl (none_left, same, ends) ↦
              ends_it v rest r moved none_left (read ∙ ap (λ z. some (line z, rest)) same)
                (at ∙ ap (λ z. line z ++ rest) same)
          | inr (p, more, tail) ↦
              leaves_later v rest r moved x p more tail
                (both_true (fits room x) (all_fit r) (sym (ap all_fit e) ∙ fit)).0 read at
        ]
      ]
