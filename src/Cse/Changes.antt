-- ===== src/Cse/Changes.antt =====
-- Assignment_03/cse.c: the window that executes commands comes to the text that changes the roles.
use mathlib.Core.List.{append_assoc, append-nil}
use mathlib.Core.Path.{subst}
use mathlib.Core.Bool.{false≢true}
use os_lab_spr.Base.{
  ℕ, ◌≡◌, refl, sym, ap, ◌∙◌, inl, inr, Bool, true, false, not, ◌&&◌, if◌then◌else◌, arith, some,
  List, [], ◌∷◌, ◌++◌, map,
}
use os_lab_spr.Cse.{room, fgets, Window, child}
use os_lab_spr.Cse.Lines.{
  line, fits, all_fit, all_fit-append, joined, says_exit, says_swaprole, words, both_true, both,
  executes_of, length, length-append, length-line,
}
use os_lab_spr.Cse.Session.{Command, agreed, awaited, clean}
use os_lab_spr.Cse.Phases.{
  Transit, Transit-Read, Handing, Phase, giving, handing, leaving, over, child-ended,
}
use os_lab_spr.Cse.Ending.{last_or_more, Leaving-Taken}
use os_lab_spr.Cse.Takes.{
  Taken, nothing_left, executed_next, clean_head, turn_of, fills, reads, executes_it, Giving-Taken,
}

-- The text that changes the roles is executed by the first child only.
swapped_sum :
    (whole log after : List Command) (b : Bool) (x : List ℕ)
    → says_exit x ≡ false
    → says_swaprole x ≡ true
    → whole ≡ log ++ awaited b (x ∷ []) after
    → whole
      ≡ (log ++ map (λ c. (b, c)) (if says_swaprole x && not b then [] else words x ∷ [])) ++ after
swapped_sum whole log after true x e s sum =
    let next : awaited true (x ∷ []) after ≡ (true, words x) ∷ after = rw e (rw s refl) in
    rw s (sum ∙ ap (λ z. log ++ z) next ∙ sym (append_assoc log ((true, words x) ∷ []) after))
swapped_sum whole log after false x e s sum =
    let next : awaited false (x ∷ []) after ≡ after = rw e (rw s refl) in
    rw s (sum ∙ ap (λ z. log ++ z) next ∙ sym (append_assoc log [] after))

module _ (whole : List Command) (h : Bool) (g t : Window) (out back : List ℕ)
    (log : List Command) where
  module _ (v : Handing whole h g t out back log) (rest : List ℕ) (r : List (List ℕ))
      (moved : Transit (record t { buffer = rest }) out r) where
    passes_on :
        (x : List ℕ) (p : List (List ℕ))
        → v.q ≡ x ∷ p
        → p ++ v.last ∷ [] ≡ r
        → fits room x ≡ true
        → fgets room t.buffer ≡ some (line x, rest)
        → t.buffer ≡ line x ++ rest
        → Taken whole h g t out log (turn_of whole h g t out back log)
    passes_on x p at e fit read here =
        let (gives, takes, on, t_on) = v.modes in
        let head = clean_head x p (sym (ap clean at) ∙ v.unmixed) in
        executes_it whole h g t out back log x rest t_on takes fit read here head.0 head.1 (
          handing record {
            own = v.own;
            other = v.other;
            q = p;
            last = v.last;
            modes = (gives, takes, on, t_on);
            holding = v.holding;
            typed = v.typed;
            fitting = (
              v.fitting.0,
              v.fitting.1,
              (both_true (fits room x) (all_fit p) (sym (ap all_fit at) ∙ v.fitting.2)).1,
              v.fitting.3,
            );
            transit = subst (Transit (record t { buffer = rest }) out) (sym e) moved;
            quiet = v.quiet;
            unmixed = head.2;
            turning = v.turning;
            sum =
                executed_next whole log (agreed (not h) v.other v.own) (not h) x (p ++ v.last ∷ [])
                  head.0 head.1
                  (v.sum
                    ∙ ap
                        (λ z.
                          log ++ awaited (not h) (z ++ v.last ∷ []) (agreed (not h) v.other v.own))
                        at);
          })

    changes :
        v.q ≡ []
        → r ≡ []
        → fgets room t.buffer ≡ some (line v.last, rest)
        → t.buffer ≡ line v.last ++ rest
        → Taken whole h g t out log (turn_of whole h g t out back log)
    changes at e read here =
        let (gives, takes, on, t_on) = v.modes in
        let empty = nothing_left moved.near moved.far (moved.all ∙ e) in
        let pass =
          reads whole h g t out back log v.last rest t_on takes v.fitting.3 read
            (
              record t { buffer = rest; mode = not t.mode },
              if says_swaprole v.last && not (not h) then [] else words v.last ∷ [],
            )
            (rw v.turning.0 (rw v.turning.1 refl)) in
        subst (Taken whole h g t out log) (sym pass) (
          inr (
            giving record {
              own = v.other;
              other = v.own;
              held = [];
              q = [];
              modes = (ap not takes, gives, t_on, on);
              holding = moved.buffered ∙ ap joined empty.0;
              one = inl refl;
              typed = (v.typed.1, v.typed.0);
              fitting = (v.fitting.1, v.fitting.0, refl, refl);
              transit = record {
                near = [];
                far = [];
                buffered = v.holding;
                piped = v.quiet;
                all = refl;
              };
              quiet = moved.piped ∙ ap joined empty.1;
              unmixed = refl;
              sum =
                  swapped_sum whole log (agreed (not h) v.other v.own) (not h) v.last v.turning.0
                    v.turning.1
                    (v.sum
                      ∙ ap
                          (λ z.
                            log
                            ++ awaited (not h) (z ++ v.last ∷ []) (agreed (not h) v.other v.own))
                          at);
            },
            omega (
              arith,
              ap length here,
              length-append (line v.last) rest,
              length-line v.last,
              ap length (moved.buffered ∙ ap joined empty.0),
              ap length v.holding,
              ap length v.quiet,
            ),
          ))

  Handing-Taken :
      Handing whole h g t out back log
      → Taken whole h g t out log (turn_of whole h g t out back log)
  Handing-Taken v =
      let fit : all_fit (v.q ++ v.last ∷ []) ≡ true =
        all_fit-append v.q (v.last ∷ []) v.fitting.2
          (both (fits room v.last) true v.fitting.3 refl) in
      elim (Transit-Read t out (v.q ++ v.last ∷ []) fit v.transit) [
        | inl (read, moved, empty) ↦ fills whole h g t out back log v.modes.3 v.modes.1 read empty (
            handing record {
              own = v.own;
              other = v.other;
              q = v.q;
              last = v.last;
              modes = v.modes;
              holding = v.holding;
              typed = v.typed;
              fitting = v.fitting;
              transit = moved;
              quiet = v.quiet;
              unmixed = v.unmixed;
              turning = v.turning;
              sum = v.sum;
            })
        | inr (x, r, rest, e, read, moved, at) ↦ elim (last_or_more v.q v.last x r e) [
          | inl (none_left, same, ends) ↦
              changes v rest r moved none_left ends (read ∙ ap (λ z. some (line z, rest)) same)
                (at ∙ ap (λ z. line z ++ rest) same)
          | inr (p, more, tail) ↦
              passes_on v rest r moved x p more tail
                (both_true (fits room x) (all_fit r) (sym (ap all_fit e) ∙ fit)).0 read at
        ]
      ]

-- Whatever the window that executes commands does, what stays true is kept.
pub taker_turn :
    (whole : List Command) (h : Bool) (g t : Window) (out back : List ℕ) (log : List Command)
    → Phase whole h g t out back log
    → Taken whole h g t out log (child (executes_of (not h)) t back out)
taker_turn whole h g t out back log (giving v) = Giving-Taken whole h g t out back log v
taker_turn whole h g t out back log (handing v) = Handing-Taken whole h g t out back log v
taker_turn whole h g t out back log (leaving v) = Leaving-Taken whole h g t out back log v
taker_turn whole h g t out back log (over e f same) =
    subst (Taken whole h g t out log) (sym (child-ended (executes_of (not h)) t back out f))
      (inl (over e f (same ∙ sym (append-nil log)), λ on _. absurd (false≢true (sym on ∙ f))))
