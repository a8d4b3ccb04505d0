-- ===== src/Cse/Takes.antt =====
-- Assignment_03/cse.c: each turn of the window that executes commands.
use mathlib.Core.List.{append_assoc, append-nil}
use mathlib.Core.Path.{subst}
use os_lab_spr.Base.{
  ℕ, ◌+◌, ◌<◌, ◌≡◌, ◌⊎◌, refl, sym, ap, ◌∙◌, inl, inr, Bool, true, false, not, ◌&&◌, if◌then◌else◌,
  arith, none, some, List, [], ◌∷◌, ◌++◌, map,
}
use os_lab_spr.Cse.{room, fgets, Window, receive, take, swap_on, child, Pass}
use os_lab_spr.Cse.Lines.{
  line, fits, all_fit, says_exit, says_swaprole, words, both_true, executes_of, executes_of-line,
  length, length-append, length-line,
}
use os_lab_spr.Cse.Session.{Command, agreed, awaited, clean}
use os_lab_spr.Cse.Phases.{Transit-Read, Giving, Phase, giving, child-takes, load}

-- What a turn of the window that executes commands leads to: the roles are the same, or they change. It
-- brings the windows on, if a line is on its way.
abbrev pub Taken : List Command → Bool → Window → Window → List ℕ → List Command → Pass → Type 0
Taken whole h g t out log p =
    (Phase whole h g p.window p.read p.written (log ++ map (λ c. (not h, c)) p.executed)
      × (t.ended ≡ false
          → 0 < length t.buffer + length out
          → load g p.window p.read < load g t out))
    ⊎ (Phase whole (not h) p.window g p.written p.read (log ++ map (λ c. (not h, c)) p.executed)
        × (load p.window g p.written < load g t out))

pub nothing_left : (ts us : List (List ℕ)) → ts ++ us ≡ [] → (ts ≡ []) × (us ≡ [])
nothing_left [] us e = (refl, e)
nothing_left (t ∷ ts) us e = absurd (cc)

-- A command that is executed moves from what is to come to what was executed.
pub executed_next :
    (whole log after : List Command) (b : Bool) (x : List ℕ) (r : List (List ℕ))
    → says_exit x ≡ false
    → says_swaprole x ≡ false
    → whole ≡ log ++ awaited b (x ∷ r) after
    → whole ≡ (log ++ (b, words x) ∷ []) ++ awaited b r after
executed_next whole log after b x r e s sum =
    let next : awaited b (x ∷ r) after ≡ (b, words x) ∷ awaited b r after = rw e (rw s refl) in
    sum ∙ ap (λ z. log ++ z) next ∙ sym (append_assoc log ((b, words x) ∷ []) (awaited b r after))

pub clean_head :
    (x : List ℕ) (r : List (List ℕ))
    → clean (x ∷ r) ≡ true
    → (says_exit x ≡ false) × (says_swaprole x ≡ false) × (clean r ≡ true)
clean_head x r h =
    let each = both_true (not (says_exit x) && not (says_swaprole x)) (clean r) h in
    let two = both_true (not (says_exit x)) (not (says_swaprole x)) each.0 in
    (ground (arith, two.0), ground (arith, two.1), each.1)

module _ (whole : List Command) (h : Bool) (g t : Window) (out back : List ℕ)
    (log : List Command) where
  abbrev pub turn_of : Pass
  turn_of = child (executes_of (not h)) t back out

  abbrev pub passes : Window → List ℕ → List (List (List ℕ)) → Pass
  passes w pipe executed = record { window = w; written = back; read = pipe; executed = executed }

  pub fills :
      t.ended ≡ false
      → t.mode ≡ true
      → fgets room t.buffer ≡ none
      → t.buffer ≡ []
      → Phase whole h g (record t { buffer = t.buffer ++ out }) [] back log
      → Taken whole h g t out log turn_of
  fills on takes read empty phase =
      subst (Taken whole h g t out log)
        (sym (
          child-takes (executes_of (not h)) t back out on takes
          ∙ ap (λ o. take (executes_of (not h)) (receive t out o) back) read))
        (inl (
          subst (Phase whole h g (record t { buffer = t.buffer ++ out }) [] back)
              (sym (append-nil log)) phase,
          λ _ more. omega (arith, ap length empty, length-append t.buffer out, more),
        ))

  -- The pass, for a line that is read.
  pub reads :
      (x rest : List ℕ)
      → t.ended ≡ false
      → t.mode ≡ true
      → fits room x ≡ true
      → fgets room t.buffer ≡ some (line x, rest)
      → (after : Window × List (List (List ℕ)))
      → (if says_exit x then (record t { buffer = rest; ended = true }, []) else (
        swap_on (says_swaprole x) (record t { buffer = rest }),
        if says_swaprole x && not (not h) then [] else words x ∷ [],
      ))
        ≡ after
      → turn_of ≡ passes after.0 out after.1
  reads x rest on takes fit read after e =
      child-takes (executes_of (not h)) t back out on takes
      ∙ ap (λ o. take (executes_of (not h)) (receive t out o) back) read
      ∙ ap (λ z. passes z.0 out z.1)
          (executes_of-line (not h) x (record t { buffer = rest }) fit ∙ e)

  pub executes_it :
      (x rest : List ℕ)
      → t.ended ≡ false
      → t.mode ≡ true
      → fits room x ≡ true
      → fgets room t.buffer ≡ some (line x, rest)
      → t.buffer ≡ line x ++ rest
      → says_exit x ≡ false
      → says_swaprole x ≡ false
      → Phase whole h g (record t { buffer = rest }) out back (log ++ (not h, words x) ∷ [])
      → Taken whole h g t out log turn_of
  executes_it x rest on takes fit read at e s phase =
      subst (Taken whole h g t out log)
        (sym (
          reads x rest on takes fit read (record t { buffer = rest }, words x ∷ [])
            (rw e (rw s refl))))
        (inl
          (phase, λ _ _. omega (arith, ap length at, length-append (line x) rest, length-line x)))

  pub Giving-Taken : Giving whole h g t out back log → Taken whole h g t out log turn_of
  Giving-Taken v =
      let (gives, takes, on, t_on) = v.modes in
      elim (Transit-Read t out v.q v.fitting.3 v.transit) [
        | inl (read, moved, empty) ↦ fills t_on takes read empty (
            giving record {
              own = v.own;
              other = v.other;
              held = v.held;
              q = v.q;
              modes = (gives, takes, on, t_on);
              holding = v.holding;
              one = v.one;
              typed = v.typed;
              fitting = v.fitting;
              transit = moved;
              quiet = v.quiet;
              unmixed = v.unmixed;
              sum = v.sum;
            })
        | inr (x, r, rest, e, read, moved, at) ↦
            let fit = both_true (fits room x) (all_fit r) (sym (ap all_fit e) ∙ v.fitting.3) in
            let head = clean_head x r (sym (ap clean e) ∙ v.unmixed) in
            executes_it x rest t_on takes fit.0 read at head.0 head.1 (
              giving record {
                own = v.own;
                other = v.other;
                held = v.held;
                q = r;
                modes = (gives, takes, on, t_on);
                holding = v.holding;
                one = v.one;
                typed = v.typed;
                fitting = (v.fitting.0, v.fitting.1, v.fitting.2, fit.1);
                transit = moved;
                quiet = v.quiet;
                unmixed = head.2;
                sum =
                    executed_next whole log (agreed h (v.held ++ v.own) v.other) (not h) x r head.0
                      head.1
                      (v.sum
                        ∙ ap (λ z. log ++ awaited (not h) z (agreed h (v.held ++ v.own) v.other))
                            e);
              })
      ]
