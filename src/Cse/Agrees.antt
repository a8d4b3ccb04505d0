-- ===== src/Cse/Agrees.antt =====
-- Assignment_03/cse.c: the two windows together execute what their users agree on.
use mathlib.Core.List.{append-nil}
use os_lab_spr.Base.{
  ℕ, ◌+◌, ◌<◌, ◌≡◌, ◌⊎◌, refl, sym, ap, ◌∙◌, inl, inr, Bool, true, false, not, arith, ℕ_discrete,
  List, [], ◌∷◌, ◌++◌, map,
}
use os_lab_spr.Cse.{Window, System, start, turn, run, first_executes, second_executes}
use os_lab_spr.Cse.Lines.{
  line, all_fit, joined, joined-append, length, characters, length-append, length-line,
}
use os_lab_spr.Cse.Session.{Command, transcript, agreed, agreed-nothing, awaited}
use os_lab_spr.Cse.Phases.{Transit, Phase, giving, handing, leaving, over, load}
use os_lab_spr.Cse.Turns.{giver_turn}
use os_lab_spr.Cse.Changes.{taker_turn}

-- What was executed is what the users agree on, up to what is still to come.
executed-before :
    {whole : List Command} {h : Bool} {g t : Window} {out back : List ℕ} {log : List Command}
    → Phase whole h g t out back log
    → (rest : List Command) × (whole ≡ log ++ rest)
executed-before (giving v) = (_, v.sum)
executed-before (handing v) = (_, v.sum)
executed-before (leaving v) = (_, v.sum)
executed-before {log} (over e f same) = ([], same ∙ sym (append-nil log))

Transit-length :
    {t : Window} {pipe : List ℕ} {q : List (List ℕ)}
    → Transit t pipe q
    → length t.buffer + length pipe ≡ length (joined q)
Transit-length v = omega (
  arith,
  ap length v.buffered,
  ap length v.piped,
  length-append (joined v.near) (joined v.far),
  ap length (sym (joined-append v.near v.far)),
  ap (λ z. length (joined z)) v.all,
)

nothing_joined : (ts : List (List ℕ)) → length (joined ts) ≡ 0 → ts ≡ []
nothing_joined [] e = refl
nothing_joined (t ∷ ts) e =
    absurd (omega (arith, e, length-append (line t) (joined ts), length-line t))

nothing_typed : (ts : List (List ℕ)) → characters (map line ts) ≡ 0 → ts ≡ []
nothing_typed [] e = refl
nothing_typed (t ∷ ts) e = absurd (omega (arith, e, length-line t))

last_counts : (q : List (List ℕ)) (x : List ℕ) → 0 < length (joined (q ++ x ∷ []))
last_counts q x = omega (
  arith,
  ap length (joined-append q (x ∷ [])),
  length-append (joined q) (joined (x ∷ [])),
  length-append (line x) [],
  length-line x,
)

-- Unless all is executed, one of the two windows can go on.
pub ready :
    (whole : List Command) (h : Bool) (g t : Window) (out back : List ℕ) (log : List Command)
    → Phase whole h g t out back log
    → (whole ≡ log)
      ⊎ (((g.mode ≡ false) × (g.ended ≡ false) × (0 < length g.buffer + characters g.typed))
          ⊎ ((t.ended ≡ false) × (0 < length t.buffer + length out)))
ready whole h g t out back log (giving v) =
    elim (ℕ_discrete (length g.buffer + characters g.typed) 0) [
      | no more ↦ inr (inl (v.modes.0, v.modes.2, omega arith))
      | yes none_typed ↦ elim (ℕ_discrete (length t.buffer + length out) 0) [
        | no more ↦ inr (inr (v.modes.3, omega arith))
        | yes none_coming ↦
            let sizes = ap length v.holding in
            let counts = ap characters v.typed.0 in
            let held = nothing_joined v.held (omega arith) in
            let own = nothing_typed v.own (omega arith) in
            let q = nothing_joined v.q (omega (arith, Transit-length v.transit)) in
            inl (
              v.sum
              ∙ ap (λ z. log ++ awaited (not h) z (agreed h (v.held ++ v.own) v.other)) q
              ∙ ap (λ z. log ++ agreed h (z ++ v.own) v.other) held
              ∙ ap (λ z. log ++ agreed h z v.other) own
              ∙ ap (λ z. log ++ z) (agreed-nothing h v.other)
              ∙ append-nil log)
      ]
    ]
ready whole h g t out back log (handing v) =
    inr (inr (v.modes.3, omega (arith, Transit-length v.transit, last_counts v.q v.last)))
ready whole h g t out back log (leaving v) =
    inr (inr (v.modes.2, omega (arith, Transit-length v.transit, last_counts v.q v.last)))
ready whole h g t out back log (over e f same) = inl same

abbrev pub Sides : List Command → Bool → System → Type 0
Sides whole true s = Phase whole true s.first s.second s.pipe_a s.pipe_b s.executed
Sides whole false s = Phase whole false s.second s.first s.pipe_b s.pipe_a s.executed

abbrev pub load_of : Bool → System → ℕ
load_of true s = load s.first s.second s.pipe_a
load_of false s = load s.second s.first s.pipe_b

abbrev pub Inv : List Command → System → Type 0
Inv whole s = (h : Bool) × Sides whole h s

found :
    (whole : List Command) (s : System) (h : Bool)
    → Sides whole h s
    → (rest : List Command) × (whole ≡ s.executed ++ rest)
found whole s true p = executed-before p
found whole s false p = executed-before p

pub turn-Inv : (whole : List Command) (s : System) (x : Bool) → Inv whole s → Inv whole (turn s x)
unfolding turn
turn-Inv whole s true (true, p) =
    (true, (giver_turn whole true s.first s.second s.pipe_a s.pipe_b s.executed first_executes p).0)
turn-Inv whole s false (false, p) = (
  false,
  (giver_turn whole false s.second s.first s.pipe_b s.pipe_a s.executed second_executes p).0,
)
turn-Inv whole s false (true, p) =
    elim (taker_turn whole true s.first s.second s.pipe_a s.pipe_b s.executed p) [
      | inl (next, less) ↦ (true, next)
      | inr (next, less) ↦ (false, next)
    ]
turn-Inv whole s true (false, p) =
    elim (taker_turn whole false s.second s.first s.pipe_b s.pipe_a s.executed p) [
      | inl (next, less) ↦ (false, next)
      | inr (next, less) ↦ (true, next)
    ]

pub run-Inv :
    (whole : List Command) (s : System) (xs : List Bool) → Inv whole s → Inv whole (run s xs)
unfolding run
run-Inv whole s [] v = v
run-Inv whole s (x ∷ xs) v = run-Inv whole (turn s x) xs (turn-Inv whole s x v)

-- The system at the start, for the texts that the two users type.
abbrev pub typing : List (List ℕ) → List (List ℕ) → System
typing cs es = start (map line cs) (map line es)

pub typing-Inv :
    (cs es : List (List ℕ))
    → all_fit cs ≡ true
    → all_fit es ≡ true
    → Inv (transcript true cs es) (typing cs es)
typing-Inv cs es fit other = (
  true,
  giving record {
    own = cs;
    other = es;
    held = [];
    q = [];
    modes = (refl, refl, refl, refl);
    holding = refl;
    one = inl refl;
    typed = (refl, refl);
    fitting = (fit, other, refl, refl);
    transit = record { near = []; far = []; buffered = refl; piped = refl; all = refl };
    quiet = refl;
    unmixed = refl;
    sum = refl;
  },
)

-- Where the users type lines of at most 98 characters with their newlines, whatever the turns of the two
-- windows, what they have executed is the first part of what the users agree on.
pub executed_agrees :
    (cs es : List (List ℕ)) (xs : List Bool)
    → all_fit cs ≡ true
    → all_fit es ≡ true
    → (rest : List Command) × (transcript true cs es ≡ (run (typing cs es) xs).executed ++ rest)
executed_agrees cs es xs fit other =
    let v = run-Inv (transcript true cs es) (typing cs es) xs (typing-Inv cs es fit other) in
    found (transcript true cs es) (run (typing cs es) xs) v.0 v.1
