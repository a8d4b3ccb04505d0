-- ===== src/Cse/Completes.antt =====
-- Assignment_03/cse.c: what the users agree on is executed in the end.
use os_lab_spr.Base.{
  ℕ, zero, suc, ◌≤◌, ◌<◌, ◌≡◌, ◌⊎◌, sym, inl, inr, Bool, true, false, arith, List, [], ◌∷◌,
}
use os_lab_spr.Cse.{System, turn, run, first_executes, second_executes}
use os_lab_spr.Cse.Lines.{all_fit}
use os_lab_spr.Cse.Session.{Command, transcript}
use os_lab_spr.Cse.Turns.{giver_turn}
use os_lab_spr.Cse.Changes.{taker_turn}
use os_lab_spr.Cse.Agrees.{ready, Sides, load_of, run-Inv, typing, typing-Inv}

-- A turn that brings the windows on.
abbrev Onward : List Command → Bool → System → Type 0
Onward whole h s =
    (x : Bool) × (k : Bool) × Sides whole k (turn s x) × (load_of k (turn s x) < load_of h s)

goes_on :
    (whole : List Command) (h : Bool) (s : System)
    → Sides whole h s
    → (whole ≡ s.executed) ⊎ Onward whole h s
unfolding turn
goes_on whole true s p = elim (ready whole true s.first s.second s.pipe_a s.pipe_b s.executed p) [
  | inl done ↦ inl done
  | inr (inl (gives, on, more)) ↦
      let next =
        giver_turn whole true s.first s.second s.pipe_a s.pipe_b s.executed first_executes p in
      inr (true, true, next.0, next.1 gives on more)
  | inr (inr (on, more)) ↦
      elim (taker_turn whole true s.first s.second s.pipe_a s.pipe_b s.executed p) [
        | inl (next, less) ↦ inr (false, true, next, less on more)
        | inr (next, less) ↦ inr (false, false, next, less)
      ]
]
goes_on whole false s p = elim (ready whole false s.second s.first s.pipe_b s.pipe_a s.executed p) [
  | inl done ↦ inl done
  | inr (inl (gives, on, more)) ↦
      let next =
        giver_turn whole false s.second s.first s.pipe_b s.pipe_a s.executed second_executes p in
      inr (false, false, next.0, next.1 gives on more)
  | inr (inr (on, more)) ↦
      elim (taker_turn whole false s.second s.first s.pipe_b s.pipe_a s.executed p) [
        | inl (next, less) ↦ inr (true, false, next, less on more)
        | inr (next, less) ↦ inr (true, true, next, less)
      ]
]

completes :
    (fuel : ℕ) (whole : List Command) (h : Bool) (s : System)
    → Sides whole h s
    → load_of h s ≤ fuel
    → (ys : List Bool) × ((run s ys).executed ≡ whole)
unfolding run
completes zero whole h s p enough = elim (goes_on whole h s p) [
  | inl done ↦ ([], sym done)
  | inr (x, k, next, less) ↦ absurd (omega arith)
]
completes (suc fuel) whole h s p enough = elim (goes_on whole h s p) [
  | inl done ↦ ([], sym done)
  | inr (x, k, next, less) ↦
      let (ys, done) = completes fuel whole k (turn s x) next (omega arith) in (x ∷ ys, done)
]

-- Where the users type lines of at most 98 characters with their newlines, after any turns of the two
-- windows there are further turns after which they have executed all that the users agree on, and no more.
pub all_executed :
    (cs es : List (List ℕ)) (xs : List Bool)
    → all_fit cs ≡ true
    → all_fit es ≡ true
    → (ys : List Bool) × ((run (run (typing cs es) xs) ys).executed ≡ transcript true cs es)
all_executed cs es xs fit other =
    let v = run-Inv (transcript true cs es) (typing cs es) xs (typing-Inv cs es fit other) in
    completes (load_of v.0 (run (typing cs es) xs)) (transcript true cs es) v.0
      (run (typing cs es) xs) v.1 (omega arith)
