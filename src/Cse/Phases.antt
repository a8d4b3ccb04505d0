-- ===== src/Cse/Phases.antt =====
-- Assignment_03/cse.c: what stays true of the two windows and the pipes, in the phases of a session.
use mathlib.Core.List.{append_assoc, append-nil}
use os_lab_spr.Base.{
  ℕ, ◌+◌, ◌*◌, ◌≡◌, ◌⊎◌, refl, sym, ap, ◌∙◌, inl, inr, Bool, true, false, not, if◌then◌else◌, none,
  some, List, [], ◌∷◌, ◌++◌, map,
}
use os_lab_spr.Cse.{still, room, fgets, Window, receive, take, give, type_line, child, Executes}
use os_lab_spr.Cse.Lines.{
  line, fits, all_fit, joined, joined-append, fgets-line, fgets-nothing, says_exit, says_swaprole,
  both_true, length, characters,
}
use os_lab_spr.Cse.Session.{Command, agreed, awaited, clean}

-- Whole lines are on their way: some in the buffer of the window that reads them, some in the pipe.
pub record Transit (t : Window) (pipe : List ℕ) (q : List (List ℕ)) : Type 0 where
  pub near : List (List ℕ)
  pub far : List (List ℕ)
  pub buffered : t.buffer ≡ joined near
  pub piped : pipe ≡ joined far
  pub all : near ++ far ≡ q

-- A window has executed nothing that was not typed, and what was typed and is not executed yet is to come.
-- `h` is whether the first window gives commands, `g` the window that does, `t` the other.
pub record Giving (whole : List Command) (h : Bool) (g t : Window) (out back : List ℕ)
    (log : List Command) : Type 0 where
  pub own : List (List ℕ)
  pub other : List (List ℕ)
  pub held : List (List ℕ)
  pub q : List (List ℕ)
  pub modes : (g.mode ≡ false) × (t.mode ≡ true) × (g.ended ≡ false) × (t.ended ≡ false)
  pub holding : g.buffer ≡ joined held
  pub one : (held ≡ []) ⊎ ((x : List ℕ) × (held ≡ x ∷ []))
  pub typed : (g.typed ≡ map line own) × (t.typed ≡ map line other)
  pub fitting :
      (all_fit own ≡ true) × (all_fit other ≡ true) × (all_fit held ≡ true) × (all_fit q ≡ true)
  pub transit : Transit t out q
  pub quiet : back ≡ []
  pub unmixed : clean q ≡ true
  pub sum : whole ≡ log ++ awaited (not h) q (agreed h (held ++ own) other)

-- The text that changes the roles is on its way.
pub record Handing (whole : List Command) (h : Bool) (g t : Window) (out back : List ℕ)
    (log : List Command) : Type 0 where
  pub own : List (List ℕ)
  pub other : List (List ℕ)
  pub q : List (List ℕ)
  pub last : List ℕ
  pub modes : (g.mode ≡ true) × (t.mode ≡ true) × (g.ended ≡ false) × (t.ended ≡ false)
  pub holding : g.buffer ≡ []
  pub typed : (g.typed ≡ map line own) × (t.typed ≡ map line other)
  pub fitting :
      (all_fit own ≡ true) × (all_fit other ≡ true) × (all_fit q ≡ true) × (fits room last ≡ true)
  pub transit : Transit t out (q ++ last ∷ [])
  pub quiet : back ≡ []
  pub unmixed : clean q ≡ true
  pub turning : (says_exit last ≡ false) × (says_swaprole last ≡ true)
  pub sum : whole ≡ log ++ awaited (not h) (q ++ last ∷ []) (agreed (not h) other own)

-- The text that ends the session is on its way.
pub record Leaving (whole : List Command) (h : Bool) (g t : Window) (out : List ℕ)
    (log : List Command) : Type 0 where
  pub q : List (List ℕ)
  pub last : List ℕ
  pub modes : (t.mode ≡ true) × (g.ended ≡ true) × (t.ended ≡ false)
  pub fitting : (all_fit q ≡ true) × (fits room last ≡ true)
  pub transit : Transit t out (q ++ last ∷ [])
  pub unmixed : clean q ≡ true
  pub closing : says_exit last ≡ true
  pub sum : whole ≡ log ++ awaited (not h) (q ++ last ∷ []) []

pub data Phase (whole : List Command) (h : Bool) (g t : Window) (out back : List ℕ)
    (log : List Command) : Type 0 where
  giving : Giving whole h g t out back log → Phase whole h g t out back log
  handing : Handing whole h g t out back log → Phase whole h g t out back log
  leaving : Leaving whole h g t out log → Phase whole h g t out back log
  over : g.ended ≡ true → t.ended ≡ true → whole ≡ log → Phase whole h g t out back log

-- The reading of lines that are on their way: the buffer is filled, or the first line is read.
abbrev pub Read : Window → List ℕ → List (List ℕ) → Type 0
Read t pipe q =
    ((fgets room t.buffer ≡ none)
      × Transit (record t { buffer = t.buffer ++ pipe }) [] q
      × (t.buffer ≡ []))
    ⊎ ((x : List ℕ) × (r : List (List ℕ)) × (rest : List ℕ) × (q ≡ x ∷ r)
        × (fgets room t.buffer ≡ some (line x, rest))
        × Transit (record t { buffer = rest }) pipe r
        × (t.buffer ≡ line x ++ rest))

Read-near :
    (t : Window) (pipe : List ℕ) (q near far : List (List ℕ))
    → all_fit q ≡ true
    → t.buffer ≡ joined near
    → pipe ≡ joined far
    → near ++ far ≡ q
    → Read t pipe q
Read-near t pipe q [] far fit b p e = inl (
  ap (fgets room) b ∙ fgets-nothing,
  record {
    near = far;
    far = [];
    buffered = ap (λ z. z ++ pipe) b ∙ p;
    piped = refl;
    all = append-nil far ∙ e;
  },
  b,
)
Read-near t pipe q (x ∷ near) far fit b p e =
    let fits_too = both_true (fits room x) (all_fit (near ++ far)) (ap all_fit e ∙ fit) in
    inr (
      x,
      near ++ far,
      joined near,
      sym e,
      ap (fgets room) b ∙ fgets-line x (joined near) fits_too.0,
      record { near = near; far = far; buffered = refl; piped = p; all = refl },
      b,
    )

pub Transit-Read :
    (t : Window) (pipe : List ℕ) (q : List (List ℕ))
    → all_fit q ≡ true
    → Transit t pipe q
    → Read t pipe q
Transit-Read t pipe q fit v = Read-near t pipe q v.near v.far fit v.buffered v.piped v.all

-- One more line is written to the pipe.
pub Transit-write :
    (t : Window) (pipe : List ℕ) (q : List (List ℕ)) (x : List ℕ)
    → Transit t pipe q
    → Transit t (pipe ++ line x) (q ++ x ∷ [])
Transit-write t pipe q x v = record {
  near = v.near;
  far = v.far ++ x ∷ [];
  buffered = v.buffered;
  piped =
      ap (λ z. z ++ line x) v.piped
      ∙ ap (λ z. joined v.far ++ z) (sym (append-nil (line x)))
      ∙ sym (joined-append v.far (x ∷ []));
  all = sym (append_assoc v.near v.far (x ∷ [])) ∙ ap (λ z. z ++ x ∷ []) v.all;
}

pub child-gives :
    (executes : Executes) (w : Window) (out in_pipe : List ℕ)
    → w.ended ≡ false
    → w.mode ≡ false
    → child executes w out in_pipe ≡ give (type_line w (fgets room w.buffer)) out in_pipe
child-gives executes w out in_pipe on gives =
    ap
      (λ b.
        if b
        then (still w out in_pipe)
        else (if w.mode
            then take executes (receive w in_pipe (fgets room w.buffer)) out
            else give (type_line w (fgets room w.buffer)) out in_pipe))
      on
    ∙ ap
        (λ b.
          if b
          then take executes (receive w in_pipe (fgets room w.buffer)) out
          else give (type_line w (fgets room w.buffer)) out in_pipe)
        gives

pub child-takes :
    (executes : Executes) (w : Window) (out in_pipe : List ℕ)
    → w.ended ≡ false
    → w.mode ≡ true
    → child executes w out in_pipe ≡ take executes (receive w in_pipe (fgets room w.buffer)) out
child-takes executes w out in_pipe on takes =
    ap
      (λ b.
        if b
        then (still w out in_pipe)
        else (if w.mode
            then take executes (receive w in_pipe (fgets room w.buffer)) out
            else give (type_line w (fgets room w.buffer)) out in_pipe))
      on
    ∙ ap
        (λ b.
          if b
          then take executes (receive w in_pipe (fgets room w.buffer)) out
          else give (type_line w (fgets room w.buffer)) out in_pipe)
        takes

pub child-ended :
    (executes : Executes) (w : Window) (out in_pipe : List ℕ)
    → w.ended ≡ true
    → child executes w out in_pipe ≡ (still w out in_pipe)
child-ended executes w out in_pipe off =
    ap
      (λ b.
        if b
        then (still w out in_pipe)
        else (if w.mode
            then take executes (receive w in_pipe (fgets room w.buffer)) out
            else give (type_line w (fgets room w.buffer)) out in_pipe))
      off

-- What the two windows have before them: a character counts less the nearer it is to its execution.
abbrev pub load : Window → Window → List ℕ → ℕ
load g t out =
    4 * (characters g.typed + characters t.typed)
    + 3 * length g.buffer
    + 2 * length out
    + length t.buffer
