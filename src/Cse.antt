-- ===== src/Cse.antt =====
-- Assignment_03/cse.c: two windows, the one of which gives commands that the other executes, and which
-- change roles. A character is its code.
pub mod Lines
pub mod Session
pub mod Phases
pub mod Sends
pub mod Turns
pub mod Takes
pub mod Ending
pub mod Changes
pub mod Agrees
pub mod Completes
pub mod Long
mod Tests
use os_lab_spr.Base.{
  ℕ, zero, suc, Bool, true, false, not, ◌&&◌, ◌||◌, ◌==◌, if◌then◌else◌, Option, none, some, ◌>>=◌,
  List, [], ◌∷◌, ◌++◌, map,
}

abbrev pub newline : ℕ
newline = 10

abbrev pub space : ℕ
space = 32

-- "exit" and "swaprole"
abbrev pub exit_word : List ℕ
exit_word = 101 ∷ 120 ∷ 105 ∷ 116 ∷ []

abbrev pub swaprole_word : List ℕ
swaprole_word = 115 ∷ 119 ∷ 97 ∷ 112 ∷ 114 ∷ 111 ∷ 108 ∷ 101 ∷ []

-- `strstr(buff, word)`
pub starts_with : List ℕ → List ℕ → Bool
starts_with [] buff = true
starts_with (w ∷ word) [] = false
starts_with (w ∷ word) (b ∷ buff) = b == w && starts_with word buff

unfoldable pub strstr : List ℕ → List ℕ → Bool
unfolding starts_with
strstr [] word = starts_with word []
strstr (b ∷ buff) word = starts_with word (b ∷ buff) || strstr buff word

-- The room that `fgets(buff, MAX-1, stdin)` leaves for characters.
abbrev pub room : ℕ
room = 98

-- `fgets` on the characters that are there: what it reads and what is left, or `none` if it waits for more.
unfoldable pub fgets : ℕ → List ℕ → Option (List ℕ × List ℕ)
fgets zero bs = some ([], bs)
fgets (suc k) [] = none
fgets (suc k) (b ∷ bs) =
    let more = fgets k bs >>= λ (r : List ℕ × List ℕ). some (b ∷ r.0, r.1) in
    if b == newline then some (b ∷ [], bs) else more

-- The loop that ends the command at its first newline.
pub chop : List ℕ → List ℕ
chop [] = []
chop (b ∷ bs) = let rest = b ∷ chop bs in if b == newline then [] else rest

-- The arguments that `strtok` cuts, with the characters of the token read so far.
abbrev pub token_before : List ℕ → List (List ℕ) → List (List ℕ)
token_before [] rest = rest
token_before (c ∷ cs) rest = (c ∷ cs) ∷ rest

pub split : List ℕ → List ℕ → List (List ℕ)
split token [] = token_before token []
split token (b ∷ bs) =
    let next = split [] bs in
    let more = split (token ++ b ∷ []) bs in if b == space then token_before token next else more

unfoldable pub targs : List ℕ → List (List ℕ)
unfolding split chop
targs buff = split [] (chop buff)

-- A window: whether it executes, what stands in the buffer of its `stdin`, the lines that its user types.
pub record Window : Type 0 where
  pub mode : Bool
  pub buffer : List ℕ
  pub typed : List (List ℕ)
  pub ended : Bool

abbrev pub refill : Window → List (List ℕ) → Window
refill w [] = w
refill w (l ∷ ls) = record w { buffer = w.buffer ++ l; typed = ls }

-- `fgets` from the terminal, which gives a line at a time.
abbrev pub type_line : Window → Option (List ℕ × List ℕ) → Option (List ℕ) × Window
type_line w none = (none, refill w w.typed)
type_line w (some (line, rest)) = (some line, record w { buffer = rest })

-- `fgets` from the pipe, all of which goes to the buffer.
abbrev pub receive : Window → List ℕ → Option (List ℕ × List ℕ) → Option (List ℕ) × Window × List ℕ
receive w pipe none = (none, record w { buffer = w.buffer ++ pipe }, [])
receive w pipe (some (line, rest)) = (some line, record w { buffer = rest }, pipe)

abbrev pub swap_on : Bool → Window → Window
swap_on true w = record w { mode = not w.mode }
swap_on false w = w

-- What follows the line that a window has sent.
abbrev pub sent : List ℕ → Window → Window
sent line w =
    if strstr line exit_word
    then record w { ended = true }
    else swap_on (strstr line swaprole_word) w

-- What follows the line that the first child has received: its window, and what it executes.
abbrev pub first_executes : List ℕ → Window → Window × List (List (List ℕ))
first_executes line w =
    if strstr (chop line) exit_word
    then (record w { ended = true }, [])
    else (swap_on (strstr (chop line) swaprole_word) w, targs line ∷ [])

-- The second child.
abbrev pub second_executes : List ℕ → Window → Window × List (List (List ℕ))
second_executes line w =
    if strstr (chop line) exit_word
    then (record w { ended = true }, [])
    else (if strstr (chop line) swaprole_word
        then (record w { mode = not w.mode }, [])
        else (w, targs line ∷ []))

-- A window, the pipe that it writes and the pipe that it reads, and what it has executed now.
pub record Pass : Type 0 where
  pub window : Window
  pub written : List ℕ
  pub read : List ℕ
  pub executed : List (List (List ℕ))

abbrev pub still : Window → List ℕ → List ℕ → Pass
still w out in_pipe = record { window = w; written = out; read = in_pipe; executed = [] }

abbrev pub Executes : Type 0
Executes = List ℕ → Window → Window × List (List (List ℕ))

abbrev pub give : Option (List ℕ) × Window → List ℕ → List ℕ → Pass
give (none, w) out in_pipe = still w out in_pipe
give (some line, w) out in_pipe = still (sent line w) (out ++ line) in_pipe

abbrev pub take : Executes → Option (List ℕ) × Window × List ℕ → List ℕ → Pass
take executes (none, w, in_pipe) out = still w out in_pipe
take executes (some line, w, in_pipe) out =
    let after = executes line w in
    record { window = after.0; written = out; read = in_pipe; executed = after.1 }

-- One reading of a window, and what it does with the line.
abbrev pub child : Executes → Window → List ℕ → List ℕ → Pass
child executes w out in_pipe =
    if w.ended
    then still w out in_pipe
    else (if w.mode
        then take executes (receive w in_pipe (fgets room w.buffer)) out
        else give (type_line w (fgets room w.buffer)) out in_pipe)

-- The two windows and their pipes, and the commands so far, each with whether the first child executed it.
pub record System : Type 0 where
  pub first : Window
  pub second : Window
  pub pipe_a : List ℕ
  pub pipe_b : List ℕ
  pub executed : List (Bool × List (List ℕ))

abbrev pub start : List (List ℕ) → List (List ℕ) → System
start first second = record {
  first = record { mode = false; buffer = []; typed = first; ended = false };
  second = record { mode = true; buffer = []; typed = second; ended = false };
  pipe_a = [];
  pipe_b = [];
  executed = [];
}

abbrev pub first_turn : System → Pass → System
first_turn s p = record s {
  first = p.window;
  pipe_a = p.written;
  pipe_b = p.read;
  executed = s.executed ++ map (λ c. (true, c)) p.executed;
}

abbrev pub second_turn : System → Pass → System
second_turn s p = record s {
  second = p.window;
  pipe_b = p.written;
  pipe_a = p.read;
  executed = s.executed ++ map (λ c. (false, c)) p.executed;
}

unfoldable pub turn : System → Bool → System
turn s true = first_turn s (child first_executes s.first s.pipe_a s.pipe_b)
turn s false = second_turn s (child second_executes s.second s.pipe_b s.pipe_a)

unfoldable pub run : System → List Bool → System
unfolding turn
run s [] = s
run s (x ∷ xs) = run (turn s x) xs
