-- ===== src/Reference.antt =====
-- The reference string of Assignment_08: master.c prints the pages that a process is to ask for, and
-- proc.c reads them. A character is its code.
pub mod Reads
pub mod Fits
mod Tests
use os_lab_spr.Base.{
  ℕ, zero, suc, ◌+◌, ◌-◌, ◌*◌, ◌/◌, ◌%◌, Bool, true, false, ◌&&◌, List, [], ◌∷◌, ◌++◌, Option, none,
  some, ◌>>=◌, ltb, leb, ◌==◌, if◌then◌else◌, ℤ, pos, to_int,
}

abbrev pub bar : ℕ
bar = 124

abbrev pub zero_code : ℕ
zero_code = 48

-- The digits of `n` for `%d`; the fuel is at least their number.
unfoldable pub digits_from : ℕ → ℕ → List ℕ
digits_from zero n = []
digits_from (suc fuel) n =
    let front = digits_from fuel (n / 10) in
    if ltb n 10 then (zero_code + n) ∷ [] else front ++ (zero_code + n % 10) ∷ []

unfoldable pub digits : ℕ → List ℕ
digits n = digits_from (n + 1) n

-- The loop of `create_processes` over the pages drawn.
unfoldable pub ref_str : List ℕ → List ℕ
unfolding digits
ref_str [] = []
ref_str (page ∷ pages) = digits page ++ bar ∷ ref_str pages

-- `atoi` on a token, with what it has read so far.
unfoldable pub atoi_from : ℕ → List ℕ → ℕ
atoi_from n [] = n
atoi_from n (c ∷ cs) =
    let rest = atoi_from (10 * n + (c - zero_code)) cs in
    if leb zero_code c && ltb c (zero_code + 10) then rest else n

abbrev pub atoi : List ℕ → ℕ
atoi cs = atoi_from 0 cs

-- The token in front of the others, unless it is empty.
abbrev pub put : List ℕ → List (List ℕ) → List (List ℕ)
put [] rest = rest
put (c ∷ cs) rest = (c ∷ cs) ∷ rest

-- The calls of `strtok` with "|", with the characters of the token read so far.
unfoldable pub strtok : List ℕ → List ℕ → List (List ℕ)
strtok token [] = put token []
strtok token (c ∷ cs) =
    let next = strtok [] cs in
    let more = strtok (token ++ c ∷ []) cs in if c == bar then put token next else more

abbrev pub max_pages : ℕ
max_pages = 1024

-- The loop of `process_ref_string`, with `total` pages stored. `none`: the store is past the end of
-- `page_number`.
unfoldable pub store_pages : ℕ → List (List ℕ) → Option (List ℕ)
store_pages total [] = some []
store_pages total (token ∷ tokens) =
    let rest = store_pages (total + 1) tokens in
    if leb max_pages total then none else (rest >>= λ pages. some (atoi token ∷ pages))

unfoldable pub process_ref_string : List ℕ → Option (List ℕ)
unfolding strtok store_pages
process_ref_string s = store_pages 0 (strtok [] s)

-- The size of `ref_str`, an `int`.
abbrev pub ref_str_size : ℕ → ℤ
ref_str_size m = to_int (pos (m * 20 * 40))

-- The pages of one process in `create_processes`: `own` of its table row of `m`, and the numbers that
-- `rand` gives from `at` on. The test is `(1+rand()%100)/100.0 < 0.02`.
unfoldable pub draw_refs : ℕ → ℕ → (ℕ → ℕ) → ℕ → ℕ → List ℕ
draw_refs m own rand at zero = []
draw_refs m own rand at (suc rounds) =
    let stray = (own + rand (at + 2) % (10 * m)) ∷ draw_refs m own rand (at + 3) rounds in
    let inside = (rand at % own) ∷ draw_refs m own rand (at + 2) rounds in
    if ltb (1 + rand (at + 1) % 100) 2 then stray else inside

abbrev pub ref_str_len : ℕ → (ℕ → ℕ) → ℕ
ref_str_len own rand = 1 + 2 * own + rand 0 % (8 * own)

unfoldable pub pages_of : ℕ → ℕ → (ℕ → ℕ) → List ℕ
unfolding draw_refs
pages_of m own rand = draw_refs m own rand 1 (ref_str_len own rand)
