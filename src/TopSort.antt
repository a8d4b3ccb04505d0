-- ===== src/TopSort.antt =====
-- Assignment_05/LA5/boss.c and worker.c: worker processes, one to a vertex, list the vertices of a
-- graph in topological order under semaphores; the boss waits for them and checks the list.
-- `a` is the adjacency matrix in row order, `n` the number of vertices.
pub mod Cover
pub mod Checker
pub mod Workers
pub mod Runs
pub mod Outcome
pub mod Progress
pub mod Completion
mod Tests
use os_lab_spr.Base.{
  ℕ, zero, suc, ◌+◌, ◌-◌, ◌*◌, Bool, true, false, not, ◌&&◌, Option, none, some, List, [], ◌∷◌,
  ◌==◌, ltb, leb, if◌then◌else◌, ℤ, pos, negsuc, ◌+ℤ◌, eqb_ℤ, store, ◌>>=◌,
}

abbrev pub max_nodes : ℕ
max_nodes = 100

-- `A[i * n + j] == 1`
abbrev pub edge : ℕ → (ℕ → ℕ) → ℕ → ℕ → Bool
edge n a i j = a (i * n + j) == 1

-- The inner loops of `isTopologicalSortValid`, over the first `k` columns of row `u`.
pub add_row : ℕ → (ℕ → ℕ) → ℕ → ℕ → (ℕ → ℤ) → ℕ → ℤ
add_row n a u zero deg = deg
add_row n a u (suc k) deg =
    let d = add_row n a u k deg in if edge n a u k then store d k (d k +ℤ pos 1) else d

pub drop_row : ℕ → (ℕ → ℕ) → ℕ → ℕ → (ℕ → ℤ) → ℕ → ℤ
drop_row n a u zero deg = deg
drop_row n a u (suc k) deg =
    let d = drop_row n a u k deg in if edge n a u k then store d k (d k +ℤ negsuc 0) else d

-- The in-degrees, from the first `k` rows.
pub in_degrees : ℕ → (ℕ → ℕ) → ℕ → ℕ → ℤ
in_degrees n a zero = λ _. pos 0
in_degrees n a (suc k) = add_row n a k n (in_degrees n a k)

-- The checking loop at `i`, with `rounds` left.
pub check_from : ℕ → (ℕ → ℕ) → (ℕ → ℕ) → ℕ → ℕ → (ℕ → ℤ) → Bool
check_from n a t zero i deg = true
check_from n a t (suc rounds) i deg =
    let rest = check_from n a t rounds (i + 1) (drop_row n a (t i) n deg) in
    if eqb_ℤ (deg (t i)) (pos 0) then rest else false

-- `none`: the array `inDegree[MAX_NODES]` is too small.
unfoldable pub is_topological_sort_valid : (ℕ → ℕ) → (ℕ → ℕ) → ℕ → Option Bool
unfolding check_from in_degrees
is_topological_sort_valid a t n =
    if ltb max_nodes n then none else some (check_from n a t n 0 (in_degrees n a n))

-- The shared segments and the semaphores.
pub record Shared : Type 0 where
  pub t : ℕ → ℕ
  pub idx : ℕ
  pub mtx : ℕ
  pub ntfy : ℕ
  pub sync : ℕ → ℕ

-- Where a worker stands: in the first loop at `i`, in the critical section before each of its
-- statements, in the second loop at `i`, or past it.
pub data Pc : Type 0 where
  waiting : (i : ℕ) → Pc
  writing : Pc
  counting : Pc
  leaving : Pc
  signalling : (i : ℕ) → Pc
  finished : Pc

-- The test of the first loop, for an edge from `i` to `j`; the second loop has the same with the
-- edge's other end.
abbrev pub linked : ℕ → (ℕ → ℕ) → ℕ → ℕ → Bool
linked n a i j = edge n a i j && not (i == j)

-- `P(s)` on a semaphore of value `v`: blocked at 0.
abbrev pub sem_p : ℕ → Option ℕ
sem_p v = if v == 0 then none else some (v - 1)

-- One step of worker `id`. `none`: it is blocked on a semaphore, or has ended.
pub work : ℕ → (ℕ → ℕ) → ℕ → Shared → Pc → Option (Shared × Pc)
work n a id s (waiting i) =
    if ltb i n
    then (if linked n a i id
        then (sem_p (s.sync id) >>= λ v.
            some (record s { sync = store s.sync id v }, waiting (i + 1)))
        else some (s, waiting (i + 1)))
    else (sem_p s.mtx >>= λ v. some (record s { mtx = v }, writing))
work n a id s writing = some (record s { t = store s.t s.idx id }, counting)
work n a id s counting = some (record s { idx = s.idx + 1 }, leaving)
work n a id s leaving = some (record s { mtx = s.mtx + 1 }, signalling 0)
work n a id s (signalling i) =
    if ltb i n
    then (if linked n a id i
        then some (record s { sync = store s.sync i (s.sync i + 1) }, signalling (i + 1))
        else some (s, signalling (i + 1)))
    else some (record s { ntfy = s.ntfy + 1 }, finished)
work n a id s finished = none

-- The boss in its loop over `P(sem_ntfy)`, then the check.
pub data Boss : Type 0 where
  collecting : (i : ℕ) → Boss
  checked : Option Bool → Boss

pub record System : Type 0 where
  pub shared : Shared
  pub pc : ℕ → Pc
  pub boss : Boss

unfoldable pub oversee : ℕ → (ℕ → ℕ) → Shared → Boss → Option (Shared × Boss)
unfolding is_topological_sort_valid
oversee n a s (collecting i) =
    if ltb i n
    then (sem_p s.ntfy >>= λ v. some (record s { ntfy = v }, collecting (i + 1)))
    else some (s, checked (is_topological_sort_valid a s.t n))
oversee n a s (checked r) = none

-- The setup in `main` of boss.c; what fresh memory `t` holds is not known.
unfoldable pub setup : (ℕ → ℕ) → System
setup t = record {
  shared = record { t = t; idx = 0; mtx = 1; ntfy = 0; sync = λ _. 0 };
  pc = λ _. waiting 0;
  boss = collecting 0;
}

-- Who runs next: the boss, or a worker. A turn that is blocked changes nothing.
pub data Turn : Type 0 where
  boss : Turn
  worker : ℕ → Turn

pub turn : ℕ → (ℕ → ℕ) → System → Turn → System
turn n a s boss = elim (oversee n a s.shared s.boss) [
  | none ↦ s
  | some (m, b) ↦ record s { shared = m; boss = b }
]
turn n a s (worker i) =
    if ltb i n
    then elim (work n a i s.shared (s.pc i)) [
      | none ↦ s
      | some (m, p) ↦ record s { shared = m; pc = store s.pc i p }
    ]
    else s

pub run : ℕ → (ℕ → ℕ) → System → List Turn → System
run n a s [] = s
run n a s (x ∷ xs) = run n a (turn n a s x) xs
