-- ===== src/Mgr.antt =====
-- Assignment_02/mgr.c: a job manager with a process table. One job at a time runs in the
-- foreground; the signals of the keyboard reach the manager, which passes them on to that job.
pub mod Wait
pub mod Jobs
pub mod Prompt
pub mod Faults
mod Tests
use os_lab_spr.Base.{
  ℕ, zero, suc, ◌+◌, Bool, true, false, ◌&&◌, ◌||◌, not, Option, none, some, List, [], ◌∷◌, ◌++◌,
  ◌==◌, ltb, leb, if◌then◌else◌, ℤ, pos, negsuc, store,
}

abbrev pub max_jobs : ℕ
max_jobs = 10

pub data Status : Type 0 where
  running finished terminated suspended killed : Status

pub data Signal : Type 0 where
  sigint sigtstp sigcont sigkill : Signal

-- `struct ProcessTableEntry`; `argument` is the letter that stands behind "Job ".
pub record ProcessTableEntry : Type 0 where
  pub pid : ℕ
  pub pgid : ℕ
  pub status : Status
  pub argument : ℕ

-- The globals, with the signals sent by `kill`, oldest first.
pub record Mgr : Type 0 where
  pub pt : ℕ → ProcessTableEntry
  pub current_job_index : ℕ
  pub total_jobs : ℕ
  pub sent : List (ℕ × Signal)

abbrev pub is_running : Status → Bool
is_running Status.running = true
is_running _ = false

abbrev pub is_suspended : Status → Bool
is_suspended Status.suspended = true
is_suspended _ = false

-- A global is zero at the start, and `RUNNING` is 0.
abbrev pub blank : ProcessTableEntry
blank = record { pid = 0; pgid = 0; status = Status.running; argument = 0 }

-- The state when `main` enters its loop.
unfoldable pub initial : ℕ → ℕ → Mgr
initial pid pgid = record {
  pt =
      store (λ _. blank) 0
        (record { pid = pid; pgid = pgid; status = Status.running; argument = 0 });
  current_job_index = 0;
  total_jobs = 0;
  sent = [];
}

abbrev pub set_status : Mgr → ℕ → Status → Mgr
set_status m i x = record m { pt = store m.pt i (record (m.pt i) { status = x }) }

-- `kill(pid, signal)`
abbrev pub kill : Mgr → ℕ → Signal → Mgr
kill m pid x = record m { sent = m.sent ++ (pid, x) ∷ [] }

-- Both handlers test `currentJobIndex != -1` too, which no assignment makes false.
unfoldable pub handle_sigint : Mgr → Mgr
handle_sigint m =
    let i = m.current_job_index in
    if is_running (m.pt i).status
    then kill (set_status m i Status.terminated) (m.pt i).pid Signal.sigint
    else m

unfoldable pub handle_sigtstp : Mgr → Mgr
handle_sigtstp m =
    let i = m.current_job_index in
    if is_running (m.pt i).status
    then kill (set_status m i Status.suspended) (m.pt i).pid Signal.sigtstp
    else m

-- The keys that send a signal to the manager.
pub data Key : Type 0 where
  ctrl_c ctrl_z : Key

unfoldable pub handle : Mgr → Key → Mgr
unfolding handle_sigint handle_sigtstp
handle m ctrl_c = handle_sigint m
handle m ctrl_z = handle_sigtstp m

-- `waitpid`, with the keys that are struck while it waits.
pub await : Mgr → List Key → Mgr
await m [] = m
await m (k ∷ ks) = await (handle m k) ks

-- The test behind `waitpid`.
abbrev pub mark_finished : Mgr → Mgr
mark_finished m =
    let i = m.current_job_index in
    if is_running (m.pt i).status then set_status m i Status.finished else m

-- What `fork` gave: an error, or the process, its group and the letter of the job.
pub data Fork : Type 0 where
  failed : Fork
  child : (pid pgid letter : ℕ) → Fork

unfoldable pub spawn_job : Mgr → Fork → List Key → Mgr
unfolding await
spawn_job m failed ks = m
spawn_job m (child pid pgid letter) ks =
    let i = m.current_job_index in
    let entry : ProcessTableEntry = record {
      pid = pid;
      pgid = pgid;
      status = Status.running;
      argument = letter;
    } in
    mark_finished (await (record m { pt = store m.pt i entry }) ks)

-- `none`: the manager has ended.
unfoldable pub start_job : Mgr → Fork → List Key → Option Mgr
unfolding spawn_job
start_job m f ks =
    if ltb m.total_jobs max_jobs
    then some (
        spawn_job (record m { total_jobs = m.total_jobs + 1; current_job_index = m.total_jobs + 1 })
          f ks)
    else none

-- The loop that lists and counts the suspended entries, over the first `n`.
pub count_suspended : ℕ → (ℕ → ProcessTableEntry) → ℕ
count_suspended zero pt = 0
count_suspended (suc n) pt =
    let c = count_suspended n pt in if is_suspended (pt n).status then c + 1 else c

-- The choice, where it names a suspended entry.
abbrev pub chosen : Mgr → ℤ → Option ℕ
chosen m (negsuc i) = none
chosen m (pos i) = if ltb m.total_jobs i || not (is_suspended (m.pt i).status) then none else some i

resume : Mgr → Option ℕ → List Key → Mgr
unfolding await
resume m none ks = m
resume m (some i) ks =
    let running = record (set_status m i Status.running) { current_job_index = i } in
    mark_finished (await (kill running (m.pt i).pid Signal.sigcont) ks)

unfoldable pub continue_job : Mgr → ℤ → List Key → Mgr
unfolding resume count_suspended
continue_job m choice ks =
    if count_suspended (m.total_jobs + 1) m.pt == 0 then m else resume m (chosen m choice) ks

destroy : Mgr → Option ℕ → Mgr
destroy m none = m
destroy m (some i) = set_status (kill m (m.pt i).pid Signal.sigkill) i Status.killed

unfoldable pub kill_job : Mgr → ℤ → Mgr
unfolding destroy count_suspended
kill_job m choice =
    if count_suspended (m.total_jobs + 1) m.pt == 0 then m else destroy m (chosen m choice)

-- The loop of `cleanup`, over the entries from 1 to `n`.
pub cleanup_to : ℕ → Mgr → Mgr
cleanup_to zero m = m
cleanup_to (suc n) m =
    let c = cleanup_to n m in
    let x = (c.pt (suc n)).status in
    if is_running x || is_suspended x then kill c (c.pt (suc n)).pid Signal.sigkill else c

unfoldable pub cleanup : Mgr → Mgr
unfolding cleanup_to
cleanup m = cleanup_to m.total_jobs m

-- A command at the prompt, with what the user, the system and the keyboard add to it. `other` is
-- `p`, `h` or a letter that is no command; they only print.
pub data Command : Type 0 where
  start : Fork → List Key → Command
  continue : ℤ → List Key → Command
  destroys : ℤ → Command
  strike : Key → Command
  other : Command

-- One round of the loop in `main`, or a key struck at the prompt. `quit` is `cleanup`.
unfoldable pub step : Mgr → Command → Option Mgr
unfolding start_job continue_job kill_job handle
step m (start f ks) = start_job m f ks
step m (continue c ks) = some (continue_job m c ks)
step m (destroys c) = some (kill_job m c)
step m (strike k) = some (handle m k)
step m other = some m
