-- ===== src/Mgr/Tests.antt =====
-- A session with the manager of Assignment_02/mgr.c: one job stopped by Control-Z.
use os_lab_spr.Base.{◌≡◌, refl, some, [], ◌∷◌, arith, pos, negsuc, store}
use os_lab_spr.Mgr.{
  Status, Signal, Mgr, ctrl_c, ctrl_z, child, failed, initial, handle, start_job, continue_job,
  kill_job, cleanup, start, strike, step, set_status,
}
use os_lab_spr.Mgr.Jobs.{start_job_lem, continue_job_lem, kill_job_lem, refused}
use os_lab_spr.Mgr.Prompt.{
  AtPrompt, Reached, begun, next, Reached-AtPrompt, strike_ignored, cleanup_lem,
}
use os_lab_spr.Mgr.Faults.{manager_kills_itself, failed_fork_kills_group}

abbrev begin : Mgr
unfolding initial
begin = initial 100 100

-- The table after `r` and Control-Z.
abbrev stopped : Mgr
stopped = record {
  pt =
      store (initial 100 100).pt 1
        (record { pid = 101; pgid = 101; status = Status.suspended; argument = 65 });
  current_job_index = 1;
  total_jobs = 1;
  sent = (101, Signal.sigtstp) ∷ [];
}

reaches_stopped : step (initial 100 100) (start (child 101 101 65) (ctrl_z ∷ [])) ≡ some stopped
unfolding step initial
reaches_stopped = start_job_lem (initial 100 100) 101 101 65 (ctrl_z ∷ []) (omega arith)

stopped-Reached : Reached 100 100 stopped
stopped-Reached = next (start (child 101 101 65) (ctrl_z ∷ [])) begun tt reaches_stopped

job_started :
    start_job stopped (child 102 102 66) (ctrl_c ∷ ctrl_z ∷ [])
    ≡ some (record {
      pt =
          store stopped.pt 2
            (record { pid = 102; pgid = 102; status = Status.terminated; argument = 66 });
      current_job_index = 2;
      total_jobs = 2;
      sent = (101, Signal.sigtstp) ∷ (102, Signal.sigint) ∷ [];
    })
job_started = start_job_lem stopped 102 102 66 (ctrl_c ∷ ctrl_z ∷ []) (omega arith)

stopped_continued :
    continue_job stopped (pos 1) [] ≡ record (set_status stopped 1 Status.finished) {
      sent = (101, Signal.sigtstp) ∷ (101, Signal.sigcont) ∷ [];
    }
stopped_continued = continue_job_lem stopped 1 [] (omega arith) refl

suspended_killed : kill_job stopped (pos 1) ≡ record (set_status stopped 1 Status.killed) {
  sent = (101, Signal.sigtstp) ∷ (101, Signal.sigkill) ∷ [];
}
suspended_killed = kill_job_lem stopped 1 (omega arith) refl

choice_refused :
    (continue_job stopped (negsuc 0) [] ≡ stopped) × (kill_job stopped (negsuc 0) ≡ stopped)
choice_refused = refused stopped (negsuc 0) [] (λ i e. cc)

Reached-AtPrompt_example : AtPrompt stopped
Reached-AtPrompt_example = Reached-AtPrompt stopped-Reached

strike_once_current : step stopped (strike ctrl_c) ≡ some stopped
strike_once_current = strike_ignored stopped ctrl_c stopped-Reached (omega arith)

suspended_job_killed :
    cleanup stopped ≡ record stopped { sent = (101, Signal.sigtstp) ∷ (101, Signal.sigkill) ∷ [] }
suspended_job_killed = cleanup_lem stopped stopped-Reached

own_group_killed :
    (kill_job (handle (initial 100 100) ctrl_z) (pos 0)).sent
    ≡ (100, Signal.sigtstp) ∷ (100, Signal.sigkill) ∷ []
own_group_killed = manager_kills_itself 100 100

failed_fork_kills_all :
    (n : Mgr) × (start_job stopped failed [] ≡ some n)
    × ((cleanup n).sent ≡ (101, Signal.sigtstp) ∷ (101, Signal.sigkill) ∷ (0, Signal.sigkill) ∷ [])
unfolding initial
failed_fork_kills_all =
    failed_fork_kills_group stopped [] Reached-AtPrompt_example (omega arith) refl
