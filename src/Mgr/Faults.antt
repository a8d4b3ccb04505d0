-- ===== src/Mgr/Faults.antt =====
-- Two ways in which entry 0 and unused entries of the table in Assignment_02/mgr.c are taken for
-- jobs.
use native.Mathlib.Numerals.{add-one}
use os_lab_spr.Base.{
  ℕ, suc, ◌+◌, ◌≤◌, ◌<◌, ◌≡◌, refl, ap, false, some, List, [], ◌∷◌, ◌++◌, arith, pos, lt→ltb,
}
use os_lab_spr.Mgr.{
  max_jobs, Signal, Mgr, blank, is_running, Key, ctrl_z, failed, handle, initial, start_job,
  kill_job, cleanup, cleanup_to,
}
use os_lab_spr.Mgr.Jobs.{kill_job_lem}
use os_lab_spr.Mgr.Prompt.{AtPrompt, suspended_pids, cleanup_to_lem}

-- Control-Z at the first prompt marks the manager's own entry as suspended; `k` then offers entry 0,
-- and that choice sends SIGKILL to the manager.
pub manager_kills_itself :
    (pid pgid : ℕ)
    → (kill_job (handle (initial pid pgid) ctrl_z) (pos 0)).sent
      ≡ (pid, Signal.sigtstp) ∷ (pid, Signal.sigkill) ∷ []
unfolding handle initial
manager_kills_itself pid pgid =
    ap (λ (m : Mgr). m.sent) (kill_job_lem (handle (initial pid pgid) ctrl_z) 0 (omega arith) refl)

cleanup_blank :
    (k : ℕ) (n : Mgr)
    → ((i : ℕ) → 0 < i → i ≤ k → is_running (n.pt i).status ≡ false)
    → n.pt (suc k) ≡ blank
    → (cleanup_to (suc k) n).sent ≡ n.sent ++ suspended_pids k n.pt ++ (0, Signal.sigkill) ∷ []
unfolding cleanup_to
cleanup_blank k n h e = rw (cleanup_to_lem k n h) (rw e)

-- When `fork` fails, the new entry stays blank, which reads as a running job of process 0: `q` then
-- sends SIGKILL to process 0, that is to the manager's whole process group, besides the suspended
-- jobs.
pub failed_fork_kills_group :
    (m : Mgr) (ks : List Key)
    → AtPrompt m
    → m.total_jobs < max_jobs
    → m.pt (m.total_jobs + 1) ≡ blank
    → (n : Mgr) × (start_job m failed ks ≡ some n)
      × ((cleanup n).sent ≡ m.sent ++ suspended_pids m.total_jobs m.pt ++ (0, Signal.sigkill) ∷ [])
unfolding start_job cleanup
failed_fork_kills_group m ks p room e = (
  record m { total_jobs = m.total_jobs + 1; current_job_index = m.total_jobs + 1 },
  rw (lt→ltb _ _ room),
  rw (add-one m.total_jobs) (
      cleanup_blank m.total_jobs
        (record m { total_jobs = suc m.total_jobs; current_job_index = suc m.total_jobs }) p.stopped
        (rw (← add-one m.total_jobs) e)),
)
