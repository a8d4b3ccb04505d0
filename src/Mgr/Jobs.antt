-- ===== src/Mgr/Jobs.antt =====
-- The commands of Assignment_02/mgr.c between one prompt and the next.
use os_lab_spr.Base.{
  ℕ, zero, suc, ◌+◌, ◌≤◌, ◌<◌, ◌≡◌, ◌≢◌, inl, inr, refl, ap, ◌∙◌, false, none, some, Option, List,
  [], ◌∷◌, ◌++◌, arith, ◌==◌, if◌then◌else◌, ℤ, pos, negsuc, store, ltb, lt→ltb, ℕ_discrete,
  Bool-cases,
}
use os_lab_spr.Mgr.{
  max_jobs, Status, Signal, ProcessTableEntry, Mgr, is_suspended, set_status, Key, child, start_job,
  chosen, continue_job, kill_job, resume, destroy, count_suspended,
}
use os_lab_spr.Mgr.Wait.{outcome, passed_on, await_job}

suspended_counted :
    (n : ℕ) (pt : ℕ → ProcessTableEntry) (i : ℕ)
    → i < n
    → (pt i).status ≡ Status.suspended
    → (count_suspended n pt == 0) ≡ false
unfolding count_suspended
suspended_counted zero pt i h e = absurd (omega arith)
suspended_counted (suc n) pt i h e = elim (ℕ_discrete i n) [
  | yes same ↦ let at : (pt n).status ≡ Status.suspended = rw (← same) e in rw at (ground arith)
  | no ne ↦ ground (arith, suspended_counted n pt i (omega arith) e)
]

chosen-some :
    (m : Mgr) (i : ℕ)
    → i ≤ m.total_jobs
    → (m.pt i).status ≡ Status.suspended
    → chosen m (pos i) ≡ some i
chosen-some m i h e = let near : ltb m.total_jobs i ≡ false = ground arith in rw (near, e)

-- With room in the table, `r` adds one job behind the others: it gets the outcome of the first key
-- struck while it runs, and is sent that key's signal. The old entries keep theirs.
pub start_job_lem :
    (m : Mgr) (pid pgid letter : ℕ) (ks : List Key)
    → m.total_jobs < max_jobs
    → let i = m.total_jobs + 1 in
      start_job m (child pid pgid letter) ks
      ≡ some (record {
        pt =
            store m.pt i
              (record { pid = pid; pgid = pgid; status = outcome ks; argument = letter });
        current_job_index = i;
        total_jobs = i;
        sent = m.sent ++ passed_on pid ks;
      })
unfolding start_job
start_job_lem m pid pgid letter ks h =
    let i = m.total_jobs + 1 in
    let entry : ProcessTableEntry = record {
      pid = pid;
      pgid = pgid;
      status = Status.running;
      argument = letter;
    } in
    rw (lt→ltb _ _ h)
      (ap some (await_job (record m { total_jobs = i; current_job_index = i }) i entry ks refl))

-- `c` with a suspended entry of the table resumes it: its process is sent SIGCONT, then it gets the
-- outcome of the first key struck while it runs. Every other entry is kept.
pub continue_job_lem :
    (m : Mgr) (i : ℕ) (ks : List Key)
    → i ≤ m.total_jobs
    → (m.pt i).status ≡ Status.suspended
    → continue_job m (pos i) ks ≡ record (set_status m i (outcome ks)) {
      current_job_index = i;
      sent = (m.sent ++ ((m.pt i).pid, Signal.sigcont) ∷ []) ++ passed_on (m.pt i).pid ks;
    }
unfolding continue_job
continue_job_lem m i ks h e =
    ap (λ (o : Option ℕ). if count_suspended (m.total_jobs + 1) m.pt == 0 then m else resume m o ks)
      (chosen-some m i h e)
    ∙ rw (suspended_counted (m.total_jobs + 1) m.pt i (omega arith) e) (
        await_job (record m { sent = m.sent ++ ((m.pt i).pid, Signal.sigcont) ∷ [] }) i
          (record (m.pt i) { status = Status.running }) ks refl)

chosen-none :
    (m : Mgr) (c : ℤ)
    → ((i : ℕ) → c ≡ pos i → i ≤ m.total_jobs → (m.pt i).status ≢ Status.suspended)
    → chosen m c ≡ none
chosen-none m (negsuc i) h = refl
chosen-none m (pos i) h = elim (Bool-cases (ltb m.total_jobs i)) [
  | inl past ↦ rw past
  | inr inside ↦
      let off : is_suspended (m.pt i).status ≡ false =
        not_suspended (m.pt i).status (h i refl (ground arith)) in
      rw (inside, off)
]
  where
    not_suspended : (x : Status) → x ≢ Status.suspended → is_suspended x ≡ false
    not_suspended Status.suspended n = absurd (n refl)
    not_suspended Status.running n = refl
    not_suspended x n = refl

-- A choice that names no suspended entry of the table is refused by `c` and by `k`: nothing changes
-- and no signal is sent.
pub refused :
    (m : Mgr) (c : ℤ) (ks : List Key)
    → ((i : ℕ) → c ≡ pos i → i ≤ m.total_jobs → (m.pt i).status ≢ Status.suspended)
    → (continue_job m c ks ≡ m) × (kill_job m c ≡ m)
unfolding continue_job kill_job
refused m c ks h =
    let e = chosen-none m c h in
    (
      elim (Bool-cases (count_suspended (m.total_jobs + 1) m.pt == 0)) [
        | inl z ↦ rw z
        | inr some_are ↦ rw some_are (ap (λ (o : Option ℕ). resume m o ks) e)
      ],
      elim (Bool-cases (count_suspended (m.total_jobs + 1) m.pt == 0)) [
        | inl z ↦ rw z
        | inr some_are ↦ rw some_are (ap (λ (o : Option ℕ). destroy m o) e)
      ],
    )

-- `k` with a suspended entry sends its process SIGKILL and marks it killed. All else is kept.
pub kill_job_lem :
    (m : Mgr) (i : ℕ)
    → i ≤ m.total_jobs
    → (m.pt i).status ≡ Status.suspended
    → kill_job m (pos i) ≡ record (set_status m i Status.killed) {
      sent = m.sent ++ ((m.pt i).pid, Signal.sigkill) ∷ [];
    }
unfolding kill_job
kill_job_lem m i h e =
    ap (λ (o : Option ℕ). if count_suspended (m.total_jobs + 1) m.pt == 0 then m else destroy m o)
      (chosen-some m i h e)
    ∙ rw (suspended_counted (m.total_jobs + 1) m.pt i (omega arith) e)
