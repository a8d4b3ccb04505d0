-- ===== src/Mgr/Prompt.antt =====
-- What holds whenever the manager of Assignment_02/mgr.c waits for a command.
use mathlib.Core.Path.{subst}
use mathlib.Core.List.{append-nil, append_assoc}
use mathlib.Core.Option.{some-injective}
use os_lab_spr.Base.{
  ℕ, zero, suc, ◌+◌, ◌≤◌, ◌<◌, ◌≡◌, ◌≢◌, ◌⊎◌, inl, inr, refl, sym, ap, ◌∙◌, true, false, none, some,
  List, [], ◌∷◌, ◌++◌, arith, if◌then◌else◌, ℤ, pos, negsuc, store, ltb, leb, pos_part, ℕ_discrete,
  Bool-cases, ◌&&◌,
}
use os_lab_spr.Mgr.{
  max_jobs, Status, Signal, ProcessTableEntry, Mgr, is_running, is_suspended, Key, ctrl_c, ctrl_z,
  Fork, child, failed, handle, initial, Command, start, continue, destroys, strike, other, step,
  cleanup, cleanup_to, start_job,
}
use os_lab_spr.Mgr.Wait.{outcome, handle_idle}
use os_lab_spr.Mgr.Jobs.{start_job_lem, continue_job_lem, kill_job_lem, refused}

-- No job is left marked as running, and the indices are within the table.
pub record AtPrompt (m : Mgr) : Type 0 where
  pub room : m.total_jobs ≤ max_jobs
  pub current : m.current_job_index ≤ m.total_jobs
  pub stopped : (i : ℕ) → 0 < i → i ≤ m.total_jobs → is_running (m.pt i).status ≡ false

outcome_stopped : (ks : List Key) → is_running (outcome ks) ≡ false
outcome_stopped [] = refl
outcome_stopped (ctrl_c ∷ ks) = refl
outcome_stopped (ctrl_z ∷ ks) = refl

handle-AtPrompt : (m : Mgr) (k : Key) → AtPrompt m → AtPrompt (handle m k)
unfolding handle
handle-AtPrompt m ctrl_c p = record {
  room = ground (arith, p.room);
  current = ground (arith, p.current);
  stopped = λ i h l. ground (arith, p.stopped i);
}
handle-AtPrompt m ctrl_z p = record {
  room = ground (arith, p.room);
  current = ground (arith, p.current);
  stopped = λ i h l. ground (arith, p.stopped i);
}

-- A command whose `fork`, if it makes one, succeeds.
abbrev pub Forks : Command → Type 0
Forks (start failed ks) = ⊥
Forks c = Unit {0}

-- A choice names a suspended entry of the table, or none.
choice_cases :
    (m : Mgr) (c : ℤ)
    → ((i : ℕ) × (c ≡ pos i) × (i ≤ m.total_jobs) × ((m.pt i).status ≡ Status.suspended))
      ⊎ ((i : ℕ) → c ≡ pos i → i ≤ m.total_jobs → (m.pt i).status ≢ Status.suspended)
choice_cases m (negsuc i) = inr (λ j e. cc)
choice_cases m (pos i) = elim (Bool-cases (leb i m.total_jobs && is_suspended (m.pt i).status)) [
  | inl hit ↦ inl (i, refl, ground arith, suspended_of (m.pt i).status (ground arith))
  | inr miss ↦ inr (λ j e l s.
      let same : i ≡ j = ap pos_part e in
      let at : (m.pt i).status ≡ Status.suspended = rw same s in ground (arith, at, same))
]
  where
    suspended_of : (x : Status) → is_suspended x ≡ true → x ≡ Status.suspended
    suspended_of Status.suspended e = refl
    suspended_of Status.running e = cc
    suspended_of x e = cc

-- An entry of the table is given a status that is not `RUNNING`.
settle-AtPrompt :
    (m n : Mgr) (i : ℕ) (x : ProcessTableEntry)
    → AtPrompt m
    → i ≤ n.total_jobs
    → is_running x.status ≡ false
    → n.total_jobs ≤ max_jobs
    → n.current_job_index ≤ n.total_jobs
    → n.pt ≡ store m.pt i x
    → ((j : ℕ) → j ≤ n.total_jobs → j ≢ i → j ≤ m.total_jobs)
    → AtPrompt n
settle-AtPrompt m n i x p h r room cur e old = record {
  room = room;
  current = cur;
  stopped = λ j pos l. rw e (elim (ℕ_discrete i j) [
    | yes same ↦ ground arith
    | no ne ↦ ground (arith, p.stopped j, old j l (λ t. ne (sym t)))
  ]);
}

start_full :
    (m : Mgr) (f : Fork) (ks : List Key)
    → ltb m.total_jobs max_jobs ≡ false
    → start_job m f ks ≡ none
unfolding start_job
start_full m f ks h = rw h

none-ne-some : {m : Mgr} → none ≡ some m → ⊥
none-ne-some e = cc

pub step-AtPrompt :
    (m n : Mgr) (c : Command) → Forks c → AtPrompt m → step m c ≡ some n → AtPrompt n
unfolding step
step-AtPrompt m n (start (child pid pgid letter) ks) f p e =
    elim (Bool-cases (ltb m.total_jobs max_jobs)) [
      | inl room ↦
          let q =
            some-injective _ _ (sym (start_job_lem m pid pgid letter ks (ground arith)) ∙ e) in
          subst AtPrompt q (
            settle-AtPrompt m _ (m.total_jobs + 1) _ p (omega arith) (outcome_stopped ks)
              (ground arith) (omega arith) refl (λ j l ne. omega arith))
      | inr full ↦ absurd (none-ne-some (sym (start_full m (child pid pgid letter) ks full) ∙ e))
    ]
step-AtPrompt m n (start failed ks) f p e = absurd f
step-AtPrompt m n (continue c ks) f p e =
    subst AtPrompt (some-injective _ _ e) (elim (choice_cases m c) [
      | inl (i, q, l, s) ↦
          rw (q, continue_job_lem m i ks l s)
            (settle-AtPrompt m _ i _ p l (outcome_stopped ks) p.room l refl (λ j r ne. r))
      | inr miss ↦ rw ((refused m c ks miss).0) p
    ])
step-AtPrompt m n (destroys c) f p e =
    subst AtPrompt (some-injective _ _ e) (elim (choice_cases m c) [
      | inl (i, q, l, s) ↦
          rw (q, kill_job_lem m i l s)
            (settle-AtPrompt m _ i _ p l refl p.room p.current refl (λ j r ne. r))
      | inr miss ↦ rw ((refused m c [] miss).1) p
    ])
step-AtPrompt m n (strike k) f p e = subst AtPrompt (some-injective _ _ e) (handle-AtPrompt m k p)
step-AtPrompt m n other f p e = subst AtPrompt (some-injective _ _ e) p

-- The states that the manager can be in at the prompt, if no `fork` fails.
pub data Reached (pid pgid : ℕ) : Mgr → Type 0 where
  begun : Reached pid pgid (initial pid pgid)
  next :
      {m n : Mgr} (c : Command)
      → Reached pid pgid m
      → Forks c
      → step m c ≡ some n
      → Reached pid pgid n

-- At every prompt the table has at most `MAX_JOBS` jobs and none of them is marked as running.
pub Reached-AtPrompt : {pid pgid : ℕ} {m : Mgr} → Reached pid pgid m → AtPrompt m
unfolding initial
Reached-AtPrompt begun = record {
  room = omega arith;
  current = omega arith;
  stopped = λ i h l. absurd (omega arith);
}
Reached-AtPrompt (next {m} {n} c r f e) = step-AtPrompt m n c f (Reached-AtPrompt r) e

-- Once a job has been started, a key struck at the prompt does nothing.
pub strike_ignored :
    {pid pgid : ℕ} (m : Mgr) (k : Key)
    → Reached pid pgid m
    → 0 < m.current_job_index
    → step m (strike k) ≡ some m
unfolding step
strike_ignored m k r h =
    let p = Reached-AtPrompt r in
    ap some (handle_idle m k (p.stopped m.current_job_index h p.current))

-- The processes of the suspended jobs among the first `n`, in the table's order.
abbrev pub suspended_pids : ℕ → (ℕ → ProcessTableEntry) → List (ℕ × Signal)
suspended_pids zero pt = []
suspended_pids (suc n) pt =
    suspended_pids n pt
    ++ (if is_suspended (pt (suc n)).status then ((pt (suc n)).pid, Signal.sigkill) ∷ [] else [])

pub cleanup_to_lem :
    (n : ℕ) (m : Mgr)
    → ((i : ℕ) → 0 < i → i ≤ n → is_running (m.pt i).status ≡ false)
    → cleanup_to n m ≡ record m { sent = m.sent ++ suspended_pids n m.pt }
unfolding cleanup_to
cleanup_to_lem zero m h = rw (append-nil m.sent)
cleanup_to_lem (suc n) m h =
    rw (cleanup_to_lem n m (λ i p l. h i p (omega arith)))
      (elim (Bool-cases (is_suspended (m.pt (suc n)).status)) [
        | inl on ↦
            rw (h (suc n) (omega arith) (omega arith), on)
              (ap (λ (l : List (ℕ × Signal)). record m { sent = l })
                (append_assoc m.sent (suspended_pids n m.pt)
                  (((m.pt (suc n)).pid, Signal.sigkill) ∷ [])))
        | inr off ↦
            rw (h (suc n) (omega arith) (omega arith), off, append-nil (suspended_pids n m.pt))
      ])

-- `q` sends SIGKILL to the suspended jobs and to nothing else.
pub cleanup_lem :
    {pid pgid : ℕ} (m : Mgr)
    → Reached pid pgid m
    → cleanup m ≡ record m { sent = m.sent ++ suspended_pids m.total_jobs m.pt }
unfolding cleanup
cleanup_lem m r = cleanup_to_lem m.total_jobs m (Reached-AtPrompt r).stopped
