-- ===== src/Mgr/Wait.antt =====
-- A job in the foreground of Assignment_02/mgr.c: the first key struck while it runs decides.
use mathlib.Core.List.{append-nil}
use os_lab_spr.Base.{
  ℕ, ◌≡◌, refl, ap, ◌∙◌, true, false, List, [], ◌∷◌, ◌++◌, arith, ◌==◌, store, store_self,
  store-store,
}
use os_lab_spr.Mgr.{
  Status, Signal, ProcessTableEntry, Mgr, is_running, set_status, kill, Key, ctrl_c, ctrl_z, handle,
  await, mark_finished,
}

-- What becomes of a running job, and what it is sent.
abbrev pub outcome : List Key → Status
outcome [] = Status.finished
outcome (ctrl_c ∷ ks) = Status.terminated
outcome (ctrl_z ∷ ks) = Status.suspended

abbrev pub passed_on : ℕ → List Key → List (ℕ × Signal)
passed_on pid [] = []
passed_on pid (ctrl_c ∷ ks) = (pid, Signal.sigint) ∷ []
passed_on pid (ctrl_z ∷ ks) = (pid, Signal.sigtstp) ∷ []

pub handle_idle :
    (m : Mgr) (k : Key) → is_running (m.pt m.current_job_index).status ≡ false → handle m k ≡ m
unfolding handle
handle_idle m ctrl_c h = rw h
handle_idle m ctrl_z h = rw h

await_idle :
    (m : Mgr) (ks : List Key)
    → is_running (m.pt m.current_job_index).status ≡ false
    → await m ks ≡ m
unfolding await
await_idle m [] h = refl
await_idle m (k ∷ ks) h = rw (handle_idle m k h) (await_idle m ks h)

wait_idle :
    (m : Mgr) (ks : List Key)
    → is_running (m.pt m.current_job_index).status ≡ false
    → mark_finished (await m ks) ≡ m
wait_idle m ks h = rw (await_idle m ks h, h)

self : (i : ℕ) → (i == i) ≡ true
self i = ground arith

-- `waitpid` on a running job and the test behind it: only that entry's status changes, to the
-- outcome of the first key, and the job is sent that key's signal and nothing more.
pub await_lem :
    (m : Mgr) (ks : List Key)
    → is_running (m.pt m.current_job_index).status ≡ true
    → mark_finished (await m ks) ≡ record (set_status m m.current_job_index (outcome ks)) {
      sent = m.sent ++ passed_on (m.pt m.current_job_index).pid ks;
    }
unfolding await handle
await_lem m [] h = rw (h, append-nil m.sent)
await_lem m (ctrl_c ∷ ks) h =
    let stopped =
      kill (set_status m m.current_job_index Status.terminated) (m.pt m.current_job_index).pid
        Signal.sigint in
    ap (λ x. mark_finished (await x ks)) (let e : handle m ctrl_c ≡ stopped = rw h in e)
    ∙ wait_idle stopped ks (rw (self m.current_job_index))
await_lem m (ctrl_z ∷ ks) h =
    let stopped =
      kill (set_status m m.current_job_index Status.suspended) (m.pt m.current_job_index).pid
        Signal.sigtstp in
    ap (λ x. mark_finished (await x ks)) (let e : handle m ctrl_z ≡ stopped = rw h in e)
    ∙ wait_idle stopped ks (rw (self m.current_job_index))

-- So for a job that is put into entry `i`.
pub await_job :
    (m : Mgr) (i : ℕ) (e : ProcessTableEntry) (ks : List Key)
    → is_running e.status ≡ true
    → mark_finished (await (record m { pt = store m.pt i e; current_job_index = i }) ks)
      ≡ record m {
        pt = store m.pt i (record e { status = outcome ks });
        current_job_index = i;
        sent = m.sent ++ passed_on e.pid ks;
      }
await_job m i e ks h =
    await_lem (record m { pt = store m.pt i e; current_job_index = i }) ks (rw (self i) h)
    ∙ ap
        (λ (x : ProcessTableEntry). record m {
          pt = store (store m.pt i e) i (record x { status = outcome ks });
          current_job_index = i;
          sent = m.sent ++ passed_on x.pid ks;
        })
        (store_self m.pt i e)
    ∙ ap
        (λ (q : ℕ → ProcessTableEntry). record m {
          pt = q;
          current_job_index = i;
          sent = m.sent ++ passed_on e.pid ks;
        })
        (store-store m.pt i e (record e { status = outcome ks }))
