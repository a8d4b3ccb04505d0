-- ===== src/Sched/Early.antt =====
-- Where the programs of Assignment_08 go wrong together: one invalid reference of a process of proc.c
-- ends two processes for sched.c.
use os_lab_spr.Base.{
  ℕ, suc, ◌+◌, ◌<◌, ◌≡◌, refl, ap, ◌∙◌, arith, ◌==◌, true, false, some, List, [], ◌∷◌, ◌++◌, ℤ, pos,
}
use os_lab_spr.Mmu.{Mmu, Notice, process_term}
use os_lab_spr.Proc.{walk}
use os_lab_spr.Proc.Walk.{invalid_reference_notified_twice}
use os_lab_spr.Sched.{Sched, start_first, start_next, hear, done, stopped, loop}

-- The two rounds that hear of one process.
twice_heard :
    (k : ℕ) (s : Sched) (id next : ℕ) (others : List ℕ)
    → s.ready ≡ id ∷ (next ∷ others)
    → s.term_count + 2 ≡ k
    → (t : Sched) × (loop k s (process_term ∷ process_term ∷ []) ≡ stopped t)
      × (t.gone ≡ next ∷ (id ∷ s.gone))
      × (t.ready ≡ others)
unfolding loop start_next start_first hear done
twice_heard k s id next others e c =
    let first : (s.term_count + 1 == k) ≡ false = ground arith in
    let second : (s.term_count + 1 + 1 == k) ≡ true = ground arith in
    (
      record s {
        ready = others;
        sent = (s.sent ++ id ∷ []) ++ next ∷ [];
        gone = next ∷ (id ∷ s.gone);
        term_count = s.term_count + 1 + 1;
      },
      rw (e, first, second) refl,
      refl,
      refl,
    )

-- With two processes left to end, one of them makes a reference past its pages: the notices of it
-- alone end the scheduler, which counts the next process of the queue as ended too.
pub invalid_reference_ends_scheduler :
    (fuel g k : ℕ) (m : Mmu) (s : Sched) (id next p : ℕ) (others : List ℕ) (pages : List ℤ)
    → p < 128
    → (m.pcb id).m < p
    → m.notices ≡ []
    → s.ready ≡ id ∷ (next ∷ others)
    → s.term_count + 2 ≡ k
    → (t : Mmu) × (u : Sched) × (walk (suc fuel) g m id (pos p ∷ pages) ≡ some t)
      × (loop k s t.notices ≡ stopped u)
      × (u.gone ≡ next ∷ (id ∷ s.gone))
      × (t.terminated ≡ m.terminated + 1)
invalid_reference_ends_scheduler fuel g k m s id next p others pages small past none_yet queue c =
    let (t, e, n, d, _) = invalid_reference_notified_twice fuel g m id p pages small past in
    let (u, r, gone, _) = twice_heard k s id next others queue c in
    let told : t.notices ≡ process_term ∷ process_term ∷ [] =
      n ∙ ap (λ (l : List Notice). l ++ process_term ∷ process_term ∷ []) none_yet in
    (t, u, e, ap (loop k s) told ∙ r, gone, d)
