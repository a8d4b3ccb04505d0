-- ===== src/Proc/Walk.antt =====
-- What becomes of a process of Assignment_08/proc.c under the memory manager.
use mathlib.Core.List.{append_assoc}
use os_lab_spr.Base.{
  ℕ, suc, ◌+◌, ◌-◌, ◌*◌, ◌≤◌, ◌<◌, ◌≡◌, ◌≢◌, inl, inr, refl, ap, ◌∙◌, true, false, Option, some,
  List, [], ◌∷◌, ◌++◌, ℤ, pos, negsuc, eqb_ℤ, ltb, ◌==◌, ◌>>=◌, arith,
}
use os_lab_spr.Mmu.{
  Mmu, serve_request, to_char, page_fault, invalid_page_number, process_done, Notice, process_term,
  refer, refuse, access, free_pages, send_reply, notify_scheduler,
}
use os_lab_spr.Mmu.Evict.{Exhausted, access-Exhausted}
use os_lab_spr.Mmu.Frames.{refuse_sends, free_pages_sends}
use os_lab_spr.Mmu.Serve.{hit, loaded, access-hit, access-loaded, HasFrame}
use os_lab_spr.Proc.{last_reply, request, finish, walk}

last_reply-append : (rs : List (ℕ × ℤ)) (id : ℕ) (x : ℤ) → last_reply (rs ++ (id, x) ∷ []) ≡ some x
unfolding last_reply
last_reply-append [] id x = refl
last_reply-append (r ∷ []) id x = refl
last_reply-append (r ∷ (q ∷ rs)) id x = last_reply-append (q ∷ rs) id x

-- The state in which a page request is looked at.
abbrev pub ticked : Mmu → Mmu
ticked s = record s { time_stamp = s.time_stamp + 1 }

to_char_small : (p : ℕ) → p < 128 → to_char (pos p) ≡ pos p
unfolding to_char
to_char_small p h = ground arith

not_done : (p : ℕ) → (p + 9 == 0) ≡ false
not_done p = ground arith

module _ (g : ℕ) (s : Mmu) (id p : ℕ) (small : p < 128) where
  serve_access :
      p ≤ (s.pcb id).m → serve_request g s (some (id, to_char (pos p))) ≡ access g (ticked s) id p
  unfolding serve_request refer
  serve_access inside =
      let within : ltb (s.pcb id).m p ≡ false = ground arith in
      rw (to_char_small p small, not_done p, within)

  serve_refuse :
      (s.pcb id).m < p
      → serve_request g s (some (id, to_char (pos p))) ≡ some (refuse (ticked s) id)
  unfolding serve_request refer
  serve_refuse past =
      let out : ltb (s.pcb id).m p ≡ true = ground arith in
      rw (to_char_small p small, not_done p, out)

  -- What the process reads in the three cases.
  pub request-hit :
      p ≤ (s.pcb id).m
      → (s.page_table (id * s.m + p)).valid ≡ true
      → request g s id (pos p)
        ≡ some (hit (ticked s) id p, (s.page_table (id * s.m + p)).frame_number)
  unfolding request
  request-hit inside there = rw (
    serve_access inside,
    access-hit g (ticked s) id p there,
    last_reply-append s.replies id (s.page_table (id * s.m + p)).frame_number,
  )

  pub request-loaded :
      p ≤ (s.pcb id).m
      → (s.page_table (id * s.m + p)).valid ≡ false
      → HasFrame s id
      → request g s id (pos p) ≡ some (loaded (ticked s) id p, page_fault)
  unfolding request
  request-loaded inside absent frame = rw (
    serve_access inside,
    access-loaded g (ticked s) id p absent frame,
    last_reply-append s.replies id page_fault,
  )

  pub request-Exhausted :
      (b : ℕ)
      → p ≤ (s.pcb id).m
      → (s.page_table (id * s.m + p)).valid ≡ false
      → (s.page_table (id * s.m + p)).frame_number ≡ page_fault
      → Exhausted s id
      → ((j : ℕ) → (s.pcb j).m ≤ b)
      → b < g
      → 0 < id * s.m
      → (t : Mmu) × (request g s id (pos p) ≡ some (t, page_fault))
        × (t.m ≡ s.m)
        × (t.pcb ≡ s.pcb)
        × ((t.page_table (id * t.m + p)).valid ≡ true)
        × ((t.page_table (id * t.m + p)).frame_number ≡ page_fault)
  unfolding request
  request-Exhausted b inside absent frame full bound h row =
      let (t, e, r, tm, tp, v, fr) = access-Exhausted g b (ticked s) id p absent full bound h row in
      (
        t,
        rw (serve_access inside, e, r, last_reply-append s.replies id page_fault),
        tm,
        tp,
        rw tm v,
        rw tm (elim fr [ inl x ↦ x | inr x ↦ x ∙ frame ]),
      )

  pub request_refused :
      (s.pcb id).m < p → request g s id (pos p) ≡ some (refuse (ticked s) id, invalid_page_number)
  unfolding request refuse send_reply notify_scheduler
  request_refused past = rw (serve_refuse past) (
      ap (λ (l : List (ℕ × ℤ)). last_reply l >>= λ x. some (refuse (ticked s) id, x))
        ((refuse_sends (ticked s) id).0)
      ∙ ap (λ (o : Option ℤ). o >>= λ x. some (refuse (ticked s) id, x))
          (last_reply-append s.replies id invalid_page_number))

-- The message of a process that ends: its pages are freed and the scheduler is told.
pub finish_lem :
    (g : ℕ) (s : Mmu) (id : ℕ)
    → (t : Mmu) × (finish g s id ≡ some t)
      × (t.notices ≡ s.notices ++ process_term ∷ [])
      × (t.terminated ≡ s.terminated + 1)
      × (t.replies ≡ s.replies)
      × (t.page_faults ≡ s.page_faults)
      × (t.invalid_page_references ≡ s.invalid_page_references)
unfolding finish serve_request to_char
finish_lem g s id =
    let r = free_pages_sends s id in
    (
      (let t = notify_scheduler (free_pages id s) process_term in
          record t { terminated = t.terminated + 1 }),
      refl,
      ap (λ (l : List Notice). l ++ process_term ∷ []) r.1,
      ap (λ (n : ℕ). n + 1) r.2,
      r.0,
      r.3,
      r.4,
    )

-- A reference past the pages of the process ends it, and tells the scheduler twice that it has
-- ended: once for the reference, once for the message behind the loop.
pub invalid_reference_notified_twice :
    (fuel g : ℕ) (s : Mmu) (id p : ℕ) (pages : List ℤ)
    → p < 128
    → (s.pcb id).m < p
    → (t : Mmu) × (walk (suc fuel) g s id (pos p ∷ pages) ≡ some t)
      × (t.notices ≡ s.notices ++ process_term ∷ process_term ∷ [])
      × (t.terminated ≡ s.terminated + 1)
      × (t.replies ≡ s.replies ++ (id, invalid_page_number) ∷ [])
unfolding walk notify_scheduler
invalid_reference_notified_twice fuel g s id p pages small past =
    let (t, e, n, d, r, _, _) = finish_lem g (refuse (ticked s) id) id in
    let sent = refuse_sends (ticked s) id in
    (
      t,
      rw (request_refused g s id p small past) e,
      n
          ∙ ap (λ (l : List Notice). l ++ process_term ∷ []) (sent.1)
          ∙ append_assoc s.notices (process_term ∷ []) (process_term ∷ []),
      omega (arith, d, sent.2),
      r ∙ sent.0,
    )

-- The byte that carries page number `p` reads as a negative number from 128 on.
to_char_big : (p : ℕ) → 128 ≤ p → p < 256 → to_char (pos p) ≡ negsuc (255 - p)
unfolding to_char
to_char_big p h l = ground arith

done_alone : (p : ℕ) → 128 ≤ p → p < 256 → p ≢ 247 → eqb_ℤ (negsuc (255 - p)) process_done ≡ false
done_alone p h l ne = ground arith

done_byte : to_char (pos 247) ≡ to_char process_done
unfolding to_char
done_byte = refl

finish_is :
    (g : ℕ) (s : Mmu) (id : ℕ) → serve_request g s (some (id, to_char process_done)) ≡ finish g s id
unfolding finish
finish_is g s id = refl

refused_when_big :
    (g : ℕ) (s : Mmu) (id p : ℕ)
    → 128 ≤ p
    → p < 256
    → p ≢ 247
    → serve_request g s (some (id, to_char (pos p))) ≡ some (refuse (ticked s) id)
unfolding serve_request refer
refused_when_big g s id p h l ne = rw (to_char_big p h l, done_alone p h l ne) refl

-- A page number from 128 to 255 but 247 does not get through: the memory manager refuses it even
-- where the process has that page.
pub big_page :
    (g : ℕ) (s : Mmu) (id p : ℕ)
    → 128 ≤ p
    → p < 256
    → p ≢ 247
    → request g s id (pos p) ≡ some (refuse (ticked s) id, invalid_page_number)
unfolding request
big_page g s id p h l ne = rw (refused_when_big g s id p h l ne) (
    ap (λ (q : List (ℕ × ℤ)). last_reply q >>= λ x. some (refuse (ticked s) id, x))
      ((refuse_sends (ticked s) id).0)
    ∙ ap (λ (o : Option ℤ). o >>= λ x. some (refuse (ticked s) id, x))
        (last_reply-append s.replies id invalid_page_number))

-- A request for page 247 is taken for the end of the process: it gets no answer, the scheduler is
-- told and the process is counted as terminated.
pub page_247_ends :
    (g : ℕ) (s : Mmu) (id : ℕ)
    → (t : Mmu) × (serve_request g s (some (id, to_char (pos 247))) ≡ some t)
      × (t.replies ≡ s.replies)
      × (t.notices ≡ s.notices ++ process_term ∷ [])
      × (t.terminated ≡ s.terminated + 1)
page_247_ends g s id =
    let (t, r, n, d, a, _, _) = finish_lem g s id in
    (t, ap (λ (x : ℤ). serve_request g s (some (id, x))) done_byte ∙ finish_is g s id ∙ r, a, n, d)

-- The check for an invalid page lets through the number that is one past the pages of a process.
-- For a process that has a whole row, the answer is the frame of the first page of the next one.
pub one_past_reads_next :
    (g : ℕ) (s : Mmu) (id : ℕ)
    → (s.pcb id).m ≡ s.m
    → s.m < 128
    → (s.page_table ((id + 1) * s.m + 0)).valid ≡ true
    → (t : Mmu) × (request g s id (pos s.m)
        ≡ some (t, (s.page_table ((id + 1) * s.m + 0)).frame_number))
one_past_reads_next g s id own small there =
    let at : (id + 1) * s.m + 0 ≡ id * s.m + s.m = grind arith in
    let there1 : (s.page_table (id * s.m + s.m)).valid ≡ true = rw (← at) there in
    (hit (ticked s) id s.m, rw at (request-hit g s id s.m small (omega arith) there1))
