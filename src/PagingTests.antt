-- ===== src/PagingTests.antt =====
-- Runs of the demand-paging system of Assignment_08 (master.c, mmu.c, proc.c, sched.c) on small inputs.
use os_lab_spr.Base.{
  ℕ, ◌+◌, ◌≤◌, ◌<◌, ◌≡◌, ◌≢◌, inl, inr, refl, arith, true, false, none, some, [], ◌∷◌, ℤ, pos,
  negsuc, ◌<ℤ◌, store, map, ◌+ℤ◌,
}
use os_lab_spr.Mmu.{
  Mmu, PageTableEntry, Pcb, process_term, page_fault_handled, page_fault, invalid_page_number,
  serve_request, page_fault_handler, to_char, refuse,
}
use os_lab_spr.Mmu.Frames.{Conserved}
use os_lab_spr.Mmu.Serve.{
  hit, loaded, loaded-Conserved, serve_request-Conserved, Conserved-distinct,
}
use os_lab_spr.Mmu.Evict.{GivesOwn, page_fault_handler-GivesOwn}
use os_lab_spr.Proc.{request, walk}
use os_lab_spr.Proc.Walk.{
  ticked, invalid_reference_notified_twice, big_page, page_247_ends, one_past_reads_next,
}
use os_lab_spr.Proc.Finish.{Ready, Ended, walk_ends, Exhausted-never_ends}
use os_lab_spr.Master.{
  start, create_pcb, create_page_tables, clear_row, draw_pages, share_out, sum_pages,
  round_quotient,
}
use os_lab_spr.Master.Setup.{sum_ℤ, start-Conserved, create_pcb-shares}
use os_lab_spr.Sched.{Sched, stopped, loop}
use os_lab_spr.Sched.Rounds.{known, resting, running, size, loop_keeps, loop_ends}
use os_lab_spr.Sched.Early.{invalid_reference_ends_scheduler}

abbrev no_entry : ℕ → PageTableEntry
no_entry i = record { valid = true; frame_number = pos 77; count = 5 }

abbrev no_pcb : ℕ → Pcb
no_pcb i = record { m = 9; frame_count = pos 9; frame_allocated = 9 }

abbrev no_list : ℕ → ℤ
no_list i = pos 55

-- What master.c sets up for `k` processes, rows of 4 pages and `f` frames, with 0 drawn.
abbrev begin : ℕ → ℕ → Mmu
begin k f = start k 4 f (λ _. 0) no_entry no_list no_pcb

small_start-Conserved : Conserved 2 5 (start 2 4 5 (λ _. 0) no_entry no_list no_pcb)
small_start-Conserved = start-Conserved 2 4 5 (λ _. 0) no_entry no_list no_pcb

-- The counts of six processes with one page each and 9 frames: the second one gets -1.
negative_count : (create_pcb 6 4 9 (λ _. 0) no_pcb 1).frame_count ≡ negsuc 0
unfolding create_pcb draw_pages share_out sum_pages round_quotient ◌+ℤ◌
negative_count = refl

create_pcb-shares_example :
    let made = create_pcb 6 4 9 (λ _. 0) no_pcb in
    (sum_ℤ 6 (λ i. (made i).frame_count) ≡ pos 9)
    × ((i : ℕ) → i < 6 → (1 ≤ (made i).m) × ((made i).m ≤ 4))
    × (j : ℕ) × (j < 6)
    × ((i : ℕ) → i < 6 → i ≢ j → pos 0 <ℤ (made i).frame_count)
create_pcb-shares_example =
    create_pcb-shares 6 4 9 (λ _. 0) no_pcb (omega arith) (omega arith) (omega arith) (omega arith)

-- A row of 4 pages for process 1, which has 2 pages and 3 frames; page 0 stands in frame 7.
abbrev paged : Mmu
paged = record {
  m = 4;
  pcb = λ i. record { m = 2; frame_count = pos 3; frame_allocated = 0 };
  page_table =
      store (λ i. record { valid = false; frame_number = negsuc 0; count = 0 }) 4
        (record { valid = true; frame_number = pos 2; count = 0 });
  top = 2;
  freelist = pos;
  page_faults = λ _. 0;
  invalid_page_references = λ _. 0;
  time_stamp = 0;
  terminated = 0;
  replies = [];
  notices = [];
}

-- The same without a free frame.
abbrev crowded : Mmu
crowded = record paged { top = 0 }

page_fault_handler-GivesOwn_example : GivesOwn crowded 1 1 (page_fault_handler 3 crowded 1 1)
page_fault_handler-GivesOwn_example =
    page_fault_handler-GivesOwn 3 2 crowded 1 1 (inl refl) (λ j. omega arith) (omega arith)
      (omega arith)

paged-Ready : Ready paged 1 2
paged-Ready = record {
  enough = omega arith;
  share = omega arith;
  listed = λ i h. omega arith;
  mapped = λ p h v. ground arith;
}

walk_ends_example : Ended 2 paged 1 (walk 5 0 paged 1 (map pos (0 ∷ 1 ∷ [])))
walk_ends_example =
    walk_ends 5 0 paged 1 (0 ∷ 1 ∷ []) (omega arith)
      ((omega arith, omega arith, omega arith), ((omega arith, omega arith, omega arith), tt))
      paged-Ready

Exhausted-never_ends_example :
    (walk 9 3 crowded 1 (pos 1 ∷ []) ≡ none)
    × (t : Mmu) × (request 3 crowded 1 (pos 1) ≡ some (t, page_fault))
    × (request 3 t 1 (pos 1) ≡ some (hit (ticked t) 1 1, page_fault))
Exhausted-never_ends_example =
    Exhausted-never_ends 9 3 2 crowded 1 1 [] (omega arith) (omega arith) refl refl (inl refl)
      (λ j. omega arith) (omega arith) (omega arith)

told_twice :
    (t : Mmu) × (walk 1 0 paged 1 (pos 3 ∷ []) ≡ some t)
    × (t.notices ≡ process_term ∷ process_term ∷ [])
    × (t.terminated ≡ 1)
    × (t.replies ≡ (1, invalid_page_number) ∷ [])
told_twice = invalid_reference_notified_twice 0 0 paged 1 3 [] (omega arith) (omega arith)

-- A process with a whole row of 130 pages: its pages from 128 on are refused.
abbrev big_row : Mmu
big_row = record paged {
  m = 300;
  pcb = λ i. record { m = 300; frame_count = pos 3; frame_allocated = 0 };
}

page_130_refused :
    request 0 big_row 1 (pos 130) ≡ some (refuse (ticked big_row) 1, invalid_page_number)
page_130_refused = big_page 0 big_row 1 130 (omega arith) (omega arith) (omega arith)

last_page_taken :
    (t : Mmu) × (serve_request 0 big_row (some (1, to_char (pos 247))) ≡ some t)
    × (t.replies ≡ [])
    × (t.notices ≡ process_term ∷ [])
    × (t.terminated ≡ 1)
last_page_taken = page_247_ends 0 big_row 1

-- Process 0 has a whole row; page 0 of process 1 is in memory.
abbrev whole_row : Mmu
whole_row = record paged { pcb = λ i. record { m = 4; frame_count = pos 3; frame_allocated = 0 } }

page_one_past : (t : Mmu) × (request 0 whole_row 0 (pos 4) ≡ some (t, pos 2))
page_one_past = one_past_reads_next 0 whole_row 0 refl (omega arith) refl

share_of_first : pos 0 <ℤ (create_pcb 2 4 5 (λ _. 0) no_pcb 0).frame_count
unfolding create_pcb draw_pages share_out sum_pages round_quotient ◌+ℤ◌
share_of_first = omega arith

in_row : (p : ℕ) → pos 1 ≡ pos p → p < 4
in_row p e = ground arith

none_taken : (create_pcb 2 4 5 (λ _. 0) no_pcb 0).frame_allocated ≡ 0
unfolding create_pcb draw_pages share_out sum_pages round_quotient ◌+ℤ◌
none_taken = refl

-- A process with 3 pages in the row, none in memory, and a frame for the page that it asks for.
serve_request-Conserved_example :
    (t : Mmu) × (serve_request 0 (begin 2 5) (some (0, pos 1)) ≡ some t) × Conserved 2 5 t
serve_request-Conserved_example =
    serve_request-Conserved 0 (begin 2 5) 0 (pos 1) (omega arith)
      (λ p e l. (in_row p e, inr (omega arith, omega (arith, share_of_first, none_taken))))
      (start-Conserved 2 4 5 (λ _. 0) no_entry no_list no_pcb)

-- Page 1 of process 0 is in memory, and only one entry has its frame.
abbrev one_loaded : Mmu
one_loaded = loaded (begin 2 5) 0 1

not_yet : ((begin 2 5).page_table 1).valid ≡ false
unfolding create_page_tables clear_row
not_yet = refl

pages_apart : ◌≡◌ {A = ℕ} 1 1
pages_apart =
    Conserved-distinct {k = 2} {f = 5} {s = one_loaded} 1 1
      (loaded-Conserved (begin 2 5) 0 1 (omega arith) (omega arith) not_yet (omega arith)
        (start-Conserved 2 4 5 (λ _. 0) no_entry no_list no_pcb))
      (omega arith) (omega arith) (ground arith) (ground arith) refl

-- Both processes wait for their turn; the first has a page fault, then both end.
abbrev queued : Sched
queued = record { ready = 0 ∷ 1 ∷ []; sent = []; gone = []; term_count = 0 }

queued_kept :
    known 1 (resting (loop 2 queued (page_fault_handled ∷ [])))
      + running 1 (loop 2 queued (page_fault_handled ∷ []))
    ≡ 1
queued_kept = loop_keeps 2 queued (page_fault_handled ∷ []) 1

loop_ends_example :
    (t : Sched) × (loop 2 queued (page_fault_handled ∷ process_term ∷ process_term ∷ [])
      ≡ stopped t)
    × (t.term_count ≡ 2)
    × (size t.gone + 0 ≡ 0 + 2)
    × (size t.ready + 2 ≡ 2 + 0)
loop_ends_example =
    loop_ends 2 queued (page_fault_handled ∷ process_term ∷ process_term ∷ []) (omega arith)
      (omega arith) (omega arith)

invalid_reference_ends_scheduler_example :
    (t : Mmu) × (u : Sched) × (walk 1 0 paged 0 (pos 3 ∷ []) ≡ some t)
    × (loop 2 queued t.notices ≡ stopped u)
    × (u.gone ≡ 1 ∷ 0 ∷ [])
    × (t.terminated ≡ 1)
invalid_reference_ends_scheduler_example =
    invalid_reference_ends_scheduler 0 0 2 paged queued 0 1 3 [] [] (omega arith) (omega arith) refl
      refl refl
