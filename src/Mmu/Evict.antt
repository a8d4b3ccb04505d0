-- ===== src/Mmu/Evict.antt =====
-- `page_fault_handler` of Assignment_08/mmu.c where no frame is free for the process.
use os_lab_spr.Base.{
  ℕ, zero, suc, ◌+◌, ◌-◌, ◌*◌, ◌≤◌, ◌<◌, ◌≡◌, ◌⊎◌, inl, inr, refl, true, false, ◌&&◌, ◌||◌, not,
  some, none, Option, arith, ◌==◌, ltb, ℤ, pos, negsuc, store, ltb_ℤ, ◌≤ℤ◌, Bool-cases, [], ◌∷◌,
  ◌++◌,
}
use os_lab_spr.Mmu.{
  PageTableEntry, Mmu, Victim, scan, evict, page_fault_handler, page_fault, access,
  page_fault_handled,
}

-- No frame is free for process `id`, or its share is used up.
abbrev pub Exhausted : Mmu → ℕ → Type 0
Exhausted s id = (s.top ≡ 0) ⊎ ((s.pcb id).frame_count ≤ℤ pos (s.pcb id).frame_allocated)

-- What the scan hands on: nothing yet, or the frame of the page that is asked for.
abbrev Own : PageTableEntry → Victim → Type 0
Own own v = (v.frame ≡ page_fault) ⊎ (v.frame ≡ own.frame_number)

scan-Own :
    (fuel b : ℕ) (s : Mmu) (own : PageTableEntry) (i : ℕ) (v : Victim)
    → ((j : ℕ) → (s.pcb j).m ≤ b)
    → b < fuel + i
    → 0 < fuel
    → Own own v
    → (r : Victim) × (scan fuel s own i v ≡ some r) × Own own r
unfolding scan
scan-Own zero b s own i v bound h l o = absurd (omega arith)
scan-Own (suc fuel) b s own i v bound h l o = elim (Bool-cases (ltb i (s.pcb i).m)) [
  | inr past ↦ (v, rw past, o)
  | inl more ↦ rw more (
      let left : 0 < fuel = ground (arith, bound i) in
      elim (Bool-cases ((s.page_table i).valid && ltb own.count v.min)) [
        | inl found ↦ rw found (scan-Own fuel b s own (i + 1) _ bound (omega arith) left (inr refl))
        | inr not_found ↦ rw not_found (scan-Own fuel b s own (i + 1) v bound (omega arith) left o)
      ])
]

-- What `page_fault_handler` returns for page `p`: a frame number that is -1 or the one that stands
-- in the entry of the page itself, and a state in which only the table has changed.
abbrev pub GivesOwn : Mmu → ℕ → ℕ → Option (Mmu × ℤ) → Type 0
GivesOwn s id p r =
    (t : Mmu) × (frame : ℤ) × (r ≡ some (t, frame))
    × ((frame ≡ page_fault) ⊎ (frame ≡ (s.page_table (id * s.m + p)).frame_number))
    × (t.m ≡ s.m)
    × (t.pcb ≡ s.pcb)
    × (t.replies ≡ s.replies)
    × (t ≡ record s { page_table = t.page_table })

evict_lem :
    (s : Mmu) (id : ℕ) (i : Option ℕ)
    → 0 < id * s.m
    → (t : Mmu) × (evict s id i ≡ some t)
      × (t.m ≡ s.m)
      × (t.pcb ≡ s.pcb)
      × (t.replies ≡ s.replies)
      × (t ≡ record s { page_table = t.page_table })
unfolding evict
evict_lem s id (some i) h = (_, refl, refl, refl, refl, refl)
evict_lem s id none h =
    let e : (id * s.m == 0) ≡ false = ground arith in
    (
      (let j = id * s.m - 1 in
          record s {
            page_table = store s.page_table j (record (s.page_table j) { valid = false });
          }),
      rw e,
      refl,
      refl,
      refl,
      refl,
    )

-- Where no frame is free, a page fault of any process but the first is answered, with enough fuel
-- to pass every process's number of pages; whichever entry is marked as not valid, the frame number that
-- is given is -1 or the one that stands in the entry of the page itself, and only the table changes.
pub page_fault_handler-GivesOwn :
    (fuel b : ℕ) (s : Mmu) (id p : ℕ)
    → Exhausted s id
    → ((j : ℕ) → (s.pcb j).m ≤ b)
    → b < fuel
    → 0 < id * s.m
    → GivesOwn s id p (page_fault_handler fuel s id p)
unfolding page_fault_handler
page_fault_handler-GivesOwn fuel b s id p full bound h row =
    let full_test : (s.top == 0
          || not (ltb_ℤ (pos (s.pcb id).frame_allocated) (s.pcb id).frame_count))
        ≡ true =
      ground arith in
    let own = s.page_table (id * s.m + p) in
    let (v, e, o) =
      scan-Own fuel b s own 0 (record { min = 2147483647; mini = none; frame = negsuc 0 }) bound
        (omega arith) (omega arith) (inl refl) in
    let (t, e2, a, c, d, only) = evict_lem s id v.mini row in
    (t, v.frame, rw (full_test, e, e2), o, a, c, d, only)

-- The page is marked as valid, with the frame -1 or the one that stood in its entry.
pub access-Exhausted :
    (fuel b : ℕ) (s : Mmu) (id p : ℕ)
    → (s.page_table (id * s.m + p)).valid ≡ false
    → Exhausted s id
    → ((j : ℕ) → (s.pcb j).m ≤ b)
    → b < fuel
    → 0 < id * s.m
    → (t : Mmu) × (access fuel s id p ≡ some t)
      × (t.replies ≡ s.replies ++ (id, page_fault) ∷ [])
      × (t.m ≡ s.m)
      × (t.pcb ≡ s.pcb)
      × ((t.page_table (id * s.m + p)).valid ≡ true)
      × (((t.page_table (id * s.m + p)).frame_number ≡ page_fault)
          ⊎ ((t.page_table (id * s.m + p)).frame_number
              ≡ (s.page_table (id * s.m + p)).frame_number))
unfolding access
access-Exhausted fuel b s id p absent full bound h row =
    let s1 = record s {
      page_faults = store s.page_faults id (s.page_faults id + 1);
      replies = s.replies ++ (id, page_fault) ∷ [];
    } in
    let (t, frame, e, o, a, c, d, only) =
      page_fault_handler-GivesOwn fuel b s1 id p full bound h row in
    (
      record t {
        page_table =
            store t.page_table (id * s.m + p)
              (record { valid = true; frame_number = frame; count = s.time_stamp });
        notices = t.notices ++ page_fault_handled ∷ [];
      },
      rw (absent, e),
      d,
      a,
      c,
      ground arith,
      ground (arith, o),
    )
