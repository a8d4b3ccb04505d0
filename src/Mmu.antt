-- ===== src/Mmu.antt =====
-- Assignment_08/mmu.c: the memory manager of the demand-paging system. It serves page requests from
-- a page table, a free list and process control blocks in shared memory, and answers by messages.
pub mod Frames
pub mod Serve
pub mod Evict
use os_lab_spr.Base.{
  ℕ, zero, suc, ◌+◌, ◌-◌, ◌*◌, ◌%◌, ◌^◌, ◌≤◌, ◌<◌, Bool, true, false, ◌&&◌, ◌||◌, not, Option, none,
  some, List, [], ◌∷◌, ◌++◌, ◌==◌, ltb, leb, if◌then◌else◌, ℤ, pos, negsuc, ltb_ℤ, eqb_ℤ, store,
  ◌>>=◌,
}

pub record PageTableEntry : Type 0 where
  pub valid : Bool
  pub frame_number : ℤ
  pub count : ℕ

pub record Pcb : Type 0 where
  pub m : ℕ
  pub frame_count : ℤ
  pub frame_allocated : ℕ

-- The `type` of a message to the scheduler.
pub data Notice : Type 0 where
  process_term page_fault_handled : Notice

-- The globals of mmu.c and the shared memory. `m` is the number of pages in a row of the table. The
-- free list is `freelist` up to `current`, which is `top - 1`. `replies` and `notices` are the
-- messages sent to the processes and to the scheduler, oldest first.
pub record Mmu : Type 0 where
  pub m : ℕ
  pub pcb : ℕ → Pcb
  pub page_table : ℕ → PageTableEntry
  pub top : ℕ
  pub freelist : ℕ → ℤ
  pub page_faults : ℕ → ℕ
  pub invalid_page_references : ℕ → ℕ
  pub time_stamp : ℕ
  pub terminated : ℕ
  pub replies : List (ℕ × ℤ)
  pub notices : List Notice

abbrev pub int_max : ℕ
int_max = 2147483647

-- `PAGE_FAULT`, `INVALID_PAGE_NUMBER` and `PROCESS_DONE`
abbrev pub page_fault : ℤ
page_fault = negsuc 0

abbrev pub invalid_page_number : ℤ
invalid_page_number = negsuc 1

abbrev pub process_done : ℤ
process_done = negsuc 8

unfoldable pub send_reply : Mmu → ℕ → ℤ → Mmu
send_reply s id frame = record s { replies = s.replies ++ (id, frame) ∷ [] }

unfoldable pub notify_scheduler : Mmu → Notice → Mmu
notify_scheduler s x = record s { notices = s.notices ++ x ∷ [] }

-- `free_pages`, over the first `n` pages of process `id`.
unfoldable pub free_to : ℕ → ℕ → Mmu → Mmu
free_to id zero s = s
free_to id (suc n) s =
    let t = free_to id n s in
    let i = id * s.m + n in
    let entry = t.page_table i in
    if entry.valid
    then record t {
      top = t.top + 1;
      freelist = store t.freelist t.top entry.frame_number;
      page_table = store t.page_table i (record entry { valid = false });
    }
    else t

unfoldable pub free_pages : ℕ → Mmu → Mmu
unfolding free_to
free_pages id s = free_to id s.m s

-- What the scan of `page_fault_handler` has found.
pub record Victim : Type 0 where
  pub min : ℕ
  pub mini : Option ℕ
  pub frame : ℤ

-- Its loop at `i`, which ends where `i` is not below `pcb_ptr[i].m`. `own` is the entry of the page
-- that is asked for. `none`: the fuel ran out.
unfoldable pub scan : ℕ → Mmu → PageTableEntry → ℕ → Victim → Option Victim
scan zero s own i v = none
scan (suc fuel) s own i v =
    let found : Victim = record { min = own.count; mini = some i; frame = own.frame_number } in
    let next = if (s.page_table i).valid && ltb own.count v.min then found else v in
    let rest = scan fuel s own (i + 1) next in if ltb i (s.pcb i).m then rest else some v

-- `page_table_ptr[id*m + mini].valid = 0`, with `mini` at -1 if nothing was found. `none`: the
-- store is in front of the table.
unfoldable pub evict : Mmu → ℕ → Option ℕ → Option Mmu
evict s id (some i) =
    let j = id * s.m + i in
    some
      (record s { page_table = store s.page_table j (record (s.page_table j) { valid = false }) })
evict s id none =
    let j = id * s.m - 1 in
    if id * s.m == 0
    then none
    else some
        (record s { page_table = store s.page_table j (record (s.page_table j) { valid = false }) })

unfoldable pub page_fault_handler : ℕ → Mmu → ℕ → ℕ → Option (Mmu × ℤ)
unfolding evict
page_fault_handler fuel s id page =
    let own = s.page_table (id * s.m + page) in
    if s.top == 0 || not (ltb_ℤ (pos (s.pcb id).frame_allocated) (s.pcb id).frame_count)
    then (do
      v ← scan fuel s own 0 (record { min = int_max; mini = none; frame = negsuc 0 })
      t ← evict s id v.mini
      some (t, v.frame))
    else some (record s { top = s.top - 1 }, s.freelist (s.top - 1))

-- The branch of `serve_request` for a page of the process, at its place in the table.
unfoldable pub access : ℕ → Mmu → ℕ → ℕ → Option Mmu
unfolding send_reply notify_scheduler
access fuel s id page =
    let i = id * s.m + page in
    let entry = s.page_table i in
    if not entry.valid
    then (do
      (t, frame) ←
          page_fault_handler fuel
            (send_reply (record s { page_faults = store s.page_faults id (s.page_faults id + 1) })
              id page_fault)
            id page
      let loaded : PageTableEntry = record {
        valid = true;
        frame_number = frame;
        count = s.time_stamp;
      }
      some (
          notify_scheduler (record t { page_table = store t.page_table i loaded })
            page_fault_handled))
    else some (
        let t = send_reply s id entry.frame_number in
        record t { page_table = store t.page_table i (record entry { count = s.time_stamp }) })

-- The branch for a page that the process does not have.
unfoldable pub refuse : Mmu → ℕ → Mmu
unfolding free_pages send_reply notify_scheduler
refuse s id =
    let t = record s {
      invalid_page_references =
          store s.invalid_page_references id (s.invalid_page_references id + 1);
    } in
    notify_scheduler (free_pages id (send_reply t id invalid_page_number)) process_term

-- A page number other than `PROCESS_DONE`.
unfoldable pub refer : ℕ → Mmu → ℕ → ℤ → Option Mmu
refer fuel s id (negsuc p) = some (refuse s id)
refer fuel s id (pos p) = if ltb (s.pcb id).m p then some (refuse s id) else access fuel s id p

-- `serve_request`, on what `read_request` returned; `none` is an interrupted read.
unfoldable pub serve_request : ℕ → Mmu → Option (ℕ × ℤ) → Option Mmu
unfolding refer free_pages notify_scheduler
serve_request fuel s none = some s
serve_request fuel s (some (id, page)) =
    if eqb_ℤ page process_done
    then some (
        let t = notify_scheduler (free_pages id s) process_term in
        record t { terminated = t.terminated + 1 })
    else refer fuel (record s { time_stamp = s.time_stamp + 1 }) id page

-- The `char page_number` of the message in which proc.c sends an `int`.
unfoldable pub to_char : ℤ → ℤ
to_char (pos n) = let b = n % 256 in if ltb b 128 then pos b else negsuc (255 - b)
to_char (negsuc n) = let b = n % 256 in if ltb b 128 then negsuc b else pos (255 - b)
