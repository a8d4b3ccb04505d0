-- ===== src/Master.antt =====
-- Assignment_08/master.c: the shared memory that it sets up before the scheduler, the memory manager
-- and the processes start.
pub mod Setup
use os_lab_spr.Base.{
  ℕ, zero, suc, ◌+◌, ◌-◌, ◌*◌, ◌%◌, ◌/◌, Bool, true, false, ltb, if◌then◌else◌, ℤ, pos, negsuc,
  sub_ℕ, to_int, neg_ℤ, ◌+ℤ◌, store, [],
}
use os_lab_spr.Mmu.{PageTableEntry, Pcb, Mmu}

-- The entry that `create_page_tables` writes.
abbrev pub empty_entry : PageTableEntry
empty_entry = record { valid = false; frame_number = negsuc 0; count = 0 }

-- The inner loop over `j`, and the outer loop over `i`.
unfoldable pub clear_row : ℕ → ℕ → ℕ → (ℕ → PageTableEntry) → ℕ → PageTableEntry
clear_row k i zero table = table
clear_row k i (suc j) table = store (clear_row k i j table) (i * k + j) empty_entry

unfoldable pub create_page_tables : ℕ → ℕ → (ℕ → PageTableEntry) → ℕ → PageTableEntry
create_page_tables k zero table = table
create_page_tables k (suc m) table = clear_row k m k (create_page_tables k m table)

-- The loop of `create_free_list`; `current` is set to `f - 1`.
unfoldable pub create_free_list : ℕ → (ℕ → ℤ) → ℕ → ℤ
create_free_list zero list = list
create_free_list (suc f) list = store (create_free_list f list) f (pos f)

-- The first loop of `create_pcb`; `rand` are the numbers drawn. The `pid` is left out.
unfoldable pub draw_pages : ℕ → (ℕ → ℕ) → ℕ → (ℕ → Pcb) → ℕ → Pcb
draw_pages m rand zero pcb = pcb
draw_pages m rand (suc i) pcb =
    store (draw_pages m rand i pcb) i
      (record { m = 1 + rand i % m; frame_count = pos 0; frame_allocated = 0 })

-- `sum_pages`, which that loop adds up.
unfoldable pub sum_pages : ℕ → (ℕ → Pcb) → ℕ
sum_pages zero pcb = 0
sum_pages (suc i) pcb = sum_pages i pcb + (pcb i).m

-- `m * rest`, where `rest` is `f-k`.
abbrev pub product : ℕ → ℤ → ℤ
product m (pos n) = to_int (pos (m * n))
product m (negsuc n) = to_int (neg_ℤ (pos (m * suc n)))

-- `(int) round(a / (float) b)`, away from zero at a half, with the quotient taken as exact.
unfoldable pub round_quotient : ℕ → ℕ → ℕ
round_quotient a b = (2 * a + b) / (2 * b)

abbrev pub round_int : ℤ → ℕ → ℤ
round_int (pos a) b = pos (round_quotient a b)
round_int (negsuc a) b = neg_ℤ (pos (round_quotient (suc a) b))

-- The locals of the second loop (`max` is never read) and the blocks it writes.
pub record Shares : Type 0 where
  pub pcb : ℕ → Pcb
  pub sum_allocated_frames : ℤ
  pub maxi : ℕ

-- The second loop; `rest` is `f-k`. The sums are taken to fit an `int`.
unfoldable pub share_out : ℤ → ℕ → ℕ → (ℕ → Pcb) → Shares
share_out rest sum zero pcb = record { pcb = pcb; sum_allocated_frames = pos 0; maxi = 0 }
share_out rest sum (suc i) pcb =
    let s = share_out rest sum i pcb in
    let cur = pos 1 +ℤ round_int (product (s.pcb i).m rest) sum in
    record {
      pcb = store s.pcb i (record (s.pcb i) { frame_count = cur });
      sum_allocated_frames = s.sum_allocated_frames +ℤ cur;
      maxi = if ltb s.maxi (s.pcb i).m then i else s.maxi;
    }

unfoldable pub create_pcb : ℕ → ℕ → ℕ → (ℕ → ℕ) → (ℕ → Pcb) → ℕ → Pcb
create_pcb k m f rand pcb =
    let drawn = draw_pages m rand k pcb in
    let s = share_out (sub_ℕ f k) (sum_pages k drawn) k drawn in
    store s.pcb s.maxi (record (s.pcb s.maxi) {
      frame_count = (s.pcb s.maxi).frame_count +ℤ (pos f +ℤ neg_ℤ s.sum_allocated_frames);
    })

-- What the memory manager starts with; `page_table`, `freelist` and `pcb` are what the segments held.
abbrev pub start : ℕ → ℕ → ℕ → (ℕ → ℕ) → (ℕ → PageTableEntry) → (ℕ → ℤ) → (ℕ → Pcb) → Mmu
start k m f rand page_table freelist pcb = record {
  m = m;
  pcb = create_pcb k m f rand pcb;
  page_table = create_page_tables k m page_table;
  top = f;
  freelist = create_free_list f freelist;
  page_faults = λ _. 0;
  invalid_page_references = λ _. 0;
  time_stamp = 0;
  terminated = 0;
  replies = [];
  notices = [];
}
