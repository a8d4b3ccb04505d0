-- ===== src/Mmu/Frames.antt =====
-- Where the frames of Assignment_08/mmu.c are: each on the free list or in one valid entry.
use os_lab_spr.Base.{
  ℕ, zero, suc, ◌+◌, ◌*◌, ◌≤◌, ◌<◌, ◌≡◌, inl, inr, refl, false, arith, if◌then◌else◌, ℤ, pos, store,
  total, total-add_one, total-at, total-eq, Bool-cases, List, [], ◌∷◌, ◌++◌, ap,
}
use os_lab_spr.Mmu.{
  PageTableEntry, Mmu, free_to, free_pages, refuse, process_term, invalid_page_number, Notice,
}

-- The weight of the frame of an entry, if it is valid.
abbrev pub held : (ℤ → ℕ) → PageTableEntry → ℕ
held w e = if e.valid then w e.frame_number else 0

-- The frames on the free list and in the first `n` entries, by weight.
abbrev pub frames : (ℤ → ℕ) → ℕ → Mmu → ℕ
frames w n s = total s.top (λ i. w (s.freelist i)) + total n (λ i. held w (s.page_table i))

-- The free list and the valid entries of the table for `k` processes hold the frames 0 to `f - 1`,
-- each once: every weight of frames has the same sum.
pub record Conserved (k f : ℕ) (s : Mmu) : Type 0 where
  pub sums : (w : ℤ → ℕ) → frames w (k * s.m) s ≡ total f (λ i. w (pos i))

module _ (k : ℕ) (w : ℤ → ℕ) where
  -- One store on top of the free list.
  pub push-frames :
      (top : ℕ) (list : ℕ → ℤ) (x : ℤ)
      → total (top + 1) (λ i. w (store list top x i)) ≡ total top (λ i. w (list i)) + w x
  push-frames top list x =
      let at : w (store list top x top) ≡ w x = ground arith in
      omega (
        arith,
        at,
        total-add_one top (λ i. w (store list top x i)),
        total-eq top (λ i. w (store list top x i)) (λ i. w (list i)) (λ i h. ground arith),
      )

  pub row_inside : (id n m : ℕ) → id < k → n < m → id * m + n < k * m
  row_inside id n m h p = grind arith

  pub free_to-m : (id n : ℕ) (s : Mmu) → (free_to id n s).m ≡ s.m
  unfolding free_to
  free_to-m id zero s = refl
  free_to-m id (suc n) s = ground (arith, free_to-m id n s)

  pub free_to-frames :
      (id n : ℕ) (s : Mmu) (size : ℕ)
      → size ≡ k * s.m
      → id < k
      → n ≤ s.m
      → frames w size (free_to id n s) ≡ frames w size s
  unfolding free_to
  free_to-frames id zero s size z h p = refl
  free_to-frames id (suc n) s size z h p =
      let t = free_to id n s in
      let i = id * s.m + n in
      let entry = t.page_table i in
      ground (
        arith,
        free_to-frames id n s size z h,
        push-frames t.top t.freelist entry.frame_number,
        total-at (λ _. held w) size t.page_table i (record entry { valid = false }),
        row_inside id n s.m h p,
      )

-- `free_pages` touches the table and the free list only.
pub free_to-rest :
    (id n : ℕ) (s : Mmu)
    → let t = free_to id n s in
      (t.replies ≡ s.replies)
      × (t.notices ≡ s.notices)
      × (t.terminated ≡ s.terminated)
      × (t.m ≡ s.m)
      × (t.pcb ≡ s.pcb)
      × (t.page_faults ≡ s.page_faults)
      × (t.invalid_page_references ≡ s.invalid_page_references)
unfolding free_to
free_to-rest id zero s = (refl, refl, refl, refl, refl, refl, refl)
free_to-rest id (suc n) s =
    let ih = free_to-rest id n s in
    elim (Bool-cases ((free_to id n s).page_table (id * s.m + n)).valid) [
      | inl on ↦ rw on ih
      | inr off ↦ rw off ih
    ]

-- What is sent for a page that the process does not have.
pub refuse_sends :
    (s : Mmu) (id : ℕ)
    → ((refuse s id).replies ≡ s.replies ++ (id, invalid_page_number) ∷ [])
      × ((refuse s id).notices ≡ s.notices ++ process_term ∷ [])
      × ((refuse s id).terminated ≡ s.terminated)
unfolding refuse
refuse_sends s id =
    let t = record s {
      invalid_page_references =
          store s.invalid_page_references id (s.invalid_page_references id + 1);
      replies = s.replies ++ (id, invalid_page_number) ∷ [];
    } in
    let r = free_to-rest id s.m t in
    (r.0, ap (λ (l : List Notice). l ++ process_term ∷ []) r.1, r.2)

pub free_pages_sends :
    (s : Mmu) (id : ℕ)
    → ((free_pages id s).replies ≡ s.replies)
      × ((free_pages id s).notices ≡ s.notices)
      × ((free_pages id s).terminated ≡ s.terminated)
      × ((free_pages id s).page_faults ≡ s.page_faults)
      × ((free_pages id s).invalid_page_references ≡ s.invalid_page_references)
unfolding free_pages
free_pages_sends s id = let r = free_to-rest id s.m s in (r.0, r.1, r.2, r.5, r.6)
