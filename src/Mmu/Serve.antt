-- ===== src/Mmu/Serve.antt =====
-- `serve_request` of Assignment_08/mmu.c keeps the frames, as long as a fault finds a free one.
use mathlib.Core.Bool.{false≢true}
use os_lab_spr.Base.{
  ℕ, zero, suc, ◌+◌, ◌-◌, ◌*◌, ◌≤◌, ◌<◌, ◌≡◌, ◌⊎◌, inl, inr, refl, true, false, not, some, Option,
  arith, ◌==◌, ltb, ℤ, pos, negsuc, store, total, total-suc, total-zero, total-at, Bool-cases,
  two-total, total-null, bit, ℕ_discrete, eqb_ℤ, ltb_ℤ, ◌<ℤ◌, ◌∙◌, sym, [], ◌∷◌, ◌++◌,
}
use os_lab_spr.Mmu.{
  Mmu, free_pages, page_fault_handler, access, refuse, refer, serve_request, notify_scheduler,
  page_fault, process_done, process_term, page_fault_handled,
}
use os_lab_spr.Mmu.Frames.{held, Conserved, free_to-frames, free_to-m, row_inside}

-- A free frame for process `id`, within its share.
abbrev pub HasFrame : Mmu → ℕ → Type 0
HasFrame s id = (0 < s.top) × (pos (s.pcb id).frame_allocated <ℤ (s.pcb id).frame_count)

-- Page `p` of `id` has a place in the row of the process, and is in memory or finds a free frame.
abbrev pub Servable : Mmu → ℕ → ℕ → Type 0
Servable s id p = (p < s.m) × (((s.page_table (id * s.m + p)).valid ≡ true) ⊎ HasFrame s id)

-- The state after a hit.
abbrev pub hit : Mmu → ℕ → ℕ → Mmu
hit s id p =
    let i = id * s.m + p in
    record s {
      replies = s.replies ++ (id, (s.page_table i).frame_number) ∷ [];
      page_table = store s.page_table i (record (s.page_table i) { count = s.time_stamp });
    }

-- The state after a fault that takes the frame on top of the free list.
abbrev pub loaded : Mmu → ℕ → ℕ → Mmu
loaded s id p =
    let i = id * s.m + p in
    record s {
      page_faults = store s.page_faults id (s.page_faults id + 1);
      replies = s.replies ++ (id, page_fault) ∷ [];
      top = s.top - 1;
      page_table =
          store s.page_table i
            (record { valid = true; frame_number = s.freelist (s.top - 1); count = s.time_stamp });
      notices = s.notices ++ page_fault_handled ∷ [];
    }

pub access-hit :
    (fuel : ℕ) (s : Mmu) (id p : ℕ)
    → (s.page_table (id * s.m + p)).valid ≡ true
    → access fuel s id p ≡ some (hit s id p)
unfolding access
access-hit fuel s id p e = rw e

pub access-loaded :
    (fuel : ℕ) (s : Mmu) (id p : ℕ)
    → (s.page_table (id * s.m + p)).valid ≡ false
    → HasFrame s id
    → access fuel s id p ≡ some (loaded s id p)
unfolding access page_fault_handler
access-loaded fuel s id p e (free, share) =
    let some_left : (s.top == 0) ≡ false = ground arith in
    let within : not (ltb_ℤ (pos (s.pcb id).frame_allocated) (s.pcb id).frame_count) ≡ false =
      ground arith in
    rw (e, some_left, within)

-- A request is answered, and the frames are kept.
abbrev Kept : ℕ → ℕ → Option Mmu → Type 0
Kept k f r = (t : Mmu) × (r ≡ some t) × Conserved k f t

total-last : (n : ℕ) (g : ℕ → ℕ) → 0 < n → total n g ≡ total (n - 1) g + g (n - 1)
total-last zero g h = absurd (omega arith)
total-last (suc n) g h = let e : suc n - 1 ≡ n = omega arith in rw e (total-suc n g)

module _ {k f : ℕ} where
  free_pages-Conserved :
      (s : Mmu) (id : ℕ) → id < k → Conserved k f s → Conserved k f (free_pages id s)
  unfolding free_pages
  free_pages-Conserved s id h c = record {
    sums = λ w.
        ground
          (arith, free_to-m k w id s.m s, free_to-frames k w id s.m s (k * s.m) refl h, c.sums w);
  }

  refuse-Conserved : (s : Mmu) (id : ℕ) → id < k → Conserved k f s → Conserved k f (refuse s id)
  unfolding refuse
  refuse-Conserved s id h c = record {
    sums = (free_pages-Conserved _ id h (record { sums = c.sums })).sums;
  }

  hit-Conserved :
      (s : Mmu) (id p : ℕ) → id < k → p < s.m → Conserved k f s → Conserved k f (hit s id p)
  hit-Conserved s id p h inside c = record {
    sums = λ w.
        let i = id * s.m + p in
        ground (
          arith,
          c.sums w,
          total-at (λ _. held w) (k * s.m) s.page_table i
              (record (s.page_table i) { count = s.time_stamp }),
          row_inside k w id p s.m h inside,
        );
  }

  pub loaded-Conserved :
      (s : Mmu) (id p : ℕ)
      → id < k
      → p < s.m
      → (s.page_table (id * s.m + p)).valid ≡ false
      → 0 < s.top
      → Conserved k f s
      → Conserved k f (loaded s id p)
  loaded-Conserved s id p h inside e free c = record {
    sums = λ w.
        let i = id * s.m + p in
        ground (
          arith,
          c.sums w,
          total-last s.top (λ j. w (s.freelist j)) free,
          total-at (λ _. held w) (k * s.m) s.page_table i
              (record {
                valid = true;
                frame_number = s.freelist (s.top - 1);
                count = s.time_stamp;
              }),
          row_inside k w id p s.m h inside,
        );
  }

  access-Kept :
      (fuel : ℕ) (s : Mmu) (id p : ℕ)
      → id < k
      → Servable s id p
      → Conserved k f s
      → Kept k f (access fuel s id p)
  access-Kept fuel s id p h (inside, how) c =
      elim (Bool-cases (s.page_table (id * s.m + p)).valid) [
        | inl there ↦ (hit s id p, access-hit fuel s id p there, hit-Conserved s id p h inside c)
        | inr absent ↦ elim how [
          | inl there ↦ absurd (false≢true (sym absent ∙ there))
          | inr frame ↦ (
            loaded s id p,
            access-loaded fuel s id p absent frame,
            loaded-Conserved s id p h inside absent frame.0 c,
          )
        ]
      ]

  refer-Kept :
      (fuel : ℕ) (s : Mmu) (id : ℕ) (page : ℤ)
      → id < k
      → ((p : ℕ) → page ≡ pos p → p ≤ (s.pcb id).m → Servable s id p)
      → Conserved k f s
      → Kept k f (refer fuel s id page)
  unfolding refer
  refer-Kept fuel s id (negsuc p) h ok c = (refuse s id, refl, refuse-Conserved s id h c)
  refer-Kept fuel s id (pos p) h ok c = elim (Bool-cases (ltb (s.pcb id).m p)) [
    | inl past ↦ (refuse s id, rw past, refuse-Conserved s id h c)
    | inr inside ↦ rw inside (access-Kept fuel s id p h (ok p refl (ground arith)) c)
  ]

  -- Every request of a process is answered and keeps the frames, each on the free list or in one
  -- valid entry, if a page that the process has is within its row of the table, and is in memory
  -- or finds a free frame.
  pub serve_request-Conserved :
      (fuel : ℕ) (s : Mmu) (id : ℕ) (page : ℤ)
      → id < k
      → ((p : ℕ) → page ≡ pos p → p ≤ (s.pcb id).m → Servable s id p)
      → Conserved k f s
      → (t : Mmu) × (serve_request fuel s (some (id, page)) ≡ some t) × Conserved k f t
  unfolding serve_request
  serve_request-Conserved fuel s id page h ok c = elim (Bool-cases (eqb_ℤ page process_done)) [
    | inl done ↦ (
      (let t = notify_scheduler (free_pages id s) process_term in
          record t { terminated = t.terminated + 1 }),
      rw done,
      record { sums = (free_pages-Conserved s id h c).sums },
    )
    | inr more ↦ rw more (
        refer-Kept fuel (record s { time_stamp = s.time_stamp + 1 }) id page h ok
          (record { sums = c.sums }))
  ]

-- 1 for the frame `x`
abbrev one_frame : ℤ → ℤ → ℕ
one_frame x y = bit (eqb_ℤ x y)

one_frame-le : (f : ℕ) (x : ℤ) → total f (λ i. one_frame x (pos i)) ≤ 1
one_frame-le zero x = omega (arith, total-zero (λ i. one_frame x (pos i)))
one_frame-le (suc f) x = elim (Bool-cases (eqb_ℤ x (pos f))) [
  | inl at ↦ ground (
    arith,
    total-suc f (λ i. one_frame x (pos i)),
    total-null f (λ i. one_frame x (pos i)) (λ i h. ground arith),
  )
  | inr off ↦ ground (arith, one_frame-le f x, total-suc f (λ i. one_frame x (pos i)))
]

eqb_refl : (x : ℤ) → eqb_ℤ x x ≡ true
eqb_refl x = ground arith

-- While the frames are kept, two valid entries of the table never share a frame.
pub Conserved-distinct :
    {k f : ℕ} {s : Mmu} (i j : ℕ)
    → Conserved k f s
    → i < k * s.m
    → j < k * s.m
    → (s.page_table i).valid ≡ true
    → (s.page_table j).valid ≡ true
    → (s.page_table i).frame_number ≡ (s.page_table j).frame_number
    → i ≡ j
Conserved-distinct {k} {f} {s} i j c p q vi vj e = elim (ℕ_discrete i j) [
  | yes same ↦ same
  | no ne ↦
      let x = (s.page_table i).frame_number in
      let w = one_frame x in
      let ei : held w (s.page_table i) ≡ 1 = rw (vi, eqb_refl x) in
      let ej : held w (s.page_table j) ≡ 1 = rw (vj, ← e, eqb_refl x) in
      absurd (
        omega (
          arith,
          c.sums w,
          one_frame-le f x,
          ei,
          ej,
          two-total (k * s.m) (λ h. held w (s.page_table h)) i j p q ne,
        ))
]
