-- ===== src/Master/Setup.antt =====
-- What Assignment_08/master.c sets up: the frames are all free, and every process has its share.
use native.Mathlib.Nat.{mod-lt, mul-le-mul_right}
use mathlib.Core.Path.{subst}
use os_lab_spr.Base.{
  ℕ, zero, suc, ◌+◌, ◌-◌, ◌*◌, ◌≤◌, ◌<◌, ◌≡◌, ◌≢◌, neg_ℤ, to_int-small, ◌⊎◌, inl, inr, refl, ◌∙◌,
  sym, false, ℤ, pos, sub_ℕ, ◌+ℤ◌, ℕ_discrete, store_self, ◌<ℤ◌, store, total-eq, total-null, arith,
}
use os_lab_spr.Mmu.{PageTableEntry, Pcb}
use os_lab_spr.Mmu.Frames.{held, Conserved}
use os_lab_spr.Master.{
  product, round_int, clear_row, create_page_tables, create_free_list, draw_pages, round_quotient,
  sum_pages, Shares, share_out, create_pcb, start,
}

store_other : {A : Type 0} (a : ℕ → A) (i j : ℕ) (x : A) → (j ≡ i → ⊥) → store a i x j ≡ a j
store_other a i j x ne = ground (arith, ne)

-- A factor that grows.
mul-le : {a b : ℕ} (n : ℕ) → a ≤ b → a * n ≤ b * n
mul-le n h = omega (arith, mul-le-mul_right n h)

clear_row-empty :
    (k i n j : ℕ) (table : ℕ → PageTableEntry)
    → ((j < i * k + n) × (i * k ≤ j)) ⊎ ((table j).valid ≡ false)
    → (clear_row k i n table j).valid ≡ false
unfolding clear_row
clear_row-empty k i zero j table (inl h) = absurd (omega arith)
clear_row-empty k i zero j table (inr h) = h
clear_row-empty k i (suc n) j table h = ground (arith, clear_row-empty k i n j table)

tables-empty :
    (k m j : ℕ) (table : ℕ → PageTableEntry)
    → j < k * m
    → (create_page_tables k m table j).valid ≡ false
unfolding create_page_tables
tables-empty k zero j table h = absurd (omega arith)
tables-empty k (suc m) j table h =
    ground (arith, clear_row-empty k m k j (create_page_tables k m table), tables-empty k m j table)

list-is : (f j : ℕ) (list : ℕ → ℤ) → j < f → create_free_list f list j ≡ pos j
unfolding create_free_list
list-is zero j list h = absurd (omega arith)
list-is (suc f) j list h = ground (arith, list-is f j list)

-- What master.c sets up holds every frame once, on the free list, whatever the segments held.
pub start-Conserved :
    (k m f : ℕ) (rand : ℕ → ℕ) (page_table : ℕ → PageTableEntry) (freelist : ℕ → ℤ) (pcb : ℕ → Pcb)
    → Conserved k f (start k m f rand page_table freelist pcb)
start-Conserved k m f rand page_table freelist pcb = record {
  sums = λ w. omega (
    arith,
    total-null (k * m) (λ i. held w (create_page_tables k m page_table i))
        (λ i h. rw (tables-empty k m i page_table h) refl),
    total-eq f (λ i. w (create_free_list f freelist i)) (λ i. w (pos i))
        (λ i h. rw (list-is f i freelist h) refl),
  );
}

abbrev pub sum_ℤ : ℕ → (ℕ → ℤ) → ℤ
sum_ℤ zero g = pos 0
sum_ℤ (suc n) g = sum_ℤ n g +ℤ g n

swap_last : (a b d : ℤ) → (a +ℤ d) +ℤ b ≡ (a +ℤ b) +ℤ d
unfolding ◌+ℤ◌
swap_last a b d = ground arith

add_last : (a b d : ℤ) → a +ℤ (b +ℤ d) ≡ (a +ℤ b) +ℤ d
unfolding ◌+ℤ◌
add_last a b d = ground arith

fill_up : (a : ℤ) (f : ℕ) → a +ℤ (pos f +ℤ neg_ℤ a) ≡ pos f
unfolding ◌+ℤ◌
fill_up a f = ground arith

sum_ℤ-eq : (n : ℕ) (g h : ℕ → ℤ) → ((i : ℕ) → i < n → g i ≡ h i) → sum_ℤ n g ≡ sum_ℤ n h
sum_ℤ-eq zero g h e = refl
sum_ℤ-eq (suc n) g h e = rw (sum_ℤ-eq n g h (λ i l. e i (omega arith)), e n (omega arith)) refl

-- More in one place is more in the sum.
sum_ℤ-add :
    (n : ℕ) (g h : ℕ → ℤ) (i : ℕ) (d : ℤ)
    → i < n
    → h i ≡ g i +ℤ d
    → ((j : ℕ) → j ≢ i → h j ≡ g j)
    → sum_ℤ n h ≡ sum_ℤ n g +ℤ d
sum_ℤ-add zero g h i d l at off = absurd (omega arith)
sum_ℤ-add (suc n) g h i d l at off = elim (ℕ_discrete i n) [
  | yes here ↦
      rw
        (
          sum_ℤ-eq n h g (λ j k. off j (λ e. absurd (omega arith))),
          ← here,
          at,
          add_last (sum_ℤ i g) (g i) d,
        )
        refl
  | no there ↦
      rw
        (
          sum_ℤ-add n g h i d (ground arith) at off,
          off n (λ e. there (sym e)),
          swap_last (sum_ℤ n g) (g n) d,
        )
        refl
]

draw_pages-bound :
    (m : ℕ) (rand : ℕ → ℕ) (n : ℕ) (pcb : ℕ → Pcb) (i : ℕ)
    → 0 < m
    → i < n
    → (1 ≤ (draw_pages m rand n pcb i).m) × ((draw_pages m rand n pcb i).m ≤ m)
unfolding draw_pages
draw_pages-bound m rand zero pcb i h l = absurd (omega arith)
draw_pages-bound m rand (suc n) pcb i h l =
    ground (arith, draw_pages-bound m rand n pcb i h, mod-lt (rand n) h)

-- The blocks after `n` turns of the second loop: each process seen has a frame, what was given is
-- counted, and `maxi` is one of the processes seen.
abbrev Shared : ℕ → (ℕ → Pcb) → Shares → Type 0
Shared n pcb s =
    (sum_ℤ n (λ i. (s.pcb i).frame_count) ≡ s.sum_allocated_frames)
    × ((i : ℕ) → i < n → pos 0 <ℤ (s.pcb i).frame_count)
    × ((i : ℕ) → (s.pcb i).m ≡ (pcb i).m)
    × ((s.maxi ≡ 0) ⊎ (s.maxi < n))

one_more : (q : ℕ) → pos 0 <ℤ (pos 1 +ℤ pos q)
unfolding ◌+ℤ◌
one_more q = ground arith

-- A product that fits an `int` gives a frame at least.
cur-positive :
    (m rest sum : ℕ)
    → m * rest < 2147483648
    → pos 0 <ℤ (pos 1 +ℤ round_int (product m (pos rest)) sum)
cur-positive m rest sum h =
    subst (λ (x : ℤ). pos 0 <ℤ (pos 1 +ℤ round_int x sum)) (sym (to_int-small (m * rest) h))
      (one_more (round_quotient (m * rest) sum))

share_out-Shared :
    (rest sum n : ℕ) (pcb : ℕ → Pcb)
    → ((i : ℕ) → i < n → (pcb i).m * rest < 2147483648)
    → Shared n pcb (share_out (pos rest) sum n pcb)
unfolding share_out
share_out-Shared rest sum zero pcb fits = (refl, λ i h. absurd (omega arith), λ i. refl, inl refl)
share_out-Shared rest sum (suc n) pcb fits =
    let s = share_out (pos rest) sum n pcb in
    let cur = pos 1 +ℤ round_int (product (s.pcb n).m (pos rest)) sum in
    let now = record (s.pcb n) { frame_count = cur } in
    let (total_is, given, pages, seen) =
      share_out-Shared rest sum n pcb (λ i h. fits i (omega arith)) in
    let some_frame : pos 0 <ℤ cur =
      cur-positive (s.pcb n).m rest sum (rw (pages n) (fits n (omega arith))) in
    (
      rw
          (
            sum_ℤ-eq n (λ i. (store s.pcb n now i).frame_count) (λ i. (s.pcb i).frame_count)
                (λ i h. ground arith),
            total_is,
            store_self s.pcb n now,
          )
          refl,
      λ i h. elim (ℕ_discrete i n) [
        | yes e ↦
            rw e (
              subst (λ (b : Pcb). pos 0 <ℤ b.frame_count) (sym (store_self s.pcb n now)) some_frame)
        | no ne ↦
            subst (λ (b : Pcb). pos 0 <ℤ b.frame_count) (sym (store_other s.pcb n i now ne))
              (given i (omega arith))
      ],
      λ i. ground (arith, pages i),
      ground (arith, seen),
    )

-- Each of the `k` processes, at most as many as there are frames, gets from 1 to `m` pages, and all frames are
-- shared out: where the products of the shares fit an `int`, the counts sum to `f`. All counts but one are
-- positive; what the rounding leaves over or takes too much is settled on that one, whose count can
-- become negative.
pub create_pcb-shares :
    (k m f : ℕ) (rand : ℕ → ℕ) (pcb : ℕ → Pcb)
    → 0 < k
    → 0 < m
    → k ≤ f
    → m * (f - k) < 2147483648
    → let made = create_pcb k m f rand pcb in
      (sum_ℤ k (λ i. (made i).frame_count) ≡ pos f)
      × ((i : ℕ) → i < k → (1 ≤ (made i).m) × ((made i).m ≤ m))
      × (j : ℕ) × (j < k)
      × ((i : ℕ) → i < k → i ≢ j → pos 0 <ℤ (made i).frame_count)
unfolding create_pcb
create_pcb-shares k m f rand pcb h hm enough fits =
    let drawn = draw_pages m rand k pcb in
    let sum = sum_pages k drawn in
    let rest : sub_ℕ f k ≡ pos (f - k) = ground arith in
    let s = share_out (pos (f - k)) sum k drawn in
    let small : (i : ℕ) → i < k → (drawn i).m * (f - k) < 2147483648 = λ i l.
      let most = mul-le (f - k) (draw_pages-bound m rand k pcb i hm l).1 in omega (arith, fits) in
    let (total_is, given, pages, seen) = share_out-Shared (f - k) sum k drawn small in
    let inside : s.maxi < k = ground (arith, seen) in
    let d = pos f +ℤ neg_ℤ s.sum_allocated_frames in
    let last = record (s.pcb s.maxi) { frame_count = (s.pcb s.maxi).frame_count +ℤ d } in
    rw rest (
      sum_ℤ-add k (λ i. (s.pcb i).frame_count) (λ i. (store s.pcb s.maxi last i).frame_count) s.maxi
            d inside (rw (store_self s.pcb s.maxi last) refl) (λ j ne. ground arith)
          ∙ rw total_is (fill_up s.sum_allocated_frames f),
      λ i l. ground (arith, pages i, draw_pages-bound m rand k pcb i hm),
      s.maxi,
      inside,
      λ i l ne. ground (arith, given i),
    )
