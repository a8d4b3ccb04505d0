-- ===== src/Proc/Finish.antt =====
-- A process of Assignment_08/proc.c whose pages find free frames walks through its whole reference
-- string; one whose page was given no frame asks for it for ever.
use os_lab_spr.Base.{
  ℕ, zero, suc, ◌+◌, ◌-◌, ◌*◌, ◌≤◌, ◌<◌, ◌≡◌, inl, inr, refl, ap, ◌∙◌, true, false, Option, none,
  some, List, [], ◌∷◌, ℤ, pos, eqb_ℤ, ◌≤ℤ◌, ◌<ℤ◌, map, arith, Bool-cases,
}
use os_lab_spr.Mmu.{Mmu, page_fault, invalid_page_number}
use os_lab_spr.Mmu.Evict.{Exhausted}
use os_lab_spr.Mmu.Serve.{hit, loaded, HasFrame}
use os_lab_spr.Proc.{request, walk}
use os_lab_spr.Proc.Walk.{request-Exhausted, ticked, request-hit, request-loaded, finish_lem}

abbrev pub length : List ℕ → ℕ
length [] = 0
length (p ∷ ps) = suc (length ps)

-- The pages of the process that a message can carry, within its row of the table.
abbrev pub InRow : ℕ → ℕ → List ℕ → Type 0
InRow own m [] = Unit {0}
InRow own m (p ∷ ps) = ((p ≤ own) × (p < m) × (p < 128)) × InRow own m ps

-- `n` frames are free, and all frames in sight are real ones, so that no answer reads as an error.
pub record Ready (s : Mmu) (id n : ℕ) : Type 0 where
  pub enough : n ≤ s.top
  pub share : pos (s.pcb id).frame_allocated <ℤ (s.pcb id).frame_count
  pub listed : (i : ℕ) → i < s.top → pos 0 ≤ℤ s.freelist i
  pub mapped :
      (p : ℕ)
      → p < s.m
      → (s.page_table (id * s.m + p)).valid ≡ true
      → pos 0 ≤ℤ (s.page_table (id * s.m + p)).frame_number

real : (x : ℤ) → pos 0 ≤ℤ x → (eqb_ℤ x page_fault ≡ false) × (eqb_ℤ x invalid_page_number ≡ false)
real x h = ground arith

hit-Ready : (s : Mmu) (id p n : ℕ) → p < s.m → Ready s id n → Ready (hit (ticked s) id p) id n
hit-Ready s id p n h r = record {
  enough = r.enough;
  share = r.share;
  listed = r.listed;
  mapped = λ q l v. ground (arith, r.mapped q, r.mapped p);
}

loaded-Ready :
    (s : Mmu) (id p n : ℕ) → p < s.m → Ready s id (suc n) → Ready (loaded (ticked s) id p) id n
loaded-Ready s id p n h r = record {
  enough = omega (arith, r.enough);
  share = r.share;
  listed = λ i l. r.listed i (omega arith);
  mapped = λ q l v. ground (arith, r.mapped q, r.listed (s.top - 1), r.enough);
}

module _ (fuel g : ℕ) (s : Mmu) (id p : ℕ) (pages : List ℤ)
    (inside : (p ≤ (s.pcb id).m) × (p < s.m) × (p < 128)) where
  walk-hit :
      (s.page_table (id * s.m + p)).valid ≡ true
      → pos 0 ≤ℤ (s.page_table (id * s.m + p)).frame_number
      → walk (suc fuel) g s id (pos p ∷ pages) ≡ walk fuel g (hit (ticked s) id p) id pages
  unfolding walk
  walk-hit there frame =
      let r = real (s.page_table (id * s.m + p)).frame_number frame in
      rw (request-hit g s id p inside.2 inside.0 there, r.0, r.1)

  walk-loaded :
      (s.page_table (id * s.m + p)).valid ≡ false
      → HasFrame s id
      → walk (suc fuel) g s id (pos p ∷ pages)
        ≡ walk fuel g (loaded (ticked s) id p) id (pos p ∷ pages)
  unfolding walk
  walk-loaded absent frame = rw (request-loaded g s id p inside.2 inside.0 absent frame)

-- The process has ended: the memory manager has counted it, and it had `n` faults at most.
abbrev pub Ended : ℕ → Mmu → ℕ → Option Mmu → Type 0
Ended n s id r =
    (t : Mmu) × (r ≡ some t)
    × (t.terminated ≡ s.terminated + 1)
    × (t.page_faults id ≤ s.page_faults id + n)
    × (t.invalid_page_references ≡ s.invalid_page_references)

-- A process whose pages are below 128 and within its row of the table, which has fewer frames than its share,
-- and for which as many frames are free as it has references, all frames in sight being real ones, walks through its whole reference string: two requests for each page are enough,
-- it has at most one fault for each reference and no reference of it is refused.
pub walk_ends :
    (fuel g : ℕ) (s : Mmu) (id : ℕ) (pages : List ℕ)
    → 2 * length pages < fuel
    → InRow (s.pcb id).m s.m pages
    → Ready s id (length pages)
    → Ended (length pages) s id (walk fuel g s id (map pos pages))
walk_ends zero g s id pages h inside r = absurd (omega arith)
walk_ends (suc fuel) g s id [] h inside r =
    unfold walk in let (t, e, n, d, _, f, i) = finish_lem g s id in (t, e, d, rw f (omega arith), i)
walk_ends (suc zero) g s id (p ∷ ps) h inside r = absurd (omega arith)
walk_ends (suc (suc fuel)) g s id (p ∷ ps) h (here, rest) r =
    elim (Bool-cases (s.page_table (id * s.m + p)).valid) [
      | inl there ↦
          rw (walk-hit (suc fuel) g s id p (map pos ps) here there (r.mapped p here.1 there)) (
            let (t, e, d, f, i) =
              walk_ends (suc fuel) g (hit (ticked s) id p) id ps (omega arith) rest (
                hit-Ready s id p (length ps) here.1 (record {
                  enough = omega (arith, r.enough);
                  share = r.share;
                  listed = r.listed;
                  mapped = r.mapped;
                })) in
            (t, e, d, omega (arith, f), i))
      | inr absent ↦
          rw
            (walk-loaded (suc fuel) g s id p (map pos ps) here absent
              (omega (arith, r.enough), r.share))
            (let s1 = loaded (ticked s) id p in
              let there : (s1.page_table (id * s1.m + p)).valid ≡ true = ground arith in
              let frame : pos 0 ≤ℤ (s1.page_table (id * s1.m + p)).frame_number =
                ground (arith, r.listed (s.top - 1), r.enough) in
              let r1 : Ready s1 id (length ps) = loaded-Ready s id p (length ps) here.1 r in
              rw (walk-hit fuel g s1 id p (map pos ps) here there frame) (
                let (t, e, d, f, i) =
                  walk_ends fuel g (hit (ticked s1) id p) id ps (omega arith) rest
                    (hit-Ready s1 id p (length ps) here.1 r1) in
                (t, e, d, ground (arith, f), i)))
    ]

reads_fault : (x : ℤ) → x ≡ page_fault → eqb_ℤ x page_fault ≡ true
reads_fault x h = ground arith

walk-again :
    (fuel g : ℕ) (s : Mmu) (id p : ℕ) (pages : List ℤ)
    → p ≤ (s.pcb id).m
    → p < 128
    → (s.page_table (id * s.m + p)).valid ≡ true
    → (s.page_table (id * s.m + p)).frame_number ≡ page_fault
    → walk (suc fuel) g s id (pos p ∷ pages) ≡ walk fuel g (hit (ticked s) id p) id (pos p ∷ pages)
unfolding walk
walk-again fuel g s id p pages inside small there frame = rw (
  request-hit g s id p small inside there,
  reads_fault (s.page_table (id * s.m + p)).frame_number frame,
)

-- A page whose entry holds no frame (-1) but is marked as valid: the answer -1 reads as a page
-- fault, so the process asks for the page again, however often it asks.
pub walk_never_ends :
    (fuel g : ℕ) (s : Mmu) (id p : ℕ) (pages : List ℤ)
    → p ≤ (s.pcb id).m
    → p < 128
    → (s.page_table (id * s.m + p)).valid ≡ true
    → (s.page_table (id * s.m + p)).frame_number ≡ page_fault
    → walk fuel g s id (pos p ∷ pages) ≡ none
walk_never_ends zero g s id p pages inside small there frame = unfold walk in refl
walk_never_ends (suc fuel) g s id p pages inside small there frame =
    walk-again fuel g s id p pages inside small there frame
    ∙ walk_never_ends fuel g (hit (ticked s) id p) id p pages inside small (ground arith)
        (ground arith)

walk-retry :
    (fuel g : ℕ) (s t : Mmu) (id p : ℕ) (pages : List ℤ)
    → request g s id (pos p) ≡ some (t, page_fault)
    → walk (suc fuel) g s id (pos p ∷ pages) ≡ walk fuel g t id (pos p ∷ pages)
unfolding walk
walk-retry fuel g s t id p pages e = rw e refl

-- A page that was never loaded (its frame is -1), of any process but the first, where no frame is
-- free: the process never gets past it, however often it asks; with enough fuel for the memory
-- manager, each request of it is answered.
pub Exhausted-never_ends :
    (fuel g b : ℕ) (s : Mmu) (id p : ℕ) (pages : List ℤ)
    → p ≤ (s.pcb id).m
    → p < 128
    → (s.page_table (id * s.m + p)).valid ≡ false
    → (s.page_table (id * s.m + p)).frame_number ≡ page_fault
    → Exhausted s id
    → ((j : ℕ) → (s.pcb j).m ≤ b)
    → b < g
    → 0 < id * s.m
    → (walk fuel g s id (pos p ∷ pages) ≡ none)
      × (t : Mmu) × (request g s id (pos p) ≡ some (t, page_fault))
      × (request g t id (pos p) ≡ some (hit (ticked t) id p, page_fault))
Exhausted-never_ends fuel g b s id p pages inside small absent frame full bound h row =
    let (t, e, tm, tp, there, fr) =
      request-Exhausted g s id p small b inside absent frame full bound h row in
    let inside_t : p ≤ (t.pcb id).m = rw tp inside in
    let again : request g t id (pos p) ≡ some (hit (ticked t) id p, page_fault) =
      request-hit g t id p small inside_t there
      ∙ ap (λ (x : ℤ). some (hit (ticked t) id p, x)) fr in
    (
      elim fuel as (λ k. walk k g s id (pos p ∷ pages) ≡ none) [
        | zero ↦ unfold walk in refl
        | suc n ↦
            walk-retry n g s t id p pages e
            ∙ walk_never_ends n g t id p pages inside_t small there fr
      ],
      t,
      e,
      again,
    )
