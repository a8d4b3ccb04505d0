-- ===== src/Sync/Loops.antt =====
-- Assignment_09/code.c: the two loops of `sync_directories`, for any treatment of an item that does its part.
use os_lab_spr.Base.{
  ℕ, Bool, true, false, Option, none, some, List, [], ◌∷◌, ◌++◌, ◌==◌, ◌||◌, if◌then◌else◌, ◌≡◌,
  refl, sym, ap, ◌∙◌, arith, Bool-cases, inl, inr, ◌⊎◌,
}
use mathlib.Core.Bool.{false≢true}
use os_lab_spr.Sync.{
  Node, dir, Entries, end, entry, lookup, names, put, ok, Report, Visit, loop, fill,
}
use os_lab_spr.Sync.View.{Synced, Apart, at, merge, clash, merge-merge, clash-merge, lookup-put}

abbrev pub listed : ℕ → List ℕ → Bool
listed x [] = false
listed x (y ∷ ys) = y == x || listed x ys

pub names-lookup : (x : ℕ) (es : Entries) → listed x (names es) ≡ false → lookup x es ≡ none
names-lookup x end h = refl
names-lookup x (entry y n es) h = let ih = names-lookup x es in ground arith

-- Doing an item again is as good as doing it once.
Synced-again : (s d c r : Option Node) → Synced s d c → Synced s c r → Synced s d r
Synced-again s d c r first again =
    λ p. again p ∙ ap (λ l. merge (at p s) l) (first p) ∙ merge-merge (at p s) (at p d)

Apart-again : (s d c : Option Node) → Synced s d c → Apart s c
Apart-again s d c first = λ p. ap (λ l. clash (at p s) l) (first p) ∙ clash-merge (at p s) (at p d)

pub Synced-dir :
    (m k l : ℕ) (es ds bs : Entries)
    → ((x : ℕ) → Synced (lookup x es) (lookup x ds) (lookup x bs))
    → Synced (some (dir m es)) (some (dir k ds)) (some (dir l bs))
Synced-dir m k l es ds bs h [] = refl
Synced-dir m k l es ds bs h (x ∷ p) = h x p

module _ (visit : Visit) (path : List ℕ) (es : Entries)
    (visits : (x : ℕ) (d : Option Node)
      → Apart (lookup x es) d
      → (r : Option Node) × (log : List Report) × (visit (path ++ x ∷ []) (lookup x es) d
          ≡ ok (r, log))
        × Synced (lookup x es) d r)
    (start : Entries) (fits : (x : ℕ) → Apart (lookup x es) (lookup x start)) where
  -- An item of a later state is done, or as it was.
  abbrev Done : Entries → ℕ → Type 0
  Done ds x = Synced (lookup x es) (lookup x start) (lookup x ds)

  abbrev Kept : Entries → ℕ → Type 0
  Kept ds x = lookup x ds ≡ lookup x start

  abbrev OnTheWay : Entries → Type 0
  OnTheWay ds = (x : ℕ) → Done ds x ⊎ Kept ds x

  abbrev After : Entries → List ℕ → Entries → Type 0
  After ds xs r =
      OnTheWay r × ((x : ℕ) → Done ds x → Done r x) × ((x : ℕ) → listed x xs ≡ true → Done r x)

  -- The item of a state, done.
  visit_lem :
      (ds : Entries) (x : ℕ)
      → Done ds x ⊎ Kept ds x
      → (r : Option Node) × (log : List Report) × (visit
            (path ++ x ∷ [])
            (lookup x es)
            (lookup x ds)
          ≡ ok (r, log))
        × Synced (lookup x es) (lookup x start) r
  visit_lem ds x (inl done) =
      let (r, log, runs, again) =
        visits x (lookup x ds) (Apart-again (lookup x es) (lookup x start) (lookup x ds) done) in
      (r, log, runs, Synced-again (lookup x es) (lookup x start) (lookup x ds) r done again)
  visit_lem ds x (inr kept) =
      let (r, log, runs, done) = visits x (lookup x start) (fits x) in (r, log, rw kept runs, done)

  -- An item after one was put: done, or as it was.
  put_lem :
      (ds : Entries) (y : ℕ) (v : Option Node)
      → Synced (lookup y es) (lookup y start) v
      → (x : ℕ) → Done (put y v ds) x ⊎ (lookup x (put y v ds) ≡ lookup x ds)
  put_lem ds y v new x = elim (Bool-cases (y == x)) [
    | inl e ↦
        let same : y ≡ x = ground arith in inl (rw (lookup-put x y v ds) (rw e (rw (← same) new)))
    | inr e ↦ inr (lookup-put x y v ds ∙ ap (λ b. if b then v else lookup x ds) e)
  ]

  put-Done :
      (ds : Entries) (y : ℕ) (v : Option Node)
      → Synced (lookup y es) (lookup y start) v
      → (x : ℕ) → Done ds x
      → Done (put y v ds) x
  put-Done ds y v new x old = elim (put_lem ds y v new x) [
    | inl done ↦ done
    | inr kept ↦ rw kept old
  ]

  put_way :
      (ds : Entries) (y : ℕ) (v : Option Node)
      → Synced (lookup y es) (lookup y start) v
      → OnTheWay ds
      → OnTheWay (put y v ds)
  put_way ds y v new way x = elim (put_lem ds y v new x) [
    | inl done ↦ inl done
    | inr kept ↦ rw kept (way x)
  ]

  put_new :
      (ds : Entries) (y : ℕ) (v : Option Node)
      → Synced (lookup y es) (lookup y start) v
      → (x : ℕ) → (y == x) ≡ true
      → Done (put y v ds) x
  put_new ds y v new x e =
      let same : y ≡ x = ground arith in rw (lookup-put x y v ds) (rw e (rw (← same) new))

  listed_cases :
      (x y : ℕ) (ys : List ℕ) → listed x (y ∷ ys) ≡ true → ((y == x) ≡ true) ⊎ (listed x ys ≡ true)
  listed_cases x y ys h = elim (Bool-cases (y == x)) [ inl e ↦ inl e | inr e ↦ inr (ground arith) ]

  loop_lem :
      (xs : List ℕ) (ds : Entries)
      → OnTheWay ds
      → (r : Entries) × (log : List Report) × (loop visit path es xs ds ≡ ok (r, log))
        × After ds xs r
  loop_lem [] ds way = (ds, [], refl, (way, (λ x h. h), (λ x h. absurd (false≢true h))))
  loop_lem (y ∷ xs) ds way =
      let (v, now, visited, new) = visit_lem ds y (way y) in
      let (r, log, runs, (on, keeps, does)) = loop_lem xs (put y v ds) (put_way ds y v new way) in
      (
        r,
        now ++ log,
        rw (visited, runs) refl,
        (
          on,
          (λ x h. keeps x (put-Done ds y v new x h)),
          (λ x h. elim (listed_cases x y xs h) [
            | inl e ↦ keeps x (put_new ds y v new x e)
            | inr e ↦ does x e
          ]),
        ),
      )

  -- What was never named has nothing on either side.
  unnamed :
      (b : Entries) (x : ℕ)
      → lookup x es ≡ none
      → lookup x start ≡ none
      → Done b x ⊎ Kept b x
      → Done b x
  unnamed b x no_s no_d (inl done) = done
  unnamed b x no_s no_d (inr kept) = rw (kept, no_d, no_s) (λ p. refl)

  all-Done :
      (a b : Entries)
      → OnTheWay a
      → OnTheWay b
      → ((x : ℕ) → Done a x → Done b x)
      → ((x : ℕ) → listed x (names es) ≡ true → Done a x)
      → ((x : ℕ) → listed x (names a) ≡ true → Done b x)
      → (x : ℕ) → Done b x
  all-Done a b way_a way_b keeps first second x = elim (Bool-cases (listed x (names es))) [
    | inl e ↦ keeps x (first x e)
    | inr e ↦ elim (Bool-cases (listed x (names a))) [
      | inl f ↦ second x f
      | inr f ↦ elim (way_a x) [
        | inl done ↦ keeps x done
        | inr kept ↦ unnamed b x (names-lookup x es e) (sym kept ∙ names-lookup x a f) (way_b x)
      ]
    ]
  ]

  pub fill_lem :
      (m k : ℕ) (log : List Report)
      → (r : Node) × (out : List Report) × (fill visit path (dir m es) (dir k start) log
          ≡ ok (some r, out))
        × Synced (some (dir m es)) (some (dir k start)) (some r)
  fill_lem m k log =
      let (a, log_a, run_a, (way_a, keeps_a, does_a)) = loop_lem (names es) start (λ x. inr refl) in
      let (b, log_b, run_b, (way_b, keeps_b, does_b)) = loop_lem (names a) a way_a in
      let all : (x : ℕ) → Done b x = all-Done a b way_a way_b keeps_b does_a does_b in
      (dir k b, log ++ log_a ++ log_b, rw (run_a, run_b) refl, Synced-dir m k k es start b all)
