-- ===== src/GenGraph/File.antt =====
-- Assignment_05/LA5: boss.c reads the file that gengraph.c prints.
use mathlib.Core.List.{append_assoc, append-nil}
use os_lab_spr.Base.{
  ℕ, zero, suc, ◌+◌, ◌*◌, ◌≤◌, ◌<◌, ◌≡◌, ◌≢◌, refl, sym, ap, ◌∙◌, inl, inr, false, ◌&&◌, ltb,
  if◌then◌else◌, dec_lt, ◌==◌, store, arith, ℕ_discrete, List, [], ◌∷◌, ◌++◌, Bool-cases,
}
use os_lab_spr.GenGraph.{
  print_row, print_rows, print_graph, scan_entry, read_row, read_rows, read_graph,
}

scan_entry_lem :
    (k : ℕ) (s : List ℕ × (ℕ → ℕ)) (x : ℕ) (xs : List ℕ)
    → s.0 ≡ x ∷ xs
    → ((scan_entry k s).0 ≡ xs) × ((l : ℕ) → (scan_entry k s).1 l ≡ store s.1 k x l)
scan_entry_lem k ([], a) x xs e = absurd (cc)
scan_entry_lem k (y ∷ ys, a) x xs e = (cc, λ l. ap (λ z. store a k z l) (cc))

-- An entry of an earlier row stands before any of a later one.
row_lt : (n i j k l : ℕ) → j < n → i < k → i * n + j < k * n + l
row_lt n i j k l p h = let whole : (i + 1) * n ≤ k * n = grind arith in grind arith

apart :
    (n i j k l : ℕ) → j < n → l < n → (i == k && j == l) ≡ false → (i * n + j == k * n + l) ≡ false
apart n i j k l p q ne = elim (ℕ_discrete i k) [
  | yes e ↦ let other : j ≢ l = ground arith in rw e (ground arith)
  | no d ↦ elim (dec_lt i k) [
    | yes less ↦ ground (arith, row_lt n i j k l p less)
    | no more ↦ ground (arith, row_lt n k l i j q (omega arith))
  ]
]

module _ (n : ℕ) (a : ℕ → ℕ → ℕ) where
  -- A row that is read is there, what stood elsewhere too, and the rest of the file is left.
  read_row_lem :
      (i j : ℕ) (rest : List ℕ) (m : ℕ → ℕ)
      → j ≤ n
      → ((read_row n i j (print_row a i j ++ rest, m)).0 ≡ rest)
        × ((k l : ℕ)
            → l < n
            → (read_row n i j (print_row a i j ++ rest, m)).1 (k * n + l)
              ≡ (if i == k && ltb l j then a k l else m (k * n + l)))
  unfolding read_row print_row
  read_row_lem i zero rest m h = (refl, λ k l q. ground arith)
  read_row_lem i (suc j) rest m h =
      let before = read_row_lem i j (a i j ∷ rest) m (omega arith) in
      let s : List ℕ × (ℕ → ℕ) = read_row n i j (print_row a i j ++ (a i j ∷ rest), m) in
      let next = scan_entry_lem (i * n + j) s (a i j) rest before.0 in
      rw (append_assoc (print_row a i j) (a i j ∷ []) rest) (
        next.0,
        λ k l q. next.1 (k * n + l) ∙ elim (Bool-cases (i == k && j == l)) [
          | inl e ↦
              let row : i ≡ k = ground arith in
              let column : j ≡ l = ground arith in rw (← row) (rw (← column) (ground arith))
          | inr e ↦ rw (apart n i j k l (omega arith) q e) (before.1 k l q ∙ ground arith)
        ],
      )

  read_rows_lem :
      (i : ℕ) (rest : List ℕ) (m : ℕ → ℕ)
      → ((read_rows n i (print_rows n a i ++ rest, m)).0 ≡ rest)
        × ((k l : ℕ)
            → l < n
            → k < i
            → (read_rows n i (print_rows n a i ++ rest, m)).1 (k * n + l) ≡ a k l)
  unfolding read_rows print_rows
  read_rows_lem zero rest m = (refl, λ k l q p. absurd (omega arith))
  read_rows_lem (suc i) rest m =
      let file : List ℕ = print_row a i n ++ rest in
      let before = read_rows_lem i file m in
      let s : List ℕ × (ℕ → ℕ) = read_rows n i (print_rows n a i ++ file, m) in
      let row = read_row_lem i n rest s.1 (omega arith) in
      let same : s ≡ (file, s.1) = ap (λ f. (f, s.1)) before.0 in
      rw (append_assoc (print_rows n a i) (print_row a i n) rest) (
        ap (λ z. (read_row n i n z).0) same ∙ row.0,
        λ k l q p.
            ap (λ z. (read_row n i n z).1 (k * n + l)) same ∙ row.1 k l q ∙ elim (ℕ_discrete i k) [
              | yes e ↦ ground arith
              | no ne ↦ ground (arith, before.1 k l q (omega arith))
            ],
      )

-- What gengraph prints of a matrix is read as its size and the matrix in row order.
pub read_graph-print_graph :
    (n : ℕ) (a : ℕ → ℕ → ℕ) (memory : ℕ → ℕ)
    → ((read_graph (print_graph n a) memory).0 ≡ n)
      × ((k l : ℕ) → k < n → l < n → (read_graph (print_graph n a) memory).1 (k * n + l) ≡ a k l)
unfolding read_graph print_graph
read_graph-print_graph n a memory =
    let read = read_rows_lem n a n [] memory in
    (
      refl,
      λ k l p q.
          ap (λ f. (read_rows n n (f, memory)).1 (k * n + l)) (sym (append-nil _)) ∙ read.1 k l q p,
    )
