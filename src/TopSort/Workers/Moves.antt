-- ===== src/TopSort/Workers/Moves.antt =====
-- The steps of one worker (Assignment_05/LA5/worker.c) as a relation, and what each worker has done
-- by where it stands.
use os_lab_spr.Base.{
  ℕ, ◌+◌, ◌-◌, ◌≤◌, ◌<◌, ◌≡◌, ◌⊎◌, inl, inr, true, false, Option, none, some, arith, ltb, ◌&&◌, bit,
  store, total, Bool-cases,
}
use os_lab_spr.TopSort.{
  Shared, Pc, waiting, writing, counting, leaving, signalling, finished, linked, sem_p, work,
}

-- The semaphore operations that vertex `v` has waited for.
abbrev pub waited : ℕ → (ℕ → ℕ) → ℕ → Pc → ℕ
waited n a v (waiting i) = total i (λ u. bit (linked n a u v))
waited n a v _ = total n (λ u. bit (linked n a u v))

-- Whether `u` has signalled `v`.
abbrev pub sent : ℕ → (ℕ → ℕ) → ℕ → ℕ → Pc → ℕ
sent n a v u (signalling i) = bit (ltb v i && linked n a u v)
sent n a v u finished = bit (linked n a u v)
sent n a v u _ = 0

abbrev pub critical : Pc → ℕ
critical writing = 1
critical counting = 1
critical leaving = 1
critical _ = 0

-- Whether the vertex is among the `idx` entries of the list.
abbrev pub counted : Pc → ℕ
counted leaving = 1
counted (signalling _) = 1
counted finished = 1
counted _ = 0

abbrev pub notified : Pc → ℕ
notified finished = 1
notified _ = 0

pub data Move (n : ℕ) (a : ℕ → ℕ) (v : ℕ) (s : Shared) : Pc → Shared → Pc → Type 0 where
  skip : {i : ℕ} → i < n → linked n a i v ≡ false → Move n a v s (waiting i) s (waiting (i + 1))
  take :
      {i : ℕ}
      → i < n
      → linked n a i v ≡ true
      → 0 < s.sync v
      → Move n a v s
          (waiting i)
          (record s { sync = store s.sync v (s.sync v - 1) })
          (waiting (i + 1))
  lock :
      {i : ℕ} → n ≤ i → 0 < s.mtx → Move n a v s (waiting i) (record s { mtx = s.mtx - 1 }) writing
  write : Move n a v s writing (record s { t = store s.t s.idx v }) counting
  count : Move n a v s counting (record s { idx = s.idx + 1 }) leaving
  unlock : Move n a v s leaving (record s { mtx = s.mtx + 1 }) (signalling 0)
  pass :
      {i : ℕ} → i < n → linked n a v i ≡ false → Move n a v s (signalling i) s (signalling (i + 1))
  post :
      {i : ℕ}
      → i < n
      → linked n a v i ≡ true
      → Move n a v s
          (signalling i)
          (record s { sync = store s.sync i (s.sync i + 1) })
          (signalling (i + 1))
  notify : {i : ℕ} → n ≤ i → Move n a v s (signalling i) (record s { ntfy = s.ntfy + 1 }) finished

-- What a step of worker `v` from `p` came to.
abbrev pub Worked : ℕ → (ℕ → ℕ) → ℕ → Shared → Pc → Option (Shared × Pc) → Type 0
Worked n a v s p none = Unit {0}
Worked n a v s p (some (m, q)) = Move n a v s p m q

sem_p_pos : (v : ℕ) → (v ≡ 0) × (sem_p v ≡ none) ⊎ (0 < v) × (sem_p v ≡ some (v - 1))
sem_p_pos v = ground arith

pub work-Worked :
    (n : ℕ) (a : ℕ → ℕ) (v : ℕ) (s : Shared) (p : Pc) → Worked n a v s p (work n a v s p)
unfolding work
work-Worked n a v s (waiting i) = elim (Bool-cases (ltb i n)) [
  | inl inside ↦ elim (Bool-cases (linked n a i v)) [
    | inl on ↦ elim (sem_p_pos (s.sync v)) [
      | inl (z, blocked) ↦ rw (inside, on, blocked) tt
      | inr (pos, free) ↦ rw (inside, on, free) (take (ground arith) on pos)
    ]
    | inr off ↦ rw (inside, off) (skip (ground arith) off)
  ]
  | inr past ↦ elim (sem_p_pos s.mtx) [
    | inl (z, blocked) ↦ rw (past, blocked) tt
    | inr (pos, free) ↦ rw (past, free) (lock (ground arith) pos)
  ]
]
work-Worked n a v s writing = write
work-Worked n a v s counting = count
work-Worked n a v s leaving = unlock
work-Worked n a v s (signalling i) = elim (Bool-cases (ltb i n)) [
  | inl inside ↦ elim (Bool-cases (linked n a v i)) [
    | inl on ↦ rw (inside, on) (post (ground arith) on)
    | inr off ↦ rw (inside, off) (pass (ground arith) off)
  ]
  | inr past ↦ rw past (notify (ground arith))
]
work-Worked n a v s finished = tt
