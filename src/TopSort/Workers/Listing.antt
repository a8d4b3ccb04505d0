-- ===== src/TopSort/Workers/Listing.antt =====
-- What holds of the list `T` while the workers of Assignment_05/LA5/worker.c fill it.
use os_lab_spr.Base.{
  ℕ, ◌+◌, ◌≤◌, ◌<◌, ◌≡◌, ◌≢◌, refl, true, arith, bit, store, total, total-squeeze, two-total, ◌∙◌,
  ℕ_discrete,
}
use os_lab_spr.TopSort.{Shared, Pc, writing, counting, leaving, signalling, finished, linked}
use os_lab_spr.TopSort.Cover.{IsListing, Listed}
use os_lab_spr.TopSort.Workers.Moves.{waited, sent, critical, counted}
use os_lab_spr.TopSort.Workers.Invariant.{Counters}

pub record Written (n : ℕ) (a : ℕ → ℕ) (s : Shared) (pc : ℕ → Pc) : Type 0 where
  pub listing : IsListing n s.t s.idx
  pub owner : (j : ℕ) → j < s.idx → counted (pc (s.t j)) ≡ 1
  pub listed : (u : ℕ) → u < n → counted (pc u) ≡ 1 → Listed s.t s.idx u
  pub here : (u : ℕ) → u < n → pc u ≡ counting → s.t s.idx ≡ u
  pub ordered : (k u : ℕ) → k < s.idx → u < n → linked n a u (s.t k) ≡ true → Listed s.t k u

sent-le : (n : ℕ) (a : ℕ → ℕ) (v u : ℕ) (p : Pc) → sent n a v u p ≤ bit (linked n a u v)
sent-le n a v u (signalling i) = ground arith
sent-le n a v u p = ground arith

counted_of_sent : (n : ℕ) (a : ℕ → ℕ) (v u : ℕ) (p : Pc) → sent n a v u p ≡ 1 → counted p ≡ 1
counted_of_sent n a v u (signalling i) e = refl
counted_of_sent n a v u finished e = refl
counted_of_sent n a v u leaving e = refl
counted_of_sent n a v u p e = ground arith

-- A worker that has left the first loop finds every vertex with an edge to its own in the list.
pub ready :
    {n : ℕ} {a : ℕ → ℕ} {s : Shared} {pc : ℕ → Pc}
    → Counters n a s pc
    → (v : ℕ) → v < n
    → waited n a v (pc v) ≡ total n (λ u. bit (linked n a u v))
    → (u : ℕ) → u < n
    → linked n a u v ≡ true
    → counted (pc u) ≡ 1
ready {n} {a} {s} {pc} c v h w u r on = counted_of_sent n a v u (pc u) (
    total-squeeze n (λ x. sent n a v x (pc x)) (λ x. bit (linked n a x v))
      (λ x _. sent-le n a v x (pc x)) (omega (arith, c.sync_ok v h, w)) u r
    ∙ rw on)

module _ {n : ℕ} {a : ℕ → ℕ} {s : Shared} {pc : ℕ → Pc} (v : ℕ) (h : v < n) (c : Counters n a s pc)
    (w : Written n a s pc) where
  pub write-Written :
      pc v ≡ writing → Written n a (record s { t = store s.t s.idx v }) (store pc v counting)
  write-Written e = record {
    listing = record {
      range = λ j p. ground (arith, w.listing.range j p);
      distinct = λ j k p q t. w.listing.distinct j k p q (ground arith);
    };
    owner = λ j p. ground (arith, w.owner j p);
    listed = λ u p q. let (j, below, t) = w.listed u p (ground arith) in (j, below, ground arith);
    here = λ u p q. elim (ℕ_discrete v u) [
      | yes same ↦ ground arith
      | no ne ↦ absurd (ground (arith, c.mtx_ok, two-total n (λ x. critical (pc x)) v u h p ne))
    ];
    ordered = λ k u p q on.
        let (j, below, t) = w.ordered k u p q (ground arith) in (j, below, ground arith);
  }

  -- The new entry is the vertex itself, which was not counted before.
  pub count-Written :
      pc v ≡ counting → Written n a (record s { idx = s.idx + 1 }) (store pc v leaving)
  count-Written e =
      let at : s.t s.idx ≡ v = w.here v h e in
      let fresh = λ (j : ℕ) (p : j < s.idx).
        (let o = w.owner j p in let d : s.t j ≢ v = λ q. (ground (arith, q, o)) in d) in
      record {
        listing = record {
          range = λ j p. ground (arith, w.listing.range j);
          distinct = λ j k p q t. ground (arith, at, w.listing.distinct j k, fresh j, fresh k);
        };
        owner = λ j p. ground (arith, w.owner j, at);
        listed = λ u p q. elim (ℕ_discrete v u) [
          | yes same ↦ (s.idx, omega arith, at ∙ same)
          | no ne ↦ let (j, below, t) = w.listed u p (ground arith) in (j, omega arith, t)
        ];
        here = λ u p q. elim (ℕ_discrete v u) [
          | yes same ↦ ground arith
          | no ne ↦ absurd (ground (arith, c.mtx_ok, two-total n (λ x. critical (pc x)) v u h p ne))
        ];
        ordered = λ k u p q on. elim (ℕ_discrete s.idx k) [
          | yes last ↦
              rw (← last) (w.listed u q (ready c v h (ground arith) u q (ground (arith, at))))
          | no ne ↦ w.ordered k u (omega arith) q on
        ];
      }

  -- A move that leaves the list and the index alone.
  pub keep-Written :
      (q : Pc) (x y : ℕ) (z : ℕ → ℕ)
      → counted q ≡ counted (pc v)
      → q ≢ counting
      → Written n a (record s { mtx = x; ntfy = y; sync = z }) (store pc v q)
  keep-Written q x y z e ne = record {
    listing = w.listing;
    owner = λ j p. ground (arith, w.owner j p);
    listed = λ u p r. w.listed u p (ground arith);
    here = λ u p r. elim (ℕ_discrete v u) [
      | yes same ↦ absurd (ground arith)
      | no d ↦ w.here u p (ground arith)
    ];
    ordered = w.ordered;
  }
