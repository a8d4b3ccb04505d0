-- ===== src/Event/Order.antt =====
-- The order that `eventcmp` of Assignment_06/event.c gives the events.
use os_lab_spr.Base.{
  ℕ, ◌+◌, ◌*◌, ◌≤◌, ◌<◌, ◌≡◌, ◌↔◌, ◌⊎◌, true, false, arith, pos, negsuc, pos_part, neg_part, ◌<ℤ◌,
}
use os_lab_spr.Event.{Kind, Event, eventcmp, before}

-- Reporters come first, then patients, then sales representatives, then all else.
abbrev pub rank : Kind → ℕ
rank Kind.reporter = 0
rank Kind.patient = 1
rank Kind.sales_rep = 2
rank _ = 3

-- `eventcmp` compares the times, then the ranks. Two events of one kind that is named by its letter
-- at one time each come before the other; only two events of no such kind are equal.
pub eventcmp_sign :
    (a b : Event)
    → ((eventcmp a b ≡ negsuc 0) ↔ (
        (a.time <ℤ b.time) ⊎ ((a.time ≡ b.time) × (rank a.type ≤ rank b.type) × (rank a.type < 3))))
      × ((eventcmp a b ≡ pos 1)
          ↔ ((b.time <ℤ a.time) ⊎ ((a.time ≡ b.time) × (rank b.type < rank a.type))))
      × ((eventcmp a b ≡ pos 0) ↔ ((a.time ≡ b.time) × (rank a.type ≡ 3) × (rank b.type ≡ 3)))
unfolding eventcmp
eventcmp_sign a b = ground arith

-- The order as one inequality between numbers: four times the time, plus the rank.
unfoldable pub late : Event → ℕ
late e = 4 * pos_part e.time + rank e.type

unfoldable pub ahead : Event → ℕ
ahead e = 4 * neg_part e.time

infix 50 ◌≼◌
abbrev pub ◌≼◌ : Event → Event → Type 0
a ≼ b = late a + ahead b ≤ late b + ahead a

pub ≼_iff :
    (a b : Event)
    → (a ≼ b) ↔ ((a.time <ℤ b.time) ⊎ ((a.time ≡ b.time) × (rank a.type ≤ rank b.type)))
unfolding late ahead
≼_iff a b = ground arith

pub before-≼ : (a b : Event) → before a b ≡ true → a ≼ b
unfolding eventcmp late ahead
before-≼ a b h = ground arith

pub not_before-≼ : (a b : Event) → before a b ≡ false → b ≼ a
unfolding eventcmp late ahead
not_before-≼ a b h = ground arith
