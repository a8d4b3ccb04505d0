-- ===== src/Session/Time.antt =====
-- The times that `print_time` of Assignment_06/session.c prints.
use os_lab_spr.Base.{
  ℕ, ◌+◌, ◌*◌, ◌/◌, ◌%◌, ◌<◌, ◌≡◌, not, if◌then◌else◌, pos, negsuc, ltb_ℤ, ◌+ℤ◌, ◌≤ℤ◌, ◌<ℤ◌, arith,
  pos_part,
}
use os_lab_spr.Session.{Clock, twelve, print_time}

-- The minute of the day that a clock shows.
abbrev pub minute_of_day : Clock → ℕ
minute_of_day c = (pos_part c.hours % 12 + (if c.pm then 12 else 0)) * 60 + pos_part c.minutes

shifted : (n : ℕ) → (pos n +ℤ negsuc 1979) +ℤ pos 1980 ≡ pos n
unfolding ◌+ℤ◌
shifted n = ground arith

-- The clock of the minute `t` of the day.
clock_of : ℕ → Clock
clock_of t = record {
  hours = twelve (pos (t / 60));
  minutes = pos (t % 60);
  pm = not (ltb_ℤ (pos (t / 60)) (pos 12));
}

clock_of_lem :
    (t : ℕ)
    → t < 1440
    → (minute_of_day (clock_of t) ≡ t)
      × (pos 1 ≤ℤ (clock_of t).hours)
      × ((clock_of t).hours ≤ℤ pos 12)
unfolding clock_of ◌+ℤ◌
clock_of_lem t h = ground arith

-- For a time from 1980 minutes before nine in the morning on, what is printed is a time of the clock: an
-- hour from 1 to 12, a minute below 60, and together the right minute of the day.
pub print_time_lem :
    (n : ℕ)
    → let c = print_time (pos n +ℤ negsuc 1979) in
      (minute_of_day c ≡ n % 1440)
      × (pos 1 ≤ℤ c.hours)
      × (c.hours ≤ℤ pos 12)
      × (pos 0 ≤ℤ c.minutes)
      × (c.minutes <ℤ pos 60)
unfolding print_time clock_of
print_time_lem n =
    let (m, l, u) = clock_of_lem (n % 1440) (omega arith) in
    rw (shifted n) (m, l, u, omega arith, omega arith)
