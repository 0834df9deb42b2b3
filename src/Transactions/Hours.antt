-- ===== src/Transactions/Hours.antt =====
-- `ensureMarketOpen`: no orders from Friday 14:30 to Sunday 15:00, Pacific time. The weekday, hour
-- and minute are those that `Intl.DateTimeFormat` renders.
use crypto_sim_backend.Common.{
  ℕ, ◌+◌, ◌*◌, ◌≤◌, ◌<◌, ◌≡◌, ◌↔◌, Bool, true, false, ◌&&◌, ◌||◌, leb, ltb, arith,
}

pub data Weekday : Type 0 where
  sun mon tue wed thu fri sat : Weekday

pub record PacificTime : Type 0 where
  pub day : Weekday
  pub hour : ℕ
  pub minute : ℕ

abbrev pub total_minutes : PacificTime → ℕ
total_minutes t = t.hour * 60 + t.minute

abbrev pub fri_close : ℕ
fri_close = 14 * 60 + 30

abbrev pub sun_open : ℕ
sun_open = 15 * 60 + 0

abbrev is_fri : Weekday → Bool
is_fri Weekday.fri = true
is_fri _ = false

abbrev is_sat : Weekday → Bool
is_sat Weekday.sat = true
is_sat _ = false

abbrev is_sun : Weekday → Bool
is_sun Weekday.sun = true
is_sun _ = false

unfoldable pub is_closed : PacificTime → Bool
is_closed t =
    (is_fri t.day && leb fri_close (total_minutes t))
    || is_sat t.day
    || (is_sun t.day && ltb (total_minutes t) sun_open)

-- Minutes since Monday 00:00, for a time of day that a clock of 24 hours shows.
day_index : Weekday → ℕ
day_index Weekday.mon = 0
day_index Weekday.tue = 1
day_index Weekday.wed = 2
day_index Weekday.thu = 3
day_index Weekday.fri = 4
day_index Weekday.sat = 5
day_index Weekday.sun = 6

pub minute_of_week : PacificTime → ℕ
unfolding day_index
minute_of_week t = day_index t.day * 1440 + total_minutes t

-- At a time of day below 24:00 the market is closed exactly in the weekly interval from Friday
-- 14:30, included, to Sunday 15:00, excluded, counted in minutes from Monday 00:00.
pub is_closed_iff :
    (t : PacificTime)
    → t.hour < 24
    → t.minute < 60
    → (is_closed t ≡ true)
      ↔ ((4 * 1440 + 870 ≤ minute_of_week t) × (minute_of_week t < 6 * 1440 + 900))
unfolding is_closed minute_of_week
is_closed_iff t h m = ground arith

-- Where midnight is rendered as hour 24, the first hour of a Sunday counts as open.
pub is_closed_hour_24 :
    (m : ℕ) → is_closed (record { day = Weekday.sun; hour = 24; minute = m }) ≡ false
unfolding is_closed
is_closed_hour_24 m = ground arith
