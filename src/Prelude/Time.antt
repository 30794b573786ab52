-- ===== src/Prelude/Time.antt =====
-- Timestamps: `chrono::NaiveDateTime` by its calendar fields.
use oxiproxy.Prelude.{ℕ, Bool, ◌&&◌, ◌||◌, ltb, ◌==◌}

-- `time` is the time of day, in nanoseconds.
pub record DateTime : Type 0 where
  pub year : ℕ
  pub month : ℕ
  pub day : ℕ
  pub time : ℕ

-- `a.date() < b.date()` and `a < b`: chronological order.
abbrev pub date_lt : DateTime → DateTime → Bool
date_lt a b =
    ltb a.year b.year
    || (a.year == b.year && (ltb a.month b.month || (a.month == b.month && ltb a.day b.day)))

abbrev pub time_lt : DateTime → DateTime → Bool
time_lt a b =
    date_lt a b || (a.year == b.year && a.month == b.month && a.day == b.day && ltb a.time b.time)
