-- ===== src/Backoff.antt =====
-- common/src/utils.rs: the delays of reconnections (`ReconnectBackoff`). Durations are milliseconds.
-- `one`, the drawn `ratio` and the conversions are those of `f64`.
pub mod Doubling
mod Tests
use oxiproxy.Prelude.{ℕ, zero, suc, ◌*◌, Bool, ltb, if◌then◌else◌}
use oxiproxy.Prelude.Int.{ℤ, pos, pos_part}
use oxiproxy.Prelude.Float.{Float}

pub record ReconnectBackoff : Type 0 where
  pub current : ℕ
  pub initial : ℕ
  pub max : ℕ

unfoldable pub new : ℕ → ℕ → ReconnectBackoff
new initial max = record { current = initial; initial = initial; max = max }

unfoldable pub default_params : ReconnectBackoff
unfolding new
default_params = new 1000 60000

abbrev pub minimum : ℕ → ℕ → ℕ
minimum a b = if ltb b a then b else a

module _ (fl : Float) (one : fl.F) where
  -- `(base_ms * (1.0 + jitter_ratio)).max(0.0) as u64`, which is never negative; the conversion to a
  -- signed number agrees with that one below 2 ^ 63 milliseconds.
  abbrev pub jittered : fl.F → ℕ → ℕ
  jittered ratio base =
      pos_part (fl.to_i64 (fl.max (fl.mul (fl.of_i64 (pos base)) (fl.add one ratio)) fl.zero))

  -- The delay to wait, and the state for the next one.
  unfoldable pub next_delay : fl.F → ReconnectBackoff → ℕ × ReconnectBackoff
  next_delay ratio b =
      (jittered ratio b.current, record b { current = minimum (b.current * 2) b.max })

unfoldable pub reset : ReconnectBackoff → ReconnectBackoff
reset b = record b { current = b.initial }
