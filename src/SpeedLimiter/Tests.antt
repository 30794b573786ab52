-- ===== src/SpeedLimiter/Tests.antt =====
-- A consumer that waits when the limit is lifted: the witness.
use oxiproxy.Prelude.{ℕ, ◌≡◌, refl, arith, List, [], ◌∷◌}
use oxiproxy.SpeedLimiter.{asleep, Bucket, Event, tick, set_rate, run, steps}
use oxiproxy.SpeedLimiter.Waiting.{Starved, lifted_limit_starves}
use oxiproxy.Samples.{whole}

-- Five bytes are missing and the bucket is empty.
abbrev waiting : Bucket whole
waiting = record {
  limiter = record { rate = 0; available = 0; last_refill = 7 };
  consumers = asleep 5 ∷ [];
}

abbrev later : List (Event whole)
later = tick 10 ∷ set_rate 0 ∷ run ∷ tick 20 ∷ run ∷ []

minus_zero : (x : ℕ) → whole.sub x 0 ≡ x
minus_zero x = omega arith

lifted_limit_starves_example : Starved whole (steps whole (λ t. t) later waiting)
lifted_limit_starves_example =
    lifted_limit_starves whole (λ t. t) minus_zero later waiting (tt, (refl, (tt, (tt, (tt, tt)))))
      (record { unlimited = refl; dry = refl; lacking = (refl, tt) })
