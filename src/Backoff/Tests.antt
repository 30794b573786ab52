-- ===== src/Backoff/Tests.antt =====
-- A backoff of a second, limited to a minute.
use oxiproxy.Prelude.{◌≡◌, refl, [], ◌∷◌, arith}
use oxiproxy.Backoff.{new, default_params, next_delay, reset}
use oxiproxy.Backoff.Doubling.{delays, failed, expected, delays-reset}
use oxiproxy.Samples.{whole}

seven_failures :
    delays whole 1 (0 ∷ 0 ∷ 0 ∷ 0 ∷ 0 ∷ 0 ∷ 0 ∷ []) default_params
    ≡ 1000 ∷ 2000 ∷ 4000 ∷ 8000 ∷ 16000 ∷ 32000 ∷ 60000 ∷ []
unfolding delays default_params new next_delay
seven_failures = refl

delays-reset_example :
    delays whole 1 (0 ∷ 0 ∷ []) (reset (failed whole 1 (0 ∷ 0 ∷ 0 ∷ []) default_params))
    ≡ expected whole 1 (0 ∷ 0 ∷ []) default_params.initial default_params.max
unfolding default_params new
delays-reset_example =
    delays-reset whole 1 (0 ∷ 0 ∷ 0 ∷ []) (0 ∷ 0 ∷ []) default_params (omega arith)
