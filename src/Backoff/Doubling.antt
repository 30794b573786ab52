-- ===== src/Backoff/Doubling.antt =====
-- The delay doubles with each failure up to the limit, and starts again after a success.
use oxiproxy.Prelude.{ℕ, ◌*◌, ◌≤◌, ◌≡◌, refl, sym, ap, ◌∙◌, List, [], ◌∷◌, arith}
use oxiproxy.Prelude.Float.{Float}
use oxiproxy.Backoff.{ReconnectBackoff, minimum, jittered, next_delay, reset}

-- Twice a limited number, limited, is twice the number, limited.
minimum_twice : (a m : ℕ) → minimum (minimum a m * 2) m ≡ minimum (a * 2) m
minimum_twice a m = ground arith

minimum_small : (a m : ℕ) → a ≤ m → a ≡ minimum a m
minimum_small a m le = ground arith

module _ (fl : Float) (one : fl.F) where
  -- The state after failures, one for each drawn ratio, and the delays that were waited.
  unfoldable pub failed : List fl.F → ReconnectBackoff → ReconnectBackoff
  failed [] b = b
  failed (r ∷ rs) b = failed rs (next_delay fl one r b).1

  unfoldable pub delays : List fl.F → ReconnectBackoff → List ℕ
  delays [] b = []
  delays (r ∷ rs) b = (next_delay fl one r b).0 ∷ delays rs (next_delay fl one r b).1

  -- The delays without a state: the n-th is the first one doubled n times, limited, with its jitter.
  abbrev pub expected : List fl.F → ℕ → ℕ → List ℕ
  expected [] base limit = []
  expected (r ∷ rs) base limit =
      jittered fl one r (minimum base limit) ∷ expected rs (base * 2) limit

  delays-expected :
      (rs : List fl.F) (base : ℕ) (b : ReconnectBackoff)
      → b.current ≡ minimum base b.max
      → delays rs b ≡ expected rs base b.max
  unfolding delays next_delay
  delays-expected [] base b e = refl
  delays-expected (r ∷ rs) base b e =
      ap
        (λ c.
          jittered fl one r c ∷ delays rs (record b { current = minimum (b.current * 2) b.max }))
        e
      ∙ ap (λ ds. jittered fl one r (minimum base b.max) ∷ ds)
          (delays-expected rs (base * 2) (record b { current = minimum (b.current * 2) b.max })
            (ap (λ c. minimum (c * 2) b.max) e ∙ minimum_twice base b.max))

  -- The limits of a backoff never change.
  failed_limits :
      (rs : List fl.F) (b : ReconnectBackoff)
      → ((failed rs b).initial ≡ b.initial) × ((failed rs b).max ≡ b.max)
  unfolding failed next_delay
  failed_limits [] b = (refl, refl)
  failed_limits (r ∷ rs) b = failed_limits rs (next_delay fl one r b).1

  -- Where the first delay is not above the limit: after a reset, whatever failed before it, the delays
  -- of a series of failures are the first one, doubled each time up to the limit, each with its jitter.
  pub delays-reset :
      (before rs : List fl.F) (b : ReconnectBackoff)
      → b.initial ≤ b.max
      → delays rs (reset (failed before b)) ≡ expected rs b.initial b.max
  unfolding reset
  delays-reset before rs b le =
      let (first, limit) = failed_limits before b in
      delays-expected rs b.initial (reset (failed before b))
        (first ∙ (minimum_small b.initial b.max le ∙ ap (λ m. minimum b.initial m) (sym limit)))
      ∙ ap (λ m. expected rs b.initial m) limit
