-- ===== src/SpeedLimiter/Waiting.antt =====
-- A limit that is lifted while connections wait.
use oxiproxy.Prelude.{ℕ, ◌≡◌, refl, ◌∙◌, true, List, [], ◌∷◌, map, All}
use oxiproxy.Prelude.Float.{Float}
use oxiproxy.SpeedLimiter.{
  SpeedLimiter, Consumer, done, asleep, awake, notified, attempt, Bucket, run_awake, Event, tick,
  set_rate, run, step, steps,
}

module _ (fl : Float) where
  open fl use {F}

  -- A consumer that still lacks more than nothing.
  abbrev pub Lacks : Consumer fl → Type 0
  Lacks done = ⊥
  Lacks (asleep r) = fl.lt fl.zero r ≡ true
  Lacks (awake r) = fl.lt fl.zero r ≡ true

  -- No limit, nothing in the bucket, and every consumer lacks something.
  pub record Starved (b : Bucket fl) : Type 0 where
    pub unlimited : b.limiter.rate ≡ 0
    pub dry : b.limiter.available ≡ fl.zero
    pub lacking : All Lacks b.consumers

  -- An event that sets no limit.
  abbrev pub LeavesUnlimited : Event fl → Type 0
  LeavesUnlimited (tick now) = Unit
  LeavesUnlimited (set_rate rate) = rate ≡ 0
  LeavesUnlimited run = Unit

  module _ (seconds : ℕ → F) (sub_zero : (x : F) → fl.sub x fl.zero ≡ x) where
    attempt_dry :
        (l : SpeedLimiter fl) (r : F)
        → l.available ≡ fl.zero
        → fl.lt fl.zero r ≡ true
        → ((attempt fl l r).0.rate ≡ l.rate)
          × ((attempt fl l r).0.available ≡ fl.zero)
          × Lacks (attempt fl l r).1
    attempt_dry l r dry lacks = rw (dry, lacks) (refl, refl, rw (sub_zero r) lacks)

    notified_Lacks : (cs : List (Consumer fl)) → All Lacks cs → All Lacks (map (notified fl) cs)
    notified_Lacks [] h = tt
    notified_Lacks (done ∷ cs) (h, hs) = absurd h
    notified_Lacks (asleep r ∷ cs) (h, hs) = (h, notified_Lacks cs hs)
    notified_Lacks (awake r ∷ cs) (h, hs) = (h, notified_Lacks cs hs)

    run_Starved :
        (l : SpeedLimiter fl) (cs : List (Consumer fl))
        → l.rate ≡ 0
        → l.available ≡ fl.zero
        → All Lacks cs
        → Starved (run_awake fl l cs)
    unfolding run_awake
    run_Starved l [] u d h = record { unlimited = u; dry = d; lacking = tt }
    run_Starved l (done ∷ cs) u d (h, hs) = absurd h
    run_Starved l (asleep r ∷ cs) u d (h, hs) =
        let rest = run_Starved l cs u d hs in
        record { unlimited = rest.unlimited; dry = rest.dry; lacking = (h, rest.lacking) }
    run_Starved l (awake r ∷ cs) u d (h, hs) =
        let (rate, dry, lacks) = attempt_dry l r d h in
        let rest = run_Starved (attempt fl l r).0 cs (rate ∙ u) dry hs in
        record { unlimited = rest.unlimited; dry = rest.dry; lacking = (lacks, rest.lacking) }

    step-Starved :
        (e : Event fl) (b : Bucket fl)
        → LeavesUnlimited e
        → Starved b
        → Starved (step fl seconds e b)
    unfolding step
    step-Starved (tick now) b _ s = record {
      unlimited = rw s.unlimited refl;
      dry = rw s.unlimited s.dry;
      lacking = rw s.unlimited s.lacking;
    }
    step-Starved (set_rate rate) b e s = record {
      unlimited = e;
      dry = s.dry;
      lacking = rw e (notified_Lacks b.consumers s.lacking);
    }
    step-Starved run b _ s = run_Starved b.limiter b.consumers s.unlimited s.dry s.lacking

    -- Once the limit is lifted while the bucket is empty, no consumer that waits ever finishes,
    -- whatever ticks, wake-ups and further calls of `update_rate(0)` follow (for a `sub` with
    -- `x - 0.0 = x`): there is nothing to refill, and the loop looks at the bucket alone.
    pub lifted_limit_starves :
        (es : List (Event fl)) (b : Bucket fl)
        → All LeavesUnlimited es
        → Starved b
        → Starved (steps fl seconds es b)
    unfolding steps
    lifted_limit_starves [] b h s = s
    lifted_limit_starves (e ∷ es) b (h, hs) s =
        lifted_limit_starves es (step fl seconds e b) hs (step-Starved e b h s)
