-- ===== src/SpeedLimiter.antt =====
-- node/src/server/speed_limiter.rs: the token bucket that all connections of a node share. Times are
-- in nanoseconds, `seconds` is `as_secs_f64`. An event is one run of a task up to where it waits: a
-- tick of the refill task, `update_rate`, or a waiting consumer that runs.
pub mod Waiting
mod Tests
use oxiproxy.Prelude.{ℕ, ◌-◌, Bool, true, false, not, List, [], ◌∷◌, map, ◌==◌, if◌then◌else◌}
use oxiproxy.Prelude.Int.{pos}
use oxiproxy.Prelude.Float.{Float}

module _ (fl : Float) where
  open fl use {F}

  pub record SpeedLimiter : Type 0 where
    pub rate : ℕ
    pub available : F
    pub last_refill : ℕ

  -- A call of `consume`: over, asleep until it is notified, or about to look at the bucket.
  pub data Consumer : Type 0 where
    done : Consumer
    asleep awake : F → Consumer

  -- `a.min(b)`
  abbrev pub min : F → F → F
  min a b = if fl.lt b a then b else a

  abbrev pub new : ℕ → ℕ → SpeedLimiter
  new rate now = record { rate = rate; available = fl.of_i64 (pos rate); last_refill = now }

  abbrev pub refill : (ℕ → F) → ℕ → SpeedLimiter → SpeedLimiter
  refill seconds now l = if l.rate == 0 then l else record l {
    available =
        min (fl.add l.available (fl.mul (fl.of_i64 (pos l.rate)) (seconds (now - l.last_refill))))
          (fl.of_i64 (pos l.rate));
    last_refill = now;
  }

  -- `notify_waiters`
  abbrev pub notified : Consumer → Consumer
  notified done = done
  notified (asleep remaining) = awake remaining
  notified (awake remaining) = awake remaining

  -- One round of the loop of `consume`.
  -- `available >= remaining` is the negation of `<`, which differs only if one is not a number.
  abbrev pub attempt : SpeedLimiter → F → SpeedLimiter × Consumer
  attempt l remaining =
      if not (fl.lt l.available remaining)
      then (record l { available = fl.sub l.available remaining }, done)
      else (record l { available = fl.zero }, asleep (fl.sub remaining l.available))

  pub consume : SpeedLimiter → ℕ → SpeedLimiter × Consumer
  consume l bytes = if l.rate == 0 then (l, done) else attempt l (fl.of_i64 (pos bytes))

  abbrev pub update_rate : ℕ → SpeedLimiter → SpeedLimiter
  update_rate rate l = record l { rate = rate }

  pub record Bucket : Type 0 where
    pub limiter : SpeedLimiter
    pub consumers : List Consumer

  -- The consumers that are awake run one after the other.
  pub run_awake : SpeedLimiter → List Consumer → Bucket
  run_awake l [] = record { limiter = l; consumers = [] }
  run_awake l (done ∷ cs) = let b = run_awake l cs in record b { consumers = done ∷ b.consumers }
  run_awake l (asleep r ∷ cs) =
      let b = run_awake l cs in record b { consumers = asleep r ∷ b.consumers }
  run_awake l (awake r ∷ cs) =
      let (l', c) = attempt l r in
      let b = run_awake l' cs in record b { consumers = c ∷ b.consumers }

  pub data Event : Type 0 where
    tick : ℕ → Event
    set_rate : ℕ → Event
    run : Event

  abbrev notify_if : Bool → List Consumer → List Consumer
  notify_if true cs = map notified cs
  notify_if false cs = cs

  unfoldable pub step : (ℕ → F) → Event → Bucket → Bucket
  unfolding run_awake
  step seconds (tick now) b = record {
    limiter = refill seconds now b.limiter;
    consumers = notify_if (not (b.limiter.rate == 0)) b.consumers;
  }
  step seconds (set_rate rate) b = record {
    limiter = update_rate rate b.limiter;
    consumers = notify_if (rate == 0) b.consumers;
  }
  step seconds run b = run_awake b.limiter b.consumers

  unfoldable pub steps : (ℕ → F) → List Event → Bucket → Bucket
  unfolding step
  steps seconds [] b = b
  steps seconds (e ∷ es) b = steps seconds es (step seconds e b)
