-- ===== src/Tunnel/Listening.antt =====
-- Which tasks of the tunnel manager listen, after any series of operations.
use oxiproxy.Prelude.{
  ℕ, ◌≡◌, refl, ap, ◌∙◌, ◌⊎◌, inl, inr, Bool, true, false, not, Option, none, some, List, [], ◌∷◌,
  Text, text_eq, ◌==◌, ==_iff, length, filter, arith, Bool-cases,
}
use oxiproxy.Tunnel.{
  Task, TunnelManager, service_of, new, cancel, cancelled, stop, spawn, start, update_port,
  switch_protocol, ended, listening,
}

module _ {K : Type 0} where
  listening-cancel :
      (key : ℕ) (ts : List (Task K))
      → listening (cancel key ts) ≡ filter (λ (t : Task K). not (t.key == key)) (listening ts)
  listening-cancel key [] = refl
  listening-cancel key (t ∷ ts) = ground (arith, listening-cancel key ts)

  dropped :
      (key : ℕ) (t : Task K)
      → t.key ≡ key
      → filter (λ (u : Task K). not (u.key == key)) (t ∷ []) ≡ []
  dropped key t e = ground (arith, ==_iff t.key key)

  kept_alone :
      (key : ℕ) (t : Task K)
      → (t.key == key) ≡ false
      → filter (λ (u : Task K). not (u.key == key)) (t ∷ []) ≡ t ∷ []
  kept_alone key t e = ground arith

  cancel-quiet : (key : ℕ) (ts : List (Task K)) → listening ts ≡ [] → listening (cancel key ts) ≡ []
  cancel-quiet key ts quiet =
      listening-cancel key ts ∙ ap (λ l. filter (λ (t : Task K). not (t.key == key)) l) quiet

  -- One task listens: the tracked one, and it serves the current protocol.
  pub record Listens (key : ℕ) (protocol : Text) (ts : List (Task K)) : Type 0 where
    pub task : Task K
    pub alone : listening ts ≡ task ∷ []
    pub tracked : task.key ≡ key
    pub config : Option K
    pub serves : task.service ≡ service_of protocol config

  abbrev pub Tracks : Option ℕ → Text → List (Task K) → Type 0
  Tracks none protocol ts = listening ts ≡ []
  Tracks (some key) protocol ts = (listening ts ≡ []) ⊎ Listens key protocol ts

  -- No task listens without being tracked.
  abbrev pub IsTracked : TunnelManager K → Type 0
  IsTracked m = Tracks m.cancel_token m.current_protocol m.spawned

  stopped :
      (token : Option ℕ) (protocol : Text) (ts : List (Task K))
      → Tracks token protocol ts
      → listening (cancelled token ts) ≡ []
  stopped none protocol ts h = h
  stopped (some key) protocol ts (inl quiet) = cancel-quiet key ts quiet
  stopped (some key) protocol ts (inr h) =
      listening-cancel key ts
      ∙ ap (λ l. filter (λ (t : Task K). not (t.key == key)) l) h.alone
      ∙ dropped key h.task h.tracked

  -- A task that ends leaves at most the tracked one.
  ended-Tracks :
      (key : ℕ) (token : Option ℕ) (protocol : Text) (ts : List (Task K))
      → Tracks token protocol ts
      → Tracks token protocol (cancel key ts)
  ended-Tracks key none protocol ts quiet = cancel-quiet key ts quiet
  ended-Tracks key (some k) protocol ts (inl quiet) = inl (cancel-quiet key ts quiet)
  ended-Tracks key (some k) protocol ts (inr h) =
      let left : listening (cancel key ts)
          ≡ filter (λ (t : Task K). not (t.key == key)) (h.task ∷ []) =
        listening-cancel key ts ∙ ap (λ l. filter (λ (t : Task K). not (t.key == key)) l) h.alone in
      elim (Bool-cases (h.task.key == key)) [
        | inl hit ↦ inl (left ∙ dropped key h.task ((==_iff h.task.key key).0 hit))
        | inr other ↦ inr (record {
          task = h.task;
          alone = left ∙ kept_alone key h.task other;
          tracked = h.tracked;
          config = h.config;
          serves = h.serves;
        })
      ]

  abbrev fresh_task : Text → Option K → TunnelManager K → Task K
  fresh_task protocol config m = record {
    key = length m.spawned;
    port = m.bind_port;
    service = service_of protocol config;
    is_over = false;
  }

  spawn_alone :
      (protocol : Text) (config : Option K) (m : TunnelManager K)
      → listening m.spawned ≡ []
      → listening (spawn protocol config m).spawned ≡ fresh_task protocol config m ∷ []
  spawn_alone protocol config m quiet = ap (λ l. fresh_task protocol config m ∷ l) quiet

  spawn-IsTracked :
      (protocol : Text) (config : Option K) (m : TunnelManager K)
      → listening m.spawned ≡ []
      → IsTracked (spawn protocol config m)
  spawn-IsTracked protocol config m quiet = inr (record {
    task = fresh_task protocol config m;
    alone = spawn_alone protocol config m quiet;
    tracked = refl;
    config = config;
    serves = refl;
  })

-- What the node asks of the manager, and what happens to its tasks.
pub data Request (K : Type 0) : Type 0 where
  to_start : Text → Option K → Request K
  to_stop : Request K
  to_update_port : Bool → ℕ → Request K
  to_switch : Text → Request K
  -- No request: the task with the key ends by itself.
  task_ended : ℕ → Request K

module _ {K : Type 0} where
  unfoldable pub serve : Request K → TunnelManager K → TunnelManager K
  serve (to_start protocol config) m = start protocol config m
  serve to_stop m = stop m
  serve (to_update_port is_free port) m = update_port is_free port m
  serve (to_switch protocol) m = switch_protocol protocol m
  serve (task_ended key) m = ended key m

  unfoldable pub serve_all : List (Request K) → TunnelManager K → TunnelManager K
  serve_all [] m = m
  serve_all (r ∷ rs) m = serve_all rs (serve r m)

  serve-IsTracked : (r : Request K) (m : TunnelManager K) → IsTracked m → IsTracked (serve r m)
  unfolding serve start stop update_port switch_protocol ended
  serve-IsTracked (to_start protocol config) m h =
      spawn-IsTracked protocol config (stop m)
        (stopped m.cancel_token m.current_protocol m.spawned h)
  serve-IsTracked to_stop m h = stopped m.cancel_token m.current_protocol m.spawned h
  serve-IsTracked (to_update_port true port) m h = h
  serve-IsTracked (to_update_port false port) m h = h
  serve-IsTracked (task_ended key) m h =
      ended-Tracks key m.cancel_token m.current_protocol m.spawned h
  serve-IsTracked (to_switch protocol) m h =
      elim (Bool-cases (text_eq m.current_protocol protocol)) [
        | inl same ↦ rw same h
        | inr other ↦ rw other (
            spawn-IsTracked protocol none (stop (stop m))
              (stopped m.cancel_token m.current_protocol m.spawned h))
      ]

  all_served :
      (rs : List (Request K)) (m : TunnelManager K) → IsTracked m → IsTracked (serve_all rs m)
  unfolding serve_all
  all_served [] m h = h
  all_served (r ∷ rs) m h = all_served rs (serve r m) (serve-IsTracked r m h)

  -- After any requests to a new manager, with tasks ending by themselves in between and whether or
  -- not the port's lock was free: no task listens if none is tracked, else at most the tracked one,
  -- which serves the current protocol.
  pub served-IsTracked : (rs : List (Request K)) (port : ℕ) → IsTracked (serve_all rs (new port))
  unfolding new
  served-IsTracked rs port = all_served rs (new port) refl

  -- For a manager whose listening tasks are tracked, where the port's lock is free: a change of the
  -- port that comes with the current protocol leaves the listening tasks as they are, on the old port;
  -- with another protocol one task listens, on the new port, and as a KCP listener it has no
  -- configuration.
  pub switch_protocol_lem :
      (protocol : Text) (port : ℕ) (m : TunnelManager K)
      → IsTracked m
      → (text_eq m.current_protocol protocol ≡ true
          → listening (switch_protocol protocol (update_port true port m)).spawned
            ≡ listening m.spawned)
        × (text_eq m.current_protocol protocol ≡ false
            → (t : Task K) × (t.port ≡ port)
              × (t.service ≡ service_of protocol none)
              × (listening (switch_protocol protocol (update_port true port m)).spawned ≡ t ∷ []))
  unfolding switch_protocol update_port start stop
  switch_protocol_lem protocol port m h = (
    λ same. rw same refl,
    λ other.
        let ready : TunnelManager K = stop (stop (record m { bind_port = port })) in
        (
          fresh_task protocol none ready,
          refl,
          refl,
          rw other (
              spawn_alone protocol none ready
                (stopped m.cancel_token m.current_protocol m.spawned h)),
        ),
  )
