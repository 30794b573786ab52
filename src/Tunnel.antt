-- ===== src/Tunnel.antt =====
-- node/src/server/tunnel_manager.rs: the listener of a node's tunnel, started, stopped and switched to
-- another protocol. A spawned task listens until it is cancelled or ends by itself, on an error of its
-- server; `is_over` says that it does not listen any more. `K` is the KCP configuration. The wait for
-- the end of a task, up to five seconds, and the second before the new start are left out: they change
-- no state.
pub mod Listening
mod Tests
use oxiproxy.Prelude.{
  ℕ, Bool, true, false, not, Option, none, some, List, [], ◌∷◌, Text, codes, text_eq, ◌==◌, length,
  filter, if◌then◌else◌,
}

-- Which server the task runs.
pub data Service (K : Type 0) : Type 0 where
  kcp : Option K → Service K
  tcp quic : Service K

module _ (K : Type 0) where
  pub record Task : Type 0 where
    pub key : ℕ
    pub port : ℕ
    pub service : Service K
    pub is_over : Bool

  -- `cancel_token` and `listener_handle` are both of the task with the key.
  pub record TunnelManager : Type 0 where
    pub bind_port : ℕ
    pub current_protocol : Text
    pub cancel_token : Option ℕ
    pub listener_handle : Option ℕ
    pub spawned : List Task

module _ {K : Type 0} where
  abbrev pub service_of : Text → Option K → Service K
  service_of protocol config =
      if text_eq protocol (codes "kcp")
      then kcp config
      else (if text_eq protocol (codes "tcp") then tcp else quic)

  unfoldable pub new : ℕ → TunnelManager K
  new port = record {
    bind_port = port;
    current_protocol = [];
    cancel_token = none;
    listener_handle = none;
    spawned = [];
  }

  abbrev pub cancel : ℕ → List (Task K) → List (Task K)
  cancel key [] = []
  cancel key (t ∷ ts) = (if t.key == key then record t { is_over = true } else t) ∷ cancel key ts

  abbrev pub cancelled : Option ℕ → List (Task K) → List (Task K)
  cancelled none ts = ts
  cancelled (some key) ts = cancel key ts

  -- `take` leaves nothing in both fields.
  unfoldable pub stop : TunnelManager K → TunnelManager K
  stop m = record m {
    cancel_token = none;
    listener_handle = none;
    spawned = cancelled m.cancel_token m.spawned;
  }

  abbrev pub spawn : Text → Option K → TunnelManager K → TunnelManager K
  spawn protocol config m = record m {
    current_protocol = protocol;
    cancel_token = some (length m.spawned);
    listener_handle = some (length m.spawned);
    spawned =
        record {
          key = length m.spawned;
          port = m.bind_port;
          service = service_of protocol config;
          is_over = false;
        }
        ∷ m.spawned;
  }

  unfoldable pub start : Text → Option K → TunnelManager K → TunnelManager K
  unfolding stop
  start protocol config m = spawn protocol config (stop m)

  -- `is_free`: the lock of the port is not held by another task.
  unfoldable pub update_port : Bool → ℕ → TunnelManager K → TunnelManager K
  update_port is_free port m = if is_free then record m { bind_port = port } else m

  unfoldable pub switch_protocol : Text → TunnelManager K → TunnelManager K
  unfolding start stop
  switch_protocol protocol m =
      if text_eq m.current_protocol protocol then m else start protocol none (stop m)

  -- A task ends by itself: the manager is not told.
  unfoldable pub ended : ℕ → TunnelManager K → TunnelManager K
  ended key m = record m { spawned = cancel key m.spawned }

  -- The tasks that listen.
  abbrev pub listening : List (Task K) → List (Task K)
  listening ts = filter (λ (t : Task K). not t.is_over) ts
