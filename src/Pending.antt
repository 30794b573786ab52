-- ===== src/Pending.antt =====
-- common/src/grpc/pending_requests.rs: requests that wait for their response on a gRPC stream.
-- Times are milliseconds. The request's key (a fresh UUID) and the channel of its waiter are chosen
-- outside; `listens` says of a channel whether its waiter still has the receiving end.
pub mod Lifetime
mod Tests
use oxiproxy.Prelude.{
  ℕ, ◌-◌, Bool, true, false, Option, none, some, List, [], ◌∷◌, ltb, ◌==◌, if◌then◌else◌, filter,
}
use oxiproxy.Prelude.Maps.{get, insert, remove}

pub record PendingEntry : Type 0 where
  pub sender : ℕ
  pub created_at : ℕ

abbrev pub Pending : Type 0
Pending = List (ℕ × PendingEntry)

abbrev pub nat_eq : ℕ → ℕ → Bool
nat_eq a b = a == b

abbrev pub stale_request_timeout : ℕ
stale_request_timeout = 60_000

pub register : ℕ → ℕ → ℕ → Pending → Pending
register request_id sender now pending =
    insert nat_eq request_id (record { sender = sender; created_at = now }) pending

-- The state, whether the response was taken, and the channel that it went to.
pub complete : (ℕ → Bool) → ℕ → Pending → Pending × Bool × Option ℕ
complete listens request_id pending = elim (get nat_eq request_id pending) [
  | none ↦ (pending, false, none)
  | some entry ↦ (
    remove nat_eq request_id pending,
    listens entry.sender,
    if listens entry.sender then some entry.sender else none,
  )
]

-- One round of the background task.
pub cleanup : ℕ → Pending → Pending
cleanup now pending = filter (λ e. ltb (now - e.1.created_at) stale_request_timeout) pending
