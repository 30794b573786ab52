-- ===== src/Sessions.antt =====
-- The live gRPC sessions of clients (controller/src/client_stream_manager.rs) and of nodes
-- (controller/src/node_manager.rs), and the online status that they write to the database. Both
-- managers have the same shape, so the operations are generic in the table that they write.
-- A channel is a number (`same_channel` is equality); `closed` says which channels are closed.
pub mod Ordering
pub mod Syncing
mod Tests
use oxiproxy.Prelude.{
  ℕ, Bool, true, false, not, ◌&&◌, Option, none, some, List, [], ◌∷◌, ◌==◌, map, if◌then◌else◌,
  filter, Result, ok, err,
}
use oxiproxy.Prelude.Maps.{get, insert, remove}
use oxiproxy.Prelude.Time.{DateTime}
use oxiproxy.Store.{Client, Node, Db}
use oxiproxy.Store.Rows.{update_row, find}
use oxiproxy.Store.Queries.{M, Error, db_error, ◌>>=◌, ◌>>◌, return, query, write}
use oxiproxy.Pending.{Pending, nat_eq}

-- `ClientStream` and `NodeStream`.
pub record Stream : Type 0 where
  pub tx : ℕ
  pub pending : Pending

abbrev pub Streams : Type 0
Streams = List (ℕ × Stream)

-- A table with an online status: its rows, and the change that `persist_online_status` makes.
pub record Table (F : Type 0) : Type 1 where
  pub Row : Type 0
  pub key : Row → ℕ
  pub is_online : Row → Bool
  pub rows : Db F → List Row
  pub with_rows : Db F → List Row → Db F
  pub mark : Bool → DateTime → Row → Row
  pub show : Bool → Row → Row

-- `last_online_at` is set only when the row goes online.
abbrev online_at : Bool → DateTime → Option DateTime → Option DateTime
online_at true now last = some now
online_at false now last = last

-- Is there a stream that is not closed.
abbrev pub is_live : (ℕ → Bool) → Option Stream → Bool
is_live closed none = false
is_live closed (some s) = not (closed s.tx)

abbrev pub holds_channel : Option Stream → ℕ → Bool
holds_channel none tx = false
holds_channel (some s) tx = s.tx == tx

module _ {F : Type 0} where
  pub mark_client : Bool → DateTime → Client F → Client F
  mark_client online now c = record c {
    is_online = online;
    updated_at = now;
    last_online_at = online_at online now c.last_online_at;
  }

  pub mark_node : Bool → DateTime → Node F → Node F
  mark_node online now n = record n {
    is_online = online;
    updated_at = now;
    last_online_at = online_at online now n.last_online_at;
  }

  abbrev pub client_table : Table F
  client_table = record {
    Row = Client F;
    key = λ c. c.id;
    is_online = λ c. c.is_online;
    rows = λ db. db.clients;
    with_rows = λ db rows. record db { clients = rows };
    mark = mark_client;
    show = λ online c. record c { is_online = online };
  }

  abbrev pub node_table : Table F
  node_table = record {
    Row = Node F;
    key = λ n. n.id;
    is_online = λ n. n.is_online;
    rows = λ db. db.nodes;
    with_rows = λ db rows. record db { nodes = rows };
    mark = mark_node;
    show = λ online n. record n { is_online = online };
  }

  module _ (t : Table F) where
    open t use {Row, key, is_online, rows, with_rows, mark, show}

    -- The update of a row that is not there is an error (`RecordNotUpdated`).
    write_status : ℕ → Bool → DateTime → Option Row → M F (Unit {0})
    write_status id online now none db = (err db_error, db)
    write_status id online now (some r) db =
        (ok tt, with_rows db (update_row key id (mark online now) (rows db)))

    pub persist_online_status : ℕ → Bool → DateTime → M F (Unit {0})
    unfolding write_status
    persist_online_status id online now = do
      row ← query (λ db. find key id (rows db))
      write_status id online now row

    -- The stream is in place even if the write fails.
    pub register : ℕ → ℕ → DateTime → Streams × Db F → Result Error (Unit {0}) × (Streams × Db F)
    register id tx now (streams, db) =
        let (r, db') = persist_online_status id true now db in
        (r, (insert nat_eq id (record { tx = tx; pending = [] }) streams, db'))

    pub unregister : ℕ → ℕ → DateTime → Streams × Db F → Result Error (Unit {0}) × (Streams × Db F)
    unregister id tx now (streams, db) =
        if holds_channel (get nat_eq id streams) tx
        then (let (r, db') = persist_online_status id false now db in
            (r, (remove nat_eq id streams, db')))
        else (ok tt, (streams, db))

    -- The rows as an answer shows them.
    pub apply_online_status : (ℕ → Bool) → Streams → List Row → List Row
    apply_online_status closed streams all =
        map (λ r. show (is_live closed (get nat_eq (key r) streams)) r) all

    pub check_all : (ℕ → Bool) → Streams → List Row → List (ℕ × Bool)
    unfolding apply_online_status
    check_all closed streams all =
        map (λ r. (key r, is_online r)) (apply_online_status closed streams all)

    -- Periodic write-back: one write for each row read at the start; an error ends the loop.
    pub sync_each : (ℕ → Bool) → Streams → DateTime → List Row → M F (Unit {0})
    unfolding persist_online_status
    sync_each closed streams now [] = return tt
    sync_each closed streams now (r ∷ rs) = do
      persist_online_status (key r) (is_live closed (get nat_eq (key r) streams)) now
      sync_each closed streams now rs

    pub sync_online_status : (ℕ → Bool) → Streams → DateTime → M F (Unit {0})
    unfolding sync_each
    sync_online_status closed streams now = do all ← query rows; sync_each closed streams now all
