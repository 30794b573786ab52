-- ===== src/Metering.antt =====
-- controller/src/traffic.rs: traffic events are summed in a buffer, which a flush writes to the
-- rows of the proxy, the day, the client, the owner and the node. A flush drops every error of the
-- database after logging it. `today` and `now` are the date and the time of the flush.
pub mod Buffer
pub mod Meters
pub mod Charges
pub mod Flush
mod Tests
use oxiproxy.Prelude.{
  ℕ, Bool, true, false, not, ◌&&◌, Option, none, some, List, [], ◌∷◌, Text, text_eq, ltb, ◌==◌,
  opt_eq, if◌then◌else◌, length, Result, ok, err,
}
use oxiproxy.Prelude.Int.{ℤ, pos, negsuc, ◌+ℤ◌, wrap_i64}
use oxiproxy.Prelude.Maps.{get, insert}
use oxiproxy.Prelude.Time.{DateTime}
use oxiproxy.Prelude.Float.{Float}
use oxiproxy.Store.{User, Client, Node, Proxy, TrafficDaily, Db}
use oxiproxy.Store.Rows.{find, update_row}
use oxiproxy.Store.Queries.{M, Error, ◌>>=◌, return, query, write, logged}
use oxiproxy.Pending.{nat_eq}
use oxiproxy.Traffic.{
  reaches, should_reset_traffic, should_reset_client_traffic, should_reset_node_traffic,
}

pub record TrafficEvent : Type 0 where
  pub proxy_id : ℕ
  pub client_id : ℕ
  pub user_id : Option ℕ
  pub bytes_sent : ℤ
  pub bytes_received : ℤ

abbrev pub Key : Type 0
Key = ℕ × ℕ × Option ℕ

-- Bytes sent and received.
abbrev pub Bytes : Type 0
Bytes = ℤ × ℤ

abbrev pub Buffer : Type 0
Buffer = List (Key × Bytes)

abbrev pub key_eq : Key → Key → Bool
key_eq a b = a.0 == b.0 && a.1 == b.1 && opt_eq a.2 b.2

abbrev pub key_of : TrafficEvent → Key
key_of e = (e.proxy_id, e.client_id, e.user_id)

abbrev pub add_bytes : Bytes → ℤ → ℤ → Bytes
add_bytes b sent received = (wrap_i64 (b.0 +ℤ sent), wrap_i64 (b.1 +ℤ received))

-- `*m.entry(k).or_insert((0, 0))`
abbrev pub entry : Option Bytes → Bytes
entry none = (pos 0, pos 0)
entry (some b) = b

-- The receiver's step on an event, before the buffer's length is looked at.
pub receive : TrafficEvent → Buffer → Buffer
receive e buffer =
    insert key_eq (key_of e)
      (add_bytes (entry (get key_eq (key_of e) buffer)) e.bytes_sent e.bytes_received) buffer

abbrev pub is_zero : ℤ → Bool
is_zero (pos n) = n == 0
is_zero (negsuc n) = false

abbrev pub no_bytes : Bytes → Bool
no_bytes b = is_zero b.0 && is_zero b.1

-- The event that is sent, if any.
pub record_traffic : ℕ → ℕ → Option ℕ → ℤ → ℤ → Option TrafficEvent
record_traffic proxy_id client_id user_id sent received =
    if no_bytes (sent, received)
    then none
    else some (record {
      proxy_id = proxy_id;
      client_id = client_id;
      user_id = user_id;
      bytes_sent = sent;
      bytes_received = received;
    })

-- What the flush does alike for clients, users and nodes: the table, the fields that it reads, and
-- the changes of a row. `count` sets the two totals and `updated_at`, `restart` clears the flag
-- and sets `last_reset_at`, `exceed` sets the flag and `updated_at`.
pub record Meter (F : Type 0) : Type 1 where
  pub Row : Type 0
  pub key : Row → ℕ
  pub rows : Db F → List Row
  pub with_rows : Db F → List Row → Db F
  pub total : Row → Bytes
  pub quota : Row → Option F
  pub is_exceeded : Row → Bool
  pub due : Row → DateTime → Bool
  pub count : Bytes → DateTime → Row → Row
  pub restart : DateTime → Row → Row
  pub exceed : DateTime → Row → Row

module _ (fl : Float) where
  open fl use {F}

  abbrev pub client_meter : Meter F
  client_meter = record {
    Row = Client F;
    key = λ c. c.id;
    rows = λ db. db.clients;
    with_rows = λ db cs. record db { clients = cs };
    total = λ c. (c.total_bytes_sent, c.total_bytes_received);
    quota = λ c. c.traffic_quota_gb;
    is_exceeded = λ c. c.is_traffic_exceeded;
    due = should_reset_client_traffic fl;
    count = λ b now c. record c {
      total_bytes_sent = b.0;
      total_bytes_received = b.1;
      updated_at = now;
    };
    restart = λ now c. record c { is_traffic_exceeded = false; last_reset_at = some now };
    exceed = λ now c. record c { is_traffic_exceeded = true; updated_at = now };
  }

  abbrev pub user_meter : Meter F
  user_meter = record {
    Row = User F;
    key = λ u. u.id;
    rows = λ db. db.users;
    with_rows = λ db us. record db { users = us };
    total = λ u. (u.total_bytes_sent, u.total_bytes_received);
    quota = λ u. u.traffic_quota_gb;
    is_exceeded = λ u. u.is_traffic_exceeded;
    due = should_reset_traffic fl;
    count = λ b now u. record u {
      total_bytes_sent = b.0;
      total_bytes_received = b.1;
      updated_at = now;
    };
    restart = λ now u. record u { is_traffic_exceeded = false; last_reset_at = some now };
    exceed = λ now u. record u { is_traffic_exceeded = true; updated_at = now };
  }

  abbrev pub node_meter : Meter F
  node_meter = record {
    Row = Node F;
    key = λ n. n.id;
    rows = λ db. db.nodes;
    with_rows = λ db ns. record db { nodes = ns };
    total = λ n. (n.total_bytes_sent, n.total_bytes_received);
    quota = λ n. n.traffic_quota_gb;
    is_exceeded = λ n. n.is_traffic_exceeded;
    due = should_reset_node_traffic fl;
    count = λ b now n. record n {
      total_bytes_sent = b.0;
      total_bytes_received = b.1;
      updated_at = now;
    };
    restart = λ now n. record n { is_traffic_exceeded = false; last_reset_at = some now };
    exceed = λ now n. record n { is_traffic_exceeded = true; updated_at = now };
  }

  abbrev flatten : {A : Type 0} → Result Error (Option A) × Db F → Result Error (Option A) × Db F
  flatten (ok o, db) = (ok o, db)
  flatten (err e, db) = (ok none, db)

  -- `.one(db).await.ok().flatten()` and `if let Ok(Some(row)) = ...`: an error reads as no row.
  abbrev pub quiet : {A : Type 0} → M F (Option A) → M F (Option A)
  quiet m db = flatten (m db)

  module _ (m : Meter F) where
    open m use {Row}

    abbrev pub read_row : ℕ → M F (Option Row)
    read_row id = quiet (query (λ db. find m.key id (m.rows db)))

    abbrev pub change_row : ℕ → (Row → Row) → M F (Unit {0})
    change_row id f = write (λ db. m.with_rows db (update_row m.key id f (m.rows db)))

    -- The totals after the bytes, and the row with them.
    abbrev pub new_total : Row → Bytes → DateTime → Bytes
    new_total read b now = if m.due read now then b else add_bytes (m.total read) b.0 b.1

    abbrev pub charged : Row → Bytes → DateTime → Row → Row
    charged read b now row =
        m.count (new_total read b now) now (if m.due read now then m.restart now row else row)

    abbrev mark_found : ℕ → DateTime → Option Row → M F (Unit {0})
    mark_found id now none = return tt
    mark_found id now (some row) = do written ← logged (change_row id (m.exceed now)); return tt

    pub mark_exceeded : ℕ → DateTime → M F (Unit {0})
    mark_exceeded id now = do again ← read_row id; mark_found id now again

    -- Is the quota of the row that was read newly reached.
    abbrev pub newly_exceeded : Row → Bytes → Bool
    newly_exceeded read total = elim (m.quota read) [
      | none ↦ false
      | some quota_gb ↦
          reaches fl (wrap_i64 (total.0 +ℤ total.1)) quota_gb && not (m.is_exceeded read)
    ]

    -- One row is charged: its totals are written, and the flag if its quota is reached.
    pub charge : Row → Bytes → DateTime → M F (Unit {0})
    unfolding mark_exceeded
    charge read b now = do
      written ← logged (change_row (m.key read) (charged read b now))
      if written && newly_exceeded read (new_total read b now)
          then mark_exceeded (m.key read) now
          else return tt

    abbrev pub charge_found : Option Row → Bytes → DateTime → M F (Unit {0})
    charge_found none b now = return tt
    charge_found (some row) b now = charge row b now
