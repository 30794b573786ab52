-- ===== src/Metering/Flush.antt =====
-- `flush_buffer` of controller/src/traffic.rs: the entries of the buffer, one after the other, and
-- the nodes at the end.
use oxiproxy.Prelude.{
  ℕ, ltb, ◌==◌, ◌&&◌, Option, none, some, List, [], ◌∷◌, Text, text_eq, if◌then◌else◌, length,
}
use oxiproxy.Prelude.Int.{◌+ℤ◌, wrap_i64}
use oxiproxy.Prelude.Maps.{get, insert}
use oxiproxy.Prelude.Time.{DateTime}
use oxiproxy.Prelude.Float.{Float}
use oxiproxy.Store.{Client, Proxy, TrafficDaily}
use oxiproxy.Store.Rows.{find, update_row}
use oxiproxy.Store.Queries.{M, ◌>>=◌, return, query, write, logged}
use oxiproxy.Pending.{nat_eq}
use oxiproxy.Metering.{
  TrafficEvent, Key, Bytes, Buffer, add_bytes, entry, no_bytes, receive, client_meter, user_meter,
  node_meter, quiet, read_row, charge, charge_found,
}

module _ (fl : Float) where
  open fl use {F}

  -- A day's row is inserted, or the bytes added to the row of the proxy and the date. The sums are
  -- the database's.
  pub upsert_daily : TrafficDaily → List TrafficDaily → List TrafficDaily
  upsert_daily d [] = d ∷ []
  upsert_daily d (r ∷ rows) =
      if r.proxy_id == d.proxy_id && text_eq r.date d.date
      then record r {
        bytes_sent = r.bytes_sent +ℤ d.bytes_sent;
        bytes_received = r.bytes_received +ℤ d.bytes_received;
        updated_at = d.updated_at;
      }
        ∷ rows
      else r ∷ upsert_daily d rows

  abbrev charged_proxy : Proxy → Bytes → DateTime → Proxy → Proxy
  charged_proxy read b now row = record row {
    total_bytes_sent = wrap_i64 (read.total_bytes_sent +ℤ b.0);
    total_bytes_received = wrap_i64 (read.total_bytes_received +ℤ b.1);
    updated_at = now;
  }

  abbrev or_else : Option ℕ → Option (Client F) → Option ℕ
  or_else (some id) c = some id
  or_else none none = none
  or_else none (some c) = c.user_id

  abbrev client_id_of : Option (Client F) → Option ℕ
  client_id_of none = none
  client_id_of (some c) = some c.id

  abbrev with_node : Option ℕ → Bytes → List (ℕ × Bytes) → List (ℕ × Bytes)
  with_node none b nodes = nodes
  with_node (some n) b nodes =
      insert nat_eq n (add_bytes (entry (get nat_eq n nodes)) b.0 b.1) nodes

  abbrev charge_owner : Option ℕ → Bytes → DateTime → M F (Unit {0})
  charge_owner none b now = return tt
  charge_owner (some uid) b now = do
    user ← read_row fl (user_meter fl) uid
    charge_found fl (user_meter fl) user b now

  -- The steps for an entry whose proxy still exists.
  pub flush_proxy : Text → DateTime → ℕ → Bytes → Proxy → List (ℕ × Bytes) → M F (List (ℕ × Bytes))
  unfolding charge upsert_daily
  flush_proxy today now client_id b p nodes = do
    written ← logged (
        write λ db. record db {
          proxies = update_row (λ (x : Proxy). x.id) p.id (charged_proxy p b now) db.proxies;
        })
    client ← read_row fl (client_meter fl) client_id
    daily ← logged (
        write λ db. record db {
          traffic_daily =
              upsert_daily
                (record {
                  proxy_id = p.id;
                  client_id = client_id_of client;
                  bytes_sent = b.0;
                  bytes_received = b.1;
                  date = today;
                  created_at = now;
                  updated_at = now;
                })
                db.traffic_daily;
        })
    _ ← charge_found fl (client_meter fl) client b now
    _ ← charge_owner (or_else p.user_id client) b now
    return (with_node p.node_id b nodes)

  abbrev flush_found :
      Text → DateTime → ℕ → Bytes → Option Proxy → List (ℕ × Bytes) → M F (List (ℕ × Bytes))
  flush_found today now client_id b none nodes = return nodes
  flush_found today now client_id b (some p) nodes = flush_proxy today now client_id b p nodes

  unfoldable pub flush_entry :
      Text → DateTime → Key × Bytes → List (ℕ × Bytes) → M F (List (ℕ × Bytes))
  unfolding flush_proxy
  flush_entry today now (k, b) nodes = if no_bytes b then return nodes else (do
    p ← quiet fl (query (λ db. find (λ (x : Proxy). x.id) k.0 db.proxies))
    flush_found today now k.1 b p nodes)

  unfoldable pub flush_entries :
      Text → DateTime → List (Key × Bytes) → List (ℕ × Bytes) → M F (List (ℕ × Bytes))
  unfolding flush_entry
  flush_entries today now [] nodes = return nodes
  flush_entries today now (e ∷ es) nodes = do
    nodes' ← flush_entry today now e nodes
    flush_entries today now es nodes'

  pub flush_nodes : DateTime → List (ℕ × Bytes) → M F (Unit {0})
  unfolding charge
  flush_nodes now [] = return tt
  flush_nodes now ((n, b) ∷ nodes) = do
    node ← read_row fl (node_meter fl) n
    _ ← charge_found fl (node_meter fl) node b now
    flush_nodes now nodes

  -- The entries are drained in the order of the list: the map's order is not fixed.
  pub flush_buffer : Text → DateTime → Buffer → M F (Buffer)
  unfolding flush_entries flush_nodes
  flush_buffer today now buffer = do
    nodes ← flush_entries today now buffer []
    _ ← flush_nodes now nodes
    return []

  -- The background task's reaction to an event: a buffer of more than 1000 entries is flushed.
  pub on_event : Text → DateTime → TrafficEvent → Buffer → M F Buffer
  unfolding receive flush_buffer
  on_event today now e buffer =
      if ltb 1000 (length (receive e buffer))
      then flush_buffer today now (receive e buffer)
      else return (receive e buffer)
