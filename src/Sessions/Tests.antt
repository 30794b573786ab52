-- ===== src/Sessions/Tests.antt =====
-- A client that reconnects: the witnesses of the theorems.
use oxiproxy.Prelude.{◌≡◌, refl, ℕ, Bool, true, false, some, [], ◌∷◌, ok, arith}
use oxiproxy.Prelude.Maps.{get}
use oxiproxy.Store.{Client}
use oxiproxy.Store.Rows.{find}
use oxiproxy.Store.Queries.{query}
use oxiproxy.Pending.{nat_eq}
use oxiproxy.Sessions.{
  Streams, client_table, register, unregister, persist_online_status, sync_each, sync_online_status,
  mark_client,
}
use oxiproxy.Sessions.Ordering.{client-IsTable, Agrees, reconnect_survives}
use oxiproxy.Sessions.Syncing.{sync_online_status_lem}
use oxiproxy.Samples.{laptop, small_db, day_at}

reconnect_example :
    let s =
      (register client_table 5 2
        (day_at 1 8)
        (register client_table 5 1 (day_at 1 7) ([], small_db)).1).1 in
    (unregister client_table 5 1 (day_at 1 9) s ≡ (ok tt, s))
    × (get nat_eq 5 s.0 ≡ some (record { tx = 2; pending = [] }))
reconnect_example =
    reconnect_survives client_table 5 1 2 (day_at 1 7) (day_at 1 8) (day_at 1 9) [] small_db
      (λ e. omega arith)

offline : Agrees client_table client-IsTable [] small_db
offline = record { status = λ id r e. ground arith }

registered : (register client_table 5 1 (day_at 1 7) ([], small_db)).0 ≡ ok tt
unfolding register persist_online_status query
registered = refl

ended :
    let s = (register client_table 5 1 (day_at 1 7) ([], small_db)).1 in
    (unregister client_table 5 1 (day_at 1 9) (s.0, s.1)).0 ≡ ok tt
unfolding register unregister persist_online_status query mark_client
ended = refl

abbrev all_open : ℕ → Bool
all_open c = false

-- The laptop has a stream, and its row says that it is offline.
abbrev connected : Streams
connected = (5, record { tx = 1; pending = [] }) ∷ []

written_back : (sync_online_status client_table all_open connected (day_at 2 0) small_db).0 ≡ ok tt
unfolding sync_online_status sync_each persist_online_status query
written_back = refl

abbrev shown : Client ℕ
shown = mark_client true (day_at 2 0) laptop

shown_listed :
    find
      (λ (c : Client ℕ). c.id)
      5
      (sync_online_status client_table all_open connected (day_at 2 0) small_db).1.clients
    ≡ some shown
unfolding sync_online_status sync_each persist_online_status query mark_client
shown_listed = refl

sync_example : shown.is_online ≡ true
sync_example =
    sync_online_status_lem client_table client-IsTable all_open connected (day_at 2 0) 5 small_db
      shown written_back shown_listed
