-- ===== src/Sessions/Ordering.antt =====
-- Reconnects, late clean-ups and the recorded status.
use oxiproxy.Prelude.{
  ℕ, ◌≡◌, ◌≢◌, refl, sym, ap, ◌∙◌, inl, inr, Bool, true, false, some, List, [], ◌∷◌, arith, ◌==◌,
  ==_iff, Bool-cases, Option-cases, ok,
}
use oxiproxy.Prelude.Maps.{get, contains_key, insert, remove, get-insert, get-remove}
use oxiproxy.Prelude.Time.{DateTime}
use oxiproxy.Store.{Db}
use oxiproxy.Store.Rows.{find, update_row, find-update_row_other}
use oxiproxy.Store.Queries.{query, fails_now, past}
use oxiproxy.Pending.{nat_eq}
use oxiproxy.Sessions.{
  Stream, Streams, Table, holds_channel, persist_online_status, register, unregister, mark_client,
  mark_node, client_table, node_table,
}

-- What the operations rely on: the rows are a part of the database of their own, and `mark` keeps
-- the key and sets the status.
pub record IsTable {F : Type 0} (t : Table F) : Type 0 where
  pub rows_past : (db : Db F) → t.rows (past db) ≡ t.rows db
  pub rows-with_rows : (db : Db F) (rs : List t.Row) → t.rows (t.with_rows db rs) ≡ rs
  pub key-mark : (b : Bool) (now : DateTime) (r : t.Row) → t.key (t.mark b now r) ≡ t.key r
  pub online-mark : (b : Bool) (now : DateTime) (r : t.Row) → t.is_online (t.mark b now r) ≡ b

pub client-IsTable : {F : Type 0} → IsTable (client_table {F = F})
unfolding mark_client
client-IsTable = record {
  rows_past = λ db. refl;
  rows-with_rows = λ db rs. refl;
  key-mark = λ b now r. refl;
  online-mark = λ b now r. refl;
}

pub node-IsTable : {F : Type 0} → IsTable (node_table {F = F})
unfolding mark_node
node-IsTable = record {
  rows_past = λ db. refl;
  rows-with_rows = λ db rs. refl;
  key-mark = λ b now r. refl;
  online-mark = λ b now r. refl;
}

module _ {F : Type 0} (t : Table F) where
  -- A session that was replaced, or is gone, changes nothing when it ends.
  pub unregister_stale :
      (id tx : ℕ) (now : DateTime) (streams : Streams) (db : Db F)
      → holds_channel (get nat_eq id streams) tx ≡ false
      → unregister t id tx now (streams, db) ≡ (ok tt, (streams, db))
  unfolding unregister
  unregister_stale id tx now streams db h = rw h

  -- A client that reconnects on a new channel before its old session is cleaned up stays
  -- registered: the clean-up changes neither the streams nor the database, whatever queries fail.
  pub reconnect_survives :
      (id old new : ℕ) (t₁ t₂ t₃ : DateTime) (streams : Streams) (db : Db F)
      → old ≢ new
      → let s = (register t id new t₂ (register t id old t₁ (streams, db)).1).1 in
        (unregister t id old t₃ s ≡ (ok tt, s))
        × (get nat_eq id s.0 ≡ some (record { tx = new; pending = [] }))
  unfolding register
  reconnect_survives id old new t₁ t₂ t₃ streams db differ =
      let second : Stream = record { tx = new; pending = [] } in
      let before = insert nat_eq id (record { tx = old; pending = [] }) streams in
      let found : get nat_eq id (insert nat_eq id second before) ≡ some second =
        ground (arith, get-insert nat_eq ==_iff id id second before) in
      (
        unregister_stale id old t₃ (insert nat_eq id second before) _ (rw found (ground arith)),
        found,
      )

  module _ (laws : IsTable t) where
    -- The database says of every client in it whether the manager has a stream for it.
    pub record Agrees (streams : Streams) (db : Db F) : Type 0 where
      pub status :
          (id : ℕ) (r : t.Row)
          → find t.key id (t.rows db) ≡ some r
          → t.is_online r ≡ contains_key nat_eq id streams

    pub persist_done :
        (id : ℕ) (online : Bool) (now : DateTime) (db : Db F)
        → (persist_online_status t id online now db).0 ≡ ok tt
        → t.rows (persist_online_status t id online now db).1
          ≡ update_row t.key id (t.mark online now) (t.rows db)
    unfolding persist_online_status query
    persist_done id online now db e = elim (Bool-cases (fails_now db)) [
      | inl fails ↦ absurd (ground arith)
      | inr works ↦ elim (Option-cases (find t.key id (t.rows db))) [
        | inl missing ↦ absurd (cc (rw missing at (rw works at e)))
        | inr (r, found) ↦
            rw (works, found)
              (laws.rows-with_rows _ _ ∙ ap (update_row t.key id _) (laws.rows_past db))
      ]
    ]

    pub marked_status :
        (id : ℕ) (online : Bool) (now : DateTime) (rows : List t.Row) (r : t.Row)
        → find t.key id (update_row t.key id (t.mark online now) rows) ≡ some r
        → t.is_online r ≡ online
    marked_status id online now [] r e = absurd (cc)
    marked_status id online now (x ∷ rows) r e = elim (Bool-cases (t.key x == id)) [
      | inl same ↦
          let hit : some (t.mark online now x) ≡ some r =
            rw (same, laws.key-mark online now x, same) at e in
          let eq : t.mark online now x ≡ r = cc in rw (← eq) (laws.online-mark online now x)
      | inr other ↦ marked_status id online now rows r (rw (other, other) at e)
    ]

    -- Writing a status and recording the same fact in the stream map keeps the two in agreement.
    written-Agrees :
        (id : ℕ) (online : Bool) (now : DateTime) (streams streams' : Streams) (db : Db F)
        → (persist_online_status t id online now db).0 ≡ ok tt
        → contains_key nat_eq id streams' ≡ online
        → ((j : ℕ) → (j == id) ≡ false → get nat_eq j streams' ≡ get nat_eq j streams)
        → Agrees streams db
        → Agrees streams' (persist_online_status t id online now db).1
    written-Agrees id online now streams streams' db done here elsewhere a = record {
      status = λ j r e.
          let e' = rw (persist_done id online now db done) at e in
          elim (Bool-cases (j == id)) [
            | inl same ↦
                let eq : j ≡ id = (==_iff j id).0 same in
                rw eq (marked_status id online now (t.rows db) r (rw eq at e') ∙ sym here)
            | inr other ↦
                let kept =
                  find-update_row_other t.key (t.mark online now) (laws.key-mark online now) id j
                    (t.rows db) other in
                rw (elsewhere j other, contains_key) (a.status j r (sym kept ∙ e'))
          ];
    }

    -- If the recorded status of every row agrees with the streams and the write of the status
    -- succeeds, they agree after a session is registered.
    pub register-Agrees :
        (id tx : ℕ) (now : DateTime) (streams : Streams) (db : Db F)
        → Agrees streams db
        → (register t id tx now (streams, db)).0 ≡ ok tt
        → let s = (register t id tx now (streams, db)).1 in Agrees s.0 s.1
    unfolding register
    register-Agrees id tx now streams db a done =
        let s : Stream = record { tx = tx; pending = [] } in
        written-Agrees id true now streams (insert nat_eq id s streams) db done
          (ground (arith, get-insert nat_eq ==_iff id id s streams))
          (λ j other. ground (arith, get-insert nat_eq ==_iff id j s streams)) a

    -- If the recorded status of every row agrees with the streams and the end of a session reports
    -- no error, they agree after it, whether the session was the current one or not.
    pub unregister-Agrees :
        (id tx : ℕ) (now : DateTime) (streams : Streams) (db : Db F)
        → Agrees streams db
        → (unregister t id tx now (streams, db)).0 ≡ ok tt
        → let s = (unregister t id tx now (streams, db)).1 in Agrees s.0 s.1
    unregister-Agrees id tx now streams db a done =
        elim (Bool-cases (holds_channel (get nat_eq id streams) tx)) [
          | inr stale ↦ rw (unregister_stale id tx now streams db stale) a
          | inl current ↦
              let run : unregister t id tx now (streams, db) ≡ (
                (persist_online_status t id false now db).0,
                (remove nat_eq id streams, (persist_online_status t id false now db).1),
              ) =
                unfold unregister in rw current in
              rw run (
                written-Agrees id false now streams (remove nat_eq id streams) db (rw run at done)
                  (ground (arith, get-remove nat_eq ==_iff id id streams))
                  (λ j other. ground (arith, get-remove nat_eq ==_iff id j streams)) a)
        ]
