-- ===== src/Sessions/Syncing.antt =====
-- The periodic write-back of the online status.
use oxiproxy.Prelude.{
  ℕ, ◌≡◌, refl, sym, ap, ◌∙◌, inl, inr, Bool, false, none, some, List, [], ◌∷◌, arith, ◌==◌, ==_iff,
  Bool-cases, Result, Result-cases, ok,
}
use oxiproxy.Prelude.Maps.{get}
use oxiproxy.Prelude.Time.{DateTime}
use oxiproxy.Store.{Db}
use oxiproxy.Store.Rows.{find, find-update_row_other}
use oxiproxy.Store.Queries.{query, fails_now, past, run_then, Error}
use oxiproxy.Pending.{nat_eq}
use oxiproxy.Sessions.{
  Streams, Table, is_live, persist_online_status, sync_each, sync_online_status,
}
use oxiproxy.Sessions.Ordering.{IsTable, persist_done, marked_status}

module _ {F : Type 0} (t : Table F) (laws : IsTable t) (closed : ℕ → Bool) (streams : Streams) where
  abbrev pub live : ℕ → Bool
  live id = is_live closed (get nat_eq id streams)

  -- The row with the key, if there is one, says whether its stream is live.
  abbrev pub IsSynced : ℕ → Db F → Type 0
  IsSynced id db = (r : t.Row) → find t.key id (t.rows db) ≡ some r → t.is_online r ≡ live id

  persist-IsSynced :
      (id j : ℕ) (now : DateTime) (db : Db F)
      → (persist_online_status t id (live id) now db).0 ≡ ok tt
      → ((id == j) ≡ false → IsSynced j db)
      → IsSynced j (persist_online_status t id (live id) now db).1
  persist-IsSynced id j now db done before r e =
      let e' = rw (persist_done t laws id (live id) now db done) at e in
      elim (Bool-cases (id == j)) [
        | inl same ↦
            let eq : j ≡ id = sym ((==_iff id j).0 same) in
            rw eq (marked_status t laws id (live id) now (t.rows db) r (rw eq at e'))
        | inr other ↦
            let apart : (j == id) ≡ false = ground arith in
            let kept =
              find-update_row_other t.key (t.mark (live id) now) (laws.key-mark (live id) now) id j
                (t.rows db) apart in
            before other r (sym kept ∙ e')
      ]

  sync_each-IsSynced :
      (now : DateTime) (rs : List t.Row) (j : ℕ) (db : Db F)
      → (sync_each t closed streams now rs db).0 ≡ ok tt
      → (find t.key j rs ≡ none → IsSynced j db)
      → IsSynced j (sync_each t closed streams now rs db).1
  unfolding sync_each
  sync_each-IsSynced now [] j db done h = h refl
  sync_each-IsSynced now (r ∷ rs) j db done h = elim (Result-cases first.0) [
    | inr (x, failed) ↦ absurd (cc (rw (failed, run_then) at done))
    | inl (u, passed) ↦
        rw (passed, run_then)
          (sync_each-IsSynced now rs j first.1 (rw (passed, run_then) at done)
            (λ missing. persist-IsSynced (t.key r) j now db passed (λ other. h (rw other missing))))
  ]
    where
      first : Result Error (Unit {0}) × Db F
      first = persist_online_status t (t.key r) (live (t.key r)) now db

  -- If a write-back reports no error, every row of the table says afterwards whether its stream is
  -- live, whatever it said before.
  pub sync_online_status_lem :
      (now : DateTime) (j : ℕ) (db : Db F) (r : t.Row)
      → (sync_online_status t closed streams now db).0 ≡ ok tt
      → find t.key j (t.rows (sync_online_status t closed streams now db).1) ≡ some r
      → t.is_online r ≡ live j
  unfolding sync_online_status query
  sync_online_status_lem now j db r done listed = elim (Bool-cases (fails_now db)) [
    | inl fails ↦ absurd (cc (rw fails at done))
    | inr works ↦
        sync_each-IsSynced now (t.rows db) j (past db) (rw works at done)
          (λ missing x e. absurd (cc (ap (find t.key j) (laws.rows_past db)))) r
          (rw works at listed)
  ]
