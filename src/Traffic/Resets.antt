-- ===== src/Traffic/Resets.antt =====
-- When a counter is reset, and what a check does then.
use oxiproxy.Prelude.{
  ℕ, ◌≡◌, refl, ◌∙◌, inl, inr, true, false, ◌&&◌, ◌||◌, Option, none, some, [], arith, String,
  str_eq, ltb, ◌==◌, Bool-cases, ok,
}
use oxiproxy.Prelude.Int.{pos, ◌+ℤ◌, wrap_i64}
use oxiproxy.Prelude.Time.{DateTime, date_lt}
use oxiproxy.Prelude.Float.{Float}
use oxiproxy.Store.{User, Db}
use oxiproxy.Store.Rows.{find, update_row, find-update_row_self}
use oxiproxy.Store.Queries.{query, write, fails_now, past}
use oxiproxy.Traffic.{
  cycle_due, within, restarted, should_reset_traffic, reset_user_traffic, check_user_found,
  check_user_traffic_limit, usage_of,
}

due_daily :
    (last now later : DateTime)
    → date_lt later now ≡ false
    → date_lt last now ≡ true
    → date_lt last later ≡ true
due_daily last now later order h = ground arith

due_monthly :
    (last now later : DateTime)
    → date_lt later now ≡ false
    → (ltb last.year now.year || (now.year == last.year && ltb last.month now.month)) ≡ true
    → (ltb last.year later.year || (later.year == last.year && ltb last.month later.month)) ≡ true
due_monthly last now later order h = ground arith

-- A reset that is due at one time is due at every time on that date or a later one.
pub cycle_due_later :
    (cycle : String) (last : Option DateTime) (now later : DateTime)
    → date_lt later now ≡ false
    → cycle_due cycle last now ≡ true
    → cycle_due cycle last later ≡ true
unfolding cycle_due
cycle_due_later cycle none now later order h = refl
cycle_due_later cycle (some last) now later order h = elim (Bool-cases (str_eq cycle "daily")) [
  | inl daily ↦ rw daily (due_daily last now later order (rw daily at h))
  | inr other ↦ elim (Bool-cases (str_eq cycle "monthly")) [
    | inl monthly ↦
        rw (other, monthly) (due_monthly last now later order (rw (other, monthly) at h))
    | inr never ↦ absurd (cc (rw (other, never) at h))
  ]
]

-- Once a reset is written, none is due for the rest of the day, whatever the cycle is.
pub reset_not_repeated :
    (cycle : String) (last later : DateTime)
    → date_lt last later ≡ false
    → date_lt later last ≡ false
    → cycle_due cycle (some last) later ≡ false
unfolding cycle_due
reset_not_repeated cycle last later order back = elim (Bool-cases (str_eq cycle "daily")) [
  | inl daily ↦ rw (daily, order)
  | inr other ↦ elim (Bool-cases (str_eq cycle "monthly")) [
    | inl monthly ↦ rw (other, monthly) (ground arith)
    | inr never ↦ rw (other, never)
  ]
]

module _ (fl : Float) where
  open fl use {F}

  -- A database in which the user's row is `u`, and whose queries succeed.
  pub record HasUser (user_id : ℕ) (u : User F) (db : Db F) : Type 0 where
    pub works : db.faults ≡ []
    pub listed : find (λ (x : User F). x.id) user_id db.users ≡ some u

  past-HasUser :
      (user_id : ℕ) (u : User F) (db : Db F) → HasUser user_id u db → HasUser user_id u (past db)
  past-HasUser user_id u db h = record { works = rw h.works; listed = h.listed }

  check_run :
      (user_id : ℕ) (u : User F) (now : DateTime) (db : Db F)
      → HasUser user_id u db
      → check_user_traffic_limit fl user_id now db
        ≡ check_user_found fl user_id now (some u) (past db)
  unfolding check_user_traffic_limit query
  check_run user_id u now db h =
      let works : fails_now db ≡ false = rw h.works in rw (works, h.listed)

  reset_run :
      (user_id : ℕ) (u : User F) (now : DateTime) (db : Db F)
      → HasUser user_id u db
      → (after : Db F) × (reset_user_traffic fl user_id now db ≡ (ok tt, after))
        × HasUser user_id (restarted fl now u) after
  unfolding reset_user_traffic query write
  reset_run user_id u now db h =
      let rows = update_row (λ (x : User F). x.id) user_id (restarted fl now) db.users in
      let works : fails_now db ≡ false = rw h.works in
      let works' : fails_now (past db) ≡ false = rw h.works in
      (
        record (past (past db)) { users = rows },
        rw (works, h.listed, works'),
        record {
          works = rw h.works;
          listed =
              find-update_row_self (λ (x : User F). x.id) (restarted fl now) (λ x. refl) user_id
                db.users u h.listed;
        },
      )

  -- If no query fails, the first check of a user whose reset is due writes the reset and finds
  -- the user within the quota, and a second check on the same day writes nothing and judges the
  -- fresh counters.
  pub check_resets_once :
      (user_id : ℕ) (u : User F) (now later : DateTime) (db : Db F)
      → HasUser user_id u db
      → should_reset_traffic fl u now ≡ true
      → date_lt now later ≡ false
      → date_lt later now ≡ false
      → (after : Db F) × (check_user_traffic_limit fl user_id now db ≡ (ok within, after))
        × HasUser user_id (restarted fl now u) after
        × (check_user_traffic_limit fl user_id later after
            ≡ (ok (usage_of fl (wrap_i64 (pos 0 +ℤ pos 0)) u.traffic_quota_gb), past after))
  check_resets_once user_id u now later db h due order back =
      let (after, run, left) = reset_run user_id u now (past db) (past-HasUser user_id u db h) in
      let calm : should_reset_traffic fl (restarted fl now u) later ≡ false =
        unfold should_reset_traffic in
        reset_not_repeated u.traffic_reset_cycle now later order back in
      (
        after,
        check_run user_id u now db h ∙ rw due (rw run),
        left,
        check_run user_id (restarted fl now u) later after left ∙ rw calm,
      )
