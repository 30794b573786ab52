-- ===== src/Quota/Merging.antt =====
-- Merge and rollback on the user table, with and without database errors.
use oxiproxy.Prelude.{
  ℕ, ◌≡◌, refl, ap, ◌∙◌, inl, inr, false, ◌==◌, Option, none, some, [], arith, Bool-cases, ok, err,
}
use oxiproxy.Quota.Counts.{rollback-merge_count}
use oxiproxy.Prelude.Int.{ℤ, pos, ◌+ℤ◌, IsI32}
use oxiproxy.Prelude.Float.{Float}
use oxiproxy.Prelude.Time.{DateTime}
use oxiproxy.Store.{User, Db}
use oxiproxy.Store.Rows.{find, update_row, find-update_row_self, find-update_row_other}
use oxiproxy.Store.Queries.{Error, query, write, fails_now, past}
use oxiproxy.Quota.{
  Grant, or_zero, merge_count, rollback_count, merged, rolled_back, write_user,
  merge_subscription_quota_to_user, rollback_subscription_quota_from_user,
}

-- A limit that a rollback can restore after a merge of `g`: set, not negative, and no overflow.
abbrev pub Restorable : Option ℤ → Option ℤ → Type 0
Restorable limit none = Unit
Restorable limit (some n) = (c : ℕ) × (limit ≡ some (pos c)) × IsI32 (pos c) × IsI32 (pos c +ℤ n)

restore :
    (limit g : Option ℤ)
    → Restorable limit g
    → let m = merge_count limit limit g in rollback_count m m g ≡ limit
unfolding merge_count rollback_count
restore limit none h = refl
restore limit (some n) (c, e, hc, fits) = rw e (rollback-merge_count c n hc fits)

module _ (fl : Float) where
  open fl use {F}

  abbrev pub by_id : User F → ℕ
  by_id u = u.id

  write_user_error :
      (db : Db F) (id : ℕ) (change : User F → User F → User F) (o : Option (User F)) (e : Error)
      → (write_user fl id change o db).0 ≡ err e
      → (write_user fl id change o db).1.users ≡ db.users
  unfolding write
  write_user_error db id change none e h = refl
  write_user_error db id change (some u) e h = ground arith

  -- A merge or a rollback that fails changes no user.
  pub merge_error :
      (db : Db F) (id : ℕ) (g : Grant F) (now : DateTime) (e : Error)
      → (merge_subscription_quota_to_user fl id g now db).0 ≡ err e
      → (merge_subscription_quota_to_user fl id g now db).1.users ≡ db.users
  unfolding merge_subscription_quota_to_user query
  merge_error db id g now e h = elim (Bool-cases (fails_now db)) [
    | inl fails ↦ ground arith
    | inr works ↦
        rw works (write_user_error (past db) id _ (find by_id id db.users) e (rw works at h))
  ]

  pub rollback_error :
      (db : Db F) (id : ℕ) (g : Grant F) (now : DateTime) (e : Error)
      → (rollback_subscription_quota_from_user fl id g now db).0 ≡ err e
      → (rollback_subscription_quota_from_user fl id g now db).1.users ≡ db.users
  unfolding rollback_subscription_quota_from_user query
  rollback_error db id g now e h = elim (Bool-cases (fails_now db)) [
    | inl fails ↦ ground arith
    | inr works ↦
        rw works (write_user_error (past db) id _ (find by_id id db.users) e (rw works at h))
  ]

  -- The database after a change of one user's row, with two queries behind it.
  abbrev pub with_user : Db F → ℕ → (User F → User F) → Db F
  with_user db id change = record db {
    users = update_row by_id id change db.users;
    faults = (past (past db)).faults;
  }

  module _ (db : Db F) (id : ℕ) (g : Grant F) (now : DateTime) (u : User F)
      (reads : fails_now db ≡ false) (writes : fails_now (past db) ≡ false)
      (found : find by_id id db.users ≡ some u) where
    pub merge_run :
        merge_subscription_quota_to_user fl id g now db
        ≡ (ok tt, with_user db id (merged fl u g now))
    unfolding merge_subscription_quota_to_user query write
    merge_run = rw (reads, found) (rw writes)

    pub rollback_run :
        rollback_subscription_quota_from_user fl id g now db
        ≡ (ok tt, with_user db id (rolled_back fl u g now))
    unfolding rollback_subscription_quota_from_user query write
    rollback_run = rw (reads, found) (rw writes)

    -- With a working database, a merge gives the user the merged quota and leaves every other user
    -- as it was.
    pub merge_lem :
        ((merge_subscription_quota_to_user fl id g now db).0 ≡ ok tt)
        × (find by_id id (merge_subscription_quota_to_user fl id g now db).1.users
            ≡ some (merged fl u g now u))
        × ((j : ℕ)
            → (j == id) ≡ false
            → find by_id j (merge_subscription_quota_to_user fl id g now db).1.users
              ≡ find by_id j db.users)
    unfolding merged
    merge_lem = rw merge_run (
      refl,
      find-update_row_self by_id (merged fl u g now) (λ a. refl) id db.users u found,
      λ j other. find-update_row_other by_id (merged fl u g now) (λ a. refl) id j db.users other,
    )

  -- The traffic quota that adding an amount and taking it again leaves: the sum and the difference
  -- are those of the floating-point numbers, and the result is not below zero.
  abbrev pub quota_returned : Option F → F → F
  quota_returned none amount = fl.max (fl.sub (fl.add fl.zero amount) amount) fl.zero
  quota_returned (some quota) amount = fl.max (fl.sub (fl.add quota amount) amount) fl.zero

  returned :
      (quota : Option F) (amount : F)
      → fl.max (fl.sub (fl.add (or_zero fl quota) amount) amount) fl.zero
        ≡ quota_returned quota amount
  returned none amount = refl
  returned (some quota) amount = refl

  -- A user to whom a grant was given and from whom it was taken.
  abbrev pub given_and_taken : User F → F → DateTime → User F
  given_and_taken u amount later = record u {
    traffic_quota_gb = some (quota_returned u.traffic_quota_gb amount);
    updated_at = later;
  }

  -- If no query fails, a grant that is merged into a user and rolled back leaves the user's row as
  -- it was, the limits on ports, nodes and clients included, but for the time of the update and the
  -- traffic quota, if each limit that the grant touches is set, is not negative and does not
  -- overflow. The traffic quota is what adding the grant's traffic to it, or to zero if it was not
  -- set, and subtracting it again leaves, and zero at least, so that it is set afterwards. Every
  -- other user is found as before.
  pub rollback-merge :
      (db : Db F) (id : ℕ) (g : Grant F) (now later : DateTime) (u : User F)
      → db.faults ≡ []
      → find by_id id db.users ≡ some u
      → Restorable u.max_port_count g.ports
      → Restorable u.max_node_count g.nodes
      → Restorable u.max_client_count g.clients
      → let after =
          (rollback_subscription_quota_from_user fl id g later
            (merge_subscription_quota_to_user fl id g now db).1).1 in
        (find by_id id after.users ≡ some (given_and_taken u g.traffic later))
        × ((j : ℕ) → (j == id) ≡ false → find by_id j after.users ≡ find by_id j db.users)
  rollback-merge db id g now later u h found hp hn hc =
      let m = merged fl u g now u in
      let db' = with_user db id (merged fl u g now) in
      let found' : find by_id id db'.users ≡ some m =
        find-update_row_self by_id (merged fl u g now) (unfold merged in λ a. refl) id db.users u
          found in
      let after = merge_run db id g now u (rw h) (rw h) found in
      let after' = rollback_run db' id g later m (rw h) (rw h) found' in
      rw (after, after')
        (
          find-update_row_self by_id (rolled_back fl m g later) (unfold rolled_back in λ a. refl) id
                db'.users m found'
              ∙ ap some (
                  unfold merged rolled_back in
                  rw
                    (
                      restore _ _ hp,
                      restore _ _ hn,
                      restore _ _ hc,
                      returned u.traffic_quota_gb g.traffic,
                    )
                    refl),
          λ j other.
              find-update_row_other by_id (rolled_back fl m g later)
                (unfold rolled_back in λ a. refl) id j db'.users other
              ∙ find-update_row_other by_id (merged fl u g now) (unfold merged in λ a. refl) id j
                  db.users other,
        )
