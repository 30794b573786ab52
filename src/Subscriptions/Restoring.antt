-- ===== src/Subscriptions/Restoring.antt =====
-- A subscription that an administrator creates and deletes again.
use oxiproxy.Prelude.{
  ℕ, ◌≡◌, refl, ap, ◌∙◌, inl, inr, true, Option, none, some, List, [], ◌∷◌, ◌++◌, ◌==◌, ==_refl,
  false, Bool-cases, String,
}
use oxiproxy.Prelude.Int.{ℤ}
use oxiproxy.Prelude.Time.{DateTime}
use oxiproxy.Prelude.Float.{Float}
use oxiproxy.Store.{User, Subscription, UserSubscription, Db}
use oxiproxy.Store.Rows.{find, find-update_row_self, delete_row}
use oxiproxy.Store.Queries.{query, write}
use oxiproxy.Quota.{
  snapshot, merged, merge_subscription_quota_to_user, rollback_subscription_quota_from_user,
}
use oxiproxy.Quota.Merging.{
  by_id, with_user, merge_run, rollback_run, given_and_taken, Restorable, rollback-merge,
}
use oxiproxy.Quota.Expiry.{by_sub}
use oxiproxy.Handlers.{AuthUser}
use oxiproxy.Subscriptions.{
  success, CreateRequest, new_row, create_checked, create_for_plan, insert_row,
  create_user_subscription, delete_found, delete_user_subscription,
}

module _ {ℓ} {A : Type ℓ} (key : A → ℕ) (k : ℕ) (a : A) (same : key a ≡ k) where
  find-append_fresh :
      (rows : List A) → find key k rows ≡ none → find key k (rows ++ a ∷ []) ≡ some a
  find-append_fresh [] h = rw (same, ==_refl k)
  find-append_fresh (b ∷ rows) h = elim (Bool-cases (key b == k)) [
    | inl here ↦ absurd (cc (rw here at h))
    | inr other ↦ rw other (find-append_fresh rows (rw other at h))
  ]

  delete_row-append_fresh :
      (rows : List A) → find key k rows ≡ none → delete_row key k (rows ++ a ∷ []) ≡ rows
  delete_row-append_fresh [] h = rw (same, ==_refl k)
  delete_row-append_fresh (b ∷ rows) h = elim (Bool-cases (key b == k)) [
    | inl here ↦ absurd (cc (rw here at h))
    | inr other ↦ rw other (ap (λ r. b ∷ r) (delete_row-append_fresh rows (rw other at h)))
  ]

module _ (fl : Float) (parse_date : String → Option DateTime)
    (add_days : DateTime → ℤ → DateTime) where
  open fl use {F}

  -- The database with no query failing.
  abbrev pub working : Db F → Db F
  working db = record db { faults = [] }

  abbrev pub with_row : Db F → UserSubscription F → Db F
  with_row db row = record (working db) { user_subscriptions = db.user_subscriptions ++ row ∷ [] }

  module _ (admin : AuthUser) (is_admin : admin.is_admin ≡ true) (db : Db F) (key : ℕ)
      (req : CreateRequest) (now : DateTime) (u : User F) (plan : Subscription F)
      (found : find (by_id fl) req.user_id db.users ≡ some u)
      (listed : find (λ (p : Subscription F). p.id) req.subscription_id db.subscriptions
        ≡ some plan) where
    abbrev pub row : UserSubscription F
    row = new_row fl parse_date add_days key req plan now

    insert_run : insert_row fl parse_date add_days row now (working db) ≡ (
      success 201 row,
      with_user fl (with_row db row) req.user_id (merged fl u (snapshot fl row) now),
    )
    unfolding insert_row write new_row
    insert_run =
        rw (merge_run fl (with_row db row) req.user_id (snapshot fl row) now u refl refl found)

    checked_run :
        create_checked fl parse_date add_days key req now (working db)
        ≡ insert_row fl parse_date add_days row now (working db)
    unfolding create_checked create_for_plan query
    checked_run = rw (found, listed)

    pub create_run :
        create_user_subscription fl parse_date add_days (some admin) key req now (working db) ≡ (
          success 201 row,
          with_user fl (with_row db row) req.user_id (merged fl u (snapshot fl row) now),
        )
    unfolding create_user_subscription
    create_run = rw is_admin (checked_run ∙ insert_run)

    abbrev pub created : Db F
    created = with_user fl (with_row db row) req.user_id (merged fl u (snapshot fl row) now)

    found_merged :
        find (by_id fl) req.user_id created.users ≡ some (merged fl u (snapshot fl row) now u)
    found_merged =
        find-update_row_self (by_id fl) (merged fl u (snapshot fl row) now)
          (unfold merged in λ a. refl) req.user_id db.users u found

    delete_found_run :
        find (by_sub fl) key db.user_subscriptions ≡ none
        → (later : DateTime)
        → delete_found fl key later row created ≡ (
          success 200 tt,
          record (rollback_subscription_quota_from_user fl req.user_id
              (snapshot fl row)
              later
              created).1 { user_subscriptions = db.user_subscriptions },
        )
    unfolding delete_found write new_row
    delete_found_run fresh later =
        let m = merged fl u (snapshot fl row) now u in
        rw (
          rollback_run fl created req.user_id (snapshot fl row) later m refl refl found_merged,
          delete_row-append_fresh (by_sub fl) key row refl db.user_subscriptions fresh,
        )

    delete_run :
        find (by_sub fl) key db.user_subscriptions ≡ none
        → (later : DateTime)
        → delete_user_subscription fl (some admin) key later created
          ≡ delete_found fl key later row created
    unfolding delete_user_subscription query new_row
    delete_run fresh later =
        rw (is_admin, find-append_fresh (by_sub fl) key row refl db.user_subscriptions fresh)

    -- If no query fails, a subscription that an administrator creates for a user and later deletes
    -- leaves the subscriptions as they were and the user's row as it was, the limits on ports, nodes
    -- and clients included, but for the time of the update and the traffic quota, if its key is new
    -- and each limit that the plan touches is set, is not negative and does not overflow. The
    -- traffic quota is what adding the plan's traffic to it, or to zero if it was not set, and
    -- subtracting it again leaves, and zero at least. Every other user is found as before.
    pub create-delete_restores :
        (later : DateTime)
        → find (by_sub fl) key db.user_subscriptions ≡ none
        → Restorable u.max_port_count plan.max_port_count
        → Restorable u.max_node_count plan.max_node_count
        → Restorable u.max_client_count plan.max_client_count
        → let first =
            create_user_subscription fl parse_date add_days (some admin) key req now (working db) in
          let second = delete_user_subscription fl (some admin) key later first.1 in
          (first.0 ≡ success 201 row)
          × (second.0 ≡ success 200 tt)
          × (second.1.user_subscriptions ≡ db.user_subscriptions)
          × (find (by_id fl) req.user_id second.1.users
              ≡ some (given_and_taken fl u plan.traffic_quota_gb later))
          × ((j : ℕ)
              → (j == req.user_id) ≡ false
              → find (by_id fl) j second.1.users ≡ find (by_id fl) j db.users)
    create-delete_restores later fresh ports nodes clients =
        rw (create_run, delete_run fresh later, delete_found_run fresh later)
          (refl, refl, refl, back.0, back.1)
      where
        after : List (User F)
        after =
            (rollback_subscription_quota_from_user fl req.user_id (snapshot fl row) later
              created).1.users

        whole_trip :
            let rows =
              (rollback_subscription_quota_from_user fl req.user_id
                (snapshot fl row)
                later
                (merge_subscription_quota_to_user fl req.user_id
                  (snapshot fl row)
                  now
                  (with_row db row)).1).1.users in
            (find (by_id fl) req.user_id rows
              ≡ some (given_and_taken fl u plan.traffic_quota_gb later))
            × ((j : ℕ)
                → (j == req.user_id) ≡ false
                → find (by_id fl) j rows ≡ find (by_id fl) j db.users)
        whole_trip =
            unfold new_row in
            rollback-merge fl (with_row db row) req.user_id (snapshot fl row) now later u refl found
              ports nodes clients

        back :
            (find (by_id fl) req.user_id after
              ≡ some (given_and_taken fl u plan.traffic_quota_gb later))
            × ((j : ℕ)
                → (j == req.user_id) ≡ false
                → find (by_id fl) j after ≡ find (by_id fl) j db.users)
        back =
            rw (merge_run fl (with_row db row) req.user_id (snapshot fl row) now u refl refl found)
              at whole_trip
