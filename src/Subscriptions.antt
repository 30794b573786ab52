-- ===== src/Subscriptions.antt =====
-- controller/src/api/handlers/user_subscription.rs: how an administrator creates, changes and
-- deletes a user's subscription. A reply is its status code, and a value on success; the message
-- texts are left out. The key of a new row, the parser of the start date and the calendar
-- arithmetic (chrono) are parameters.
pub mod Access
pub mod Restoring
mod Tests
use oxiproxy.Prelude.{
  ℕ, Bool, true, false, not, ◌&&◌, ◌||◌, Option, none, some, List, [], ◌∷◌, ◌++◌, String, str_eq,
  ◌==◌, if◌then◌else◌, Result, ok, err,
}
use oxiproxy.Prelude.Int.{ℤ, pos, ◌*ℤ◌}
use oxiproxy.Prelude.Time.{DateTime}
use oxiproxy.Prelude.Float.{Float}
use oxiproxy.Store.{User, Subscription, UserSubscription, Db}
use oxiproxy.Store.Rows.{find, update_row, delete_row}
use oxiproxy.Store.Queries.{M, Error, query, write, logged}
use oxiproxy.Handlers.{AuthUser}
use oxiproxy.Quota.{
  Grant, snapshot, merge_subscription_quota_to_user, rollback_subscription_quota_from_user,
}

pub data Reply (A : Type 0) : Type 0 where
  success : ℕ → A → Reply A
  failure : ℕ → Reply A

pub record CreateRequest : Type 0 where
  pub user_id : ℕ
  pub subscription_id : ℕ
  pub start_date : Option String

-- A handler takes the database and gives a reply and the database after it.
abbrev pub Handler : Type 0 → Type 0 → Type 0
Handler F A = Db F → Reply A × Db F

abbrev pub reply : {F A : Type 0} → Reply A → Handler F A
reply r db = (r, db)

-- `match query { Ok(Some(a)) => found, Ok(None) => missing, Err(_) => broken }`
abbrev pub on_found :
    {F A B : Type 0}
    → (A → Handler F B)
    → Reply B
    → Reply B
    → Result Error (Option A) × Db F
    → Reply B × Db F
on_found found missing broken (ok (some a), db) = found a db
on_found found missing broken (ok none, db) = (missing, db)
on_found found missing broken (err e, db) = (broken, db)

-- The reply of a last write, and a step whose result is only logged.
abbrev pub on_written :
    {F A B : Type 0} → Reply B → Reply B → Result Error A × Db F → Reply B × Db F
on_written done broken (ok a, db) = (done, db)
on_written done broken (err e, db) = (broken, db)

-- Only an administrator gets past the first two checks.
abbrev pub as_admin : {F A : Type 0} → Option AuthUser → Handler F A → Handler F A
as_admin none h = reply (failure 401)
as_admin (some u) h = if u.is_admin then h else reply (failure 403)

module _ (fl : Float) where
  open fl use {F}

  module _ (parse_date : String → Option DateTime) (add_days : DateTime → ℤ → DateTime) where
    start_of : Option String → DateTime → DateTime
    start_of none now = now
    start_of (some text) now = elim (parse_date text) [ none ↦ now | some t ↦ t ]

    -- `Duration::weeks(n)` is seven days for each week.
    pub end_of : Subscription F → DateTime → DateTime
    end_of plan start = add_days start (
        if str_eq plan.duration_type "daily"
        then plan.duration_value
        else if str_eq plan.duration_type "weekly"
        then pos 7 *ℤ plan.duration_value
        else if str_eq plan.duration_type "monthly"
        then pos 30 *ℤ plan.duration_value
        else if str_eq plan.duration_type "yearly"
        then pos 365 *ℤ plan.duration_value
        else pos 30)

    pub new_row : ℕ → CreateRequest → Subscription F → DateTime → UserSubscription F
    unfolding start_of end_of
    new_row key req plan now = record {
      id = key;
      user_id = req.user_id;
      subscription_id = req.subscription_id;
      start_date = start_of req.start_date now;
      end_date = end_of plan (start_of req.start_date now);
      traffic_quota_gb = plan.traffic_quota_gb;
      traffic_used_gb = fl.zero;
      is_active = true;
      max_port_count_snapshot = plan.max_port_count;
      max_node_count_snapshot = plan.max_node_count;
      max_client_count_snapshot = plan.max_client_count;
      quota_merged = true;
      created_at = now;
      updated_at = now;
    }

    -- The merge comes after the insert, and its failure is only logged.
    abbrev after_insert :
        UserSubscription F
        → DateTime
        → Result Error (Unit {0}) × Db F
        → Reply (UserSubscription F) × Db F
    after_insert row now (err e, db) = (failure 500, db)
    after_insert row now (ok t, db) = (
      success 201 row,
      (logged (merge_subscription_quota_to_user fl row.user_id (snapshot fl row) now) db).1,
    )

    pub insert_row : UserSubscription F → DateTime → Handler F (UserSubscription F)
    insert_row row now db =
        after_insert row now
          (write (λ db. record db { user_subscriptions = db.user_subscriptions ++ row ∷ [] }) db)

    create_for_plan : ℕ → CreateRequest → DateTime → Subscription F → Handler F (UserSubscription F)
    unfolding insert_row
    create_for_plan key req now plan = insert_row (new_row key req plan now) now

    -- The user must be there; a failed lookup counts as a missing user.
    create_checked : ℕ → CreateRequest → DateTime → Handler F (UserSubscription F)
    unfolding create_for_plan
    create_checked key req now db =
        on_found
          (λ (u : User F) db'. on_found (create_for_plan key req now) (failure 400) (failure 500) (
            query (λ d. find (λ (p : Subscription F). p.id) req.subscription_id d.subscriptions)
              db'))
          (failure 400) (failure 400)
          (query (λ d. find (λ (u : User F). u.id) req.user_id d.users) db)

    pub create_user_subscription :
        Option AuthUser → ℕ → CreateRequest → DateTime → Handler F (UserSubscription F)
    unfolding create_checked
    create_user_subscription auth key req now = as_admin auth (create_checked key req now)

  pub record UpdateRequest : Type 0 where
    pub is_active : Option Bool
    pub traffic_used_gb : Option F

  -- What the request does to the user's quota: roll back, merge again, or nothing. The new value of
  -- `quota_merged` goes with it.
  abbrev pub quota_step : UserSubscription F → Option Bool → DateTime → Db F → Db F
  quota_step s none now db = db
  quota_step s (some true) now db =
      if s.is_active
      then db
      else (logged (merge_subscription_quota_to_user fl s.user_id (snapshot fl s) now) db).1
  quota_step s (some false) now db =
      if s.is_active && s.quota_merged
      then (logged (rollback_subscription_quota_from_user fl s.user_id (snapshot fl s) now) db).1
      else db

  abbrev merged_after : UserSubscription F → Option Bool → Bool
  merged_after s none = s.quota_merged
  merged_after s (some true) = if s.is_active then s.quota_merged else true
  merged_after s (some false) = s.quota_merged

  abbrev given_or : {A : Type 0} → Option A → A → A
  given_or none a = a
  given_or (some b) a = b

  pub updated : UserSubscription F → UpdateRequest → DateTime → UserSubscription F
  updated s req now = record s {
    is_active = given_or req.is_active s.is_active;
    traffic_used_gb = given_or req.traffic_used_gb s.traffic_used_gb;
    quota_merged = merged_after s req.is_active;
    updated_at = now;
  }

  pub update_found : UpdateRequest → DateTime → UserSubscription F → Handler F (UserSubscription F)
  unfolding updated
  update_found req now s db = on_written (success 200 (updated s req now)) (failure 500) (
      write
        (λ d. record d {
          user_subscriptions =
              update_row (λ (r : UserSubscription F). r.id) s.id (λ r. updated s req now)
                d.user_subscriptions;
        })
        (quota_step s req.is_active now db))

  pub update_user_subscription :
      Option AuthUser → ℕ → UpdateRequest → DateTime → Handler F (UserSubscription F)
  unfolding update_found
  update_user_subscription auth id req now = as_admin auth λ db.
      on_found (update_found req now) (failure 404) (failure 500)
        (query (λ d. find (λ (r : UserSubscription F). r.id) id d.user_subscriptions) db)

  pub delete_found : ℕ → DateTime → UserSubscription F → Handler F (Unit {0})
  delete_found id now s db = on_written (success 200 tt) (failure 500) (
      write
        (λ d. record d {
          user_subscriptions =
              delete_row (λ (r : UserSubscription F). r.id) id d.user_subscriptions;
        })
        (if s.is_active && s.quota_merged
          then (logged (rollback_subscription_quota_from_user fl s.user_id (snapshot fl s) now)
              db).1
          else db))

  pub delete_user_subscription : Option AuthUser → ℕ → DateTime → Handler F (Unit {0})
  unfolding delete_found
  delete_user_subscription auth id now = as_admin auth λ db.
      on_found (delete_found id now) (failure 404) (failure 500)
        (query (λ d. find (λ (r : UserSubscription F). r.id) id d.user_subscriptions) db)
