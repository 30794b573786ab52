-- ===== src/Quota.antt =====
-- controller/src/subscription_quota.rs: a subscription's quota is merged into the user's own
-- fields, rolled back when it ends, and expired by a periodic task.
-- `now` is the time of the call.
pub mod Counts
pub mod Merging
pub mod Expiry
mod Tests
use oxiproxy.Prelude.{
  ℕ, Bool, true, false, ◌&&◌, Option, none, some, List, [], ◌∷◌, ◌==◌, if◌then◌else◌, filter,
  Result, ok, err,
}
use oxiproxy.Prelude.Int.{ℤ, pos, ◌+ℤ◌, ◌-ℤ◌, wrap_i32, max_zero}
use oxiproxy.Prelude.Time.{DateTime, time_lt}
use oxiproxy.Prelude.Float.{Float}
use oxiproxy.Store.{User, Subscription, UserSubscription, Db}
use oxiproxy.Store.Rows.{find, update_row}
use oxiproxy.Store.Queries.{M, user_missing, ◌>>=◌, return, fail, query, write, logged}

abbrev pub count_or_zero : Option ℤ → ℤ
count_or_zero none = pos 0
count_or_zero (some n) = n

-- The new value of a limit, from the value read and the value stored: no column is set without a
-- count in the subscription.
pub merge_count : Option ℤ → Option ℤ → Option ℤ → Option ℤ
merge_count read stored none = stored
merge_count read stored (some n) = some (wrap_i32 (count_or_zero read +ℤ n))

pub rollback_count : Option ℤ → Option ℤ → Option ℤ → Option ℤ
rollback_count read stored none = stored
rollback_count read stored (some n) = some (max_zero (wrap_i32 (count_or_zero read -ℤ n)))

-- The columns that a subscription adds to.
pub record Grant (F : Type 0) : Type 0 where
  pub traffic : F
  pub ports : Option ℤ
  pub nodes : Option ℤ
  pub clients : Option ℤ

-- Totals for display.
pub record Totals (F : Type 0) : Type 0 where
  pub traffic : F
  pub ports : Option ℤ
  pub nodes : Option ℤ
  pub clients : Option ℤ

abbrev add_count : Option ℤ → Option ℤ → Option ℤ
add_count total none = total
add_count total (some n) = some (wrap_i32 (count_or_zero total +ℤ n))

module _ (fl : Float) where
  open fl use {F}

  abbrev pub or_zero : Option F → F
  or_zero none = fl.zero
  or_zero (some q) = q

  unfoldable pub merged : User F → Grant F → DateTime → User F → User F
  unfolding merge_count
  merged read g now row = record row {
    traffic_quota_gb = some (fl.add (or_zero read.traffic_quota_gb) g.traffic);
    max_port_count = merge_count read.max_port_count row.max_port_count g.ports;
    max_node_count = merge_count read.max_node_count row.max_node_count g.nodes;
    max_client_count = merge_count read.max_client_count row.max_client_count g.clients;
    updated_at = now;
  }

  unfoldable pub rolled_back : User F → Grant F → DateTime → User F → User F
  unfolding rollback_count
  rolled_back read g now row = record row {
    traffic_quota_gb = some (fl.max (fl.sub (or_zero read.traffic_quota_gb) g.traffic) fl.zero);
    max_port_count = rollback_count read.max_port_count row.max_port_count g.ports;
    max_node_count = rollback_count read.max_node_count row.max_node_count g.nodes;
    max_client_count = rollback_count read.max_client_count row.max_client_count g.clients;
    updated_at = now;
  }

  -- Read a user, then write the row: the shape that merge and rollback share.
  abbrev write_user : ℕ → (User F → User F → User F) → Option (User F) → M F (Unit {0})
  write_user user_id change none = fail user_missing
  write_user user_id change (some read) =
      write
        λ db. record db { users = update_row (λ (u : User F). u.id) user_id (change read) db.users }

  pub merge_subscription_quota_to_user : ℕ → Grant F → DateTime → M F (Unit {0})
  unfolding merged
  merge_subscription_quota_to_user user_id g now = do
    user ← query (λ db. find (λ (u : User F). u.id) user_id db.users)
    write_user user_id (λ read. merged read g now) user

  pub rollback_subscription_quota_from_user : ℕ → Grant F → DateTime → M F (Unit {0})
  unfolding rolled_back
  rollback_subscription_quota_from_user user_id g now = do
    user ← query (λ db. find (λ (u : User F). u.id) user_id db.users)
    write_user user_id (λ read. rolled_back read g now) user

  -- The quota that a user's subscription row carries.
  abbrev pub snapshot : UserSubscription F → Grant F
  snapshot s = record {
    traffic = s.traffic_quota_gb;
    ports = s.max_port_count_snapshot;
    nodes = s.max_node_count_snapshot;
    clients = s.max_client_count_snapshot;
  }

  abbrev pub deactivated : DateTime → UserSubscription F → UserSubscription F
  deactivated now s = record s { is_active = false; updated_at = now }

  pub deactivate : DateTime → UserSubscription F → M F (Unit {0})
  deactivate now sub = write λ db. record db {
    user_subscriptions =
        update_row (λ (s : UserSubscription F). s.id) sub.id (deactivated now)
          db.user_subscriptions;
  }

  abbrev pub is_due : DateTime → UserSubscription F → Bool
  is_due now s = s.is_active && time_lt s.end_date now

  -- One round of the loop: was the subscription expired.
  pub expire_one : DateTime → UserSubscription F → M F Bool
  expire_one now sub = do
    rolled ←
        if sub.quota_merged
        then logged (rollback_subscription_quota_from_user sub.user_id (snapshot sub) now)
        else return true
    if rolled then logged (deactivate now sub) else return false

  pub expire_each : DateTime → List (UserSubscription F) → M F (List (ℕ × ℕ))
  unfolding expire_one
  expire_each now [] = return []
  expire_each now (sub ∷ subs) = do
    done ← expire_one now sub
    rest ← expire_each now subs
    return (if done then (sub.id, sub.user_id) ∷ rest else rest)

  pub expire_subscriptions : DateTime → M F (List (ℕ × ℕ))
  unfolding expire_each
  expire_subscriptions now = do
    subs ← query (λ db. filter (is_due now) db.user_subscriptions)
    expire_each now subs

  -- The sums over a user's active subscriptions; the counts come from the subscription's plan.
  pub add_totals : List (Subscription F) → List (UserSubscription F) → Totals F → Totals F
  add_totals plans [] t = t
  add_totals plans (s ∷ subs) t =
      add_totals plans subs (add_plan (find (λ (p : Subscription F). p.id) s.subscription_id plans))
    where
      with_traffic : Totals F
      with_traffic = record t { traffic = fl.add t.traffic s.traffic_quota_gb }

      add_plan : Option (Subscription F) → Totals F
      add_plan none = with_traffic
      add_plan (some p) = record with_traffic {
        ports = add_count t.ports p.max_port_count;
        nodes = add_count t.nodes p.max_node_count;
        clients = add_count t.clients p.max_client_count;
      }

  pub get_user_subscription_quota : ℕ → M F (Totals F)
  unfolding add_totals
  get_user_subscription_quota user_id = query λ db.
      add_totals db.subscriptions
        (filter (λ (s : UserSubscription F). s.user_id == user_id && s.is_active)
          db.user_subscriptions)
        (record { traffic = fl.zero; ports = none; nodes = none; clients = none })
