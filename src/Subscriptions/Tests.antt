-- ===== src/Subscriptions/Tests.antt =====
-- Requests with and without a login: the witnesses.
use oxiproxy.Prelude.{◌≡◌, refl, ℕ, ◌==◌, true, false, Option, none, some, [], ◌∷◌, String, arith}
use oxiproxy.Prelude.Int.{ℤ, pos, ◌+ℤ◌}
use oxiproxy.Prelude.Time.{DateTime}
use oxiproxy.Store.{Subscription, UserSubscription, Db}
use oxiproxy.Store.Rows.{find}
use oxiproxy.Quota.Merging.{by_id, given_and_taken, Restorable}
use oxiproxy.Handlers.{AuthUser}
use oxiproxy.Subscriptions.{
  CreateRequest, UpdateRequest, success, new_row, create_user_subscription,
  delete_user_subscription,
}
use oxiproxy.Subscriptions.Restoring.{working, create-delete_restores}
use oxiproxy.Samples.{whole, alice, month_plan, small_db, day_at}

abbrev no_dates : String → Option DateTime
no_dates s = none

abbrev same_day : DateTime → ℤ → DateTime
same_day d n = d

abbrev creation : CreateRequest
creation = record { user_id = 1; subscription_id = 4; start_date = none }

abbrev closing : UpdateRequest whole
closing = record { is_active = some false; traffic_used_gb = none }

abbrev admin : AuthUser
admin = record { id = 2; username = "root"; is_admin = true }

-- A plan with one port more.
abbrev one_port : Subscription ℕ
one_port = record {
  id = 4;
  name = "one port";
  duration_type = "monthly";
  duration_value = pos 1;
  traffic_quota_gb = 3;
  max_port_count = some (pos 1);
  max_node_count = none;
  max_client_count = none;
  price = none;
  description = none;
  is_active = true;
  created_at = day_at 1 0;
  updated_at = day_at 1 0;
}

abbrev shop : Db ℕ
shop = record small_db { subscriptions = one_port ∷ [] }

one_more : Restorable (some (pos 2)) (some (pos 1))
unfolding ◌+ℤ◌
one_more = (2, refl, omega arith, omega arith)

abbrev new_one : UserSubscription ℕ
new_one = new_row whole no_dates same_day 9 creation one_port (day_at 2 0)

restores_example :
    let first =
      create_user_subscription whole no_dates same_day
        (some admin)
        9
        creation
        (day_at 2 0)
        (working whole no_dates same_day shop) in
    let second = delete_user_subscription whole (some admin) 9 (day_at 3 0) first.1 in
    (first.0 ≡ success 201 new_one)
    × (second.0 ≡ success 200 tt)
    × (second.1.user_subscriptions ≡ month_plan ∷ [])
    × (find (by_id whole) 1 second.1.users
        ≡ some (given_and_taken whole alice one_port.traffic_quota_gb (day_at 3 0)))
    × ((j : ℕ)
        → (j == 1) ≡ false
        → find (by_id whole) j second.1.users ≡ find (by_id whole) j shop.users)
restores_example =
    create-delete_restores whole no_dates same_day admin refl shop 9 creation (day_at 2 0) alice
      one_port refl refl (day_at 3 0) refl one_more tt tt
