-- ===== src/Traffic/Tests.antt =====
-- Resets and quota checks at work: the witnesses of the theorems.
use oxiproxy.Prelude.{◌≡◌, refl, ℕ, true, some, [], ◌∷◌, ok}
use oxiproxy.Prelude.Int.{pos, wrap_i64, ◌+ℤ◌}
use oxiproxy.Store.{Db}
use oxiproxy.Store.Queries.{query}
use oxiproxy.Traffic.{
  cycle_due, exceeded, granted, should_reset_traffic, check_user_traffic_limit,
  check_user_quota_allocation, gb_to_bytes, bytes_to_gb, allocated, restarted,
}
use oxiproxy.Traffic.Resets.{HasUser}
use oxiproxy.Traffic.Quotas.{IsOverQuota, check_user_traffic_limit_sound}
use oxiproxy.Samples.{whole, alice, small_db, day_at}

due_on_second : cycle_due "daily" (some (day_at 1 0)) (day_at 2 0) ≡ true
unfolding cycle_due
due_on_second = refl

alice_due : should_reset_traffic whole alice (day_at 2 0) ≡ true
unfolding should_reset_traffic
alice_due = refl

alice_listed : HasUser whole 1 alice small_db
alice_listed = record { works = refl; listed = refl }

-- Twelve bytes are used of ten, on the day of the last reset.
alice_over : (check_user_traffic_limit whole 1 (day_at 1 5) small_db).0 ≡ ok (exceeded (pos 12) 10)
unfolding check_user_traffic_limit should_reset_traffic query gb_to_bytes wrap_i64 ◌+ℤ◌
alice_over = refl

over_example : IsOverQuota whole 1 (day_at 1 5) (pos 12) 10 small_db
over_example = check_user_traffic_limit_sound whole 1 (day_at 1 5) (pos 12) 10 small_db alice_over

abbrev fresh_db : Db ℕ
fresh_db = record small_db { users = restarted whole (day_at 2 0) alice ∷ [] }

fresh_granted : (check_user_quota_allocation whole 1 6 fresh_db).0 ≡ ok granted
unfolding check_user_quota_allocation query bytes_to_gb allocated wrap_i64 ◌+ℤ◌
fresh_granted = refl
