-- ===== src/Quota/Tests.antt =====
-- Merges, rollbacks and an expiry on a small database: the witnesses of the theorems.
use oxiproxy.Prelude.{◌≡◌, refl, ℕ, ◌==◌, true, false, some, [], ◌∷◌, ok, err, arith}
use oxiproxy.Prelude.Int.{pos, ◌+ℤ◌}
use oxiproxy.Store.{User, Db}
use oxiproxy.Store.Rows.{find}
use oxiproxy.Store.Queries.{db_error, query, write}
use oxiproxy.Quota.{
  merge_subscription_quota_to_user, rollback_subscription_quota_from_user, snapshot, deactivate,
  expire_one,
}
use oxiproxy.Quota.Merging.{by_id, given_and_taken, Restorable, rollback-merge}
use oxiproxy.Quota.Expiry.{quota_taken, expire_one_twice}
use oxiproxy.Store.Looking.{still}
use oxiproxy.Samples.{whole, alice, month_plan, db_with, small_db, day_at}

ports-Restorable : Restorable (some (pos 2)) (some (pos 1))
unfolding ◌+ℤ◌
ports-Restorable = (2, refl, omega arith, omega arith)

restored_example :
    let after =
      (rollback_subscription_quota_from_user whole 1
        (snapshot whole month_plan)
        (day_at 3 0)
        (merge_subscription_quota_to_user whole 1
          (snapshot whole month_plan)
          (day_at 2 0)
          small_db).1).1 in
    (find (by_id whole) 1 after.users
      ≡ some (given_and_taken whole alice (snapshot whole month_plan).traffic (day_at 3 0)))
    × ((j : ℕ)
        → (j == 1) ≡ false
        → find (by_id whole) j after.users ≡ find (by_id whole) j small_db.users)
restored_example =
    rollback-merge whole small_db 1 (snapshot whole month_plan) (day_at 2 0) (day_at 3 0) alice refl
      refl ports-Restorable tt tt

abbrev half_db : Db ℕ
half_db = db_with (false ∷ false ∷ true ∷ [])

half_rolled :
    (rollback_subscription_quota_from_user whole 1
      (snapshot whole month_plan)
      (day_at 3 0)
      half_db).0
    ≡ ok tt
unfolding rollback_subscription_quota_from_user query write
half_rolled = refl

half_unreported : (expire_one whole (day_at 3 0) month_plan half_db).0 ≡ ok false
unfolding expire_one rollback_subscription_quota_from_user deactivate query write
half_unreported = refl

taken_twice_example :
    let mid = (expire_one whole (day_at 3 0) month_plan half_db).1 in
    let again = expire_one whole (day_at 4 0) month_plan (still mid) in
    (mid.user_subscriptions ≡ month_plan ∷ [])
    × (again.0 ≡ ok true)
    × ((v : User ℕ) × (find (by_id whole) 1 again.1.users ≡ some v)
        × (v.traffic_quota_gb
            ≡ some (
                quota_taken whole
                  (some (quota_taken whole alice.traffic_quota_gb month_plan.traffic_quota_gb))
                  month_plan.traffic_quota_gb)))
taken_twice_example =
    expire_one_twice whole (day_at 3 0) (day_at 4 0) month_plan half_db refl alice refl half_rolled
      half_unreported

month_plan_expired : (expire_one whole (day_at 3 0) month_plan small_db).0 ≡ ok true
unfolding expire_one rollback_subscription_quota_from_user deactivate query write
month_plan_expired = refl

abbrev broken_db : Db ℕ
broken_db = db_with (true ∷ [])

rollback_fails :
    (rollback_subscription_quota_from_user whole 1
      (snapshot whole month_plan)
      (day_at 3 0)
      broken_db).0
    ≡ err db_error
unfolding rollback_subscription_quota_from_user query
rollback_fails = refl
