-- ===== src/Quota/Expiry.antt =====
-- The expiry of a subscription, under every pattern of database errors.
use oxiproxy.Prelude.{
  ℕ, ◌≡◌, refl, sym, ap, ◌∙◌, inl, inr, true, false, Option, none, some, [], arith, Bool-cases,
  Result, Result-cases, ok, err,
}
use oxiproxy.Prelude.Float.{Float}
use oxiproxy.Prelude.Time.{DateTime}
use oxiproxy.Store.{User, UserSubscription, Db}
use oxiproxy.Store.Rows.{find, update_row, find-update_row_self}
use oxiproxy.Store.Queries.{Error, query, write, fails_now, past, logged, logged_ok, logged_err}
use oxiproxy.Store.Looking.{still}
use oxiproxy.Quota.{
  Grant, rolled_back, write_user, or_zero, rollback_subscription_quota_from_user, snapshot,
  deactivated, deactivate, expire_one,
}
use oxiproxy.Quota.Merging.{by_id, with_user, rollback_run, rollback_error}

module _ (fl : Float) where
  open fl use {F}

  abbrev pub by_sub : UserSubscription F → ℕ
  by_sub s = s.id

  write_user_subs :
      (db : Db F) (id : ℕ) (change : User F → User F → User F) (o : Option (User F))
      → (write_user fl id change o db).1.user_subscriptions ≡ db.user_subscriptions
  unfolding write
  write_user_subs db id change none = refl
  write_user_subs db id change (some u) = ground arith

  rollback_subs :
      (db : Db F) (id : ℕ) (g : Grant F) (now : DateTime)
      → (rollback_subscription_quota_from_user fl id g now db).1.user_subscriptions
        ≡ db.user_subscriptions
  unfolding rollback_subscription_quota_from_user query
  rollback_subs db id g now = elim (Bool-cases (fails_now db)) [
    | inl fails ↦ ground arith
    | inr works ↦ rw works (write_user_subs (past db) id _ (find (by_id fl) id db.users))
  ]

  deactivate_done :
      (db : Db F) (now : DateTime) (sub : UserSubscription F)
      → (logged (deactivate fl now sub) db).0 ≡ ok true
      → (logged (deactivate fl now sub) db).1.user_subscriptions
        ≡ update_row by_sub sub.id (deactivated fl now) db.user_subscriptions
  unfolding deactivate write
  deactivate_done db now sub e = elim (Bool-cases (fails_now db)) [
    | inl fails ↦ absurd (ground arith)
    | inr works ↦ rw works
  ]

  -- What is left of a traffic quota from which an amount is taken; one that is not set counts as zero.
  abbrev pub quota_taken : Option F → F → F
  quota_taken none amount = fl.max (fl.sub fl.zero amount) fl.zero
  quota_taken (some quota) amount = fl.max (fl.sub quota amount) fl.zero

  taken_lem :
      (quota : Option F) (amount : F)
      → fl.max (fl.sub (or_zero fl quota) amount) fl.zero ≡ quota_taken quota amount
  taken_lem none amount = refl
  taken_lem (some quota) amount = refl

  deactivate_failed :
      (db : Db F) (now : DateTime) (sub : UserSubscription F)
      → (logged (deactivate fl now sub) db).0 ≡ ok false
      → (logged (deactivate fl now sub) db).1 ≡ past db
  unfolding deactivate write
  deactivate_failed db now sub e = elim (Bool-cases (fails_now db)) [
    | inl fails ↦ rw fails
    | inr works ↦ absurd (ground arith)
  ]

  -- The rollback half of a round: what the loop knows before it deactivates the row.
  module _ (now : DateTime) (sub : UserSubscription F) (db : Db F)
      (m : sub.quota_merged ≡ true) where
    abbrev roll : Result Error (Unit {0}) × Db F
    roll = rollback_subscription_quota_from_user fl sub.user_id (snapshot fl sub) now db

    expire_one_rolled :
        roll.0 ≡ ok tt → expire_one fl now sub db ≡ logged (deactivate fl now sub) roll.1
    unfolding expire_one
    expire_one_rolled e = rw m (
        rw (
          logged_ok (rollback_subscription_quota_from_user fl sub.user_id (snapshot fl sub) now) db
            tt e))

    -- A merged subscription whose rollback fails is not reported as expired, and no user and no
    -- subscription row is changed.
    pub expire_one_failed :
        (x : Error)
        → roll.0 ≡ err x
        → ((expire_one fl now sub db).0 ≡ ok false)
          × ((expire_one fl now sub db).1.users ≡ db.users)
          × ((expire_one fl now sub db).1.user_subscriptions ≡ db.user_subscriptions)
    unfolding expire_one
    expire_one_failed x e = rw m (
        rw
          (logged_err (rollback_subscription_quota_from_user fl sub.user_id (snapshot fl sub) now)
            db x e)
          (
            refl,
            rollback_error fl db sub.user_id (snapshot fl sub) now x e,
            rollback_subs db sub.user_id (snapshot fl sub) now,
          ))

    roll_works :
        roll.0 ≡ ok tt
        → (u : User F) → find (by_id fl) sub.user_id db.users ≡ some u
        → roll ≡ (ok tt, with_user fl db sub.user_id (rolled_back fl u (snapshot fl sub) now))
    unfolding rollback_subscription_quota_from_user query write
    roll_works done u found = elim (Bool-cases (fails_now db)) [
      | inl fails ↦ absurd (ground arith)
      | inr works ↦ elim (Bool-cases (fails_now (past db))) [
        | inl fails ↦ absurd (cc (rw fails at (rw (works, found) at done)))
        | inr writes ↦ rollback_run fl db sub.user_id (snapshot fl sub) now u works writes found
      ]
    ]

    calm_round :
        (u : User F)
        → db.faults ≡ []
        → find (by_id fl) sub.user_id db.users ≡ some u
        → ((expire_one fl now sub db).0 ≡ ok true)
          × (find (by_id fl) sub.user_id (expire_one fl now sub db).1.users
              ≡ some (rolled_back fl u (snapshot fl sub) now u))
    unfolding deactivate write
    calm_round u h found =
        let run = rollback_run fl db sub.user_id (snapshot fl sub) now u (rw h) (rw h) found in
        let done : roll.0 ≡ ok tt = ap (λ r. r.0) run in
        rw (expire_one_rolled done, run)
          (rw h (
            refl,
            find-update_row_self (by_id fl) (rolled_back fl u (snapshot fl sub) now)
                (unfold rolled_back in λ a. refl) sub.user_id db.users u found,
          ))

  module _ (now later : DateTime) (sub : UserSubscription F) (db : Db F)
      (m : sub.quota_merged ≡ true) (u : User F)
      (found : find (by_id fl) sub.user_id db.users ≡ some u) where
    abbrev rolled_db : Db F
    rolled_db = with_user fl db sub.user_id (rolled_back fl u (snapshot fl sub) now)

    half_done :
        (roll now sub db m).0 ≡ ok tt
        → (expire_one fl now sub db).0 ≡ ok false
        → (expire_one fl now sub db).1 ≡ past rolled_db
    half_done done unreported =
        let first = expire_one_rolled now sub db m done in
        ap (λ r. r.1) first
        ∙ deactivate_failed (roll now sub db m).1 now sub (sym (ap (λ r. r.0) first) ∙ unreported)
        ∙ ap (λ r. past r.1) (roll_works now sub db m done u found)

    -- If the rollback of a merged subscription succeeds and the round still does not report it as
    -- expired, then no row of the subscriptions has changed, so that the next run is given the same
    -- row; a round for it in which no query fails reports it as expired, and has taken its traffic
    -- from the user's traffic quota twice, down to zero at most.
    pub expire_one_twice :
        (rollback_subscription_quota_from_user fl sub.user_id (snapshot fl sub) now db).0 ≡ ok tt
        → (expire_one fl now sub db).0 ≡ ok false
        → let mid = (expire_one fl now sub db).1 in
          let again = expire_one fl later sub (still mid) in
          (mid.user_subscriptions ≡ db.user_subscriptions)
          × (again.0 ≡ ok true)
          × ((v : User F) × (find (by_id fl) sub.user_id again.1.users ≡ some v)
              × (v.traffic_quota_gb
                  ≡ some (
                      quota_taken
                        (some (quota_taken u.traffic_quota_gb sub.traffic_quota_gb))
                        sub.traffic_quota_gb)))
    expire_one_twice done unreported =
        let after = rolled_back fl u (snapshot fl sub) now u in
        let (fine, listed) = calm_round later sub (still (past rolled_db)) m after refl (
          find-update_row_self (by_id fl) (rolled_back fl u (snapshot fl sub) now)
            (unfold rolled_back in λ a. refl) sub.user_id db.users u found) in
        rw (half_done done unreported) (
          refl,
          fine,
          (
            rolled_back fl after (snapshot fl sub) later after,
            listed,
            unfold rolled_back in
                ap (λ q. some (fl.max (fl.sub q sub.traffic_quota_gb) fl.zero))
                  (taken_lem u.traffic_quota_gb sub.traffic_quota_gb),
          ),
        )

  expire_one_plain :
      (now : DateTime) (sub : UserSubscription F) (db : Db F)
      → sub.quota_merged ≡ false
      → expire_one fl now sub db ≡ logged (deactivate fl now sub) db
  unfolding expire_one
  expire_one_plain now sub db m = rw m refl

  -- Whatever fails, a subscription that is reported as expired has been deactivated, and no other
  -- subscription row has changed.
  pub expire_one_reported :
      (now : DateTime) (sub : UserSubscription F) (db : Db F)
      → (expire_one fl now sub db).0 ≡ ok true
      → (expire_one fl now sub db).1.user_subscriptions
        ≡ update_row by_sub sub.id (deactivated fl now) db.user_subscriptions
  expire_one_reported now sub db e = elim (Bool-cases sub.quota_merged) [
    | inr plain ↦
        let run = expire_one_plain now sub db plain in
        rw run (deactivate_done db now sub (rw run at e))
    | inl m ↦ elim (Result-cases (roll now sub db m).0) [
      | inr (x, failed) ↦ absurd (cc ((expire_one_failed now sub db m x failed).0))
      | inl (t, done) ↦
          let run = expire_one_rolled now sub db m done in
          let gone = deactivate_done (roll now sub db m).1 now sub (rw run at e) in
          let kept = rollback_subs db sub.user_id (snapshot fl sub) now in rw run (rw kept at gone)
    ]
  ]
