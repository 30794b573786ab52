-- ===== src/Traffic/Quotas.antt =====
-- What the quota checks admit.
use oxiproxy.Prelude.{
  ℕ, ◌≡◌, ap, subst, inl, inr, true, false, Option, none, some, opt_eq, filter, Bool-cases,
  Option-cases, Result-cases, ok,
}
use oxiproxy.Prelude.Int.{ℤ, ◌+ℤ◌, wrap_i64}
use oxiproxy.Prelude.Time.{DateTime}
use oxiproxy.Prelude.Float.{Float}
use oxiproxy.Store.{User, Client, Db}
use oxiproxy.Store.Rows.{find}
use oxiproxy.Store.Queries.{query, fails_now, past}
use oxiproxy.Traffic.{
  exceeded, granted, reaches, usage_of, should_reset_traffic, reset_user_traffic, check_user_found,
  check_user_traffic_limit, bytes_to_gb, allocated, allocate, check_user_quota_allocation,
}

module _ (fl : Float) where
  open fl use {F}

  -- The bytes that a user has used.
  abbrev pub used_bytes : User F → ℤ
  used_bytes u = wrap_i64 (u.total_bytes_sent +ℤ u.total_bytes_received)

  pub record IsOverQuota (user_id : ℕ) (now : DateTime) (used : ℤ) (quota : F) (db : Db F)
      : Type 0 where
    pub user : User F
    pub listed : find (λ (x : User F). x.id) user_id db.users ≡ some user
    pub current : should_reset_traffic fl user now ≡ false
    pub limit : user.traffic_quota_gb ≡ some quota
    pub spent : used_bytes user ≡ used
    pub reached : reaches fl used quota ≡ true

  usage_exceeded :
      (used n : ℤ) (limit : Option F) (q : F)
      → usage_of fl used limit ≡ exceeded n q
      → (limit ≡ some q) × (used ≡ n) × (reaches fl used q ≡ true)
  usage_exceeded used n none q e = absurd (cc)
  usage_exceeded used n (some limit) q e = elim (Bool-cases (reaches fl used limit)) [
    | inr under ↦ absurd (cc (rw under at e))
    | inl over ↦
        let same : usage_of fl used (some limit) ≡ exceeded n q = e in
        let eq : limit ≡ q = cc in (ap some eq, cc, rw (← eq) over)
  ]

  not_due :
      (user_id : ℕ) (u : User F) (now : DateTime) (used : ℤ) (quota : F) (db : Db F)
      → (check_user_found fl user_id now (some u) db).0 ≡ ok (exceeded used quota)
      → (should_reset_traffic fl u now ≡ false)
        × (usage_of fl (used_bytes u) u.traffic_quota_gb ≡ exceeded used quota)
  not_due user_id u now used quota db e = elim (Bool-cases (should_reset_traffic fl u now)) [
    | inr calm ↦ (calm, cc (rw calm at e))
    | inl due ↦ absurd (elim (Result-cases (reset_user_traffic fl user_id now db).0) [
      | inl (a, done) ↦ cc (rw (due, done) at e)
      | inr (x, failed) ↦ cc (rw (due, failed) at e)
    ])
  ]

  -- The check says that a user's quota is used up only if the user is there, no reset is due, the user has
  -- a quota, and the bytes used reach it, whatever queries fail.
  pub check_user_traffic_limit_sound :
      (user_id : ℕ) (now : DateTime) (used : ℤ) (quota : F) (db : Db F)
      → (check_user_traffic_limit fl user_id now db).0 ≡ ok (exceeded used quota)
      → IsOverQuota user_id now used quota db
  unfolding check_user_traffic_limit query
  check_user_traffic_limit_sound user_id now used quota db e = elim (Bool-cases (fails_now db)) [
    | inl fails ↦ absurd (cc (rw fails at e))
    | inr works ↦ elim (Option-cases (find (λ (x : User F). x.id) user_id db.users)) [
      | inl missing ↦ absurd (cc (rw (works, missing) at e))
      | inr (u, found) ↦
          let (calm, judged) =
            not_due user_id u now used quota (past db) (rw (works, found) at e) in
          let (limit, spent, reached) =
            usage_exceeded (used_bytes u) used u.traffic_quota_gb quota judged in
          record {
            user = u;
            listed = found;
            current = calm;
            limit = limit;
            spent = spent;
            reached = subst (λ n. reaches fl n quota ≡ true) spent reached;
          }
    ]
  ]

  -- What the user's clients have been given.
  abbrev pub given : ℕ → Db F → F
  given user_id db =
      allocated fl fl.zero (filter (λ (c : Client F). opt_eq c.user_id (some user_id)) db.clients)

  pub record HasRoom (user_id : ℕ) (additional : F) (db : Db F) : Type 0 where
    pub user : User F
    pub listed : find (λ (x : User F). x.id) user_id db.users ≡ some user
    pub room :
        (quota : F)
        → user.traffic_quota_gb ≡ some quota
        → fl.lt quota
            (fl.add (fl.add (bytes_to_gb fl (used_bytes user)) (given user_id db)) additional)
          ≡ false

  allocate_room :
      (user_id : ℕ) (additional quota : F) (u : User F) (limit : Option F) (db : Db F)
      → (allocate fl user_id additional u limit db).0 ≡ ok granted
      → limit ≡ some quota
      → fl.lt quota (fl.add (fl.add (bytes_to_gb fl (used_bytes u)) (given user_id db)) additional)
        ≡ false
  unfolding query
  allocate_room user_id additional quota u none db e same = absurd (cc)
  allocate_room user_id additional quota u (some q) db e same = elim (Bool-cases (fails_now db)) [
    | inl fails ↦ absurd (cc (rw fails at e))
    | inr works ↦
        elim (Bool-cases (
          fl.lt q
            (fl.add (fl.add (bytes_to_gb fl (used_bytes u)) (given user_id db)) additional))) [
              | inl short ↦ absurd (cc (rw (works, short) at e))
              | inr fits ↦ let eq : q ≡ quota = cc in rw (← eq) fits
            ]
  ]

  -- A quota is granted to a client only if the user is there and, where the user has a quota, the
  -- bytes used, what the user's clients have and the new quota stay within it.
  pub check_user_quota_allocation_sound :
      (user_id : ℕ) (additional : F) (db : Db F)
      → (check_user_quota_allocation fl user_id additional db).0 ≡ ok granted
      → HasRoom user_id additional db
  unfolding check_user_quota_allocation query
  check_user_quota_allocation_sound user_id additional db e = elim (Bool-cases (fails_now db)) [
    | inl fails ↦ absurd (cc (rw fails at e))
    | inr works ↦ elim (Option-cases (find (λ (x : User F). x.id) user_id db.users)) [
      | inl missing ↦ absurd (cc (rw (works, missing) at e))
      | inr (u, found) ↦
          let run : (allocate fl user_id additional u u.traffic_quota_gb (past db)).0 ≡ ok granted =
            rw (works, found) at e in
          record {
            user = u;
            listed = found;
            room =
                λ quota. allocate_room user_id additional quota u u.traffic_quota_gb (past db) run;
          }
    ]
  ]
