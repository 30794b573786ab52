-- ===== src/Users/Covering.antt =====
-- What a change of a user's quota is granted, and what the check of a decrease overlooks.
use oxiproxy.Prelude.{
  ℕ, ◌≡◌, refl, sym, ap, ◌∙◌, Bool, true, false, not, ◌&&◌, ◌||◌, Option, none, some, List, filter,
  ◌==◌, [], ◌∷◌, if◌then◌else◌, Result, ok, err,
}
use oxiproxy.Prelude.Int.{◌+ℤ◌, wrap_i64}
use oxiproxy.Prelude.Time.{DateTime}
use oxiproxy.Prelude.Float.{Float}
use oxiproxy.Store.{User, Client, UserClient, Db}
use oxiproxy.Store.Rows.{find, find-update_row_self, find-update_row_other}
use oxiproxy.Handlers.{AuthUser, World}
use oxiproxy.Traffic.{bytes_to_gb}
use oxiproxy.Proxies.Updates.{or_old}
use oxiproxy.Handlers.Reading.{settled}
use oxiproxy.Users.Allowance.{
  clients_of, used_gb, plus_quota, with_quota, new_quota_of, adjust_user_quota,
}
use oxiproxy.Users.Granting.{given, given_to, is_granted, with_new_quota, adjust_user_quota_run}

module _ (fl : Float) where
  open fl use {F}

  -- A quota that is not set counts as zero.
  abbrev pub quota_set : Option F → F
  quota_set none = fl.zero
  quota_set (some quota) = quota

  -- What a client's row adds to a sum of quotas: nothing, if it is not there or has no quota.
  abbrev pub plus : F → Option (Client F) → F
  plus total none = total
  plus total (some c) = plus_set c.traffic_quota_gb
    where
      plus_set : Option F → F
      plus_set none = total
      plus_set (some quota) = fl.add total quota

  -- The quotas of the clients that the links name, added up in the order of the links.
  abbrev pub sum_given : F → List UserClient → List (Client F) → F
  sum_given total [] cs = total
  sum_given total (a ∷ links) cs =
      sum_given (plus total (find (λ (c : Client F). c.id) a.client_id cs)) links cs

  plus_lem : (total : F) (o : Option (Client F)) → plus_quota fl total o ≡ plus total o
  plus_lem total none = refl
  plus_lem total (some c) = elim c.traffic_quota_gb [ none ↦ refl | some quota ↦ refl ]

  given_lem :
      (total : F) (links : List UserClient) (cs : List (Client F))
      → given fl total links cs ≡ sum_given total links cs
  given_lem total [] cs = refl
  given_lem total (a ∷ links) cs =
      let found = find (λ (c : Client F). c.id) a.client_id cs in
      ap (λ t. given fl t links cs) (plus_lem total found) ∙ given_lem (plus total found) links cs

  quota_lem : (q : Option F) → or_old q fl.zero ≡ quota_set q
  quota_lem none = refl
  quota_lem (some quota) = refl

  -- The quota that is asked for.
  abbrev pub asked : User F → F → F
  asked user change = fl.add (quota_set user.traffic_quota_gb) change

  module _ (user_id : ℕ) (user : User F) (change : F) (db : Db F) where
    -- What the new quota has to be at least, if the change is negative: what the user has used and
    -- the quotas of the clients that the table of assignments gives the user.
    abbrev pub needed : F
    needed =
        fl.add (bytes_to_gb fl (wrap_i64 (user.total_bytes_sent +ℤ user.total_bytes_received))) (
          sum_given fl.zero (filter (λ (a : UserClient). a.user_id == user_id) db.user_clients)
            db.clients)

    -- Is the change to be granted.
    abbrev pub is_allowed : Bool
    is_allowed =
        not (fl.lt (asked user change) fl.zero)
        && (not (fl.lt change fl.zero) || not (fl.lt (asked user change) needed))

    granted_lem : is_granted fl user_id user change db ≡ is_allowed
    granted_lem =
        ap
          (λ q.
            not (fl.lt (fl.add q change) fl.zero)
            && (not (fl.lt change fl.zero)
                || not
                    (fl.lt (fl.add q change) (fl.add (used_gb fl user) (given_to fl user_id db)))))
          (quota_lem user.traffic_quota_gb)
        ∙ ap
            (λ total.
              not (fl.lt (asked user change) fl.zero)
              && (not (fl.lt change fl.zero)
                  || not (fl.lt (asked user change) (fl.add (used_gb fl user) total))))
            (given_lem fl.zero (clients_of user_id db.user_clients) db.clients)

  -- While the database works, an administrator's change of the quota of a user who is there is granted
  -- exactly when the new quota, the old one (zero if none was set) plus the change, is not negative
  -- and, if the change is negative, not below the gigabytes sent and received plus the quotas of the
  -- clients that the table of assignments gives the user. If it is granted, the user's row has the new
  -- quota and the time of the update and is else as it was, every other user is found as before, and
  -- nothing but the users' rows changes; if it is refused, the answer is 400 and nothing changes.
  pub adjust_user_quota_lem :
      (now : DateTime) (u : AuthUser) (user_id : ℕ) (user : User F) (change : F) (w : World F)
      → u.is_admin ≡ true
      → find (λ (v : User F). v.id) user_id w.db.users ≡ some user
      → let by_key = λ (v : User F). v.id in
        let answer = adjust_user_quota fl now (some u) user_id change (settled w) in
        (is_allowed user_id user change w.db ≡ true
          → (answer.0 ≡ ok tt)
            × (find by_key user_id answer.1.db.users
                ≡ some
                    (record user { traffic_quota_gb = some (asked user change); updated_at = now }))
            × ((j : ℕ)
                → (j == user_id) ≡ false
                → find by_key j answer.1.db.users ≡ find by_key j w.db.users)
            × (record answer.1 { db = record answer.1.db { users = w.db.users } } ≡ settled w))
        × (is_allowed user_id user change w.db ≡ false → answer ≡ (err 400, settled w))
  adjust_user_quota_lem now u user_id user change w admin found = (
    λ allowed.
        let run =
          adjust_user_quota_run fl now u user_id user change w admin found
          ∙ ap (λ b. if b then granted_world else refused_world)
              (granted_lem user_id user change w.db ∙ allowed) in
        (
          ap (λ r. r.0) run,
          ap (λ r. find by_key user_id r.1.db.users) run
              ∙ find-update_row_self by_key written (λ v. refl) user_id w.db.users user found
              ∙ ap
                  (λ q.
                    some
                      (record user { traffic_quota_gb = some (fl.add q change); updated_at = now }))
                  (quota_lem user.traffic_quota_gb),
          λ j other.
              ap (λ r. find by_key j r.1.db.users) run
              ∙ find-update_row_other by_key written (λ v. refl) user_id j w.db.users other,
          ap (λ r. record r.1 { db = record r.1.db { users = w.db.users } }) run,
        ),
    λ refused.
        adjust_user_quota_run fl now u user_id user change w admin found
        ∙ ap (λ b. if b then granted_world else refused_world)
            (granted_lem user_id user change w.db ∙ refused),
  )
    where
      by_key : User F → ℕ
      by_key v = v.id

      written : User F → User F
      written = with_quota fl (new_quota_of fl user change) now

      granted_world : Result ℕ (Unit {0}) × World F
      granted_world =
          (ok tt, with_new_quota fl user_id (new_quota_of fl user change) now (settled w))

      refused_world : Result ℕ (Unit {0}) × World F
      refused_world = (err 400, settled w)

  -- While the database works and the table of assignments is empty, an administrator's change of the
  -- quota of a user who is there is answered alike whatever clients there are and whatever their
  -- quotas, the user's own clients among them.
  pub adjust_ignores_clients :
      (now : DateTime) (u : AuthUser) (user_id : ℕ) (user : User F) (change : F) (w : World F)
      (cs : List (Client F))
      → u.is_admin ≡ true
      → find (λ (v : User F). v.id) user_id w.db.users ≡ some user
      → w.db.user_clients ≡ []
      → (adjust_user_quota fl now (some u) user_id change (settled w)).0
        ≡ (adjust_user_quota fl now
            (some u)
            user_id
            change
            (settled (record w { db = record w.db { clients = cs } }))).0
  adjust_ignores_clients now u user_id user change w cs admin found nothing =
      answer w found
      ∙ ap
          (λ (links : List UserClient).
            answer_for (given fl fl.zero (clients_of user_id links) w.db.clients))
          nothing
      ∙ ap
          (λ (links : List UserClient). answer_for (given fl fl.zero (clients_of user_id links) cs))
          (sym nothing)
      ∙ sym (answer (record w { db = record w.db { clients = cs } }) found)
    where
      answer_for : F → Result ℕ (Unit {0})
      answer_for total =
          if not (fl.lt (new_quota_of fl user change) fl.zero)
            && (not (fl.lt change fl.zero)
                || not (fl.lt (new_quota_of fl user change) (fl.add (used_gb fl user) total)))
          then ok tt
          else err 400

      status :
          (b : Bool) (v1 v2 : World F)
          → (if◌then◌else◌ {A = Result ℕ (Unit {0}) × World F} b (ok tt, v1) (err 400, v2)).0
            ≡ (if b then ok tt else err 400)
      status true v1 v2 = refl
      status false v1 v2 = refl

      answer :
          (v : World F)
          → find (λ (x : User F). x.id) user_id v.db.users ≡ some user
          → (adjust_user_quota fl now (some u) user_id change (settled v)).0
            ≡ answer_for (given_to fl user_id v.db)
      answer v e =
          ap (λ r. r.0) (adjust_user_quota_run fl now u user_id user change v admin e)
          ∙ status (is_granted fl user_id user change v.db) _ _
