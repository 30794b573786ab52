-- ===== src/Users/Granting.antt =====
-- How the change of a user's quota runs while the database works.
use oxiproxy.Prelude.{
  ℕ, ◌≡◌, refl, ap, ◌∙◌, inl, inr, Bool, true, not, ◌&&◌, ◌||◌, some, List, [], ◌∷◌, if◌then◌else◌,
  ok, err, Bool-cases,
}
use oxiproxy.Prelude.Time.{DateTime}
use oxiproxy.Prelude.Float.{Float}
use oxiproxy.Store.{User, Client, UserClient, Db}
use oxiproxy.Store.Rows.{find, update_row}
use oxiproxy.Store.Queries.{query, write}
use oxiproxy.Handlers.{
  AuthUser, World, Act, act_then, from_db, require, or_reject, return, ◌>>=◌, ◌>>◌,
}
use oxiproxy.Handlers.Reading.{settled}
use oxiproxy.Users.{admin_only, read_user, change_user}
use oxiproxy.Users.Allowance.{
  clients_of, used_gb, plus_quota, allocated_to_clients, check_covers, check_decrease, with_quota,
  new_quota_of, adjust_user_quota,
}

module _ (fl : Float) where
  open fl use {F}

  -- The quotas of the clients that are found, added up.
  abbrev pub given : F → List UserClient → List (Client F) → F
  given total [] cs = total
  given total (a ∷ links) cs =
      given (plus_quota fl total (find (λ (c : Client F). c.id) a.client_id cs)) links cs

  allocated_to_clients_calm :
      (total : F) (links : List UserClient) (w : World F)
      → allocated_to_clients fl total links (settled w)
        ≡ (ok (given total links w.db.clients), settled w)
  unfolding allocated_to_clients ◌>>=◌ from_db query return
  allocated_to_clients_calm total [] w = refl
  allocated_to_clients_calm total (a ∷ links) w =
      allocated_to_clients_calm
        (plus_quota fl total (find (λ (c : Client F). c.id) a.client_id w.db.clients)) links w

  -- What the clients of the user's assignments were given.
  abbrev pub given_to : ℕ → Db F → F
  given_to user_id db = given fl.zero (clients_of user_id db.user_clients) db.clients

  -- Is the change granted: the new quota is not negative, and a decrease leaves enough for what is
  -- used and given.
  abbrev pub is_granted : ℕ → User F → F → Db F → Bool
  is_granted user_id user change db =
      not (fl.lt (new_quota_of fl user change) fl.zero)
      && (not (fl.lt change fl.zero)
          || not (
              fl.lt (new_quota_of fl user change) (fl.add (used_gb fl user) (given_to user_id db))))

  check_covers_calm :
      (user_id : ℕ) (user : User F) (new_quota : F) (w : World F)
      → check_covers fl user_id user new_quota (settled w)
        ≡ require
            (not (fl.lt new_quota (fl.add (used_gb fl user) (given_to user_id w.db))))
            400
            (settled w)
  unfolding ◌>>=◌ from_db query
  check_covers_calm user_id user new_quota w =
      ap
        (λ r.
          act_then r
            (λ total. require (not (fl.lt new_quota (fl.add (used_gb fl user) total))) 400))
        (allocated_to_clients_calm fl.zero (clients_of user_id w.db.user_clients) w)

  abbrev pub with_new_quota : ℕ → F → DateTime → World F → World F
  with_new_quota user_id quota now w = record w {
    db = record w.db {
      users = update_row (λ (u : User F). u.id) user_id (with_quota fl quota now) w.db.users;
    };
  }

  read_user_calm :
      (user_id : ℕ) (user : User F) (w : World F)
      → find (λ (v : User F). v.id) user_id w.db.users ≡ some user
      → read_user user_id (settled w) ≡ (ok user, settled w)
  unfolding read_user ◌>>=◌ from_db query or_reject
  read_user_calm user_id user w found = rw found refl

  abbrev pub checked : DateTime → ℕ → User F → F → Act F (Unit {0})
  checked now user_id user change = do
    require (not (fl.lt (new_quota_of fl user change) fl.zero)) 400
    check_decrease fl user_id user change (new_quota_of fl user change)
    change_user user_id (with_quota fl (new_quota_of fl user change) now)

  checked_calm :
      (now : DateTime) (user_id : ℕ) (user : User F) (change : F) (w : World F)
      → checked now user_id user change (settled w) ≡ (
          if is_granted user_id user change w.db
          then (ok tt, with_new_quota user_id (new_quota_of fl user change) now (settled w))
          else (err 400, settled w))
  unfolding ◌>>◌ require return change_user from_db write
  checked_calm now user_id user change w =
      elim (Bool-cases (fl.lt (new_quota_of fl user change) fl.zero)) [
        | inl negative ↦ rw (negative, require) refl
        | inr whole ↦ elim (Bool-cases (fl.lt change fl.zero)) [
          | inr grows ↦ rw (whole, require) (rw grows refl)
          | inl falls ↦
              rw (whole, require)
                (rw falls (
                  ap
                    (λ r.
                      act_then r (λ _.
                        change_user user_id (with_quota fl (new_quota_of fl user change) now)))
                    (check_covers_calm user_id user (new_quota_of fl user change) w)
                  ∙ elim (Bool-cases (
                      fl.lt (new_quota_of fl user change)
                        (fl.add (used_gb fl user) (given_to user_id w.db)))) [
                          | inl short ↦ rw (short, require) refl
                          | inr enough ↦ rw (enough, require) refl
                        ]))
        ]
      ]

  -- The change runs as its checks say.
  pub adjust_user_quota_run :
      (now : DateTime) (u : AuthUser) (user_id : ℕ) (user : User F) (change : F) (w : World F)
      → u.is_admin ≡ true
      → find (λ (v : User F). v.id) user_id w.db.users ≡ some user
      → adjust_user_quota fl now (some u) user_id change (settled w) ≡ (
          if is_granted user_id user change w.db
          then (ok tt, with_new_quota user_id (new_quota_of fl user change) now (settled w))
          else (err 400, settled w))
  unfolding adjust_user_quota admin_only ◌>>◌ ◌>>=◌ require read_user
  adjust_user_quota_run now u user_id user change w admin found =
      rw (admin, require)
        (ap (λ r. act_then r (λ v. checked now user_id v change))
            (read_user_calm user_id user w found)
          ∙ checked_calm now user_id user change w)
