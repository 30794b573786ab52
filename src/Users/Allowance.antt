-- ===== src/Users/Allowance.antt =====
-- How an administrator changes a user's quota, and what a user is told about it. `Handlers`' replies
-- hold no text, so a success of the change has no value. `infinity`, `hundred` and `min` are those of
-- `f64`.
use oxiproxy.Prelude.{
  ℕ, not, ◌||◌, Option, none, some, List, [], ◌∷◌, String, ◌==◌, if◌then◌else◌, filter,
}
use oxiproxy.Prelude.Int.{◌+ℤ◌, wrap_i64}
use oxiproxy.Prelude.Time.{DateTime}
use oxiproxy.Prelude.Float.{Float}
use oxiproxy.Prelude.Maps.{option_map}
use oxiproxy.Store.{User, Client, UserClient}
use oxiproxy.Store.Rows.{find}
use oxiproxy.Store.Queries.{query}
use oxiproxy.Limits.{get_user_final_quota}
use oxiproxy.Traffic.{bytes_to_gb}
use oxiproxy.Metering.{quiet}
use oxiproxy.Handlers.{AuthUser, Act, ◌>>=◌, ◌>>◌, return, reject, require, from_db}
use oxiproxy.Proxies.Updates.{or_old}
use oxiproxy.Users.{admin_only, read_user, change_user}

-- The clients that a user was given in the table of assignments.
abbrev pub clients_of : ℕ → List UserClient → List UserClient
clients_of user_id links = filter (λ (a : UserClient). a.user_id == user_id) links

pub record UserQuotaInfo (F : Type 0) : Type 0 where
  pub user_id : ℕ
  pub username : String
  pub total_quota_gb : Option F
  pub used_gb : F
  pub allocated_to_clients_gb : F
  pub available_gb : F
  pub quota_usage_percent : Option F

-- A caller that is not an administrator may look at the own quota.
abbrev pub may_look : {F : Type 0} → ℕ → Option AuthUser → Act F (Unit {0})
may_look user_id none = reject 401
may_look user_id (some u) = require (u.is_admin || u.id == user_id) 403

module _ (fl : Float) where
  open fl use {F}

  abbrev pub used_gb : User F → F
  used_gb u = bytes_to_gb fl (wrap_i64 (u.total_bytes_sent +ℤ u.total_bytes_received))

  -- A client that is not found, or has no quota, adds nothing.
  abbrev pub plus_quota : F → Option (Client F) → F
  plus_quota total none = total
  plus_quota total (some c) = elim c.traffic_quota_gb [
    | none ↦ total
    | some quota ↦ fl.add total quota
  ]

  -- The quotas of the clients, read one by one; an error of the database reads as no client.
  unfoldable pub allocated_to_clients : F → List UserClient → Act F F
  allocated_to_clients total [] = return total
  allocated_to_clients total (a ∷ links) = do
    found ← from_db (quiet fl (query (λ db. find (λ (c : Client F). c.id) a.client_id db.clients)))
    allocated_to_clients (plus_quota total found) links

  -- The new quota has to cover what is used and what the clients were given.
  abbrev pub check_covers : ℕ → User F → F → Act F (Unit {0})
  check_covers user_id user new_quota = do
    links ← from_db (query (λ db. clients_of user_id db.user_clients))
    total ← allocated_to_clients fl.zero links
    require (not (fl.lt new_quota (fl.add (used_gb user) total))) 400

  abbrev pub check_decrease : ℕ → User F → F → F → Act F (Unit {0})
  check_decrease user_id user change new_quota =
      if fl.lt change fl.zero then check_covers user_id user new_quota else return tt

  abbrev pub with_quota : F → DateTime → User F → User F
  with_quota quota now u = record u { traffic_quota_gb = some quota; updated_at = now }

  abbrev pub new_quota_of : User F → F → F
  new_quota_of user change = fl.add (or_old user.traffic_quota_gb fl.zero) change

  unfoldable pub adjust_user_quota : DateTime → Option AuthUser → ℕ → F → Act F (Unit {0})
  unfolding allocated_to_clients
  adjust_user_quota now caller user_id change = do
    admin_only caller
    user ← read_user user_id
    require (not (fl.lt (new_quota_of user change) fl.zero)) 400
    check_decrease user_id user change (new_quota_of user change)
    change_user user_id (with_quota (new_quota_of user change) now)

  module _ (infinity hundred : F) (min : F → F → F) where
    abbrev pub available : Option F → F → F → F
    available none used total = infinity
    available (some quota) used total = fl.max (fl.sub (fl.sub quota used) total) fl.zero

    abbrev pub usage_percent : F → F → F → F
    usage_percent used total quota = min (fl.mul (fl.div (fl.add used total) quota) hundred) hundred

    abbrev pub quota_info : User F → F → UserQuotaInfo F
    quota_info user total = record {
      user_id = user.id;
      username = user.username;
      total_quota_gb = (get_user_final_quota user).0;
      used_gb = used_gb user;
      allocated_to_clients_gb = total;
      available_gb = available (get_user_final_quota user).0 (used_gb user) total;
      quota_usage_percent =
          option_map (usage_percent (used_gb user) total) (get_user_final_quota user).0;
    }

    unfoldable pub get_user_quota_info : Option AuthUser → ℕ → Act F (UserQuotaInfo F)
    unfolding allocated_to_clients
    get_user_quota_info caller user_id = do
      may_look user_id caller
      user ← read_user user_id
      links ← from_db (query (λ db. clients_of user_id db.user_clients))
      total ← allocated_to_clients fl.zero links
      return (quota_info user total)
