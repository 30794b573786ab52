-- ===== src/Users.antt =====
-- controller/src/api/handlers/user.rs: how an administrator creates, changes and deletes users. A
-- hashed password is `hash`'s answer (none is its error), `random` a generated password, `next_key` the
-- key that the database gives to a new row. The defaults of a new user's limits come from the
-- configuration. A write of a row that was found is one of that row's columns.
pub mod Nodes
pub mod Guards
pub mod Allowance
pub mod Naming
pub mod Uniqueness
pub mod Deleting
pub mod Assigning
pub mod Linking
pub mod Granting
pub mod Covering
mod Tests
use oxiproxy.Prelude.{
  ℕ, Bool, true, false, not, ◌&&◌, ◌||◌, Option, none, some, List, [], ◌∷◌, ◌++◌, String, str_eq,
  Text, ◌==◌, opt_eq, is_empty, any, filter, if◌then◌else◌, Result, ok, err,
}
use oxiproxy.Prelude.Int.{ℤ, pos}
use oxiproxy.Prelude.Time.{DateTime}
use oxiproxy.Ports.{parse_port_ranges}
use oxiproxy.Store.{User, Proxy, UserNode, UserClient, UserSubscription, TrafficDaily, Db}
use oxiproxy.Store.Rows.{find, update_row, delete_row}
use oxiproxy.Store.Queries.{query, write}
use oxiproxy.Handlers.{
  AuthUser, stopped, World, Act, ◌>>=◌, ◌>>◌, return, reject, require, or_reject, from_result,
  from_db, control, is_some,
}
use oxiproxy.Proxies.Updates.{or_old}

module _ (F : Type 0) where
  pub record CreateUserRequest : Type 0 where
    pub username : String
    pub password : Option String
    pub is_admin : Option Bool
    pub traffic_quota_gb : Option F
    pub traffic_reset_cycle : Option String
    pub max_port_count : Option ℤ
    pub max_node_count : Option ℤ
    pub max_client_count : Option ℤ

  pub record UpdateUserRequest : Type 0 where
    pub username : Option String
    pub password : Option String
    pub is_admin : Option Bool
    pub traffic_quota_gb : Option F
    pub traffic_reset_cycle : Option String
    pub is_traffic_exceeded : Option Bool
    pub max_port_count : Option ℤ
    pub allowed_port_range : Option Text
    pub max_node_count : Option ℤ
    pub max_client_count : Option ℤ

  -- The limits of a new user for which the request has none.
  pub record Defaults : Type 0 where
    pub traffic_quota_gb : F
    pub max_port_count : ℤ
    pub max_node_count : ℤ
    pub max_client_count : ℤ

-- A limit that the request sets, else the old one.
abbrev pub set_or_old : {A : Type 0} → Option A → Option A → Option A
set_or_old none old = old
set_or_old (some a) old = some a

-- The port range after the request: an empty text lifts it, another one has to parse.
abbrev pub checked_range : Text → Result ℕ (Option Text)
checked_range text =
    if is_empty text
    then ok none
    else elim (parse_port_ranges text) [ ok ranges ↦ ok (some text) | err e ↦ err 400 ]

abbrev pub range_after : Option Text → Option Text → Result ℕ (Option Text)
range_after none old = ok old
range_after (some text) old = checked_range text

-- A password that the request sets has to be hashed.
abbrev pub hash_after : (String → Option String) → Option String → String → Option String
hash_after hash none old = some old
hash_after hash (some password) old = hash password

-- The reply holds the password only if it was generated.
abbrev pub generated : Option String → String → Option String
generated none random = some random
generated (some password) random = none

abbrev pub is_direct_of : ℕ → Proxy → Bool
is_direct_of id p = not (is_some p.client_id) && opt_eq p.user_id (some id)

abbrev pub of_user : ℕ → Proxy → Bool
of_user id p = opt_eq p.user_id (some id)

module _ {F : Type 0} where
  -- Only an administrator gets past the first two checks of a handler.
  unfoldable pub admin_only : Option AuthUser → Act F (Unit {0})
  admin_only none = reject 401
  admin_only (some u) = require u.is_admin 403

  abbrev pub name_taken : String → List (User F) → Bool
  name_taken name users = any (λ (v : User F). str_eq v.username name) users

  -- Does a user other than the one with the key have the name.
  abbrev pub taken_by_other : ℕ → String → List (User F) → Bool
  taken_by_other id name users =
      any (λ (v : User F). str_eq v.username name && not (v.id == id)) users

  unfoldable pub read_user : ℕ → Act F (User F)
  read_user id = do
    found ← from_db (query (λ db. find (λ (u : User F). u.id) id db.users))
    or_reject found 404

  pub new_user : Defaults F → CreateUserRequest F → String → DateTime → ℕ → User F
  new_user defaults req password_hash now key = record {
    id = key;
    username = req.username;
    password_hash = password_hash;
    is_admin = or_old req.is_admin false;
    total_bytes_sent = pos 0;
    total_bytes_received = pos 0;
    traffic_reset_cycle = or_old req.traffic_reset_cycle "none";
    last_reset_at = none;
    is_traffic_exceeded = false;
    traffic_quota_gb = some (or_old req.traffic_quota_gb defaults.traffic_quota_gb);
    max_port_count = some (or_old req.max_port_count defaults.max_port_count);
    allowed_port_range = none;
    max_node_count = some (or_old req.max_node_count defaults.max_node_count);
    max_client_count = some (or_old req.max_client_count defaults.max_client_count);
    created_at = now;
    updated_at = now;
  }

  unfoldable pub insert_user : (List (User F) → ℕ) → (ℕ → User F) → Act F (Unit {0})
  insert_user next_key row =
      from_db (write (λ db. record db { users = db.users ++ (row (next_key db.users) ∷ []) }))

  unfoldable pub create_user :
      (String → Option String)
      → String
      → (List (User F) → ℕ)
      → DateTime
      → Defaults F
      → Option AuthUser
      → CreateUserRequest F
      → Act F (Option String)
  unfolding admin_only insert_user new_user
  create_user hash random next_key now defaults caller req = do
    admin_only caller
    taken ← from_db (query (λ db. name_taken req.username db.users))
    require (not taken) 409
    password_hash ← or_reject (hash (or_old req.password random)) 500
    insert_user next_key (new_user defaults req password_hash now)
    return (generated req.password random)

  abbrev pub check_username : ℕ → Option String → Act F (Unit {0})
  check_username id none = return tt
  check_username id (some name) = do
    taken ← from_db (query (λ db. taken_by_other id name db.users))
    require (not taken) 409

  -- The columns that the request sets.
  abbrev pub changed_user : UpdateUserRequest F → String → Option Text → DateTime → User F → User F
  changed_user req password_hash range now u = record u {
    username = or_old req.username u.username;
    password_hash =
        or_old (if is_some req.password then some password_hash else none) u.password_hash;
    is_admin = or_old req.is_admin u.is_admin;
    traffic_quota_gb = set_or_old req.traffic_quota_gb u.traffic_quota_gb;
    traffic_reset_cycle = or_old req.traffic_reset_cycle u.traffic_reset_cycle;
    is_traffic_exceeded = or_old req.is_traffic_exceeded u.is_traffic_exceeded;
    max_port_count = set_or_old req.max_port_count u.max_port_count;
    allowed_port_range = if is_some req.allowed_port_range then range else u.allowed_port_range;
    max_node_count = set_or_old req.max_node_count u.max_node_count;
    max_client_count = set_or_old req.max_client_count u.max_client_count;
    updated_at = now;
  }

  unfoldable pub change_user : ℕ → (User F → User F) → Act F (Unit {0})
  change_user id f =
      from_db (write (λ db. record db { users = update_row (λ (u : User F). u.id) id f db.users }))

  unfoldable pub update_user :
      (String → Option String)
      → DateTime
      → Option AuthUser
      → ℕ
      → UpdateUserRequest F
      → Act F (Unit {0})
  unfolding admin_only read_user change_user
  update_user hash now caller id req = do
    admin_only caller
    user ← read_user id
    check_username id req.username
    password_hash ← or_reject (hash_after hash req.password user.password_hash) 500
    range ← from_result (range_after req.allowed_port_range user.allowed_port_range)
    change_user id (changed_user req password_hash range now)

  -- A refused stop is logged.
  unfoldable pub stop_each : List Proxy → Act F (Unit {0})
  stop_each [] = return tt
  stop_each (p ∷ ps) = do _ ← control (stopped [] p.id); stop_each ps

  -- The rows that go with a user: those whose foreign key cascades.
  unfoldable pub without_user : ℕ → Db F → Db F
  without_user id db = record db {
    users = delete_row (λ (u : User F). u.id) id db.users;
    proxies = filter (λ (p : Proxy). not (of_user id p)) db.proxies;
    traffic_daily =
        filter
          (λ (t : TrafficDaily).
            not (any (λ (p : Proxy). of_user id p && p.id == t.proxy_id) db.proxies))
          db.traffic_daily;
    user_nodes = filter (λ (a : UserNode). not (a.user_id == id)) db.user_nodes;
    user_clients = filter (λ (a : UserClient). not (a.user_id == id)) db.user_clients;
    user_subscriptions =
        filter (λ (s : UserSubscription F). not (s.user_id == id)) db.user_subscriptions;
  }

  unfoldable pub delete_user : Option AuthUser → ℕ → Act F (Unit {0})
  unfolding admin_only stop_each without_user
  delete_user caller id = do
    admin_only caller
    direct ← from_db (query (λ db. filter (is_direct_of id) db.proxies))
    stop_each direct
    from_db (write (without_user id))
