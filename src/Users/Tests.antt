-- ===== src/Users/Tests.antt =====
-- Users, nodes and quotas under an administrator's requests: the witnesses.
use oxiproxy.Prelude.{
  ◌+◌, ◌-◌, ℕ, suc, ◌≤◌, ◌≡◌, refl, true, false, none, some, List, [], ◌∷◌, ◌++◌, arith, any, ltb,
  map, filter, ◌==◌, not, ◌&&◌, opt_eq, if◌then◌else◌, ok, err,
}
use oxiproxy.Prelude.Int.{pos, pos_part, wrap_i64, ◌+ℤ◌}
use oxiproxy.Prelude.Float.{Float}
use oxiproxy.Traffic.{bytes_to_gb}
use oxiproxy.Store.{User, Client, Proxy}
use oxiproxy.Store.Rows.{find}
use oxiproxy.Store.Queries.{query, write}
use oxiproxy.Store.Looking.{still}
use oxiproxy.Handlers.{AuthUser, is_some, World, ◌>>=◌, ◌>>◌, return, require, or_reject, from_db}
use oxiproxy.Handlers.Reading.{settled}
use oxiproxy.Users.{
  CreateUserRequest, UpdateUserRequest, Defaults, admin_only, read_user, delete_user,
}
use oxiproxy.Users.Naming.{NamedOnce}
use oxiproxy.Users.Uniqueness.{
  GivesNewKeys, UserRequest, create, update, delete, answer_users, users_stay_named,
}
use oxiproxy.Users.Nodes.{assign_node_to_user, read_node, insert_link}
use oxiproxy.Users.Assigning.{MayLink, assign_node_lem}
use oxiproxy.Users.Linking.{OnceEach, LinkRequest, assign, remove, answer_links, links_stay_single}
use oxiproxy.Users.Deleting.{stop_of, delete_user_lem}
use oxiproxy.Users.Allowance.{adjust_user_quota}
use oxiproxy.Users.Covering.{asked, is_allowed, adjust_user_quota_lem, adjust_ignores_clients}
use oxiproxy.Samples.{alice, tokyo, laptop, small_db, day_at}

abbrev root : AuthUser
root = record { id = 9; username = "root"; is_admin = true }

abbrev calm : World ℕ
calm = record { db = small_db; calls = []; refusals = []; notified = [] }

-- A number above every key.
abbrev above : List (User ℕ) → ℕ
above [] = 0
above (u ∷ us) = if ltb (above us) (suc u.id) then suc u.id else above us

above_all : (n : ℕ) (us : List (User ℕ)) → above us ≤ n → any (λ (v : User ℕ). v.id == n) us ≡ false
above_all n [] h = refl
above_all n (u ∷ us) h = ground (arith, above_all n us)

above-GivesNewKeys : GivesNewKeys above
above-GivesNewKeys us = above_all (above us) us (omega arith)

abbrev bob_request : CreateUserRequest ℕ
bob_request = record {
  username = "bob";
  password = none;
  is_admin = none;
  traffic_quota_gb = none;
  traffic_reset_cycle = none;
  max_port_count = none;
  max_node_count = none;
  max_client_count = none;
}

abbrev no_limits : Defaults ℕ
no_limits = record {
  traffic_quota_gb = 0;
  max_port_count = pos 0;
  max_node_count = pos 0;
  max_client_count = pos 0;
}

abbrev to_alice : UpdateUserRequest ℕ
to_alice = record {
  username = some "alice";
  password = none;
  is_admin = none;
  traffic_quota_gb = none;
  traffic_reset_cycle = none;
  is_traffic_exceeded = none;
  max_port_count = none;
  allowed_port_range = none;
  max_node_count = none;
  max_client_count = none;
}

abbrev requests : List (UserRequest ℕ)
requests =
    create "pw" (day_at 2 0) no_limits (some root) bob_request
    ∷ update (day_at 3 0) (some root) 2 to_alice
    ∷ delete (some root) 1
    ∷ []

users_stay_named_example : NamedOnce (answer_users (λ s. some s) above requests calm).db.users
users_stay_named_example =
    users_stay_named (λ s. some s) above requests calm above-GivesNewKeys (tt, tt)

abbrev private_node : World ℕ
private_node = record calm {
  db = record small_db { nodes = record tokyo { node_type = "dedicated" } ∷ [] };
}

assign_node_example :
    MayLink
      (some root)
      1
      3
      (still private_node.db)
      (still (assign_node_to_user (λ links. 7) (day_at 2 0) (some root) 1 3 private_node).1.db)
assign_node_example = assign_node_lem (λ links. 7) (day_at 2 0) (some root) 1 3 private_node

assigned_ok : (assign_node_to_user (λ links. 7) (day_at 2 0) (some root) 1 3 private_node).0 ≡ ok tt
unfolding assign_node_to_user admin_only read_user read_node insert_link require from_db or_reject
    return query write ◌>>=◌ ◌>>◌
assigned_ok = refl

abbrev link_requests : List LinkRequest
link_requests = assign (some root) 1 3 ∷ assign (some root) 1 3 ∷ remove none 1 3 ∷ []

links_stay_single_example :
    OnceEach (answer_links (λ links. 7) (day_at 2 0) link_requests private_node).db.user_nodes
links_stay_single_example =
    links_stay_single (λ links. 7) (day_at 2 0) link_requests private_node tt

delete_user_example :
    let answer = delete_user (some root) 1 (settled calm) in
    let owned = λ (p : Proxy). opt_eq p.user_id (some 1) in
    (answer.0 ≡ ok tt)
    × (answer.1.calls
        ≡ calm.calls
          ++ map stop_of (filter (λ p. not (is_some p.client_id) && owned p) calm.db.proxies))
    × (answer.1.notified ≡ calm.notified)
    × (answer.1.db.users ≡ filter (λ v. not (v.id == 1)) calm.db.users)
    × (answer.1.db.proxies ≡ filter (λ p. not (owned p)) calm.db.proxies)
    × (answer.1.db.traffic_daily
        ≡ filter
            (λ t. not (any (λ p. owned p && p.id == t.proxy_id) calm.db.proxies))
            calm.db.traffic_daily)
    × (answer.1.db.user_nodes ≡ filter (λ a. not (a.user_id == 1)) calm.db.user_nodes)
    × (answer.1.db.user_clients ≡ filter (λ a. not (a.user_id == 1)) calm.db.user_clients)
    × (answer.1.db.user_subscriptions
        ≡ filter (λ s. not (s.user_id == 1)) calm.db.user_subscriptions)
    × (answer.1.db.clients ≡ calm.db.clients)
    × (answer.1.db.nodes ≡ calm.db.nodes)
    × (answer.1.db.subscriptions ≡ calm.db.subscriptions)
delete_user_example = delete_user_lem root 1 calm refl

-- Whole gigabytes from -100 upwards, with a gigabyte of one byte.
abbrev offset : Float
offset = record {
  F = ℕ;
  zero = 100;
  kilo = 101;
  add = λ a b. (a + b) - 100;
  sub = λ a b. (a + 100) - b;
  mul = λ a b. a;
  div = λ a b. a;
  max = λ a b. if ltb a b then b else a;
  lt = ltb;
  to_i64 = λ a. pos (a - 100);
  of_i64 = λ n. 100 + pos_part n;
}

-- Twenty gigabytes, of which twelve are used.
abbrev half_used : User ℕ
half_used = record alice { traffic_quota_gb = some 120 }

abbrev half_used_world : World ℕ
half_used_world = record calm { db = record small_db { users = half_used ∷ [] } }

-- Five gigabytes less.
adjust_user_quota_example :
    let by_key = λ (v : User ℕ). v.id in
    let answer = adjust_user_quota offset (day_at 2 0) (some root) 1 95 (settled half_used_world) in
    (is_allowed offset 1 half_used 95 half_used_world.db ≡ true
      → (answer.0 ≡ ok tt)
        × (find by_key 1 answer.1.db.users
            ≡ some (record half_used {
              traffic_quota_gb = some (asked offset half_used 95);
              updated_at = day_at 2 0;
            }))
        × ((j : ℕ)
            → (j == 1) ≡ false
            → find by_key j answer.1.db.users ≡ find by_key j half_used_world.db.users)
        × (record answer.1 { db = record answer.1.db { users = half_used_world.db.users } }
            ≡ settled half_used_world))
    × (is_allowed offset 1 half_used 95 half_used_world.db ≡ false
        → answer ≡ (err 400, settled half_used_world))
adjust_user_quota_example =
    adjust_user_quota_lem offset (day_at 2 0) root 1 half_used 95 half_used_world refl refl

granted : is_allowed offset 1 half_used 95 half_used_world.db ≡ true
unfolding bytes_to_gb wrap_i64 ◌+ℤ◌
granted = refl

abbrev rich_laptop : Client ℕ
rich_laptop = record laptop { traffic_quota_gb = some 900 }

adjust_ignores_clients_example :
    (adjust_user_quota offset (day_at 2 0) (some root) 1 95 (settled half_used_world)).0
    ≡ (adjust_user_quota offset (day_at 2 0) (some root) 1 95 (
        settled (record half_used_world {
          db = record half_used_world.db { clients = rich_laptop ∷ [] };
        }))).0
adjust_ignores_clients_example =
    adjust_ignores_clients offset (day_at 2 0) root 1 half_used 95 half_used_world
      (rich_laptop ∷ []) refl refl refl
