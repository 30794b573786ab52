-- ===== src/Limits.antt =====
-- The admission checks of a new proxy: controller/src/port_limiter.rs for the user's limits and
-- controller/src/node_limiter.rs for the node's. A `(bool, String)` result is a `Verdict`.
pub mod Users
pub mod Nodes
pub mod Looking
pub mod Decimals
mod Tests
use oxiproxy.Prelude.{
  ℕ, zero, suc, ◌+◌, ◌/◌, ◌%◌, Bool, true, false, not, ◌&&◌, ◌||◌, Option, none, some, List, [],
  ◌∷◌, map, Text, text_eq, leb, ltb, ◌==◌, opt_eq, if◌then◌else◌, is_empty, any, filter, length,
  Result, ok, err,
}
use oxiproxy.Prelude.Int.{ℤ, as_u64}
use oxiproxy.Ports.{RangeError, parse_port_ranges, is_port_in_ranges}
use oxiproxy.Store.{User, Client, Node, Proxy, Db}
use oxiproxy.Store.Rows.{find}
use oxiproxy.Store.Queries.{M, Error, user_missing, ◌>>=◌, return, fail, query}

pub data Reason : Type 0 where
  no_user no_node traffic_exceeded port_not_allowed : Reason
  bad_ranges : RangeError → Reason
  limit_reached : ℕ → Reason

pub data Verdict : Type 0 where
  allowed : Verdict
  denied : Reason → Verdict

-- `i64::to_string` of a key.
decimal_from : ℕ → ℕ → Text → Text
decimal_from zero n out = out
decimal_from (suc fuel) n out =
    let longer = decimal_from fuel (n / 10) ((b'0' + n % 10) ∷ out) in
    if ltb n 10 then (b'0' + n % 10) ∷ out else longer

pub id_text : ℕ → Text
unfolding decimal_from
id_text n = decimal_from (suc n) n []

abbrev pub is_some_and {ℓ} : {A : Type ℓ} → Option A → (A → Bool) → Bool
is_some_and none p = false
is_some_and (some a) p = p a

-- The rows that `get_user_port_count` counts: the proxies of the user's clients, and the user's
-- own direct proxies.
pub counts_for : ℕ → List ℕ → Proxy → Bool
unfolding id_text
counts_for user_id client_ids p =
    is_some_and p.client_id (λ c. any (λ id. text_eq c (id_text id)) client_ids)
    || (not (is_some_and p.client_id (λ c. true)) && opt_eq p.user_id (some user_id))

-- The first half of the check: does the range text allow the port.
pub range_verdict : ℕ → Text → Verdict
range_verdict port text = elim (parse_port_ranges text) [
  | err e ↦ denied (bad_ranges e)
  | ok ranges ↦ if is_port_in_ranges port ranges then allowed else denied port_not_allowed
]

abbrev count_verdict : ℕ → ℤ → Verdict
count_verdict count most = if leb (as_u64 most) count then denied (limit_reached count) else allowed

abbrev user_range_verdict : ℕ → Option Text → Verdict
user_range_verdict port none = allowed
user_range_verdict port (some text) = range_verdict port text

-- An empty text is no restriction here.
abbrev node_range_verdict : ℕ → Option Text → Verdict
node_range_verdict port none = allowed
node_range_verdict port (some text) = if is_empty text then allowed else range_verdict port text

-- The rows counted against a node's limit.
abbrev pub uses_node : ℕ → ℕ → Proxy → Bool
uses_node node_id exclude p = opt_eq p.node_id (some node_id) && p.enabled && not (p.id == exclude)

module _ {F : Type 0} where
  -- controller/src/subscription_quota.rs: the quota is already merged into the user's fields.
  abbrev pub get_user_final_quota : User F → Option F × Option ℤ × Option ℤ × Option ℤ
  get_user_final_quota u =
      (u.traffic_quota_gb, u.max_port_count, u.max_node_count, u.max_client_count)

  pub get_user_port_count : ℕ → M F ℕ
  get_user_port_count user_id = do
    clients ← query (λ db. filter (λ c. opt_eq c.user_id (some user_id)) db.clients)
    query (λ db. length (filter (counts_for user_id (map (λ c. c.id) clients)) db.proxies))

  check_user_count : ℕ → Option ℤ → M F Verdict
  unfolding get_user_port_count
  check_user_count user_id none = return allowed
  check_user_count user_id (some most) = do
    count ← get_user_port_count user_id
    return (count_verdict count most)

  check_user : ℕ → ℕ → Option (User F) → M F Verdict
  unfolding check_user_count
  check_user user_id port none = return (denied no_user)
  check_user user_id port (some u) = elim (user_range_verdict port u.allowed_port_range) [
    | denied r ↦ return (denied r)
    | allowed ↦ check_user_count user_id (get_user_final_quota u).1
  ]

  unfoldable pub validate_user_port_limit : ℕ → ℕ → M F Verdict
  unfolding check_user
  validate_user_port_limit user_id port = do
    user ← query (λ db. find (λ (u : User F). u.id) user_id db.users)
    check_user user_id port user

  -- The user's limits for display: `None` for a user that is not there.
  user_limit_info : ℕ → Option (User F) → M F (Option ℤ × Option Text × ℕ)
  unfolding get_user_port_count
  user_limit_info user_id none = fail user_missing
  user_limit_info user_id (some u) = do
    count ← get_user_port_count user_id
    return (u.max_port_count, u.allowed_port_range, count)

  pub get_user_port_limit_info : ℕ → M F (Option ℤ × Option Text × ℕ)
  unfolding user_limit_info
  get_user_port_limit_info user_id = do
    user ← query (λ db. find (λ (u : User F). u.id) user_id db.users)
    user_limit_info user_id user

  check_node_count : ℕ → ℕ → Option ℤ → M F Verdict
  check_node_count node_id exclude none = return allowed
  check_node_count node_id exclude (some most) = do
    count ← query (λ db. length (filter (uses_node node_id exclude) db.proxies))
    return (count_verdict count most)

  check_node : ℕ → ℕ → ℕ → Option (Node F) → M F Verdict
  unfolding check_node_count
  check_node node_id port exclude none = return (denied no_node)
  check_node node_id port exclude (some n) =
      if n.is_traffic_exceeded
      then return (denied traffic_exceeded)
      else elim (node_range_verdict port n.allowed_port_range) [
        | denied r ↦ return (denied r)
        | allowed ↦ check_node_count node_id exclude n.max_proxy_count
      ]

  unfoldable pub validate_node_proxy_limit_excluding : ℕ → ℕ → ℕ → M F Verdict
  unfolding check_node
  validate_node_proxy_limit_excluding node_id port exclude = do
    node ← query (λ db. find (λ (n : Node F). n.id) node_id db.nodes)
    check_node node_id port exclude node

  unfoldable pub validate_node_proxy_limit : ℕ → ℕ → M F Verdict
  unfolding validate_node_proxy_limit_excluding
  validate_node_proxy_limit node_id port = validate_node_proxy_limit_excluding node_id port 0
