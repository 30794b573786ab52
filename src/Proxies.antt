-- ===== src/Proxies.antt =====
-- controller/src/api/handlers/proxy.rs: the handlers that create, change and delete proxies. Each
-- is composed of the same steps in the same order; an early return is a `reject` with its status.
-- `next_key` is the key that the database gives to a new row, `lib` the URL library.
pub mod Updates
pub mod Batch
pub mod Groups
pub mod Checking
pub mod Separate
pub mod Routing
pub mod Reverting
pub mod Changing
pub mod Granting
pub mod Admission
pub mod Ownership
pub mod Strangers
pub mod Naming
pub mod Reachable
pub mod Batching
pub mod Distinctness
pub mod GroupOwnership
pub mod Rollback
pub mod Atomicity
mod Tests
use oxiproxy.Prelude.{
  ℕ, Bool, true, false, not, ◌&&◌, ◌||◌, Option, none, some, List, [], ◌∷◌, ◌++◌, String, str_eq,
  codes, Text, ◌==◌, opt_eq, if◌then◌else◌, is_empty, any, filter, Result, ok, err,
}
use oxiproxy.Prelude.Int.{ℤ, pos}
use oxiproxy.Prelude.Time.{DateTime}
use oxiproxy.Domain.{DomainError, validate_route, routes_conflict}
use oxiproxy.Upstream.{UrlLibrary, UpstreamError, parse_upstream}
use oxiproxy.Store.{Client, Node, Proxy, TrafficDaily, UserNode, Db}
use oxiproxy.Store.Rows.{find, delete_row}
use oxiproxy.Store.Queries.{M, query, write}
use oxiproxy.Limits.{Verdict, allowed, denied, validate_user_port_limit, validate_node_proxy_limit}
use oxiproxy.Handlers.{
  AuthUser, Call, started, stopped, World, Act, ◌>>=◌, ◌>>◌, return, reject, require, or_reject,
  from_result, from_db, tried, control, notify, or_empty, is_some, parse_i64, read_client,
}

pub record CreateProxyRequest : Type 0 where
  pub client_id : Option Text
  pub upstream_url : Text
  pub name : Text
  pub proxy_type : String
  pub domain : Text
  pub local_ip : String
  pub local_port : ℕ
  pub remote_port : ℕ
  pub node_id : Option ℕ

abbrev pub is_web_kind : String → Bool
is_web_kind kind = str_eq kind "http" || str_eq kind "https"

abbrev pub is_direct : CreateProxyRequest → Bool
is_direct req = not (is_empty req.upstream_url)

-- Every error of a validator is a 400.
abbrev pub or_bad_request {ℓ} : {E : Type ℓ} {A : Type 0} → Result E A → Result ℕ A
or_bad_request (ok a) = ok a
or_bad_request (err e) = err 400

abbrev pub as_text : {U : Type 0} → (U → Text) → Result UpstreamError U → Result ℕ Text
as_text to_text (ok url) = ok (to_text url)
as_text to_text (err e) = err 400

-- The enabled proxies on a node's port, without the one with the key `exclude`.
abbrev pub on_port : Option ℕ → ℕ → ℕ → Proxy → Bool
on_port node_id port exclude p =
    p.remote_port == port && p.enabled && not (p.id == exclude) && opt_eq p.node_id node_id

abbrev pub conflicts_with : String → Text → Proxy → Bool
conflicts_with kind domain other = routes_conflict kind domain other.proxy_type other.domain

-- A proxy of a client is not the user's own if it has a client and the client is another user's.
abbrev pub owns_client : {F : Type 0} → AuthUser → Option (Client F) → Bool
owns_client u none = true
owns_client u (some c) = opt_eq c.user_id (some u.id)

abbrev pub is_assigned : ℕ → ℕ → UserNode → Bool
is_assigned user_id node_id a = a.user_id == user_id && a.node_id == node_id

abbrev pub first_of : {A : Type 0} → List A → Option A
first_of [] = none
first_of (a ∷ as') = some a

module _ {F : Type 0} where
  abbrev pub judged : Verdict → Act F (Unit {0})
  judged allowed = return tt
  judged (denied reason) = reject 403

  pub check_route : Option ℕ → ℕ → String → Text → ℕ → Act F (Unit {0})
  check_route node_id port kind domain exclude = do
    existing ← from_db (query (λ db. filter (on_port node_id port exclude) db.proxies))
    require (not (any (conflicts_with kind domain) existing)) 409

  abbrev client_for_text : Text → Act F (Option (Client F))
  client_for_text text = do
    id ← or_reject (parse_i64 text) 400
    client ← read_client id
    return (some client)

  pub client_for : CreateProxyRequest → Act F (Option (Client F))
  unfolding read_client
  client_for req = if is_direct req then return none else client_for_text (or_empty req.client_id)

  abbrev check_limit : AuthUser → Option (Client F) → ℕ → Act F (Unit {0})
  check_limit u client remote_port = do
    require (owns_client u client) 403
    verdict ← from_db (validate_user_port_limit u.id remote_port)
    judged verdict

  pub check_user_access : AuthUser → Option (Client F) → ℕ → Act F (Unit {0})
  check_user_access u client remote_port =
      if u.is_admin then return tt else check_limit u client remote_port

  -- A dedicated node is for the users that it is assigned to.
  abbrev pub check_assigned : AuthUser → ℕ → Node F → Act F (Unit {0})
  check_assigned u node_id node =
      if str_eq node.node_type "dedicated" && not u.is_admin
      then (do
        assigned ←
            from_db (query (λ db. first_of (filter (is_assigned u.id node_id) db.user_nodes)))
        require (is_some assigned) 403)
      else return tt

  abbrev pub read_node : ℕ → Act F (Node F)
  read_node node_id = do
    node ← from_db (query (λ db. find (λ (n : Node F). n.id) node_id db.nodes))
    or_reject node 404

  pub check_node_access : AuthUser → Option ℕ → Act F (Unit {0})
  check_node_access u none = return tt
  check_node_access u (some node_id) = do node ← read_node node_id; check_assigned u node_id node

  pub check_node_limit : Option ℕ → ℕ → Act F (Unit {0})
  check_node_limit none remote_port = return tt
  check_node_limit (some node_id) remote_port = do
    verdict ← from_db (validate_node_proxy_limit node_id remote_port)
    judged verdict

  abbrev pub append_proxy : Proxy → M F (Unit {0})
  append_proxy p = write (λ db. record db { proxies = db.proxies ++ p ∷ [] })

  -- The row, and the daily traffic that names it: the foreign key of that table cascades.
  abbrev pub remove_proxy : ℕ → M F (Unit {0})
  remove_proxy id = write λ db. record db {
    proxies = delete_row (λ (p : Proxy). p.id) id db.proxies;
    traffic_daily = filter (λ (t : TrafficDaily). not (t.proxy_id == id)) db.traffic_daily;
  }

  -- A refused start deletes the row again; the error of that is dropped.
  abbrev after_start : Proxy → Bool → Act F (Unit {0})
  after_start p true = return tt
  after_start p false = do _ ← tried (remove_proxy p.id); reject 409

  unfoldable pub launch : Proxy → Act F (Unit {0})
  launch p = do
    from_db (append_proxy p)
    running ← control (started (or_empty p.client_id) p.id)
    after_start p running

  abbrev pub notify_some : Option Text → Act F (Unit {0})
  notify_some none = return tt
  notify_some (some client_id) = notify client_id

-- The upstream that is stored: none for a tunnel. A direct proxy has a node and no client.
abbrev pub upstream_for : UrlLibrary → CreateProxyRequest → Result ℕ Text
upstream_for lib req =
    if is_direct req
    then (if not (is_empty (or_empty req.client_id)) || not (is_some req.node_id)
        then err 400
        else as_text lib.to_text (parse_upstream lib (codes req.proxy_type) req.upstream_url))
    else ok []

abbrev pub new_proxy : AuthUser → CreateProxyRequest → Text → Text → DateTime → ℕ → Proxy
new_proxy u req upstream_url domain now key = record {
  id = key;
  client_id = if is_direct req then none else req.client_id;
  user_id = if is_direct req then some u.id else none;
  upstream_url = upstream_url;
  name = req.name;
  proxy_type = req.proxy_type;
  domain = domain;
  local_ip = req.local_ip;
  local_port = req.local_port;
  remote_port = req.remote_port;
  enabled = true;
  node_id = req.node_id;
  group_id = none;
  total_bytes_sent = pos 0;
  total_bytes_received = pos 0;
  created_at = now;
  updated_at = now;
}

-- The row with the key that the database gives it.
unfoldable pub give_key : {F : Type 0} → (List Proxy → ℕ) → (ℕ → Proxy) → Act F Proxy
give_key next_key row w = (ok (row (next_key w.db.proxies)), w)

module _ (is_ipv6 : Text → Bool) (lib : UrlLibrary) (next_key : List Proxy → ℕ) {F : Type 0} where
  -- The checks, in the order of the code, up to the row that is to be inserted.
  unfoldable pub admit_proxy : AuthUser → CreateProxyRequest → DateTime → Act F Proxy
  unfolding client_for check_user_access check_node_access check_node_limit check_route
  admit_proxy u req now = do
    upstream_url ← from_result (upstream_for lib req)
    client ← client_for req
    check_user_access u client req.remote_port
    check_node_access u req.node_id
    check_node_limit req.node_id req.remote_port
    domain ← from_result (or_bad_request (validate_route is_ipv6 req.proxy_type req.domain))
    require (not (req.remote_port == 0 || (not (is_direct req) && req.local_port == 0))) 400
    check_route req.node_id req.remote_port req.proxy_type domain 0
    give_key next_key (new_proxy u req upstream_url domain now)

  abbrev create_for : AuthUser → CreateProxyRequest → DateTime → Act F Proxy
  create_for u req now = do p ← admit_proxy u req now; launch p; notify_some req.client_id; return p

  unfoldable pub create_proxy : Option AuthUser → CreateProxyRequest → DateTime → Act F Proxy
  unfolding admit_proxy launch
  create_proxy none req now = reject 401
  create_proxy (some u) req now = create_for u req now
