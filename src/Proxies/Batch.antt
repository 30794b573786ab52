-- ===== src/Proxies/Batch.antt =====
-- `batch_create_proxies` and `add_ports_to_proxy_group`: a row and a listener for each remote port, all
-- of them taken back when one fails. `new_group` is the UUID that a batch of several ports gets.
use oxiproxy.Prelude.{
  ℕ, Bool, true, false, not, ◌&&◌, ◌||◌, Option, none, some, List, [], ◌∷◌, ◌++◌, map, String,
  str_eq, Text, ltb, ◌==◌, opt_eq, if◌then◌else◌, is_empty, all, any, length, is_ascii_digit,
}
use oxiproxy.Prelude.Int.{pos}
use oxiproxy.Prelude.Time.{DateTime}
use oxiproxy.Store.{Client, Proxy}
use oxiproxy.Store.Queries.{query}
use oxiproxy.Limits.{id_text, validate_user_port_limit}
use oxiproxy.Handlers.{
  AuthUser, started, stopped, Act, ◌>>=◌, ◌>>◌, return, reject, require, or_reject, from_db, tried,
  control, notify, or_empty, parse_i64, read_client, verify_proxy_group_ownership,
}
use oxiproxy.Proxies.{
  judged, check_node_limit, check_assigned, read_node, append_proxy, remove_proxy, give_key,
}

pub record BatchCreateProxyRequest : Type 0 where
  pub client_id : Text
  pub name : Text
  pub proxy_type : String
  pub local_ip : String
  pub local_ports : List ℕ
  pub remote_ports : List ℕ
  pub node_id : Option ℕ

pub record AddPortsToGroupRequest : Type 0 where
  pub local_ports : List ℕ
  pub remote_ports : List ℕ

-- What the rows of one request share; the name depends on the remote port.
pub record Shared : Type 0 where
  pub client_id : Text
  pub name_for : ℕ → Text
  pub proxy_type : String
  pub local_ip : String
  pub node_id : Option ℕ
  pub group_id : Option String
  pub now : DateTime

abbrev pub is_group_kind : String → Bool
is_group_kind kind = str_eq kind "tcp" || str_eq kind "udp"

abbrev pub fits : List ℕ → List ℕ → Bool
fits local_ports remote_ports = length local_ports == 1 || length local_ports == length remote_ports

unfoldable pub zip_ports : List ℕ → List ℕ → List (ℕ × ℕ)
zip_ports [] remotes = []
zip_ports (l ∷ locals) [] = []
zip_ports (l ∷ locals) (r ∷ remotes) = (l, r) ∷ zip_ports locals remotes

-- The local and the remote port of each row; `fits` is checked before.
unfoldable pub port_pairs : List ℕ → List ℕ → List (ℕ × ℕ)
unfolding zip_ports
port_pairs (l ∷ []) remotes = map (λ r. (l, r)) remotes
port_pairs locals remotes = zip_ports locals remotes

abbrev pub with_port : Text → ℕ → Text
with_port name port = name ++ b'-' ∷ id_text port

abbrev pub batch_name : BatchCreateProxyRequest → ℕ → Text
batch_name req port = if length req.remote_ports == 1 then req.name else with_port req.name port

-- `rfind('-')`: what stands before the last dash and after it.
unfoldable pub split_last : Text → Option (Text × Text)
split_last [] = none
split_last (c ∷ s) = elim (split_last s) [
  | some parts ↦ some (c ∷ parts.0, parts.1)
  | none ↦ if c == b'-' then some ([], s) else none
]

abbrev pub base_name : Text → Text
base_name name = elim (split_last name) [
  | some parts ↦ if all is_ascii_digit parts.1 then parts.0 else name
  | none ↦ name
]

abbrev pub is_taken : Option ℕ → ℕ → Proxy → Bool
is_taken node_id port p = p.remote_port == port && p.enabled && opt_eq p.node_id node_id

abbrev pub batch_row : Shared → ℕ × ℕ → ℕ → Proxy
batch_row shared ports key = record {
  id = key;
  client_id = some shared.client_id;
  user_id = none;
  upstream_url = [];
  name = shared.name_for ports.1;
  proxy_type = shared.proxy_type;
  domain = [];
  local_ip = shared.local_ip;
  local_port = ports.0;
  remote_port = ports.1;
  enabled = true;
  node_id = shared.node_id;
  group_id = shared.group_id;
  total_bytes_sent = pos 0;
  total_bytes_received = pos 0;
  created_at = shared.now;
  updated_at = shared.now;
}

abbrev pub batch_shared : String → BatchCreateProxyRequest → DateTime → Shared
batch_shared new_group req now = record {
  client_id = req.client_id;
  name_for = batch_name req;
  proxy_type = req.proxy_type;
  local_ip = req.local_ip;
  node_id = req.node_id;
  group_id = if ltb 1 (length req.remote_ports) then some new_group else none;
  now = now;
}

-- The first proxy of the group is the pattern for the new ones.
abbrev pub group_shared : String → Proxy → DateTime → Shared
group_shared group template now = record {
  client_id = or_empty template.client_id;
  name_for = with_port (base_name template.name);
  proxy_type = template.proxy_type;
  local_ip = template.local_ip;
  node_id = template.node_id;
  group_id = some group;
  now = now;
}

module _ {F : Type 0} where
  unfoldable pub for_each {ℓ} : {A : Type ℓ} → (A → Act F (Unit {0})) → List A → Act F (Unit {0})
  for_each act [] = return tt
  for_each act (a ∷ as') = do act a; for_each act as'

  abbrev pub check_user_port : ℕ → ℕ → Act F (Unit {0})
  check_user_port user_id port = do
    verdict ← from_db (validate_user_port_limit user_id port)
    judged verdict

  -- The limits are those of the client's user, whoever calls.
  unfoldable pub check_user_ports : Option ℕ → List ℕ → Act F (Unit {0})
  unfolding for_each
  check_user_ports none ports = return tt
  check_user_ports (some user_id) ports = for_each (check_user_port user_id) ports

  unfoldable pub check_port : Option ℕ → ℕ → Act F (Unit {0})
  check_port node_id port = do
    check_node_limit node_id port
    taken ← from_db (query (λ db. any (is_taken node_id port) db.proxies))
    require (not taken) 409

  unfoldable pub check_batch_node : AuthUser → Client F → Option ℕ → Act F (Unit {0})
  check_batch_node u client none = return tt
  check_batch_node u client (some node_id) = do
    node ← read_node node_id
    if str_eq node.node_type "dedicated" && not u.is_admin
        then require (opt_eq client.user_id (some u.id)) 403
        else return tt
    check_assigned u node_id node

  abbrev pub take_back_one : Text → Proxy → Act F (Unit {0})
  take_back_one client_id p = do
    _ ← control (stopped client_id p.id)
    _ ← tried (remove_proxy p.id)
    return tt

  unfoldable pub take_back : Text → List Proxy → Act F (Unit {0})
  unfolding for_each
  take_back client_id ps = for_each (take_back_one client_id) ps

  unfoldable pub client_named : Text → Act F (Client F)
  client_named text = do id ← or_reject (parse_i64 text) 400; read_client id

  -- The checks that both handlers make once they know the client.
  abbrev pub check_ports :
      AuthUser → Client F → Option ℕ → List ℕ → Act F (Unit {0}) → Act F (Unit {0})
  check_ports u client node_id ports node_access = do
    if u.is_admin then return tt else check_user_ports client.user_id ports
    node_access
    for_each (check_port node_id) ports

module _ (next_key : List Proxy → ℕ) {F : Type 0} where
  -- The rows one after the other, `created` are those before.
  unfoldable pub create_rows : Shared → List Proxy → List (ℕ × ℕ) → Act F (List Proxy)
  unfolding take_back
  create_rows shared created [] = return created
  create_rows shared created (ports ∷ rest) = do
    p ← give_key next_key (batch_row shared ports)
    inserted ← tried (append_proxy p)
    elim inserted [
      | false ↦ do take_back shared.client_id created; reject 500
      | true ↦ do
        running ← control (started shared.client_id p.id)
        elim running [
          | true ↦ create_rows shared (created ++ p ∷ []) rest
          | false ↦ do take_back shared.client_id created; _ ← tried (remove_proxy p.id); reject 409
        ]
    ]

  abbrev pub create_all : Shared → List ℕ → List ℕ → Act F (List Proxy)
  create_all shared local_ports remote_ports = do
    created ← create_rows shared [] (port_pairs local_ports remote_ports)
    notify shared.client_id
    return created

  abbrev pub batch_for : String → AuthUser → BatchCreateProxyRequest → DateTime → Act F (List Proxy)
  batch_for new_group u req now = do
    require (is_group_kind req.proxy_type) 400
    require (not (is_empty req.remote_ports)) 400
    require (fits req.local_ports req.remote_ports) 400
    client ← client_named req.client_id
    check_ports u client req.node_id req.remote_ports (check_batch_node u client req.node_id)
    create_all (batch_shared new_group req now) req.local_ports req.remote_ports

  unfoldable pub batch_create_proxies :
      String → Option AuthUser → BatchCreateProxyRequest → DateTime → Act F (List Proxy)
  unfolding client_named check_user_ports check_port check_batch_node create_rows
  batch_create_proxies new_group none req now = reject 401
  batch_create_proxies new_group (some u) req now = batch_for new_group u req now

  abbrev pub add_ports_for :
      AuthUser → String → AddPortsToGroupRequest → DateTime → Act F (List Proxy)
  add_ports_for u group req now = do
    require (not (is_empty req.remote_ports)) 400
    require (fits req.local_ports req.remote_ports) 400
    existing ← verify_proxy_group_ownership u group
    let shared = group_shared group existing.0 now
    client ← client_named shared.client_id
    check_ports u client shared.node_id req.remote_ports (return tt)
    create_all shared req.local_ports req.remote_ports

  unfoldable pub add_ports_to_proxy_group :
      Option AuthUser → String → AddPortsToGroupRequest → DateTime → Act F (List Proxy)
  unfolding client_named check_user_ports check_port create_rows
  add_ports_to_proxy_group none group req now = reject 401
  add_ports_to_proxy_group (some u) group req now = add_ports_for u group req now
