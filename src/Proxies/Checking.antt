-- ===== src/Proxies/Checking.antt =====
-- The checks of the proxy handlers only read.
use oxiproxy.Prelude.{ℕ, refl, Bool, Option, none, some, List, [], ◌∷◌, String, Text}
use oxiproxy.Prelude.Time.{DateTime}
use oxiproxy.Upstream.{UrlLibrary}
use oxiproxy.Store.{Client, Node, Proxy}
use oxiproxy.Limits.{Verdict, allowed, denied}
use oxiproxy.Limits.Looking.{
  validate_user_port_limit-Looks, validate_node_proxy_limit-Looks, get_user_port_limit_info-Looks,
  validate_node_proxy_limit_excluding-Looks,
}
use oxiproxy.Handlers.{AuthUser, Act}
use oxiproxy.Handlers.Reading.{
  Reads, reading, then-Reads, read_client-Reads, verify_proxy_ownership-Reads,
}
use oxiproxy.Proxies.{
  CreateProxyRequest, judged, check_route, client_for_text, client_for, check_limit,
  check_user_access, check_assigned, read_node, check_node_access, check_node_limit, give_key,
  admit_proxy,
}
use oxiproxy.Proxies.Updates.{
  UpdateProxyRequest, check_moved, check_direct, check_node_for, check_port_of, admit_update,
  read_proxy,
}
use oxiproxy.Proxies.Batch.{
  for_each, check_user_port, check_user_ports, check_port, check_batch_node, client_named,
  check_ports,
}

module _ {F : Type 0} where
  pub judged-Reads : (v : Verdict) → Reads (judged {F = F} v)
  judged-Reads allowed = search reading
  judged-Reads (denied r) = search reading

  pub check_route-Reads :
      (node_id : Option ℕ) (port : ℕ) (kind : String) (domain : Text) (exclude : ℕ)
      → Reads (check_route {F = F} node_id port kind domain exclude)
  unfolding check_route
  check_route-Reads node_id port kind domain exclude = search reading

  client_for_text-Reads : (text : Text) → Reads (client_for_text {F = F} text)
  client_for_text-Reads text = search (reading, read_client-Reads)

  pub client_for-Reads : (req : CreateProxyRequest) → Reads (client_for {F = F} req)
  unfolding client_for
  client_for-Reads req = search (reading, client_for_text-Reads)

  pub check_limit-Reads :
      (u : AuthUser) (client : Option (Client F)) (port : ℕ) → Reads (check_limit u client port)
  check_limit-Reads u client port = search (reading, validate_user_port_limit-Looks, judged-Reads)

  pub check_user_access-Reads :
      (u : AuthUser) (client : Option (Client F)) (port : ℕ)
      → Reads (check_user_access u client port)
  unfolding check_user_access
  check_user_access-Reads u client port = search (reading, check_limit-Reads)

  pub check_assigned-Reads :
      (u : AuthUser) (node_id : ℕ) (node : Node F) → Reads (check_assigned u node_id node)
  check_assigned-Reads u node_id node = search reading

  pub read_node-Reads : (node_id : ℕ) → Reads (read_node {F = F} node_id)
  read_node-Reads node_id = search reading

  pub check_node_access-Reads :
      (u : AuthUser) (node_id : Option ℕ) → Reads (check_node_access {F = F} u node_id)
  unfolding check_node_access
  check_node_access-Reads u none = search reading
  check_node_access-Reads u (some node_id) = search (reading, read_node-Reads, check_assigned-Reads)

  pub check_node_limit-Reads :
      (node_id : Option ℕ) (port : ℕ) → Reads (check_node_limit {F = F} node_id port)
  unfolding check_node_limit
  check_node_limit-Reads none port = search reading
  check_node_limit-Reads (some node_id) port =
      search (reading, validate_node_proxy_limit-Looks, judged-Reads)

  pub give_key-Reads :
      (next_key : List Proxy → ℕ) (row : ℕ → Proxy) → Reads (give_key {F = F} next_key row)
  unfolding give_key
  give_key-Reads next_key row = record { world = λ w. refl; calm = λ w e. e }

  check_moved-Reads : (u : AuthUser) (port : ℕ) → Reads (check_moved {F = F} u port)
  check_moved-Reads u port = search (reading, get_user_port_limit_info-Looks)

  check_node_for-Reads : (node_id port id : ℕ) → Reads (check_node_for {F = F} node_id port id)
  check_node_for-Reads node_id port id =
      search (reading, validate_node_proxy_limit_excluding-Looks, judged-Reads)

  check_direct-Reads :
      (u : AuthUser) (p : Proxy) (req : UpdateProxyRequest) (port : ℕ)
      → Reads (check_direct {F = F} u p req port)
  unfolding check_direct
  check_direct-Reads u p req port = search (reading, check_moved-Reads, check_node_for-Reads)

  pub check_port_of-Reads :
      (p : Proxy) (port : ℕ) (node_id : Option ℕ) → Reads (check_port_of {F = F} p port node_id)
  check_port_of-Reads p port none = search reading
  check_port_of-Reads p port (some node_id) = search (reading, check_node_for-Reads)

  pub read_proxy-Reads : (id : ℕ) → Reads (read_proxy {F = F} id)
  read_proxy-Reads id = search reading

  pub for_each-Reads {ℓ} :
      {A : Type ℓ} (act : A → Act F (Unit {0})) (xs : List A)
      → ((a : A) → Reads (act a))
      → Reads (for_each act xs)
  unfolding for_each
  for_each-Reads act [] h = search reading
  for_each-Reads act (a ∷ xs) h =
      then-Reads (act a) (for_each act xs) (h a) (for_each-Reads act xs h)

  check_user_port-Reads : (user_id port : ℕ) → Reads (check_user_port {F = F} user_id port)
  check_user_port-Reads user_id port =
      search (reading, validate_user_port_limit-Looks, judged-Reads)

  check_user_ports-Reads :
      (user_id : Option ℕ) (ports : List ℕ) → Reads (check_user_ports {F = F} user_id ports)
  unfolding check_user_ports
  check_user_ports-Reads none ports = search reading
  check_user_ports-Reads (some user_id) ports =
      for_each-Reads (check_user_port user_id) ports (check_user_port-Reads user_id)

  pub check_port-Reads : (node_id : Option ℕ) (port : ℕ) → Reads (check_port {F = F} node_id port)
  unfolding check_port
  check_port-Reads node_id port = search (reading, check_node_limit-Reads)

  pub check_batch_node-Reads :
      (u : AuthUser) (client : Client F) (node_id : Option ℕ)
      → Reads (check_batch_node u client node_id)
  unfolding check_batch_node
  check_batch_node-Reads u client none = search reading
  check_batch_node-Reads u client (some node_id) =
      search (reading, read_node-Reads, check_assigned-Reads)

  pub client_named-Reads : (text : Text) → Reads (client_named {F = F} text)
  unfolding client_named
  client_named-Reads text = search (reading, read_client-Reads)

  check_all-Reads :
      (node_id : Option ℕ) (ports : List ℕ) → Reads (for_each (check_port {F = F} node_id) ports)
  check_all-Reads node_id ports =
      for_each-Reads (check_port node_id) ports (check_port-Reads node_id)

  pub check_ports-Reads :
      (u : AuthUser) (client : Client F) (node_id : Option ℕ) (ports : List ℕ)
      (node_access : Act F (Unit {0}))
      → Reads node_access
      → Reads (check_ports u client node_id ports node_access)
  check_ports-Reads u client node_id ports node_access h =
      search (reading, check_user_ports-Reads, check_all-Reads)

module _ (is_ipv6 : Text → Bool) (lib : UrlLibrary) {F : Type 0} where
  pub admit_update-Reads :
      (u : AuthUser) (p : Proxy) (req : UpdateProxyRequest)
      → Reads (admit_update is_ipv6 lib {F = F} u p req)
  unfolding admit_update
  admit_update-Reads u p req =
      search
        (
          reading, verify_proxy_ownership-Reads, check_direct-Reads, check_route-Reads,
          check_port_of-Reads,
        )
        depth 40

module _ (is_ipv6 : Text → Bool) (lib : UrlLibrary) (next_key : List Proxy → ℕ) {F : Type 0} where
  pub admit_proxy-Reads :
      (u : AuthUser) (req : CreateProxyRequest) (now : DateTime)
      → Reads (admit_proxy is_ipv6 lib next_key {F = F} u req now)
  unfolding admit_proxy
  admit_proxy-Reads u req now =
      search
        (
          reading,
          client_for-Reads,
          check_user_access-Reads,
          check_node_access-Reads,
          check_node_limit-Reads,
          check_route-Reads,
          give_key-Reads next_key,
        )
        depth 40
