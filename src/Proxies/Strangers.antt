-- ===== src/Proxies/Strangers.antt =====
-- `batch_create_proxies` does not ask whose client it is.
use oxiproxy.Prelude.{
  ℕ, ◌≡◌, refl, Bool, true, false, not, Option, none, some, List, String, if◌then◌else◌, is_empty,
}
use oxiproxy.Prelude.Time.{DateTime}
use oxiproxy.Store.{Client, Proxy}
use oxiproxy.Handlers.{AuthUser, World, Act, ◌>>=◌, ◌>>◌, return, require}
use oxiproxy.Proxies.Batch.{
  BatchCreateProxyRequest, batch_shared, is_group_kind, fits, for_each, client_named,
  check_user_ports, check_port, check_batch_node, check_ports, create_all, batch_create_proxies,
}

module _ {F : Type 0} where
  else_same :
      {A : Type 0} (a b : Bool) (m k : Act F A)
      → a ≡ false
      → b ≡ false
      → (if a then m else k) ≡ (if b then m else k)
  else_same true b m k ha hb = absurd (cc)
  else_same false true m k ha hb = absurd (cc)
  else_same false false m k ha hb = refl

  no_node :
      (u v : AuthUser) (client : Client F) (o : Option ℕ)
      → o ≡ none
      → check_batch_node u client o ≡ check_batch_node v client o
  unfolding check_batch_node
  no_node u v client none e = refl
  no_node u v client (some n) e = absurd (cc)

module _ (next_key : List Proxy → ℕ) {F : Type 0} (u v : AuthUser) (req : BatchCreateProxyRequest)
    (plain_u : u.is_admin ≡ false) (plain_v : v.is_admin ≡ false)
    (unplaced : req.node_id ≡ none) where
  same_checks :
      (client : Client F)
      → check_ports u client req.node_id req.remote_ports (check_batch_node u client req.node_id)
        ≡ check_ports v client req.node_id req.remote_ports (check_batch_node v client req.node_id)
  same_checks client i =
      else_same u.is_admin v.is_admin (return tt) (check_user_ports client.user_id req.remote_ports)
        plain_u plain_v i
      >> (no_node u v client req.node_id unplaced i
          >> for_each (check_port req.node_id) req.remote_ports)

  -- For a request without a node, `batch_create_proxies` does for one user that is not an administrator
  -- exactly what it does for another, on the clients of either.
  pub batch_create_blind :
      (new_group : String) (now : DateTime) (w : World F)
      → batch_create_proxies next_key new_group (some u) req now w
        ≡ batch_create_proxies next_key new_group (some v) req now w
  unfolding batch_create_proxies
  batch_create_blind new_group now w i =
      (do
        require (is_group_kind req.proxy_type) 400
        require (not (is_empty req.remote_ports)) 400
        require (fits req.local_ports req.remote_ports) 400
        client ← client_named req.client_id
        same_checks client i
        create_all next_key (batch_shared new_group req now) req.local_ports req.remote_ports)
        w
