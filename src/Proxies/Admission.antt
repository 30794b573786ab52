-- ===== src/Proxies/Admission.antt =====
-- Whom `create_proxy` admits: what its checks together say of a user that is not an administrator.
use oxiproxy.Prelude.{
  ℕ, ◌≡◌, refl, sym, ap, ◌∙◌, inl, inr, Bool, true, false, Option, none, some, List, Text, opt_eq,
  Bool-cases, ok,
}
use oxiproxy.Prelude.Int.{ℤ}
use oxiproxy.Prelude.Time.{DateTime}
use oxiproxy.Upstream.{UrlLibrary}
use oxiproxy.Store.{Client, Proxy, Db}
use oxiproxy.Store.Looking.{still}
use oxiproxy.Limits.Users.{UserAllows}
use oxiproxy.Limits.Nodes.{NodeAllows}
use oxiproxy.Handlers.{
  AuthUser, World, return, or_reject, or_empty, parse_i64, read_client, find_signed,
}
use oxiproxy.Handlers.Reading.{reading, settled, bind-ok, read_client-Reads}
use oxiproxy.Handlers.Yielding.{Yields, bind-Yields, keep-Yields, learn-Yields, lookup-Yields}
use oxiproxy.Proxies.{
  CreateProxyRequest, is_direct, owns_client, client_for_text, client_for, admit_proxy,
  create_proxy,
}
use oxiproxy.Proxies.Checking.{
  check_user_access-Reads, check_node_access-Reads, check_node_limit-Reads, check_route-Reads,
  give_key-Reads, admit_proxy-Reads,
}
use oxiproxy.Proxies.Granting.{
  user_awake, node_awake, returned_same, check_user_access-Yields, Assigned, node_access,
  node_limit,
}

module _ {F : Type 0} where
  -- The client that the request names is there, and is the user's.
  pub record OwnClient (db : Db F) (u : AuthUser) (text : Text) : Type 0 where
    pub id : ℤ
    pub parsed : parse_i64 text ≡ some id
    pub client : Client F
    pub listed : find_signed id db.clients ≡ some client
    pub owned : opt_eq client.user_id (some u.id) ≡ true

  -- What a user that is not an administrator needs for a new proxy.
  pub record MayCreate (db : Db F) (u : AuthUser) (req : CreateProxyRequest) : Type 0 where
    pub client : is_direct req ≡ false → OwnClient db u (or_empty req.client_id)
    pub limits : UserAllows db u.id req.remote_port
    pub node :
        (node_id : ℕ)
        → req.node_id ≡ some node_id
        → Assigned db u node_id × NodeAllows db node_id req.remote_port 0

  Named : CreateProxyRequest → Option (Client F) → World F → Type 0
  Named req client w =
      is_direct req ≡ false
      → (id : ℤ) × (c : Client F) × (client ≡ some c)
        × (parse_i64 (or_empty req.client_id) ≡ some id)
        × (find_signed id w.db.clients ≡ some c)

  pub read_client-Yields :
      (id : ℤ) → Yields (λ c w. find_signed id w.db.clients ≡ some c) (read_client {F = F} id)
  unfolding read_client
  read_client-Yields id = lookup-Yields (λ db. find_signed id db.clients) 404 (λ db. refl)

  pub parsed-Yields :
      (o : Option ℤ) (code : ℕ) → Yields (λ id (w : World F). o ≡ some id) (or_reject o code)
  unfolding or_reject
  parsed-Yields none code = record { after = λ w w1 id e. absurd (cc) }
  parsed-Yields (some n) code = record { after = λ w w1 id e. cc }

  client_for_text-Yields :
      (text : Text)
      → Yields
          (λ client (w : World F).
            (id : ℤ) × (c : Client F) × (client ≡ some c)
            × (parse_i64 text ≡ some id)
            × (find_signed id w.db.clients ≡ some c))
          (client_for_text text)
  client_for_text-Yields text =
      learn-Yields (λ id w. parse_i64 text ≡ some id) _ (parsed-Yields (parse_i64 text) 400) _ _
        (λ id. search (reading, read_client-Reads))
        (λ id.
          learn-Yields (λ c w. find_signed id w.db.clients ≡ some c) _ (read_client-Yields id) _ _
            (λ c. search reading)
            (λ c. record {
              after = λ w w1 o e listed parsed. (id, c, returned w w1 c o e, parsed, listed);
            }))
    where
      returned :
          (w w1 : World F) (c : Client F) (o : Option (Client F))
          → return (some c) w ≡ (ok o, w1)
          → o ≡ some c
      returned w w1 c o e = returned_same (some c) o w w1 e

  client_for-Yields :
      (req : CreateProxyRequest) → Yields (λ client w. Named req client w) (client_for {F = F} req)
  unfolding client_for Named
  client_for-Yields req = elim (Bool-cases (is_direct req)) [
    | inl direct ↦ record { after = λ w w1 o e not_direct. absurd (cc (sym direct ∙ not_direct)) }
    | inr tunnel ↦ rw tunnel (record {
      after = λ w w1 o e _. (client_for_text-Yields (or_empty req.client_id)).after w w1 o e;
    })
  ]

  Named-settled :
      (req : CreateProxyRequest)
      → Yields (λ client w. Named req client (settled w)) (client_for {F = F} req)
  unfolding Named
  Named-settled req = record { after = λ w w1 o e. (client_for-Yields req).after w w1 o e }

  may_create :
      (u : AuthUser) (req : CreateProxyRequest) (client : Option (Client F)) (db : Db F)
      → ((n : ℕ) → req.node_id ≡ some n → NodeAllows db n req.remote_port 0)
      → ((n : ℕ) → req.node_id ≡ some n → Assigned db u n)
      → (u.is_admin ≡ false → (owns_client u client ≡ true) × UserAllows db u.id req.remote_port)
      → (is_direct req ≡ false
          → (id : ℤ) × (c : Client F) × (client ≡ some c)
            × (parse_i64 (or_empty req.client_id) ≡ some id)
            × (find_signed id db.clients ≡ some c))
      → u.is_admin ≡ false
      → MayCreate db u req
  may_create u req client db limit access user named plain = record {
    client = λ tunnel.
        let (id, c, same, parsed, listed) = named tunnel in
        record {
          id = id;
          parsed = parsed;
          client = c;
          listed = listed;
          owned = rw same at (user plain).0;
        };
    limits = (user plain).1;
    node = λ n e. (access n e, limit n e);
  }

module _ (is_ipv6 : Text → Bool) (lib : UrlLibrary) (next_key : List Proxy → ℕ) {F : Type 0} where
  abbrev Admits : AuthUser → CreateProxyRequest → Proxy → World F → Type 0
  Admits u req p w = u.is_admin ≡ false → MayCreate (still w.db) u req

  admit_proxy-Admits :
      (u : AuthUser) (req : CreateProxyRequest) (now : DateTime)
      → Yields (Admits u req) (admit_proxy is_ipv6 lib next_key {F = F} u req now)
  unfolding admit_proxy Named
  admit_proxy-Admits u req now = bind-Yields _ _ _ (λ upstream_url.
      learn-Yields (Named req) (client_for req) (Named-settled req) _ _
        (λ client.
          search
            (
              reading, check_user_access-Reads, check_node_access-Reads, check_node_limit-Reads,
              check_route-Reads, give_key-Reads,
            )
            depth 30)
        (λ client.
          keep-Yields
            (λ w.
              u.is_admin ≡ false
              → (owns_client u client ≡ true) × UserAllows w.db u.id req.remote_port)
            _ (check_user_access-Yields u client req.remote_port) _ _
            (search
              (
                reading, check_node_access-Reads, check_node_limit-Reads, check_route-Reads,
                give_key-Reads,
              )
              depth 30)
            (keep-Yields (λ w. (n : ℕ) → req.node_id ≡ some n → Assigned w.db u n) _
              (node_access u req.node_id) _ _
              (search (reading, check_node_limit-Reads, check_route-Reads, give_key-Reads) depth 30)
              (keep-Yields
                (λ w. (n : ℕ) → req.node_id ≡ some n → NodeAllows w.db n req.remote_port 0) _
                (node_limit req.remote_port req.node_id) _ _
                (search (reading, check_route-Reads, give_key-Reads) depth 30)
                (record {
                  after = λ w w1 p e limit access user named plain.
                      may_create u req client (still w1.db) limit access user named plain;
                })))))

  create_admitted :
      (u : AuthUser) (req : CreateProxyRequest) (now : DateTime) (w w2 : World F) (p : Proxy)
      → create_proxy is_ipv6 lib next_key (some u) req now w ≡ (ok p, w2)
      → u.is_admin ≡ false
      → MayCreate (still w.db) u req
  unfolding create_proxy
  create_admitted u req now w w2 p e plain =
      let (q, w1, admitted, rest) =
        bind-ok (admit_proxy is_ipv6 lib next_key u req now) _ w w2 p e in
      let back : settled w1 ≡ settled w =
        rw admitted at ((admit_proxy-Reads is_ipv6 lib next_key u req now).world w) in
      let there : still w1.db ≡ still w.db = ap (λ (v : World F). v.db) back in
      rw there at ((admit_proxy-Admits u req now).after w w1 q admitted plain)

  -- If `create_proxy` succeeds for a user that is not an administrator, whatever queries failed on the
  -- way, then the client of the request is there and the user's own (unless the proxy is a direct
  -- one), the user's limits allow the port, and the node of the request, if it names one, is there,
  -- has room for the port, and is assigned to the user if it is a dedicated one.
  pub create_proxy_admits :
      (u : AuthUser) (req : CreateProxyRequest) (now : DateTime) (w w2 : World F) (p : Proxy)
      → create_proxy is_ipv6 lib next_key (some u) req now w ≡ (ok p, w2)
      → u.is_admin ≡ false
      → MayCreate w.db u req
  create_proxy_admits u req now w w2 p e plain =
      let may = create_admitted u req now w w2 p e plain in
      record {
        client = λ tunnel.
            let c = may.client tunnel in
            record {
              id = c.id;
              parsed = c.parsed;
              client = c.client;
              listed = c.listed;
              owned = c.owned;
            };
        limits = user_awake w.db u.id req.remote_port may.limits;
        node = λ n same.
            let (a, allows) = may.node n same in
            (
              record { node = a.node; listed = a.listed; assigned = a.assigned },
              node_awake w.db n req.remote_port allows,
            );
      }
