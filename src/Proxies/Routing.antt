-- ===== src/Proxies/Routing.antt =====
-- `create_proxy`, `update_proxy` and `delete_proxy` keep the routes of the enabled proxies apart, whatever
-- queries fail and whatever listeners refuse to start.
use oxiproxy.Prelude.{
  ℕ, ◌<◌, ◌≡◌, refl, ◌∙◌, Bool, true, false, Option, none, some, List, [], ◌∷◌, ◌++◌, arith, String,
  Text, ◌==◌, any, filter, All,
}
use oxiproxy.Prelude.Time.{DateTime}
use oxiproxy.Upstream.{UrlLibrary}
use oxiproxy.Store.{Proxy}
use oxiproxy.Store.Rows.{delete_row}
use oxiproxy.Store.Queries.{query}
use oxiproxy.Handlers.{AuthUser, World, ◌>>=◌, ◌>>◌, reject, require, from_db}
use oxiproxy.Handlers.Reading.{reading}
use oxiproxy.Handlers.Yielding.{Yields, bind-Yields, then-Yields, keep-Yields}
use oxiproxy.Handlers.Keeping.{
  Turns, Reads-Turns, bind-Turns, then-Turns, write-Turns, tried-Turns, control-Turns, notify-Turns,
  found-Turns,
}
use oxiproxy.Proxies.{
  CreateProxyRequest, check_route, on_port, conflicts_with, give_key, new_proxy, after_start,
  launch, notify_some, admit_proxy, create_for, create_proxy,
}
use oxiproxy.Proxies.Checking.{admit_proxy-Reads, give_key-Reads}
use oxiproxy.Proxies.Separate.{
  clashes, clashes_comm, Apart, Separate, Separate-filter, Separate-append, route_free,
  Separate-positive, All-both,
}

-- What the database promises of the key of a new row.
pub record NewKeys (next_key : List Proxy → ℕ) : Type 0 where
  pub positive : (ps : List Proxy) → 0 < next_key ps
  pub fresh : (ps : List Proxy) → All (λ p. (p.id == next_key ps) ≡ false) ps

-- A row that can be added to the table.
pub record Addable (p : Proxy) (ps : List Proxy) : Type 0 where
  pub positive : 0 < p.id
  pub apart : All (λ q. Apart q p) ps
  pub separate : Separate ps

module _ {F : Type 0} where
  pub check_route-Yields :
      (node_id : Option ℕ) (port : ℕ) (kind : String) (domain : Text) (exclude : ℕ)
      → Yields
          (λ _ (w : World F).
            any (conflicts_with kind domain) (filter (on_port node_id port exclude) w.db.proxies)
            ≡ false)
          (check_route node_id port kind domain exclude)
  unfolding check_route ◌>>=◌ from_db query require
  check_route-Yields node_id port kind domain exclude = record { after = λ w w1 a e. ground arith }

  after_start-Turns :
      (p : Proxy) (running : Bool) → Turns Separate Separate (after_start {F = F} p running)
  after_start-Turns p true = Reads-Turns Separate _ (search reading)
  after_start-Turns p false =
      bind-Turns Separate Separate Separate (λ ps s. s) _ _
        (tried-Turns _ Separate Separate (λ ps s. s) (delete_row (λ (q : Proxy). q.id) p.id)
          (λ ps. Separate-filter _ ps))
        (λ b. Reads-Turns Separate _ (search reading))

  launch-Turns : (p : Proxy) → Turns (Addable p) Separate (launch {F = F} p)
  unfolding launch
  launch-Turns p =
      then-Turns (Addable p) Separate Separate (λ ps s. s) _ _
        (write-Turns _ (Addable p) Separate (λ ps a. a.separate) (λ ps. ps ++ p ∷ [])
          (λ ps a. Separate-append ps p a.positive a.apart a.separate))
        (bind-Turns Separate Separate Separate (λ ps s. s) _ _ (control-Turns Separate _)
          (after_start-Turns p))

  notify_some-Turns : (c : Option Text) → Turns Separate Separate (notify_some {F = F} c)
  notify_some-Turns none = Reads-Turns Separate _ (search reading)
  notify_some-Turns (some c) = notify-Turns Separate c

module _ (is_ipv6 : Text → Bool) (lib : UrlLibrary) (next_key : List Proxy → ℕ) {F : Type 0} where
  -- An admitted row has the next key, and no enabled proxy of its port conflicts with its route.
  pub record Candidate (p : Proxy) (w : World F) : Type 0 where
    pub keyed : p.id ≡ next_key w.db.proxies
    pub routed :
        any
          (conflicts_with p.proxy_type p.domain)
          (filter (on_port p.node_id p.remote_port 0) w.db.proxies)
        ≡ false

  give_key-Yields :
      (u : AuthUser) (req : CreateProxyRequest) (upstream_url domain : Text) (now : DateTime)
      → Yields
          (λ p (w : World F).
            any
                (conflicts_with req.proxy_type domain)
                (filter (on_port req.node_id req.remote_port 0) w.db.proxies)
              ≡ false
            → Candidate p w)
          (give_key next_key (new_proxy u req upstream_url domain now))
  unfolding give_key
  give_key-Yields u req upstream_url domain now = record {
    after = λ w w1 p e routed.
        let same : new_proxy u req upstream_url domain now (next_key w.db.proxies) ≡ p = cc in
        let there : w ≡ w1 = cc in
        rw (← same, ← there) (record { keyed = refl; routed = rw there routed });
  }

  last-Yields :
      (u : AuthUser) (req : CreateProxyRequest) (upstream_url domain : Text) (now : DateTime)
      → Yields Candidate (
          check_route req.node_id req.remote_port req.proxy_type domain 0
          >> give_key next_key (new_proxy u req upstream_url domain now))
  last-Yields u req upstream_url domain now =
      keep-Yields
        (λ (w : World F).
          any (conflicts_with req.proxy_type domain)
            (filter (on_port req.node_id req.remote_port 0) w.db.proxies)
          ≡ false)
        (check_route req.node_id req.remote_port req.proxy_type domain 0)
        (check_route-Yields req.node_id req.remote_port req.proxy_type domain 0) Candidate
        (give_key next_key (new_proxy u req upstream_url domain now))
        (give_key-Reads next_key (new_proxy u req upstream_url domain now))
        (give_key-Yields u req upstream_url domain now)

  pub admit_proxy-Yields :
      (u : AuthUser) (req : CreateProxyRequest) (now : DateTime)
      → Yields Candidate (admit_proxy is_ipv6 lib next_key u req now)
  unfolding admit_proxy
  admit_proxy-Yields u req now = search (bind-Yields, then-Yields, last-Yields) depth 30

  module _ (keys : NewKeys next_key) where
    Candidate-Addable :
        (p : Proxy) (w : World F) → Candidate p w → Separate w.db.proxies → Addable p w.db.proxies
    Candidate-Addable p w c s =
        let ps = w.db.proxies in
        let positive : 0 < p.id = rw c.keyed (keys.positive ps) in
        let fresh : All (λ q. (q.id == p.id) ≡ false) ps = rw c.keyed (keys.fresh ps) in
        let apart_if = route_free p 0 ps c.routed in
        let free =
          All-both (λ q. 0 < q.id) (λ q. (q.id == 0) ≡ false → clashes p q ≡ false)
            (λ q. clashes p q ≡ false) (λ q h f. f (ground arith)) ps (Separate-positive ps s)
            apart_if in
        record {
          positive = positive;
          apart =
              All-both (λ q. (q.id == p.id) ≡ false) (λ q. clashes p q ≡ false) (λ q. Apart q p)
                (λ q d f. record { other = d; free = clashes_comm q p ∙ f }) ps fresh free;
          separate = s;
        }

    create_for-Turns :
        (u : AuthUser) (req : CreateProxyRequest) (now : DateTime)
        → Turns Separate Separate (create_for is_ipv6 lib next_key {F = F} u req now)
    create_for-Turns u req now =
        found-Turns Separate Addable Separate (λ ps s. s) _ _
          (admit_proxy-Reads is_ipv6 lib next_key u req now)
          (record {
            after =
                λ w w1 p e. Candidate-Addable p w1 ((admit_proxy-Yields u req now).after w w1 p e);
          })
          (λ p.
            then-Turns (Addable p) Separate Separate (λ ps s. s) _ _ (launch-Turns p)
              (then-Turns Separate Separate Separate (λ ps s. s) _ _
                (notify_some-Turns req.client_id) (Reads-Turns Separate _ (search reading))))

    -- After `create_proxy`, whatever it answers and whatever queries failed or listeners refused to
    -- start, no two proxies have one key and no two enabled ones clash, if that held before
    -- and all keys were positive, and if new keys are positive and new.
    pub create_proxy-Separate :
        (caller : Option AuthUser) (req : CreateProxyRequest) (now : DateTime) (w : World F)
        → Separate w.db.proxies
        → Separate (create_proxy is_ipv6 lib next_key caller req now w).1.db.proxies
    unfolding create_proxy reject
    create_proxy-Separate none req now w s = s
    create_proxy-Separate (some u) req now w s = (create_for-Turns u req now).table w s
