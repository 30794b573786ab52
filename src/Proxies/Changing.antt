-- ===== src/Proxies/Changing.antt =====
-- `update_proxy` and `delete_proxy` keep the routes of the enabled proxies apart, also when a refused
-- listener makes the update write the old configuration back.
use oxiproxy.Proxies.Batching.{take_back-Turns}
use oxiproxy.Proxies.Groups.{delete_group_for, delete_proxy_group}
use oxiproxy.Handlers.Reading.{verify_proxy_group_ownership-Reads}
use oxiproxy.Prelude.{
  List, ◌∷◌, String, ℕ, ◌≡◌, refl, sym, ap, ◌∙◌, inl, inr, Bool, true, false, Option, none, some,
  List, Text, any, filter, if◌then◌else◌, Bool-cases,
}
use oxiproxy.Prelude.Time.{DateTime}
use oxiproxy.Upstream.{UrlLibrary}
use oxiproxy.Store.{Proxy}
use oxiproxy.Store.Rows.{find, find_key, delete_row}
use oxiproxy.Handlers.{
  AuthUser, stopped, World, ◌>>=◌, ◌>>◌, return, reject, from_db, control, notify, or_empty,
}
use oxiproxy.Handlers.Reading.{reading, verify_proxy_ownership-Reads}
use oxiproxy.Handlers.Yielding.{Yields, bind-Yields, then-Yields, keep-Yields, lookup-Yields}
use oxiproxy.Handlers.Keeping.{
  Turns, Reads-Turns, bind-Turns, then-Turns, write-Turns, control-Turns, notify-Turns, found-Turns,
}
use oxiproxy.Proxies.{remove_proxy, check_route, on_port, conflicts_with}
use oxiproxy.Proxies.Updates.{
  UpdateProxyRequest, or_old, changed, read_proxy, delete_proxy, check_port_of, admit_update,
  update_existing, update_proxy,
}
use oxiproxy.Proxies.Checking.{read_proxy-Reads, admit_update-Reads, check_port_of-Reads}
use oxiproxy.Proxies.Routing.{check_route-Yields}
use oxiproxy.Proxies.Reverting.{apply_update-Turns}
use oxiproxy.Proxies.Separate.{by_id, Separate, Separate-filter, Fits, route_free, All-always}

module _ {F : Type 0} where
  delete_for-Turns :
      (id : ℕ) (p : Proxy)
      → Turns Separate Separate (do
        _ ← control {F = F} (stopped (or_empty p.client_id) id)
        from_db (remove_proxy id)
        notify (or_empty p.client_id))
  delete_for-Turns id p =
      bind-Turns Separate Separate Separate (λ ps s. s) _ _ (control-Turns Separate _)
        (λ _.
          then-Turns Separate Separate Separate (λ ps s. s) _ _
            (write-Turns _ Separate Separate (λ ps s. s) (delete_row by_id id)
              (λ ps. Separate-filter _ ps))
            (notify-Turns Separate _))

  -- After `delete_proxy`, whatever it answers and whatever queries failed, no two proxies have one key
  -- and no two enabled ones clash, if that held before and all keys were positive.
  pub delete_proxy-Separate :
      (caller : Option AuthUser) (id : ℕ) (w : World F)
      → Separate w.db.proxies
      → Separate (delete_proxy caller id w).1.db.proxies
  unfolding delete_proxy reject
  delete_proxy-Separate none id w s = s
  delete_proxy-Separate (some u) id w s =
      (bind-Turns Separate Separate Separate (λ ps s. s) _ _
          (Reads-Turns Separate _ (read_proxy-Reads id))
          (λ p.
            then-Turns Separate Separate Separate (λ ps s. s) _ _
              (Reads-Turns Separate _ (verify_proxy_ownership-Reads u p))
              (delete_for-Turns id p))).table
        w s

  delete_group_for-Turns :
      (u : AuthUser) (group : String) → Turns Separate Separate (delete_group_for {F = F} u group)
  delete_group_for-Turns u group =
      bind-Turns Separate Separate Separate (λ ps s. s) _ _
        (Reads-Turns Separate _ (verify_proxy_group_ownership-Reads u group))
        (λ ps.
          then-Turns Separate Separate Separate (λ qs s. s) _ _
            (take_back-Turns (or_empty ps.0.client_id) (ps.0 ∷ ps.1)) (notify-Turns Separate _))

  -- After `delete_proxy_group`, too, no two proxies have one key and no two enabled ones clash, if that
  -- held before and all keys were positive.
  pub delete_group-Separate :
      (caller : Option AuthUser) (group : String) (w : World F)
      → Separate w.db.proxies
      → Separate (delete_proxy_group caller group w).1.db.proxies
  unfolding delete_proxy_group reject
  delete_group-Separate none group w s = s
  delete_group-Separate (some u) group w s = (delete_group_for-Turns u group).table w s

  pub read_found :
      (id : ℕ)
      → Yields (λ p (w : World F). find by_id id w.db.proxies ≡ some p) (read_proxy {F = F} id)
  read_found id = lookup-Yields (λ db. find by_id id db.proxies) 404 (λ db. refl)

  read_proxy-Yields :
      (id : ℕ)
      → Yields (λ p (w : World F). find by_id p.id w.db.proxies ≡ some p) (read_proxy {F = F} id)
  read_proxy-Yields id = record {
    after = λ w w1 p e.
        let there = (read_found id).after w w1 p e in
        ap (λ j. find by_id j w1.db.proxies) (find_key by_id id w1.db.proxies p there) ∙ there;
  }

-- The proxy stands in a table without clashes.
pub record Stands (p : Proxy) (ps : List Proxy) : Type 0 where
  pub separate : Separate ps
  pub listed : find by_id p.id ps ≡ some p

-- The changed row still stands in such a table, and clashes with no other row.
pub record Ready (p : Proxy) (req : UpdateProxyRequest) (now : DateTime) (values : Text × Text)
    (ps : List Proxy) : Type 0 where
  pub stands : Stands p ps
  pub fits : Fits p.id (changed req values.0 values.1 now) ps p

module _ (is_ipv6 : Text → Bool) (lib : UrlLibrary) {F : Type 0} where
  abbrev RouteFree : Proxy → UpdateProxyRequest → Text → World F → Type 0
  RouteFree p req domain w =
      or_old req.enabled p.enabled ≡ true
      → any (conflicts_with (or_old req.proxy_type p.proxy_type) domain)
          (filter (on_port p.node_id (or_old req.remote_port p.remote_port) p.id) w.db.proxies)
        ≡ false

  enabled-Yields :
      (p : Proxy) (req : UpdateProxyRequest) (domain : Text)
      → Yields
          (λ _ w. RouteFree p req domain w)
          (if or_old req.enabled p.enabled
            then check_route p.node_id
                (or_old req.remote_port p.remote_port)
                (or_old req.proxy_type p.proxy_type)
                domain
                p.id
            else return tt)
  enabled-Yields p req domain = elim (Bool-cases (or_old req.enabled p.enabled)) [
    | inl on ↦ rw on (record {
      after = λ w w1 a e _.
          (check_route-Yields p.node_id (or_old req.remote_port p.remote_port)
              (or_old req.proxy_type p.proxy_type) domain p.id).after
            w w1 a e;
    })
    | inr off ↦ record { after = λ w w1 a e on. absurd (cc (sym off ∙ on)) }
  ]

  returned-Yields :
      (p : Proxy) (req : UpdateProxyRequest) (domain upstream_url : Text)
      → Yields
          (λ (values : Text × Text) w. RouteFree p req domain w → RouteFree p req values.0 w)
          (return (domain, upstream_url))
  unfolding return
  returned-Yields p req domain upstream_url = record {
    after = λ w w1 values e free. let same : domain ≡ values.0 = cc in rw same at free;
  }

  last-Yields :
      (p : Proxy) (req : UpdateProxyRequest) (domain upstream_url : Text)
      → Yields
          (λ (values : Text × Text) w. RouteFree p req values.0 w)
          ((if or_old req.enabled p.enabled
              then check_route p.node_id
                  (or_old req.remote_port p.remote_port)
                  (or_old req.proxy_type p.proxy_type)
                  domain
                  p.id
              else return tt)
            >> (check_port_of p (or_old req.remote_port p.remote_port) p.node_id
                >> return (domain, upstream_url)))
  last-Yields p req domain upstream_url =
      keep-Yields (RouteFree p req domain) _ (enabled-Yields p req domain)
        (λ (values : Text × Text) w. RouteFree p req values.0 w) _
        (search (reading, check_port_of-Reads))
        (then-Yields _ _ _ (returned-Yields p req domain upstream_url))

  admit_update-Yields :
      (u : AuthUser) (p : Proxy) (req : UpdateProxyRequest)
      → Yields
          (λ (values : Text × Text) w. RouteFree p req values.0 w)
          (admit_update is_ipv6 lib {F = F} u p req)
  unfolding admit_update
  admit_update-Yields u p req = search (bind-Yields, then-Yields, last-Yields) depth 30

  update_existing-Turns :
      (u : AuthUser) (req : UpdateProxyRequest) (now : DateTime) (p : Proxy)
      → Turns (Stands p) Separate (update_existing is_ipv6 lib {F = F} u req now p)
  update_existing-Turns u req now p =
      found-Turns (Stands p) (Ready p req now) Separate (λ ps s. s.separate) _ _
        (admit_update-Reads is_ipv6 lib u p req)
        (record {
          after = λ w w1 values e stands. record {
            stands = stands;
            fits = fitting w1 values ((admit_update-Yields u p req).after w w1 values e);
          };
        })
        (λ values. record {
          table = λ w ready.
              (apply_update-Turns p (changed req values.0 values.1 now) now w.db.proxies
                  ready.stands.separate ready.stands.listed (λ q. refl) (λ q. refl) ready.fits
                  (changed req values.0 values.1 now p)).table
                w refl;
        })
    where
      fitting :
          (w : World F) (values : Text × Text)
          → RouteFree p req values.0 w
          → Fits p.id (changed req values.0 values.1 now) w.db.proxies p
      fitting w values free = elim (Bool-cases (or_old req.enabled p.enabled)) [
        | inl on ↦ route_free (changed req values.0 values.1 now p) p.id w.db.proxies (free on)
        | inr off ↦ All-always _ _ (λ q other. rw off refl)
      ]

  -- After `update_proxy`, whatever it answers and whatever queries failed or listeners refused to start, no
  -- two proxies have one key and no two enabled ones clash, if that held before and all keys were positive.
  pub update_proxy-Separate :
      (caller : Option AuthUser) (id : ℕ) (req : UpdateProxyRequest) (now : DateTime) (w : World F)
      → Separate w.db.proxies
      → Separate (update_proxy is_ipv6 lib caller id req now w).1.db.proxies
  unfolding update_proxy reject
  update_proxy-Separate none id req now w s = s
  update_proxy-Separate (some u) id req now w s =
      (found-Turns Separate Stands Separate (λ ps s'. s') _ _ (read_proxy-Reads id)
          (record {
            after = λ w' w1 p e s'. record {
              separate = s';
              listed = (read_proxy-Yields id).after w' w1 p e;
            };
          })
          (update_existing-Turns u req now)).table
        w s
