-- ===== src/Listeners.antt =====
-- node/src/server/domain_proxy.rs: the shared HTTP and TLS listeners of a node, and the proxy
-- configuration of common/src/protocol/control.rs. A listener stands for its port's bound socket and
-- accept task; `binds` says whether `TcpListener::bind` succeeds on a port. `H` is what a route only
-- hands on to its connections: the connection provider, the traffic manager and the speed limiter.
-- An operation holds the lock of the map from its first access to its end, so each is one step.
pub mod Wellformed
pub mod Lookup
mod Tests
use oxiproxy.Prelude.{
  ℕ, ◌+◌, Bool, true, false, not, ◌&&◌, Option, none, some, List, [], ◌∷◌, String, Text, text_eq,
  is_empty, ◌==◌, if◌then◌else◌, filter, length, Result, ok, err,
}
use oxiproxy.Prelude.Maps.{get, insert, retain, map_values}
use oxiproxy.Domain.{DomainError, normalize_pattern}
use oxiproxy.Upstream.{UrlLibrary, UpstreamError, parse_upstream}
use oxiproxy.Pending.{nat_eq}

pub record ProxyConfig : Type 0 where
  pub proxy_id : ℕ
  pub client_id : Text
  pub name : String
  pub proxy_type : Text
  pub domain : Text
  pub upstream_url : Text
  pub user_id : Option ℕ
  pub local_ip : String
  pub local_port : ℕ
  pub remote_port : ℕ
  pub enabled : Bool

pub data StartError : Type 0 where
  bad_domain : DomainError → StartError
  client_missing client_not_allowed : StartError
  bad_upstream : UpstreamError → StartError
  protocol_differs domain_taken bind_failed : StartError

module _ (Url H : Type 0) where
  pub record Route : Type 0 where
    pub config : ProxyConfig
    pub upstream : Option Url
    pub handles : H

  pub record Listener : Type 0 where
    pub kind : Text
    pub routes : List (Text × Route)

  abbrev pub Listeners : Type 0
  Listeners = List (ℕ × Listener)

module _ {Url H : Type 0} where
  unfoldable pub active_count : Listeners Url H → ℕ
  active_count [] = 0
  active_count ((port, l) ∷ ls) = length l.routes + active_count ls

  abbrev pub with_route : Route Url H → Listener Url H → Listener Url H
  with_route r l = record l { routes = insert text_eq r.config.domain r l.routes }

  -- May the route take its domain, given the route that has the domain now.
  abbrev pub may_take : Route Url H → Option (Route Url H) → Bool
  may_take r none = true
  may_take r (some old) =
      old.config.proxy_id == r.config.proxy_id && text_eq old.config.client_id r.config.client_id

  -- `start` with the lock held: the route joins the port's listener, or a new one is bound.
  pub place : (ℕ → Bool) → Route Url H → Listeners Url H → Result StartError (Listeners Url H)
  place binds r ls = elim (get nat_eq r.config.remote_port ls) [
    | some l ↦
        if not (text_eq l.kind r.config.proxy_type)
        then err protocol_differs
        else (if not (may_take r (get text_eq r.config.domain l.routes))
            then err domain_taken
            else ok (insert nat_eq r.config.remote_port (with_route r l) ls))
    | none ↦
        if binds r.config.remote_port
        then ok (
            insert nat_eq r.config.remote_port
              (record { kind = r.config.proxy_type; routes = (r.config.domain, r) ∷ [] }) ls)
        else err bind_failed
  ]

  -- Does the route belong to the client, and to the proxy if one is named.
  unfoldable pub stopped_by : Text → Option ℕ → Route Url H → Bool
  stopped_by client none r = text_eq r.config.client_id client
  stopped_by client (some id) r = text_eq r.config.client_id client && id == r.config.proxy_id

  abbrev pub pruned : Text → Option ℕ → Listener Url H → Listener Url H
  pruned client proxy l = record l {
    routes = retain text_eq (λ r. not (stopped_by client proxy r)) l.routes;
  }

  abbrev pub in_use : Listener Url H → Bool
  in_use l = not (is_empty l.routes)

  -- The routes are retained listener by listener, then the listeners left without routes removed.
  pub stop : Text → Option ℕ → Listeners Url H → Listeners Url H
  stop client proxy ls = retain nat_eq in_use (map_values nat_eq (pruned client proxy) ls)

module _ (lib : UrlLibrary) where
  open lib use {Url}

  abbrev as_upstream : Result UpstreamError Url → Result StartError (Option Url)
  as_upstream (ok url) = ok (some url)
  as_upstream (err e) = err (bad_upstream e)

  -- The upstream of a configuration: none for a tunnel, which needs a client.
  pub upstream_of : ProxyConfig → Result StartError (Option Url)
  upstream_of c =
      if is_empty c.upstream_url
      then (if is_empty c.client_id then err client_missing else ok none)
      else (if is_empty c.client_id
          then as_upstream (parse_upstream lib c.proxy_type c.upstream_url)
          else err client_not_allowed)

module _ (is_ipv6 : Text → Bool) (lib : UrlLibrary) {H : Type 0} where
  open lib use {Url}

  abbrev pub placed :
      (ℕ → Bool)
      → ProxyConfig
      → H
      → Result StartError (Option Url)
      → Listeners Url H
      → Result StartError (Listeners Url H)
  placed binds c h (err e) ls = err e
  placed binds c h (ok u) ls = place binds (record { config = c; upstream = u; handles = h }) ls

  abbrev pub normalized :
      (ℕ → Bool)
      → ProxyConfig
      → H
      → Result DomainError Text
      → Listeners Url H
      → Result StartError (Listeners Url H)
  normalized binds c h (err e) ls = err (bad_domain e)
  normalized binds c h (ok d) ls =
      let c' : ProxyConfig = record c { domain = d } in placed binds c' h (upstream_of lib c') ls

  -- No state is changed on an error.
  pub start : (ℕ → Bool) → ProxyConfig → H → Listeners Url H → Result StartError (Listeners Url H)
  unfolding upstream_of place
  start binds config h ls = normalized binds config h (normalize_pattern is_ipv6 config.domain) ls
