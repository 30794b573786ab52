-- ===== src/Listeners/Lookup.antt =====
-- Which route a port and a domain lead to, after `start` and after `stop`.
use oxiproxy.Prelude.{
  ℕ, ◌≡◌, refl, ap, ◌∙◌, inl, inr, Bool, true, not, ◌&&◌, Option, none, some, List, [], ◌∷◌, Text,
  text_eq, text_eq_iff, is_empty, ◌==◌, ==_iff, if◌then◌else◌, Bool-cases, Option-cases, ok,
}
use oxiproxy.Prelude.Maps.{
  get, insert, map_values, kept, option_map, Distinct, get-insert, get-retain, get-map_values,
  map_values-Distinct,
}
use oxiproxy.Domain.{normalize_pattern}
use oxiproxy.Upstream.{UrlLibrary}
use oxiproxy.Pending.{nat_eq}
use oxiproxy.Listeners.{
  ProxyConfig, Route, Listener, Listeners, with_route, may_take, place, stopped_by, pruned, in_use,
  stop, start,
}
use oxiproxy.Listeners.Wellformed.{IsValid, place_ok, start_ok}

module _ {Url H : Type 0} where
  abbrev in_listener : Text → Option (Listener Url H) → Option (Route Url H)
  in_listener d none = none
  in_listener d (some l) = get text_eq d l.routes

  -- The route of a domain on a port.
  abbrev pub route_at : Listeners Url H → ℕ → Text → Option (Route Url H)
  route_at ls port d = in_listener d (get nat_eq port ls)

  -- A new route answers for its own domain on its own port, and every other lookup is as before.
  abbrev pub shows : Route Url H → Listeners Url H → ℕ → Text → Option (Route Url H)
  shows r ls port d =
      if r.config.remote_port == port && text_eq r.config.domain d
      then some r
      else route_at ls port d

  inserted :
      (r : Route Url H) (l : Listener Url H) (ls : Listeners Url H) (port : ℕ) (d : Text)
      → ((k : Text)
          → get text_eq k l.routes
            ≡ (if text_eq r.config.domain k then some r else route_at ls r.config.remote_port k))
      → route_at (insert nat_eq r.config.remote_port l ls) port d ≡ shows r ls port d
  inserted r l ls port d same = elim (Bool-cases (r.config.remote_port == port)) [
    | inr other ↦ rw (get-insert nat_eq ==_iff r.config.remote_port port l ls, other)
    | inl here ↦
        rw (get-insert nat_eq ==_iff r.config.remote_port port l ls, here, same d)
          (rw ((==_iff r.config.remote_port port).0 here))
  ]

  pub place_lookup :
      (binds : ℕ → Bool) (r : Route Url H) (ls ls' : Listeners Url H)
      → place binds r ls ≡ ok ls'
      → (may_take r (route_at ls r.config.remote_port r.config.domain) ≡ true)
        × ((port : ℕ) (d : Text) → route_at ls' port d ≡ shows r ls port d)
  place_lookup binds r ls ls' e = elim (place_ok binds r ls ls' e) [
    | inl (free, result) ↦ (rw free, λ port d. rw result (inserted r _ ls port d (λ k. rw free)))
    | inr (l, found, _, may, result) ↦ (
      rw found may,
      λ port d. rw result (
          inserted r (with_route r l) ls port d
            (λ k. rw found (get-insert text_eq text_eq_iff r.config.domain k r l.routes))),
    )
  ]

  get-stop :
      (client : Text) (proxy : Option ℕ) (ls : Listeners Url H) (port : ℕ)
      → Distinct nat_eq ls
      → get nat_eq port (stop client proxy ls)
        ≡ kept nat_eq in_use (option_map (pruned client proxy) (get nat_eq port ls))
  unfolding stop
  get-stop client proxy ls port h =
      let change = pruned {Url = Url} {H = H} client proxy in
      get-retain nat_eq ==_iff in_use port (map_values nat_eq change ls)
        (map_values-Distinct nat_eq change ls h)
      ∙ ap (kept nat_eq in_use) (get-map_values nat_eq change port ls)

  in_kept :
      (d : Text) (l : Listener Url H)
      → in_listener d (kept nat_eq in_use (some l)) ≡ get text_eq d l.routes
  in_kept d l = elim (Bool-cases (is_empty l.routes)) [
    | inr used ↦ rw used
    | inl unused ↦ rw (unused, is_empty-nil l.routes unused)
  ]
    where
      is_empty-nil : (m : List (Text × Route Url H)) → is_empty m ≡ true → get text_eq d m ≡ none
      is_empty-nil [] h = refl
      is_empty-nil (e ∷ m) h = absurd (cc)

  -- From valid listeners, `stop` takes away exactly the routes of the client, or of the one proxy
  -- of it that is named: every other lookup is as before.
  pub stop_lookup :
      (client : Text) (proxy : Option ℕ) (ls : Listeners Url H) (port : ℕ) (d : Text)
      → IsValid ls
      → route_at (stop client proxy ls) port d
        ≡ kept text_eq (λ r. not (stopped_by client proxy r)) (route_at ls port d)
  stop_lookup client proxy ls port d h = elim (Option-cases (get nat_eq port ls)) [
    | inl missing ↦ rw (get-stop client proxy ls port h.distinct, missing)
    | inr (l, found) ↦
        rw (get-stop client proxy ls port h.distinct, found)
          (in_kept d (pruned client proxy l)
            ∙ get-retain text_eq text_eq_iff _ d l.routes (h.serving port l found).distinct)
  ]

module _ (is_ipv6 : Text → Bool) (lib : UrlLibrary) {H : Type 0} where
  -- If `start` succeeds, the configuration's normalised domain on its port leads to the new route,
  -- every other lookup is as before, and a route that had the domain was of the same proxy and client.
  pub start_lookup :
      (binds : ℕ → Bool) (c : ProxyConfig) (h : H) (ls ls' : Listeners lib.Url H)
      → start is_ipv6 lib binds c h ls ≡ ok ls'
      → (r : Route lib.Url H) × (normalize_pattern is_ipv6 c.domain ≡ ok r.config.domain)
        × (r.config ≡ record c { domain = r.config.domain })
        × (may_take r (route_at ls c.remote_port r.config.domain) ≡ true)
        × ((port : ℕ) (d : Text) → route_at ls' port d ≡ shows r ls port d)
  start_lookup binds c h ls ls' e =
      let (r, name, config, _, _, run) = start_ok is_ipv6 lib binds c h ls ls' e in
      let (may, at) = place_lookup binds r ls ls' run in
      let port : r.config.remote_port ≡ c.remote_port =
        ap (λ (x : ProxyConfig). x.remote_port) config in
      (r, name, config, rw port at may, at)
