-- ===== src/Listeners/Wellformed.antt =====
-- The invariant of the listeners, kept by `start` and `stop`.
use oxiproxy.Prelude.{
  ℕ, ◌≡◌, refl, sym, ap, subst, ◌∙◌, ◌⊎◌, inl, inr, Bool, true, false, not, Option, none, some,
  List, [], ◌∷◌, arith, Text, text_eq, text_eq_iff, is_empty, ==_iff, Bool-cases, Option-cases,
  Result-cases, ok,
}
use oxiproxy.Prelude.Maps.{
  get, insert, map_values, Distinct, get-insert_cases, get-retain_found, get-map_values,
  insert-Distinct, retain-Distinct, map_values-Distinct,
}
use oxiproxy.Domain.{normalize_pattern}
use oxiproxy.Upstream.{UrlLibrary}
use oxiproxy.Pending.{nat_eq}
use oxiproxy.Listeners.{
  ProxyConfig, Route, Listener, Listeners, with_route, may_take, place, stopped_by, pruned, in_use,
  stop, start, placed, upstream_of,
}

module _ {Url H : Type 0} where
  -- A route found under a domain of the listener on a port with a protocol is that domain's, and
  -- of the port and the protocol.
  pub record IsPlaced (port : ℕ) (kind d : Text) (r : Route Url H) : Type 0 where
    pub domain_kept : r.config.domain ≡ d
    pub port_kept : r.config.remote_port ≡ port
    pub kind_kept : r.config.proxy_type ≡ kind

  pub record IsServing (port : ℕ) (l : Listener Url H) : Type 0 where
    pub used : is_empty l.routes ≡ false
    pub distinct : Distinct text_eq l.routes
    pub placed_at :
        (d : Text) (r : Route Url H) → get text_eq d l.routes ≡ some r → IsPlaced port l.kind d r

  -- A listener for each port once, each with a route, and every route where it belongs.
  pub record IsValid (ls : Listeners Url H) : Type 0 where
    pub distinct : Distinct nat_eq ls
    pub serving : (port : ℕ) (l : Listener Url H) → get nat_eq port ls ≡ some l → IsServing port l

  insert_used :
      (d : Text) (r : Route Url H) (m : List (Text × Route Url H))
      → is_empty (insert text_eq d r m) ≡ false
  insert_used d r [] = refl
  insert_used d r ((k, s) ∷ m) = ground arith

  own_place :
      (r : Route Url H) (kind : Text)
      → kind ≡ r.config.proxy_type
      → IsPlaced r.config.remote_port kind r.config.domain r
  own_place r kind same = record { domain_kept = refl; port_kept = refl; kind_kept = sym same }

  -- A route joins routes that are in place.
  joined-IsServing :
      (r : Route Url H) (kind : Text) (m : List (Text × Route Url H))
      → kind ≡ r.config.proxy_type
      → Distinct text_eq m
      → ((d : Text) (s : Route Url H)
          → get text_eq d m ≡ some s
          → IsPlaced r.config.remote_port kind d s)
      → IsServing r.config.remote_port
          (record { kind = kind; routes = insert text_eq r.config.domain r m })
  joined-IsServing r kind m same distinct placed_at = record {
    used = insert_used r.config.domain r m;
    distinct = insert-Distinct text_eq text_eq_iff r.config.domain r m distinct;
    placed_at = λ d s e. elim (get-insert_cases text_eq text_eq_iff r.config.domain d r s m e) [
      | inl (here, eq) ↦ rw (← here, ← eq) (own_place r kind same)
      | inr old ↦ placed_at d s old
    ];
  }

  insert-IsValid :
      (port : ℕ) (l : Listener Url H) (ls : Listeners Url H)
      → IsServing port l
      → IsValid ls
      → IsValid (insert nat_eq port l ls)
  insert-IsValid port l ls new h = record {
    distinct = insert-Distinct nat_eq ==_iff port l ls h.distinct;
    serving = λ p k e. elim (get-insert_cases nat_eq ==_iff port p l k ls e) [
      | inl (here, same) ↦ rw (← here, ← same) new
      | inr old ↦ h.serving p k old
    ];
  }

  abbrev fresh_listener : Route Url H → Listener Url H
  fresh_listener r = record {
    kind = r.config.proxy_type;
    routes = insert text_eq r.config.domain r [];
  }

  -- The two ways in which `place` succeeds: on a bound port, and on a port that is served.
  pub place_ok :
      (binds : ℕ → Bool) (r : Route Url H) (ls ls' : Listeners Url H)
      → place binds r ls ≡ ok ls'
      → ((get nat_eq r.config.remote_port ls ≡ none)
          × (ls' ≡ insert nat_eq r.config.remote_port (fresh_listener r) ls))
        ⊎ ((l : Listener Url H) × (get nat_eq r.config.remote_port ls ≡ some l)
            × (l.kind ≡ r.config.proxy_type)
            × (may_take r (get text_eq r.config.domain l.routes) ≡ true)
            × (ls' ≡ insert nat_eq r.config.remote_port (with_route r l) ls))
  unfolding place
  place_ok binds r ls ls' e = elim (Option-cases (get nat_eq r.config.remote_port ls)) [
    | inl free ↦
        let e' = rw (free, place) at e in
        elim (Bool-cases (binds r.config.remote_port)) [
          | inl bound ↦ inl (free, cc (rw bound at e'))
          | inr failed ↦ absurd (cc (rw failed at e'))
        ]
    | inr (l, found) ↦
        let e' = rw (found, place) at e in
        elim (Bool-cases (text_eq l.kind r.config.proxy_type)) [
          | inr differs ↦ absurd (cc (rw differs at e'))
          | inl same ↦ elim (Bool-cases (may_take r (get text_eq r.config.domain l.routes))) [
            | inr taken ↦ absurd (cc (rw (same, taken) at e'))
            | inl free ↦ inr (
              l,
              found,
              (text_eq_iff l.kind r.config.proxy_type).0 same,
              free,
              cc (rw (same, free) at e'),
            )
          ]
        ]
  ]

  pub place-IsValid :
      (binds : ℕ → Bool) (r : Route Url H) (ls ls' : Listeners Url H)
      → IsValid ls
      → place binds r ls ≡ ok ls'
      → IsValid ls'
  place-IsValid binds r ls ls' h e = elim (place_ok binds r ls ls' e) [
    | inl (free, result) ↦ rw result (
        insert-IsValid r.config.remote_port (fresh_listener r) ls
          (joined-IsServing r r.config.proxy_type [] refl tt (λ d s none_there. absurd (cc))) h)
    | inr (l, found, same, may, result) ↦
        let old = h.serving r.config.remote_port l found in
        let joined = joined-IsServing r l.kind l.routes same old.distinct old.placed_at in
        rw result (insert-IsValid r.config.remote_port (with_route r l) ls joined h)
  ]

  pub stop_found :
      (client : Text) (proxy : Option ℕ) (port : ℕ) (l : Listener Url H) (ls : Listeners Url H)
      → IsValid ls
      → get nat_eq port (stop client proxy ls) ≡ some l
      → (old : Listener Url H) × (get nat_eq port ls ≡ some old)
        × (pruned client proxy old ≡ l)
        × (in_use l ≡ true)
  unfolding stop
  stop_found client proxy port l ls h e =
      let change = pruned {Url = Url} {H = H} client proxy in
      let (mapped, used) =
        get-retain_found nat_eq ==_iff in_use port l (map_values nat_eq change ls)
          (map_values-Distinct nat_eq change ls h.distinct) e in
      elim (Option-cases (get nat_eq port ls)) [
        | inl missing ↦ absurd (cc (rw (get-map_values nat_eq change port ls, missing) at mapped))
        | inr (old, found) ↦
            (old, found, cc (rw (get-map_values nat_eq change port ls, found) at mapped), used)
      ]

  pruned-IsServing :
      (client : Text) (proxy : Option ℕ) (port : ℕ) (l : Listener Url H)
      → in_use (pruned client proxy l) ≡ true
      → IsServing port l
      → IsServing port (pruned client proxy l)
  pruned-IsServing client proxy port l used h =
      let stays : Route Url H → Bool = λ r. not (stopped_by client proxy r) in
      record {
        used = ground arith;
        distinct = retain-Distinct text_eq stays l.routes h.distinct;
        placed_at = λ d r e.
            h.placed_at d r
              (get-retain_found text_eq text_eq_iff stays d r l.routes h.distinct e).0;
      }

  stop-Distinct :
      (client : Text) (proxy : Option ℕ) (ls : Listeners Url H)
      → Distinct nat_eq ls
      → Distinct nat_eq (stop client proxy ls)
  unfolding stop
  stop-Distinct client proxy ls h =
      let change = pruned {Url = Url} {H = H} client proxy in
      retain-Distinct nat_eq in_use (map_values nat_eq change ls)
        (map_values-Distinct nat_eq change ls h)

  -- `stop` keeps the invariant: one listener for each port, none without a route, and each route
  -- under its own domain, on its own port and with its listener's protocol.
  pub stop-IsValid :
      (client : Text) (proxy : Option ℕ) (ls : Listeners Url H)
      → IsValid ls
      → IsValid (stop client proxy ls)
  stop-IsValid client proxy ls h = record {
    distinct = stop-Distinct client proxy ls h.distinct;
    serving = λ port l e.
        let (old, found, change, used) = stop_found client proxy port l ls h e in
        let before : in_use (pruned client proxy old) ≡ true = ap in_use change ∙ used in
        subst (IsServing port) change
          (pruned-IsServing client proxy port old before (h.serving port old found));
  }

module _ (is_ipv6 : Text → Bool) (lib : UrlLibrary) {H : Type 0} where
  -- The route that `start` places: under the normalised pattern.
  pub start_ok :
      (binds : ℕ → Bool) (c : ProxyConfig) (h : H) (ls ls' : Listeners lib.Url H)
      → start is_ipv6 lib binds c h ls ≡ ok ls'
      → (r : Route lib.Url H) × (normalize_pattern is_ipv6 c.domain ≡ ok r.config.domain)
        × (r.config ≡ record c { domain = r.config.domain })
        × (upstream_of lib r.config ≡ ok r.upstream)
        × (r.handles ≡ h)
        × (place binds r ls ≡ ok ls')
  unfolding start
  start_ok binds c h ls ls' e = elim (Result-cases (normalize_pattern is_ipv6 c.domain)) [
    | inr (x, failed) ↦ absurd (cc (rw (failed, start) at e))
    | inl (d, name) ↦
        let c' : ProxyConfig = record c { domain = d } in
        let e' = rw (name, start) at e in
        elim (Result-cases (upstream_of lib c')) [
          | inr (x, failed) ↦ absurd (cc (rw (failed, placed) at e'))
          | inl (u, up) ↦ (
            record { config = c'; upstream = u; handles = h },
            name,
            refl,
            up,
            refl,
            rw (up, placed) at e',
          )
        ]
  ]

  -- A `start` that succeeds keeps the invariant: one listener for each port, none without a route,
  -- and each route under its own domain, on its own port and with its listener's protocol.
  pub start-IsValid :
      (binds : ℕ → Bool) (c : ProxyConfig) (h : H) (ls ls' : Listeners lib.Url H)
      → IsValid ls
      → start is_ipv6 lib binds c h ls ≡ ok ls'
      → IsValid ls'
  start-IsValid binds c h ls ls' v e =
      let (r, _, _, _, _, run) = start_ok binds c h ls ls' e in place-IsValid binds r ls ls' v run
