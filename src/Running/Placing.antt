-- ===== src/Running/Placing.antt =====
-- The routes of a proxy after the start of one.
use oxiproxy.Prelude.{
  ℕ, ◌≡◌, refl, sym, ◌∙◌, ◌⊎◌, inl, inr, Bool, true, ◌&&◌, some, arith, Text, text_eq, text_eq_iff,
  ◌==◌, ==_iff, Bool-cases,
}
use oxiproxy.Listeners.{Route, Listeners, may_take, stopped_by}
use oxiproxy.Listeners.Lookup.{route_at, shows}
use oxiproxy.Running.View.{is_proxy, HasRoute}

module _ {Url H : Type 0} where
  pub own_self :
      (r : Route Url H) (c : Text) (i : ℕ)
      → stopped_by c (some i) r ≡ is_proxy c i r.config.client_id r.config.proxy_id
  unfolding stopped_by
  own_self r c i =
      ground (arith, text_eq_iff r.config.client_id c, text_eq_iff c r.config.client_id)

  -- A route that may be taken by another is of the same proxy.
  same_owner :
      (r old : Route Url H) (c : Text) (i : ℕ)
      → may_take r (some old) ≡ true
      → stopped_by c (some i) old ≡ true
      → stopped_by c (some i) r ≡ true
  unfolding stopped_by
  same_owner r old c i may own = ground (
    arith,
    text_eq_iff old.config.client_id r.config.client_id,
    text_eq_iff old.config.client_id c,
    text_eq_iff r.config.client_id c,
  )

  module _ (r : Route Url H) (ls ls' : Listeners Url H)
      (may : may_take r (route_at ls r.config.remote_port r.config.domain) ≡ true)
      (at : (port : ℕ) (d : Text) → route_at ls' port d ≡ shows r ls port d) where
    pub shows_new : route_at ls' r.config.remote_port r.config.domain ≡ some r
    shows_new =
        at r.config.remote_port r.config.domain
        ∙ ground (
          arith,
          text_eq_iff r.config.domain r.config.domain,
          ==_iff r.config.remote_port r.config.remote_port,
        )

    pub placed_keeps : (c : Text) (i : ℕ) → HasRoute c i ls → HasRoute c i ls'
    placed_keeps c i (port, d, s, there, own) =
        elim (Bool-cases (r.config.remote_port == port && text_eq r.config.domain d)) [
          | inr other ↦ (port, d, s, at port d ∙ rw other there, own)
          | inl here ↦ (
            port,
            d,
            r,
            at port d ∙ rw here refl,
            let (p, q) = both (r.config.remote_port == port) (text_eq r.config.domain d) here in
                same_owner r s c i
                  (rw
                    (
                      (==_iff r.config.remote_port port).0 p,
                      (text_eq_iff r.config.domain d).0 q,
                      there,
                    )
                    at may)
                  own,
          )
        ]
      where
        both : (a b : Bool) → (a && b) ≡ true → (a ≡ true) × (b ≡ true)
        both a b h = ground arith

    pub placed_adds :
        (c : Text) (i : ℕ)
        → HasRoute c i ls'
        → HasRoute c i ls ⊎ (is_proxy c i r.config.client_id r.config.proxy_id ≡ true)
    placed_adds c i (port, d, s, there, own) =
        elim (Bool-cases (r.config.remote_port == port && text_eq r.config.domain d)) [
          | inr other ↦ inl (port, d, s, sym (at port d ∙ rw other refl) ∙ there, own)
          | inl here ↦
              let e : some r ≡ some s = sym (at port d ∙ rw here refl) ∙ there in
              let same : r ≡ s = cc in inr (sym (own_self r c i) ∙ rw same own)
        ]
