-- ===== src/Proxies/Ownership.antt =====
-- What `update_proxy` and `delete_proxy` let a user do who is not an administrator.
use oxiproxy.Prelude.{
  ℕ, ◌≡◌, refl, subst, ◌⊎◌, inl, inr, Bool, true, false, Option, none, some, Text, opt_eq, Result,
  ok, err,
}
use oxiproxy.Prelude.Time.{DateTime}
use oxiproxy.Upstream.{UrlLibrary}
use oxiproxy.Store.{Proxy, Db}
use oxiproxy.Store.Rows.{find}
use oxiproxy.Handlers.{
  AuthUser, World, Act, act_then, ◌>>=◌, ◌>>◌, parse_i64, find_signed, verify_owner,
  verify_proxy_ownership,
}
use oxiproxy.Handlers.Reading.{reading, settled, read_client-Reads, verify_proxy_ownership-Reads}
use oxiproxy.Handlers.Yielding.{Yields, learn-Yields, require-Yields, else-Yields}
use oxiproxy.Proxies.Admission.{OwnClient, parsed-Yields, read_client-Yields}
use oxiproxy.Proxies.Separate.{by_id}
use oxiproxy.Proxies.Updates.{
  UpdateProxyRequest, read_proxy, delete_proxy, admit_update, update_proxy,
}
use oxiproxy.Proxies.Checking.{read_proxy-Reads}
use oxiproxy.Proxies.Changing.{read_found}

module _ {F : Type 0} where
  -- A proxy of a client is its user's, and a direct one that of the user it names.
  abbrev pub Owned : AuthUser → Proxy → Db F → Option Text → Type 0
  Owned u p db none = opt_eq p.user_id (some u.id) ≡ true
  Owned u p db (some text) = OwnClient db u text

  verify_owner-Yields :
      (u : AuthUser) (p : Proxy) (client_id : Option Text)
      → Yields (λ _ w. Owned u p (settled w).db client_id) (verify_owner {F = F} u p client_id)
  verify_owner-Yields u p none = record {
    after = (require-Yields (opt_eq p.user_id (some u.id)) 403).after;
  }
  verify_owner-Yields u p (some text) =
      learn-Yields (λ id w. parse_i64 text ≡ some id) _ (parsed-Yields (parse_i64 text) 500) _ _
        (λ id. search (reading, read_client-Reads))
        (λ id.
          learn-Yields (λ c w. find_signed id w.db.clients ≡ some c) _ (read_client-Yields id) _ _
            (λ c. search reading)
            (λ c. record {
              after = λ w w1 a e listed parsed. record {
                id = id;
                parsed = parsed;
                client = c;
                listed = listed;
                owned = (require-Yields (opt_eq c.user_id (some u.id)) 403).after w w1 a e;
              };
            }))

  pub ownership-Yields :
      (u : AuthUser) (p : Proxy)
      → u.is_admin ≡ false
      → Yields (λ _ w. Owned u p (settled w).db p.client_id) (verify_proxy_ownership {F = F} u p)
  unfolding verify_proxy_ownership
  ownership-Yields u p plain =
      else-Yields _ u.is_admin _ _ plain (verify_owner-Yields u p p.client_id)

  -- The proxy with the key is there, and is the user's.
  pub record OwnProxy (u : AuthUser) (id : ℕ) (db : Db F) : Type 0 where
    pub proxy : Proxy
    pub listed : find by_id id db.proxies ≡ some proxy
    pub owned : Owned u proxy db proxy.client_id

  -- A step that changes nothing, or runs for the owner.
  abbrev pub Guarded : AuthUser → ℕ → {A : Type 0} → Act F A → World F → Type 0
  Guarded u id m w = (settled (m w).1 ≡ settled w) ⊎ OwnProxy u id (settled w).db

  module _ (u : AuthUser) (id : ℕ) (plain : u.is_admin ≡ false) (p : Proxy) where
    checked :
        {B : Type 0} (k : Act F B) (w : World F)
        → find by_id id w.db.proxies ≡ some p
        → Guarded u id (verify_proxy_ownership u p >> k) w
    unfolding ◌>>◌
    checked {B = B} k w listed = step (verify_proxy_ownership u p w) refl
      where
        step :
            (r : Result ℕ (Unit {0}) × World F)
            → verify_proxy_ownership u p w ≡ r
            → (settled (act_then r (λ _. k)).1 ≡ settled w) ⊎ OwnProxy u id (settled w).db
        step (ok a, w1) same =
            let back : settled w1 ≡ settled w =
              rw same at ((verify_proxy_ownership-Reads u p).world w) in
            inr (record {
              proxy = p;
              listed = listed;
              owned =
                  subst (λ (v : World F). Owned u p v.db p.client_id) back
                    ((ownership-Yields u p plain).after w w1 a same);
            })
        step (err e, w1) same = inl (rw same at ((verify_proxy_ownership-Reads u p).world w))

    -- The same check as the first of a longer step.
    checked_first :
        {A B : Type 0} (rest : Act F A) (k : A → Act F B) (w : World F)
        → find by_id id w.db.proxies ≡ some p
        → Guarded u id ((verify_proxy_ownership u p >> rest) >>= k) w
    unfolding ◌>>◌ ◌>>=◌
    checked_first rest k w listed =
        joined (verify_proxy_ownership u p w) (checked (rest >>= k) w listed)
      where
        joined :
            (r : Result ℕ (Unit {0}) × World F)
            → (settled (act_then r (λ _. rest >>= k)).1 ≡ settled w) ⊎ OwnProxy u id (settled w).db
            → (settled (act_then (act_then r (λ _. rest)) k).1 ≡ settled w)
              ⊎ OwnProxy u id (settled w).db
        joined (ok a, v) h = h
        joined (err e, v) h = h

  module _ (u : AuthUser) (id : ℕ) where
    found_first :
        {B : Type 0} (k : Proxy → Act F B) (w : World F)
        → ((p : Proxy) (w1 : World F)
            → find by_id id w1.db.proxies ≡ some p
            → Guarded u id (k p) w1)
        → Guarded u id (read_proxy id >>= k) w
    unfolding ◌>>=◌
    found_first {B = B} k w hk = step (read_proxy id w) refl
      where
        step :
            (r : Result ℕ Proxy × World F)
            → read_proxy id w ≡ r
            → (settled (act_then r k).1 ≡ settled w) ⊎ OwnProxy u id (settled w).db
        step (ok p, w1) same =
            let back : settled w1 ≡ settled w = rw same at ((read_proxy-Reads id).world w) in
            subst (λ (v : World F). (settled (k p w1).1 ≡ v) ⊎ OwnProxy u id v.db) back
              (hk p w1 ((read_found id).after w w1 p same))
        step (err e, w1) same = inl (rw same at ((read_proxy-Reads id).world w))

  -- `delete_proxy`, called by a user that is not an administrator, changes no table, stops no listener and
  -- notifies nobody, unless the proxy is there and the user's own, whatever queries fail.
  pub delete_proxy_guarded :
      (u : AuthUser) (id : ℕ) (w : World F)
      → u.is_admin ≡ false
      → (settled (delete_proxy (some u) id w).1 ≡ settled w) ⊎ OwnProxy u id (settled w).db
  unfolding delete_proxy
  delete_proxy_guarded u id w plain =
      found_first u id _ w (λ p w1 listed. checked u id plain p _ w1 listed)

module _ (is_ipv6 : Text → Bool) (lib : UrlLibrary) {F : Type 0} where
  -- `update_proxy`, called by a user that is not an administrator, changes no table, starts and stops no
  -- listener and notifies nobody, unless the proxy is there and the user's own, whatever queries
  -- fail.
  pub update_proxy_guarded :
      (u : AuthUser) (id : ℕ) (req : UpdateProxyRequest) (now : DateTime) (w : World F)
      → u.is_admin ≡ false
      → (settled (update_proxy is_ipv6 lib (some u) id req now w).1 ≡ settled w)
        ⊎ OwnProxy u id (settled w).db
  unfolding update_proxy admit_update
  update_proxy_guarded u id req now w plain =
      found_first u id _ w (λ p w1 listed. checked_first u id plain p _ _ w1 listed)
