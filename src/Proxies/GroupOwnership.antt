-- ===== src/Proxies/GroupOwnership.antt =====
-- What the group handlers let a user do who is not an administrator.
use oxiproxy.Prelude.{◌≡◌, refl, ◌⊎◌, Bool, false, some, List, [], ◌∷◌, String, filter}
use oxiproxy.Prelude.Time.{DateTime}
use oxiproxy.Store.{Proxy, Db}
use oxiproxy.Handlers.{
  AuthUser, World, reject, in_group, verify_group, verify_proxy_group_ownership,
}
use oxiproxy.Handlers.Reading.{
  reading, settled, verify_group-Reads, verify_proxy_group_ownership-Reads,
}
use oxiproxy.Handlers.Yielding.{
  Yields, keep-Yields, learn-Yields, query-Yields, else-Yields, guarded-bind,
}
use oxiproxy.Proxies.Groups.{toggle_proxy_group, delete_proxy_group}
use oxiproxy.Proxies.Ownership.{Owned, ownership-Yields}

module _ {F : Type 0} where
  -- The group is not empty, and its first proxy is the user's.
  pub record OwnGroup (u : AuthUser) (group : String) (db : Db F) : Type 0 where
    pub first : Proxy
    pub others : List Proxy
    pub listed : filter (in_group group) db.proxies ≡ first ∷ others
    pub owned : Owned u first db first.client_id

  module _ (u : AuthUser) (group : String) (plain : u.is_admin ≡ false) where
    verify_group-Yields :
        (ps : List Proxy)
        → Yields
            (λ (_ : Proxy × List Proxy) (w : World F).
              filter (in_group group) (settled w).db.proxies ≡ ps → OwnGroup u group (settled w).db)
            (verify_group {F = F} u ps)
    unfolding reject
    verify_group-Yields [] = record { after = λ w w1 a e. absurd (cc) }
    verify_group-Yields (p ∷ ps) =
        keep-Yields (λ w. Owned u p w.db p.client_id) _
          (else-Yields _ u.is_admin _ _ plain (ownership-Yields u p plain)) _ _ (search reading)
          (record {
            after = λ w w1 a e owned listed. record {
              first = p;
              others = ps;
              listed = listed;
              owned = owned;
            };
          })

    group-Yields :
        Yields
          (λ (_ : Proxy × List Proxy) w. OwnGroup u group (settled w).db)
          (verify_proxy_group_ownership {F = F} u group)
    unfolding verify_proxy_group_ownership
    group-Yields =
        learn-Yields (λ ps w. filter (in_group group) w.db.proxies ≡ ps) _
          (query-Yields (λ db. filter (in_group group) db.proxies) (λ db. refl)) _ _
          (verify_group-Reads u) verify_group-Yields

  -- `toggle_proxy_group` and `delete_proxy_group`, called by a user that is not an administrator, change
  -- no table, start and stop no listener and notify nobody, unless the group is there and its first
  -- proxy is the user's own, whatever queries fail.
  pub groups_guarded :
      (u : AuthUser) (group : String) (wanted : Bool) (now : DateTime) (w : World F)
      → u.is_admin ≡ false
      → ((settled (toggle_proxy_group (some u) group wanted now w).1 ≡ settled w)
          ⊎ OwnGroup u group (settled w).db)
        × ((settled (delete_proxy_group (some u) group w).1 ≡ settled w)
            ⊎ OwnGroup u group (settled w).db)
  unfolding toggle_proxy_group delete_proxy_group
  groups_guarded u group wanted now w plain = (
    guarded-bind (λ (v : World F). OwnGroup u group v.db) _ _
        (verify_proxy_group_ownership-Reads u group) (group-Yields u group plain) w,
    guarded-bind (λ (v : World F). OwnGroup u group v.db) _ _
        (verify_proxy_group_ownership-Reads u group) (group-Yields u group plain) w,
  )
