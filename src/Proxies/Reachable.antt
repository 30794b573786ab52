-- ===== src/Proxies/Reachable.antt =====
-- The worlds that calls of the handlers lead to, one call after the other.
use oxiproxy.Prelude.{ℕ, Bool, Option, List, Text, String}
use oxiproxy.Prelude.Time.{DateTime}
use oxiproxy.Upstream.{UrlLibrary}
use oxiproxy.Store.{Proxy}
use oxiproxy.Handlers.{AuthUser, World}
use oxiproxy.Proxies.{CreateProxyRequest, create_proxy}
use oxiproxy.Proxies.Batch.{BatchCreateProxyRequest, batch_create_proxies}
use oxiproxy.Proxies.Batching.{Distinct}
use oxiproxy.Proxies.Distinctness.{batch_create-Separate}
use oxiproxy.Proxies.Groups.{delete_proxy_group}
use oxiproxy.Proxies.Updates.{UpdateProxyRequest, update_proxy, delete_proxy}
use oxiproxy.Proxies.Routing.{NewKeys, create_proxy-Separate}
use oxiproxy.Proxies.Changing.{update_proxy-Separate, delete_proxy-Separate, delete_group-Separate}
use oxiproxy.Proxies.Separate.{Separate}

module _ (is_ipv6 : Text → Bool) (lib : UrlLibrary) (next_key : List Proxy → ℕ) {F : Type 0} where
  -- One call by any caller. Before it, any of the coming queries may be set to fail and any of the
  -- coming calls of the proxy control to be refused, and everything but the proxies may change.
  pub data Step : World F → World F → Type 0 where
    creates :
        {w : World F} (caller : Option AuthUser) (req : CreateProxyRequest) (now : DateTime)
        → Step w (create_proxy is_ipv6 lib next_key caller req now w).1
    updates :
        {w : World F} (caller : Option AuthUser) (id : ℕ) (req : UpdateProxyRequest)
        (now : DateTime)
        → Step w (update_proxy is_ipv6 lib caller id req now w).1
    deletes :
        {w : World F} (caller : Option AuthUser) (id : ℕ) → Step w (delete_proxy caller id w).1
    batches :
        {w : World F} (group : String) (caller : Option AuthUser) (req : BatchCreateProxyRequest)
        (now : DateTime)
        → Distinct req.remote_ports
        → Step w (batch_create_proxies next_key group caller req now w).1
    group_deletes :
        {w : World F} (caller : Option AuthUser) (group : String)
        → Step w (delete_proxy_group caller group w).1
    turns :
        {w : World F} (v : World F)
        → Step w (record v { db = record v.db { proxies = w.db.proxies } })

  pub data Reaches (start : World F) : World F → Type 0 where
    here : Reaches start start
    later : {w v : World F} → Reaches start w → Step w v → Reaches start v

  module _ (keys : NewKeys next_key) where
    Step-Separate : {w v : World F} → Step w v → Separate w.db.proxies → Separate v.db.proxies
    Step-Separate {w = w} (creates caller req now) s =
        create_proxy-Separate is_ipv6 lib next_key keys caller req now w s
    Step-Separate {w = w} (updates caller id req now) s =
        update_proxy-Separate is_ipv6 lib caller id req now w s
    Step-Separate {w = w} (deletes caller id) s = delete_proxy-Separate caller id w s
    Step-Separate {w = w} (batches group caller req now d) s =
        batch_create-Separate next_key keys group caller req now w d s
    Step-Separate {w = w} (group_deletes caller group) s = delete_group-Separate caller group w s
    Step-Separate (turns v) s = s

    -- Whatever calls of `create_proxy`, `update_proxy`, `delete_proxy`, `delete_proxy_group` and (on ports
    -- that differ) `batch_create_proxies` follow each other, by whatever callers and with whatever
    -- failures, if the table began with different positive keys and without two enabled proxies that clash,
    -- then it never has them (if new keys are positive and new).
    pub reachable-Separate :
        (start w : World F) → Reaches start w → Separate start.db.proxies → Separate w.db.proxies
    reachable-Separate start w here s = s
    reachable-Separate start w (later {w = v} r one) s =
        Step-Separate one (reachable-Separate start v r s)
