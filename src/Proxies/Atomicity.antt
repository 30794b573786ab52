-- ===== src/Proxies/Atomicity.antt =====
-- The handlers that create proxies, from their checks to their answer, while the database works.
use oxiproxy.Prelude.{
  ℕ, ◌≡◌, refl, ◌∙◌, Bool, true, false, Option, none, some, List, [], ◌∷◌, ◌++◌, append-nil, String,
  Text, All, Result, ok, err,
}
use oxiproxy.Prelude.Time.{DateTime}
use oxiproxy.Upstream.{UrlLibrary}
use oxiproxy.Store.{Proxy}
use oxiproxy.Store.Rows.{delete_row}
use oxiproxy.Handlers.{AuthUser, World, reject}
use oxiproxy.Handlers.Reading.{reading, verify_proxy_group_ownership-Reads}
use oxiproxy.Handlers.Ending.{
  Ends, Found, Found-Ends, bind-Ends, then-Ends, given-Ends, given_then-Ends, answered-Ends,
  read-Ends, read_then-Ends, Gives, tried-Ends, write-Ends, control-Ends, notify-Ends, return-Ends,
  reject-Ends,
}
use oxiproxy.Proxies.{
  CreateProxyRequest, admit_proxy, after_start, launch, notify_some, create_for, create_proxy,
}
use oxiproxy.Proxies.Routing.{NewKeys, admit_proxy-Yields}
use oxiproxy.Proxies.Separate.{by_id}
use oxiproxy.Proxies.Checking.{
  admit_proxy-Reads, client_named-Reads, check_ports-Reads, check_batch_node-Reads,
}
use oxiproxy.Proxies.Batch.{
  BatchCreateProxyRequest, AddPortsToGroupRequest, Shared, batch_shared, group_shared, port_pairs,
  create_all, batch_for, batch_create_proxies, add_ports_for, add_ports_to_proxy_group,
}
use oxiproxy.Proxies.Rollback.{AllOrNothing, Differs, delete_row-append, create_rows-Ends}

module _ (next_key : List Proxy → ℕ) (keys : NewKeys next_key) {F : Type 0} where
  create_all-Ends :
      (ps : List Proxy) (shared : Shared) (local_ports remote_ports : List ℕ)
      → Ends ps (AllOrNothing ps) (create_all next_key {F = F} shared local_ports remote_ports)
  create_all-Ends ps shared local_ports remote_ports =
      bind-Ends ps (AllOrNothing ps) (AllOrNothing ps) _ _
        (rw (append-nil ps) at (
          create_rows-Ends next_key keys {F = F} shared ps [] (port_pairs local_ports remote_ports)
            tt))
        (λ e qs h. h)
        (λ rows qs h.
          given_then-Ends qs qs (AllOrNothing ps) _ _ (notify-Ends qs shared.client_id)
            (return-Ends qs (AllOrNothing ps) rows h))

  batch_for-Ends :
      (ps : List Proxy) (new_group : String) (u : AuthUser) (req : BatchCreateProxyRequest)
      (now : DateTime)
      → Ends ps (AllOrNothing ps) (batch_for next_key {F = F} new_group u req now)
  batch_for-Ends ps new_group u req now =
      read_then-Ends ps (AllOrNothing ps) _ _ (search reading) (λ e. refl)
        (read_then-Ends ps (AllOrNothing ps) _ _ (search reading) (λ e. refl)
          (read_then-Ends ps (AllOrNothing ps) _ _ (search reading) (λ e. refl)
            (read-Ends ps (AllOrNothing ps) _ _ (client_named-Reads req.client_id) (λ e. refl)
              (λ client.
                read_then-Ends ps (AllOrNothing ps) _ _
                  (check_ports-Reads u client req.node_id req.remote_ports _
                    (check_batch_node-Reads u client req.node_id))
                  (λ e. refl)
                  (create_all-Ends ps (batch_shared new_group req now) req.local_ports
                    req.remote_ports)))))

  -- If no query fails, then `batch_create_proxies`, whoever calls and whatever listeners refuse to start,
  -- either answers with rows that are then at the end of the table of proxies, which is otherwise
  -- what it was, or answers with an error and leaves the table as it was (if new keys are new).
  pub batch_create_atomic :
      (new_group : String) (caller : Option AuthUser) (req : BatchCreateProxyRequest)
      (now : DateTime) (w : World F)
      → w.db.faults ≡ []
      → let after = batch_create_proxies next_key new_group caller req now w in
        AllOrNothing w.db.proxies after.0 after.1.db.proxies
  unfolding batch_create_proxies reject
  batch_create_atomic new_group none req now w calm = refl
  batch_create_atomic new_group (some u) req now w calm =
      ((batch_for-Ends w.db.proxies new_group u req now).run w
        (record { rows = refl; calm = calm })).0

  add_ports_for-Ends :
      (ps : List Proxy) (u : AuthUser) (group : String) (req : AddPortsToGroupRequest)
      (now : DateTime)
      → Ends ps (AllOrNothing ps) (add_ports_for next_key {F = F} u group req now)
  add_ports_for-Ends ps u group req now =
      read_then-Ends ps (AllOrNothing ps) _ _ (search reading) (λ e. refl)
        (read_then-Ends ps (AllOrNothing ps) _ _ (search reading) (λ e. refl)
          (read-Ends ps (AllOrNothing ps) _ _ (verify_proxy_group_ownership-Reads u group)
            (λ e. refl)
            (λ existing.
              let shared = group_shared group existing.0 now in
              read-Ends ps (AllOrNothing ps) _ _ (client_named-Reads shared.client_id) (λ e. refl)
                (λ client.
                  read_then-Ends ps (AllOrNothing ps) _ _
                    (check_ports-Reads u client shared.node_id req.remote_ports _ (search reading))
                    (λ e. refl) (create_all-Ends ps shared req.local_ports req.remote_ports)))))

  -- If no query fails, then `add_ports_to_proxy_group` likewise adds all of its rows or none.
  pub add_ports_atomic :
      (caller : Option AuthUser) (group : String) (req : AddPortsToGroupRequest) (now : DateTime)
      (w : World F)
      → w.db.faults ≡ []
      → let after = add_ports_to_proxy_group next_key caller group req now w in
        AllOrNothing w.db.proxies after.0 after.1.db.proxies
  unfolding add_ports_to_proxy_group reject
  add_ports_atomic none group req now w calm = refl
  add_ports_atomic (some u) group req now w calm =
      ((add_ports_for-Ends w.db.proxies u group req now).run w
        (record { rows = refl; calm = calm })).0

-- The row of a success stands at the end of the table; an error leaves the table as it was.
abbrev pub OneOrNothing : List Proxy → Result ℕ Proxy → List Proxy → Type 0
OneOrNothing ps (ok p) qs = qs ≡ ps ++ p ∷ []
OneOrNothing ps (err e) qs = qs ≡ ps

abbrev Launched : (ps : List Proxy) → Proxy → Result ℕ (Unit {0}) → List Proxy → Type 0
Launched ps p (ok a) qs = qs ≡ ps ++ p ∷ []
Launched ps p (err e) qs = qs ≡ ps

module _ (is_ipv6 : Text → Bool) (lib : UrlLibrary) (next_key : List Proxy → ℕ)
    (keys : NewKeys next_key) {F : Type 0} where
  admit_proxy-Ends :
      (ps : List Proxy) (u : AuthUser) (req : CreateProxyRequest) (now : DateTime)
      → Ends ps
          (Found (λ p qs. All (Differs p.id) qs) ps)
          (admit_proxy is_ipv6 lib next_key {F = F} u req now)
  admit_proxy-Ends ps u req now =
      Found-Ends (λ p qs. All (Differs p.id) qs) ps _
        (admit_proxy-Reads is_ipv6 lib next_key u req now)
        (record {
          after = λ w w1 p e.
              let keyed =
                ((admit_proxy-Yields is_ipv6 lib next_key u req now).after w w1 p e).keyed in
              rw keyed (keys.fresh w1.db.proxies);
        })

  launch-Ends :
      (ps : List Proxy) (p : Proxy)
      → All (Differs p.id) ps
      → Ends ps (Launched ps p) (launch {F = F} p)
  unfolding launch
  launch-Ends ps p fresh =
      given_then-Ends ps (ps ++ p ∷ []) (Launched ps p) _ _ (write-Ends _ ps (λ qs. qs ++ p ∷ [])) (
        answered-Ends (ps ++ p ∷ []) (ps ++ p ∷ []) (Launched ps p) _ _ (control-Ends _ _)
          started_or_not)
    where
      started_or_not :
          (running : Bool) → Ends (ps ++ p ∷ []) (Launched ps p) (after_start {F = F} p running)
      started_or_not true = return-Ends (ps ++ p ∷ []) (Launched ps p) tt refl
      started_or_not false =
          given-Ends (ps ++ p ∷ []) (delete_row by_id p.id (ps ++ p ∷ [])) (Launched ps p) true _ _
            (tried-Ends _ (ps ++ p ∷ []) (delete_row by_id p.id))
            (reject-Ends (delete_row by_id p.id (ps ++ p ∷ [])) (Launched ps p) 409
              (delete_row-append p ps [] fresh tt ∙ append-nil ps))

  notify_some-Ends :
      (ps : List Proxy) (c : Option Text) → Ends ps (Gives tt ps) (notify_some {F = F} c)
  notify_some-Ends ps none = return-Ends ps (Gives tt ps) tt (refl, refl)
  notify_some-Ends ps (some c) = notify-Ends ps c

  create_for-Ends :
      (ps : List Proxy) (u : AuthUser) (req : CreateProxyRequest) (now : DateTime)
      → Ends ps (OneOrNothing ps) (create_for is_ipv6 lib next_key {F = F} u req now)
  create_for-Ends ps u req now =
      bind-Ends ps (Found (λ p qs. All (Differs p.id) qs) ps) (OneOrNothing ps) _ _
        (admit_proxy-Ends ps u req now) (λ e qs h. h.0)
        (λ p qs h. rw h.0 (
          then-Ends ps (Launched ps p) (OneOrNothing ps) _ _ (launch-Ends ps p h.1) (λ e rs i. i)
            (λ a rs i. rw i (
              given_then-Ends (ps ++ p ∷ []) (ps ++ p ∷ []) (OneOrNothing ps) _ _
                (notify_some-Ends (ps ++ p ∷ []) req.client_id)
                (return-Ends (ps ++ p ∷ []) (OneOrNothing ps) p refl)))))

  -- If no query fails, then `create_proxy`, whoever calls and whether its listener starts or not, either
  -- answers with a row that is then at the end of the table of proxies, which is otherwise what it
  -- was, or answers with an error and leaves the table as it was (if new keys are new).
  pub create_proxy_atomic :
      (caller : Option AuthUser) (req : CreateProxyRequest) (now : DateTime) (w : World F)
      → w.db.faults ≡ []
      → let after = create_proxy is_ipv6 lib next_key caller req now w in
        OneOrNothing w.db.proxies after.0 after.1.db.proxies
  unfolding create_proxy reject
  create_proxy_atomic none req now w calm = refl
  create_proxy_atomic (some u) req now w calm =
      ((create_for-Ends w.db.proxies u req now).run w (record { rows = refl; calm = calm })).0
