-- ===== src/Proxies/Distinctness.antt =====
-- A batch on different ports keeps the routes of the enabled proxies apart, from its checks to its rows.
use oxiproxy.Prelude.{
  ℕ, ◌≡◌, refl, ap, ◌∙◌, Bool, true, false, not, Option, none, some, List, [], ◌∷◌, String, ◌==◌,
  any, map, All,
}
use oxiproxy.Prelude.Time.{DateTime}
use oxiproxy.Store.{Client, Proxy}
use oxiproxy.Handlers.{AuthUser, World, Act, reject}
use oxiproxy.Handlers.Reading.{reading, settled, require-Reads}
use oxiproxy.Handlers.Yielding.{
  Yields, then-Yields, keep-Yields, learn-Yields, query-Yields, require-Yields,
}
use oxiproxy.Handlers.Keeping.{
  Turns, Reads-Turns, bind-Turns, then-Turns, notify-Turns, found_then-Turns, return-Turns,
  weaken-Turns,
}
use oxiproxy.Proxies.Routing.{NewKeys}
use oxiproxy.Proxies.Separate.{Separate}
use oxiproxy.Proxies.Checking.{
  client_named-Reads, check_ports-Reads, check_batch_node-Reads, check_port-Reads, for_each-Reads,
}
use oxiproxy.Proxies.Batch.{
  BatchCreateProxyRequest, Shared, batch_shared, is_taken, for_each, check_port, check_ports,
  check_batch_node, port_pairs, zip_ports, create_all, batch_for, batch_create_proxies,
}
use oxiproxy.Proxies.Batching.{Distinct, IsFree, Room, remote_ports_of, create_rows-Turns}

not-true : (b : Bool) → not b ≡ true → b ≡ false
not-true true h = absurd (cc)
not-true false h = refl

module _ {F : Type 0} where
  abbrev AllFree : Option ℕ → List ℕ → World F → Type 0
  AllFree node_id ports w = All (IsFree node_id w.db.proxies) ports

  check_port-Yields :
      (node_id : Option ℕ) (port : ℕ)
      → Yields (λ _ w. IsFree node_id (settled w).db.proxies port) (check_port {F = F} node_id port)
  unfolding check_port
  check_port-Yields node_id port = then-Yields _ _ _ (
      learn-Yields (λ taken w. any (is_taken node_id port) w.db.proxies ≡ taken) _
        (query-Yields (λ db. any (is_taken node_id port) db.proxies) (λ db. refl)) _ _
        (λ taken. require-Reads (not taken) 409)
        (λ taken. record {
          after =
              λ w w1 a e is. is ∙ not-true taken ((require-Yields (not taken) 409).after w w1 a e);
        }))

  check_each-Yields :
      (node_id : Option ℕ) (ports : List ℕ)
      → Yields (λ _ w. AllFree node_id ports w) (for_each (check_port {F = F} node_id) ports)
  unfolding for_each
  check_each-Yields node_id [] = record { after = λ w w1 a e. tt }
  check_each-Yields node_id (port ∷ ports) =
      keep-Yields (λ w. IsFree node_id w.db.proxies port) _ (check_port-Yields node_id port) _ _
        (for_each-Reads (check_port node_id) ports (check_port-Reads node_id))
        (record {
          after = λ w w1 a e free. (free, (check_each-Yields node_id ports).after w w1 a e);
        })

  check_ports-Yields :
      (u : AuthUser) (client : Client F) (node_id : Option ℕ) (ports : List ℕ)
      (node_access : Act F (Unit {0}))
      → Yields (λ _ w. AllFree node_id ports w) (check_ports u client node_id ports node_access)
  check_ports-Yields u client node_id ports node_access =
      then-Yields _ _ _ (then-Yields _ _ _ (check_each-Yields node_id ports))

-- The remote ports of the pairs are those of the request, or the first of them.
map_pairs : (l : ℕ) (ports : List ℕ) → remote_ports_of (map (λ r. (l, r)) ports) ≡ ports
unfolding remote_ports_of
map_pairs l [] = refl
map_pairs l (p ∷ ports) = ap (λ r. p ∷ r) (map_pairs l ports)

module _ {ℓ} (P : ℕ → Type ℓ) where
  zip-All : (locals ports : List ℕ) → All P ports → All P (remote_ports_of (zip_ports locals ports))
  unfolding zip_ports remote_ports_of
  zip-All [] ports h = tt
  zip-All (l ∷ locals) [] h = tt
  zip-All (l ∷ locals) (p ∷ ports) (h, hs) = (h, zip-All locals ports hs)

  pairs-All :
      (locals ports : List ℕ) → All P ports → All P (remote_ports_of (port_pairs locals ports))
  unfolding port_pairs
  pairs-All [] ports h = zip-All [] ports h
  pairs-All (l ∷ []) ports h = rw (map_pairs l ports) h
  pairs-All (l ∷ k ∷ locals) ports h = zip-All (l ∷ k ∷ locals) ports h

zip-Distinct :
    (locals ports : List ℕ) → Distinct ports → Distinct (remote_ports_of (zip_ports locals ports))
unfolding zip_ports remote_ports_of
zip-Distinct [] ports h = tt
zip-Distinct (l ∷ locals) [] h = tt
zip-Distinct (l ∷ locals) (p ∷ ports) (h, hs) =
    (zip-All (λ y. (p == y) ≡ false) locals ports h, zip-Distinct locals ports hs)

pairs-Distinct :
    (locals ports : List ℕ) → Distinct ports → Distinct (remote_ports_of (port_pairs locals ports))
unfolding port_pairs
pairs-Distinct [] ports h = zip-Distinct [] ports h
pairs-Distinct (l ∷ []) ports h = rw (map_pairs l ports) h
pairs-Distinct (l ∷ k ∷ locals) ports h = zip-Distinct (l ∷ k ∷ locals) ports h

module _ (next_key : List Proxy → ℕ) (keys : NewKeys next_key) {F : Type 0} where
  create_all-Turns :
      (shared : Shared) (local_ports remote_ports : List ℕ)
      → Distinct remote_ports
      → Turns
          (Room shared.node_id remote_ports)
          Separate
          (create_all next_key {F = F} shared local_ports remote_ports)
  create_all-Turns shared local_ports remote_ports d =
      let pairs = port_pairs local_ports remote_ports in
      weaken-Turns (Room shared.node_id remote_ports) Separate _
        (λ ps room. record {
          separate = room.separate;
          free = pairs-All (IsFree shared.node_id ps) local_ports remote_ports room.free;
        })
        (bind-Turns (Room shared.node_id (remote_ports_of pairs)) Separate Separate (λ ps s. s) _ _
          (create_rows-Turns next_key keys shared [] pairs
            (pairs-Distinct local_ports remote_ports d))
          (λ rows.
            then-Turns Separate Separate Separate (λ ps s. s) _ _ (notify-Turns Separate _)
              (return-Turns Separate Separate rows (λ ps s. s))))

  batch_for-Turns :
      (new_group : String) (u : AuthUser) (req : BatchCreateProxyRequest) (now : DateTime)
      → Distinct req.remote_ports
      → Turns Separate Separate (batch_for next_key {F = F} new_group u req now)
  batch_for-Turns new_group u req now d =
      then-Turns Separate Separate Separate (λ ps s. s) _ _
        (Reads-Turns Separate _ (search reading))
        (then-Turns Separate Separate Separate (λ ps s. s) _ _
          (Reads-Turns Separate _ (search reading))
          (then-Turns Separate Separate Separate (λ ps s. s) _ _
            (Reads-Turns Separate _ (search reading))
            (bind-Turns Separate Separate Separate (λ ps s. s) _ _
              (Reads-Turns Separate _ (client_named-Reads req.client_id))
              (λ client.
                found_then-Turns Separate (Room req.node_id req.remote_ports) Separate _ _
                  (λ ps s. s)
                  (check_ports-Reads u client req.node_id req.remote_ports _
                    (check_batch_node-Reads u client req.node_id))
                  (record {
                    after = λ w w1 a e s. record {
                      separate = s;
                      free =
                          (check_ports-Yields u client req.node_id req.remote_ports
                              (check_batch_node u client req.node_id)).after
                            w w1 a e;
                    };
                  })
                  (create_all-Turns (batch_shared new_group req now) req.local_ports
                    req.remote_ports d)))))

  -- After `batch_create_proxies` on ports that differ, whatever it answers and whatever queries failed or
  -- listeners refused to start, no two proxies have one key and no two enabled ones clash, if that
  -- held before and all keys were positive (and if new keys are positive and new).
  pub batch_create-Separate :
      (new_group : String) (caller : Option AuthUser) (req : BatchCreateProxyRequest)
      (now : DateTime) (w : World F)
      → Distinct req.remote_ports
      → Separate w.db.proxies
      → Separate (batch_create_proxies next_key new_group caller req now w).1.db.proxies
  unfolding batch_create_proxies reject
  batch_create-Separate new_group none req now w d s = s
  batch_create-Separate new_group (some u) req now w d s =
      (batch_for-Turns new_group u req now d).table w s
