-- ===== src/Running/Tests.antt =====
-- A node that is commanded, with the witnesses of the theorems.
use oxiproxy.Prelude.{
  length, subst, some, All, ℕ, ◌≤◌, ◌≡◌, ◌↔◌, refl, Bool, true, false, none, [], ◌∷◌, List, arith,
  Text, codes, text_eq, Result, ok, is_ok, ltb, not, any, ◌&&◌, ◌==◌,
}
use oxiproxy.Prelude.Int.{ℤ}
use oxiproxy.Listeners.{ProxyConfig}
use oxiproxy.Listeners.Wellformed.{IsValid}
use oxiproxy.Running.{
  targets, RunError, Task, Outcome, Manager, active_count, start_all, start_one,
  start_client_proxies_from_configs, sync_direct_proxies,
}
use oxiproxy.Listeners.{active_count as route_count}
use oxiproxy.Prelude.Maps.{get}
use oxiproxy.Running.View.{Runs}
use oxiproxy.Running.Connections.{
  Server, take_out, stop_session, clean_up, open_session, clean_up_lem,
}
use oxiproxy.Running.Together.{IsOf, StartsAll, start_client_proxies-StartsAll}
use oxiproxy.Running.Commands.{Command, start, stop, start_direct, disconnect, replay}
use oxiproxy.Running.Refining.{run, results, run_refines}
use oxiproxy.Running.Direct.{wanted, sync_direct_lem}
use oxiproxy.Samples.{no_ipv6, no_urls}

abbrev game : ProxyConfig
game = record {
  proxy_id = 4;
  client_id = codes "5";
  name = "game";
  proxy_type = codes "udp";
  domain = [];
  upstream_url = [];
  user_id = none;
  local_ip = "127.0.0.1";
  local_port = 3000;
  remote_port = 8080;
  enabled = true;
}

abbrev direct_game : ProxyConfig
direct_game = record game { client_id = []; upstream_url = codes "http://a.com" }

abbrev idle : Manager Unit Unit
idle = record { domains = []; tasks = [] }

idle-IsValid : IsValid {Url = Unit} {H = Unit} []
idle-IsValid = record { distinct = tt; serving = λ port l e. absurd (cc) }

-- A port below 9000 is free unless a task that has not returned has it.
abbrev free_below_9000 : Manager Unit Unit → ProxyConfig → Bool
free_below_9000 m c =
    ltb c.remote_port 9000
    && not (
        any
          (λ (e : Text × List (ℕ × Task Unit)).
            any (λ t. not t.1.is_finished && t.1.config.remote_port == c.remote_port) e.1)
          m.tasks)

abbrev games_of_5 : ℤ → Result (Unit {0}) (List ProxyConfig)
games_of_5 n = ok (game ∷ [])

one_active :
    active_count
      (start_client_proxies_from_configs no_ipv6 no_urls free_below_9000 tt
        (codes "5")
        (game ∷ [])
        idle).1
    ≡ 1
unfolding active_count start_client_proxies_from_configs start_all start_one route_count
one_active = refl

both_start :
    StartsAll (codes "5") (game ∷ record game { proxy_id = 6; remote_port = 8081 } ∷ []) idle (
      start_client_proxies_from_configs no_ipv6 no_urls free_below_9000 tt
        (codes "5")
        (game ∷ record game { proxy_id = 6; remote_port = 8081 } ∷ [])
        idle)
both_start =
    start_client_proxies-StartsAll no_ipv6 no_urls free_below_9000 tt (codes "5")
      (game ∷ record game { proxy_id = 6; remote_port = 8081 } ∷ []) idle (refl, (refl, tt))
      idle-IsValid

abbrev orders : List Command
orders =
    start (codes "5") 4
    ∷ start_direct direct_game
    ∷ stop (codes "5") 4
    ∷ disconnect (codes "5")
    ∷ []

abbrev ordered : Manager Unit Unit
ordered = run no_ipv6 no_urls free_below_9000 tt games_of_5 orders idle

games_told :
    (n : ℤ) (cs : List ProxyConfig)
    → games_of_5 n ≡ ok cs
    → (length (targets 4 cs) ≤ 1) × IsOf (codes "5") (targets 4 cs)
games_told n cs e =
    let same : game ∷ [] ≡ cs = cc in
    subst (λ l. (length (targets 4 l) ≤ 1) × IsOf (codes "5") (targets 4 l)) same
      (omega arith, (refl, tt))

run_refines_example :
    IsValid ordered.domains
    × ((c : Text) (i : ℕ)
        → Runs ordered c i
          ↔ replay orders
              (results no_ipv6 no_urls free_below_9000 tt games_of_5 orders idle)
              (Runs idle)
              c
              i)
run_refines_example =
    run_refines no_ipv6 no_urls free_below_9000 tt games_of_5 orders idle
      (λ n cs parsed e. games_told n cs e, (tt, (tt, (tt, tt)))) idle-IsValid

abbrev synced : Result RunError (Unit {0}) × Manager Unit Unit
synced = sync_direct_proxies no_ipv6 no_urls free_below_9000 tt (direct_game ∷ []) ordered

sync_direct_example :
    IsValid synced.1.domains
    × ((c : Text) (i : ℕ) → text_eq c [] ≡ false → Runs synced.1 c i ↔ Runs ordered c i)
    × ((i : ℕ) → Runs synced.1 [] i → wanted i (direct_game ∷ []) ≡ true)
    × (is_ok synced.0 ≡ true)
sync_direct_example =
    sync_direct_lem no_ipv6 no_urls free_below_9000 tt (direct_game ∷ []) ordered
      run_refines_example.0

abbrev online : Server Unit Unit
online = record { connections = (codes "5", 1) ∷ []; manager = idle }

abbrev reopened : Server Unit Unit → Outcome (Server Unit Unit)
reopened s = open_session no_ipv6 no_urls free_below_9000 tt (codes "5") 2 (game ∷ []) s

abbrev interrupted : Server Unit Unit
interrupted = stop_session (codes "5") (reopened (take_out (codes "5") 1 online).1).1

clean_up_example :
    ((take_out (codes "5") 1 online).0 ≡ true)
    × (is_ok (reopened (clean_up (codes "5") 1 online)).0 ≡ true
        → All
            (λ (p : ProxyConfig).
              Runs (reopened (clean_up (codes "5") 1 online)).1.manager (codes "5") p.proxy_id)
            (game ∷ []))
    × (get text_eq (codes "5") interrupted.connections ≡ some 2)
    × ((i : ℕ) → Runs interrupted.manager (codes "5") i → ⊥)
clean_up_example =
    clean_up_lem no_ipv6 no_urls free_below_9000 tt (codes "5") 1 2 (game ∷ []) online (refl, tt)
      idle-IsValid refl
