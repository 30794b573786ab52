-- ===== src/Running.antt =====
-- node/src/server/proxy_server.rs (`ProxyListenerManager`) and node/src/server/local_proxy_control.rs:
-- which proxies a node runs, and the commands that start and stop them. A proxy of type tcp or udp has
-- a task of its own, one of type http or https a route of the shared listeners (Listeners). `binds` says
-- of a configuration, in the manager's state at that time, whether the socket that its start asks for
-- can be bound. That socket is given back at once, and the spawned task binds it again: if that fails,
-- the task returns, like any task may (`is_finished`). `provider` is the authentication provider's
-- answer for a client. The manager's lock is held through each operation.
pub mod View
pub mod Placing
pub mod Tasks
pub mod Starting
pub mod Together
pub mod Commands
pub mod Performing
pub mod Refining
pub mod Direct
pub mod Connections
mod Tests
use oxiproxy.Prelude.{
  ℕ, ◌+◌, Bool, true, false, not, ◌&&◌, ◌||◌, Option, none, some, List, [], ◌∷◌, Text, codes,
  text_eq, is_empty, ◌==◌, if◌then◌else◌, filter, length, Result, ok, err,
}
use oxiproxy.Prelude.Int.{ℤ}
use oxiproxy.Prelude.Maps.{get, insert, remove, contains_key}
use oxiproxy.Upstream.{UrlLibrary}
use oxiproxy.Pending.{nat_eq}
use oxiproxy.Handlers.{parse_i64}
use oxiproxy.Listeners.{ProxyConfig, StartError, Listeners, start, stop}
use oxiproxy.Listeners

pub data RunError : Type 0 where
  domain_error : StartError → RunError
  unsupported_type port_unavailable bad_client_id provider_failed proxy_missing : RunError
  bad_direct_config : RunError

-- A spawned task: what it serves, and whether it has returned.
pub record Task (H : Type 0) : Type 0 where
  pub config : ProxyConfig
  pub handles : H
  pub is_finished : Bool

pub record Manager (Url H : Type 0) : Type 0 where
  pub domains : Listeners Url H
  pub tasks : List (Text × List (ℕ × Task H))

-- A fallible step on a state, which is kept on an error.
abbrev pub Outcome : Type 0 → Type 0
Outcome S = Result RunError (Unit {0}) × S

abbrev pub and_then : {S : Type 0} → Outcome S → (S → Outcome S) → Outcome S
and_then (ok a, s) k = k s
and_then (err e, s) k = (err e, s)

abbrev pub is_domain_type : Text → Bool
is_domain_type t = text_eq t (codes "http") || text_eq t (codes "https")

abbrev pub is_port_type : Text → Bool
is_port_type t = text_eq t (codes "tcp") || text_eq t (codes "udp")

abbrev pub targets : ℕ → List ProxyConfig → List ProxyConfig
targets id cs = filter (λ (p : ProxyConfig). p.proxy_id == id && p.enabled) cs

-- The `ensure!` on the configuration of a direct proxy.
abbrev pub is_direct_config : ProxyConfig → Bool
is_direct_config c = is_empty c.client_id && not (is_empty c.upstream_url) && c.enabled

module _ {H : Type 0} where
  -- `if let Some(client_listeners) = listeners.get_mut(client_id)`, with what it finds.
  abbrev pub without_task :
      Text
      → ℕ
      → Option (List (ℕ × Task H))
      → List (Text × List (ℕ × Task H))
      → List (Text × List (ℕ × Task H))
  without_task client id none tasks = tasks
  without_task client id (some ts) tasks = insert text_eq client (remove nat_eq id ts) tasks

  abbrev pub or_no_tasks : Option (List (ℕ × Task H)) → List (ℕ × Task H)
  or_no_tasks none = []
  or_no_tasks (some ts) = ts

  abbrev pub unfinished : List (ℕ × Task H) → ℕ
  unfinished ts = length (filter (λ t. not t.1.is_finished) ts)

  abbrev pub port_proxies : List (Text × List (ℕ × Task H)) → ℕ
  port_proxies [] = 0
  port_proxies ((client, ts) ∷ tasks) = unfinished ts + port_proxies tasks

module _ {Url H : Type 0} where
  -- The tasks of a client.
  abbrev pub tasks_of : Text → Manager Url H → List (ℕ × Task H)
  tasks_of client m = or_no_tasks (get text_eq client m.tasks)

  abbrev pub with_tasks : Text → List (ℕ × Task H) → Manager Url H → Manager Url H
  with_tasks client ts m = record m { tasks = insert text_eq client ts m.tasks }

  pub active_count : Manager Url H → ℕ
  active_count m = port_proxies m.tasks + Listeners.active_count m.domains

  -- `listeners.entry(client_id).or_insert_with(HashMap::new)`
  abbrev pub entered : Text → Manager Url H → Manager Url H
  entered client m = with_tasks client (tasks_of client m) m

  abbrev pub spawned : Text → ProxyConfig → H → Manager Url H → Manager Url H
  spawned client c h m =
      with_tasks client
        (insert nat_eq c.proxy_id (record { config = c; handles = h; is_finished = false })
          (tasks_of client m))
        m

  abbrev pub with_domains :
      Manager Url H → Result StartError (Listeners Url H) → Outcome (Manager Url H)
  with_domains m (ok ls) = (ok tt, record m { domains = ls })
  with_domains m (err e) = (err (domain_error e), m)

  pub stop_client_proxies : Text → Manager Url H → Manager Url H
  stop_client_proxies client m = record {
    domains = stop client none m.domains;
    tasks = remove text_eq client m.tasks;
  }

  pub stop_single_proxy : Text → ℕ → Manager Url H → Manager Url H
  stop_single_proxy client id m = record {
    domains = stop client (some id) m.domains;
    tasks = without_task client id (get text_eq client m.tasks) m.tasks;
  }

module _ (is_ipv6 : Text → Bool) (lib : UrlLibrary) {H : Type 0}
    (binds : Manager lib.Url H → ProxyConfig → Bool) (handles : H) where
  open lib use {Url}

  -- The loop's body in `start_client_proxies_from_configs`.
  unfoldable pub start_one : Text → ProxyConfig → Manager Url H → Outcome (Manager Url H)
  start_one client c m =
      if contains_key nat_eq c.proxy_id (tasks_of client m)
      then (ok tt, m)
      else (if is_domain_type c.proxy_type
          then with_domains m (start is_ipv6 lib (λ port. binds m c) c handles m.domains)
          else (if not (is_port_type c.proxy_type)
              then (err unsupported_type, m)
              else (if binds m c
                  then (ok tt, spawned client c handles m)
                  else (err port_unavailable, m))))

  -- The loop: an error ends it, and what was started before stays.
  unfoldable pub start_all : Text → List ProxyConfig → Manager Url H → Outcome (Manager Url H)
  start_all client [] m = (ok tt, m)
  start_all client (c ∷ cs) m = and_then (start_one client c m) (start_all client cs)

  unfoldable pub start_client_proxies_from_configs :
      Text → List ProxyConfig → Manager Url H → Outcome (Manager Url H)
  start_client_proxies_from_configs client [] m = (ok tt, m)
  start_client_proxies_from_configs client (c ∷ cs) m = start_all client (c ∷ cs) (entered client m)

  -- A command's start of the target proxies that it found.
  abbrev pub start_targets : Text → List ProxyConfig → Manager Url H → Outcome (Manager Url H)
  start_targets client [] m = (err proxy_missing, m)
  start_targets client (c ∷ cs) m = start_client_proxies_from_configs client (c ∷ cs) m

  abbrev pub start_provided :
      Text → ℕ → Result (Unit {0}) (List ProxyConfig) → Manager Url H → Outcome (Manager Url H)
  start_provided client id (ok cs) m = start_targets client (targets id cs) m
  start_provided client id (err e) m = (err provider_failed, m)

  -- `LocalProxyControl::start_proxy`: the proxy is stopped first.
  unfoldable pub start_proxy :
      (ℤ → Result (Unit {0}) (List ProxyConfig))
      → Text
      → ℕ
      → Manager Url H
      → Outcome (Manager Url H)
  start_proxy provider client id m =
      let stopped = stop_single_proxy client id m in
      elim (parse_i64 client) [
        | none ↦ (err bad_client_id, stopped)
        | some n ↦ start_provided client id (provider n) stopped
      ]

  unfoldable pub start_direct_proxy : ProxyConfig → Manager Url H → Outcome (Manager Url H)
  start_direct_proxy c m =
      if is_direct_config c
      then start_client_proxies_from_configs [] (c ∷ []) (stop_single_proxy [] c.proxy_id m)
      else (err bad_direct_config, m)

  -- The loop of `sync_direct_proxies`: an invalid configuration ends it, a failed start is logged.
  unfoldable pub restore_direct : List ProxyConfig → Manager Url H → Outcome (Manager Url H)
  restore_direct [] m = (ok tt, m)
  restore_direct (c ∷ cs) m =
      let rest = restore_direct cs (start_client_proxies_from_configs [] (c ∷ []) m).1 in
      if is_direct_config c then rest else (err bad_direct_config, m)

  unfoldable pub sync_direct_proxies : List ProxyConfig → Manager Url H → Outcome (Manager Url H)
  sync_direct_proxies cs m = restore_direct cs (stop_client_proxies [] m)

  unfoldable pub stop_proxy : Text → ℕ → Manager Url H → Outcome (Manager Url H)
  stop_proxy client id m = (ok tt, stop_single_proxy client id m)
