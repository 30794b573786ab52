-- ===== src/Running/Connections.antt =====
-- The session of a QUIC client in node/src/server/proxy_server.rs (`handle_client_auth`), after its
-- token: the connection is stored and the client's proxies are started; when it is closed, it is
-- taken out if it is still the stored one, and then the proxies are stopped. The lock of the
-- connections is released before the stop, so sessions may come in between. A connection is a number.
use oxiproxy.Prelude.{
  ℕ, ◌≡◌, refl, ◌∙◌, inl, inr, Bool-cases, Bool, true, false, Option, none, some, List, Text,
  text_eq, text_eq_iff, ◌==◌, ==_iff, if◌then◌else◌, is_ok, All,
}
use oxiproxy.Prelude.Maps.{get, insert, remove, get-insert}
use oxiproxy.Upstream.{UrlLibrary}
use oxiproxy.Listeners.{ProxyConfig}
use oxiproxy.Listeners.Wellformed.{IsValid}
use oxiproxy.Running.{Outcome, Manager, stop_client_proxies, start_client_proxies_from_configs}
use oxiproxy.Running.View.{Runs, Runs-stop_client, stop_client-IsValid}
use oxiproxy.Running.Together.{IsOf, start_client_proxies-StartsAll}

pub record Server (Url H : Type 0) : Type 0 where
  pub connections : List (Text × ℕ)
  pub manager : Manager Url H

abbrev pub is_stored : Option ℕ → ℕ → Bool
is_stored none connection = false
is_stored (some stored) connection = stored == connection

module _ {Url H : Type 0} where
  -- The first half of the clean-up: was the connection the stored one.
  unfoldable pub take_out : Text → ℕ → Server Url H → Bool × Server Url H
  take_out client connection s =
      if is_stored (get text_eq client s.connections) connection
      then (true, record s { connections = remove text_eq client s.connections })
      else (false, s)

  -- The second half.
  unfoldable pub stop_session : Text → Server Url H → Server Url H
  stop_session client s = record s { manager = stop_client_proxies client s.manager }

  unfoldable pub clean_up : Text → ℕ → Server Url H → Server Url H
  unfolding take_out stop_session
  clean_up client connection s =
      let (own, left) = take_out client connection s in
      if own then stop_session client left else left

  take_out_own :
      (client : Text) (connection : ℕ) (s : Server Url H)
      → get text_eq client s.connections ≡ some connection
      → (take_out client connection s).0 ≡ true
  unfolding take_out
  take_out_own client connection s stored =
      rw stored (rw ((==_iff connection connection).1 refl) refl)

  take_out-IsValid :
      (client : Text) (connection : ℕ) (s : Server Url H)
      → IsValid s.manager.domains
      → IsValid (take_out client connection s).1.manager.domains
  unfolding take_out
  take_out-IsValid client connection s v =
      elim (Bool-cases (is_stored (get text_eq client s.connections) connection)) [
        | inl own ↦ rw own v
        | inr other ↦ rw other v
      ]

  clean_up-IsValid :
      (client : Text) (connection : ℕ) (s : Server Url H)
      → IsValid s.manager.domains
      → IsValid (clean_up client connection s).manager.domains
  unfolding clean_up take_out stop_session
  clean_up-IsValid client connection s v =
      elim (Bool-cases (is_stored (get text_eq client s.connections) connection)) [
        | inl own ↦ rw own (stop_client-IsValid client s.manager v)
        | inr other ↦ rw other v
      ]

same_client : (client : Text) → text_eq client client ≡ true
same_client client = (text_eq_iff client client).1 refl

differs : (client : Text) → text_eq client client ≡ false → ⊥
differs client e = let same = same_client client in absurd (cc)

module _ (is_ipv6 : Text → Bool) (lib : UrlLibrary) {H : Type 0}
    (binds : Manager lib.Url H → ProxyConfig → Bool) (handles : H) where
  -- A new session; an error of the start is logged.
  unfoldable pub open_session :
      Text → ℕ → List ProxyConfig → Server lib.Url H → Outcome (Server lib.Url H)
  open_session client connection configs s =
      let started =
        start_client_proxies_from_configs is_ipv6 lib binds handles client configs s.manager in
      (
        started.0,
        record {
          connections = insert text_eq client connection s.connections;
          manager = started.1;
        },
      )

  -- From valid listeners, with configurations that name the client: if the clean-up of the old
  -- connection, which is the stored one, ends before the client's new session opens, and the start of
  -- its proxies succeeds, they all run; if the new session opens between the two halves of the
  -- clean-up, which goes on to the second, the client is connected with the new connection, and none of its proxies runs.
  pub clean_up_lem :
      (client : Text) (old new : ℕ) (configs : List ProxyConfig) (s : Server lib.Url H)
      → IsOf client configs
      → IsValid s.manager.domains
      → get text_eq client s.connections ≡ some old
      → ((take_out client old s).0 ≡ true)
        × (is_ok (open_session client new configs (clean_up client old s)).0 ≡ true
            → All
                (λ (p : ProxyConfig).
                  Runs
                    (open_session client new configs (clean_up client old s)).1.manager
                    client
                    p.proxy_id)
                configs)
        × (get text_eq client
              (stop_session client
                (open_session client new configs (take_out client old s).1).1).connections
            ≡ some new)
        × ((i : ℕ)
            → Runs
                (stop_session client
                  (open_session client new configs (take_out client old s).1).1).manager
                client
                i
            → ⊥)
  unfolding open_session stop_session
  clean_up_lem client old new configs s own v stored =
      let left = take_out client old s in
      let first =
        start_client_proxies-StartsAll is_ipv6 lib binds handles client configs
          (clean_up client old s).manager own (clean_up-IsValid client old s v) in
      let early =
        start_client_proxies-StartsAll is_ipv6 lib binds handles client configs left.1.manager own
          (take_out-IsValid client old s v) in
      let between =
        start_client_proxies_from_configs is_ipv6 lib binds handles client configs left.1.manager in
      (
        take_out_own client old s stored,
        first.done,
        get-insert text_eq text_eq_iff client client new left.1.connections
            ∙ rw (same_client client) refl,
        λ i runs.
            let gone = ((Runs-stop_client client client i between.1 early.valid).0 runs).1 in
            absurd (differs client gone),
      )
