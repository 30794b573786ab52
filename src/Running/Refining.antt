-- ===== src/Running/Refining.antt =====
-- The commands of the proxy control against the set of running proxies, as a function of what they
-- return.
use oxiproxy.Prelude.{ℕ, ◌↔◌, Bool, List, [], ◌∷◌, Text, Result, is_ok, All}
use oxiproxy.Prelude.Int.{ℤ}
use oxiproxy.Upstream.{UrlLibrary}
use oxiproxy.Listeners.{ProxyConfig}
use oxiproxy.Listeners.Wellformed.{IsValid}
use oxiproxy.Running.{Manager}
use oxiproxy.Running.View.{Runs}
use oxiproxy.Running.Commands.{Command, after, replay, replay_same}
use oxiproxy.Running.Performing.{Provides, perform, perform-Refines}

module _ (is_ipv6 : Text → Bool) (lib : UrlLibrary) {H : Type 0}
    (binds : Manager lib.Url H → ProxyConfig → Bool) (handles : H)
    (provider : ℤ → Result (Unit {0}) (List ProxyConfig)) where
  -- The state after a series of commands, and what each returned.
  unfoldable pub run : List Command → Manager lib.Url H → Manager lib.Url H
  run [] m = m
  run (c ∷ cs) m = run cs (perform is_ipv6 lib binds handles provider c m).1

  unfoldable pub results : List Command → Manager lib.Url H → List Bool
  results [] m = []
  results (c ∷ cs) m =
      is_ok (perform is_ipv6 lib binds handles provider c m).0
      ∷ results cs (perform is_ipv6 lib binds handles provider c m).1

  -- From valid listeners, and where the provider's answers name the client and each proxy once,
  -- the proxies that run after any series of commands are those that the results of the commands
  -- say: a successful start adds its proxy, a failed one takes it away (a refused direct
  -- configuration does nothing), a stop takes its proxy away, a disconnection the client's proxies.
  pub run_refines :
      (cs : List Command) (m : Manager lib.Url H)
      → All (Provides provider) cs
      → IsValid m.domains
      → IsValid (run cs m).domains
        × ((c : Text) (i : ℕ) → Runs (run cs m) c i ↔ replay cs (results cs m) (Runs m) c i)
  unfolding run results replay
  run_refines [] m told v = (v, λ c i. (λ h. h, λ h. h))
  run_refines (command ∷ cs) m (told, tolds) v =
      let step = perform-Refines is_ipv6 lib binds handles provider command m told v in
      let (valid, agrees) =
        run_refines cs (perform is_ipv6 lib binds handles provider command m).1 tolds step.valid in
      (
        valid,
        λ c i.
            let same =
              replay_same cs (results cs (perform is_ipv6 lib binds handles provider command m).1)
                (Runs (perform is_ipv6 lib binds handles provider command m).1)
                (after command (is_ok (perform is_ipv6 lib binds handles provider command m).0)
                  (Runs m))
                step.agrees c i in
            (λ h. same.0 ((agrees c i).0 h), λ h. (agrees c i).1 (same.1 h)),
      )
