-- ===== src/Running/Performing.antt =====
-- Each command of the proxy control against the set of running proxies.
use oxiproxy.Prelude.{
  ℕ, ◌≤◌, ◌≡◌, refl, sym, ap, subst, ◌∙◌, ◌↔◌, inl, inr, Bool, true, false, ◌&&◌, some, List, [],
  ◌∷◌, arith, Text, ◌==◌, ==_iff, if◌then◌else◌, length, is_empty, Bool-cases, Option-cases, Result,
  ok, err, is_ok,
}
use oxiproxy.Prelude.Int.{ℤ}
use oxiproxy.Upstream.{UrlLibrary}
use oxiproxy.Handlers.{parse_i64}
use oxiproxy.Listeners.{ProxyConfig}
use oxiproxy.Listeners.Wellformed.{IsValid}
use oxiproxy.Running.{
  RunError, bad_client_id, provider_failed, proxy_missing, Outcome, Manager, targets,
  is_direct_config, stop_client_proxies, stop_single_proxy, start_targets, start_provided,
  start_proxy, start_direct_proxy, stop_proxy,
}
use oxiproxy.Running.View.{
  is_proxy, Runs, Runs-stop_single, Runs-stop_client, stop_single-IsValid, stop_client-IsValid,
}
use oxiproxy.Running.Together.{IsOf, Turns, start_alone-Turns}
use oxiproxy.Running.Tasks.{both}
use oxiproxy.Running.Commands.{
  Command, start, stop, start_direct, disconnect, View, with, without, after,
}

module _ {Url H : Type 0} where
  -- A state that runs what the view says.
  abbrev pub Matches : Manager Url H → View → Type 0
  Matches m v = (c : Text) (i : ℕ) → Runs m c i ↔ v c i

  pub record Refines (command : Command) (m : Manager Url H) (o : Outcome (Manager Url H))
      : Type 0 where
    pub valid : IsValid o.1.domains
    pub agrees : Matches o.1 (after command (is_ok o.0) (Runs m))

  -- A proxy that is stopped and then started runs, and nothing else is different.
  replaced :
      (client : Text) (id : ℕ) (m : Manager Url H) (o : Outcome (Manager Url H))
      → IsValid m.domains
      → Turns client id (stop_single_proxy client id m) o
      → (fine : Bool) → is_ok o.0 ≡ fine
      → (c : Text) (i : ℕ)
      → Runs o.1 c i
        ↔ (if fine then with client id (Runs m) c i else without client id (Runs m) c i)
  replaced client id m o v turns false failed c i =
      let stopped = Runs-stop_single client c id i m v in
      let same = turns.fails failed c i in
      (λ runs. stopped.0 (same.0 runs), λ runs. same.1 (stopped.1 runs))
  replaced client id m o v turns true fine c i =
      let stopped = Runs-stop_single client c id i m v in
      let added = turns.succeeds fine c i in
      (
        λ runs. elim (added.0 runs) [ inl before ↦ inl (stopped.0 before).0 | inr own ↦ inr own ],
        λ runs. elim (Bool-cases (is_proxy c i client id)) [
          | inl own ↦ added.1 (inr own)
          | inr other ↦ elim runs [
            | inl before ↦ added.1 (inl (stopped.1 (before, other)))
            | inr own ↦ absurd (cc)
          ]
        ],
      )

  refused-Turns :
      (client : Text) (id : ℕ) (m : Manager Url H) (e : RunError)
      → IsValid m.domains
      → Turns client id m (err e, m)
  refused-Turns client id m e v = record {
    valid = v;
    succeeds = λ no_. absurd (cc);
    fails = λ _ c i. (λ runs. runs, λ runs. runs);
  }

  start-Refines :
      (client : Text) (id : ℕ) (m : Manager Url H) (o : Outcome (Manager Url H))
      → IsValid m.domains
      → Turns client id (stop_single_proxy client id m) o
      → Refines (start client id) m o
  start-Refines client id m o v turns = record {
    valid = turns.valid;
    agrees =
        λ c i. (as_start (is_ok o.0) c i (replaced client id m o v turns (is_ok o.0) refl c i));
  }
    where
      as_start :
          (fine : Bool) (c : Text) (i : ℕ)
          → Runs o.1 c i
            ↔ (if fine then with client id (Runs m) c i else without client id (Runs m) c i)
          → Runs o.1 c i ↔ after (start client id) fine (Runs m) c i
      as_start true c i h = h
      as_start false c i h = h

  start_direct-Refines :
      (cfg : ProxyConfig) (m : Manager Url H) (o : Outcome (Manager Url H))
      → IsValid m.domains
      → is_direct_config cfg ≡ true
      → Turns [] cfg.proxy_id (stop_single_proxy [] cfg.proxy_id m) o
      → Refines (start_direct cfg) m o
  start_direct-Refines cfg m o v direct turns = record {
    valid = turns.valid;
    agrees =
        λ c i. as_start (is_ok o.0) c i (replaced [] cfg.proxy_id m o v turns (is_ok o.0) refl c i);
  }
    where
      as_start :
          (fine : Bool) (c : Text) (i : ℕ)
          → Runs o.1 c i ↔ (
              if fine
              then with [] cfg.proxy_id (Runs m) c i
              else without [] cfg.proxy_id (Runs m) c i)
          → Runs o.1 c i ↔ after (start_direct cfg) fine (Runs m) c i
      as_start true c i h = h
      as_start false c i h = rw direct h

pub no_client : (c : ProxyConfig) → is_direct_config c ≡ true → c.client_id ≡ []
no_client c direct =
    is_empty-nil c.client_id (both (is_empty c.client_id) _ (both _ c.enabled direct).0).0
  where
    is_empty-nil : (s : Text) → is_empty s ≡ true → s ≡ []
    is_empty-nil [] e = refl
    is_empty-nil (x ∷ s) e = absurd (cc)

target_id :
    (id : ℕ) (cs : List ProxyConfig) (c : ProxyConfig) → targets id cs ≡ c ∷ [] → c.proxy_id ≡ id
target_id id [] c e = absurd (cc)
target_id id (p ∷ cs) c e = elim (Bool-cases (p.proxy_id == id && p.enabled)) [
  | inr out ↦ target_id id cs c (rw out at e)
  | inl kept ↦
      let first = rw kept at e in
      let same : p ≡ c = cc in
      ap (λ (q : ProxyConfig). q.proxy_id) (sym same)
      ∙ (==_iff p.proxy_id id).0 (both (p.proxy_id == id) p.enabled kept).0
]

-- What is relied on of the provider: a client's configurations name the client, each proxy once.
abbrev pub Provides : (ℤ → Result (Unit {0}) (List ProxyConfig)) → Command → Type 0
Provides provider (start client id) =
    (n : ℤ) (cs : List ProxyConfig)
    → parse_i64 client ≡ some n
    → provider n ≡ ok cs
    → (length (targets id cs) ≤ 1) × IsOf client (targets id cs)
Provides provider (stop client id) = Unit {0}
Provides provider (start_direct c) = Unit {0}
Provides provider (disconnect client) = Unit {0}

module _ (is_ipv6 : Text → Bool) (lib : UrlLibrary) {H : Type 0}
    (binds : Manager lib.Url H → ProxyConfig → Bool) (handles : H) where
  targets-Turns :
      (client : Text) (id : ℕ) (cs : List ProxyConfig) (m : Manager lib.Url H)
      → length (targets id cs) ≤ 1
      → IsOf client (targets id cs)
      → IsValid m.domains
      → (ts : List ProxyConfig) → targets id cs ≡ ts
      → Turns client id m (start_targets is_ipv6 lib binds handles client ts m)
  targets-Turns client id cs m short own v [] e = refused-Turns client id m proxy_missing v
  targets-Turns client id cs m short own v (c ∷ d ∷ ts) e =
      absurd (omega (arith, ap (λ (l : List ProxyConfig). length l) e))
  targets-Turns client id cs m short own v (c ∷ []) e =
      subst (λ k. Turns client k m (start_targets is_ipv6 lib binds handles client (c ∷ []) m))
        (target_id id cs c e)
        (start_alone-Turns is_ipv6 lib binds handles client c m (rw e at own).0 v)

  provided-Turns :
      (client : Text) (id : ℕ) (m : Manager lib.Url H)
      (answer : Result (Unit {0}) (List ProxyConfig))
      → ((cs : List ProxyConfig)
          → answer ≡ ok cs
          → (length (targets id cs) ≤ 1) × IsOf client (targets id cs))
      → IsValid m.domains
      → Turns client id m (start_provided is_ipv6 lib binds handles client id answer m)
  provided-Turns client id m (err e) told v = refused-Turns client id m provider_failed v
  provided-Turns client id m (ok cs) told v =
      let (short, own) = told cs refl in
      targets-Turns client id cs m short own v (targets id cs) refl

  module _ (provider : ℤ → Result (Unit {0}) (List ProxyConfig)) where
    unfoldable pub perform : Command → Manager lib.Url H → Outcome (Manager lib.Url H)
    perform (start client id) m = start_proxy is_ipv6 lib binds handles provider client id m
    perform (stop client id) m = stop_proxy is_ipv6 lib binds handles client id m
    perform (start_direct c) m = start_direct_proxy is_ipv6 lib binds handles c m
    perform (disconnect client) m = (ok tt, stop_client_proxies client m)

    start_proxy-Refines :
        (client : Text) (id : ℕ) (m : Manager lib.Url H)
        → Provides provider (start client id)
        → IsValid m.domains
        → Refines (start client id) m (start_proxy is_ipv6 lib binds handles provider client id m)
    unfolding start_proxy
    start_proxy-Refines client id m told v =
        let stopped = stop_single_proxy client id m in
        let sv = stop_single-IsValid client id m v in
        elim (Option-cases (parse_i64 client)) [
          | inl bad ↦
              rw (bad, start_proxy)
                (start-Refines client id m (err bad_client_id, stopped) v
                  (refused-Turns client id stopped bad_client_id sv))
          | inr (n, parsed) ↦
              rw (parsed, start_proxy)
                (start-Refines client id m _ v
                  (provided-Turns client id stopped (provider n) (λ cs e. told n cs parsed e) sv))
        ]

    start_direct_proxy-Refines :
        (c : ProxyConfig) (m : Manager lib.Url H)
        → IsValid m.domains
        → Refines (start_direct c) m (start_direct_proxy is_ipv6 lib binds handles c m)
    unfolding start_direct_proxy
    start_direct_proxy-Refines c m v = elim (Bool-cases (is_direct_config c)) [
      | inr bad ↦ rw bad (record { valid = v; agrees = λ x i. rw bad (λ runs. runs, λ runs. runs) })
      | inl direct ↦ rw direct (
          start_direct-Refines c m _ v direct (
            start_alone-Turns is_ipv6 lib binds handles [] c (stop_single_proxy [] c.proxy_id m)
              (no_client c direct) (stop_single-IsValid [] c.proxy_id m v)))
    ]

    -- Every command does to the set of running proxies what its result says, and keeps the
    -- listeners valid.
    pub perform-Refines :
        (command : Command) (m : Manager lib.Url H)
        → Provides provider command
        → IsValid m.domains
        → Refines command m (perform command m)
    unfolding perform stop_proxy
    perform-Refines (start client id) m told v = start_proxy-Refines client id m told v
    perform-Refines (start_direct c) m told v = start_direct_proxy-Refines c m v
    perform-Refines (stop client id) m told v = record {
      valid = stop_single-IsValid client id m v;
      agrees = λ c i. Runs-stop_single client c id i m v;
    }
    perform-Refines (disconnect client) m told v = record {
      valid = stop_client-IsValid client m v;
      agrees = λ c i. Runs-stop_client client c i m v;
    }
