-- ===== src/Running/Direct.antt =====
-- The synchronisation of the direct proxies, which have no client.
use oxiproxy.Prelude.{
  ℕ, ◌≡◌, refl, ◌⊎◌, ◌↔◌, inl, inr, Bool, true, false, ◌&&◌, ◌||◌, List, [], ◌∷◌, arith, Text,
  text_eq, ◌==◌, is_ok, all, any, Bool-cases,
}
use oxiproxy.Upstream.{UrlLibrary}
use oxiproxy.Listeners.{ProxyConfig}
use oxiproxy.Listeners.Wellformed.{IsValid}
use oxiproxy.Running.{
  Outcome, Manager, is_direct_config, stop_client_proxies, start_client_proxies_from_configs,
  restore_direct, sync_direct_proxies,
}
use oxiproxy.Running.View.{Runs, Runs-stop_client, stop_client-IsValid}
use oxiproxy.Running.Together.{start_client_proxies-StartsAll}
use oxiproxy.Running.Performing.{no_client}

-- A valid direct configuration of the number is in the list.
abbrev pub wanted : ℕ → List ProxyConfig → Bool
wanted i cs = any (λ (p : ProxyConfig). is_direct_config p && i == p.proxy_id) cs

wanted_first :
    (here direct same later : Bool)
    → direct ≡ true
    → (here && (same || false)) ≡ true
    → (here ≡ true) × (((direct && same) || later) ≡ true)
wanted_first here direct same later d h = ground arith

wanted_later : (a b : Bool) → b ≡ true → (a || b) ≡ true
wanted_later a b h = ground arith

module _ {Url H : Type 0} where
  -- The same proxies of clients run, no direct proxy stopped since, and those that started are wanted.
  pub record Restores (cs : List ProxyConfig) (m : Manager Url H) (o : Outcome (Manager Url H))
      : Type 0 where
    pub valid : IsValid o.1.domains
    pub keeps : (c : Text) (i : ℕ) → Runs m c i → Runs o.1 c i
    pub only :
        (c : Text) (i : ℕ)
        → Runs o.1 c i
        → Runs m c i ⊎ ((text_eq c [] ≡ true) × (wanted i cs ≡ true))
    pub result : is_ok o.0 ≡ all is_direct_config cs

module _ (is_ipv6 : Text → Bool) (lib : UrlLibrary) {H : Type 0}
    (binds : Manager lib.Url H → ProxyConfig → Bool) (handles : H) where
  restore_direct-Restores :
      (cs : List ProxyConfig) (m : Manager lib.Url H)
      → IsValid m.domains
      → Restores cs m (restore_direct is_ipv6 lib binds handles cs m)
  unfolding restore_direct
  restore_direct-Restores [] m v = record {
    valid = v;
    keeps = λ c i h. h;
    only = λ c i h. inl h;
    result = refl;
  }
  restore_direct-Restores (cfg ∷ cs) m v = elim (Bool-cases (is_direct_config cfg)) [
    | inr bad ↦
        rw bad
          (record { valid = v; keeps = λ c i h. h; only = λ c i h. inl h; result = rw bad refl })
    | inl direct ↦
        let o = start_client_proxies_from_configs is_ipv6 lib binds handles [] (cfg ∷ []) m in
        let first =
          start_client_proxies-StartsAll is_ipv6 lib binds handles [] (cfg ∷ []) m
            (no_client cfg direct, tt) v in
        let rest = restore_direct-Restores cs o.1 first.valid in
        rw direct (record {
          valid = rest.valid;
          keeps = λ c i h. rest.keeps c i (first.keeps c i h);
          only = λ c i h. elim (rest.only c i h) [
            | inr (own, later) ↦ inr (own, wanted_later _ (wanted i cs) later)
            | inl before ↦ elim (first.only c i before) [
              | inl old ↦ inl old
              | inr own ↦ inr (
                  wanted_first (text_eq c []) (is_direct_config cfg) (i == cfg.proxy_id)
                    (wanted i cs) direct own)
            ]
          ];
          result = rw direct rest.result;
        })
  ]

  -- From valid listeners, a synchronisation of the direct proxies leaves the proxies of clients as
  -- they are, ends every direct proxy that is not in the list as a valid configuration, keeps the
  -- listeners valid, and succeeds exactly when every configuration of the list is valid.
  pub sync_direct_lem :
      (cs : List ProxyConfig) (m : Manager lib.Url H)
      → IsValid m.domains
      → IsValid (sync_direct_proxies is_ipv6 lib binds handles cs m).1.domains
        × ((c : Text) (i : ℕ)
            → text_eq c [] ≡ false
            → Runs (sync_direct_proxies is_ipv6 lib binds handles cs m).1 c i ↔ Runs m c i)
        × ((i : ℕ)
            → Runs (sync_direct_proxies is_ipv6 lib binds handles cs m).1 [] i
            → wanted i cs ≡ true)
        × (is_ok (sync_direct_proxies is_ipv6 lib binds handles cs m).0 ≡ all is_direct_config cs)
  unfolding sync_direct_proxies
  sync_direct_lem cs m v =
      let restored =
        restore_direct-Restores cs (stop_client_proxies [] m) (stop_client-IsValid [] m v) in
      (
        restored.valid,
        λ c i other. (
          λ runs. elim (restored.only c i runs) [
            | inl before ↦ ((Runs-stop_client [] c i m v).0 before).0
            | inr (own, _) ↦ absurd (cc)
          ],
          λ runs. restored.keeps c i ((Runs-stop_client [] c i m v).1 (runs, other)),
        ),
        λ i runs. elim (restored.only [] i runs) [
          | inl before ↦ absurd (no_direct ((Runs-stop_client [] [] i m v).0 before).1)
          | inr (_, there) ↦ there
        ],
        restored.result,
      )
    where
      no_direct : text_eq [] [] ≡ false → ⊥
      no_direct h = absurd (cc)
