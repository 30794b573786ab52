-- ===== src/Running/Starting.antt =====
-- What the starts of a client's proxies leave running.
use oxiproxy.Prelude.{
  ℕ, ◌≡◌, refl, sym, ap, subst, ◌∙◌, ◌⊎◌, inl, inr, Bool, true, false, ◌&&◌, ◌||◌, Option, none,
  some, List, arith, Text, text_eq, text_eq_iff, ◌==◌, ==_iff, if◌then◌else◌, Bool-cases, Result,
  ok, err, is_ok,
}
use oxiproxy.Prelude.Maps.{insert, contains_key, get-insert}
use oxiproxy.Upstream.{UrlLibrary}
use oxiproxy.Pending.{nat_eq}
use oxiproxy.Listeners.{ProxyConfig, StartError, Listeners, start}
use oxiproxy.Listeners.Wellformed.{IsValid, start-IsValid}
use oxiproxy.Listeners.Lookup.{start_lookup}
use oxiproxy.Running.{
  RunError, domain_error, unsupported_type, port_unavailable, Outcome, Task, Manager, tasks_of,
  spawned, with_domains, is_domain_type, is_port_type, start_one,
}
use oxiproxy.Running.View.{is_proxy, Runs}
use oxiproxy.Running.Tasks.{
  text_eq_comm, tasks_of-with_tasks, task_of, AddsTasks, same-AddsTasks, spawned-AddsTasks,
}
use oxiproxy.Running.Placing.{own_self, shows_new, placed_keeps, placed_adds}

has_task-insert :
    {H : Type 0} (here : Bool) (id i : ℕ) (t : Task H) (ts us : List (ℕ × Task H))
    → (here ≡ true → ts ≡ us)
    → contains_key nat_eq i (if here then insert nat_eq id t ts else us)
      ≡ ((here && i == id) || contains_key nat_eq i us)
has_task-insert false id i t ts us same = refl
has_task-insert true id i t ts us same =
    rw (same refl) (ground (arith, get-insert nat_eq ==_iff id i t us))

no_task : {A : Type 0} (o : Option A) → (elim o [ none ↦ false | some a ↦ true ]) ≡ false → o ≡ none
no_task none h = refl
no_task (some a) h = absurd (cc)

is_proxy_self : (c : Text) (i : ℕ) → is_proxy c i c i ≡ true
is_proxy_self c i = ground (arith, text_eq_iff c c, ==_iff i i)

module _ {Url H : Type 0} where
  -- What a start of one proxy may do to the proxies that run: none of them stops, and no other starts.
  pub record Adds (client : Text) (id : ℕ) (m m' : Manager Url H) : Type 0 where
    pub keeps : (c : Text) (i : ℕ) → Runs m c i → Runs m' c i
    pub only : (c : Text) (i : ℕ) → Runs m' c i → Runs m c i ⊎ (is_proxy c i client id ≡ true)
    pub valid : IsValid m'.domains

  unchanged-Adds :
      (client : Text) (id : ℕ) (m : Manager Url H) → IsValid m.domains → Adds client id m m
  unchanged-Adds client id m v = record { keeps = λ c i h. h; only = λ c i h. inl h; valid = v }

  spawned-HasTask :
      (client c : Text) (cfg : ProxyConfig) (h : H) (i : ℕ) (m : Manager Url H)
      → contains_key nat_eq i (tasks_of c (spawned client cfg h m))
        ≡ (is_proxy c i client cfg.proxy_id || contains_key nat_eq i (tasks_of c m))
  spawned-HasTask client c cfg h i m =
      let t : Task H = record { config = cfg; handles = h; is_finished = false } in
      ap (contains_key nat_eq i)
        (tasks_of-with_tasks client c (insert nat_eq cfg.proxy_id t (tasks_of client m)) m)
      ∙ has_task-insert (text_eq client c) cfg.proxy_id i t (tasks_of client m) (tasks_of c m)
          (λ same. ap (λ k. tasks_of k m) ((text_eq_iff client c).0 same))
      ∙ ap (λ b. (b && i == cfg.proxy_id) || contains_key nat_eq i (tasks_of c m))
          (text_eq_comm client c)

  spawned-Adds :
      (client : Text) (c : ProxyConfig) (h : H) (m : Manager Url H)
      → IsValid m.domains
      → Adds client c.proxy_id m (spawned client c h m)
  spawned-Adds client c h m v = record {
    keeps = λ x i runs. elim runs [
      | inl task ↦ inl (
          spawned-HasTask client x c h i m
          ∙ ap (λ b. is_proxy x i client c.proxy_id || b) task
          ∙ ground arith)
      | inr route ↦ inr route
    ];
    only = λ x i runs. elim runs [
      | inl task ↦
          split (is_proxy x i client c.proxy_id) x i (sym (spawned-HasTask client x c h i m) ∙ task)
      | inr route ↦ inl (inr route)
    ];
    valid = v;
  }
    where
      split :
          (b : Bool) (x : Text) (i : ℕ)
          → (b || contains_key nat_eq i (tasks_of x m)) ≡ true
          → Runs m x i ⊎ (b ≡ true)
      split true x i e = inr refl
      split false x i e = inl (inl e)

  -- What the start of one proxy does: on an error nothing, else the proxy runs.
  pub record StartsOne (client : Text) (id : ℕ) (m : Manager Url H) (o : Outcome (Manager Url H))
      : Type 0 where
    pub adds : Adds client id m o.1
    pub tasks : AddsTasks m o.1
    pub done : is_ok o.0 ≡ true → Runs o.1 client id
    pub failed : is_ok o.0 ≡ false → o.1 ≡ m

  refused-StartsOne :
      (client : Text) (id : ℕ) (m : Manager Url H) (e : RunError)
      → IsValid m.domains
      → StartsOne client id m (err e, m)
  refused-StartsOne client id m e v = record {
    adds = unchanged-Adds client id m v;
    tasks = same-AddsTasks m m (λ c. refl);
    done = λ no_. absurd (cc);
    failed = λ _. refl;
  }

module _ (is_ipv6 : Text → Bool) (lib : UrlLibrary) {H : Type 0}
    (binds : Manager lib.Url H → ProxyConfig → Bool) (handles : H) where
  domain-StartsOne :
      (c : ProxyConfig) (m : Manager lib.Url H) (r : Result StartError (Listeners lib.Url H))
      → start is_ipv6 lib (λ port. binds m c) c handles m.domains ≡ r
      → IsValid m.domains
      → StartsOne c.client_id c.proxy_id m (with_domains m r)
  domain-StartsOne c m (err e) run v = refused-StartsOne c.client_id c.proxy_id m (domain_error e) v
  domain-StartsOne c m (ok ls) run v =
      let (r, _, config, may, at) =
        start_lookup is_ipv6 lib (λ port. binds m c) c handles m.domains ls run in
      let client : r.config.client_id ≡ c.client_id =
        ap (λ (x : ProxyConfig). x.client_id) config in
      let id : r.config.proxy_id ≡ c.proxy_id = ap (λ (x : ProxyConfig). x.proxy_id) config in
      let port : r.config.remote_port ≡ c.remote_port =
        ap (λ (x : ProxyConfig). x.remote_port) config in
      let may' = rw (← port) at may in
      record {
        adds = record {
          keeps = λ x i runs. elim runs [
            | inl task ↦ inl task
            | inr route ↦ inr (placed_keeps r m.domains ls may' at x i route)
          ];
          only = λ x i runs. elim runs [
            | inl task ↦ inl (inl task)
            | inr route ↦ elim (placed_adds r m.domains ls may' at x i route) [
              | inl old ↦ inl (inr old)
              | inr own ↦ inr (rw (← client, ← id) own)
            ]
          ];
          valid = start-IsValid is_ipv6 lib (λ p. binds m c) c handles m.domains ls v run;
        };
        tasks = same-AddsTasks m (record m { domains = ls }) (λ x. refl);
        done = λ _. inr (
          r.config.remote_port,
          r.config.domain,
          r,
          shows_new r m.domains ls may' at,
          own_self r c.client_id c.proxy_id
              ∙ rw (client, id) (is_proxy_self c.client_id c.proxy_id),
        );
        failed = λ no_. absurd (cc);
      }

  own-StartsOne :
      (c : ProxyConfig) (m : Manager lib.Url H)
      → IsValid m.domains
      → StartsOne c.client_id c.proxy_id m (start_one is_ipv6 lib binds handles c.client_id c m)
  unfolding start_one
  own-StartsOne c m v =
      elim (Bool-cases (contains_key nat_eq c.proxy_id (tasks_of c.client_id m))) [
        | inl running ↦ rw running (record {
          adds = unchanged-Adds c.client_id c.proxy_id m v;
          tasks = same-AddsTasks m m (λ x. refl);
          done = λ _. inl running;
          failed = λ _. refl;
        })
        | inr idle ↦ rw idle (elim (Bool-cases (is_domain_type c.proxy_type)) [
          | inl domain ↦ rw domain (
              domain-StartsOne c m (start is_ipv6 lib (λ port. binds m c) c handles m.domains) refl
                v)
          | inr other ↦ rw other (elim (Bool-cases (is_port_type c.proxy_type)) [
            | inr unknown ↦
                rw unknown (refused-StartsOne c.client_id c.proxy_id m unsupported_type v)
            | inl port ↦ rw port (elim (Bool-cases (binds m c)) [
              | inr taken ↦ rw taken (refused-StartsOne c.client_id c.proxy_id m port_unavailable v)
              | inl free ↦ rw free (record {
                adds = spawned-Adds c.client_id c handles m v;
                tasks =
                    spawned-AddsTasks c handles m (no_task (task_of c.client_id c.proxy_id m) idle);
                done = λ _. inl (
                    spawned-HasTask c.client_id c.client_id c handles c.proxy_id m
                    ∙ ap (λ b. b || contains_key nat_eq c.proxy_id (tasks_of c.client_id m))
                        (is_proxy_self c.client_id c.proxy_id));
                failed = λ no_. absurd (cc);
              })
            ])
          ])
        ])
      ]

  pub start_one-StartsOne :
      (client : Text) (c : ProxyConfig) (m : Manager lib.Url H)
      → c.client_id ≡ client
      → IsValid m.domains
      → StartsOne client c.proxy_id m (start_one is_ipv6 lib binds handles client c m)
  start_one-StartsOne client c m own v =
      subst (λ k. StartsOne k c.proxy_id m (start_one is_ipv6 lib binds handles k c m)) own
        (own-StartsOne c m v)
