-- ===== src/Running/Together.antt =====
-- The starts of all the proxies of a client, one after another.
use oxiproxy.Prelude.{
  ℕ, ◌≡◌, refl, sym, ap, ◌⊎◌, ◌↔◌, inl, inr, Bool, true, false, ◌&&◌, ◌||◌, List, [], ◌∷◌, arith,
  Text, text_eq, text_eq_iff, ◌==◌, ==_iff, ok, err, is_ok, All, any,
}
use oxiproxy.Prelude.Maps.{contains_key}
use oxiproxy.Upstream.{UrlLibrary}
use oxiproxy.Pending.{nat_eq}
use oxiproxy.Listeners.{ProxyConfig}
use oxiproxy.Listeners.Wellformed.{IsValid}
use oxiproxy.Running.{
  Outcome, Manager, entered, and_then, start_one, start_all, start_client_proxies_from_configs,
}
use oxiproxy.Running.View.{is_proxy, HasRoute, Runs}
use oxiproxy.Running.Tasks.{both, tasks_of-entered, AddsTasks, same-AddsTasks, trans-AddsTasks}
use oxiproxy.Running.Starting.{StartsOne, start_one-StartsOne}

-- The number is a configuration's.
abbrev pub listed : ℕ → List ProxyConfig → Bool
listed i cs = any (λ (p : ProxyConfig). i == p.proxy_id) cs

abbrev pub IsOf : Text → List ProxyConfig → Type 0
IsOf client cs = All (λ (p : ProxyConfig). p.client_id ≡ client) cs

first_listed : (a b l : Bool) → (a && b) ≡ true → (a && (b || l)) ≡ true
first_listed a b l h = ground arith

later_listed : (a b l : Bool) → (a && l) ≡ true → (a && (b || l)) ≡ true
later_listed a b l h = ground arith

module _ {Url H : Type 0} where
  -- What the start of a client's proxies does to the proxies that have a task or a route: none of them
  -- loses it, no other gets one but proxies of the list, and all of the list have one unless there is
  -- an error. The tasks that were there stay as they are, also those that have returned, and the new
  -- ones have not returned.
  pub record StartsAll (client : Text) (cs : List ProxyConfig) (m : Manager Url H)
      (o : Outcome (Manager Url H)) : Type 0 where
    pub keeps : (c : Text) (i : ℕ) → Runs m c i → Runs o.1 c i
    pub only :
        (c : Text) (i : ℕ) → Runs o.1 c i → Runs m c i ⊎ ((text_eq c client && listed i cs) ≡ true)
    pub done : is_ok o.0 ≡ true → All (λ (p : ProxyConfig). Runs o.1 client p.proxy_id) cs
    pub tasks : AddsTasks m o.1
    pub valid : IsValid o.1.domains

  nothing-StartsAll :
      (client : Text) (m : Manager Url H) → IsValid m.domains → StartsAll client [] m (ok tt, m)
  nothing-StartsAll client m v = record {
    keeps = λ c i h. h;
    only = λ c i h. inl h;
    done = λ _. tt;
    tasks = same-AddsTasks m m (λ c. refl);
    valid = v;
  }

  cons-StartsAll :
      (client : Text) (c : ProxyConfig) (cs : List ProxyConfig) (m : Manager Url H)
      (o : Outcome (Manager Url H)) (k : Manager Url H → Outcome (Manager Url H))
      → StartsOne client c.proxy_id m o
      → ((m' : Manager Url H) → IsValid m'.domains → StartsAll client cs m' (k m'))
      → StartsAll client (c ∷ cs) m (and_then o k)
  cons-StartsAll client c cs m (err e, m') k first rest = record {
    keeps = first.adds.keeps;
    only = λ x i h. elim (first.adds.only x i h) [
      | inl old ↦ inl old
      | inr own ↦ inr (first_listed (text_eq x client) (i == c.proxy_id) (listed i cs) own)
    ];
    done = λ no_. absurd (cc);
    tasks = first.tasks;
    valid = first.adds.valid;
  }
  cons-StartsAll client c cs m (ok a, m') k first rest =
      let next = rest m' first.adds.valid in
      record {
        keeps = λ x i h. next.keeps x i (first.adds.keeps x i h);
        only = λ x i h. elim (next.only x i h) [
          | inr own ↦ inr (later_listed (text_eq x client) (i == c.proxy_id) (listed i cs) own)
          | inl before ↦ elim (first.adds.only x i before) [
            | inl old ↦ inl old
            | inr own ↦ inr (first_listed (text_eq x client) (i == c.proxy_id) (listed i cs) own)
          ]
        ];
        done = λ fine. (next.keeps client c.proxy_id (first.done refl), next.done fine);
        tasks = trans-AddsTasks m m' (k m').1 first.tasks next.tasks;
        valid = next.valid;
      }

  pub entered-Runs :
      (client : Text) (m : Manager Url H) (c : Text) (i : ℕ)
      → Runs (entered client m) c i ≡ Runs m c i
  entered-Runs client m c i =
      ap (λ ts. (contains_key nat_eq i ts ≡ true) ⊎ HasRoute c i m.domains)
        (tasks_of-entered client c m)

  entered-StartsAll :
      (client : Text) (cs : List ProxyConfig) (m : Manager Url H) (o : Outcome (Manager Url H))
      → StartsAll client cs (entered client m) o
      → StartsAll client cs m o
  entered-StartsAll client cs m o h = record {
    keeps = λ c i runs. h.keeps c i (rw (entered-Runs client m c i) runs);
    only = λ c i runs. rw (entered-Runs client m c i) at (h.only c i runs);
    done = h.done;
    tasks =
        trans-AddsTasks m (entered client m) o.1
          (same-AddsTasks m (entered client m) (λ c. sym (tasks_of-entered client c m))) h.tasks;
    valid = h.valid;
  }

module _ (is_ipv6 : Text → Bool) (lib : UrlLibrary) {H : Type 0}
    (binds : Manager lib.Url H → ProxyConfig → Bool) (handles : H) where
  start_all-StartsAll :
      (client : Text) (cs : List ProxyConfig) (m : Manager lib.Url H)
      → IsOf client cs
      → IsValid m.domains
      → StartsAll client cs m (start_all is_ipv6 lib binds handles client cs m)
  unfolding start_all
  start_all-StartsAll client [] m own v = nothing-StartsAll client m v
  start_all-StartsAll client (c ∷ cs) m (own, owns) v =
      cons-StartsAll client c cs m (start_one is_ipv6 lib binds handles client c m)
        (start_all is_ipv6 lib binds handles client cs)
        (start_one-StartsOne is_ipv6 lib binds handles client c m own v)
        (λ m' v'. start_all-StartsAll client cs m' owns v')

  -- From valid listeners, starting a client's proxies, all of which name that client, takes no task
  -- and no route away, gives none to a proxy that is not in the list, also on an error, keeps the
  -- listeners valid, and leaves every proxy of the list with a route or a task unless it returns an
  -- error. Each task that was there is as it was; each that is new is one of its client and its proxy,
  -- where there was none, and has not returned. A task that had returned by itself stays where it is
  -- all the same, in place of a new one, although the answer may be a success.
  pub start_client_proxies-StartsAll :
      (client : Text) (cs : List ProxyConfig) (m : Manager lib.Url H)
      → IsOf client cs
      → IsValid m.domains
      → StartsAll client cs m
          (start_client_proxies_from_configs is_ipv6 lib binds handles client cs m)
  unfolding start_client_proxies_from_configs
  start_client_proxies-StartsAll client [] m own v = nothing-StartsAll client m v
  start_client_proxies-StartsAll client (c ∷ cs) m own v =
      entered-StartsAll client (c ∷ cs) m _
        (start_all-StartsAll client (c ∷ cs) (entered client m) own v)

only_listed : (a b : Bool) → (a && (b || false)) ≡ true → (a && b) ≡ true
only_listed a b h = ground arith

module _ {Url H : Type 0} where
  -- What a start of one proxy does.
  pub record Turns (client : Text) (id : ℕ) (m : Manager Url H) (o : Outcome (Manager Url H))
      : Type 0 where
    pub valid : IsValid o.1.domains
    pub succeeds :
        is_ok o.0 ≡ true
        → (c : Text) (i : ℕ) → Runs o.1 c i ↔ (Runs m c i ⊎ (is_proxy c i client id ≡ true))
    pub fails : is_ok o.0 ≡ false → (c : Text) (i : ℕ) → Runs o.1 c i ↔ Runs m c i

  named :
      (c : Text) (i : ℕ) (client : Text) (id : ℕ) (m : Manager Url H)
      → is_proxy c i client id ≡ true
      → Runs m client id
      → Runs m c i
  named c i client id m same runs =
      let (p, q) = both (text_eq c client) (i == id) same in
      rw ((text_eq_iff c client).0 p, (==_iff i id).0 q) runs

module _ (is_ipv6 : Text → Bool) (lib : UrlLibrary) {H : Type 0}
    (binds : Manager lib.Url H → ProxyConfig → Bool) (handles : H) where
  alone_failed :
      (client : Text) (c : ProxyConfig) (m : Manager lib.Url H) (o : Outcome (Manager lib.Url H))
      → StartsOne client c.proxy_id (entered client m) o
      → is_ok (and_then o (λ s. (ok tt, s))).0 ≡ false
      → (and_then o (λ s. (ok tt, s))).1 ≡ entered client m
  alone_failed client c m (ok a, s) first e = absurd (cc)
  alone_failed client c m (err x, s) first e = first.failed refl

  -- A start of one proxy: it runs too if there is no error, else the same proxies run as before.
  pub start_alone-Turns :
      (client : Text) (c : ProxyConfig) (m : Manager lib.Url H)
      → c.client_id ≡ client
      → IsValid m.domains
      → Turns client c.proxy_id m
          (start_client_proxies_from_configs is_ipv6 lib binds handles client (c ∷ []) m)
  unfolding start_client_proxies_from_configs start_all
  start_alone-Turns client c m own v =
      let o = start_one is_ipv6 lib binds handles client c (entered client m) in
      let first : StartsOne client c.proxy_id (entered client m) o =
        start_one-StartsOne is_ipv6 lib binds handles client c (entered client m) own v in
      let all =
        start_client_proxies-StartsAll is_ipv6 lib binds handles client (c ∷ []) m (own, tt) v in
      record {
        valid = all.valid;
        succeeds = λ fine x i. (
          λ runs. elim (all.only x i runs) [
            | inl old ↦ inl old
            | inr own ↦ inr (only_listed (text_eq x client) (i == c.proxy_id) own)
          ],
          λ runs. elim runs [
            | inl old ↦ all.keeps x i old
            | inr same ↦ named x i client c.proxy_id _ same (all.done fine).0
          ],
        );
        fails = λ failed x i. (
          λ runs. rw (alone_failed client c m o first failed, entered-Runs client m x i) at runs,
          λ runs. all.keeps x i runs,
        );
      }
