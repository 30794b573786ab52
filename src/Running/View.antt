-- ===== src/Running/View.antt =====
-- Which proxies run, as a predicate on clients and proxies, and how stopping changes it.
use oxiproxy.Prelude.{
  ℕ, ◌≡◌, refl, ap, ◌∙◌, ◌⊎◌, ◌↔◌, inl, inr, Bool, true, false, not, ◌&&◌, Option, none, some, List,
  arith, Text, text_eq, text_eq_iff, ◌==◌, ==_iff, if◌then◌else◌, Bool-cases,
}
use oxiproxy.Prelude.Maps.{get, remove, contains_key, kept, get-insert, get-remove}
use oxiproxy.Pending.{nat_eq}
use oxiproxy.Listeners.{Route, Listeners, stopped_by, stop}
use oxiproxy.Listeners.Wellformed.{IsValid, stop-IsValid}
use oxiproxy.Listeners.Lookup.{route_at, stop_lookup}
use oxiproxy.Running.{
  Task, Manager, or_no_tasks, tasks_of, without_task, stop_single_proxy, stop_client_proxies,
}

-- Is the first proxy the second.
abbrev pub is_proxy : Text → ℕ → Text → ℕ → Bool
is_proxy c i client id = text_eq c client && i == id

both_ways :
    {A B A' B' : Type 0} {P : Type 0} → A' ↔ (A × P) → B' ↔ (B × P) → (A' ⊎ B') ↔ ((A ⊎ B) × P)
both_ways {A} {B} {A'} {B'} {P} f g = (there, back)
  where
    there : A' ⊎ B' → (A ⊎ B) × P
    there (inl a) = let (x, p) = f.0 a in (inl x, p)
    there (inr b) = let (x, p) = g.0 b in (inr x, p)

    back : (A ⊎ B) × P → A' ⊎ B'
    back (inl a, p) = inl (f.1 (a, p))
    back (inr b, p) = inr (g.1 (b, p))

module _ {H : Type 0} where
  get-without_task :
      (client c : Text) (id : ℕ) (o : Option (List (ℕ × Task H)))
      (tasks : List (Text × List (ℕ × Task H)))
      → get text_eq client tasks ≡ o
      → or_no_tasks (get text_eq c (without_task client id o tasks)) ≡ (
          if text_eq client c
          then remove nat_eq id (or_no_tasks (get text_eq c tasks))
          else or_no_tasks (get text_eq c tasks))
  get-without_task client c id none tasks missing = elim (Bool-cases (text_eq client c)) [
    | inl same ↦ rw (same, ← (text_eq_iff client c).0 same, missing) refl
    | inr other ↦ rw other refl
  ]
  get-without_task client c id (some ts) tasks found = elim (Bool-cases (text_eq client c)) [
    | inl same ↦
        rw (get-insert text_eq text_eq_iff client c (remove nat_eq id ts) tasks, same)
          (rw (← (text_eq_iff client c).0 same, found) refl)
    | inr other ↦
        rw (get-insert text_eq text_eq_iff client c (remove nat_eq id ts) tasks, other) refl
  ]

  has_task-remove :
      (id i : ℕ) (ts : List (ℕ × Task H))
      → contains_key nat_eq i (remove nat_eq id ts)
        ≡ (if id == i then false else contains_key nat_eq i ts)
  has_task-remove id i ts = ground (arith, get-remove nat_eq ==_iff id i ts)

module _ {Url H : Type 0} where
  -- A route of the proxy answers on some port for some domain.
  abbrev pub HasRoute : Text → ℕ → Listeners Url H → Type 0
  HasRoute c i ls =
      (port : ℕ) × (d : Text) × (r : Route Url H) × (route_at ls port d ≡ some r)
      × (stopped_by c (some i) r ≡ true)

  abbrev pub HasTask : Text → ℕ → Manager Url H → Type 0
  HasTask c i m = contains_key nat_eq i (tasks_of c m) ≡ true

  -- The proxy has a task, or a route. A task that has returned by itself, since its client was
  -- offline, counts too: it stays in the map until the proxy is stopped.
  abbrev pub Runs : Manager Url H → Text → ℕ → Type 0
  Runs m c i = HasTask c i m ⊎ HasRoute c i m.domains

  -- `stop` takes away the routes of the proxies that it names, and no others.
  pub HasRoute-stop :
      (client : Text) (proxy : Option ℕ) (ls : Listeners Url H) (c : Text) (i : ℕ) (gone : Bool)
      → ((r : Route Url H) → stopped_by c (some i) r ≡ true → stopped_by client proxy r ≡ gone)
      → IsValid ls
      → HasRoute c i (stop client proxy ls) ↔ (HasRoute c i ls × (gone ≡ false))
  HasRoute-stop client proxy ls c i gone agrees valid = (there, back)
    where
      stays : Route Url H → Bool
      stays r = not (stopped_by client proxy r)

      left :
          (o : Option (Route Url H)) (r : Route Url H)
          → kept text_eq stays o ≡ some r
          → (o ≡ some r) × (stopped_by client proxy r ≡ false)
      left none r e = absurd (cc)
      left (some s) r e = elim (Bool-cases (stopped_by client proxy s)) [
        | inl out ↦ absurd (cc (rw out at e))
        | inr stay ↦
            let same : s ≡ r = cc (rw stay at e) in (ap (λ x. some x) same, rw same at stay)
      ]

      there : HasRoute c i (stop client proxy ls) → HasRoute c i ls × (gone ≡ false)
      there (port, d, r, at, own) =
          let e : kept text_eq stays (route_at ls port d) ≡ some r =
            rw (stop_lookup client proxy ls port d valid) at at in
          let (before, stay) = left (route_at ls port d) r e in
          ((port, d, r, before, own), cc (agrees r own, stay))

      back : HasRoute c i ls × (gone ≡ false) → HasRoute c i (stop client proxy ls)
      back ((port, d, r, at, own), free) =
          let stay : stopped_by client proxy r ≡ false = agrees r own ∙ free in
          (port, d, r, rw (stop_lookup client proxy ls port d valid, at) (rw stay refl), own)

  HasTask-stop_single :
      (client c : Text) (id i : ℕ) (m : Manager Url H)
      → HasTask c i (stop_single_proxy client id m)
        ↔ (HasTask c i m × (is_proxy c i client id ≡ false))
  unfolding stop_single_proxy
  HasTask-stop_single client c id i m = ground (
    arith,
    get-without_task client c id (get text_eq client m.tasks) m.tasks refl,
    has_task-remove id i (or_no_tasks (get text_eq c m.tasks)),
    text_eq_iff client c,
    text_eq_iff c client,
  )

  own_route :
      (c client : Text) (i id : ℕ) (r : Route Url H)
      → stopped_by c (some i) r ≡ true
      → stopped_by client (some id) r ≡ is_proxy c i client id
  unfolding stopped_by
  own_route c client i id r own = ground (
    arith,
    text_eq_iff r.config.client_id c,
    text_eq_iff r.config.client_id client,
    text_eq_iff c client,
    ==_iff i id,
  )

  own_client :
      (c client : Text) (i : ℕ) (r : Route Url H)
      → stopped_by c (some i) r ≡ true
      → stopped_by client none r ≡ text_eq c client
  unfolding stopped_by
  own_client c client i r own = ground (
    arith,
    text_eq_iff r.config.client_id c,
    text_eq_iff r.config.client_id client,
    text_eq_iff c client,
  )

  -- After `stop_single_proxy` the same proxies run, but for the one that it names.
  pub Runs-stop_single :
      (client c : Text) (id i : ℕ) (m : Manager Url H)
      → IsValid m.domains
      → Runs (stop_single_proxy client id m) c i ↔ (Runs m c i × (is_proxy c i client id ≡ false))
  unfolding stop_single_proxy
  Runs-stop_single client c id i m valid = both_ways (HasTask-stop_single client c id i m) (
      HasRoute-stop client (some id) m.domains c i (is_proxy c i client id)
        (own_route c client i id) valid)

  HasTask-stop_client :
      (client c : Text) (i : ℕ) (m : Manager Url H)
      → HasTask c i (stop_client_proxies client m) ↔ (HasTask c i m × (text_eq c client ≡ false))
  unfolding stop_client_proxies
  HasTask-stop_client client c i m = ground (
    arith,
    get-remove text_eq text_eq_iff client c m.tasks,
    text_eq_iff client c,
    text_eq_iff c client,
  )

  -- After `stop_client_proxies` the same proxies run, but for the client's.
  pub Runs-stop_client :
      (client c : Text) (i : ℕ) (m : Manager Url H)
      → IsValid m.domains
      → Runs (stop_client_proxies client m) c i ↔ (Runs m c i × (text_eq c client ≡ false))
  unfolding stop_client_proxies
  Runs-stop_client client c i m valid =
      both_ways (HasTask-stop_client client c i m)
        (HasRoute-stop client none m.domains c i (text_eq c client) (own_client c client i) valid)

  pub stop_single-IsValid :
      (client : Text) (id : ℕ) (m : Manager Url H)
      → IsValid m.domains
      → IsValid (stop_single_proxy client id m).domains
  unfolding stop_single_proxy
  stop_single-IsValid client id m valid = stop-IsValid client (some id) m.domains valid

  pub stop_client-IsValid :
      (client : Text) (m : Manager Url H)
      → IsValid m.domains
      → IsValid (stop_client_proxies client m).domains
  unfolding stop_client_proxies
  stop_client-IsValid client m valid = stop-IsValid client none m.domains valid
