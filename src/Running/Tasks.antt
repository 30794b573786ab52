-- ===== src/Running/Tasks.antt =====
-- The tasks that a start of proxies leaves.
use oxiproxy.Prelude.{
  ℕ, ◌≡◌, refl, sym, ap, ◌∙◌, ◌⊎◌, inl, inr, Bool, true, false, ◌&&◌, Option, none, some, List,
  arith, Text, text_eq, text_eq_iff, ◌==◌, ==_iff, if◌then◌else◌, Bool-cases,
}
use oxiproxy.Prelude.Maps.{get, insert, get-insert}
use oxiproxy.Pending.{nat_eq}
use oxiproxy.Listeners.{ProxyConfig}
use oxiproxy.Running.{Task, Manager, tasks_of, with_tasks, entered, spawned}
use oxiproxy.Running.View.{is_proxy}

pub text_eq_comm : (a b : Text) → text_eq a b ≡ text_eq b a
text_eq_comm a b = ground (arith, text_eq_iff a b, text_eq_iff b a)

pub both : (a b : Bool) → (a && b) ≡ true → (a ≡ true) × (b ≡ true)
both a b h = ground arith

task-insert :
    {H : Type 0} (here : Bool) (id i : ℕ) (t : Task H) (ts us : List (ℕ × Task H))
    → (here ≡ true → ts ≡ us)
    → get nat_eq i (if here then insert nat_eq id t ts else us)
      ≡ (if here && i == id then some t else get nat_eq i us)
task-insert false id i t ts us same = refl
task-insert true id i t ts us same =
    rw (same refl) (ground (arith, get-insert nat_eq ==_iff id i t us))

module _ {Url H : Type 0} where
  pub tasks_of-with_tasks :
      (client c : Text) (ts : List (ℕ × Task H)) (m : Manager Url H)
      → tasks_of c (with_tasks client ts m) ≡ (if text_eq client c then ts else tasks_of c m)
  tasks_of-with_tasks client c ts m =
      ground (arith, get-insert text_eq text_eq_iff client c ts m.tasks)

  -- The task in the map for a proxy of a client.
  abbrev pub task_of : Text → ℕ → Manager Url H → Option (Task H)
  task_of c i m = get nat_eq i (tasks_of c m)

  -- No task is lost or replaced, and a task that is new serves its proxy and has not returned.
  pub record AddsTasks (m m' : Manager Url H) : Type 0 where
    pub kept : (c : Text) (i : ℕ) (t : Task H) → task_of c i m ≡ some t → task_of c i m' ≡ some t
    pub fresh :
        (c : Text) (i : ℕ) (t : Task H)
        → task_of c i m' ≡ some t
        → (task_of c i m ≡ some t)
          ⊎ ((task_of c i m ≡ none)
              × (t.is_finished ≡ false)
              × (t.config.proxy_id ≡ i)
              × (t.config.client_id ≡ c))

  pub same-AddsTasks :
      (m m' : Manager Url H) → ((c : Text) → tasks_of c m ≡ tasks_of c m') → AddsTasks m m'
  same-AddsTasks m m' same = record {
    kept = λ c i t h. ap (get nat_eq i) (sym (same c)) ∙ h;
    fresh = λ c i t h. inl (ap (get nat_eq i) (same c) ∙ h);
  }

  pub trans-AddsTasks :
      (m m' m'' : Manager Url H) → AddsTasks m m' → AddsTasks m' m'' → AddsTasks m m''
  trans-AddsTasks m m' m'' f g = record {
    kept = λ c i t h. g.kept c i t (f.kept c i t h);
    fresh = λ c i t h. elim (g.fresh c i t h) [
      | inl old ↦ f.fresh c i t old
      | inr (gone, live, id, client) ↦
          inr (missing (task_of c i m) (f.kept c i) gone, live, id, client)
    ];
  }
    where
      missing :
          {o' : Option (Task H)} (o : Option (Task H))
          → ((t : Task H) → o ≡ some t → o' ≡ some t)
          → o' ≡ none
          → o ≡ none
      missing none keeps gone = refl
      missing (some t) keeps gone = absurd (cc (keeps t refl, gone))

  pub tasks_of-entered :
      (client c : Text) (m : Manager Url H) → tasks_of c (entered client m) ≡ tasks_of c m
  tasks_of-entered client c m =
      tasks_of-with_tasks client c (tasks_of client m) m
      ∙ same (text_eq client c) (λ e. ap (λ k. tasks_of k m) ((text_eq_iff client c).0 e))
    where
      same :
          (b : Bool)
          → (b ≡ true → tasks_of client m ≡ tasks_of c m)
          → (if b then tasks_of client m else tasks_of c m) ≡ tasks_of c m
      same true e = e refl
      same false e = refl

  module _ (cfg : ProxyConfig) (h : H) (m : Manager Url H)
      (idle : task_of cfg.client_id cfg.proxy_id m ≡ none) where
    abbrev new_task : Task H
    new_task = record { config = cfg; handles = h; is_finished = false }

    spawned-task_of :
        (c : Text) (i : ℕ)
        → task_of c i (spawned cfg.client_id cfg h m)
          ≡ (if is_proxy c i cfg.client_id cfg.proxy_id then some new_task else task_of c i m)
    spawned-task_of c i =
        ap (get nat_eq i) (
          tasks_of-with_tasks cfg.client_id c
            (insert nat_eq cfg.proxy_id new_task (tasks_of cfg.client_id m)) m)
        ∙ task-insert (text_eq cfg.client_id c) cfg.proxy_id i new_task (tasks_of cfg.client_id m)
            (tasks_of c m) (λ same. ap (λ k. tasks_of k m) ((text_eq_iff cfg.client_id c).0 same))
        ∙ ap (λ b. if b && i == cfg.proxy_id then some new_task else task_of c i m)
            (text_eq_comm cfg.client_id c)

    idle_at :
        (c : Text) (i : ℕ)
        → is_proxy c i cfg.client_id cfg.proxy_id ≡ true
        → (c ≡ cfg.client_id) × (i ≡ cfg.proxy_id) × (task_of c i m ≡ none)
    idle_at c i own =
        let (p, q) = both (text_eq c cfg.client_id) (i == cfg.proxy_id) own in
        let c_is = (text_eq_iff c cfg.client_id).0 p in
        let i_is = (==_iff i cfg.proxy_id).0 q in
        (c_is, i_is, ap (λ k. task_of k i m) c_is ∙ ap (λ k. task_of cfg.client_id k m) i_is ∙ idle)

    pub spawned-AddsTasks : AddsTasks m (spawned cfg.client_id cfg h m)
    spawned-AddsTasks = record {
      kept = λ c i t old. elim (Bool-cases (is_proxy c i cfg.client_id cfg.proxy_id)) [
        | inl own ↦ absurd (cc (old, (idle_at c i own).2))
        | inr other ↦ spawned-task_of c i ∙ rw other old
      ];
      fresh = λ c i t now. elim (Bool-cases (is_proxy c i cfg.client_id cfg.proxy_id)) [
        | inl own ↦
            let (c_is, i_is, gone) = idle_at c i own in
            let (live, id, client) = is_new c i t own now c_is i_is in inr (gone, live, id, client)
        | inr other ↦ inl (rw other at (sym (spawned-task_of c i) ∙ now))
      ];
    }
      where
        is_new :
            (c : Text) (i : ℕ) (t : Task H)
            → is_proxy c i cfg.client_id cfg.proxy_id ≡ true
            → task_of c i (spawned cfg.client_id cfg h m) ≡ some t
            → c ≡ cfg.client_id
            → i ≡ cfg.proxy_id
            → (t.is_finished ≡ false) × (t.config.proxy_id ≡ i) × (t.config.client_id ≡ c)
        is_new c i t own now c_is i_is =
            let same : some new_task ≡ some t = rw own at (sym (spawned-task_of c i) ∙ now) in
            let is : new_task ≡ t = cc same in
            (
              ap (λ (x : Task H). x.is_finished) (sym is),
              ap (λ (x : Task H). x.config.proxy_id) (sym is) ∙ sym i_is,
              ap (λ (x : Task H). x.config.client_id) (sym is) ∙ sym c_is,
            )
