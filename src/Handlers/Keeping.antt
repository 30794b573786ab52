-- ===== src/Handlers/Keeping.antt =====
-- How a handler's steps change the table of proxies, whatever queries fail and whatever listeners refuse
-- to start.
use oxiproxy.Handlers.Yielding.{Yields}
use oxiproxy.Prelude.{
  ℕ, Text, ◌≡◌, refl, sym, ap, inl, inr, Bool, true, false, List, Bool-cases, if◌then◌else◌, Result,
  ok, err,
}
use oxiproxy.Store.{Proxy, TrafficDaily, Db}
use oxiproxy.Store.Queries.{write, fails_now}
use oxiproxy.Handlers.{
  Call, World, Act, act_then, lifted, weighed, from_db, tried, control, notify, return, ◌>>=◌, ◌>>◌,
}
use oxiproxy.Handlers.Reading.{Reads}

module _ {F : Type 0} where
  -- From a table with `P` the step goes to one with `Q`, also when it fails.
  pub record Turns {ℓ κ} (P : List Proxy → Type ℓ) (Q : List Proxy → Type κ) {A : Type 0}
      (m : Act F A) : Type (ℓ ⊔ κ) where
    pub table : (w : World F) → P w.db.proxies → Q (m w).1.db.proxies

  pub Reads-Turns {ℓ} : (P : List Proxy → Type ℓ) {A : Type 0} (m : Act F A) → Reads m → Turns P P m
  Reads-Turns P m h = record {
    table = λ w p. subst_table P (ap (λ (v : World F). v.db.proxies) (sym (h.world w))) p;
  }
    where
      subst_table : (P : List Proxy → Type ℓ) {ps qs : List Proxy} → ps ≡ qs → P ps → P qs
      subst_table P e p = rw e at p

  module _ {ℓ κ μ} (P : List Proxy → Type ℓ) (R : List Proxy → Type κ) (Q : List Proxy → Type μ)
      (stop : (ps : List Proxy) → R ps → Q ps) where
    act_then-Turns :
        {A B : Type 0} (k : A → Act F B)
        → ((a : A) → Turns R Q (k a))
        → (r : Result ℕ A × World F) → R r.1.db.proxies
        → Q (act_then r k).1.db.proxies
    act_then-Turns k hk (ok a, w) h = (hk a).table w h
    act_then-Turns k hk (err e, w) h = stop w.db.proxies h

    pub bind-Turns :
        {A B : Type 0} (m : Act F A) (k : A → Act F B)
        → Turns P R m
        → ((a : A) → Turns R Q (k a))
        → Turns P Q (m >>= k)
    unfolding ◌>>=◌
    bind-Turns m k hm hk = record { table = λ w p. act_then-Turns k hk (m w) (hm.table w p) }

    pub then-Turns :
        {B : Type 0} (m : Act F (Unit {0})) (k : Act F B)
        → Turns P R m
        → Turns R Q k
        → Turns P Q (m >> k)
    unfolding ◌>>◌
    then-Turns m k hm hk = record {
      table = λ w p. act_then-Turns (λ _. k) (λ _. hk) (m w) (hm.table w p);
    }

  -- What a write makes of the daily traffic does not matter here.
  module _ {ℓ κ} (g : Db F → List TrafficDaily) (P : List Proxy → Type ℓ) (Q : List Proxy → Type κ)
      (stop : (ps : List Proxy) → P ps → Q ps) where
    -- A write that succeeds or fails.
    pub write-Turns :
        (f : List Proxy → List Proxy)
        → ((ps : List Proxy) → P ps → Q (f ps))
        → Turns P Q (
            from_db
              (write (λ (db : Db F). record db { proxies = f db.proxies; traffic_daily = g db })))
    unfolding from_db write
    write-Turns f h = record {
      table = λ w p. elim (Bool-cases (fails_now w.db)) [
        | inl fails ↦ rw (fails, lifted) (stop w.db.proxies p)
        | inr works ↦ rw (works, lifted) (h w.db.proxies p)
      ];
    }

    pub tried-Turns :
        (f : List Proxy → List Proxy)
        → ((ps : List Proxy) → P ps → Q (f ps))
        → Turns P Q (
            tried
              (write (λ (db : Db F). record db { proxies = f db.proxies; traffic_daily = g db })))
    unfolding tried write
    tried-Turns f h = record {
      table = λ w p. elim (Bool-cases (fails_now w.db)) [
        | inl fails ↦ rw (fails, weighed) (stop w.db.proxies p)
        | inr works ↦ rw (works, weighed) (h w.db.proxies p)
      ];
    }

  pub control-Turns {ℓ} : (P : List Proxy → Type ℓ) (c : Call) → Turns P P (control {F = F} c)
  unfolding control
  control-Turns P c = record { table = λ w p. p }

  pub notify-Turns {ℓ} : (P : List Proxy → Type ℓ) (c : Text) → Turns P P (notify {F = F} c)
  unfolding notify
  notify-Turns P c = record { table = λ w p. p }

  -- A step that reads and finds out what the next one needs.
  module _ {ℓ κ μ} {A : Type 0} (P : List Proxy → Type ℓ) (R : A → List Proxy → Type κ)
      (Q : List Proxy → Type μ) (stop : (ps : List Proxy) → P ps → Q ps) where
    pub found-Turns :
        {B : Type 0} (m : Act F A) (k : A → Act F B)
        → Reads m
        → Yields (λ a w. P w.db.proxies → R a w.db.proxies) m
        → ((a : A) → Turns (R a) Q (k a))
        → Turns P Q (m >>= k)
    unfolding ◌>>=◌
    found-Turns {B = B} m k reads found hk = record {
      table = λ w p. step w (m w) refl ((Reads-Turns P m reads).table w p);
    }
      where
        step :
            (w : World F) (r : Result ℕ A × World F)
            → m w ≡ r
            → P (m w).1.db.proxies
            → Q (act_then r k).1.db.proxies
        step w (ok a, v) same p = (hk a).table v (found.after w v a same (rw same at p))
        step w (err x, v) same p = stop v.db.proxies (rw same at p)

  pub if-Turns {ℓ κ} :
      (P : List Proxy → Type ℓ) (Q : List Proxy → Type κ) {A : Type 0} (b : Bool) (m k : Act F A)
      → Turns P Q m
      → Turns P Q k
      → Turns P Q (if b then m else k)
  if-Turns P Q true m k hm hk = hm
  if-Turns P Q false m k hm hk = hk

  pub return-Turns {ℓ κ} :
      (P : List Proxy → Type ℓ) (Q : List Proxy → Type κ) {A : Type 0} (a : A)
      → ((ps : List Proxy) → P ps → Q ps)
      → Turns P Q (return {F = F} a)
  unfolding return
  return-Turns P Q a stop = record { table = λ w p. stop w.db.proxies p }

  pub found_then-Turns {ℓ κ μ} :
      {B : Type 0} (P : List Proxy → Type ℓ) (R : List Proxy → Type κ) (Q : List Proxy → Type μ)
      (m : Act F (Unit {0})) (k : Act F B)
      → ((ps : List Proxy) → P ps → Q ps)
      → Reads m
      → Yields (λ _ w. P w.db.proxies → R w.db.proxies) m
      → Turns R Q k
      → Turns P Q (m >> k)
  unfolding ◌>>◌ ◌>>=◌
  found_then-Turns P R Q m k stop reads found hk = record {
    table = (found-Turns P (λ _. R) Q stop m (λ _. k) reads found (λ _. hk)).table;
  }

  -- From a table with `P` there is one with `Q` already.
  pub weaken-Turns {ℓ κ μ} :
      {A : Type 0} (P : List Proxy → Type ℓ) (Q : List Proxy → Type κ) {R : List Proxy → Type μ}
      (m : Act F A)
      → ((ps : List Proxy) → P ps → R ps)
      → Turns R Q m
      → Turns P Q m
  weaken-Turns P Q m le h = record { table = λ w p. h.table w (le w.db.proxies p) }
