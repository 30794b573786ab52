-- ===== src/Handlers/Ending.antt =====
-- Steps of a handler while the database works: the table of proxies is known exactly after each.
use oxiproxy.Prelude.{ℕ, Text, ◌≡◌, refl, ap, ◌∙◌, true, List, [], Result, ok, err}
use oxiproxy.Store.{Proxy, TrafficDaily, Db}
use oxiproxy.Store.Queries.{write}
use oxiproxy.Handlers.{
  Call, World, Act, act_then, weighed, lifted, from_db, tried, control, notify, return, reject,
  ◌>>=◌, ◌>>◌,
}
use oxiproxy.Handlers.Reading.{Reads}
use oxiproxy.Handlers.Yielding.{Yields}

-- A step that only reads leaves the table.
abbrev pub Same : {A : Type 0} → List Proxy → Result ℕ A → List Proxy → Type 0
Same ps r qs = qs ≡ ps

-- A result that is known.
abbrev pub Gives : {A : Type 0} → A → List Proxy → Result ℕ A → List Proxy → Type 0
Gives a ps r qs = (r ≡ ok a) × (qs ≡ ps)

-- A result that may be any, but is no error.
abbrev pub Answers : {A : Type 0} → List Proxy → Result ℕ A → List Proxy → Type 0
Answers ps (ok a) qs = qs ≡ ps
Answers ps (err e) qs = ⊥

Gives-err : {A : Type 0} (a : A) (e : ℕ) (ps qs : List Proxy) → Gives a ps (err e) qs → ⊥
Gives-err a e ps qs h = let same = h.0 in cc

-- A step that only reads, and what its result is known to be.
abbrev pub Found {ℓ} :
    {A : Type 0} → (A → List Proxy → Type ℓ) → List Proxy → Result ℕ A → List Proxy → Type ℓ
Found P ps (ok a) qs = (qs ≡ ps) × P a ps
Found P ps (err e) qs = (qs ≡ ps) × Unit

given_same : {A : Type 0} (a b : A) (ps qs : List Proxy) → Gives a ps (ok b) qs → b ≡ a
given_same a b ps qs h = let same = h.0 in cc

module _ {F : Type 0} where
  -- The table is `ps`, and no query fails.
  pub record Holds (ps : List Proxy) (w : World F) : Type 0 where
    pub rows : w.db.proxies ≡ ps
    pub calm : w.db.faults ≡ []

  -- From the table `ps` the step ends with a result and a table as `Q` says.
  pub record Ends {ℓ} {A : Type 0} (ps : List Proxy) (Q : Result ℕ A → List Proxy → Type ℓ)
      (m : Act F A) : Type ℓ where
    pub run : (w : World F) → Holds ps w → Q (m w).0 (m w).1.db.proxies × ((m w).1.db.faults ≡ [])

  module _ {ℓ κ} {A B : Type 0} (ps : List Proxy) (R : Result ℕ A → List Proxy → Type ℓ)
      (Q : Result ℕ B → List Proxy → Type κ) where
    pub bind-Ends :
        (m : Act F A) (k : A → Act F B)
        → Ends ps R m
        → ((e : ℕ) (qs : List Proxy) → R (err e) qs → Q (err e) qs)
        → ((a : A) (qs : List Proxy) → R (ok a) qs → Ends qs Q (k a))
        → Ends ps Q (m >>= k)
    unfolding ◌>>=◌
    bind-Ends m k hm stop hk = record { run = λ w h. step (m w) (hm.run w h) }
      where
        step :
            (r : Result ℕ A × World F)
            → R r.0 r.1.db.proxies × (r.1.db.faults ≡ [])
            → Q (act_then r k).0 (act_then r k).1.db.proxies × ((act_then r k).1.db.faults ≡ [])
        step (ok a, w) (h, calm) = (hk a w.db.proxies h).run w (record { rows = refl; calm = calm })
        step (err e, w) (h, calm) = (stop e w.db.proxies h, calm)

  module _ {ℓ κ} {B : Type 0} (ps : List Proxy) (R : Result ℕ (Unit {0}) → List Proxy → Type ℓ)
      (Q : Result ℕ B → List Proxy → Type κ) where
    pub then-Ends :
        (m : Act F (Unit {0})) (k : Act F B)
        → Ends ps R m
        → ((e : ℕ) (qs : List Proxy) → R (err e) qs → Q (err e) qs)
        → ((a : Unit {0}) (qs : List Proxy) → R (ok a) qs → Ends qs Q k)
        → Ends ps Q (m >> k)
    unfolding ◌>>◌ ◌>>=◌
    then-Ends m k hm stop hk = record {
      run = (bind-Ends ps R Q m (λ _. k) hm stop (λ a qs h. hk a qs h)).run;
    }

  pub Reads-Ends : {A : Type 0} (ps : List Proxy) (m : Act F A) → Reads m → Ends ps (Same ps) m
  Reads-Ends ps m h = record {
    run = λ w holds.
        (ap (λ (v : World F). v.db.proxies) (h.world w) ∙ holds.rows, h.calm w holds.calm);
  }

  module _ {ℓ} {B : Type 0} (ps qs : List Proxy) (Q : Result ℕ B → List Proxy → Type ℓ) where
    -- A step whose result and table are known.
    pub given-Ends :
        {A : Type 0} (a : A) (m : Act F A) (k : A → Act F B)
        → Ends ps (Gives a qs) m
        → Ends qs Q (k a)
        → Ends ps Q (m >>= k)
    given-Ends a m k hm hk =
        bind-Ends ps (Gives a qs) Q m k hm (λ e rs h. absurd (Gives-err a e qs rs h))
          (λ b rs h. rw (given_same a b qs rs h, h.1) hk)

    pub given_then-Ends :
        (m : Act F (Unit {0})) (k : Act F B)
        → Ends ps (Gives tt qs) m
        → Ends qs Q k
        → Ends ps Q (m >> k)
    given_then-Ends m k hm hk =
        then-Ends ps (Gives tt qs) Q m k hm (λ e rs h. absurd (Gives-err tt e qs rs h))
          (λ a rs h. rw h.1 hk)

    -- A step whose table is known, and whose result is no error.
    pub answered-Ends :
        {A : Type 0} (m : Act F A) (k : A → Act F B)
        → Ends ps (Answers qs) m
        → ((a : A) → Ends qs Q (k a))
        → Ends ps Q (m >>= k)
    answered-Ends m k hm hk =
        bind-Ends ps (Answers qs) Q m k hm (λ e rs impossible. absurd impossible)
          (λ a rs same. rw same (hk a))

  pub read-Ends {ℓ} :
      {A B : Type 0} (ps : List Proxy) (Q : Result ℕ B → List Proxy → Type ℓ) (m : Act F A)
      (k : A → Act F B)
      → Reads m
      → ((e : ℕ) → Q (err e) ps)
      → ((a : A) → Ends ps Q (k a))
      → Ends ps Q (m >>= k)
  read-Ends ps Q m k reads stop hk =
      bind-Ends ps (Same ps) Q m k (Reads-Ends ps m reads) (λ e rs h. rw h (stop e))
        (λ a rs h. rw h (hk a))

  pub read_then-Ends {ℓ} :
      {B : Type 0} (ps : List Proxy) (Q : Result ℕ B → List Proxy → Type ℓ) (m : Act F (Unit {0}))
      (k : Act F B)
      → Reads m
      → ((e : ℕ) → Q (err e) ps)
      → Ends ps Q k
      → Ends ps Q (m >> k)
  read_then-Ends ps Q m k reads stop hk =
      then-Ends ps (Same ps) Q m k (Reads-Ends ps m reads) (λ e rs h. rw h (stop e))
        (λ a rs h. rw h hk)

  -- What a write makes of the daily traffic does not matter here.
  pub tried-Ends :
      (g : Db F → List TrafficDaily) (ps : List Proxy) (f : List Proxy → List Proxy)
      → Ends ps (Gives true (f ps)) (
          tried (write (λ (db : Db F). record db { proxies = f db.proxies; traffic_daily = g db })))
  unfolding tried write
  tried-Ends g ps f = record { run = λ w h. rw (h.calm, weighed) ((refl, ap f h.rows), refl) }

  pub write-Ends :
      (g : Db F → List TrafficDaily) (ps : List Proxy) (f : List Proxy → List Proxy)
      → Ends ps (Gives tt (f ps)) (
          from_db
            (write (λ (db : Db F). record db { proxies = f db.proxies; traffic_daily = g db })))
  unfolding from_db write
  write-Ends g ps f = record { run = λ w h. rw (h.calm, lifted) ((refl, ap f h.rows), refl) }

  pub control-Ends : (ps : List Proxy) (c : Call) → Ends ps (Answers ps) (control {F = F} c)
  unfolding control
  control-Ends ps c = record { run = λ w h. (h.rows, h.calm) }

  pub notify-Ends : (ps : List Proxy) (c : Text) → Ends ps (Gives tt ps) (notify {F = F} c)
  unfolding notify
  notify-Ends ps c = record { run = λ w h. ((refl, h.rows), h.calm) }

  pub return-Ends {ℓ} :
      {A : Type 0} (ps : List Proxy) (Q : Result ℕ A → List Proxy → Type ℓ) (a : A)
      → Q (ok a) ps
      → Ends ps Q (return {F = F} a)
  unfolding return
  return-Ends ps Q a q = record { run = λ w h. (rw h.rows q, h.calm) }

  pub reject-Ends {ℓ} :
      {A : Type 0} (ps : List Proxy) (Q : Result ℕ A → List Proxy → Type ℓ) (code : ℕ)
      → Q (err code) ps
      → Ends ps Q (reject {F = F} code)
  unfolding reject
  reject-Ends ps Q code q = record { run = λ w h. (rw h.rows q, h.calm) }

  module _ {ℓ} {A : Type 0} (P : A → List Proxy → Type ℓ) (ps : List Proxy) (m : Act F A) where
    pub Found-Ends : Reads m → Yields (λ a w. P a w.db.proxies) m → Ends ps (Found P ps) m
    Found-Ends reads yields = record {
      run = λ w h.
          let (rows, calm) = (Reads-Ends ps m reads).run w h in (step w (m w) refl rows, calm);
    }
      where
        step :
            (w : World F) (r : Result ℕ A × World F)
            → m w ≡ r
            → r.1.db.proxies ≡ ps
            → Found P ps r.0 r.1.db.proxies
        step w (ok a, w1) same rows = (rows, rw rows at (yields.after w w1 a same))
        step w (err e, w1) same rows = (rows, tt)
