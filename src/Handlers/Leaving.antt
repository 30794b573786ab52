-- ===== src/Handlers/Leaving.antt =====
-- What a handler leaves of the tables, however it ends: from tables as `Q` says, tables as `P` says.
use oxiproxy.Prelude.{inl, inr, Bool-cases, ◌≡◌, refl, sym, ap, subst, Result, ok, err, ℕ}
use oxiproxy.Store.{Db}
use oxiproxy.Store.Queries.{write, fails_now, past}
use oxiproxy.Store.Looking.{still}
use oxiproxy.Handlers.{Call, World, Act, act_then, lifted, from_db, control, ◌>>=◌, ◌>>◌}
use oxiproxy.Handlers.Reading.{Reads, settled}
use oxiproxy.Handlers.Yielding.{Yields}

module _ {F : Type 0} where
  pub record Leaves {ℓ κ} {A : Type 0} (Q : Db F → Type ℓ) (P : Db F → Type κ) (m : Act F A)
      : Type (ℓ ⊔ κ) where
    pub run : (w : World F) → Q (still w.db) → P (still (m w).1.db)

  still_same : (w w1 : World F) → settled w1 ≡ settled w → still w1.db ≡ still w.db
  still_same w w1 e = ap (λ (v : World F). v.db) e

  -- A step that only reads, before one that knows what it found.
  pub bind-Leaves {ℓ κ μ} :
      {A B : Type 0} (Q : Db F → Type ℓ) (P : Db F → Type κ) (S : A → Db F → Type μ) (m : Act F A)
      (k : A → Act F B)
      → ((db : Db F) → Q db → P db)
      → Reads m
      → Yields (λ a w. S a (still w.db)) m
      → ((a : A) → Leaves (λ db. Q db × S a db) P (k a))
      → Leaves Q P (m >>= k)
  unfolding ◌>>=◌
  bind-Leaves {A = A} Q P S m k weaker reads found hk = record { run = λ w. step w (m w) refl }
    where
      step :
          (w : World F) (r : Result ℕ A × World F)
          → m w ≡ r
          → Q (still w.db)
          → P (still (act_then r k).1.db)
      step w (ok a, w1) same q =
          let back : settled w1 ≡ settled w = rw same at (reads.world w) in
          (hk a).run w1 (subst Q (sym (still_same w w1 back)) q, found.after w w1 a same)
      step w (err e, w1) same q =
          let back : settled w1 ≡ settled w = rw same at (reads.world w) in
          subst P (sym (still_same w w1 back)) (weaker (still w.db) q)

  pub then-Leaves {ℓ κ μ} :
      {B : Type 0} (Q : Db F → Type ℓ) (P : Db F → Type κ) (S : Db F → Type μ)
      (m : Act F (Unit {0})) (k : Act F B)
      → ((db : Db F) → Q db → P db)
      → Reads m
      → Yields (λ _ w. S (still w.db)) m
      → Leaves (λ db. Q db × S db) P k
      → Leaves Q P (m >> k)
  unfolding ◌>>◌ ◌>>=◌
  then-Leaves Q P S m k weaker reads found hk = record {
    run = (bind-Leaves Q P (λ _. S) m (λ _. k) weaker reads found (λ _. hk)).run;
  }

  -- A step of which nothing is to be known.
  pub skip-Leaves {ℓ κ} :
      {A B : Type 0} (Q : Db F → Type ℓ) (P : Db F → Type κ) (m : Act F A) (k : A → Act F B)
      → ((db : Db F) → Q db → P db)
      → Reads m
      → ((a : A) → Leaves Q P (k a))
      → Leaves Q P (m >>= k)
  unfolding ◌>>=◌
  skip-Leaves Q P m k weaker reads hk =
      let known =
        bind-Leaves Q P (λ _ _. Unit {0}) m k weaker reads (record { after = λ w w1 a e. tt })
          (λ a. record { run = λ w q. (hk a).run w q.0 }) in
      record { run = known.run }

  -- A step that may change the tables too.
  pub chain-Leaves {ℓ κ μ} :
      {A B : Type 0} (Q : Db F → Type ℓ) (R : Db F → Type κ) (P : Db F → Type μ) (m : Act F A)
      (k : A → Act F B)
      → ((db : Db F) → R db → P db)
      → Leaves Q R m
      → ((a : A) → Leaves R P (k a))
      → Leaves Q P (m >>= k)
  unfolding ◌>>=◌
  chain-Leaves {A = A} Q R P m k weaker hm hk = record { run = λ w q. step (m w) (hm.run w q) }
    where
      step : (r : Result ℕ A × World F) → R (still r.1.db) → P (still (act_then r k).1.db)
      step (ok a, w1) h = (hk a).run w1 h
      step (err e, w1) h = weaker (still w1.db) h

  pub chain_then-Leaves {ℓ κ μ} :
      {B : Type 0} (Q : Db F → Type ℓ) (R : Db F → Type κ) (P : Db F → Type μ)
      (m : Act F (Unit {0})) (k : Act F B)
      → ((db : Db F) → R db → P db)
      → Leaves Q R m
      → Leaves R P k
      → Leaves Q P (m >> k)
  unfolding ◌>>◌ ◌>>=◌
  chain_then-Leaves Q R P m k weaker hm hk = record {
    run = (chain-Leaves Q R P m (λ _. k) weaker hm (λ _. hk)).run;
  }

  pub control-Leaves {ℓ} : (Q : Db F → Type ℓ) (c : Call) → Leaves Q Q (control c)
  unfolding control
  control-Leaves Q c = record { run = λ w q. q }

  pub write-Leaves {ℓ κ} :
      (Q : Db F → Type ℓ) (P : Db F → Type κ) (f : Db F → Db F)
      → ((db : Db F) → still (f db) ≡ still (f (still db)))
      → ((db : Db F) → Q db → P db)
      → ((db : Db F) → Q db → P (still (f db)))
      → Leaves Q P (from_db (write f))
  unfolding from_db write
  write-Leaves Q P f calm failed written = record {
    run = λ w q. elim (Bool-cases (fails_now w.db)) [
      | inl fails ↦ rw (fails, lifted) (failed (still w.db) q)
      | inr works ↦ rw (works, lifted) (subst P (sym (calm (past w.db))) (written (still w.db) q))
    ];
  }

  pub Reads-Leaves {ℓ κ} :
      {A : Type 0} (Q : Db F → Type ℓ) (P : Db F → Type κ) (m : Act F A)
      → ((db : Db F) → Q db → P db)
      → Reads m
      → Leaves Q P m
  Reads-Leaves Q P m weaker reads = record {
    run = λ w q. subst P (sym (still_same w (m w).1 (reads.world w))) (weaker (still w.db) q);
  }

  pub weaken-Leaves {ℓ κ μ} :
      {A : Type 0} (Q : Db F → Type ℓ) (R : Db F → Type κ) (P : Db F → Type μ) (m : Act F A)
      → ((db : Db F) → Q db → R db)
      → Leaves R P m
      → Leaves Q P m
  weaken-Leaves Q R P m weaker h = record { run = λ w q. h.run w (weaker (still w.db) q) }
