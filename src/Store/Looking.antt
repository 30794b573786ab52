-- ===== src/Store/Looking.antt =====
-- Database code that only reads: nothing but the coming faults is different after it.
use oxiproxy.Prelude.{◌≡◌, refl, ◌∙◌, inl, inr, [], Bool-cases, Result, ok, err}
use oxiproxy.Store.{Db}
use oxiproxy.Store.Queries
use oxiproxy.Store.Queries.{M, Error, query, fails_now, run_then}

module _ {F : Type 0} where
  abbrev pub still : Db F → Db F
  still db = record db { faults = [] }

  pub record Looks {A : Type 0} (m : M F A) : Type 0 where
    pub tables : (db : Db F) → still (m db).1 ≡ still db
    pub calm : (db : Db F) → db.faults ≡ [] → (m db).1.faults ≡ []

  pub query-Looks : {A : Type 0} (f : Db F → A) → Looks (query f)
  unfolding query
  query-Looks f = record {
    tables = λ db. elim (Bool-cases (fails_now db)) [ inl h ↦ rw h | inr h ↦ rw h ];
    calm = λ db e. rw e;
  }

  pub return-Looks : {A : Type 0} (a : A) → Looks (Queries.return {F = F} a)
  return-Looks a = record { tables = λ db. refl; calm = λ db e. e }

  run_then-Looks :
      {A B : Type 0} (k : A → M F B)
      → ((a : A) → Looks (k a))
      → (r : Result Error A × Db F) → still (run_then r k).1 ≡ still r.1
  run_then-Looks k hk (ok a, db) = (hk a).tables db
  run_then-Looks k hk (err e, db) = refl

  run_then-calm :
      {A B : Type 0} (k : A → M F B)
      → ((a : A) → Looks (k a))
      → (r : Result Error A × Db F) → r.1.faults ≡ []
      → (run_then r k).1.faults ≡ []
  run_then-calm k hk (ok a, db) e = (hk a).calm db e
  run_then-calm k hk (err x, db) e = e

  pub bind-Looks :
      {A B : Type 0} (m : M F A) (k : A → M F B)
      → Looks m
      → ((a : A) → Looks (k a))
      → Looks (Queries.◌>>=◌ m k)
  bind-Looks m k hm hk = record {
    tables = λ db. run_then-Looks k hk (m db) ∙ hm.tables db;
    calm = λ db e. run_then-calm k hk (m db) (hm.calm db e);
  }
