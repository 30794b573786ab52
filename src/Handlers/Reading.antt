-- ===== src/Handlers/Reading.antt =====
-- Steps of a handler that only read: nothing but the coming faults of the database is different after
-- them. What such a step found out still holds when the next one runs.
use oxiproxy.Prelude.{
  ℕ, ◌≡◌, refl, ap, ◌∙◌, Bool, true, false, Option, none, some, [], if◌then◌else◌, Result, ok, err,
  List, ◌∷◌, String, Text,
}
use oxiproxy.Prelude.Int.{ℤ}
use oxiproxy.Store.{Proxy, Db}
use oxiproxy.Store.Queries.{M, Error}
use oxiproxy.Store.Looking.{still, Looks, query-Looks}
use oxiproxy.Handlers.{
  AuthUser, World, Act, act_then, lifted, from_db, require, or_reject, from_result, reject, return,
  ◌>>=◌, ◌>>◌, read_client, verify_owner, verify_proxy_ownership, verify_group,
  verify_proxy_group_ownership,
}

module _ {F : Type 0} where
  abbrev pub settled : World F → World F
  settled w = record w { db = still w.db }

  pub record Reads {A : Type 0} (m : Act F A) : Type 0 where
    pub world : (w : World F) → settled (m w).1 ≡ settled w
    pub calm : (w : World F) → w.db.faults ≡ [] → (m w).1.db.faults ≡ []

  pub from_db-Reads : {A : Type 0} (m : M F A) → Looks m → Reads (from_db m)
  unfolding from_db
  from_db-Reads {A = A} m hm = record {
    world = λ w. step w (m w.db) (hm.tables w.db);
    calm = λ w e. steady w (m w.db) (hm.calm w.db e);
  }
    where
      step :
          (w : World F) (r : Result Error A × Db F)
          → still r.1 ≡ still w.db
          → settled (lifted w r).1 ≡ settled w
      step w (ok a, db) e = ap (λ d. record w { db = d }) e
      step w (err x, db) e = ap (λ d. record w { db = d }) e

      steady :
          (w : World F) (r : Result Error A × Db F)
          → r.1.faults ≡ []
          → (lifted w r).1.db.faults ≡ []
      steady w (ok a, db) e = e
      steady w (err x, db) e = e

  act_then-Reads :
      {A B : Type 0} (k : A → Act F B)
      → ((a : A) → Reads (k a))
      → (r : Result ℕ A × World F) → settled (act_then r k).1 ≡ settled r.1
  act_then-Reads k hk (ok a, w) = (hk a).world w
  act_then-Reads k hk (err e, w) = refl

  act_then-calm :
      {A B : Type 0} (k : A → Act F B)
      → ((a : A) → Reads (k a))
      → (r : Result ℕ A × World F) → r.1.db.faults ≡ []
      → (act_then r k).1.db.faults ≡ []
  act_then-calm k hk (ok a, w) e = (hk a).calm w e
  act_then-calm k hk (err x, w) e = e

  pub bind-Reads :
      {A B : Type 0} (m : Act F A) (k : A → Act F B)
      → Reads m
      → ((a : A) → Reads (k a))
      → Reads (m >>= k)
  unfolding ◌>>=◌
  bind-Reads m k hm hk = record {
    world = λ w. act_then-Reads k hk (m w) ∙ hm.world w;
    calm = λ w e. act_then-calm k hk (m w) (hm.calm w e);
  }

  pub then-Reads :
      {B : Type 0} (m : Act F (Unit {0})) (k : Act F B) → Reads m → Reads k → Reads (m >> k)
  unfolding ◌>>◌
  then-Reads m k hm hk = record {
    world = λ w. act_then-Reads (λ _. k) (λ _. hk) (m w) ∙ hm.world w;
    calm = λ w e. act_then-calm (λ _. k) (λ _. hk) (m w) (hm.calm w e);
  }

  pub return-Reads : {A : Type 0} (a : A) → Reads (return a)
  unfolding return
  return-Reads a = record { world = λ w. refl; calm = λ w e. e }

  pub reject-Reads : {A : Type 0} (code : ℕ) → Reads (reject {A = A} code)
  unfolding reject
  reject-Reads code = record { world = λ w. refl; calm = λ w e. e }

  pub from_result-Reads : {A : Type 0} (r : Result ℕ A) → Reads (from_result r)
  unfolding from_result
  from_result-Reads r = record { world = λ w. refl; calm = λ w e. e }

  pub require-Reads : (b : Bool) (code : ℕ) → Reads (require b code)
  unfolding require
  require-Reads true code = record { world = λ w. refl; calm = λ w e. e }
  require-Reads false code = record { world = λ w. refl; calm = λ w e. e }

  pub or_reject-Reads : {A : Type 0} (o : Option A) (code : ℕ) → Reads (or_reject o code)
  unfolding or_reject
  or_reject-Reads none code = record { world = λ w. refl; calm = λ w e. e }
  or_reject-Reads (some a) code = record { world = λ w. refl; calm = λ w e. e }

  pub if-Reads :
      {A : Type 0} (b : Bool) (m k : Act F A) → Reads m → Reads k → Reads (if b then m else k)
  if-Reads true m k hm hk = hm
  if-Reads false m k hm hk = hk

  pub ruleset reading = (
    bind-Reads, then-Reads, return-Reads, reject-Reads, from_result-Reads, require-Reads,
    or_reject-Reads, if-Reads, from_db-Reads, query-Looks,
  )

  pub read_client-Reads : (id : ℤ) → Reads (read_client id)
  unfolding read_client
  read_client-Reads id = search reading

  verify_owner-Reads :
      (u : AuthUser) (p : Proxy) (client_id : Option Text) → Reads (verify_owner u p client_id)
  verify_owner-Reads u p none = search reading
  verify_owner-Reads u p (some text) = search (reading, read_client-Reads)

  pub verify_proxy_ownership-Reads : (u : AuthUser) (p : Proxy) → Reads (verify_proxy_ownership u p)
  unfolding verify_proxy_ownership
  verify_proxy_ownership-Reads u p = search (reading, verify_owner-Reads)

  pub verify_group-Reads : (u : AuthUser) (ps : List Proxy) → Reads (verify_group u ps)
  verify_group-Reads u [] = search reading
  verify_group-Reads u (p ∷ ps) = search (reading, verify_proxy_ownership-Reads)

  pub verify_proxy_group_ownership-Reads :
      (u : AuthUser) (group : String) → Reads (verify_proxy_group_ownership u group)
  unfolding verify_proxy_group_ownership
  verify_proxy_group_ownership-Reads u group = search (reading, verify_group-Reads)

  -- A chain that succeeds succeeds step by step.
  pub bind-ok :
      {A B : Type 0} (m : Act F A) (k : A → Act F B) (w w2 : World F) (b : B)
      → (m >>= k) w ≡ (ok b, w2)
      → (a : A) × (w1 : World F) × (m w ≡ (ok a, w1)) × (k a w1 ≡ (ok b, w2))
  unfolding ◌>>=◌
  bind-ok {A = A} m k w w2 b = step (m w) refl
    where
      step :
          (r : Result ℕ A × World F)
          → m w ≡ r
          → act_then r k ≡ (ok b, w2)
          → (a : A) × (w1 : World F) × (m w ≡ (ok a, w1)) × (k a w1 ≡ (ok b, w2))
      step (ok a, w1) same e = (a, w1, same, e)
      step (err x, w1) same e = absurd (cc)
