-- ===== src/Handlers/Yielding.antt =====
-- What holds once a handler's step has succeeded: of its result and of the tables after it.
use oxiproxy.Store.Looking.{still, query-Looks}
use oxiproxy.Prelude.{
  subst, ◌⊎◌, ℕ, ◌≡◌, refl, sym, ap, ◌∙◌, inl, inr, Bool, true, false, Option, none, some,
  Bool-cases, Option-cases, if◌then◌else◌, Result, ok, err,
}
use oxiproxy.Store.{Db}
use oxiproxy.Store.Queries.{M, Error, query, fails_now, past}
use oxiproxy.Handlers.{
  World, Act, act_then, lifted, from_db, require, or_reject, is_some, ◌>>=◌, ◌>>◌,
}
use oxiproxy.Handlers.Reading.{Reads, settled, require-Reads}

some_of : {A : Type 0} (o p : Option A) → p ≡ o → is_some o ≡ true → (a : A) × (p ≡ some a)
some_of none p e h = absurd (cc)
some_of (some a) p e h = (a, e)

module _ {F : Type 0} where
  -- What holds of the result and the world after it.
  pub record Yields {ℓ} {A : Type 0} (P : A → World F → Type ℓ) (m : Act F A) : Type ℓ where
    pub after : (w w1 : World F) (a : A) → m w ≡ (ok a, w1) → P a w1

  pub bind-Yields {ℓ} :
      {A B : Type 0} (P : B → World F → Type ℓ) (m : Act F A) (k : A → Act F B)
      → ((a : A) → Yields P (k a))
      → Yields P (m >>= k)
  unfolding ◌>>=◌
  bind-Yields {A = A} {B = B} P m k hk = record { after = λ w w1 b. step (m w) w1 b }
    where
      step : (r : Result ℕ A × World F) (w1 : World F) (b : B) → act_then r k ≡ (ok b, w1) → P b w1
      step (ok a, v) w1 b e = (hk a).after v w1 b e
      step (err x, v) w1 b e = absurd (cc)

  pub then-Yields {ℓ} :
      {B : Type 0} (P : B → World F → Type ℓ) (m : Act F (Unit {0})) (k : Act F B)
      → Yields P k
      → Yields P (m >> k)
  unfolding ◌>>◌ ◌>>=◌
  then-Yields P m k hk = record { after = (bind-Yields P m (λ _. k) (λ _. hk)).after }

  -- What the first step found out holds after the second, which only reads.
  module _ {ℓ κ} {B : Type 0} (S : World F → Type ℓ) (m : Act F (Unit {0}))
      (found : Yields (λ _ w. S (settled w)) m) where
    pub keep-Yields :
        (P : B → World F → Type κ) (k : Act F B)
        → Reads k
        → Yields (λ b w. S (settled w) → P b w) k
        → Yields P (m >> k)
    unfolding ◌>>◌
    keep-Yields P k reads hk = record { after = λ w w1 b. step (m w) refl }
      where
        step :
            {w w1 : World F} {b : B} (r : Result ℕ (Unit {0}) × World F)
            → m w ≡ r
            → act_then r (λ _. k) ≡ (ok b, w1)
            → P b w1
        step {w = w} {w1 = w1} {b = b} (ok a, v) same e =
            let back : settled w1 ≡ settled v =
              ap (λ (r : Result ℕ B × World F). settled r.1) (sym e) ∙ reads.world v in
            hk.after v w1 b e (rw (← back) at (found.after w v a same))
        step (err x, v) same e = absurd (cc)

  pub require-Yields : (b : Bool) (code : ℕ) → Yields (λ _ (w : World F). b ≡ true) (require b code)
  unfolding require
  require-Yields true code = record { after = λ w w1 a e. refl }
  require-Yields false code = record { after = λ w w1 a e. absurd (cc) }

  -- A row that is found stands in the table after the query too.
  pub lookup-Yields :
      {A : Type 0} (f : Db F → Option A) (code : ℕ)
      → ((db : Db F) → f (past db) ≡ f db)
      → Yields (λ a w. f w.db ≡ some a) (do found ← from_db (query f); or_reject found code)
  unfolding ◌>>=◌ from_db query or_reject
  lookup-Yields f code same = record {
    after = λ w w1 a e. elim (Bool-cases (fails_now w.db)) [
      | inl fails ↦ absurd (cc (rw (fails, lifted) at e))
      | inr works ↦
          let e' : or_reject (f w.db) code (record w { db = past w.db }) ≡ (ok a, w1) =
            rw (works, lifted) at e in
          elim (Option-cases (f w.db)) [
            | inl missing ↦ absurd (cc (rw (missing, or_reject) at e'))
            | inr (b, found) ↦
                let e2 : or_reject (some b) code (record w { db = past w.db }) ≡ (ok a, w1) =
                  rw found at e' in
                let value : b ≡ a = cc in
                let there : record w { db = past w.db } ≡ w1 = cc in
                rw (← there, ← value) (same w.db ∙ found)
          ]
    ];
  }

  module _ {ℓ κ} {A B : Type 0} (S : A → World F → Type ℓ) (m : Act F A)
      (found : Yields (λ a w. S a (settled w)) m) where
    pub learn-Yields :
        (P : B → World F → Type κ) (k : A → Act F B)
        → ((a : A) → Reads (k a))
        → ((a : A) → Yields (λ b w. S a (settled w) → P b w) (k a))
        → Yields P (m >>= k)
    unfolding ◌>>=◌
    learn-Yields P k reads hk = record { after = λ w w1 b. step (m w) refl }
      where
        step :
            {w w1 : World F} {b : B} (r : Result ℕ A × World F)
            → m w ≡ r
            → act_then r k ≡ (ok b, w1)
            → P b w1
        step {w = w} {w1 = w1} {b = b} (ok a, v) same e =
            let back : settled w1 ≡ settled v =
              ap (λ (r : Result ℕ B × World F). settled r.1) (sym e) ∙ (reads a).world v in
            (hk a).after v w1 b e (rw (← back) at (found.after w v a same))
        step (err x, v) same e = absurd (cc)

  pub from_db-ok :
      {A : Type 0} (m : M F A) (w w1 : World F) (a : A)
      → from_db m w ≡ (ok a, w1)
      → ((m w.db).0 ≡ ok a) × ((m w.db).1 ≡ w1.db)
  unfolding from_db
  from_db-ok {A = A} m w w1 a e = step (m w.db) e
    where
      step : (r : Result Error A × Db F) → lifted w r ≡ (ok a, w1) → (r.0 ≡ ok a) × (r.1 ≡ w1.db)
      step (ok b, db) e' = (
        let same : b ≡ a = cc in ap (λ c. ok c) same,
        ap (λ (r : Result ℕ A × World F). r.1.db) e',
      )
      step (err x, db) e' = absurd (cc)

  query_told : {A : Type 0} (f : Db F → A) (db : Db F) (a : A) → (query f db).0 ≡ ok a → f db ≡ a
  unfolding query
  query_told f db a answer = elim (Bool-cases (fails_now db)) [
    | inl fails ↦ absurd (cc (rw fails at answer))
    | inr works ↦ let e : (query f db).0 ≡ ok (f db) = rw works refl in cc
  ]

  -- The answer of a query is right of the tables after it too.
  pub query-Yields :
      {A : Type 0} (f : Db F → A)
      → ((db : Db F) → f (still db) ≡ f db)
      → Yields (λ a w. f (still w.db) ≡ a) (from_db (query f))
  query-Yields {A = A} f same = record {
    after = λ w w1 a e.
        let (answer, after) = from_db-ok (query f) w w1 a e in
        let back : still w1.db ≡ still w.db = rw after at ((query-Looks f).tables w.db) in
        rw back (same w.db ∙ query_told f w.db a answer);
  }

  -- A query for a row that has to be there.
  pub present-Yields :
      {A : Type 0} (f : Db F → Option A) (code : ℕ)
      → ((db : Db F) → f (still db) ≡ f db)
      → Yields
          (λ _ w. (a : A) × (f (still w.db) ≡ some a))
          (do found ← from_db (query f); require (is_some found) code)
  present-Yields {A = A} f code same =
      learn-Yields (λ o w. f w.db ≡ o) (from_db (query f)) (query-Yields f same)
        (λ _ w. (a : A) × (f (still w.db) ≡ some a)) (λ o. require (is_some o) code)
        (λ o. require-Reads (is_some o) code)
        (λ o. record {
          after = λ w w1 x e is.
              some_of o (f (still w1.db)) is ((require-Yields (is_some o) code).after w w1 x e);
        })

  pub else-Yields {ℓ} :
      {A : Type 0} (P : A → World F → Type ℓ) (b : Bool) (m k : Act F A)
      → b ≡ false
      → Yields P k
      → Yields P (if b then m else k)
  else-Yields P true m k h hk = absurd (cc)
  else-Yields P false m k h hk = hk

  -- A step that only reads, and lets pass only where `S` holds: what follows it changes nothing else.
  pub guarded-bind {ℓ} :
      {A B : Type 0} (S : World F → Type ℓ) (m : Act F A) (k : A → Act F B)
      → Reads m
      → Yields (λ _ w. S (settled w)) m
      → (w : World F) → (settled ((m >>= k) w).1 ≡ settled w) ⊎ S (settled w)
  unfolding ◌>>=◌
  guarded-bind {A = A} S m k reads found w = step (m w) refl
    where
      step :
          (r : Result ℕ A × World F)
          → m w ≡ r
          → (settled (act_then r k).1 ≡ settled w) ⊎ S (settled w)
      step (ok a, w1) same =
          let back : settled w1 ≡ settled w = rw same at (reads.world w) in
          inr (subst S back (found.after w w1 a same))
      step (err e, w1) same = inl (rw same at (reads.world w))
