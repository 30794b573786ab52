-- ===== src/Store/Queries.antt =====
-- The monad of the controller's database code: a result and the database after it. What was
-- written before an error stays written.
use oxiproxy.Prelude.{◌≡◌, Bool, true, false, List, [], ◌∷◌, Result, ok, err, if◌then◌else◌}
use oxiproxy.Store.{Db}

pub data Error : Type 0 where
  db_error user_missing : Error

abbrev pub M : Type 0 → Type 0 → Type 0
M F A = Db F → Result Error A × Db F

abbrev pub next_fault : List Bool → Bool
next_fault [] = false
next_fault (b ∷ bs) = b

abbrev pub later_faults : List Bool → List Bool
later_faults [] = []
later_faults (b ∷ bs) = bs

module _ {F : Type 0} where
  abbrev pub run_then : {A B : Type 0} → Result Error A × Db F → (A → M F B) → Result Error B × Db F
  run_then (ok a, db) k = k a db
  run_then (err e, db) k = (err e, db)

  infixl 5 ◌>>=◌ ◌>>◌
  abbrev pub ◌>>=◌ : {A B : Type 0} → M F A → (A → M F B) → M F B
  ◌>>=◌ m k db = run_then (m db) k

  abbrev pub ◌>>◌ : {B : Type 0} → M F (Unit {0}) → M F B → M F B
  ◌>>◌ m k db = run_then (m db) (λ _. k)

  abbrev pub return : {A : Type 0} → A → M F A
  return a db = (ok a, db)

  abbrev pub fail : {A : Type 0} → Error → M F A
  fail e db = (err e, db)

  -- Does the next query fail, and the database with that query behind it.
  abbrev pub fails_now : Db F → Bool
  fails_now db = next_fault db.faults

  abbrev pub past : Db F → Db F
  past db = record db { faults = later_faults db.faults }

  -- A query that reads, and one that writes.
  unfoldable pub query : {A : Type 0} → (Db F → A) → M F A
  query read db = if fails_now db then (err db_error, past db) else (ok (read db), past db)

  unfoldable pub write : (Db F → Db F) → M F (Unit {0})
  write change db = if fails_now db then (err db_error, past db) else (ok tt, change (past db))

  abbrev pub drop_error : {A : Type 0} → Result Error A × Db F → Result Error Bool × Db F
  drop_error (ok a, after) = (ok true, after)
  drop_error (err e, after) = (ok false, after)

  -- `if let Err(e) = m { log(e) }`: an error is dropped, the database kept.
  abbrev pub logged : {A : Type 0} → M F A → M F Bool
  logged m db = drop_error (m db)

  pub logged_ok :
      {A : Type 0} (m : M F A) (db : Db F) (a : A)
      → (m db).0 ≡ ok a
      → logged m db ≡ (ok true, (m db).1)
  logged_ok m db a e = rw (e, drop_error)

  pub logged_err :
      {A : Type 0} (m : M F A) (db : Db F) (x : Error)
      → (m db).0 ≡ err x
      → logged m db ≡ (ok false, (m db).1)
  logged_err m db x e = rw (e, drop_error)
