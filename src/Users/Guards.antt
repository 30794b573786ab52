-- ===== src/Users/Guards.antt =====
-- The checks that the handlers of users share.
use oxiproxy.Prelude.{ℕ, ◌≡◌, refl, Bool, true, false, not, Option, none, some}
use oxiproxy.Store.{User}
use oxiproxy.Store.Rows.{find}
use oxiproxy.Store.Looking.{still}
use oxiproxy.Handlers.{AuthUser, World, require, reject}
use oxiproxy.Handlers.Reading.{Reads, reading}
use oxiproxy.Handlers.Yielding.{Yields, lookup-Yields, require-Yields}
use oxiproxy.Users.{admin_only, read_user}

-- The caller is known and is an administrator.
abbrev pub IsAdmin : Option AuthUser → Type 0
IsAdmin none = ⊥
IsAdmin (some u) = u.is_admin ≡ true

pub passed : (b : Bool) → not b ≡ true → b ≡ false
passed true h = absurd (cc)
passed false h = refl

module _ {F : Type 0} where
  pub admin_only-Reads : (caller : Option AuthUser) → Reads (admin_only {F = F} caller)
  unfolding admin_only
  admin_only-Reads none = search reading
  admin_only-Reads (some u) = search reading

  pub read_user-Reads : (id : ℕ) → Reads (read_user {F = F} id)
  unfolding read_user
  read_user-Reads id = search reading

  pub read_user-Yields :
      (id : ℕ)
      → Yields (λ u w. find (λ (v : User F). v.id) id (still w.db).users ≡ some u) (read_user id)
  unfolding read_user
  read_user-Yields id = record {
    after = (lookup-Yields (λ db. find (λ (v : User F). v.id) id db.users) 404 (λ db. refl)).after;
  }

  pub admin_only-Yields :
      (caller : Option AuthUser) → Yields (λ _ (w : World F). IsAdmin caller) (admin_only caller)
  unfolding admin_only reject
  admin_only-Yields none = record { after = λ w w1 a e. absurd (cc) }
  admin_only-Yields (some u) = require-Yields u.is_admin 403

  -- A test that has to fail.
  pub absent-Yields :
      (b : Bool) (code : ℕ) → Yields (λ _ (w : World F). b ≡ false) (require (not b) code)
  absent-Yields b code = record {
    after = λ w w1 a e. passed b ((require-Yields (not b) code).after w w1 a e);
  }
