-- ===== src/Subscriptions/Access.antt =====
-- Who may change subscriptions.
use oxiproxy.Prelude.{ℕ, ◌≡◌, refl, false, Option, none, some, String}
use oxiproxy.Prelude.Int.{ℤ}
use oxiproxy.Prelude.Time.{DateTime}
use oxiproxy.Prelude.Float.{Float}
use oxiproxy.Store.{Db}
use oxiproxy.Handlers.{AuthUser}
use oxiproxy.Subscriptions.{
  failure, CreateRequest, UpdateRequest, create_user_subscription, update_user_subscription,
  delete_user_subscription,
}

-- The caller is not logged in, or is no administrator.
abbrev pub Ordinary : Option AuthUser → Type 0
Ordinary none = Unit
Ordinary (some u) = u.is_admin ≡ false

abbrev pub refusal : Option AuthUser → ℕ
refusal none = 401
refusal (some u) = 403

module _ (fl : Float) (parse_date : String → Option DateTime)
    (add_days : DateTime → ℤ → DateTime) where
  open fl use {F}

  -- To a caller who is no administrator each handler answers 401 or 403, and it neither reads nor
  -- changes the database.
  pub Ordinary-refused :
      (auth : Option AuthUser) (id key : ℕ) (creation : CreateRequest) (change : UpdateRequest fl)
      (now : DateTime) (db : Db F)
      → Ordinary auth
      → (create_user_subscription fl parse_date add_days auth key creation now db
          ≡ (failure (refusal auth), db))
        × (update_user_subscription fl auth id change now db ≡ (failure (refusal auth), db))
        × (delete_user_subscription fl auth id now db ≡ (failure (refusal auth), db))
  unfolding create_user_subscription update_user_subscription delete_user_subscription
  Ordinary-refused none id key creation change now db h = (refl, refl, refl)
  Ordinary-refused (some u) id key creation change now db h = rw h (refl, refl, refl)
