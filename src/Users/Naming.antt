-- ===== src/Users/Naming.antt =====
-- No two users have one name, after any series of requests.
use oxiproxy.Prelude.{
  ℕ, ◌≡◌, ◌∙◌, inl, inr, Bool, true, false, Option, none, some, List, [], ◌∷◌, ◌++◌, String, str_eq,
  str_eq_iff, ◌==◌, ==_iff, any, filter, arith, Bool-cases, All, All-append,
}
use oxiproxy.Store.{User}
use oxiproxy.Store.Rows.{update_row}
use oxiproxy.Proxies.Updates.{or_old}
use oxiproxy.Users.{name_taken, taken_by_other}

str_eq_sym : (s t : String) → str_eq s t ≡ str_eq t s
str_eq_sym s t = ground (arith, str_eq_iff s t, str_eq_iff t s)

module _ {F : Type 0} where
  abbrev pub Apart : User F → User F → Type 0
  Apart u v = (u.id == v.id ≡ false) × (str_eq u.username v.username ≡ false)

  -- Keys and names are each one user's.
  abbrev pub NamedOnce : List (User F) → Type 0
  NamedOnce [] = Unit
  NamedOnce (u ∷ us) = All (Apart u) us × NamedOnce us

  pub NamedOnce-append :
      (x : User F) (us : List (User F))
      → any (λ (v : User F). v.id == x.id) us ≡ false
      → name_taken x.username us ≡ false
      → NamedOnce us
      → NamedOnce (us ++ (x ∷ []))
  NamedOnce-append x [] new_key free h = (tt, tt)
  NamedOnce-append x (u ∷ us) new_key free (first, h) = (
    All-append (Apart u) us (x ∷ []) first (ground arith, tt),
    NamedOnce-append x us (ground arith) (ground arith) h,
  )

  Apart-filter :
      (u : User F) (q : User F → Bool) (us : List (User F))
      → All (Apart u) us
      → All (Apart u) (filter q us)
  Apart-filter u q [] h = tt
  Apart-filter u q (v ∷ us) (first, h) = elim (Bool-cases (q v)) [
    | inl stays ↦ rw stays (first, Apart-filter u q us h)
    | inr goes ↦ rw goes (Apart-filter u q us h)
  ]

  pub NamedOnce-filter :
      (q : User F → Bool) (us : List (User F)) → NamedOnce us → NamedOnce (filter q us)
  NamedOnce-filter q [] h = tt
  NamedOnce-filter q (u ∷ us) (first, h) = elim (Bool-cases (q u)) [
    | inl stays ↦ rw stays (Apart-filter u q us first, NamedOnce-filter q us h)
    | inr goes ↦ rw goes (NamedOnce-filter q us h)
  ]

  -- The name that a request sets is no other user's.
  abbrev pub IsFreeName : ℕ → Option String → List (User F) → Type 0
  IsFreeName id none us = Unit
  IsFreeName id (some name) us = taken_by_other id name us ≡ false

  IsFreeName-tail :
      (id : ℕ) (o : Option String) (u : User F) (us : List (User F))
      → IsFreeName id o (u ∷ us)
      → IsFreeName id o us
  IsFreeName-tail id none u us h = tt
  IsFreeName-tail id (some name) u us h = ground arith

  -- A user with another key is apart from a user who takes the name.
  Apart-renamed :
      (id : ℕ) (o : Option String) (u v : User F) (name : String)
      → (v.id == id) ≡ false
      → IsFreeName id o (v ∷ [])
      → name ≡ or_old o u.username
      → Apart u v
      → str_eq name v.username ≡ false
  Apart-renamed id none u v name other free same apart = rw same apart.1
  Apart-renamed id (some wanted) u v name other free same apart =
      rw same (ground (arith, str_eq_sym wanted v.username))

  module _ (id : ℕ) (o : Option String) (f : User F → User F)
      (keeps : (u : User F) → (f u).id ≡ u.id)
      (renames : (u : User F) → (f u).username ≡ or_old o u.username) where
    Apart-update_row :
        (u : User F) (us : List (User F))
        → (u.id == id) ≡ false
        → IsFreeName id o (u ∷ [])
        → All (Apart u) us
        → All (Apart u) (update_row (λ (v : User F). v.id) id f us)
    Apart-update_row u [] other free h = tt
    Apart-update_row u (v ∷ us) other free (first, h) = elim (Bool-cases (v.id == id)) [
      | inr stays ↦ rw stays (first, Apart-update_row u us other free h)
      | inl hit ↦ rw hit (
        (
          rw (keeps v) first.0,
          str_eq_sym u.username (f v).username
              ∙ Apart-renamed id o v u (f v).username other free (renames v) (
                ground (arith, ==_iff u.id v.id, ==_iff v.id u.id),
                str_eq_sym v.username u.username ∙ first.1,
              ),
        ),
        Apart-update_row u us other free h,
      )
    ]

    -- The renamed user is apart from the users behind it.
    Apart-changed :
        (u : User F) (us : List (User F))
        → (u.id == id) ≡ true
        → IsFreeName id o us
        → All (Apart u) us
        → All (Apart (f u)) (update_row (λ (v : User F). v.id) id f us)
    Apart-changed u [] hit free h = tt
    Apart-changed u (v ∷ us) hit free (first, h) =
        let other : (v.id == id) ≡ false =
          ground (arith, ==_iff u.id v.id, ==_iff u.id id, ==_iff v.id id) in
        rw other (
          (
            rw (keeps u) first.0,
            Apart-renamed id o u v (f u).username other (alone o free) (renames u) first,
          ),
          Apart-changed u us hit (IsFreeName-tail id o v us free) h,
        )
      where
        alone : (p : Option String) → IsFreeName id p (v ∷ us) → IsFreeName id p (v ∷ [])
        alone none q = tt
        alone (some name) q = ground arith

    pub NamedOnce-update_row :
        (us : List (User F))
        → IsFreeName id o us
        → NamedOnce us
        → NamedOnce (update_row (λ (v : User F). v.id) id f us)
    NamedOnce-update_row [] free h = tt
    NamedOnce-update_row (u ∷ us) free (first, h) = elim (Bool-cases (u.id == id)) [
      | inl hit ↦ rw hit (
        Apart-changed u us hit (IsFreeName-tail id o u us free) first,
        NamedOnce-update_row us (IsFreeName-tail id o u us free) h,
      )
      | inr stays ↦ rw stays (
        Apart-update_row u us stays (alone o free) first,
        NamedOnce-update_row us (IsFreeName-tail id o u us free) h,
      )
    ]
      where
        alone : (p : Option String) → IsFreeName id p (u ∷ us) → IsFreeName id p (u ∷ [])
        alone none q = tt
        alone (some name) q = ground arith
