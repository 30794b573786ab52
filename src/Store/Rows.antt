-- ===== src/Store/Rows.antt =====
-- Lookups and updates of the rows of a table by primary key.
use oxiproxy.Prelude.{
  ℕ, ◌≡◌, refl, ap, inl, inr, Bool-cases, false, Option, none, some, List, [], ◌∷◌, arith, ◌==◌,
  if◌then◌else◌, not, filter,
}

module _ {ℓ} {A : Type ℓ} (key : A → ℕ) where
  -- `find_by_id(k).one(db)`
  abbrev pub find : ℕ → List A → Option A
  find k [] = none
  find k (a ∷ rows) = if key a == k then some a else find k rows

  -- `active.update(db)` of the row with key `k`.
  abbrev pub update_row : ℕ → (A → A) → List A → List A
  update_row k f [] = []
  update_row k f (a ∷ rows) = (if key a == k then f a else a) ∷ update_row k f rows

  -- `delete_by_id(k).exec(db)`
  abbrev pub delete_row : ℕ → List A → List A
  delete_row k rows = filter (λ a. not (key a == k)) rows

  pub find_key : (k : ℕ) (rows : List A) (a : A) → find k rows ≡ some a → key a ≡ k
  find_key k [] a e = absurd (ground arith)
  find_key k (b ∷ rows) a e = ground (arith, find_key k rows a)

  module _ (f : A → A) (keeps : (a : A) → key (f a) ≡ key a) where
    pub find-update_row_self :
        (k : ℕ) (rows : List A) (a : A)
        → find k rows ≡ some a
        → find k (update_row k f rows) ≡ some (f a)
    find-update_row_self k [] a e = absurd (ground arith)
    find-update_row_self k (b ∷ rows) a e = ground (arith, keeps b, find-update_row_self k rows a)

    pub find-update_row_other :
        (k j : ℕ) (rows : List A) → (j == k) ≡ false → find j (update_row k f rows) ≡ find j rows
    find-update_row_other k j [] h = refl
    find-update_row_other k j (b ∷ rows) h =
        ground (arith, keeps b, find-update_row_other k j rows h)

    -- Two changes of one row are one change.
    pub update_row_twice :
        (g : A → A) (k : ℕ) (rows : List A)
        → update_row k g (update_row k f rows) ≡ update_row k (λ a. g (f a)) rows
    update_row_twice g k [] = refl
    update_row_twice g k (b ∷ rows) = elim (Bool-cases (key b == k)) [
      | inl here ↦ rw (here, keeps b, here) (ap (λ r. g (f b) ∷ r) (update_row_twice g k rows))
      | inr other ↦ rw (other, other) (ap (λ r. b ∷ r) (update_row_twice g k rows))
    ]
