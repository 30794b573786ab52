-- ===== src/Prelude/Maps.antt =====
-- A `HashMap` as the list of its entries, over a key type with a Boolean equality.
use oxiproxy.Prelude.{
  ◌≡◌, refl, ◌↔◌, inl, inr, Bool-cases, Bool, true, false, not, Option, none, some, List, [], ◌∷◌,
  arith, if◌then◌else◌, filter, ◌⊎◌, Option-cases, ap, ◌∙◌,
}

abbrev pub option_map {ℓ κ} : {A : Type ℓ} {B : Type κ} → (A → B) → Option A → Option B
option_map f none = none
option_map f (some a) = some (f a)

module _ {ℓ κ} {K : Type ℓ} {V : Type κ} (eq : K → K → Bool) where
  abbrev pub get : K → List (K × V) → Option V
  get k [] = none
  get k ((j, v) ∷ m) = if eq j k then some v else get k m

  -- An entry with the key is replaced in place.
  abbrev pub insert : K → V → List (K × V) → List (K × V)
  insert k v [] = (k, v) ∷ []
  insert k v ((j, w) ∷ m) = if eq j k then (k, v) ∷ m else (j, w) ∷ insert k v m

  abbrev pub remove : K → List (K × V) → List (K × V)
  remove k m = filter (λ e. not (eq e.0 k)) m

  abbrev pub contains_key : K → List (K × V) → Bool
  contains_key k m = elim (get k m) [ none ↦ false | some v ↦ true ]

module _ {ℓ κ} {K : Type ℓ} {V : Type κ} (eq : K → K → Bool)
    (eq_iff : (a b : K) → (eq a b ≡ true) ↔ (a ≡ b)) where
  pub get-insert :
      (k j : K) (v : V) (m : List (K × V))
      → get eq j (insert eq k v m) ≡ (if eq k j then some v else get eq j m)
  get-insert k j v [] = refl
  get-insert k j v ((i, w) ∷ m) =
      ground (arith, eq_iff k j, eq_iff i k, eq_iff i j, get-insert k j v m)

  pub get-remove :
      (k j : K) (m : List (K × V))
      → get eq j (remove eq k m) ≡ (if eq k j then none else get eq j m)
  get-remove k j [] = ground arith
  get-remove k j ((i, w) ∷ m) = ground (arith, eq_iff k j, eq_iff i k, eq_iff i j, get-remove k j m)

-- Every key stands once, as in a `HashMap`.
module _ {ℓ κ} {K : Type ℓ} {V : Type κ} (eq : K → K → Bool) where
  abbrev pub Distinct : List (K × V) → Type κ
  Distinct [] = Unit
  Distinct ((k, v) ∷ m) = (get eq k m ≡ none) × Distinct m

  -- `retain`
  abbrev pub retain : (V → Bool) → List (K × V) → List (K × V)
  retain p m = filter (λ e. p e.1) m

  -- What is left of a value that a `retain` looks at.
  abbrev pub kept : (V → Bool) → Option V → Option V
  kept p none = none
  kept p (some v) = if p v then some v else none

  pub retain-none :
      (p : V → Bool) (k : K) (m : List (K × V)) → get eq k m ≡ none → get eq k (retain p m) ≡ none
  retain-none p k [] h = refl
  retain-none p k ((j, v) ∷ m) h = ground (arith, retain-none p k m)

  pub retain-Distinct : (p : V → Bool) (m : List (K × V)) → Distinct m → Distinct (retain p m)
  retain-Distinct p [] h = tt
  retain-Distinct p ((j, v) ∷ m) (fresh, h) = elim (Bool-cases (p v)) [
    | inl keep ↦ rw keep (retain-none p j m fresh, retain-Distinct p m h)
    | inr drop ↦ rw drop (retain-Distinct p m h)
  ]

module _ {ℓ κ} {K : Type ℓ} {V : Type κ} (eq : K → K → Bool)
    (eq_iff : (a b : K) → (eq a b ≡ true) ↔ (a ≡ b)) where
  pub get-retain :
      (p : V → Bool) (k : K) (m : List (K × V))
      → Distinct eq m
      → get eq k (retain eq p m) ≡ kept eq p (get eq k m)
  get-retain p k [] h = refl
  get-retain p k ((j, v) ∷ m) (fresh, h) =
      let rest = get-retain p k m h in
      elim (Bool-cases (eq j k)) [
        | inr other ↦ elim (Bool-cases (p v)) [
          | inl keep ↦ rw (keep, other) rest
          | inr drop ↦ rw (drop, other) rest
        ]
        | inl same ↦
            let here : get eq k m ≡ none = rw ((eq_iff j k).0 same) at fresh in
            elim (Bool-cases (p v)) [
              | inl keep ↦ rw (keep, same) (rw keep)
              | inr drop ↦ rw (drop, same) (rw drop (retain-none eq p k m here))
            ]
      ]

  -- What a lookup after an `insert`, and after a `retain`, finds.
  pub get-insert_cases :
      (k j : K) (v w : V) (m : List (K × V))
      → get eq j (insert eq k v m) ≡ some w
      → ((k ≡ j) × (v ≡ w)) ⊎ (get eq j m ≡ some w)
  get-insert_cases k j v w m e = elim (Bool-cases (eq k j)) [
    | inl same ↦
        let hit : some v ≡ some w = rw (get-insert eq eq_iff k j v m, same) at e in
        inl ((eq_iff k j).0 same, cc)
    | inr other ↦ inr (rw (get-insert eq eq_iff k j v m, other) at e)
  ]

  pub get-retain_found :
      (p : V → Bool) (k : K) (v : V) (m : List (K × V))
      → Distinct eq m
      → get eq k (retain eq p m) ≡ some v
      → (get eq k m ≡ some v) × (p v ≡ true)
  get-retain_found p k v m h e = elim (Option-cases (get eq k m)) [
    | inl missing ↦ absurd (cc (rw (get-retain p k m h, missing) at e))
    | inr (w, found) ↦
        let left : kept eq p (some w) ≡ some v = rw (get-retain p k m h, found) at e in
        elim (Bool-cases (p w)) [
          | inl keep ↦
              let same : w ≡ v = cc (rw keep at left) in (found ∙ ap some same, rw same at keep)
          | inr drop ↦ absurd (cc (rw drop at left))
        ]
  ]

  pub insert-Distinct :
      (k : K) (v : V) (m : List (K × V)) → Distinct eq m → Distinct eq (insert eq k v m)
  insert-Distinct k v [] h = (refl, tt)
  insert-Distinct k v ((j, w) ∷ m) (fresh, h) = elim (Bool-cases (eq j k)) [
    | inl same ↦ rw same (rw ((eq_iff j k).0 same) at fresh, h)
    | inr other ↦ rw other (
      ground (arith, eq_iff k j, eq_iff j k, get-insert eq eq_iff k j v m),
      insert-Distinct k v m h,
    )
  ]

-- A change of every value.
module _ {ℓ κ} {K : Type ℓ} {V : Type κ} (eq : K → K → Bool) where
  abbrev pub map_values : (V → V) → List (K × V) → List (K × V)
  map_values f [] = []
  map_values f ((k, v) ∷ m) = (k, f v) ∷ map_values f m

  pub get-map_values :
      (f : V → V) (k : K) (m : List (K × V)) → get eq k (map_values f m) ≡ option_map f (get eq k m)
  get-map_values f k [] = refl
  get-map_values f k ((j, v) ∷ m) = ground (arith, get-map_values f k m)

  pub map_values-Distinct :
      (f : V → V) (m : List (K × V)) → Distinct eq m → Distinct eq (map_values f m)
  map_values-Distinct f [] h = tt
  map_values-Distinct f ((k, v) ∷ m) (fresh, h) =
      (rw (get-map_values f k m, fresh), map_values-Distinct f m h)
