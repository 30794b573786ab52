-- ===== src/Proxies/Separate.antt =====
-- Proxies that can be served at the same time, as a property of the table, and how it follows the
-- writes that the handlers make.
use oxiproxy.Prelude.{
  ℕ, ◌<◌, ◌≡◌, refl, ap, sym, ◌∙◌, inl, inr, Bool, false, ◌&&◌, Option, none, some, List, [], ◌∷◌,
  ◌++◌, arith, ◌==◌, opt_eq, any, filter, All, Bool-cases,
}
use oxiproxy.Domain.{routes_conflict}
use oxiproxy.Domain.Routes.{routes_conflict_comm}
use oxiproxy.Store.{Proxy}
use oxiproxy.Store.Rows
use oxiproxy.Store.Rows.{find, update_row, delete_row}
use oxiproxy.Proxies.{on_port, conflicts_with}

abbrev pub by_id : Proxy → ℕ
by_id p = p.id

-- Both are enabled on the same port of the same node, and the listener cannot tell them apart.
abbrev pub clashes : Proxy → Proxy → Bool
clashes p q =
    p.enabled
    && q.enabled
    && p.remote_port == q.remote_port
    && opt_eq p.node_id q.node_id
    && routes_conflict p.proxy_type p.domain q.proxy_type q.domain

pub record Apart (p q : Proxy) : Type 0 where
  pub other : (p.id == q.id) ≡ false
  pub free : clashes p q ≡ false

-- The keys are positive and different, and no two proxies clash.
abbrev pub Separate : List Proxy → Type 0
Separate [] = Unit
Separate (p ∷ ps) = (0 < p.id) × All (Apart p) ps × Separate ps

eq_test_comm : (a b : ℕ) → (a == b) ≡ (b == a)
eq_test_comm a b = ground arith

opt_eq_comm : (a b : Option ℕ) → opt_eq a b ≡ opt_eq b a
opt_eq_comm none none = refl
opt_eq_comm none (some b) = refl
opt_eq_comm (some a) none = refl
opt_eq_comm (some a) (some b) = eq_test_comm a b

pub clashes_comm : (p q : Proxy) → clashes p q ≡ clashes q p
clashes_comm p q = ground (
  arith,
  eq_test_comm p.remote_port q.remote_port,
  opt_eq_comm p.node_id q.node_id,
  routes_conflict_comm p.proxy_type q.proxy_type p.domain q.domain,
)

pub Apart-comm : (p q : Proxy) → Apart p q → Apart q p
Apart-comm p q h = record {
  other = eq_test_comm q.id p.id ∙ h.other;
  free = clashes_comm q p ∙ h.free;
}

module _ {ℓ κ μ} {A : Type ℓ} (P : A → Type κ) (Q : A → Type μ) where
  pub All-map : (xs : List A) → ((a : A) → P a → Q a) → All P xs → All Q xs
  All-map [] h _ = tt
  All-map (x ∷ xs) h (p, ps) = (h x p, All-map xs h ps)

module _ {ℓ κ} {A : Type ℓ} (P : A → Type κ) where
  pub All-filter : (f : A → Bool) (xs : List A) → All P xs → All P (filter f xs)
  All-filter f [] h = tt
  All-filter f (x ∷ xs) (p, ps) = elim (Bool-cases (f x)) [
    | inl stays ↦ rw stays (p, All-filter f xs ps)
    | inr goes ↦ rw goes (All-filter f xs ps)
  ]

pub Separate-filter : (f : Proxy → Bool) (ps : List Proxy) → Separate ps → Separate (filter f ps)
Separate-filter f [] h = tt
Separate-filter f (p ∷ ps) (pos', apart, rest) = elim (Bool-cases (f p)) [
  | inl stays ↦ rw stays (pos', All-filter (Apart p) f ps apart, Separate-filter f ps rest)
  | inr goes ↦ rw goes (Separate-filter f ps rest)
]

All-append_one :
    (P : Proxy → Type 0) (ps : List Proxy) (q : Proxy) → All P ps → P q → All P (ps ++ q ∷ [])
All-append_one P [] q _ h = (h, tt)
All-append_one P (p ∷ ps) q (hp, hps) h = (hp, All-append_one P ps q hps h)

pub Separate-append :
    (ps : List Proxy) (q : Proxy)
    → 0 < q.id
    → All (λ p. Apart p q) ps
    → Separate ps
    → Separate (ps ++ q ∷ [])
Separate-append [] q h _ _ = (h, tt, tt)
Separate-append (p ∷ ps) q h (first, others) (pos', apart, rest) =
    (pos', All-append_one (Apart p) ps q apart first, Separate-append ps q h others rest)

update_row_absent :
    (id : ℕ) (f : Proxy → Proxy) (ps : List Proxy)
    → All (λ p. (p.id == id) ≡ false) ps
    → update_row by_id id f ps ≡ ps
update_row_absent id f [] _ = refl
update_row_absent id f (p ∷ ps) (no_match, rest) =
    rw no_match (ap (λ r. p ∷ r) (update_row_absent id f ps rest))

-- No other row clashes with the changed one.
abbrev pub Fits : ℕ → (Proxy → Proxy) → List Proxy → Proxy → Type 0
Fits id f ps r = All (λ q. (q.id == id) ≡ false → clashes (f r) q ≡ false) ps

module _ (id : ℕ) (f : Proxy → Proxy) (keeps : (p : Proxy) → (f p).id ≡ p.id) where
  others_differ :
      (b : Proxy) (ps : List Proxy)
      → b.id ≡ id
      → All (Apart b) ps
      → All (λ p. (p.id == id) ≡ false) ps
  others_differ b ps same = All-map _ _ ps (λ q a. rw same at (eq_test_comm q.id b.id ∙ a.other))

  All-update_row :
      (b : Proxy) (ps : List Proxy)
      → Separate ps
      → All (Apart b) ps
      → ((r : Proxy) → find by_id id ps ≡ some r → Apart b (f r))
      → All (Apart b) (update_row by_id id f ps)
  All-update_row b [] s h changed = tt
  All-update_row b (q ∷ qs) (pos', apart, rest) (h, hs) changed = elim (Bool-cases (q.id == id)) [
    | inl here ↦
        let same : q.id ≡ id = ground arith in
        rw (here, update_row_absent id f qs (others_differ q qs same apart))
          (changed q (rw here), hs)
    | inr other ↦ rw other (h, All-update_row b qs rest hs (λ r e. changed r (rw other e)))
  ]

  pub Separate-update_row :
      (ps : List Proxy)
      → Separate ps
      → ((r : Proxy) → find by_id id ps ≡ some r → Fits id f ps r)
      → Separate (update_row by_id id f ps)
  Separate-update_row [] s fits = tt
  Separate-update_row (b ∷ ps) (pos', apart, rest) fits = elim (Bool-cases (b.id == id)) [
    | inl here ↦
        let same : b.id ≡ id = ground arith in
        let differ = others_differ b ps same apart in
        rw (here, update_row_absent id f ps differ)
          (rw (keeps b) pos', first b ps differ apart (fits b (rw here)).1, rest)
    | inr other ↦ rw other (
      pos',
      All-update_row b ps rest apart (λ r e. record {
        other = rw (keeps r) (away b r ps other e);
        free = clashes_comm b (f r) ∙ (fits r (rw other e)).0 other;
      }),
      Separate-update_row ps rest (λ r e. (fits r (rw other e)).1),
    )
  ]
    where
      first :
          (b : Proxy) (qs : List Proxy)
          → All (λ p. (p.id == id) ≡ false) qs
          → All (Apart b) qs
          → Fits id f qs b
          → All (Apart (f b)) qs
      first b [] _ _ _ = tt
      first b (q ∷ qs) (d, ds) (a, as') (t, ts) =
          (record { other = rw (keeps b) a.other; free = t d }, first b qs ds as' ts)

      away :
          (b r : Proxy) (qs : List Proxy)
          → (b.id == id) ≡ false
          → find by_id id qs ≡ some r
          → (b.id == r.id) ≡ false
      away b r qs other e = ground (arith, Rows.find_key by_id id qs r e)

-- The check of a route finds every clash but one with the excluded row.
any-filter-All :
    (c f : Proxy → Bool) (ps : List Proxy)
    → any c (filter f ps) ≡ false
    → All (λ q. (f q && c q) ≡ false) ps
any-filter-All c f [] h = tt
any-filter-All c f (q ∷ qs) h = elim (Bool-cases (f q)) [
  | inl taken ↦
      let both : (c q ≡ false) × (any c (filter f qs) ≡ false) = ground (arith, (rw taken at h)) in
      rw taken (both.0, any-filter-All c f qs both.1)
  | inr free ↦ rw free (refl, any-filter-All c f qs (rw free at h))
]

pub route_free :
    (p : Proxy) (exclude : ℕ) (ps : List Proxy)
    → any
        (conflicts_with p.proxy_type p.domain)
        (filter (on_port p.node_id p.remote_port exclude) ps)
      ≡ false
    → All (λ q. (q.id == exclude) ≡ false → clashes p q ≡ false) ps
route_free p exclude ps h =
    All-map _ _ ps
      (λ q free differs. ground (
        arith,
        free,
        differs,
        eq_test_comm p.remote_port q.remote_port,
        opt_eq_comm p.node_id q.node_id,
      ))
      (any-filter-All _ _ ps h)

pub Separate-positive : (ps : List Proxy) → Separate ps → All (λ q. 0 < q.id) ps
Separate-positive [] s = tt
Separate-positive (p ∷ ps) (h, apart, rest) = (h, Separate-positive ps rest)

pub All-both {ℓ} :
    {A : Type ℓ} (P Q R : A → Type 0)
    → ((a : A) → P a → Q a → R a)
    → (xs : List A) → All P xs
    → All Q xs
    → All R xs
All-both P Q R f [] _ _ = tt
All-both P Q R f (x ∷ xs) (p, ps) (q, qs) = (f x p q, All-both P Q R f xs ps qs)

-- A row of the table clashes with no other.
pub Fits_self :
    (id : ℕ) (ps : List Proxy) (r : Proxy)
    → Separate ps
    → find by_id id ps ≡ some r
    → Fits id (λ p. p) ps r
Fits_self id [] r s e = tt
Fits_self id (b ∷ ps) r (pos', apart, rest) e = elim (Bool-cases (b.id == id)) [
  | inl here ↦
      let same : b ≡ r = cc (rw here at e) in
      (λ other. absurd (cc (sym here ∙ other)), All-map _ _ ps (λ q a _. rw (← same) a.free) apart)
  | inr other ↦
      let e' : find by_id id ps ≡ some r = rw other at e in
      (λ _. clashes_comm r b ∙ (found_apart b r ps apart e').free, Fits_self id ps r rest e')
]
  where
    found_apart :
        (b r : Proxy) (qs : List Proxy) → All (Apart b) qs → find by_id id qs ≡ some r → Apart b r
    found_apart b r [] _ e = absurd (cc)
    found_apart b r (q ∷ qs) (a, as') e = elim (Bool-cases (q.id == id)) [
      | inl here ↦ let same : q ≡ r = cc (rw here at e) in rw (← same) a
      | inr other ↦ found_apart b r qs as' (rw other at e)
    ]

pub All-always {ℓ κ} : {A : Type ℓ} (P : A → Type κ) (xs : List A) → ((a : A) → P a) → All P xs
All-always P [] h = tt
All-always P (x ∷ xs) h = (h x, All-always P xs h)
