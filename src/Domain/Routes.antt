-- ===== src/Domain/Routes.antt =====
-- Route lookup (`find_route`) and the port-sharing rule (`routes_conflict`).
use mathlib.Core.List.{cons-eq-cons}
use oxiproxy.Prelude.{
  ℕ, suc, ◌<◌, ◌≡◌, refl, sym, ap, ◌∙◌, ◌≢◌, ◌↔◌, ◌⊎◌, inl, inr, false, none, some, List, [], ◌∷◌,
  ◌++◌, arith, Text, text_eq, text_eq_iff, text_eq_refl, ◌==◌, ==_iff, Bool-cases, Option-cases,
  length, length-append, String, str_eq_iff,
}
use oxiproxy.Prelude.Maps.{get, insert, get-insert}
use oxiproxy.Domain.{find_suffix, find_route, starred, routes_conflict}

module _ {ℓ} {T : Type ℓ} (routes : List (Text × T)) where
  -- No dot of `d` before position `n` starts a suffix with a wildcard route.
  abbrev pub NoneLonger : ℕ → Text → Type ℓ
  NoneLonger n d =
      (p s : Text) → d ≡ p ++ b'.' ∷ s → length p < n → get text_eq (starred s) routes ≡ none

  -- `r` is the route of `*.s` for the longest `s` behind a dot of `d` that has one.
  pub record IsLongest (d : Text) (r : T) : Type ℓ where
    pub labels : Text
    pub suffix : Text
    pub splits : d ≡ labels ++ b'.' ∷ suffix
    pub routed : get text_eq (starred suffix) routes ≡ some r
    pub longest : NoneLonger (length labels) d

  NoneLonger-cons :
      (n c : ℕ) (s : Text)
      → ((c ≡ b'.') → get text_eq (starred s) routes ≡ none)
      → NoneLonger n s
      → NoneLonger (suc n) (c ∷ s)
  NoneLonger-cons n c s here later [] t e lt =
      let (same, rest) = cons-eq-cons.0 e in rw (← rest) (here same)
  NoneLonger-cons n c s here later (x ∷ p) t e lt = later p t (cons-eq-cons.0 e).1 (omega arith)

  -- One round of the loop: a route found at this dot, or the search of the rest.
  find_suffix_cases :
      (c : ℕ) (s : Text)
      → ((r : T) × (c ≡ b'.')
          × (get text_eq (starred s) routes ≡ some r)
          × (find_suffix routes (c ∷ s) ≡ some r))
        ⊎ (((c ≡ b'.') → get text_eq (starred s) routes ≡ none)
            × (find_suffix routes (c ∷ s) ≡ find_suffix routes s))
  unfolding find_suffix
  find_suffix_cases c s = elim (Bool-cases (c == b'.')) [
    | inr other ↦ inr (λ e. absurd (ground arith), rw other)
    | inl dot ↦
        let same : c ≡ b'.' = (==_iff c b'.').0 dot in
        let moved : get text_eq (b'*' ∷ c ∷ s) routes ≡ get text_eq (starred s) routes = rw same in
        elim (Option-cases (get text_eq (starred s) routes)) [
          | inl missing ↦ inr (λ _. missing, rw (dot, moved, missing))
          | inr (r, found) ↦ inl (r, same, found, rw (dot, moved, found))
        ]
  ]

  find_suffix_sound : (d : Text) (r : T) → find_suffix routes d ≡ some r → IsLongest d r
  unfolding find_suffix
  find_suffix_sound [] r e = cc
  find_suffix_sound (c ∷ s) r e = elim (find_suffix_cases c s) [
    | inl (q, same, found, result) ↦ record {
      labels = [];
      suffix = s;
      splits = ap (λ x. x ∷ s) same;
      routed = found ∙ (sym result ∙ e);
      longest = λ p t _ lt. absurd (omega arith);
    }
    | inr (here, result) ↦
        let rest = find_suffix_sound s r (sym result ∙ e) in
        record {
          labels = c ∷ rest.labels;
          suffix = rest.suffix;
          splits = ap (λ (t : Text). c ∷ t) rest.splits;
          routed = rest.routed;
          longest = NoneLonger-cons (length rest.labels) c s here rest.longest;
        }
  ]

  find_suffix-none :
      (d p s : Text)
      → find_suffix routes d ≡ none
      → d ≡ p ++ b'.' ∷ s
      → get text_eq (starred s) routes ≡ none
  unfolding find_suffix
  find_suffix-none [] [] s h e = cc
  find_suffix-none [] (x ∷ p) s h e = cc
  find_suffix-none (c ∷ d) [] s h e = elim (find_suffix_cases c d) [
    | inl (q, same, found, result) ↦ cc
    | inr (here, result) ↦ let (dot, rest) = cons-eq-cons.0 e in rw (← rest) (here dot)
  ]
  find_suffix-none (c ∷ d) (x ∷ p) s h e = elim (find_suffix_cases c d) [
    | inl (q, same, found, result) ↦ cc
    | inr (here, result) ↦ find_suffix-none d p s (sym result ∙ h) (cons-eq-cons.0 e).1
  ]

  find_suffix_complete :
      (d p s : Text) (r : T)
      → d ≡ p ++ b'.' ∷ s
      → get text_eq (starred s) routes ≡ some r
      → NoneLonger (length p) d
      → find_suffix routes d ≡ some r
  unfolding find_suffix
  find_suffix_complete [] [] s r e g none_longer = cc
  find_suffix_complete [] (x ∷ p) s r e g none_longer = cc
  find_suffix_complete (c ∷ d) [] s r e g none_longer = elim (find_suffix_cases c d) [
    | inl (q, same, found, result) ↦
        let rest = (cons-eq-cons.0 e).1 in result ∙ (sym found ∙ (rw rest g))
    | inr (here, result) ↦
        let (dot, rest) = cons-eq-cons.0 e in
        let missing : get text_eq (starred s) routes ≡ none = rw (← rest) (here dot) in cc
  ]
  find_suffix_complete (c ∷ d) (x ∷ p) s r e g none_longer = elim (find_suffix_cases c d) [
    | inl (q, same, found, result) ↦
        let missing = none_longer [] d (ap (λ (y : ℕ). y ∷ d) same) (omega arith) in cc
    | inr (here, result) ↦
        result
        ∙ find_suffix_complete d p s r (cons-eq-cons.0 e).1 g
            (λ q t split lt. none_longer (c ∷ q) t (ap (λ (u : Text). c ∷ u) split) (omega arith))
  ]

  -- What a lookup promises: the exact name, and else the longest wildcard suffix.
  abbrev pub IsRoute : Text → T → Type ℓ
  IsRoute d r = (get text_eq d routes ≡ some r) ⊎ ((get text_eq d routes ≡ none) × IsLongest d r)

  -- A lookup finds `r` exactly when `r` is the route of the name itself, or no route has that name
  -- and `r` is the route of the longest wildcard suffix that has one.
  pub find_route_iff : (d : Text) (r : T) → (find_route routes d ≡ some r) ↔ IsRoute d r
  unfolding find_route
  find_route_iff d r = elim (Option-cases (get text_eq d routes)) [
    | inr (q, exact) ↦
        let found : find_route routes d ≡ some q = rw (exact, find_route) in
        (
          λ e. inl (exact ∙ (sym found ∙ e)),
          elim [ inl e ↦ found ∙ (sym exact ∙ e) | inr (missing, _) ↦ absurd (cc) ],
        )
    | inl missing ↦
        let found : find_route routes d ≡ find_suffix routes d = rw (missing, find_route) in
        (
          λ e. inr (missing, find_suffix_sound d r (sym found ∙ e)),
          elim [
            | inl exact ↦ absurd (cc)
            | inr (_, l) ↦
                found ∙ find_suffix_complete d l.labels l.suffix r l.splits l.routed l.longest
          ],
        )
  ]

find_suffix_ext {ℓ} :
    {T : Type ℓ} (m n : List (Text × T)) (d : Text)
    → ((key : Text) → get text_eq key m ≡ get text_eq key n)
    → find_suffix m d ≡ find_suffix n d
unfolding find_suffix
find_suffix_ext m n [] same = refl
find_suffix_ext m n (c ∷ d) same = ground (arith, same (b'*' ∷ c ∷ d), find_suffix_ext m n d same)

-- A lookup depends on what the map holds under each key, and not on how it was filled.
pub find_route_ext {ℓ} :
    {T : Type ℓ} (m n : List (Text × T)) (d : Text)
    → ((key : Text) → get text_eq key m ≡ get text_eq key n)
    → find_route m d ≡ find_route n d
unfolding find_route
find_route_ext m n d same = ground (arith, same d, find_suffix_ext m n d same)

-- Lookups do not depend on the order in which two routes with different patterns were inserted.
pub find_route-insert_comm {ℓ} :
    {T : Type ℓ} (m : List (Text × T)) (j k d : Text) (a b : T)
    → j ≢ k
    → find_route (insert text_eq j a (insert text_eq k b m)) d
      ≡ find_route (insert text_eq k b (insert text_eq j a m)) d
find_route-insert_comm m j k d a b differ = find_route_ext _ _ d λ key. ground (
  arith,
  get-insert text_eq text_eq_iff j key a (insert text_eq k b m),
  get-insert text_eq text_eq_iff k key b m,
  get-insert text_eq text_eq_iff k key b (insert text_eq j a m),
  get-insert text_eq text_eq_iff j key a m,
  text_eq_iff j key,
  text_eq_iff k key,
)

get_single {ℓ} :
    {T : Type ℓ} (j k : Text) (q r : T) → get text_eq k ((j, r) ∷ []) ≡ some q → (j ≡ k) × (r ≡ q)
get_single j k q r e = ground (arith, text_eq_iff j k)

get_single_self {ℓ} : {T : Type ℓ} (k : Text) (r : T) → get text_eq k ((k, r) ∷ []) ≡ some r
get_single_self k r = rw (text_eq_refl k)

module _ {ℓ} {T : Type ℓ} (d host : Text) (r : T) where
  wildcard_from :
      find_route ((starred d, r) ∷ []) host ≡ some r → (p : Text) × (host ≡ p ++ b'.' ∷ d)
  wildcard_from e = elim ((find_route_iff _ host r).0 e) [
    | inl exact ↦ (b'*' ∷ [], sym (get_single (starred d) host r r exact).0)
    | inr (_, l) ↦ let same = (get_single d l.suffix r r l.routed).0 in (l.labels, rw same l.splits)
  ]

  wildcard_longest :
      (p : Text) → host ≡ p ++ b'.' ∷ d → NoneLonger ((starred d, r) ∷ []) (length p) host
  wildcard_longest p e q t split lt = elim (Option-cases (get text_eq t ((d, r) ∷ []))) [
    | inl missing ↦ missing
    | inr (u, found) ↦
        let same = (get_single d t u r found).0 in
        absurd (
          omega (
            arith,
            ap length e,
            ap length split,
            ap length same,
            length-append p (b'.' ∷ d),
            length-append q (b'.' ∷ t),
          ))
  ]

  wildcard_into : (p : Text) → host ≡ p ++ b'.' ∷ d → find_route ((starred d, r) ∷ []) host ≡ some r
  wildcard_into p e =
      (find_route_iff _ host r).1 (elim (Option-cases (get text_eq host ((starred d, r) ∷ []))) [
        | inl missing ↦ inr (
          missing,
          record {
            labels = p;
            suffix = d;
            splits = e;
            routed = get_single_self d r;
            longest = wildcard_longest p e;
          },
        )
        | inr (q, found) ↦ inl (found ∙ ap some (sym (get_single (starred d) host q r found).1))
      ])

  -- A single wildcard route `*.d` takes exactly the hosts that end in `.d`.
  pub wildcard_scope :
      (find_route ((starred d, r) ∷ []) host ≡ some r) ↔ ((p : Text) × (host ≡ p ++ b'.' ∷ d))
  wildcard_scope = (wildcard_from, λ h. wildcard_into h.0 h.1)

-- Two routes may share a port exactly when both are HTTP or both are HTTPS, of different domains.
pub routes_conflict-eq-false_iff :
    (kind other_kind : String) (domain other_domain : Text)
    → (routes_conflict kind domain other_kind other_domain ≡ false)
      ↔ (((kind ≡ "http") ⊎ (kind ≡ "https")) × (kind ≡ other_kind) × (domain ≢ other_domain))
unfolding routes_conflict
routes_conflict-eq-false_iff kind other_kind domain other_domain = ground (
  arith,
  str_eq_iff kind "http",
  str_eq_iff kind "https",
  str_eq_iff kind other_kind,
  text_eq_iff domain other_domain,
)

-- The rule does not depend on which of the two routes comes first.
pub routes_conflict_comm :
    (kind other_kind : String) (domain other_domain : Text)
    → routes_conflict kind domain other_kind other_domain
      ≡ routes_conflict other_kind other_domain kind domain
unfolding routes_conflict
routes_conflict_comm kind other_kind domain other_domain = ground (
  arith,
  str_eq_iff kind "http",
  str_eq_iff kind "https",
  str_eq_iff other_kind "http",
  str_eq_iff other_kind "https",
  str_eq_iff kind other_kind,
  str_eq_iff other_kind kind,
  text_eq_iff domain other_domain,
  text_eq_iff other_domain domain,
)
