-- ===== src/Domain/Patterns.antt =====
-- Wildcard patterns (`normalize_pattern`) and the domain rule of each proxy kind (`validate_route`).
use mathlib.Core.List.{cons-eq-cons}
use oxiproxy.Prelude.{
  ◌+◌, ◌≤◌, ◌≡◌, refl, ◌≢◌, ◌↔◌, ◌⊎◌, inl, inr, Bool, true, false, ◌||◌, none, some, [], ◌∷◌, arith,
  Text, ltb, Bool-cases, Option-cases, length, len, All, is_empty, trim, is_whitespace, String,
  str_eq, str_eq_iff, Result-cases, is_ok, ok,
}
use oxiproxy.Domain.{
  normalize_domain, normalize_suffix, normalize_pattern, validate_route, strip_star, starred,
  starts_with_whitespace,
}
use oxiproxy.Domain.Chars.{IsSolid, IsSolid-NameChar, trim_id, is_whitespace-NameChar}
use oxiproxy.Domain.Labels.{lt_false, length-le-len, len-ascii}
use oxiproxy.Domain.Names.{IsName, name_chars, normalize_domain_iff, canonical_id}

is_empty_iff : (v : Text) → (is_empty v ≡ true) ↔ (v ≡ [])
is_empty_iff [] = ground arith
is_empty_iff (c ∷ v) = ((λ e. absurd (cc)), λ e. absurd (cc))

strip_star_sound : (v s : Text) → strip_star v ≡ some s → v ≡ starred s
strip_star_sound [] s e = cc
strip_star_sound (a ∷ []) s e = cc
strip_star_sound (a ∷ b ∷ t) s e = ground arith

strip_star-starred : (s : Text) → strip_star (starred s) ≡ some s
strip_star-starred s = refl

-- A canonical name never starts with a wildcard, so exact and wildcard routes have distinct keys.
pub IsName-ne-starred : (d s : Text) → IsName d → d ≢ starred s
IsName-ne-starred [] s h e = cc
IsName-ne-starred (c ∷ d) s h e =
    let star = (cons-eq-cons.0 e).0 in let char = (name_chars (c ∷ d) h.labels).0 in ground arith

strip_star-IsName : (d : Text) → IsName d → strip_star d ≡ none
strip_star-IsName d h = elim (Option-cases (strip_star d)) [
  | inl missing ↦ missing
  | inr (s, found) ↦ absurd (IsName-ne-starred d s h (strip_star_sound d s found))
]

IsName-solid : (d : Text) → IsName d → starts_with_whitespace d ≡ false
unfolding starts_with_whitespace
IsName-solid [] h = refl
IsName-solid (c ∷ d) h = is_whitespace-NameChar c (name_chars (c ∷ d) h.labels).0

starred-IsSolid : (s : Text) → All IsSolid s → All IsSolid (starred s)
unfolding is_whitespace
starred-IsSolid s h = (refl, (refl, h))

module _ (is_ipv6 : Text → Bool) where
  -- A canonical name, or `*.` before one, no longer than a name may be.
  abbrev pub IsPattern : Text → Type 0
  IsPattern d =
      (IsName d × (is_ipv6 d ≡ false))
      ⊎ ((s : Text) × (d ≡ starred s) × IsName s × (is_ipv6 s ≡ false) × (length s ≤ 251))

  normalize_suffix_sound :
      (v d : Text)
      → normalize_suffix is_ipv6 v ≡ ok d
      → (s : Text) × (d ≡ starred s) × IsName s × (is_ipv6 s ≡ false) × (length s ≤ 251)
  unfolding normalize_suffix
  normalize_suffix_sound v d e = elim (Result-cases (normalize_domain is_ipv6 v)) [
    | inr (x, failed) ↦ absurd (ground arith)
    | inl (s, passed) ↦
        let (_, name, v6) = (normalize_domain_iff is_ipv6 v s).0 passed in
        elim (Bool-cases (ltb 253 (len s + 2))) [
          | inl long ↦ absurd (ground arith)
          | inr short ↦
              let fits : len s + 2 ≤ 253 = ground arith in
              (s, ground arith, name, v6, omega (arith, length-le-len s))
        ]
  ]

  -- A pattern that is accepted is canonical: a name, or `*.` before a name, that is no address
  -- and no longer than a name may be.
  pub normalize_pattern-IsPattern : (v d : Text) → normalize_pattern is_ipv6 v ≡ ok d → IsPattern d
  unfolding normalize_pattern
  normalize_pattern-IsPattern v d e = elim (Option-cases (strip_star (trim v))) [
    | inl plain ↦
        let same : normalize_domain is_ipv6 v ≡ ok d = ground arith in
        let (_, name, v6) = (normalize_domain_iff is_ipv6 v d).0 same in inl (name, v6)
    | inr (s, found) ↦ elim (Bool-cases (starts_with_whitespace s)) [
      | inl blank ↦ absurd (ground arith)
      | inr solid ↦ inr (normalize_suffix_sound s d (ground arith))
    ]
  ]

  normalize_suffix_complete :
      (s : Text)
      → IsName s
      → is_ipv6 s ≡ false
      → length s ≤ 251
      → normalize_suffix is_ipv6 s ≡ ok (starred s)
  unfolding normalize_suffix
  normalize_suffix_complete s name v6 short =
      let same = (normalize_domain_iff is_ipv6 s s).1 (canonical_id s name, name, v6) in
      let bytes = len-ascii s (name_chars s name.labels) in
      let fits : ltb 253 (len s + 2) ≡ false = lt_false _ _ (omega (arith, bytes)) in
      rw (same, normalize_suffix) (rw fits)

  -- Normalising a canonical pattern changes nothing.
  pub normalize_pattern_id : (d : Text) → IsPattern d → normalize_pattern is_ipv6 d ≡ ok d
  unfolding normalize_pattern
  normalize_pattern_id d (inl (name, v6)) =
      let chars = IsSolid-NameChar d (name_chars d name.labels) in
      rw (trim_id d chars, normalize_pattern)
        (rw (strip_star-IsName d name)
          ((normalize_domain_iff is_ipv6 d d).1 (canonical_id d name, name, v6)))
  normalize_pattern_id d (inr (s, e, name, v6, short)) =
      let chars = IsSolid-NameChar s (name_chars s name.labels) in
      rw (e, trim_id (starred s) (starred-IsSolid s chars), normalize_pattern)
        (rw (IsName-solid s name) (normalize_suffix_complete s name v6 short))

  -- A route that was accepted is accepted again as stored, and stays what it is.
  pub validate_route_idem :
      (kind : String) (v d : Text)
      → validate_route is_ipv6 kind v ≡ ok d
      → validate_route is_ipv6 kind d ≡ ok d
  unfolding validate_route
  validate_route_idem kind v d e = elim (Bool-cases (str_eq kind "http" || str_eq kind "https")) [
    | inl web ↦
        let passed : normalize_pattern is_ipv6 v ≡ ok d = rw web at e in
        rw web (normalize_pattern_id d (normalize_pattern-IsPattern v d passed))
    | inr other ↦ ground arith
  ]

  -- A kind is accepted with a domain exactly if it is HTTP or HTTPS with a valid pattern, or TCP or
  -- UDP with no domain.
  pub validate_route_iff :
      (kind : String) (v : Text)
      → (is_ok (validate_route is_ipv6 kind v) ≡ true) ↔ (
          (((kind ≡ "http") ⊎ (kind ≡ "https")) × (is_ok (normalize_pattern is_ipv6 v) ≡ true))
          ⊎ (((kind ≡ "tcp") ⊎ (kind ≡ "udp")) × (v ≡ [])))
  unfolding validate_route
  validate_route_iff kind v = ground (
    arith,
    str_eq_iff kind "http",
    str_eq_iff kind "https",
    str_eq_iff kind "tcp",
    str_eq_iff kind "udp",
    is_empty_iff v,
    str_eq_iff "http" "tcp",
    str_eq_iff "http" "udp",
    str_eq_iff "https" "tcp",
    str_eq_iff "https" "udp",
  )
