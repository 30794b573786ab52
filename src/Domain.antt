-- ===== src/Domain.antt =====
-- common/src/domain.rs: DNS names, wildcard patterns and route lookup.
-- `is_ipv6` is the IPv6 half of `str::parse::<IpAddr>`; the IPv4 half is `is_ipv4`.
pub mod Chars
pub mod Labels
pub mod Names
pub mod Patterns
pub mod Routes
mod Tests
use oxiproxy.Prelude.{
  ℕ, ◌+◌, ◌-◌, ◌*◌, Bool, true, false, not, ◌&&◌, ◌||◌, Option, none, some, List, [], ◌∷◌, ◌++◌,
  map, String, Text, codes, text_eq, str_eq, ltb, leb, ◌==◌, if◌then◌else◌, len, length, is_empty,
  all, any, trim, is_whitespace, strip_last, split, to_ascii_lowercase, is_ascii_digit,
  is_ascii_alphanumeric, Result, ok, err,
}
use oxiproxy.Prelude.Maps.{get}

-- The messages of the `Err` values.
pub data DomainError : Type 0 where
  invalid_domain space_after_wildcard wildcard_too_long unexpected_domain unknown_kind : DomainError

abbrev decimal : ℕ → Text → ℕ
decimal n [] = n
decimal n (c ∷ s) = decimal (n * 10 + (c - b'0')) s

-- One octet of a dotted quad: one to three digits, no leading zero, at most 255.
is_octet : Text → Bool
is_octet [] = false
is_octet (c ∷ s) =
    all is_ascii_digit (c ∷ s)
    && leb (length s) 2
    && (is_empty s || not (c == b'0'))
    && leb (decimal 0 (c ∷ s)) 255

-- `parse::<Ipv4Addr>().is_ok()`
unfoldable pub is_ipv4 : Text → Bool
unfolding is_octet split
is_ipv4 s = let parts = split b'.' s in length parts == 4 && all is_octet parts

abbrev pub starts_with_dash : Text → Bool
starts_with_dash [] = false
starts_with_dash (c ∷ s) = c == b'-'

abbrev pub ends_with_dash : Text → Bool
ends_with_dash s = elim (strip_last b'-' s) [ none ↦ false | some t ↦ true ]

-- The label test that rejects a name.
unfoldable pub bad_label : Text → Bool
bad_label label =
    is_empty label
    || ltb 63 (len label)
    || starts_with_dash label
    || ends_with_dash label
    || not (all (λ c. is_ascii_alphanumeric c || c == b'-') label)

abbrev unwrap_or : Option Text → Text → Text
unwrap_or none d = d
unwrap_or (some s) d = s

-- `value.trim().strip_suffix('.').unwrap_or(value.trim()).to_ascii_lowercase()`
pub canonical : Text → Text
canonical value = map to_ascii_lowercase (unwrap_or (strip_last b'.' (trim value)) (trim value))

pub starts_with_whitespace : Text → Bool
unfolding is_whitespace
starts_with_whitespace [] = false
starts_with_whitespace (c ∷ s) = is_whitespace c

-- `strip_prefix("*.")`
abbrev strip_star : Text → Option Text
strip_star (a ∷ b ∷ s) = if a == b'*' && b == b'.' then some s else none
strip_star _ = none

abbrev pub starred : Text → Text
starred s = b'*' ∷ b'.' ∷ s

module _ (is_ipv6 : Text → Bool) where
  pub bad_domain : Text → Bool
  bad_domain value =
      is_empty value
      || ltb 253 (len value)
      || (is_ipv4 value || is_ipv6 value)
      || any bad_label (split b'.' value)

  unfoldable pub normalize_domain : Text → Result DomainError Text
  unfolding canonical bad_domain
  normalize_domain value =
      if bad_domain (canonical value) then err invalid_domain else ok (canonical value)

  normalize_suffix : Text → Result DomainError Text
  normalize_suffix suffix = elim (normalize_domain suffix) [
    | err e ↦ err e
    | ok name ↦ if ltb 253 (len name + 2) then err wildcard_too_long else ok (starred name)
  ]

  unfoldable pub normalize_pattern : Text → Result DomainError Text
  unfolding normalize_suffix
  normalize_pattern value = elim (strip_star (trim value)) [
    | none ↦ normalize_domain value
    | some suffix ↦
        if starts_with_whitespace suffix then err space_after_wildcard else normalize_suffix suffix
  ]

  unfoldable pub validate_route : String → Text → Result DomainError Text
  validate_route kind domain =
      if str_eq kind "http" || str_eq kind "https"
      then normalize_pattern domain
      else if str_eq kind "tcp" || str_eq kind "udp"
      then (if is_empty domain then ok [] else err unexpected_domain)
      else err unknown_kind

-- The suffixes of a host that begin with a dot, the longest first.
pub find_suffix {ℓ} : {T : Type ℓ} → List (Text × T) → Text → Option T
find_suffix routes [] = none
find_suffix routes (c ∷ s) =
    let shorter = find_suffix routes s in
    if c == b'.'
    then elim (get text_eq (b'*' ∷ c ∷ s) routes) [ none ↦ shorter | some route ↦ some route ]
    else shorter

pub find_route {ℓ} : {T : Type ℓ} → List (Text × T) → Text → Option T
find_route routes domain = elim (get text_eq domain routes) [
  | some route ↦ some route
  | none ↦ find_suffix routes domain
]

pub routes_conflict : String → Text → String → Text → Bool
routes_conflict kind domain other_kind other_domain =
    not (str_eq kind "http" || str_eq kind "https")
    || not (str_eq kind other_kind)
    || text_eq domain other_domain
