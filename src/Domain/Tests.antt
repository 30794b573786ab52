-- ===== src/Domain/Tests.antt =====
-- The unit tests of common/src/domain.rs, and the witnesses of the theorems.
use oxiproxy.Prelude.{
  ◌≡◌, ◌↔◌, refl, ℕ, Text, codes, false, some, List, [], ◌∷◌, ok, err, trim, split, String,
}
use oxiproxy.Domain.{
  normalize_domain, normalize_pattern, validate_route, find_route, find_suffix, invalid_domain,
  is_ipv4, bad_label, canonical, starts_with_whitespace,
}
use oxiproxy.Domain.Names.{IsName, normalize_domain_iff}
use oxiproxy.Domain.Routes.{IsRoute, find_route_iff}
use oxiproxy.Samples.{no_ipv6}

mixed_case : normalize_domain no_ipv6 (codes " Example.COM. ") ≡ ok (codes "example.com")
unfolding normalize_domain trim split is_ipv4 bad_label
mixed_case = refl

four_octets : normalize_domain no_ipv6 (codes "127.0.0.1") ≡ err invalid_domain
unfolding normalize_domain trim split is_ipv4 bad_label
four_octets = refl

name_example : (normalize_domain no_ipv6 (codes " Example.COM. ") ≡ ok (codes "example.com")) ↔ (
    (canonical (codes " Example.COM. ") ≡ codes "example.com")
    × IsName (codes "example.com")
    × (no_ipv6 (codes "example.com") ≡ false))
name_example = normalize_domain_iff no_ipv6 (codes " Example.COM. ") (codes "example.com")

wildcard_accepted : normalize_pattern no_ipv6 (codes "*.Example.com") ≡ ok (codes "*.example.com")
unfolding normalize_pattern normalize_domain trim split is_ipv4 bad_label starts_with_whitespace
wildcard_accepted = refl

route_accepted : validate_route no_ipv6 "https" (codes "A.com") ≡ ok (codes "a.com")
unfolding validate_route normalize_pattern normalize_domain trim split is_ipv4 bad_label
route_accepted = refl

abbrev udp : String
udp = "udp"

abbrev http : String
http = "http"

-- A wildcard, a longer wildcard, and an exact name.
abbrev table : List (Text × ℕ)
table = (codes "*.com", 1) ∷ (codes "*.a.com", 2) ∷ (codes "b.com", 3) ∷ []

longest_first : find_route table (codes "x.a.com") ≡ some 2
unfolding find_route find_suffix
longest_first = refl

lookup_example : (find_route table (codes "x.a.com") ≡ some 2) ↔ IsRoute table (codes "x.a.com") 2
lookup_example = find_route_iff table (codes "x.a.com") 2
