-- ===== src/Listeners/Tests.antt =====
-- A listener that is started, shared and stopped: the witnesses of the theorems.
use oxiproxy.Prelude.{
  ◌≡◌, refl, ℕ, Bool, true, not, none, some, [], ◌∷◌, Text, codes, ok, trim, split, text_eq,
}
use oxiproxy.Prelude.Maps.{kept}
use oxiproxy.Domain.{normalize_pattern, normalize_domain, is_ipv4, bad_label}
use oxiproxy.Listeners.{ProxyConfig, Route, Listeners, start, stop, stopped_by, may_take}
use oxiproxy.Listeners.Wellformed.{IsValid, start-IsValid}
use oxiproxy.Listeners.Lookup.{route_at, shows, start_lookup, stop_lookup}
use oxiproxy.Samples.{no_ipv6, no_urls}

abbrev site : ProxyConfig
site = record {
  proxy_id = 4;
  client_id = codes "5";
  name = "site";
  proxy_type = codes "http";
  domain = codes " A.com.";
  upstream_url = [];
  user_id = none;
  local_ip = "127.0.0.1";
  local_port = 3000;
  remote_port = 80;
  enabled = true;
}

abbrev stored : ProxyConfig
stored = record site { domain = codes "a.com" }

abbrev served : Listeners Unit Unit
served =
    (
      80,
      record {
        kind = codes "http";
        routes = (codes "a.com", record { config = stored; upstream = none; handles = tt }) ∷ [];
      },
    )
    ∷ []

abbrev every_port : ℕ → Bool
every_port p = true

started : start no_ipv6 no_urls every_port site tt [] ≡ ok served
unfolding start normalize_pattern normalize_domain trim split is_ipv4 bad_label
started = refl

nothing_served : IsValid {Url = Unit} {H = Unit} []
nothing_served = record { distinct = tt; serving = λ port l e. absurd (cc) }

start-IsValid_example : IsValid served
start-IsValid_example =
    start-IsValid no_ipv6 no_urls every_port site tt [] served nothing_served started

start_example :
    (r : Route Unit Unit) × (normalize_pattern no_ipv6 (codes " A.com.") ≡ ok r.config.domain)
    × (r.config ≡ record site { domain = r.config.domain })
    × (may_take r (route_at {Url = Unit} {H = Unit} [] 80 r.config.domain) ≡ true)
    × ((port : ℕ) (d : Text) → route_at served port d ≡ shows r [] port d)
start_example = start_lookup no_ipv6 no_urls every_port site tt [] served started

stop_example :
    route_at (stop (codes "5") (some 4) served) 80 (codes "a.com")
    ≡ kept text_eq
        (λ r. not (stopped_by (codes "5") (some 4) r))
        (route_at served 80 (codes "a.com"))
stop_example = stop_lookup (codes "5") (some 4) served 80 (codes "a.com") start-IsValid_example
