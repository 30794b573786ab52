-- ===== src/Limits/Tests.antt =====
-- The admission checks on a small database: the witnesses of the theorems.
use oxiproxy.Prelude.{◌≡◌, refl, ok, trim, split}
use oxiproxy.Store.Queries.{query}
use oxiproxy.Ports.{parse_port_ranges, is_port_in_ranges}
use oxiproxy.Limits.{
  allowed, validate_user_port_limit, validate_node_proxy_limit_excluding, check_user, check_node,
  check_node_count, range_verdict, check_user_count, get_user_port_count,
}
use oxiproxy.Limits.Users.{UserAllows, validate_user_port_limit_sound}
use oxiproxy.Samples.{small_db}

alice_admitted : (validate_user_port_limit 1 8080 small_db).0 ≡ ok allowed
unfolding validate_user_port_limit query check_user check_user_count get_user_port_count
    range_verdict parse_port_ranges is_port_in_ranges trim split
alice_admitted = refl

alice_allowed : UserAllows small_db 1 8080
alice_allowed = validate_user_port_limit_sound small_db 1 8080 alice_admitted

tokyo_admitted : (validate_node_proxy_limit_excluding 3 443 0 small_db).0 ≡ ok allowed
unfolding validate_node_proxy_limit_excluding query check_node check_node_count
tokyo_admitted = refl
