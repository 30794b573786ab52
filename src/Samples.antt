-- ===== src/Samples.antt =====
-- Values for the tests: times, a `Float`, rows and databases.
use oxiproxy.Prelude.{
  ℕ, ◌+◌, ◌-◌, ◌*◌, ◌/◌, Bool, true, false, none, some, List, [], ◌∷◌, Text, codes, ltb,
  if◌then◌else◌,
}
use oxiproxy.Prelude.Int.{pos, pos_part}
use oxiproxy.Prelude.Time.{DateTime}
use oxiproxy.Prelude.Float.{Float}
use oxiproxy.Upstream.{UrlLibrary}
use oxiproxy.Store.{User, Client, Node, UserSubscription, Db}

abbrev pub no_ipv6 : Text → Bool
no_ipv6 s = false

-- A URL library that knows no URL.
abbrev pub no_urls : UrlLibrary
no_urls = record {
  Url = Unit;
  parse = λ s. none;
  scheme = λ u. [];
  host_str = λ u. none;
  port_or_known_default = λ u. none;
  username = λ u. [];
  password = λ u. none;
  path = λ u. [];
  query = λ u. none;
  fragment = λ u. none;
  to_text = λ u. [];
}

abbrev pub day_at : ℕ → ℕ → DateTime
day_at day time = record { year = 2025; month = 3; day = day; time = time }

-- Whole numbers of gigabytes, with a gigabyte of one byte.
abbrev pub whole : Float
whole = record {
  F = ℕ;
  zero = 0;
  kilo = 1;
  add = λ a b. a + b;
  sub = λ a b. a - b;
  mul = λ a b. a * b;
  div = λ a b. a / b;
  max = λ a b. if ltb a b then b else a;
  lt = ltb;
  to_i64 = pos;
  of_i64 = pos_part;
}

-- A user with quota 10, at most two ports and the ports from 8000 to 9000, reset on the first.
abbrev pub alice : User ℕ
alice = record {
  id = 1;
  username = "alice";
  password_hash = "";
  is_admin = false;
  total_bytes_sent = pos 7;
  total_bytes_received = pos 5;
  traffic_reset_cycle = "daily";
  last_reset_at = some (day_at 1 0);
  is_traffic_exceeded = false;
  traffic_quota_gb = some 10;
  max_port_count = some (pos 2);
  allowed_port_range = some (codes "8000-9000");
  max_node_count = none;
  max_client_count = none;
  created_at = day_at 1 0;
  updated_at = day_at 1 0;
}

-- A node that takes one proxy on any port.
abbrev pub tokyo : Node ℕ
tokyo = record {
  id = 3;
  name = "tokyo";
  url = "";
  secret = "";
  is_online = false;
  region = none;
  public_ip = none;
  description = none;
  tunnel_addr = "";
  tunnel_port = pos 7000;
  tunnel_protocol = "quic";
  kcp_config = none;
  node_type = "shared";
  max_proxy_count = some (pos 1);
  allowed_port_range = none;
  traffic_quota_gb = none;
  traffic_reset_cycle = "none";
  total_bytes_sent = pos 0;
  total_bytes_received = pos 0;
  last_reset_at = none;
  is_traffic_exceeded = false;
  speed_limit = none;
  version = none;
  last_online_at = none;
  created_at = day_at 1 0;
  updated_at = day_at 1 0;
}

abbrev pub laptop : Client ℕ
laptop = record {
  id = 5;
  name = "laptop";
  token = "";
  is_online = false;
  public_ip = none;
  region = none;
  total_bytes_sent = pos 1;
  total_bytes_received = pos 1;
  traffic_reset_cycle = "none";
  last_reset_at = some (day_at 1 0);
  is_traffic_exceeded = false;
  traffic_quota_gb = some 4;
  user_id = some 1;
  version = none;
  last_online_at = none;
  created_at = day_at 1 0;
  updated_at = day_at 1 0;
}

abbrev pub month_plan : UserSubscription ℕ
month_plan = record {
  id = 8;
  user_id = 1;
  subscription_id = 4;
  start_date = day_at 1 0;
  end_date = day_at 2 0;
  traffic_quota_gb = 3;
  traffic_used_gb = 0;
  is_active = true;
  max_port_count_snapshot = some (pos 1);
  max_node_count_snapshot = none;
  max_client_count_snapshot = none;
  quota_merged = true;
  created_at = day_at 1 0;
  updated_at = day_at 1 0;
}

-- Queries fail as `faults` says.
abbrev pub db_with : List Bool → Db ℕ
db_with faults = record {
  users = alice ∷ [];
  clients = laptop ∷ [];
  nodes = tokyo ∷ [];
  proxies = [];
  subscriptions = [];
  user_subscriptions = month_plan ∷ [];
  traffic_daily = [];
  user_nodes = [];
  user_clients = [];
  faults = faults;
}

abbrev pub small_db : Db ℕ
small_db = db_with []
