-- ===== src/Proxies/Tests.antt =====
-- A user with one client and one node: the witnesses.
use oxiproxy.Prelude.{
  ℕ, suc, ◌≤◌, ◌<◌, ◌≡◌, refl, ◌⊎◌, Bool, true, false, none, some, List, [], ◌∷◌, arith, codes, ltb,
  ◌==◌, if◌then◌else◌, All, Result, ok, trim,
}
use oxiproxy.Prelude.Int.{pos}
use oxiproxy.Store.{Proxy, Db}
use oxiproxy.Handlers.{
  AuthUser, started, World, ◌>>=◌, ◌>>◌, return, require, or_reject, from_result, from_db, control,
  notify, parse_i64,
}
use oxiproxy.Store.Queries.{query, write}
use oxiproxy.Limits.{validate_user_port_limit, validate_node_proxy_limit}
use oxiproxy.Domain.{validate_route, normalize_pattern, normalize_domain, is_ipv4, bad_label}
use oxiproxy.Handlers.Reading.{settled}
use oxiproxy.Proxies.{CreateProxyRequest, give_key, create_proxy}
use oxiproxy.Proxies.Updates.{UpdateProxyRequest, update_proxy, delete_proxy}
use oxiproxy.Proxies.Batch.{BatchCreateProxyRequest, batch_create_proxies}
use oxiproxy.Proxies.Separate.{Separate}
use oxiproxy.Proxies.Routing.{NewKeys}
use oxiproxy.Proxies.Changing.{update_proxy-Separate}
use oxiproxy.Proxies.Admission.{MayCreate, create_proxy_admits}
use oxiproxy.Proxies.Ownership.{OwnProxy, delete_proxy_guarded, update_proxy_guarded}
use oxiproxy.Proxies.Reachable.{here, later, creates, deletes, reachable-Separate}
use oxiproxy.Proxies.Strangers.{batch_create_blind}
use oxiproxy.Proxies.Rollback.{AllOrNothing}
use oxiproxy.Proxies.Atomicity.{OneOrNothing, create_proxy_atomic, batch_create_atomic}
use oxiproxy.Proxies.Groups.{toggle_proxy_group, delete_proxy_group}
use oxiproxy.Proxies.GroupOwnership.{OwnGroup, groups_guarded}
use oxiproxy.Samples.{no_ipv6, no_urls, alice, db_with, day_at}

-- One more than the largest key.
abbrev largest : List Proxy → ℕ
largest [] = 0
largest (p ∷ ps) = if ltb (largest ps) p.id then p.id else largest ps

abbrev one_more : List Proxy → ℕ
one_more ps = suc (largest ps)

abbrev Below : ℕ → Proxy → Type 0
Below n p = p.id < n

weaker : (m n : ℕ) (ps : List Proxy) → m ≤ n → All (Below m) ps → All (Below n) ps
weaker m n [] le h = tt
weaker m n (p ∷ ps) le (h, hs) = (omega arith, weaker m n ps le hs)

All-Below : (ps : List Proxy) → All (Below (one_more ps)) ps
All-Below [] = tt
All-Below (p ∷ ps) =
    (ground arith, weaker (one_more ps) (one_more (p ∷ ps)) ps (ground arith) (All-Below ps))

differ : (n : ℕ) (ps : List Proxy) → All (Below n) ps → All (λ p. (p.id == n) ≡ false) ps
differ n [] h = tt
differ n (p ∷ ps) (h, hs) = (ground arith, differ n ps hs)

one_more_new : NewKeys one_more
one_more_new = record {
  positive = λ ps. omega arith;
  fresh = λ ps. differ (one_more ps) ps (All-Below ps);
}

abbrev alice_user : AuthUser
alice_user = record { id = 1; username = "alice"; is_admin = false }

abbrev bob_user : AuthUser
bob_user = record { id = 2; username = "bob"; is_admin = false }

abbrev site : CreateProxyRequest
site = record {
  client_id = some (codes "5");
  upstream_url = [];
  name = codes "site";
  proxy_type = "http";
  domain = codes "A.com";
  local_ip = "127.0.0.1";
  local_port = 3000;
  remote_port = 8080;
  node_id = some 3;
}

abbrev site_row : Proxy
site_row = record {
  id = 1;
  client_id = some (codes "5");
  user_id = none;
  upstream_url = [];
  name = codes "site";
  proxy_type = "http";
  domain = codes "a.com";
  local_ip = "127.0.0.1";
  local_port = 3000;
  remote_port = 8080;
  enabled = true;
  node_id = some 3;
  group_id = none;
  total_bytes_sent = pos 0;
  total_bytes_received = pos 0;
  created_at = day_at 2 0;
  updated_at = day_at 2 0;
}

abbrev world_of : Db ℕ → List Bool → World ℕ
world_of db refusals = record { db = db; calls = []; refusals = refusals; notified = [] }

-- Alice without limits.
abbrev free_db : List Bool → Db ℕ
free_db faults = record (db_with faults) {
  users = record alice { allowed_port_range = none; max_port_count = none } ∷ [];
}

abbrev at_first : World ℕ
at_first = world_of (free_db []) []

-- The table with the site in it.
abbrev running : World ℕ
running = world_of (record (free_db []) { proxies = site_row ∷ [] }) []

abbrev created : Result ℕ Proxy × World ℕ
created = (
  ok site_row,
  record {
    db = record (free_db []) { proxies = site_row ∷ [] };
    calls = started (codes "5") 1 ∷ [];
    refusals = [];
    notified = codes "5" ∷ [];
  },
)

created_runs :
    create_proxy no_ipv6 no_urls one_more (some alice_user) site (day_at 2 0) at_first ≡ created
unfolding create_proxy ◌>>=◌ ◌>>◌ return require or_reject from_result from_db control notify
    parse_i64 query write validate_user_port_limit validate_node_proxy_limit validate_route
    normalize_pattern trim normalize_domain is_ipv4 bad_label give_key
created_runs = refl

create_proxy_admits_example : MayCreate at_first.db alice_user site
create_proxy_admits_example =
    create_proxy_admits no_ipv6 no_urls one_more alice_user site (day_at 2 0) at_first created.1
      site_row created_runs refl

one_row : Separate (site_row ∷ [])
one_row = (omega arith, tt, tt)

abbrev move : UpdateProxyRequest
move = record {
  name = none;
  proxy_type = some "tcp";
  domain = some [];
  upstream_url = none;
  local_ip = none;
  local_port = none;
  remote_port = some 8081;
  enabled = none;
}

-- A table whose next listener is refused.
abbrev shaky : World ℕ
shaky = world_of (record (free_db []) { proxies = site_row ∷ [] }) (false ∷ true ∷ [])

update_proxy-Separate_example :
    Separate (update_proxy no_ipv6 no_urls (some alice_user) 1 move (day_at 2 9) shaky).1.db.proxies
update_proxy-Separate_example =
    update_proxy-Separate no_ipv6 no_urls (some alice_user) 1 move (day_at 2 9) shaky one_row

abbrev twice : World ℕ
twice = (create_proxy no_ipv6 no_urls one_more (some alice_user) site (day_at 2 0) at_first).1

abbrev after_all : World ℕ
after_all = (delete_proxy (some alice_user) 1 twice).1

reachable-Separate_example : Separate after_all.db.proxies
reachable-Separate_example =
    reachable-Separate no_ipv6 no_urls one_more one_more_new at_first after_all
      (later (later here (creates (some alice_user) site (day_at 2 0)))
        (deletes (some alice_user) 1))
      tt

-- The listener is refused.
abbrev refused : World ℕ
refused = world_of (free_db []) (true ∷ [])

abbrev after_refusal : Result ℕ Proxy × World ℕ
after_refusal = create_proxy no_ipv6 no_urls one_more (some alice_user) site (day_at 2 0) refused

create_proxy_atomic_example : OneOrNothing [] after_refusal.0 after_refusal.1.db.proxies
create_proxy_atomic_example =
    create_proxy_atomic no_ipv6 no_urls one_more one_more_new (some alice_user) site (day_at 2 0)
      refused refl

abbrev three_ports : BatchCreateProxyRequest
three_ports = record {
  client_id = codes "5";
  name = codes "game";
  proxy_type = "udp";
  local_ip = "127.0.0.1";
  local_ports = 3000 ∷ [];
  remote_ports = 8100 ∷ 8101 ∷ 8102 ∷ [];
  node_id = none;
}

-- The third listener is refused.
abbrev third_refused : World ℕ
third_refused = world_of (free_db []) (false ∷ false ∷ true ∷ [])

abbrev after_batch : Result ℕ (List Proxy) × World ℕ
after_batch =
    batch_create_proxies one_more "group" (some alice_user) three_ports (day_at 2 0) third_refused

batch_create_atomic_example : AllOrNothing [] after_batch.0 after_batch.1.db.proxies
batch_create_atomic_example =
    batch_create_atomic one_more one_more_new "group" (some alice_user) three_ports (day_at 2 0)
      third_refused refl

delete_proxy_guarded_example :
    (settled (delete_proxy (some bob_user) 1 running).1 ≡ settled running)
    ⊎ OwnProxy bob_user 1 (settled running).db
delete_proxy_guarded_example = delete_proxy_guarded bob_user 1 running refl

update_proxy_guarded_example :
    (settled (update_proxy no_ipv6 no_urls (some bob_user) 1 move (day_at 2 0) running).1
      ≡ settled running)
    ⊎ OwnProxy bob_user 1 (settled running).db
update_proxy_guarded_example =
    update_proxy_guarded no_ipv6 no_urls bob_user 1 move (day_at 2 0) running refl

batch_create_blind_example :
    batch_create_proxies one_more "group" (some alice_user) three_ports (day_at 2 0) at_first
    ≡ batch_create_proxies one_more "group" (some bob_user) three_ports (day_at 2 0) at_first
batch_create_blind_example =
    batch_create_blind one_more alice_user bob_user three_ports refl refl refl "group" (day_at 2 0)
      at_first

abbrev grouped : World ℕ
grouped =
    world_of
      (record (free_db []) {
        proxies = record site_row { proxy_type = "tcp"; group_id = some "group" } ∷ [];
      })
      []

groups_guarded_example :
    ((settled (toggle_proxy_group (some bob_user) "group" false (day_at 2 0) grouped).1
        ≡ settled grouped)
      ⊎ OwnGroup bob_user "group" (settled grouped).db)
    × ((settled (delete_proxy_group (some bob_user) "group" grouped).1 ≡ settled grouped)
        ⊎ OwnGroup bob_user "group" (settled grouped).db)
groups_guarded_example = groups_guarded bob_user "group" false (day_at 2 0) grouped refl
