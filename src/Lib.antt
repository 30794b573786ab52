-- ===== src/Lib.antt =====
-- OxiProxy: a controller with a database, nodes that listen for the public's connections, and
-- clients that tunnel them to local services. This library models the parts that decide: which
-- ports and domains a proxy may have, which listener serves it, who is online, and how quotas
-- and traffic are counted. Paths are those of the repository.
--
-- Prelude: shared names and data. Texts are lists of code points; signed machine integers are the
--   integers of Prelude.Int with their wrap-around written out; hash maps are lists of entries
--   (Prelude.Maps); `f64` is the interface Prelude.Float, and theorems hold for any such type.
-- Samples: values for the tests.
-- Domain: common/src/domain.rs, function by function. The IPv6 half of the standard library's
--   address parser is the parameter `is_ipv6`; the IPv4 half is `is_ipv4`.
-- Ports: the parser and the test of port ranges in controller/src/port_limiter.rs.
-- Store: the rows of controller/src/entity/*.rs as records, the tables as lists, and the monad of
--   database code. A list of faults says which queries fail, so that a statement over every
--   database covers every failure; a failed query changes nothing, and what was written before it
--   stays written.
-- Limits: the admission checks of controller/src/port_limiter.rs and controller/src/node_limiter.rs.
-- Quota: controller/src/subscription_quota.rs. Subscriptions: the handlers that create, change and
--   delete a subscription in controller/src/api/handlers/user_subscription.rs, which call Quota.
-- Handlers: what the REST handlers share, controller/src/api/handlers/mod.rs: a handler is a function
--   of the world (the database, the recorded calls of the proxy control, which of the coming ones
--   are refused, the clients to notify) that answers with a value or a status. Its children prove
--   how steps compose: Reading (steps that only read), Yielding (what holds after a success),
--   Keeping (how the proxies change under any failure), Ending (how they change under none), Leaving
--   (what holds of all tables however the handler ends).
-- Proxies: controller/src/api/handlers/proxy.rs, create_proxy in the file itself, Updates
--   (update_proxy, delete_proxy), Batch (batch_create_proxies, add_ports_to_proxy_group), Groups
--   (toggle_proxy_group, update_proxy_group, delete_proxy_group). It uses Limits, Domain, Upstream
--   and Handlers. The key of a new row is `next_key` of the table, of which theorems ask that it
--   is positive and new; the UUID of a group is a parameter.
-- Pending: common/src/grpc/pending_requests.rs, with times in milliseconds.
-- Sessions: the streams and the online status in controller/src/client_stream_manager.rs and
--   controller/src/node_manager.rs, generic in the table; an operation that holds the lock of the
--   streams is one step.
-- Upstream: common/src/upstream.rs, over a URL library that is a parameter.
-- Listeners: node/src/server/domain_proxy.rs, the map of shared listeners under start and stop,
--   with whether a port can be bound as a parameter. It uses Domain and Upstream.
-- Running: the listeners of node/src/server/proxy_server.rs (ProxyListenerManager) and the commands of
--   node/src/server/local_proxy_control.rs, which use Listeners for the proxies with domains. Whether
--   a socket can be bound, which may depend on the manager's state, and what the authentication
--   provider answers are parameters, and commands are taken one after another; what a spawned task
--   does, its own binding of the socket too, is not modelled but for whether it has returned. View
--   says which proxies run, Tasks which tasks a start adds, Commands how the proxies change abstractly.
--   Connections has the opening and the clean-up of a client's session, whose halves may interleave.
-- Tunnel: node/src/server/tunnel_manager.rs, with the spawned listeners as a list of tasks.
-- Backoff: ReconnectBackoff of common/src/utils.rs; the drawn jitter is a parameter.
-- Users: controller/src/api/handlers/user.rs: creation, update and deletion in the file itself, Nodes
--   (a user's nodes), Allowance (the quota). It uses Handlers, Ports, Limits, Traffic and Sessions; a
--   deletion takes the rows that the schema's foreign keys cascade to. The hash of a password and a
--   generated password are parameters.
-- Traffic: controller/src/traffic_limiter.rs. Metering: the buffer and (Flush) the flush of
--   controller/src/traffic.rs, generic in the table that a charge changes (Meters: what it relies on); it uses Traffic.
-- SpeedLimiter: node/src/server/speed_limiter.rs, the token bucket with its waiting consumers as a
--   sequence of events.
--
-- All loops are structural recursion on a list. The one function on fuel prints a key in decimal,
-- with one more step than the key's value, and it has at most that many digits.
-- Not modelled: byte streams, sockets and transports, the texts of messages and logs, the dashboard,
-- certificates and tokens, migrations, and the handlers that only read. A primary key is a natural
-- number. Handlers, flushes and commands are run one at a time, apart from the sessions of
-- Running.Connections: no interleaving of two of them is modelled.
pub mod Prelude
pub mod Samples
pub mod Backoff
pub mod Domain
pub mod Ports
pub mod Store
pub mod Limits
pub mod Quota
pub mod Running
pub mod Users
pub mod Tunnel
pub mod Handlers
pub mod Subscriptions
pub mod Pending
pub mod Sessions
pub mod Upstream
pub mod Listeners
pub mod Proxies
pub mod Traffic
pub mod Metering
pub mod SpeedLimiter
