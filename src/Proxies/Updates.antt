-- ===== src/Proxies/Updates.antt =====
-- `update_proxy` and `delete_proxy`. The reply of an update is the row as it is written.
use oxiproxy.Prelude.{
  ℕ, Bool, true, false, not, ◌&&◌, ◌||◌, Option, none, some, [], String, str_eq, codes, Text,
  text_eq, ◌==◌, if◌then◌else◌, is_empty, Result, ok, err,
}
use oxiproxy.Prelude.Time.{DateTime}
use oxiproxy.Domain.{validate_route}
use oxiproxy.Upstream.{UrlLibrary, parse_upstream}
use oxiproxy.Ports.{parse_port_ranges, is_port_in_ranges}
use oxiproxy.Store.{Proxy}
use oxiproxy.Store.Rows.{find, update_row}
use oxiproxy.Store.Queries.{M, query, write}
use oxiproxy.Limits.{get_user_port_limit_info, validate_node_proxy_limit_excluding}
use oxiproxy.Handlers.{
  AuthUser, started, stopped, Act, ◌>>=◌, ◌>>◌, return, reject, require, or_reject, from_result,
  from_db, tried, control, notify, or_empty, is_some, verify_proxy_ownership,
}
use oxiproxy.Proxies.{is_web_kind, or_bad_request, as_text, judged, check_route, remove_proxy}

pub record UpdateProxyRequest : Type 0 where
  pub name : Option Text
  pub proxy_type : Option String
  pub domain : Option Text
  pub upstream_url : Option Text
  pub local_ip : Option String
  pub local_port : Option ℕ
  pub remote_port : Option ℕ
  pub enabled : Option Bool

abbrev pub or_old : {A : Type 0} → Option A → A → A
or_old none a = a
or_old (some b) a = b

-- The upstream after the update: a tunnel keeps none, and a direct proxy needs a valid one.
abbrev pub upstream_after : UrlLibrary → Proxy → String → Text → Result ℕ Text
upstream_after lib p kind raw =
    if is_some p.client_id
    then (if is_empty raw then ok [] else err 400)
    else as_text lib.to_text (parse_upstream lib (codes kind) raw)

-- The columns that the request sets.
abbrev pub changed : UpdateProxyRequest → Text → Text → DateTime → Proxy → Proxy
changed req domain upstream_url now p = record p {
  upstream_url = upstream_url;
  domain = domain;
  name = or_old req.name p.name;
  proxy_type = or_old req.proxy_type p.proxy_type;
  local_ip = or_old req.local_ip p.local_ip;
  local_port = or_old req.local_port p.local_port;
  remote_port = or_old req.remote_port p.remote_port;
  enabled = or_old req.enabled p.enabled;
  updated_at = now;
}

-- The configuration columns of the original, and no others.
abbrev pub reverted : Proxy → DateTime → Proxy → Proxy
reverted original now p = record p {
  name = original.name;
  proxy_type = original.proxy_type;
  domain = original.domain;
  upstream_url = original.upstream_url;
  local_ip = original.local_ip;
  local_port = original.local_port;
  remote_port = original.remote_port;
  enabled = original.enabled;
  updated_at = now;
}

-- Does the listener have to be told: the name alone does not count.
abbrev pub config_changed : Proxy → Proxy → Bool
config_changed old new =
    not (text_eq new.domain old.domain)
    || not (text_eq new.upstream_url old.upstream_url)
    || not (str_eq new.proxy_type old.proxy_type)
    || not (str_eq new.local_ip old.local_ip)
    || not (new.local_port == old.local_port)
    || not (new.remote_port == old.remote_port)

abbrev pub same_flag : Bool → Bool → Bool
same_flag true b = b
same_flag false b = not b

abbrev in_user_range : ℕ → Option Text → Bool
in_user_range port none = true
in_user_range port (some text) =
    is_empty text
    || elim (parse_port_ranges text) [ ok ranges ↦ is_port_in_ranges port ranges | err e ↦ false ]

abbrev node_or_zero : Option ℕ → ℕ
node_or_zero none = 0
node_or_zero (some n) = n

module _ {F : Type 0} where
  -- The limits of a direct proxy's user and node.
  abbrev pub check_moved : AuthUser → ℕ → Act F (Unit {0})
  check_moved u new_port = do
    info ← from_db (get_user_port_limit_info u.id)
    require (in_user_range new_port info.1) 403

  abbrev pub check_node_for : ℕ → ℕ → ℕ → Act F (Unit {0})
  check_node_for node_id port id = do
    verdict ← from_db (validate_node_proxy_limit_excluding node_id port id)
    judged verdict

  unfoldable pub check_direct : AuthUser → Proxy → UpdateProxyRequest → ℕ → Act F (Unit {0})
  check_direct u p req new_port = do
    if not u.is_admin && not (new_port == p.remote_port) then check_moved u new_port else return tt
    if not p.enabled && or_old req.enabled false
        then check_node_for (node_or_zero p.node_id) new_port p.id
        else return tt

  -- A tunnel or direct proxy that moves to another port of its node.
  abbrev pub check_port_of : Proxy → ℕ → Option ℕ → Act F (Unit {0})
  check_port_of p port none = return tt
  check_port_of p port (some node_id) =
      if port == p.remote_port then return tt else check_node_for node_id port p.id

  abbrev pub write_proxy : ℕ → (Proxy → Proxy) → M F (Unit {0})
  write_proxy id f =
      write (λ db. record db { proxies = update_row (λ (p : Proxy). p.id) id f db.proxies })

  abbrev pub restore_listener : Proxy → Bool → Act F Bool
  restore_listener original written =
      if written && original.enabled
      then control (started (or_empty original.client_id) original.id)
      else return false

  -- A refused start writes the old configuration back and starts the old listener again.
  unfoldable pub after_restart : Proxy → DateTime → Bool → Act F (Unit {0})
  after_restart original now true = return tt
  after_restart original now false = do
    written ← tried (write_proxy original.id (reverted original now))
    _ ← restore_listener original written
    reject 409

  abbrev pub start_again : Proxy → DateTime → Act F (Unit {0})
  start_again original now = do
    running ← control (started (or_empty original.client_id) original.id)
    after_restart original now running

  -- The listener after the row is written.
  unfoldable pub restart_listener : Proxy → Proxy → DateTime → Act F (Unit {0})
  unfolding after_restart
  restart_listener original new now =
      if not (same_flag new.enabled original.enabled)
        || (config_changed original new && new.enabled)
      then (do
        _ ← control (stopped (or_empty original.client_id) original.id)
        if new.enabled then start_again original now else return tt)
      else return tt

  abbrev pub notify_changed : Proxy → Proxy → Act F (Unit {0})
  notify_changed original new =
      if not (same_flag new.enabled original.enabled) || config_changed original new
      then notify (or_empty original.client_id)
      else return tt

  unfoldable pub apply_update : Proxy → Proxy → (Proxy → Proxy) → DateTime → Act F Proxy
  unfolding restart_listener
  apply_update original new f now = do
    _ ← from_db (write_proxy original.id f)
    restart_listener original new now
    notify_changed original new
    return new

  abbrev pub read_proxy : ℕ → Act F Proxy
  read_proxy id = do
    p ← from_db (query (λ db. find (λ (p : Proxy). p.id) id db.proxies))
    or_reject p 404

  unfoldable pub delete_proxy : Option AuthUser → ℕ → Act F (Unit {0})
  delete_proxy none id = reject 401
  delete_proxy (some u) id = do
    p ← read_proxy id
    verify_proxy_ownership u p
    _ ← control (stopped (or_empty p.client_id) id)
    from_db (remove_proxy id)
    notify (or_empty p.client_id)

module _ (is_ipv6 : Text → Bool) (lib : UrlLibrary) {F : Type 0} where
  -- The checks on a proxy that is there, up to its new domain and upstream.
  unfoldable pub admit_update : AuthUser → Proxy → UpdateProxyRequest → Act F (Text × Text)
  unfolding check_direct
  admit_update u p req = do
    verify_proxy_ownership u p
    let kind = or_old req.proxy_type p.proxy_type
    let new_port = or_old req.remote_port p.remote_port
    domain ← from_result (or_bad_request (validate_route is_ipv6 kind (or_old req.domain p.domain)))
    require (not (is_some p.group_id && is_web_kind kind)) 400
    upstream_url ← from_result (upstream_after lib p kind (or_old req.upstream_url p.upstream_url))
    require
        (not (new_port == 0 || (is_some p.client_id && or_old req.local_port p.local_port == 0)))
        400
    if is_some p.client_id then return tt else check_direct u p req new_port
    if or_old req.enabled p.enabled
        then check_route p.node_id new_port kind domain p.id
        else return tt
    check_port_of p new_port p.node_id
    return (domain, upstream_url)

  abbrev pub update_existing : AuthUser → UpdateProxyRequest → DateTime → Proxy → Act F Proxy
  update_existing u req now p = do
    values ← admit_update u p req
    apply_update p (changed req values.0 values.1 now p) (changed req values.0 values.1 now) now

  unfoldable pub update_proxy : Option AuthUser → ℕ → UpdateProxyRequest → DateTime → Act F Proxy
  unfolding admit_update apply_update
  update_proxy none id req now = reject 401
  update_proxy (some u) id req now = do p ← read_proxy id; update_existing u req now p
