-- ===== src/Proxies/Groups.antt =====
-- `toggle_proxy_group`, `delete_proxy_group` and `update_proxy_group`: the rows of a group one after the
-- other. An error on a row is logged, and the next row follows.
use oxiproxy.Prelude.{
  ℕ, Bool, true, false, not, ◌||◌, Option, none, some, List, ◌∷◌, String, str_eq, Text, ltb, ◌==◌,
  if◌then◌else◌, any, length,
}
use oxiproxy.Prelude.Time.{DateTime}
use oxiproxy.Store.{Proxy}
use oxiproxy.Handlers.{
  AuthUser, started, stopped, Act, ◌>>=◌, ◌>>◌, return, reject, require, tried, control, notify,
  or_empty, is_some, verify_proxy_group_ownership,
}
use oxiproxy.Proxies.Updates.{or_old, same_flag, write_proxy}
use oxiproxy.Proxies.Batch.{for_each, take_back, with_port, is_group_kind}

pub record UpdateGroupRequest : Type 0 where
  pub name : Option Text
  pub proxy_type : Option String
  pub local_ip : Option String
  pub local_port : Option ℕ

abbrev pub kind_fits : Option String → Bool
kind_fits none = true
kind_fits (some kind) = is_group_kind kind

abbrev pub new_name : Option Text → Bool → Proxy → Text
new_name none several p = p.name
new_name (some name) several p = if several then with_port name p.remote_port else name

-- The columns that the request sets, for a row of a group of several or of one.
abbrev pub group_changed : UpdateGroupRequest → Bool → DateTime → Proxy → Proxy
group_changed req several now p = record p {
  name = new_name req.name several p;
  proxy_type = or_old req.proxy_type p.proxy_type;
  local_ip = or_old req.local_ip p.local_ip;
  local_port = or_old req.local_port p.local_port;
  updated_at = now;
}

abbrev pub sets_any : UpdateGroupRequest → Bool
sets_any req =
    is_some req.name || is_some req.proxy_type || is_some req.local_ip || is_some req.local_port

-- Does the request change what the listener of the row serves.
abbrev pub moves : UpdateGroupRequest → Proxy → Bool
moves req p =
    not (str_eq (or_old req.proxy_type p.proxy_type) p.proxy_type)
    || not (str_eq (or_old req.local_ip p.local_ip) p.local_ip)
    || not (or_old req.local_port p.local_port == p.local_port)

abbrev pub toggled : Bool → DateTime → Proxy → Proxy
toggled wanted now p = record p { enabled = wanted; updated_at = now }

module _ {F : Type 0} where
  abbrev switch_listener : Text → Bool → ℕ → Bool → Act F Bool
  switch_listener client_id true id true = control (started client_id id)
  switch_listener client_id false id true = control (stopped client_id id)
  switch_listener client_id wanted id false = return false

  unfoldable pub toggle_one : Text → Bool → DateTime → Proxy → Act F (Unit {0})
  toggle_one client_id wanted now p = if same_flag p.enabled wanted then return tt else (do
    written ← tried (write_proxy p.id (toggled wanted now))
    _ ← switch_listener client_id wanted p.id written
    return tt)

  abbrev pub toggle_for : AuthUser → String → Bool → DateTime → Act F (Unit {0})
  toggle_for u group wanted now = do
    proxies ← verify_proxy_group_ownership u group
    let client_id = or_empty proxies.0.client_id
    for_each (toggle_one client_id wanted now) (proxies.0 ∷ proxies.1)
    notify client_id

  unfoldable pub toggle_proxy_group : Option AuthUser → String → Bool → DateTime → Act F (Unit {0})
  unfolding toggle_one for_each
  toggle_proxy_group none group wanted now = reject 401
  toggle_proxy_group (some u) group wanted now = toggle_for u group wanted now

  abbrev pub delete_group_for : AuthUser → String → Act F (Unit {0})
  delete_group_for u group = do
    proxies ← verify_proxy_group_ownership u group
    let client_id = or_empty proxies.0.client_id
    take_back client_id (proxies.0 ∷ proxies.1)
    notify client_id

  unfoldable pub delete_proxy_group : Option AuthUser → String → Act F (Unit {0})
  unfolding take_back
  delete_proxy_group none group = reject 401
  delete_proxy_group (some u) group = delete_group_for u group

  abbrev pub update_one : UpdateGroupRequest → Bool → DateTime → Proxy → Act F (Unit {0})
  update_one req several now p =
      if sets_any req
      then (do _ ← tried (write_proxy p.id (group_changed req several now)); return tt)
      else return tt

  abbrev pub restart_one : Text → Proxy → Act F (Unit {0})
  restart_one client_id p =
      if p.enabled
      then (do
        _ ← control (stopped client_id p.id)
        _ ← control (started client_id p.id)
        return tt)
      else return tt

  abbrev restart_group : Text → List Proxy → Act F (Unit {0})
  restart_group client_id ps = do for_each (restart_one client_id) ps; notify client_id

  abbrev pub update_group_for : AuthUser → String → UpdateGroupRequest → DateTime → Act F (Unit {0})
  update_group_for u group req now = do
    require (kind_fits req.proxy_type) 400
    proxies ← verify_proxy_group_ownership u group
    let ps = proxies.0 ∷ proxies.1
    for_each (update_one req (ltb 1 (length ps)) now) ps
    if any (moves req) ps then restart_group (or_empty proxies.0.client_id) ps else return tt

  unfoldable pub update_proxy_group :
      Option AuthUser → String → UpdateGroupRequest → DateTime → Act F (Unit {0})
  unfolding for_each
  update_proxy_group none group req now = reject 401
  update_proxy_group (some u) group req now = update_group_for u group req now
