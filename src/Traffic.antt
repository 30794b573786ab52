-- ===== src/Traffic.antt =====
-- controller/src/traffic_limiter.rs: periodic resets of the traffic counters and the quota checks.
-- `now` is the time of the call. A reason is kept as the numbers that the message prints.
pub mod Resets
pub mod Quotas
mod Tests
use oxiproxy.Prelude.{
  ℕ, Bool, true, false, not, ◌&&◌, ◌||◌, Option, none, some, List, [], ◌∷◌, String, str_eq, ltb,
  ◌==◌, opt_eq, if◌then◌else◌, filter,
}
use oxiproxy.Prelude.Int.{ℤ, pos, ◌+ℤ◌, wrap_i64, ltb_ℤ}
use oxiproxy.Prelude.Maps.{option_map}
use oxiproxy.Prelude.Time.{DateTime, date_lt}
use oxiproxy.Prelude.Float.{Float}
use oxiproxy.Store.{User, Client, Node, Db}
use oxiproxy.Store.Rows.{find, update_row}
use oxiproxy.Store.Queries.{M, ◌>>=◌, return, query, write}
use oxiproxy.Limits.{get_user_final_quota}

-- Is a counter due for a reset, by its cycle and the time of its last reset.
unfoldable pub cycle_due : String → Option DateTime → DateTime → Bool
cycle_due cycle none now = true
cycle_due cycle (some last) now =
    if str_eq cycle "daily"
    then date_lt last now
    else (if str_eq cycle "monthly"
        then ltb last.year now.year || (now.year == last.year && ltb last.month now.month)
        else false)

-- What a check answers: is the quota reached, with the bytes used and the quota.
pub data Usage (F : Type 0) : Type 0 where
  within : Usage F
  exceeded : ℤ → F → Usage F

pub data Allocation (F : Type 0) : Type 0 where
  granted : Allocation F
  no_such_user : Allocation F
  insufficient : F → F → F → F → Allocation F

module _ (fl : Float) where
  open fl use {F}

  unfoldable pub gb_to_bytes : F → ℤ
  gb_to_bytes gb = fl.to_i64 (fl.mul (fl.mul (fl.mul gb fl.kilo) fl.kilo) fl.kilo)

  unfoldable pub bytes_to_gb : ℤ → F
  bytes_to_gb bytes = fl.div (fl.div (fl.div (fl.of_i64 bytes) fl.kilo) fl.kilo) fl.kilo

  pub calculate_user_remaining_quota : User F → Option F
  unfolding bytes_to_gb
  calculate_user_remaining_quota u =
      let used_gb = bytes_to_gb (wrap_i64 (u.total_bytes_sent +ℤ u.total_bytes_received)) in
      option_map (λ quota. fl.max (fl.sub quota used_gb) fl.zero) u.traffic_quota_gb

  pub calculate_client_remaining_quota : Client F → Option F
  unfolding bytes_to_gb
  calculate_client_remaining_quota c =
      let used_gb = bytes_to_gb (wrap_i64 (c.total_bytes_sent +ℤ c.total_bytes_received)) in
      option_map (λ quota. fl.max (fl.sub quota used_gb) fl.zero) c.traffic_quota_gb

  -- Are the bytes used at or above the quota.
  abbrev pub reaches : ℤ → F → Bool
  reaches used quota_gb = not (ltb_ℤ used (gb_to_bytes quota_gb))

  abbrev pub usage_of : ℤ → Option F → Usage F
  usage_of used none = within
  usage_of used (some quota_gb) = if reaches used quota_gb then exceeded used quota_gb else within

  pub should_reset_traffic : User F → DateTime → Bool
  unfolding cycle_due
  should_reset_traffic u now = cycle_due u.traffic_reset_cycle u.last_reset_at now

  unfoldable pub should_reset_client_traffic : Client F → DateTime → Bool
  unfolding cycle_due
  should_reset_client_traffic c now = cycle_due c.traffic_reset_cycle c.last_reset_at now

  pub should_reset_node_traffic : Node F → DateTime → Bool
  unfolding cycle_due
  should_reset_node_traffic n now = cycle_due n.traffic_reset_cycle n.last_reset_at now

  abbrev pub restarted : DateTime → User F → User F
  restarted now u = record u {
    total_bytes_sent = pos 0;
    total_bytes_received = pos 0;
    is_traffic_exceeded = false;
    last_reset_at = some now;
    updated_at = now;
  }

  abbrev pub restarted_client : DateTime → Client F → Client F
  restarted_client now c = record c {
    total_bytes_sent = pos 0;
    total_bytes_received = pos 0;
    is_traffic_exceeded = false;
    last_reset_at = some now;
    updated_at = now;
  }

  abbrev reset_found : ℕ → DateTime → Option (User F) → M F (Unit {0})
  reset_found user_id now none = return tt
  reset_found user_id now (some u) =
      write λ db. record db {
        users = update_row (λ (x : User F). x.id) user_id (restarted now) db.users;
      }

  pub reset_user_traffic : ℕ → DateTime → M F (Unit {0})
  reset_user_traffic user_id now = do
    user ← query (λ db. find (λ (x : User F). x.id) user_id db.users)
    reset_found user_id now user

  abbrev reset_client_found : ℕ → DateTime → Option (Client F) → M F (Unit {0})
  reset_client_found client_id now none = return tt
  reset_client_found client_id now (some c) = write λ db. record db {
    clients = update_row (λ (x : Client F). x.id) client_id (restarted_client now) db.clients;
  }

  pub reset_client_traffic : ℕ → DateTime → M F (Unit {0})
  reset_client_traffic client_id now = do
    client ← query (λ db. find (λ (x : Client F). x.id) client_id db.clients)
    reset_client_found client_id now client

  abbrev pub check_user_found : ℕ → DateTime → Option (User F) → M F (Usage F)
  check_user_found user_id now none = return within
  check_user_found user_id now (some u) =
      if should_reset_traffic u now
      then (reset_user_traffic user_id now >>= λ _. return within)
      else return (
          usage_of (wrap_i64 (u.total_bytes_sent +ℤ u.total_bytes_received))
            (get_user_final_quota u).0)

  pub check_user_traffic_limit : ℕ → DateTime → M F (Usage F)
  check_user_traffic_limit user_id now = do
    user ← query (λ db. find (λ (x : User F). x.id) user_id db.users)
    check_user_found user_id now user

  abbrev pub check_client_found : ℕ → DateTime → Option (Client F) → M F (Usage F)
  check_client_found client_id now none = return within
  check_client_found client_id now (some c) =
      if should_reset_client_traffic c now
      then (reset_client_traffic client_id now >>= λ _. return within)
      else return
          (usage_of (wrap_i64 (c.total_bytes_sent +ℤ c.total_bytes_received)) c.traffic_quota_gb)

  pub check_client_traffic_limit : ℕ → DateTime → M F (Usage F)
  check_client_traffic_limit client_id now = do
    client ← query (λ db. find (λ (x : Client F). x.id) client_id db.clients)
    check_client_found client_id now client

  -- The sum of the quotas that clients have.
  pub allocated : F → List (Client F) → F
  allocated total [] = total
  allocated total (c ∷ cs) =
      allocated (elim c.traffic_quota_gb [ none ↦ total | some q ↦ fl.add total q ]) cs

  abbrev pub allocation_of : F → F → F → F → Allocation F
  allocation_of quota used total additional =
      if fl.lt quota (fl.add (fl.add used total) additional)
      then insufficient (fl.max (fl.sub (fl.sub quota used) total) fl.zero) quota used total
      else granted

  abbrev pub allocate : ℕ → F → User F → Option F → M F (Allocation F)
  allocate user_id additional u none = return granted
  allocate user_id additional u (some quota) = do
    clients ← query (λ db. filter (λ (c : Client F). opt_eq c.user_id (some user_id)) db.clients)
    return (
        allocation_of quota (bytes_to_gb (wrap_i64 (u.total_bytes_sent +ℤ u.total_bytes_received)))
          (allocated fl.zero clients) additional)

  abbrev pub allocate_found : ℕ → F → Option (User F) → M F (Allocation F)
  allocate_found user_id additional none = return no_such_user
  allocate_found user_id additional (some u) =
      allocate user_id additional u (get_user_final_quota u).0

  pub check_user_quota_allocation : ℕ → F → M F (Allocation F)
  check_user_quota_allocation user_id additional = do
    user ← query (λ db. find (λ (x : User F). x.id) user_id db.users)
    allocate_found user_id additional user
