-- ===== src/Store.antt =====
-- The controller's database: the rows of controller/src/entity/*.rs as records, the tables as lists,
-- and queries in a monad. `faults` says, query by query, which ones fail (an empty list: no more
-- do), so a statement over all `faults` covers every failure of the database. A failed query
-- changes no table. Primary keys are compared for equality alone and are natural numbers here;
-- `F` is the type of `f64` values.
pub mod Rows
pub mod Queries
pub mod Looking
use oxiproxy.Prelude.{ℕ, Bool, Option, List, String, Text}
use oxiproxy.Prelude.Int.{ℤ}
use oxiproxy.Prelude.Time.{DateTime}

module _ (F : Type 0) where
  pub record User : Type 0 where
    pub id : ℕ
    pub username : String
    pub password_hash : String
    pub is_admin : Bool
    pub total_bytes_sent : ℤ
    pub total_bytes_received : ℤ
    pub traffic_reset_cycle : String
    pub last_reset_at : Option DateTime
    pub is_traffic_exceeded : Bool
    pub traffic_quota_gb : Option F
    pub max_port_count : Option ℤ
    pub allowed_port_range : Option Text
    pub max_node_count : Option ℤ
    pub max_client_count : Option ℤ
    pub created_at : DateTime
    pub updated_at : DateTime

  pub record Client : Type 0 where
    pub id : ℕ
    pub name : String
    pub token : String
    pub is_online : Bool
    pub public_ip : Option String
    pub region : Option String
    pub total_bytes_sent : ℤ
    pub total_bytes_received : ℤ
    pub traffic_reset_cycle : String
    pub last_reset_at : Option DateTime
    pub is_traffic_exceeded : Bool
    pub traffic_quota_gb : Option F
    pub user_id : Option ℕ
    pub version : Option String
    pub last_online_at : Option DateTime
    pub created_at : DateTime
    pub updated_at : DateTime

  pub record Node : Type 0 where
    pub id : ℕ
    pub name : String
    pub url : String
    pub secret : String
    pub is_online : Bool
    pub region : Option String
    pub public_ip : Option String
    pub description : Option String
    pub tunnel_addr : String
    pub tunnel_port : ℤ
    pub tunnel_protocol : String
    pub kcp_config : Option String
    pub node_type : String
    pub max_proxy_count : Option ℤ
    pub allowed_port_range : Option Text
    pub traffic_quota_gb : Option F
    pub traffic_reset_cycle : String
    pub total_bytes_sent : ℤ
    pub total_bytes_received : ℤ
    pub last_reset_at : Option DateTime
    pub is_traffic_exceeded : Bool
    pub speed_limit : Option ℤ
    pub version : Option String
    pub last_online_at : Option DateTime
    pub created_at : DateTime
    pub updated_at : DateTime

  pub record Subscription : Type 0 where
    pub id : ℕ
    pub name : String
    pub duration_type : String
    pub duration_value : ℤ
    pub traffic_quota_gb : F
    pub max_port_count : Option ℤ
    pub max_node_count : Option ℤ
    pub max_client_count : Option ℤ
    pub price : Option F
    pub description : Option String
    pub is_active : Bool
    pub created_at : DateTime
    pub updated_at : DateTime

  pub record UserSubscription : Type 0 where
    pub id : ℕ
    pub user_id : ℕ
    pub subscription_id : ℕ
    pub start_date : DateTime
    pub end_date : DateTime
    pub traffic_quota_gb : F
    pub traffic_used_gb : F
    pub is_active : Bool
    pub max_port_count_snapshot : Option ℤ
    pub max_node_count_snapshot : Option ℤ
    pub max_client_count_snapshot : Option ℤ
    pub quota_merged : Bool
    pub created_at : DateTime
    pub updated_at : DateTime

pub record Proxy : Type 0 where
  pub id : ℕ
  pub client_id : Option Text
  pub user_id : Option ℕ
  pub upstream_url : Text
  pub name : Text
  pub proxy_type : String
  pub domain : Text
  pub local_ip : String
  pub local_port : ℕ
  pub remote_port : ℕ
  pub enabled : Bool
  pub node_id : Option ℕ
  pub group_id : Option String
  pub total_bytes_sent : ℤ
  pub total_bytes_received : ℤ
  pub created_at : DateTime
  pub updated_at : DateTime

pub record UserNode : Type 0 where
  pub id : ℕ
  pub user_id : ℕ
  pub node_id : ℕ
  pub created_at : DateTime

pub record UserClient : Type 0 where
  pub id : ℕ
  pub user_id : ℕ
  pub client_id : ℕ
  pub created_at : DateTime

pub record TrafficDaily : Type 0 where
  pub proxy_id : ℕ
  pub client_id : Option ℕ
  pub bytes_sent : ℤ
  pub bytes_received : ℤ
  pub date : Text
  pub created_at : DateTime
  pub updated_at : DateTime

pub record Db (F : Type 0) : Type 0 where
  pub users : List (User F)
  pub clients : List (Client F)
  pub nodes : List (Node F)
  pub proxies : List Proxy
  pub subscriptions : List (Subscription F)
  pub user_subscriptions : List (UserSubscription F)
  pub traffic_daily : List TrafficDaily
  pub user_nodes : List UserNode
  pub user_clients : List UserClient
  pub faults : List Bool
