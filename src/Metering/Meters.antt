-- ===== src/Metering/Meters.antt =====
-- What a charge relies on in the three tables that it is made for.
use oxiproxy.Prelude.{◌≡◌, refl, true, false, List}
use oxiproxy.Prelude.Time.{DateTime}
use oxiproxy.Prelude.Float.{Float}
use oxiproxy.Store.{Db}
use oxiproxy.Store.Queries.{past}
use oxiproxy.Metering.{Bytes, Meter, client_meter, user_meter, node_meter}

module _ (fl : Float) where
  open fl use {F}

  -- The table is a part of the database of its own, and the three changes
  -- of a row set what they are for and keep the rest.
  pub record IsMeter (m : Meter F) : Type 0 where
    pub rows_past : (db : Db F) → m.rows (past db) ≡ m.rows db
    pub rows-with_rows : (db : Db F) (rs : List m.Row) → m.rows (m.with_rows db rs) ≡ rs
    pub faults-with_rows : (db : Db F) (rs : List m.Row) → (m.with_rows db rs).faults ≡ db.faults
    pub key-count : (b : Bytes) (now : DateTime) (r : m.Row) → m.key (m.count b now r) ≡ m.key r
    pub key-restart : (now : DateTime) (r : m.Row) → m.key (m.restart now r) ≡ m.key r
    pub key-exceed : (now : DateTime) (r : m.Row) → m.key (m.exceed now r) ≡ m.key r
    pub total-count : (b : Bytes) (now : DateTime) (r : m.Row) → m.total (m.count b now r) ≡ b
    pub total-exceed : (now : DateTime) (r : m.Row) → m.total (m.exceed now r) ≡ m.total r
    pub flag-count :
        (b : Bytes) (now : DateTime) (r : m.Row) → m.is_exceeded (m.count b now r) ≡ m.is_exceeded r
    pub flag-restart : (now : DateTime) (r : m.Row) → m.is_exceeded (m.restart now r) ≡ false
    pub flag-exceed : (now : DateTime) (r : m.Row) → m.is_exceeded (m.exceed now r) ≡ true

  pub client-IsMeter : IsMeter (client_meter fl)
  client-IsMeter = record {
    rows_past = λ db. refl;
    rows-with_rows = λ db rs. refl;
    faults-with_rows = λ db rs. refl;
    key-count = λ b now r. refl;
    key-restart = λ now r. refl;
    key-exceed = λ now r. refl;
    total-count = λ b now r. refl;
    total-exceed = λ now r. refl;
    flag-count = λ b now r. refl;
    flag-restart = λ now r. refl;
    flag-exceed = λ now r. refl;
  }

  pub user-IsMeter : IsMeter (user_meter fl)
  user-IsMeter = record {
    rows_past = λ db. refl;
    rows-with_rows = λ db rs. refl;
    faults-with_rows = λ db rs. refl;
    key-count = λ b now r. refl;
    key-restart = λ now r. refl;
    key-exceed = λ now r. refl;
    total-count = λ b now r. refl;
    total-exceed = λ now r. refl;
    flag-count = λ b now r. refl;
    flag-restart = λ now r. refl;
    flag-exceed = λ now r. refl;
  }

  pub node-IsMeter : IsMeter (node_meter fl)
  node-IsMeter = record {
    rows_past = λ db. refl;
    rows-with_rows = λ db rs. refl;
    faults-with_rows = λ db rs. refl;
    key-count = λ b now r. refl;
    key-restart = λ now r. refl;
    key-exceed = λ now r. refl;
    total-count = λ b now r. refl;
    total-exceed = λ now r. refl;
    flag-count = λ b now r. refl;
    flag-restart = λ now r. refl;
    flag-exceed = λ now r. refl;
  }
