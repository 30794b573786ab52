-- ===== src/Metering/Tests.antt =====
-- Charges and a buffer at work: the witnesses of the theorems.
use oxiproxy.Prelude.{◌≡◌, refl, ℕ, true, none, List, [], ◌∷◌, ok}
use oxiproxy.Prelude.Int.{pos, wrap_i64, ◌+ℤ◌}
use oxiproxy.Store.{Client, Db}
use oxiproxy.Metering.{TrafficEvent, Bytes, charge, client_meter}
use oxiproxy.Metering.Buffer.{sum_for}
use oxiproxy.Metering.Meters.{client-IsMeter}
use oxiproxy.Metering.Charges.{Holds, charge_lem, total_after, flag_after}
use oxiproxy.Traffic.{should_reset_client_traffic, cycle_due}
use oxiproxy.Samples.{whole, laptop, small_db, day_at}

-- Three events, two of one key.
abbrev events : List TrafficEvent
events =
    record {
      proxy_id = 2;
      client_id = 5;
      user_id = none;
      bytes_sent = pos 3;
      bytes_received = pos 4;
    }
    ∷ record {
      proxy_id = 9;
      client_id = 5;
      user_id = none;
      bytes_sent = pos 100;
      bytes_received = pos 1;
    }
    ∷ record {
      proxy_id = 2;
      client_id = 5;
      user_id = none;
      bytes_sent = pos 10;
      bytes_received = pos 20;
    }
    ∷ []

events_summed : sum_for (2, 5, none) events (pos 0, pos 0) ≡ (pos 13, pos 24)
unfolding wrap_i64 ◌+ℤ◌
events_summed = refl

laptop_held : Holds whole (client_meter whole) (client-IsMeter whole) 5 laptop small_db
laptop_held = record { works = refl; listed = refl }

charge_example :
    (after : Db ℕ) × (left : Client ℕ) × (charge whole
        (client_meter whole)
        laptop
        (pos 2, pos 3)
        (day_at 2 0)
        small_db
      ≡ (ok tt, after))
    × Holds whole (client_meter whole) (client-IsMeter whole) 5 left after
    × ((left.total_bytes_sent, left.total_bytes_received)
        ≡ total_after whole
            (client_meter whole)
            (client-IsMeter whole)
            laptop
            (pos 2, pos 3)
            (day_at 2 0))
    × (left.is_traffic_exceeded
        ≡ flag_after whole
            (client_meter whole)
            (client-IsMeter whole)
            laptop.traffic_quota_gb
            laptop.is_traffic_exceeded
            (should_reset_client_traffic whole laptop (day_at 2 0))
            (total_after whole
              (client_meter whole)
              (client-IsMeter whole)
              laptop
              (pos 2, pos 3)
              (day_at 2 0)))
charge_example =
    charge_lem whole (client_meter whole) (client-IsMeter whole) laptop (pos 2, pos 3) (day_at 2 0)
      small_db laptop_held

abbrev flagged : Client ℕ
flagged = record laptop { is_traffic_exceeded = true; last_reset_at = none }

abbrev flagged_db : Db ℕ
flagged_db = record small_db { clients = flagged ∷ [] }

abbrev burst : Bytes
burst = (pos 20, pos 30)

flagged_due : should_reset_client_traffic whole flagged (day_at 2 0) ≡ true
unfolding should_reset_client_traffic cycle_due
flagged_due = refl
