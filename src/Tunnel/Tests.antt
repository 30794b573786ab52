-- ===== src/Tunnel/Tests.antt =====
-- A tunnel that is started and switched: the witnesses.
use oxiproxy.Prelude.{ℕ, ◌≡◌, true, false, none, some, List, [], ◌∷◌, codes, text_eq}
use oxiproxy.Tunnel.{Task, TunnelManager, service_of, new, update_port, switch_protocol, listening}
use oxiproxy.Tunnel.Listening.{
  Request, task_ended, to_start, to_update_port, to_switch, IsTracked, serve_all, served-IsTracked,
  switch_protocol_lem,
}

abbrev busy_day : List (Request ℕ)
busy_day =
    to_start (codes "kcp") (some 3)
    ∷ to_update_port true 7001
    ∷ task_ended 0
    ∷ to_switch (codes "tcp")
    ∷ []

served-IsTracked_example : IsTracked (serve_all busy_day (new 7000))
served-IsTracked_example = served-IsTracked busy_day 7000

abbrev evening : TunnelManager ℕ
evening = serve_all busy_day (new 7000)

switch_protocol_example :
    (text_eq evening.current_protocol (codes "tcp") ≡ true
      → listening (switch_protocol (codes "tcp") (update_port true 7002 evening)).spawned
        ≡ listening evening.spawned)
    × (text_eq evening.current_protocol (codes "tcp") ≡ false
        → (t : Task ℕ) × (t.port ≡ 7002)
          × (t.service ≡ service_of (codes "tcp") none)
          × (listening (switch_protocol (codes "tcp") (update_port true 7002 evening)).spawned
              ≡ t ∷ []))
switch_protocol_example = switch_protocol_lem (codes "tcp") 7002 evening served-IsTracked_example
