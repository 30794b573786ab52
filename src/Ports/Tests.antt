-- ===== src/Ports/Tests.antt =====
-- The unit tests of controller/src/port_limiter.rs, and the witnesses.
use oxiproxy.Prelude.{◌≡◌, ◌≢◌, refl, List, [], ◌∷◌, codes, trim, split, ok, err, All}
use oxiproxy.Ports.{PortRange, parse_port_ranges, bad_port, bad_end, start_above_end}
use oxiproxy.Ports.Parsing.{IsRange, parse_port_ranges_sound}

abbrev mixed : List PortRange
mixed = record { start = 8080; last = 8080 } ∷ record { start = 1000; last = 2000 } ∷ []

mixed_format : parse_port_ranges (codes "8080,1000-2000") ≡ ok mixed
unfolding parse_port_ranges trim split
mixed_format = refl

refused :
    (parse_port_ranges (codes "invalid") ≡ err bad_port)
    × (parse_port_ranges (codes "1000-") ≡ err bad_end)
    × (parse_port_ranges (codes "9999-1000") ≡ err start_above_end)
unfolding parse_port_ranges trim split
refused = (refl, refl, refl)

mixed_sound : (mixed ≢ []) × All IsRange mixed
mixed_sound = parse_port_ranges_sound (codes "8080,1000-2000") mixed mixed_format

abbrev single : List PortRange
single = record { start = 22; last = 22 } ∷ []

single_format : parse_port_ranges (codes "22") ≡ ok single
unfolding parse_port_ranges trim split
single_format = refl
