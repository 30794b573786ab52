-- ===== src/Ports.antt =====
-- controller/src/port_limiter.rs, the pure half: port ranges, their text and the membership test.
pub mod Parsing
mod Tests
use oxiproxy.Prelude.{
  ℕ, ◌+◌, ◌-◌, ◌*◌, Bool, true, false, ◌&&◌, Option, none, some, List, [], ◌∷◌, ◌++◌, Text, codes,
  ltb, leb, ◌==◌, if◌then◌else◌, is_empty, any, trim, split, is_ascii_digit, Result, ok, err,
}

-- `u16` fields.
pub record PortRange : Type 0 where
  pub start : ℕ
  pub last : ℕ

pub data RangeError : Type 0 where
  bad_format bad_start bad_end bad_port start_above_end no_range : RangeError

abbrev pub contains : PortRange → ℕ → Bool
contains r port = leb r.start port && leb port r.last

-- The digit loop of `str::parse::<u16>`, with its overflow check.
pub parse_digits : ℕ → Text → Option ℕ
parse_digits n [] = some n
parse_digits n (c ∷ s) =
    let next = n * 10 + (c - b'0') in
    let rest = parse_digits next s in if is_ascii_digit c && ltb next 65536 then rest else none

-- `str::parse::<u16>`: an optional plus sign, then at least one digit.
pub parse_u16 : Text → Option ℕ
unfolding parse_digits
parse_u16 [] = none
parse_u16 (c ∷ []) = parse_digits 0 (c ∷ [])
parse_u16 (c ∷ d ∷ s) = if c == b'+' then parse_digits 0 (d ∷ s) else parse_digits 0 (c ∷ d ∷ s)

abbrev or_error : RangeError → Option ℕ → Result RangeError ℕ
or_error e none = err e
or_error e (some n) = ok n

infixl 5 ◌>>=◌
abbrev ◌>>=◌ {ℓ κ} :
    {A : Type ℓ} {B : Type κ}
    → Result RangeError A
    → (A → Result RangeError B)
    → Result RangeError B
ok a >>= f = f a
err e >>= f = err e

-- The pieces of a part that holds a dash.
parse_bounds : List Text → Result RangeError PortRange
unfolding parse_u16
parse_bounds (a ∷ b ∷ []) = do
  start ← or_error bad_start (parse_u16 (trim a))
  last ← or_error bad_end (parse_u16 (trim b))
  if ltb last start then err start_above_end else ok (record { start = start; last = last })
parse_bounds _ = err bad_format

-- One trimmed part: a range if it holds a dash, else a single port.
pub parse_part : Text → Result RangeError PortRange
unfolding parse_bounds parse_u16
parse_part part =
    if any (λ c. c == b'-') part
    then parse_bounds (split b'-' part)
    else (or_error bad_port (parse_u16 part) >>= λ port. ok (record { start = port; last = port }))

-- The loop over the parts; `ranges` is the vector being filled.
pub collect : List PortRange → List Text → Result RangeError (List PortRange)
collect ranges [] = ok ranges
collect ranges (p ∷ parts) = elim (is_empty (trim p)) [
  | true ↦ collect ranges parts
  | false ↦ parse_part (trim p) >>= λ r. collect (ranges ++ r ∷ []) parts
]

abbrev some_range : List PortRange → Result RangeError (List PortRange)
some_range ranges = if is_empty ranges then err no_range else ok ranges

unfoldable pub parse_port_ranges : Text → Result RangeError (List PortRange)
unfolding collect parse_part
parse_port_ranges range_str = collect [] (split b',' range_str) >>= some_range

unfoldable pub is_port_in_ranges : ℕ → List PortRange → Bool
is_port_in_ranges port ranges = any (λ r. contains r port) ranges
