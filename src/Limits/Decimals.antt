-- ===== src/Limits/Decimals.antt =====
-- The decimal text of a number.
use oxiproxy.Prelude.{
  ℕ, zero, suc, ◌+◌, ◌/◌, ◌%◌, ◌≡◌, refl, inl, inr, true, ◌∷◌, [], arith, Text, ltb, all,
  Bool-cases, is_ascii_digit,
}
use oxiproxy.Limits.{decimal_from, id_text}

digit : (n : ℕ) → is_ascii_digit (48 + n % 10) ≡ true
digit n = ground arith

decimal_from-digits :
    (fuel n : ℕ) (out : Text)
    → all is_ascii_digit out ≡ true
    → all is_ascii_digit (decimal_from fuel n out) ≡ true
unfolding decimal_from
decimal_from-digits zero n out h = h
decimal_from-digits (suc fuel) n out h =
    let next : all is_ascii_digit ((48 + n % 10) ∷ out) ≡ true = rw (digit n) h in
    elim (Bool-cases (ltb n 10)) [
      | inl small ↦ rw small next
      | inr large ↦ rw large (decimal_from-digits fuel (n / 10) ((48 + n % 10) ∷ out) next)
    ]

pub id_text-digits : (n : ℕ) → all is_ascii_digit (id_text n) ≡ true
unfolding id_text
id_text-digits n = decimal_from-digits (suc n) n [] refl
