-- ===== src/Proxies/Naming.antt =====
-- The names of the rows of a group.
use oxiproxy.Prelude.{
  ℕ, ◌≡◌, refl, true, false, none, some, [], ◌∷◌, ◌++◌, arith, Text, ◌==◌, all, is_ascii_digit,
}
use oxiproxy.Limits.{id_text}
use oxiproxy.Limits.Decimals.{id_text-digits}
use oxiproxy.Proxies.Batch.{split_last, base_name, with_port}

no_dash : (s : Text) → all is_ascii_digit s ≡ true → split_last s ≡ none
unfolding split_last
no_dash [] h = refl
no_dash (c ∷ s) h =
    let here : (c == 45) ≡ false = ground arith in
    let rest : all is_ascii_digit s ≡ true = ground arith in rw (no_dash s rest, here) refl

split_last-dash :
    (name s : Text) → split_last s ≡ none → split_last (name ++ b'-' ∷ s) ≡ some (name, s)
unfolding split_last
split_last-dash [] s h = rw h refl
split_last-dash (c ∷ name) s h = rw (split_last-dash name s h) refl

-- The name of a row of a batch, without its port, is the name of the batch, whatever dashes and digits
-- that contains: ports that are added later continue the names.
pub base_name-with_port : (name : Text) (port : ℕ) → base_name (with_port name port) ≡ name
base_name-with_port name port =
    rw
      (
        split_last-dash name (id_text port) (no_dash (id_text port) (id_text-digits port)),
        base_name,
      )
      (rw (id_text-digits port) refl)
