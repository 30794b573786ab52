-- ===== src/Domain/Labels.antt =====
-- Labels: the test `bad_label` against a description of the labels that pass it.
use mathlib.Core.List.{cons-eq-cons}
use oxiproxy.Prelude.{
  ℕ, ◌≤◌, ◌≡◌, refl, ap, ◌≢◌, inl, inr, Bool, true, false, not, ◌||◌, some, List, [], ◌∷◌, ◌++◌,
  arith, Text, ◌==◌, ==_iff, ltb, Bool-cases, Option-cases, length, len, All, any, all, is_empty,
  strip_last, is_ascii_alphanumeric,
}
use oxiproxy.Domain.{bad_label, starts_with_dash, ends_with_dash}
use oxiproxy.Domain.Chars.{IsLabelChar, IsNameChar, NotUpper, strip_last_sound, strip_last_complete}

-- A label: lower-case letters, digits and dashes, with no dash at either end.
pub record IsLabel (s : Text) : Type 0 where
  pub nonempty : s ≢ []
  pub short : length s ≤ 63
  pub chars : All IsLabelChar s
  pub first : (t : Text) → s ≢ b'-' ∷ t
  pub last : (t : Text) → s ≢ t ++ b'-' ∷ []

pub lt_false : (a b : ℕ) → a ≤ b → ltb b a ≡ false
lt_false a b h = ground arith

pub length-le-len : (s : Text) → length s ≤ len s
length-le-len [] = omega arith
length-le-len (c ∷ s) = ground (arith, length-le-len s)

pub len-ascii : (s : Text) → All IsNameChar s → len s ≡ length s
len-ascii [] h = refl
len-ascii (c ∷ s) (p, h) = ground (arith, len-ascii s h)

any_eq_false {ℓ} :
    {A : Type ℓ} (p : A → Bool) (xs : List A) → any p xs ≡ false → All (λ x. p x ≡ false) xs
any_eq_false p [] h = tt
any_eq_false p (x ∷ xs) h = (ground arith, any_eq_false p xs (ground arith))

any-false {ℓ} :
    {A : Type ℓ} (p : A → Bool) (xs : List A) → All (λ x. p x ≡ false) xs → any p xs ≡ false
any-false p [] h = refl
any-false p (x ∷ xs) (e, h) = rw (e, any-false p xs h)

label_chars :
    (s : Text)
    → All NotUpper s
    → all (λ c. is_ascii_alphanumeric c || c == b'-') s ≡ true
    → All IsLabelChar s
label_chars [] h e = tt
label_chars (c ∷ s) (p, h) e = (ground arith, label_chars s h (ground arith))

label_chars_pass :
    (s : Text) → All IsLabelChar s → all (λ c. is_ascii_alphanumeric c || c == b'-') s ≡ true
label_chars_pass [] h = refl
label_chars_pass (c ∷ s) (p, h) = ground (arith, label_chars_pass s h)

-- The five tests of a label, read off and put together.
bad_label_tests :
    (s : Text)
    → bad_label s ≡ false
    → (is_empty s ≡ false)
      × (ltb 63 (len s) ≡ false)
      × (starts_with_dash s ≡ false)
      × (ends_with_dash s ≡ false)
      × (all (λ c. is_ascii_alphanumeric c || c == b'-') s ≡ true)
unfolding bad_label
bad_label_tests s e = tests _ _ _ _ _ e
  where
    tests :
        (a b c d f : Bool)
        → a || b || c || d || not f ≡ false
        → (a ≡ false) × (b ≡ false) × (c ≡ false) × (d ≡ false) × (f ≡ true)
    tests a b c d f e = ground arith

bad_label_pass :
    (s : Text)
    → is_empty s ≡ false
    → ltb 63 (len s) ≡ false
    → starts_with_dash s ≡ false
    → ends_with_dash s ≡ false
    → all (λ c. is_ascii_alphanumeric c || c == b'-') s ≡ true
    → bad_label s ≡ false
unfolding bad_label
bad_label_pass s a b c d f = rw (a, b, c, d, f)

ends_with_dash_sound : (s t : Text) → ends_with_dash s ≡ false → s ≢ t ++ b'-' ∷ []
ends_with_dash_sound s t e q =
    let found : strip_last b'-' s ≡ some t = rw q (strip_last_complete b'-' t) in ground arith

ends_with_dash_pass : (s : Text) → ((t : Text) → s ≢ t ++ b'-' ∷ []) → ends_with_dash s ≡ false
ends_with_dash_pass s h = elim (Option-cases (strip_last b'-' s)) [
  | inl missing ↦ rw (missing, ends_with_dash)
  | inr (t, found) ↦ absurd (h t (strip_last_sound b'-' s t found))
]

starts_with_dash_sound : (s t : Text) → starts_with_dash s ≡ false → s ≢ b'-' ∷ t
starts_with_dash_sound [] t e q = cc
starts_with_dash_sound (c ∷ s) t e q = let same = (cons-eq-cons.0 q).0 in absurd (ground arith)

starts_with_dash_pass : (s : Text) → ((t : Text) → s ≢ b'-' ∷ t) → starts_with_dash s ≡ false
starts_with_dash_pass [] h = refl
starts_with_dash_pass (c ∷ s) h = elim (Bool-cases (c == b'-')) [
  | inl same ↦ absurd (h s (ap (λ x. x ∷ s) ((==_iff c b'-').0 same)))
  | inr other ↦ other
]

is_empty-false : {s : Text} → is_empty s ≡ false → s ≢ []
is_empty-false {s} e q = absurd (ground arith)

bad_label_sound : (s : Text) → All NotUpper s → bad_label s ≡ false → IsLabel s
bad_label_sound s h e =
    let (filled, short, first, last, chars) = bad_label_tests s e in
    let fits : len s ≤ 63 = ground arith in
    record {
      nonempty = is_empty-false filled;
      short = omega (arith, length-le-len s);
      chars = label_chars s h chars;
      first = λ t. starts_with_dash_sound s t first;
      last = λ t. ends_with_dash_sound s t last;
    }

NameChar-of-LabelChar : (s : Text) → All IsLabelChar s → All IsNameChar s
NameChar-of-LabelChar [] h = tt
NameChar-of-LabelChar (c ∷ s) (p, h) = (inl p, NameChar-of-LabelChar s h)

bad_label_complete : (s : Text) → IsLabel s → bad_label s ≡ false
bad_label_complete [] l = absurd (l.nonempty refl)
bad_label_complete (c ∷ s) l =
    let bytes = len-ascii (c ∷ s) (NameChar-of-LabelChar (c ∷ s) l.chars) in
    let short = l.short in
    let fits : len (c ∷ s) ≤ 63 = rw bytes short in
    bad_label_pass (c ∷ s) refl (lt_false (len (c ∷ s)) 63 fits)
      (starts_with_dash_pass (c ∷ s) l.first) (ends_with_dash_pass (c ∷ s) l.last)
      (label_chars_pass (c ∷ s) l.chars)

pub labels_sound :
    (ls : List Text) → All (All NotUpper) ls → any bad_label ls ≡ false → All IsLabel ls
labels_sound [] h e = tt
labels_sound (l ∷ ls) (p, h) e =
    (bad_label_sound l p (ground arith), labels_sound ls h (ground arith))

pub labels_complete : (ls : List Text) → All IsLabel ls → any bad_label ls ≡ false
labels_complete [] h = refl
labels_complete (l ∷ ls) (p, h) = rw (bad_label_complete l p, labels_complete ls h)

pub labels_chars : (ls : List Text) → All IsLabel ls → All (All IsLabelChar) ls
labels_chars [] h = tt
labels_chars (l ∷ ls) (p, h) = (p.chars, labels_chars ls h)

pub labels_filled : (ls : List Text) → All IsLabel ls → any is_empty ls ≡ false
labels_filled [] h = refl
labels_filled ([] ∷ ls) (p, h) = absurd (p.nonempty refl)
labels_filled ((c ∷ l) ∷ ls) (p, h) = labels_filled ls h
