-- ===== src/Domain/Chars.antt =====
-- Lemmas on the characters of a name: trimming, splitting at dots, lower case.
use oxiproxy.Prelude.{
  ℕ, ◌≤◌, ◌<◌, ◌≡◌, refl, ap, ◌∙◌, ◌⊎◌, inl, inr, true, false, some, [], ◌∷◌, ◌++◌, map, arith,
  Text, ◌==◌, ==_iff, Bool-cases, Option-cases, All, All-append, any, is_empty, trim, trim_start,
  trim_end, is_whitespace, strip_last, split_from, to_ascii_lowercase,
}

-- A character of a canonical name's label.
abbrev pub IsLabelChar : ℕ → Type 0
IsLabelChar c = ((b'a' ≤ c) × (c ≤ b'z')) ⊎ ((b'0' ≤ c) × (c ≤ b'9')) ⊎ (c ≡ b'-')

abbrev pub IsNameChar : ℕ → Type 0
IsNameChar c = IsLabelChar c ⊎ (c ≡ b'.')

pub is_whitespace-NameChar : (c : ℕ) → IsNameChar c → is_whitespace c ≡ false
unfolding is_whitespace
is_whitespace-NameChar c h = ground arith

pub lowercase-NameChar : (c : ℕ) → IsNameChar c → to_ascii_lowercase c ≡ c
lowercase-NameChar c h = ground arith

pub map-lowercase_id : (s : Text) → All IsNameChar s → map to_ascii_lowercase s ≡ s
map-lowercase_id [] h = refl
map-lowercase_id (c ∷ s) (p, h) = cc (lowercase-NameChar c p, map-lowercase_id s h)

abbrev pub NotUpper : ℕ → Type 0
NotUpper c = (c < b'A') ⊎ (b'Z' < c)

pub map-lowercase-NotUpper : (s : Text) → All NotUpper (map to_ascii_lowercase s)
map-lowercase-NotUpper [] = tt
map-lowercase-NotUpper (c ∷ s) = (ground arith, map-lowercase-NotUpper s)

abbrev pub IsSolid : ℕ → Type 0
IsSolid c = is_whitespace c ≡ false

trim_start_id : (s : Text) → All IsSolid s → trim_start s ≡ s
unfolding trim_start
trim_start_id [] h = refl
trim_start_id (c ∷ s) (p, h) = rw p

trim_end_id : (s : Text) → All IsSolid s → trim_end s ≡ s
unfolding trim_end
trim_end_id [] h = refl
trim_end_id (c ∷ []) (p, h) = rw p
trim_end_id (c ∷ d ∷ s) (p, h) = rw (trim_end_id (d ∷ s) h)

pub trim_id : (s : Text) → All IsSolid s → trim s ≡ s
unfolding trim
trim_id s h = ap trim_end (trim_start_id s h) ∙ trim_end_id s h

pub IsSolid-NameChar : (s : Text) → All IsNameChar s → All IsSolid s
IsSolid-NameChar [] h = tt
IsSolid-NameChar (c ∷ s) (p, h) = (is_whitespace-NameChar c p, IsSolid-NameChar s h)

pub strip_last_sound : (d : ℕ) (s t : Text) → strip_last d s ≡ some t → s ≡ t ++ d ∷ []
strip_last_sound d [] t e = cc
strip_last_sound d (c ∷ []) t e = ground arith
strip_last_sound d (c ∷ b ∷ s) t e = elim (Option-cases (strip_last d (b ∷ s))) [
  | inl missing ↦ absurd (ground arith)
  | inr (u, found) ↦ let rest = strip_last_sound d (b ∷ s) u found in ground arith
]

pub strip_last_complete : (d : ℕ) (t : Text) → strip_last d (t ++ d ∷ []) ≡ some t
strip_last_complete d [] = ground arith
strip_last_complete d (c ∷ []) = ground arith
strip_last_complete d (c ∷ b ∷ t) = rw (strip_last_complete d (b ∷ t))

All-concat : (P : ℕ → Type 0) (xs : Text) (x : ℕ) → All P (xs ++ x ∷ []) → All P xs × P x
All-concat P [] x (p, _) = (tt, p)
All-concat P (y ∷ xs) x (q, h) = let (hs, p) = All-concat P xs x h in ((q, hs), p)

module _ (d : ℕ) where
  -- A text that ends in the separator has an empty last part.
  pub split_from_last : (cur t : Text) → any is_empty (split_from d cur (t ++ d ∷ [])) ≡ true
  unfolding split_from
  split_from_last cur [] = ground arith
  split_from_last cur (c ∷ t) =
      ground (arith, split_from_last [] t, split_from_last (cur ++ c ∷ []) t)

  split_from_sep :
      (cur s : Text) (c : ℕ) → (c == d) ≡ true → split_from d cur (c ∷ s) ≡ cur ∷ split_from d [] s
  unfolding split_from
  split_from_sep cur s c e = rw (e, split_from)

  split_from_other :
      (cur s : Text) (c : ℕ)
      → (c == d) ≡ false
      → split_from d cur (c ∷ s) ≡ split_from d (cur ++ c ∷ []) s
  unfolding split_from
  split_from_other cur s c e = rw (e, split_from)

  module _ (P : ℕ → Type 0) where
    pub split_from-All : (cur s : Text) → All P cur → All P s → All (All P) (split_from d cur s)
    unfolding split_from
    split_from-All cur [] hc hs = (hc, tt)
    split_from-All cur (c ∷ s) hc (p, hs) = elim (Bool-cases (c == d)) [
      | inl same ↦ rw (split_from_sep cur s c same) (hc, split_from-All [] s tt hs)
      | inr other ↦
          rw (split_from_other cur s c other)
            (split_from-All (cur ++ c ∷ []) s (All-append P cur (c ∷ []) hc (p, tt)) hs)
    ]

    pub All-split_from :
        (cur s : Text) → All (All P) (split_from d cur s) → All P cur × All (λ c. P c ⊎ (c ≡ d)) s
    unfolding split_from
    All-split_from cur [] h = (h.0, tt)
    All-split_from cur (c ∷ s) h = elim (Bool-cases (c == d)) [
      | inl same ↦
          let parts : All (All P) (cur ∷ split_from d [] s) =
            rw (split_from_sep cur s c same) at h in
          (parts.0, (inr ((==_iff c d).0 same), (All-split_from [] s parts.1).1))
      | inr other ↦
          let parts : All (All P) (split_from d (cur ++ c ∷ []) s) =
            rw (split_from_other cur s c other) at h in
          let (before, after) = All-split_from (cur ++ c ∷ []) s parts in
          let (hc, p) = All-concat P cur c before in (hc, (inl p, after))
    ]
