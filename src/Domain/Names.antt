-- ===== src/Domain/Names.antt =====
-- Exact names: what `normalize_domain` returns.
use oxiproxy.Prelude.{
  ◌≤◌, ◌≡◌, refl, ap, ◌∙◌, ◌↔◌, inl, inr, Bool, true, false, ◌||◌, [], ◌∷◌, arith, Text, ltb,
  Bool-cases, Option-cases, length, len, All, any, is_empty, strip_last, split, split_from, ok, err,
}
use oxiproxy.Domain.{normalize_domain, bad_domain, bad_label, is_ipv4, canonical, invalid_domain}
use oxiproxy.Domain.Chars.{
  IsLabelChar, IsNameChar, NotUpper, map-lowercase_id, map-lowercase-NotUpper, trim_id,
  IsSolid-NameChar, strip_last_sound, split_from_last, split_from-All, All-split_from,
}
use oxiproxy.Domain.Labels.{
  IsLabel, lt_false, length-le-len, len-ascii, labels_sound, labels_complete, labels_chars,
  labels_filled,
}

-- A canonical name: dotted labels, not too long, and no IPv4 address.
pub record IsName (d : Text) : Type 0 where
  pub short : length d ≤ 253
  pub labels : All IsLabel (split b'.' d)
  pub not_address : is_ipv4 d ≡ false

pub name_chars : (d : Text) → All IsLabel (split b'.' d) → All IsNameChar d
unfolding split
name_chars d h = (All-split_from b'.' IsLabelChar [] d (labels_chars (split b'.' d) h)).1

-- A canonical name is its own canonical form.
pub canonical_id : (d : Text) → IsName d → canonical d ≡ d
unfolding canonical split
canonical_id d h =
    let chars = name_chars d h.labels in
    elim (Option-cases (strip_last b'.' d)) [
      | inl missing ↦ rw (trim_id d (IsSolid-NameChar d chars), missing) (map-lowercase_id d chars)
      | inr (t, found) ↦
          let ends = split_from_last b'.' [] t in
          let filled = labels_filled (split b'.' d) h.labels in
          absurd (cc (strip_last_sound b'.' d t found))
    ]

canonical-NotUpper : (v : Text) → All NotUpper (canonical v)
unfolding canonical
canonical-NotUpper v = map-lowercase-NotUpper _

split-NotUpper : (d : Text) → All NotUpper d → All (All NotUpper) (split b'.' d)
unfolding split
split-NotUpper d h = split_from-All b'.' NotUpper [] d tt h

IsName-ne-nil : (d : Text) → IsName d → is_empty d ≡ false
unfolding split split_from
IsName-ne-nil [] h = absurd (h.labels.0.nonempty refl)
IsName-ne-nil (c ∷ d) h = refl

module _ (is_ipv6 : Text → Bool) where
  bad_domain_tests :
      (d : Text)
      → bad_domain is_ipv6 d ≡ false
      → (ltb 253 (len d) ≡ false)
        × (is_ipv4 d ≡ false)
        × (is_ipv6 d ≡ false)
        × (any bad_label (split b'.' d) ≡ false)
  unfolding bad_domain
  bad_domain_tests d e = tests _ _ _ _ _ e
    where
      tests :
          (a b c f g : Bool)
          → a || b || (c || f) || g ≡ false
          → (b ≡ false) × (c ≡ false) × (f ≡ false) × (g ≡ false)
      tests a b c f g e = ground arith

  bad_domain_sound :
      (d : Text) → All NotUpper d → bad_domain is_ipv6 d ≡ false → IsName d × (is_ipv6 d ≡ false)
  bad_domain_sound d low e =
      let (short, v4, v6, labels) = bad_domain_tests d e in
      let fits : len d ≤ 253 = ground arith in
      (
        record {
          short = omega (arith, length-le-len d);
          labels = labels_sound (split b'.' d) (split-NotUpper d low) labels;
          not_address = v4;
        },
        v6,
      )

  bad_domain_complete : (d : Text) → IsName d → is_ipv6 d ≡ false → bad_domain is_ipv6 d ≡ false
  unfolding bad_domain
  bad_domain_complete d h v6 =
      let bytes = len-ascii d (name_chars d h.labels) in
      let short = h.short in
      rw (IsName-ne-nil d h, lt_false (len d) 253 (rw bytes short), h.not_address, v6)
        (labels_complete (split b'.' d) h.labels)

  normalize_domain_accepts :
      (v : Text)
      → bad_domain is_ipv6 (canonical v) ≡ false
      → normalize_domain is_ipv6 v ≡ ok (canonical v)
  unfolding normalize_domain
  normalize_domain_accepts v e = rw e

  normalize_domain_rejects :
      (v : Text)
      → bad_domain is_ipv6 (canonical v) ≡ true
      → normalize_domain is_ipv6 v ≡ err invalid_domain
  unfolding normalize_domain
  normalize_domain_rejects v e = rw e

  -- A text normalises to `d` exactly when `d` is its trimmed, lower-case form without a final dot,
  -- and is a canonical name that is no IP address.
  pub normalize_domain_iff :
      (v d : Text)
      → (normalize_domain is_ipv6 v ≡ ok d) ↔ ((canonical v ≡ d) × IsName d × (is_ipv6 d ≡ false))
  normalize_domain_iff v d = (into, from)
    where
      into : normalize_domain is_ipv6 v ≡ ok d → (canonical v ≡ d) × IsName d × (is_ipv6 d ≡ false)
      into e = elim (Bool-cases (bad_domain is_ipv6 (canonical v))) [
        | inl bad ↦ absurd (cc (normalize_domain_rejects v bad))
        | inr good ↦
            let same : canonical v ≡ d = cc (normalize_domain_accepts v good) in
            let (name, v6) = bad_domain_sound (canonical v) (canonical-NotUpper v) good in
            (same, rw same at name, rw same at v6)
      ]

      from : (canonical v ≡ d) × IsName d × (is_ipv6 d ≡ false) → normalize_domain is_ipv6 v ≡ ok d
      from (same, name, v6) =
          let good = bad_domain_complete d name v6 in
          normalize_domain_accepts v (rw same good) ∙ ap ok same

  -- A normalised name normalises to itself.
  pub normalize_domain_idem :
      (v d : Text) → normalize_domain is_ipv6 v ≡ ok d → normalize_domain is_ipv6 d ≡ ok d
  normalize_domain_idem v d e =
      let (_, name, v6) = (normalize_domain_iff v d).0 e in
      (normalize_domain_iff d d).1 (canonical_id d name, name, v6)
