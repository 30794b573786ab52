-- ===== src/Ports/Parsing.antt =====
-- What `parse_port_ranges` accepts.
use oxiproxy.Prelude.{
  ℕ, ◌+◌, ◌-◌, ◌*◌, ◌≤◌, ◌<◌, ◌≡◌, refl, sym, ap, ◌∙◌, ◌≢◌, inl, inr, true, false, ◌||◌, some, List,
  [], ◌∷◌, ◌++◌, arith, Text, ◌==◌, Bool-cases, is_empty, any, All, All-append, trim, split,
  split_from, Result-cases, ok, append_assoc, append-nil,
}
use oxiproxy.Ports.{
  PortRange, parse_digits, parse_u16, parse_bounds, parse_part, collect, parse_port_ranges,
  is_port_in_ranges, ◌>>=◌,
}

abbrev pub IsRange : PortRange → Type 0
IsRange r = (r.start ≤ r.last) × (r.last < 65536)

parse_digits-lt : (n : ℕ) (s : Text) (m : ℕ) → n < 65536 → parse_digits n s ≡ some m → m < 65536
unfolding parse_digits
parse_digits-lt n [] m h e = ground arith
parse_digits-lt n (c ∷ s) m h e = ground (arith, parse_digits-lt (n * 10 + (c - b'0')) s m)

parse_u16-lt : (s : Text) (m : ℕ) → parse_u16 s ≡ some m → m < 65536
unfolding parse_u16
parse_u16-lt [] m e = cc
parse_u16-lt (c ∷ []) m e = parse_digits-lt 0 (c ∷ []) m (omega arith) e
parse_u16-lt (c ∷ d ∷ s) m e =
    ground (arith, parse_digits-lt 0 (d ∷ s) m, parse_digits-lt 0 (c ∷ d ∷ s) m)

parse_bounds-IsRange : (ps : List Text) (r : PortRange) → parse_bounds ps ≡ ok r → IsRange r
unfolding parse_bounds
parse_bounds-IsRange (a ∷ b ∷ []) r e =
    ground (arith, parse_u16-lt (trim a) r.start, parse_u16-lt (trim b) r.last)
parse_bounds-IsRange _ r e = cc

parse_part-IsRange : (s : Text) (r : PortRange) → parse_part s ≡ ok r → IsRange r
unfolding parse_part
parse_part-IsRange s r e = elim (Bool-cases (any (λ c. c == b'-') s)) [
  | inl dash ↦ parse_bounds-IsRange (split b'-' s) r (ground arith)
  | inr plain ↦ ground (arith, parse_u16-lt s r.start)
]

-- One round of the loop, in equations.
collect_blank :
    (rs : List PortRange) (p : Text) (ps : List Text)
    → is_empty (trim p) ≡ true
    → collect rs (p ∷ ps) ≡ collect rs ps
unfolding collect
collect_blank rs p ps e = rw (e, collect)

collect_part :
    (rs : List PortRange) (p : Text) (ps : List Text)
    → is_empty (trim p) ≡ false
    → collect rs (p ∷ ps) ≡ (parse_part (trim p) >>= λ r. collect (rs ++ r ∷ []) ps)
unfolding collect
collect_part rs p ps e = rw (e, collect)

collect-IsRange :
    (rs : List PortRange) (ps : List Text) (qs : List PortRange)
    → All IsRange rs
    → collect rs ps ≡ ok qs
    → All IsRange qs
unfolding collect
collect-IsRange rs [] qs h e = let same : rs ≡ qs = cc in rw same at h
collect-IsRange rs (p ∷ ps) qs h e = elim (Bool-cases (is_empty (trim p))) [
  | inl blank ↦ collect-IsRange rs ps qs h (sym (collect_blank rs p ps blank) ∙ e)
  | inr filled ↦ elim (Result-cases (parse_part (trim p))) [
    | inl (r, parsed) ↦
        collect-IsRange (rs ++ r ∷ []) ps qs
          (All-append IsRange rs (r ∷ []) h (parse_part-IsRange (trim p) r parsed, tt))
          (rw parsed at (sym (collect_part rs p ps filled) ∙ e))
    | inr (x, failed) ↦ absurd (cc (rw failed at (sym (collect_part rs p ps filled) ∙ e)))
  ]
]

-- Accepted text gives at least one range, each a range of 16-bit ports from low to high.
pub parse_port_ranges_sound :
    (s : Text) (rs : List PortRange) → parse_port_ranges s ≡ ok rs → (rs ≢ []) × All IsRange rs
unfolding parse_port_ranges
parse_port_ranges_sound s rs e = elim (Result-cases (collect [] (split b',' s))) [
  | inr (x, failed) ↦ absurd (ground arith)
  | inl (qs, done) ↦
      let same : qs ≡ rs = ground arith in
      (ground arith, rw same at (collect-IsRange [] (split b',' s) qs tt done))
]

-- The loop over two lists of parts is the loop over the first, continued over the second.
collect-append :
    (rs : List PortRange) (ps qs : List Text)
    → collect rs (ps ++ qs) ≡ (collect rs ps >>= λ us. collect us qs)
unfolding collect
collect-append rs [] qs = refl
collect-append rs (p ∷ ps) qs = elim (Bool-cases (is_empty (trim p))) [
  | inl blank ↦
      rw (collect_blank rs p (ps ++ qs) blank, collect_blank rs p ps blank)
        (collect-append rs ps qs)
  | inr filled ↦
      rw (collect_part rs p (ps ++ qs) filled, collect_part rs p ps filled)
        (elim (Result-cases (parse_part (trim p))) [
          | inl (r, parsed) ↦ rw parsed (collect-append (rs ++ r ∷ []) ps qs)
          | inr (x, failed) ↦ rw failed refl
        ])
]

collect_from :
    (us rs ts : List PortRange) (ps : List Text)
    → collect rs ps ≡ ok ts
    → collect (us ++ rs) ps ≡ ok (us ++ ts)
unfolding collect
collect_from us rs ts [] e = let same : rs ≡ ts = cc in rw same
collect_from us rs ts (p ∷ ps) e = elim (Bool-cases (is_empty (trim p))) [
  | inl blank ↦
      collect_blank (us ++ rs) p ps blank
      ∙ collect_from us rs ts ps (sym (collect_blank rs p ps blank) ∙ e)
  | inr filled ↦ elim (Result-cases (parse_part (trim p))) [
    | inl (r, parsed) ↦
        let rest = rw parsed at (sym (collect_part rs p ps filled) ∙ e) in
        let now = collect_part (us ++ rs) p ps filled in
        now ∙ rw (parsed, append_assoc us rs (r ∷ [])) (collect_from us (rs ++ r ∷ []) ts ps rest)
    | inr (x, failed) ↦ absurd (cc (rw failed at (sym (collect_part rs p ps filled) ∙ e)))
  ]
]

split_from-append :
    (d : ℕ) (cur s t : Text)
    → split_from d cur (s ++ d ∷ t) ≡ split_from d cur s ++ split_from d [] t
unfolding split_from
split_from-append d cur [] t = ground arith
split_from-append d cur (c ∷ s) t =
    ground (arith, split_from-append d [] s t, split_from-append d (cur ++ c ∷ []) s t)

parse_collects :
    (s : Text) (rs : List PortRange)
    → parse_port_ranges s ≡ ok rs
    → (collect [] (split b',' s) ≡ ok rs) × (is_empty rs ≡ false)
unfolding parse_port_ranges
parse_collects s rs e = elim (Result-cases (collect [] (split b',' s))) [
  | inr (x, failed) ↦ absurd (ground arith)
  | inl (qs, done) ↦ ground arith
]

is_empty-append {ℓ} :
    {A : Type ℓ} (xs ys : List A) → is_empty xs ≡ false → is_empty (xs ++ ys) ≡ false
is_empty-append [] ys h = absurd (cc)
is_empty-append (x ∷ xs) ys h = refl

-- Two accepted texts joined by a comma give the ranges of both, in order.
pub parse_port_ranges-append :
    (s t : Text) (rs ts : List PortRange)
    → parse_port_ranges s ≡ ok rs
    → parse_port_ranges t ≡ ok ts
    → parse_port_ranges (s ++ b',' ∷ t) ≡ ok (rs ++ ts)
unfolding parse_port_ranges split
parse_port_ranges-append s t rs ts es et =
    let (first, filled) = parse_collects s rs es in
    let (second, _) = parse_collects t ts et in
    let all_parts =
      ap (collect []) (split_from-append b',' [] s t)
      ∙ collect-append [] (split b',' s) (split b',' t) in
    let from = collect_from rs [] ts (split b',' t) second in
    let bare : collect rs (split b',' t) ≡ ok (rs ++ ts) =
      ap (λ us. collect us (split b',' t)) (sym (append-nil rs)) ∙ from in
    rw (all_parts, first) (rw bare (rw (is_empty-append rs ts filled)))

-- A port is in the ranges of two lists exactly if it is in those of one of them.
pub is_port_in_ranges-append :
    (port : ℕ) (rs ts : List PortRange)
    → is_port_in_ranges port (rs ++ ts) ≡ (is_port_in_ranges port rs || is_port_in_ranges port ts)
unfolding is_port_in_ranges
is_port_in_ranges-append port [] ts = refl
is_port_in_ranges-append port (r ∷ rs) ts = ground (arith, is_port_in_ranges-append port rs ts)
