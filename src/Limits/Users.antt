-- ===== src/Limits/Users.antt =====
-- What `validate_user_port_limit` admits.
use oxiproxy.Prelude.{
  ℕ, ◌<◌, ◌≡◌, refl, ◌⊎◌, inl, inr, true, false, Option, none, some, List, [], map, arith, Text,
  leb, Bool-cases, Option-cases, opt_eq, filter, length, Result-cases, ok,
}
use oxiproxy.Prelude.Int.{ℤ, as_u64}
use oxiproxy.Ports.{PortRange, parse_port_ranges, is_port_in_ranges}
use oxiproxy.Store.{User, Client, Db}
use oxiproxy.Store.Rows.{find}
use oxiproxy.Store.Queries.{query, fails_now, past}
use oxiproxy.Limits.{
  Verdict, Reason, allowed, denied, counts_for, range_verdict, user_range_verdict, check_user_count,
  check_user, validate_user_port_limit,
}

lt→not_leb : (a b : ℕ) → a < b → leb b a ≡ false
lt→not_leb a b h = ground arith

-- The text parses, and one of its ranges holds the port.
pub record Permits (text : Text) (port : ℕ) : Type 0 where
  pub ranges : List PortRange
  pub parsed : parse_port_ranges text ≡ ok ranges
  pub member : is_port_in_ranges port ranges ≡ true

pub range_verdict_sound :
    (port : ℕ) (text : Text) → range_verdict port text ≡ allowed → Permits text port
unfolding range_verdict
range_verdict_sound port text e = elim (Result-cases (parse_port_ranges text)) [
  | inr (x, failed) ↦ absurd (ground arith)
  | inl (rs, parsed) ↦ record { ranges = rs; parsed = parsed; member = ground arith }
]

pub range_verdict_complete :
    (port : ℕ) (text : Text) → Permits text port → range_verdict port text ≡ allowed
unfolding range_verdict
range_verdict_complete port text h = rw (h.parsed, range_verdict) (rw h.member)

user_range_sound :
    (port : ℕ) (o : Option Text) (text : Text)
    → user_range_verdict port o ≡ allowed
    → o ≡ some text
    → Permits text port
user_range_sound port none text e same = absurd (cc)
user_range_sound port (some t) text e same =
    let eq : t ≡ text = cc in rw eq at (range_verdict_sound port t e)

user_range_complete :
    (port : ℕ) (o : Option Text)
    → ((text : Text) → o ≡ some text → Permits text port)
    → user_range_verdict port o ≡ allowed
user_range_complete port none h = refl
user_range_complete port (some t) h = range_verdict_complete port t (h t refl)

pub Verdict-cases : (v : Verdict) → (v ≡ allowed) ⊎ ((r : Reason) × (v ≡ denied r))
Verdict-cases allowed = inl refl
Verdict-cases (denied r) = inr (r, refl)

module _ {F : Type 0} where
  -- The proxies that count for a user.
  abbrev pub port_count : Db F → ℕ → ℕ
  port_count db user_id = length (
      filter
        (counts_for user_id (
          map (λ (c : Client F). c.id)
            (filter (λ (c : Client F). opt_eq c.user_id (some user_id)) db.clients)))
        db.proxies)

  -- What the check asks for. The limit is cast to an unsigned number, as in the code, so a negative
  -- one is no bound that a count can reach.
  pub record UserAllows (db : Db F) (user_id port : ℕ) : Type 0 where
    pub user : User F
    pub listed : find (λ (u : User F). u.id) user_id db.users ≡ some user
    pub ranged : (text : Text) → user.allowed_port_range ≡ some text → Permits text port
    pub room : (most : ℤ) → user.max_port_count ≡ some most → port_count db user_id < as_u64 most

  check_user_count_sound :
      (db : Db F) (user_id : ℕ) (limit : Option ℤ) (most : ℤ)
      → (check_user_count user_id limit db).0 ≡ ok allowed
      → limit ≡ some most
      → port_count db user_id < as_u64 most
  unfolding check_user_count query
  check_user_count_sound db user_id none most e same = absurd (cc)
  check_user_count_sound db user_id (some n) most e same = ground arith

  check_user_sound :
      (db : Db F) (user_id port : ℕ) (u : User F)
      → (check_user user_id port (some u) db).0 ≡ ok allowed
      → (user_range_verdict port u.allowed_port_range ≡ allowed)
        × ((check_user_count user_id u.max_port_count db).0 ≡ ok allowed)
  unfolding check_user
  check_user_sound db user_id port u e =
      elim (Verdict-cases (user_range_verdict port u.allowed_port_range)) [
        | inl fits ↦ (fits, rw (fits, check_user) at e)
        | inr (r, failed) ↦ absurd (cc (rw (failed, check_user) at e))
      ]

  -- If the check admits a port, whatever queries failed on the way, then the user exists, the range
  -- text (if there is one) holds the port, and the user has fewer proxies than the limit (if any), cast
  -- to an unsigned number of 64 bits: a negative limit is compared as 2 ^ 64 less its absolute value.
  pub validate_user_port_limit_sound :
      (db : Db F) (user_id port : ℕ)
      → (validate_user_port_limit user_id port db).0 ≡ ok allowed
      → UserAllows db user_id port
  unfolding validate_user_port_limit query
  validate_user_port_limit_sound db user_id port e = elim (Bool-cases (fails_now db)) [
    | inl fails ↦ absurd (ground arith)
    | inr works ↦ elim (Option-cases (find (λ (u : User F). u.id) user_id db.users)) [
      | inl missing ↦ absurd (unfold check_user in ground arith)
      | inr (u, found) ↦
          let passed : (check_user user_id port (some u) (past db)).0 ≡ ok allowed =
            rw (works, found) at e in
          let (fits, counted) = check_user_sound (past db) user_id port u passed in
          record {
            user = u;
            listed = found;
            ranged = λ text. user_range_sound port u.allowed_port_range text fits;
            room = λ most. check_user_count_sound (past db) user_id u.max_port_count most counted;
          }
    ]
  ]

  check_user_count_complete :
      (db : Db F) (user_id : ℕ) (limit : Option ℤ)
      → db.faults ≡ []
      → ((most : ℤ) → limit ≡ some most → port_count db user_id < as_u64 most)
      → (check_user_count user_id limit db).0 ≡ ok allowed
  unfolding check_user_count query
  check_user_count_complete db user_id none h r = refl
  check_user_count_complete db user_id (some most) h r = rw h (rw (lt→not_leb _ _ (r most refl)))

  check_user_complete :
      (db : Db F) (user_id port : ℕ) (u : User F)
      → user_range_verdict port u.allowed_port_range ≡ allowed
      → (check_user_count user_id u.max_port_count db).0 ≡ ok allowed
      → (check_user user_id port (some u) db).0 ≡ ok allowed
  unfolding check_user
  check_user_complete db user_id port u fits counted = rw (fits, check_user) counted

  validate_user_run :
      (db : Db F) (user_id port : ℕ)
      → db.faults ≡ []
      → validate_user_port_limit user_id port db
        ≡ check_user user_id port (find (λ (u : User F). u.id) user_id db.users) (past db)
  unfolding validate_user_port_limit query
  validate_user_run db user_id port h = ground arith

  -- If no query fails, the check admits every port that the user's limits allow.
  pub validate_user_port_limit_complete :
      (db : Db F) (user_id port : ℕ)
      → db.faults ≡ []
      → UserAllows db user_id port
      → (validate_user_port_limit user_id port db).0 ≡ ok allowed
  validate_user_port_limit_complete db user_id port h a =
      let fits = user_range_complete port a.user.allowed_port_range a.ranged in
      let counted =
        check_user_count_complete (past db) user_id a.user.max_port_count (rw h) a.room in
      rw (validate_user_run db user_id port h, a.listed)
        (check_user_complete (past db) user_id port a.user fits counted)
