-- ===== src/Limits/Nodes.antt =====
-- What `validate_node_proxy_limit_excluding` admits.
use oxiproxy.Prelude.{
  ℕ, ◌<◌, ◌≡◌, inl, inr, false, Option, none, some, arith, Text, Bool-cases, is_empty, Option-cases,
  filter, length, ok,
}
use oxiproxy.Prelude.Int.{ℤ, as_u64}
use oxiproxy.Store.{Node, Db}
use oxiproxy.Store.Rows.{find}
use oxiproxy.Store.Queries.{query, fails_now, past}
use oxiproxy.Limits.{
  allowed, node_range_verdict, uses_node, check_node_count, check_node,
  validate_node_proxy_limit_excluding,
}
use oxiproxy.Limits.Users.{Permits, Verdict-cases, range_verdict_sound}

node_range_sound :
    (port : ℕ) (o : Option Text) (text : Text)
    → node_range_verdict port o ≡ allowed
    → o ≡ some text
    → is_empty text ≡ false
    → Permits text port
node_range_sound port none text e same filled = absurd (cc)
node_range_sound port (some t) text e same filled =
    let eq : t ≡ text = cc in
    let full : is_empty t ≡ false = rw eq filled in
    rw eq at (range_verdict_sound port t (rw full at e))

module _ {F : Type 0} where
  abbrev pub node_count : Db F → ℕ → ℕ → ℕ
  node_count db node_id exclude = length (filter (uses_node node_id exclude) db.proxies)

  pub record NodeAllows (db : Db F) (node_id port exclude : ℕ) : Type 0 where
    pub node : Node F
    pub listed : find (λ (n : Node F). n.id) node_id db.nodes ≡ some node
    pub in_quota : node.is_traffic_exceeded ≡ false
    pub ranged :
        (text : Text)
        → node.allowed_port_range ≡ some text
        → is_empty text ≡ false
        → Permits text port
    pub room :
        (most : ℤ) → node.max_proxy_count ≡ some most → node_count db node_id exclude < as_u64 most

  check_node_count_sound :
      (db : Db F) (node_id exclude : ℕ) (limit : Option ℤ) (most : ℤ)
      → (check_node_count node_id exclude limit db).0 ≡ ok allowed
      → limit ≡ some most
      → node_count db node_id exclude < as_u64 most
  unfolding check_node_count query
  check_node_count_sound db node_id exclude none most e same = absurd (cc)
  check_node_count_sound db node_id exclude (some n) most e same = ground arith

  check_node_sound :
      (db : Db F) (node_id port exclude : ℕ) (n : Node F)
      → (check_node node_id port exclude (some n) db).0 ≡ ok allowed
      → (n.is_traffic_exceeded ≡ false)
        × (node_range_verdict port n.allowed_port_range ≡ allowed)
        × ((check_node_count node_id exclude n.max_proxy_count db).0 ≡ ok allowed)
  unfolding check_node
  check_node_sound db node_id port exclude n e = elim (Bool-cases n.is_traffic_exceeded) [
    | inl over ↦ absurd (cc (rw (over, check_node) at e))
    | inr within ↦ elim (Verdict-cases (node_range_verdict port n.allowed_port_range)) [
      | inl fits ↦ (within, fits, rw (fits, check_node) at (rw (within, check_node) at e))
      | inr (r, failed) ↦ absurd (cc (rw (failed, check_node) at (rw (within, check_node) at e)))
    ]
  ]

  -- If the check admits a port, whatever queries failed on the way, then the node exists and is in
  -- its traffic quota, its range text (if there is one and it is not empty) holds the port, and it
  -- has fewer enabled proxies, the excluded one aside, than its limit (if any).
  pub validate_node_proxy_limit_sound :
      (db : Db F) (node_id port exclude : ℕ)
      → (validate_node_proxy_limit_excluding node_id port exclude db).0 ≡ ok allowed
      → NodeAllows db node_id port exclude
  unfolding validate_node_proxy_limit_excluding query
  validate_node_proxy_limit_sound db node_id port exclude e = elim (Bool-cases (fails_now db)) [
    | inl fails ↦ absurd (ground arith)
    | inr works ↦ elim (Option-cases (find (λ (n : Node F). n.id) node_id db.nodes)) [
      | inl missing ↦ absurd (unfold check_node in ground arith)
      | inr (n, found) ↦
          let passed : (check_node node_id port exclude (some n) (past db)).0 ≡ ok allowed =
            rw (works, found) at e in
          let (within, fits, counted) = check_node_sound (past db) node_id port exclude n passed in
          record {
            node = n;
            listed = found;
            in_quota = within;
            ranged = λ text. node_range_sound port n.allowed_port_range text fits;
            room = λ most.
                check_node_count_sound (past db) node_id exclude n.max_proxy_count most counted;
          }
    ]
  ]
