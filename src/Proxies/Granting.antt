-- ===== src/Proxies/Granting.antt =====
-- The checks of `create_proxy` on the user's limits and on the node: what each one grants.
use oxiproxy.Prelude.{
  ℕ, ◌≡◌, refl, sym, ◌∙◌, inl, inr, true, false, not, ◌&&◌, Option, none, some, str_eq, filter,
  Bool-cases, ok,
}
use oxiproxy.Store.{Client, Node, UserNode, Db}
use oxiproxy.Store.Rows.{find}
use oxiproxy.Store.Queries.{M}
use oxiproxy.Store.Looking.{Looks, still}
use oxiproxy.Limits.{Verdict, allowed, denied, validate_user_port_limit, validate_node_proxy_limit}
use oxiproxy.Limits.Users.{UserAllows, validate_user_port_limit_sound}
use oxiproxy.Limits.Nodes.{NodeAllows, validate_node_proxy_limit_sound}
use oxiproxy.Limits.Looking.{validate_user_port_limit-Looks, validate_node_proxy_limit-Looks}
use oxiproxy.Handlers.{AuthUser, World, ◌>>=◌, return, reject, from_db}
use oxiproxy.Handlers.Reading.{reading}
use oxiproxy.Handlers.Yielding.{
  Yields, keep-Yields, learn-Yields, lookup-Yields, present-Yields, from_db-ok, require-Yields,
}
use oxiproxy.Proxies.{
  owns_client, is_assigned, first_of, judged, check_user_access, check_assigned, check_node_access,
  check_node_limit,
}
use oxiproxy.Proxies.Checking.{judged-Reads, check_assigned-Reads}

module _ {F : Type 0} where
  user_still :
      (db : Db F) (user_id port : ℕ)
      → UserAllows db user_id port
      → UserAllows (still db) user_id port
  user_still db user_id port h = record {
    user = h.user;
    listed = h.listed;
    ranged = h.ranged;
    room = h.room;
  }

  pub user_awake :
      (db : Db F) (user_id port : ℕ)
      → UserAllows (still db) user_id port
      → UserAllows db user_id port
  user_awake db user_id port h = record {
    user = h.user;
    listed = h.listed;
    ranged = h.ranged;
    room = h.room;
  }

  node_still :
      (db : Db F) (node_id port : ℕ)
      → NodeAllows db node_id port 0
      → NodeAllows (still db) node_id port 0
  node_still db node_id port h = record {
    node = h.node;
    listed = h.listed;
    in_quota = h.in_quota;
    ranged = h.ranged;
    room = h.room;
  }

  pub node_awake :
      (db : Db F) (node_id port : ℕ)
      → NodeAllows (still db) node_id port 0
      → NodeAllows db node_id port 0
  node_awake db node_id port h = record {
    node = h.node;
    listed = h.listed;
    in_quota = h.in_quota;
    ranged = h.ranged;
    room = h.room;
  }

  judged-Yields : (v : Verdict) → Yields (λ _ w. v ≡ allowed) (judged {F = F} v)
  unfolding reject
  judged-Yields allowed = record { after = λ w w1 a e. refl }
  judged-Yields (denied r) = record { after = λ w w1 a e. absurd (cc) }

  pub returned_same : {A : Type 0} (a b : A) (w w1 : World F) → return a w ≡ (ok b, w1) → b ≡ a
  unfolding return
  returned_same a b w w1 e = cc

  -- A check of the limits that is answered with a 403.
  limit-Yields {ℓ} :
      (m : M F Verdict) (S : Db F → Type ℓ)
      → Looks m
      → ((db : Db F) → (m db).0 ≡ ok allowed → S (still db))
      → Yields (λ _ w. S (still w.db)) (do verdict ← from_db m; judged verdict)
  limit-Yields m S looks sound =
      learn-Yields (λ v w. v ≡ allowed → S w.db) (from_db m)
        (record {
          after = λ w w1 v e allows.
              let (answer, after) = from_db-ok m w w1 v e in
              let back : still w1.db ≡ still w.db = rw after at (looks.tables w.db) in
              rw back (sound w.db (rw allows at answer));
        })
        (λ _ w. S (still w.db)) judged judged-Reads
        (λ v. record { after = λ w w1 a e h. h ((judged-Yields v).after w w1 a e) })

  pub check_user_access-Yields :
      (u : AuthUser) (client : Option (Client F)) (port : ℕ)
      → Yields
          (λ _ w.
            u.is_admin ≡ false → (owns_client u client ≡ true) × UserAllows (still w.db) u.id port)
          (check_user_access u client port)
  unfolding check_user_access
  check_user_access-Yields u client port = elim (Bool-cases u.is_admin) [
    | inl admin ↦ rw admin (record { after = λ w w1 a e not_admin. absurd (cc) })
    | inr plain ↦ rw plain (
        keep-Yields (λ w. owns_client u client ≡ true) _ (require-Yields _ 403) _ _
          (search (reading, validate_user_port_limit-Looks, judged-Reads))
          (record {
            after = λ w w1 a e owns _. (
              owns,
              (limit-Yields (validate_user_port_limit u.id port) (λ db. UserAllows db u.id port)
                    (validate_user_port_limit-Looks u.id port)
                    (λ db allows.
                      user_still db u.id port
                        (validate_user_port_limit_sound db u.id port allows))).after
                  w w1 a e,
            );
          }))
  ]

  -- The node is there, and is assigned to the user if it is a dedicated one.
  pub record Assigned (db : Db F) (u : AuthUser) (node_id : ℕ) : Type 0 where
    pub node : Node F
    pub listed : find (λ (n : Node F). n.id) node_id db.nodes ≡ some node
    pub assigned :
        (str_eq node.node_type "dedicated" && not u.is_admin) ≡ true
        → (a : UserNode) × (first_of (filter (is_assigned u.id node_id) db.user_nodes) ≡ some a)

  check_assigned-Yields :
      (u : AuthUser) (node_id : ℕ) (node : Node F)
      → Yields
          (λ _ w.
            (str_eq node.node_type "dedicated" && not u.is_admin) ≡ true
            → (a : UserNode) × (first_of (filter (is_assigned u.id node_id) w.db.user_nodes)
                ≡ some a))
          (check_assigned u node_id node)
  check_assigned-Yields u node_id node =
      elim (Bool-cases (str_eq node.node_type "dedicated" && not u.is_admin)) [
        | inl only ↦ rw only (record {
          after = λ w w1 a e _.
              (present-Yields (λ db. first_of (filter (is_assigned u.id node_id) db.user_nodes)) 403
                  (λ db. refl)).after
                w w1 a e;
        })
        | inr open_to_all ↦ record { after = λ w w1 a e only. absurd (cc (sym open_to_all ∙ only)) }
      ]

  check_node_access-Yields :
      (u : AuthUser) (node_id : ℕ)
      → Yields (λ _ w. Assigned (still w.db) u node_id) (check_node_access u (some node_id))
  unfolding check_node_access
  check_node_access-Yields u node_id =
      learn-Yields (λ node w. find (λ (n : Node F). n.id) node_id w.db.nodes ≡ some node) _
        (lookup-Yields (λ db. find (λ (n : Node F). n.id) node_id db.nodes) 404 (λ db. refl)) _ _
        (check_assigned-Reads u node_id)
        (λ node. record {
          after = λ w w1 a e listed. record {
            node = node;
            listed = listed;
            assigned = (check_assigned-Yields u node_id node).after w w1 a e;
          };
        })

  check_node_limit-Yields :
      (node_id port : ℕ)
      → Yields
          (λ _ (w : World F). NodeAllows (still w.db) node_id port 0)
          (check_node_limit (some node_id) port)
  unfolding check_node_limit validate_node_proxy_limit
  check_node_limit-Yields node_id port =
      limit-Yields (validate_node_proxy_limit node_id port) (λ db. NodeAllows db node_id port 0)
        (validate_node_proxy_limit-Looks node_id port)
        (λ db allows.
          node_still db node_id port (validate_node_proxy_limit_sound db node_id port 0 allows))

  pub node_access :
      (u : AuthUser) (o : Option ℕ)
      → Yields (λ _ w. (n : ℕ) → o ≡ some n → Assigned (still w.db) u n) (check_node_access u o)
  node_access u none = record { after = λ w w1 a e n impossible. absurd (cc) }
  node_access u (some k) = record {
    after = λ w w1 a e n same.
        let there : k ≡ n = cc in rw there at ((check_node_access-Yields u k).after w w1 a e);
  }

  pub node_limit :
      (port : ℕ) (o : Option ℕ)
      → Yields
          (λ _ (w : World F). (n : ℕ) → o ≡ some n → NodeAllows (still w.db) n port 0)
          (check_node_limit o port)
  node_limit port none = record { after = λ w w1 a e n impossible. absurd (cc) }
  node_limit port (some k) = record {
    after = λ w w1 a e n same.
        let there : k ≡ n = cc in rw there at ((check_node_limit-Yields k port).after w w1 a e);
  }
