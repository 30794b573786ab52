-- ===== src/Users/Assigning.antt =====
-- When a node is given to a user, and that no user has a node twice.
use oxiproxy.Prelude.{
  ℕ, ◌≡◌, refl, subst, ap, ◌∙◌, ◌⊎◌, inl, inr, true, false, not, Option, none, some, List, [], ◌∷◌,
  ◌++◌, str_eq, ==_iff, any, length, arith,
}
use oxiproxy.Prelude.Int.{ℤ}
use oxiproxy.Prelude.Time.{DateTime}
use oxiproxy.Store.{User, Node, UserNode, Db}
use oxiproxy.Store.Rows.{find}
use oxiproxy.Store.Looking.{still}
use oxiproxy.Limits.{get_user_final_quota}
use oxiproxy.Handlers.{AuthUser, World}
use oxiproxy.Handlers.Reading.{Reads, reading, require-Reads}
use oxiproxy.Handlers.Yielding.{Yields, lookup-Yields, learn-Yields, query-Yields, require-Yields}
use oxiproxy.Handlers.Leaving.{weaken-Leaves, Leaves, bind-Leaves, then-Leaves, write-Leaves}
use oxiproxy.Users.Guards.{
  IsAdmin, passed, admin_only-Reads, admin_only-Yields, read_user-Reads, read_user-Yields,
  absent-Yields,
}
use oxiproxy.Users.Nodes.{
  is_link, links_of, reaches_count, read_node, check_count, insert_link, assign_node_to_user,
}

-- The user may have one node more.
abbrev pub HasRoom : ℕ → Option ℤ → List UserNode → Type 0
HasRoom user_id none links = Unit
HasRoom user_id (some most) links = reaches_count (length (links_of user_id links)) most ≡ false

module _ {F : Type 0} where
  read_node-Reads : (id : ℕ) → Reads (read_node {F = F} id)
  unfolding read_node
  read_node-Reads id = search reading

  read_node-Yields :
      (id : ℕ)
      → Yields (λ n w. find (λ (v : Node F). v.id) id (still w.db).nodes ≡ some n) (read_node id)
  unfolding read_node
  read_node-Yields id = record {
    after = (lookup-Yields (λ db. find (λ (v : Node F). v.id) id db.nodes) 404 (λ db. refl)).after;
  }

  check_count-Reads : (user_id : ℕ) (o : Option ℤ) → Reads (check_count {F = F} user_id o)
  check_count-Reads user_id none = search reading
  check_count-Reads user_id (some most) = search reading

  check_count-Yields :
      (user_id : ℕ) (o : Option ℤ)
      → Yields (λ _ w. HasRoom user_id o (still w.db).user_nodes) (check_count {F = F} user_id o)
  check_count-Yields user_id none = record { after = λ w w1 a e. tt }
  check_count-Yields user_id (some most) =
      learn-Yields (λ n w. length (links_of user_id w.db.user_nodes) ≡ n) _
        (query-Yields (λ db. length (links_of user_id db.user_nodes)) (λ db. refl)) _ _
        (λ n. require-Reads (not (reaches_count n most)) 400)
        (λ n. record {
          after = λ w w1 a e same.
              ap (λ k. reaches_count k most) same
              ∙ passed (reaches_count n most)
                  ((require-Yields (not (reaches_count n most)) 400).after w w1 a e);
        })

  -- One link was added: by an administrator, for a user and a dedicated node that are there, were not
  -- linked before, and where the limit of the user allows one more.
  pub record Linked (caller : Option AuthUser) (user_id node_id : ℕ) (before after : Db F)
      : Type 0 where
    pub admin : IsAdmin caller
    pub user : User F
    pub user_found : find (λ (v : User F). v.id) user_id before.users ≡ some user
    pub node : Node F
    pub node_found : find (λ (v : Node F). v.id) node_id before.nodes ≡ some node
    pub dedicated : str_eq node.node_type "shared" ≡ false
    pub room : HasRoom user_id (get_user_final_quota user).2 before.user_nodes
    pub fresh : any (is_link user_id node_id) before.user_nodes ≡ false
    pub link : UserNode
    pub of_both : is_link user_id node_id link ≡ true
    pub added : after ≡ still (record before { user_nodes = before.user_nodes ++ (link ∷ []) })

  abbrev pub Unchanged : Db F → Db F → Type 0
  Unchanged before after = after ≡ before

  -- The tables are as before, or a link was added.
  abbrev pub MayLink : Option AuthUser → ℕ → ℕ → Db F → Db F → Type 0
  MayLink caller user_id node_id before after =
      (after ≡ before) ⊎ Linked caller user_id node_id before after

  module _ (next_key : List UserNode → ℕ) (now : DateTime) (caller : Option AuthUser)
      (user_id node_id : ℕ) (before : Db F) where
    -- What is known when the link is written.
    abbrev Known : User F → Node F → Db F → Type 0
    Known user node db =
        ((((((db ≡ before) × IsAdmin caller)
                × (find (λ (v : User F). v.id) user_id db.users ≡ some user))
              × (find (λ (v : Node F). v.id) node_id db.nodes ≡ some node))
            × (str_eq node.node_type "shared" ≡ false))
          × HasRoom user_id (get_user_final_quota user).2 db.user_nodes)
        × (any (is_link user_id node_id) db.user_nodes ≡ false)

    new_link : List UserNode → UserNode
    new_link links = record {
      id = next_key links;
      user_id = user_id;
      node_id = node_id;
      created_at = now;
    }

    linked :
        (user : User F) (node : Node F) (db : Db F)
        → Known user node db
        → Linked caller user_id node_id db
            (still (record db { user_nodes = db.user_nodes ++ (new_link db.user_nodes ∷ []) }))
    unfolding new_link
    linked user node db ((((((same, admin), user_found), node_found), dedicated), room), fresh) =
        record {
          admin = admin;
          user = user;
          user_found = user_found;
          node = node;
          node_found = node_found;
          dedicated = dedicated;
          room = room;
          fresh = fresh;
          link = new_link db.user_nodes;
          of_both = ground (arith, ==_iff user_id user_id, ==_iff node_id node_id);
          added = refl;
        }

    insert_link-Leaves :
        (user : User F) (node : Node F)
        → Leaves
            (Known user node)
            (MayLink caller user_id node_id before)
            (insert_link next_key user_id node_id now)
    unfolding insert_link new_link
    insert_link-Leaves user node =
        write-Leaves (Known user node) (MayLink caller user_id node_id before) _ (λ db. refl)
          (λ db known. inl known.0.0.0.0.0.0)
          (λ db known. inr (
            subst
              (λ b.
                Linked caller user_id node_id b (
                  still
                    (record db { user_nodes = db.user_nodes ++ (new_link db.user_nodes ∷ []) })))
              known.0.0.0.0.0.0 (linked user node db known)))

    assign_node-Leaves :
        Leaves
          (λ db. db ≡ before)
          (MayLink caller user_id node_id before)
          (assign_node_to_user next_key now caller user_id node_id)
    unfolding assign_node_to_user
    assign_node-Leaves =
        then-Leaves _ _ (λ _. IsAdmin caller) _ _ (λ db e. inl e) (admin_only-Reads caller)
          (admin_only-Yields caller)
          (bind-Leaves _ _ _ _ _ (λ db q. inl q.0) (read_user-Reads user_id)
            (read_user-Yields user_id)
            (λ user.
              bind-Leaves _ _ _ _ _ (λ db q. inl q.0.0) (read_node-Reads node_id)
                (read_node-Yields node_id)
                (λ node.
                  then-Leaves _ _ (λ _. str_eq node.node_type "shared" ≡ false) _ _
                    (λ db q. inl q.0.0.0) (require-Reads _ 400)
                    (absent-Yields (str_eq node.node_type "shared") 400)
                    (then-Leaves _ _
                      (λ db. HasRoom user_id (get_user_final_quota user).2 db.user_nodes) _ _
                      (λ db q. inl q.0.0.0.0)
                      (check_count-Reads user_id (get_user_final_quota user).2)
                      (check_count-Yields user_id (get_user_final_quota user).2)
                      (bind-Leaves _ _ (λ b db. any (is_link user_id node_id) db.user_nodes ≡ b) _ _
                        (λ db q. inl q.0.0.0.0.0) (search reading)
                        (query-Yields (λ db. any (is_link user_id node_id) db.user_nodes)
                          (λ db. refl))
                        (λ assigned.
                          then-Leaves _ _ (λ _. assigned ≡ false) _ _ (λ db q. inl q.0.0.0.0.0.0)
                            (require-Reads (not assigned) 409) (absent-Yields assigned 409)
                            (weaken-Leaves _ (Known user node) _ _ (λ db q. (q.0.0, q.0.1 ∙ q.1))
                              (insert_link-Leaves user node))))))))

  -- Whatever fails, an assignment either leaves the tables as they were, or adds one link of the user
  -- and the node: asked for by an administrator, the user and the node are there, the node is not a
  -- shared one, they were not linked before, and the user's links were below the user's limit, where
  -- there is one that is not negative.
  pub assign_node_lem :
      (next_key : List UserNode → ℕ) (now : DateTime) (caller : Option AuthUser)
      (user_id node_id : ℕ) (w : World F)
      → MayLink caller user_id node_id
          (still w.db)
          (still (assign_node_to_user next_key now caller user_id node_id w).1.db)
  assign_node_lem next_key now caller user_id node_id w =
      (assign_node-Leaves next_key now caller user_id node_id (still w.db)).run w refl
