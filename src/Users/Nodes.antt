-- ===== src/Users/Nodes.antt =====
-- Which dedicated nodes a user may use: assignment, removal and the list.
use oxiproxy.Prelude.{
  ℕ, Bool, false, not, ◌&&◌, Option, none, some, List, [], ◌∷◌, ◌++◌, str_eq, ◌==◌, ltb, any,
  filter, length, if◌then◌else◌, ok, err,
}
use oxiproxy.Prelude.Int.{ℤ, pos, negsuc}
use oxiproxy.Prelude.Time.{DateTime}
use oxiproxy.Store.{Node, UserNode, Db}
use oxiproxy.Store.Rows.{find}
use oxiproxy.Store.Queries.{M, db_error, query, write, fails_now, past}
use oxiproxy.Limits.{get_user_final_quota}
use oxiproxy.Handlers.{AuthUser, Act, ◌>>=◌, ◌>>◌, return, require, or_reject, from_db}
use oxiproxy.Sessions.{Streams, node_table, apply_online_status}
use oxiproxy.Users.{admin_only, read_user}

abbrev pub is_link : ℕ → ℕ → UserNode → Bool
is_link user_id node_id a = a.user_id == user_id && a.node_id == node_id

abbrev pub links_of : ℕ → List UserNode → List UserNode
links_of user_id links = filter (λ (a : UserNode). a.user_id == user_id) links

-- `count >= max as u64`: a negative number is a huge one.
abbrev pub reaches_count : ℕ → ℤ → Bool
reaches_count n (pos most) = not (ltb n most)
reaches_count n (negsuc k) = false

-- The nodes of the assignments, a missing node left out.
abbrev pub nodes_of : {F : Type 0} → List UserNode → List (Node F) → List (Node F)
nodes_of [] nodes = []
nodes_of {F} (a ∷ links) nodes = elim (find (λ (n : Node F). n.id) a.node_id nodes) [
  | none ↦ nodes_of links nodes
  | some n ↦ n ∷ nodes_of links nodes
]

module _ {F : Type 0} where
  unfoldable pub read_node : ℕ → Act F (Node F)
  read_node id = do
    found ← from_db (query (λ db. find (λ (n : Node F). n.id) id db.nodes))
    or_reject found 404

  abbrev pub check_count : ℕ → Option ℤ → Act F (Unit {0})
  check_count user_id none = return tt
  check_count user_id (some most) = do
    count ← from_db (query (λ db. length (links_of user_id db.user_nodes)))
    require (not (reaches_count count most)) 400

  unfoldable pub insert_link : (List UserNode → ℕ) → ℕ → ℕ → DateTime → Act F (Unit {0})
  insert_link next_key user_id node_id now = from_db (
      write (λ db. record db {
        user_nodes =
            db.user_nodes
            ++ (record {
              id = next_key db.user_nodes;
              user_id = user_id;
              node_id = node_id;
              created_at = now;
            }
                ∷ []);
      }))

  unfoldable pub assign_node_to_user :
      (List UserNode → ℕ) → DateTime → Option AuthUser → ℕ → ℕ → Act F (Unit {0})
  unfolding read_node insert_link
  assign_node_to_user next_key now caller user_id node_id = do
    admin_only caller
    user ← read_user user_id
    node ← read_node node_id
    require (not (str_eq node.node_type "shared")) 400
    check_count user_id (get_user_final_quota user).2
    assigned ← from_db (query (λ db. any (is_link user_id node_id) db.user_nodes))
    require (not assigned) 409
    insert_link next_key user_id node_id now

  -- A deletion that tells what it reads of the tables before it.
  unfoldable pub deleting : {A : Type 0} → (Db F → A) → (Db F → Db F) → M F A
  deleting read change db =
      if fails_now db then (err db_error, past db) else (ok (read db), change (past db))

  abbrev pub unlinked : ℕ → ℕ → Db F → Db F
  unlinked user_id node_id db = record db {
    user_nodes = filter (λ a. not (is_link user_id node_id a)) db.user_nodes;
  }

  -- The deletion tells how many rows it affected.
  unfoldable pub remove_node_from_user : Option AuthUser → ℕ → ℕ → Act F (Unit {0})
  remove_node_from_user caller user_id node_id = do
    admin_only caller
    affected ←
        from_db
          (deleting (λ db. any (is_link user_id node_id) db.user_nodes) (unlinked user_id node_id))
    require affected 404

  -- The nodes as the streams say that they are online.
  unfoldable pub get_user_nodes : (ℕ → Bool) → Streams → Option AuthUser → ℕ → Act F (List (Node F))
  get_user_nodes closed streams caller user_id = do
    admin_only caller
    nodes ← from_db (query (λ db. nodes_of (links_of user_id db.user_nodes) db.nodes))
    return (apply_online_status node_table closed streams nodes)
