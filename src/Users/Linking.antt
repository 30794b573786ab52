-- ===== src/Users/Linking.antt =====
-- No user has a node twice, after any series of assignments and removals.
use oxiproxy.Prelude.{
  ℕ, ◌≡◌, refl, sym, subst, inl, inr, Bool, true, false, not, Option, List, [], ◌∷◌, ◌++◌, ==_iff,
  any, filter, arith, Bool-cases,
}
use oxiproxy.Prelude.Time.{DateTime}
use oxiproxy.Store.{UserNode, Db}
use oxiproxy.Store.Queries.{fails_now}
use oxiproxy.Handlers.{AuthUser, World, lifted, from_db}
use oxiproxy.Handlers.Reading.{require-Reads}
use oxiproxy.Handlers.Leaving.{Leaves, then-Leaves, chain-Leaves, Reads-Leaves}
use oxiproxy.Users.Guards.{IsAdmin, admin_only-Reads, admin_only-Yields}
use oxiproxy.Users.Nodes.{is_link, deleting, unlinked, assign_node_to_user, remove_node_from_user}
use oxiproxy.Users.Assigning.{assign_node_lem}

abbrev pub OnceEach : List UserNode → Type 0
OnceEach [] = Unit
OnceEach (a ∷ links) = (any (is_link a.user_id a.node_id) links ≡ false) × OnceEach links

any-append_one :
    (x : UserNode) (u n : ℕ) (links : List UserNode)
    → any (is_link u n) links ≡ false
    → is_link u n x ≡ false
    → any (is_link u n) (links ++ (x ∷ [])) ≡ false
any-append_one x u n [] e other = rw other refl
any-append_one x u n (b ∷ links) e other = ground (arith, any-append_one x u n links)

OnceEach-append :
    (u n : ℕ) (x : UserNode) (links : List UserNode)
    → any (is_link u n) links ≡ false
    → is_link u n x ≡ true
    → OnceEach links
    → OnceEach (links ++ (x ∷ []))
OnceEach-append u n x [] fresh own h = (refl, tt)
OnceEach-append u n x (a ∷ links) fresh own (first, h) = (
  any-append_one x a.user_id a.node_id links first (
      ground (
        arith,
        ==_iff x.user_id a.user_id,
        ==_iff x.node_id a.node_id,
        ==_iff x.user_id u,
        ==_iff x.node_id n,
        ==_iff a.user_id u,
        ==_iff a.node_id n,
      )),
  OnceEach-append u n x links (ground arith) own h,
)

any-filter :
    (p q : UserNode → Bool) (links : List UserNode)
    → any p links ≡ false
    → any p (filter q links) ≡ false
any-filter p q [] e = refl
any-filter p q (a ∷ links) e = ground (arith, any-filter p q links)

OnceEach-filter :
    (q : UserNode → Bool) (links : List UserNode) → OnceEach links → OnceEach (filter q links)
OnceEach-filter q [] h = tt
OnceEach-filter q (a ∷ links) (first, h) = elim (Bool-cases (q a)) [
  | inl stays ↦
      rw stays (any-filter (is_link a.user_id a.node_id) q links first, OnceEach-filter q links h)
  | inr goes ↦ rw goes (OnceEach-filter q links h)
]

-- A request about a user and a node.
pub data LinkRequest : Type 0 where
  assign remove : Option AuthUser → ℕ → ℕ → LinkRequest

module _ {F : Type 0} where
  abbrev LinkedOnce : Db F → Type 0
  LinkedOnce db = OnceEach db.user_nodes

  deleting-Leaves :
      (user_id node_id : ℕ)
      → Leaves LinkedOnce LinkedOnce (
          from_db (
            deleting
              (λ (db : Db F). any (is_link user_id node_id) db.user_nodes)
              (unlinked user_id node_id)))
  unfolding from_db deleting
  deleting-Leaves user_id node_id = record {
    run = λ w q. elim (Bool-cases (fails_now w.db)) [
      | inl fails ↦ rw (fails, lifted) q
      | inr works ↦
          rw (works, lifted)
            (OnceEach-filter (λ a. not (is_link user_id node_id a)) w.db.user_nodes q)
    ];
  }

  remove_node-Leaves :
      (caller : Option AuthUser) (user_id node_id : ℕ)
      → Leaves LinkedOnce LinkedOnce (remove_node_from_user {F = F} caller user_id node_id)
  unfolding remove_node_from_user
  remove_node-Leaves caller user_id node_id =
      then-Leaves _ _ (λ _. IsAdmin caller) _ _ (λ db h. h) (admin_only-Reads caller)
        (admin_only-Yields caller)
        (chain-Leaves _ LinkedOnce _ _ _ (λ db h. h)
          (record { run = λ w q. (deleting-Leaves user_id node_id).run w q.0 })
          (λ affected. Reads-Leaves _ _ _ (λ db h. h) (require-Reads affected 404)))

  module _ (next_key : List UserNode → ℕ) (now : DateTime) where
    unfoldable pub answer_link : LinkRequest → World F → World F
    answer_link (assign caller user_id node_id) w =
        (assign_node_to_user next_key now caller user_id node_id w).1
    answer_link (remove caller user_id node_id) w =
        (remove_node_from_user caller user_id node_id w).1

    unfoldable pub answer_links : List LinkRequest → World F → World F
    answer_links [] w = w
    answer_links (r ∷ rs) w = answer_links rs (answer_link r w)

    answer_link-OnceEach :
        (r : LinkRequest) (w : World F)
        → OnceEach w.db.user_nodes
        → OnceEach (answer_link r w).db.user_nodes
    unfolding answer_link
    answer_link-OnceEach (remove caller user_id node_id) w h =
        (remove_node-Leaves caller user_id node_id).run w h
    answer_link-OnceEach (assign caller user_id node_id) w h =
        elim (assign_node_lem next_key now caller user_id node_id w) [
          | inl same ↦ subst LinkedOnce (sym same) h
          | inr new ↦
              subst LinkedOnce (sym new.added)
                (OnceEach-append user_id node_id new.link w.db.user_nodes new.fresh new.of_both h)
        ]

    -- If no user has a node twice, then neither after any series of assignments and removals, whoever
    -- asks and whichever queries fail.
    pub links_stay_single :
        (rs : List LinkRequest) (w : World F)
        → OnceEach w.db.user_nodes
        → OnceEach (answer_links rs w).db.user_nodes
    unfolding answer_links
    links_stay_single [] w h = h
    links_stay_single (r ∷ rs) w h =
        links_stay_single rs (answer_link r w) (answer_link-OnceEach r w h)
