-- ===== src/Limits/Looking.antt =====
-- The admission checks change no table.
use oxiproxy.Prelude.{
  ℕ, refl, inl, inr, Option, none, some, Bool-cases, opt_eq, map, filter, length,
}
use oxiproxy.Prelude.Int.{ℤ}
use oxiproxy.Store.{User, Client, Node, Db}
use oxiproxy.Store.Rows.{find}
use oxiproxy.Store.Queries.{query, return}
use oxiproxy.Store.Looking.{Looks, query-Looks, bind-Looks}
use oxiproxy.Limits.Users.{Verdict-cases}
use oxiproxy.Limits.{
  counts_for, uses_node, user_range_verdict, node_range_verdict, count_verdict, get_user_port_count,
  check_user_count, check_user, validate_user_port_limit, user_limit_info, get_user_port_limit_info,
  check_node_count, check_node, validate_node_proxy_limit_excluding, validate_node_proxy_limit,
}

module _ {F : Type 0} where
  get_user_port_count-Looks : (user_id : ℕ) → Looks (get_user_port_count {F = F} user_id)
  unfolding get_user_port_count
  get_user_port_count-Looks user_id =
      bind-Looks
        (query (λ db. filter (λ (c : Client F). opt_eq c.user_id (some user_id)) db.clients))
        (λ clients. query (λ db.
          length (filter (counts_for user_id (map (λ (c : Client F). c.id) clients)) db.proxies)))
        (query-Looks _) (λ clients. query-Looks _)

  check_user_count-Looks :
      (user_id : ℕ) (most : Option ℤ) → Looks (check_user_count {F = F} user_id most)
  unfolding check_user_count
  check_user_count-Looks user_id none = record { tables = λ db. refl; calm = λ db e. e }
  check_user_count-Looks user_id (some most) =
      bind-Looks (get_user_port_count user_id) (λ count. return (count_verdict count most))
        (get_user_port_count-Looks user_id)
        (λ count. record { tables = λ db. refl; calm = λ db e. e })

  check_user-Looks : (user_id port : ℕ) (u : Option (User F)) → Looks (check_user user_id port u)
  unfolding check_user
  check_user-Looks user_id port none = record { tables = λ db. refl; calm = λ db e. e }
  check_user-Looks user_id port (some u) =
      elim (Verdict-cases (user_range_verdict port u.allowed_port_range)) [
        | inl fits ↦ rw (fits, check_user) (check_user_count-Looks user_id u.max_port_count)
        | inr (r, failed) ↦
            rw (failed, check_user) (record { tables = λ db. refl; calm = λ db e. e })
      ]

  pub validate_user_port_limit-Looks :
      (user_id port : ℕ) → Looks (validate_user_port_limit {F = F} user_id port)
  unfolding validate_user_port_limit
  validate_user_port_limit-Looks user_id port =
      bind-Looks (query (λ db. find (λ (u : User F). u.id) user_id db.users))
        (check_user user_id port) (query-Looks _) (check_user-Looks user_id port)

  user_limit_info-Looks : (user_id : ℕ) (u : Option (User F)) → Looks (user_limit_info user_id u)
  unfolding user_limit_info
  user_limit_info-Looks user_id none = record { tables = λ db. refl; calm = λ db e. e }
  user_limit_info-Looks user_id (some u) =
      bind-Looks (get_user_port_count user_id)
        (λ count. return (u.max_port_count, u.allowed_port_range, count))
        (get_user_port_count-Looks user_id)
        (λ count. record { tables = λ db. refl; calm = λ db e. e })

  pub get_user_port_limit_info-Looks :
      (user_id : ℕ) → Looks (get_user_port_limit_info {F = F} user_id)
  unfolding get_user_port_limit_info
  get_user_port_limit_info-Looks user_id =
      bind-Looks (query (λ db. find (λ (u : User F). u.id) user_id db.users))
        (user_limit_info user_id) (query-Looks _) (user_limit_info-Looks user_id)

  check_node_count-Looks :
      (node_id exclude : ℕ) (most : Option ℤ)
      → Looks (check_node_count {F = F} node_id exclude most)
  unfolding check_node_count
  check_node_count-Looks node_id exclude none = record { tables = λ db. refl; calm = λ db e. e }
  check_node_count-Looks node_id exclude (some most) =
      bind-Looks (query (λ (db : Db F). length (filter (uses_node node_id exclude) db.proxies)))
        (λ count. return (count_verdict count most)) (query-Looks _)
        (λ count. record { tables = λ db. refl; calm = λ db e. e })

  check_node-Looks :
      (node_id port exclude : ℕ) (n : Option (Node F)) → Looks (check_node node_id port exclude n)
  unfolding check_node
  check_node-Looks node_id port exclude none = record { tables = λ db. refl; calm = λ db e. e }
  check_node-Looks node_id port exclude (some n) = elim (Bool-cases n.is_traffic_exceeded) [
    | inl over ↦ rw (over, check_node) (record { tables = λ db. refl; calm = λ db e. e })
    | inr within ↦ elim (Verdict-cases (node_range_verdict port n.allowed_port_range)) [
      | inl fits ↦
          rw (within, fits, check_node) (check_node_count-Looks node_id exclude n.max_proxy_count)
      | inr (r, failed) ↦
          rw (within, failed, check_node) (record { tables = λ db. refl; calm = λ db e. e })
    ]
  ]

  pub validate_node_proxy_limit_excluding-Looks :
      (node_id port exclude : ℕ)
      → Looks (validate_node_proxy_limit_excluding {F = F} node_id port exclude)
  unfolding validate_node_proxy_limit_excluding
  validate_node_proxy_limit_excluding-Looks node_id port exclude =
      bind-Looks (query (λ db. find (λ (n : Node F). n.id) node_id db.nodes))
        (check_node node_id port exclude) (query-Looks _) (check_node-Looks node_id port exclude)

  pub validate_node_proxy_limit-Looks :
      (node_id port : ℕ) → Looks (validate_node_proxy_limit {F = F} node_id port)
  unfolding validate_node_proxy_limit
  validate_node_proxy_limit-Looks node_id port =
      validate_node_proxy_limit_excluding-Looks node_id port 0
