-- ===== src/Users/Deleting.antt =====
-- What the deletion of a user tells the nodes and takes from the tables.
use oxiproxy.Prelude.{
  ℕ, ◌≡◌, refl, sym, ap, ◌∙◌, true, some, List, [], ◌∷◌, ◌++◌, append-nil, append_assoc, map,
  filter, ok, not, ◌&&◌, ◌==◌, any, opt_eq,
}
use oxiproxy.Store.{Proxy, Db}
use oxiproxy.Store.Queries.{query, write, later_faults, past}
use oxiproxy.Store.Looking.{still}
use oxiproxy.Handlers.{
  AuthUser, Call, stopped, is_some, World, act_then, ◌>>=◌, ◌>>◌, require, return, control, from_db,
  lifted,
}
use oxiproxy.Handlers.Reading.{settled}
use oxiproxy.Users.{admin_only, is_direct_of, stop_each, without_user, delete_user}

abbrev pub stop_of : Proxy → Call
stop_of p = stopped [] p.id

module _ {F : Type 0} where
  -- The world after the stops, each of which may be refused.
  abbrev told : List Proxy → World F → World F
  told [] w = w
  told (p ∷ ps) w =
      told ps (record w { calls = w.calls ++ (stop_of p ∷ []); refusals = later_faults w.refusals })

  stop_each-told : (ps : List Proxy) (w : World F) → stop_each ps w ≡ (ok tt, told ps w)
  unfolding stop_each return control ◌>>=◌
  stop_each-told [] w = refl
  stop_each-told (p ∷ ps) w =
      stop_each-told ps
        (record w { calls = w.calls ++ (stop_of p ∷ []); refusals = later_faults w.refusals })

  told_calls : (ps : List Proxy) (w : World F) → (told ps w).calls ≡ w.calls ++ map stop_of ps
  told_calls [] w = sym (append-nil w.calls)
  told_calls (p ∷ ps) w =
      told_calls ps
        (record w { calls = w.calls ++ (stop_of p ∷ []); refusals = later_faults w.refusals })
      ∙ append_assoc w.calls (stop_of p ∷ []) (map stop_of ps)

  told_db : (ps : List Proxy) (w : World F) → (told ps w).db ≡ w.db
  told_db [] w = refl
  told_db (p ∷ ps) w =
      told_db ps
        (record w { calls = w.calls ++ (stop_of p ∷ []); refusals = later_faults w.refusals })

  told_notified : (ps : List Proxy) (w : World F) → (told ps w).notified ≡ w.notified
  told_notified [] w = refl
  told_notified (p ∷ ps) w =
      told_notified ps
        (record w { calls = w.calls ++ (stop_of p ∷ []); refusals = later_faults w.refusals })

  written_calm :
      (f : Db F → Db F) (v : World F)
      → v.db.faults ≡ []
      → from_db (write f) v ≡ (ok tt, record v { db = f (past v.db) })
  unfolding from_db write
  written_calm f v calm = rw (calm, lifted) refl

  delete_user_run :
      (u : AuthUser) (id : ℕ) (w : World F)
      → u.is_admin ≡ true
      → delete_user (some u) id (settled w) ≡ (
        ok tt,
        record (told (filter (is_direct_of id) w.db.proxies) (settled w)) {
          db = without_user id (past (told (filter (is_direct_of id) w.db.proxies) (settled w)).db);
        },
      )
  unfolding delete_user admin_only ◌>>◌ ◌>>=◌ require from_db query
  delete_user_run u id w admin =
      let direct = filter (is_direct_of id) w.db.proxies in
      rw (admin, require)
        (ap (λ r. act_then r (λ _. from_db (write (without_user id))))
            (stop_each-told direct (settled w))
          ∙ written_calm (without_user id) (told direct (settled w))
              (ap (λ (db : Db F). db.faults) (told_db direct (settled w))))

  -- While the database works, an administrator's deletion of a user succeeds whether or not the nodes
  -- take the stops: it asks for the stop of each proxy that names the user and no client, in the
  -- order of the table, and of nothing else, and sends no configuration. It takes the rows of the
  -- users with the key, the proxies, links and subscriptions that name the user, and the daily
  -- traffic of those proxies; every other row of these tables stays, in its order, and the clients,
  -- the nodes and the plans all stay.
  pub delete_user_lem :
      (u : AuthUser) (id : ℕ) (w : World F)
      → u.is_admin ≡ true
      → let answer = delete_user (some u) id (settled w) in
        let owned = λ (p : Proxy). opt_eq p.user_id (some id) in
        (answer.0 ≡ ok tt)
        × (answer.1.calls
            ≡ w.calls
              ++ map stop_of (filter (λ p. not (is_some p.client_id) && owned p) w.db.proxies))
        × (answer.1.notified ≡ w.notified)
        × (answer.1.db.users ≡ filter (λ v. not (v.id == id)) w.db.users)
        × (answer.1.db.proxies ≡ filter (λ p. not (owned p)) w.db.proxies)
        × (answer.1.db.traffic_daily
            ≡ filter
                (λ t. not (any (λ p. owned p && p.id == t.proxy_id) w.db.proxies))
                w.db.traffic_daily)
        × (answer.1.db.user_nodes ≡ filter (λ a. not (a.user_id == id)) w.db.user_nodes)
        × (answer.1.db.user_clients ≡ filter (λ a. not (a.user_id == id)) w.db.user_clients)
        × (answer.1.db.user_subscriptions
            ≡ filter (λ s. not (s.user_id == id)) w.db.user_subscriptions)
        × (answer.1.db.clients ≡ w.db.clients)
        × (answer.1.db.nodes ≡ w.db.nodes)
        × (answer.1.db.subscriptions ≡ w.db.subscriptions)
  unfolding without_user
  delete_user_lem u id w admin =
      let direct = filter (is_direct_of id) w.db.proxies in
      let run = delete_user_run u id w admin in
      let db : (delete_user (some u) id (settled w)).1.db ≡ without_user id (still w.db) =
        ap (λ r. r.1.db) run
        ∙ ap (λ (d : Db F). without_user id (past d)) (told_db direct (settled w)) in
      (
        ap (λ r. r.0) run,
        ap (λ r. r.1.calls) run ∙ told_calls direct (settled w),
        ap (λ r. r.1.notified) run ∙ told_notified direct (settled w),
        ap (λ (d : Db F). d.users) db,
        ap (λ (d : Db F). d.proxies) db,
        ap (λ (d : Db F). d.traffic_daily) db,
        ap (λ (d : Db F). d.user_nodes) db,
        ap (λ (d : Db F). d.user_clients) db,
        ap (λ (d : Db F). d.user_subscriptions) db,
        ap (λ (d : Db F). d.clients) db,
        ap (λ (d : Db F). d.nodes) db,
        ap (λ (d : Db F). d.subscriptions) db,
      )
