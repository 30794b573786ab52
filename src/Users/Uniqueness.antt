-- ===== src/Users/Uniqueness.antt =====
-- The handlers keep the names of the users apart, whichever queries fail.
use oxiproxy.Prelude.{
  ℕ, ◌≡◌, refl, ◌∙◌, false, not, Option, none, some, List, [], ◌∷◌, ◌++◌, String, ◌==◌, any,
}
use oxiproxy.Prelude.Time.{DateTime}
use oxiproxy.Store.{User, Proxy, Db}
use oxiproxy.Handlers.{AuthUser, World}
use oxiproxy.Handlers.Reading.{
  Reads, reading, require-Reads, or_reject-Reads, from_result-Reads, return-Reads,
}
use oxiproxy.Handlers.Yielding.{Yields, learn-Yields, query-Yields}
use oxiproxy.Handlers.Leaving.{
  Leaves, bind-Leaves, then-Leaves, skip-Leaves, chain_then-Leaves, chain-Leaves, control-Leaves,
  write-Leaves, Reads-Leaves, weaken-Leaves,
}
use oxiproxy.Proxies.Updates.{or_old}
use oxiproxy.Users.{
  CreateUserRequest, UpdateUserRequest, Defaults, name_taken, taken_by_other, new_user, insert_user,
  create_user, check_username, changed_user, change_user, update_user, stop_each, without_user,
  delete_user,
}
use oxiproxy.Store.Looking.{still}
use oxiproxy.Users.Guards.{
  IsAdmin, admin_only-Reads, admin_only-Yields, read_user-Reads, absent-Yields,
}
use oxiproxy.Users.Naming.{
  NamedOnce, IsFreeName, NamedOnce-append, NamedOnce-filter, NamedOnce-update_row,
}

-- What is relied on of the database: a new row's key is new.
abbrev pub GivesNewKeys : {F : Type 0} → (List (User F) → ℕ) → Type 0
GivesNewKeys {F} next_key =
    (us : List (User F)) → any (λ (v : User F). v.id == next_key us) us ≡ false

module _ {F : Type 0} where
  abbrev AllNamed : Db F → Type 0
  AllNamed db = NamedOnce db.users

  module _ (next_key : List (User F) → ℕ) (new_keys : GivesNewKeys next_key) where
    insert_user-Leaves :
        (req : CreateUserRequest F) (defaults : Defaults F) (password_hash : String)
        (now : DateTime)
        → Leaves
            (λ db. AllNamed db × (name_taken req.username db.users ≡ false))
            AllNamed
            (insert_user next_key (new_user defaults req password_hash now))
    unfolding insert_user new_user
    insert_user-Leaves req defaults password_hash now =
        write-Leaves _ AllNamed _ (λ db. refl) (λ db q. q.0) (λ db q. appended db q.0 q.1)
      where
        appended :
            (db : Db F)
            → NamedOnce db.users
            → name_taken req.username db.users ≡ false
            → NamedOnce
                (db.users ++ (new_user defaults req password_hash now (next_key db.users) ∷ []))
        appended db h free =
            NamedOnce-append (new_user defaults req password_hash now (next_key db.users)) db.users
              (new_keys db.users) free h

    create_user-Leaves :
        (hash : String → Option String) (random : String) (now : DateTime) (defaults : Defaults F)
        (caller : Option AuthUser) (req : CreateUserRequest F)
        → Leaves AllNamed AllNamed (create_user hash random next_key now defaults caller req)
    unfolding create_user
    create_user-Leaves hash random now defaults caller req =
        then-Leaves _ _ (λ _. IsAdmin caller) _ _ (λ db h. h) (admin_only-Reads caller)
          (admin_only-Yields caller)
          (bind-Leaves _ _ (λ b db. name_taken req.username db.users ≡ b) _ _ (λ db q. q.0)
            (search reading) (query-Yields (λ db. name_taken req.username db.users) (λ db. refl))
            (λ taken.
              then-Leaves _ _ (λ _. taken ≡ false) _ _ (λ db q. q.0.0)
                (require-Reads (not taken) 409) (absent-Yields taken 409)
                (skip-Leaves _ _ _ _ (λ db q. q.0.0.0) (or_reject-Reads _ 500)
                  (λ password_hash.
                    chain_then-Leaves _ AllNamed _ _ _ (λ db h. h)
                      (weaken-Leaves _ _ _ _ (λ db q. (q.0.0.0, q.0.1 ∙ q.1))
                        (insert_user-Leaves req defaults password_hash now))
                      (Reads-Leaves _ _ _ (λ db h. h) (return-Reads _))))))

  check_username-Reads : (id : ℕ) (o : Option String) → Reads (check_username {F = F} id o)
  check_username-Reads id none = search reading
  check_username-Reads id (some name) = search reading

  check_username-Yields :
      (id : ℕ) (o : Option String)
      → Yields (λ _ w. IsFreeName id o (still w.db).users) (check_username {F = F} id o)
  check_username-Yields id none = record { after = λ w w1 a e. tt }
  check_username-Yields id (some name) =
      learn-Yields (λ b w. taken_by_other id name w.db.users ≡ b) _
        (query-Yields (λ db. taken_by_other id name db.users) (λ db. refl)) _ _
        (λ b. require-Reads (not b) 409)
        (λ b. record { after = λ w w1 a e same. same ∙ (absent-Yields b 409).after w w1 a e })

  change_user-Leaves :
      (id : ℕ) (o : Option String) (f : User F → User F)
      → ((u : User F) → (f u).id ≡ u.id)
      → ((u : User F) → (f u).username ≡ or_old o u.username)
      → Leaves (λ db. AllNamed db × IsFreeName id o db.users) AllNamed (change_user id f)
  unfolding change_user
  change_user-Leaves id o f keeps renames =
      write-Leaves _ AllNamed _ (λ db. refl) (λ db q. q.0)
        (λ db q. NamedOnce-update_row id o f keeps renames db.users q.1 q.0)

  update_user-Leaves :
      (hash : String → Option String) (now : DateTime) (caller : Option AuthUser) (id : ℕ)
      (req : UpdateUserRequest F)
      → Leaves AllNamed AllNamed (update_user hash now caller id req)
  unfolding update_user
  update_user-Leaves hash now caller id req =
      then-Leaves _ _ (λ _. IsAdmin caller) _ _ (λ db h. h) (admin_only-Reads caller)
        (admin_only-Yields caller)
        (skip-Leaves _ _ _ _ (λ db q. q.0) (read_user-Reads id)
          (λ user.
            then-Leaves _ _ (λ db. IsFreeName id req.username db.users) _ _ (λ db q. q.0)
              (check_username-Reads id req.username) (check_username-Yields id req.username)
              (skip-Leaves _ _ _ _ (λ db q. q.0.0) (or_reject-Reads _ 500)
                (λ password_hash.
                  skip-Leaves _ _ _ _ (λ db q. q.0.0) (from_result-Reads _)
                    (λ range.
                      weaken-Leaves _ _ _ _ (λ db q. (q.0.0, q.1))
                        (change_user-Leaves id req.username
                          (changed_user req password_hash range now) (λ u. refl) (λ u. refl)))))))

  stop_each-Leaves : (ps : List Proxy) → Leaves AllNamed AllNamed (stop_each ps)
  unfolding stop_each
  stop_each-Leaves [] = Reads-Leaves _ _ _ (λ db h. h) (return-Reads tt)
  stop_each-Leaves (p ∷ ps) =
      chain-Leaves _ AllNamed _ _ _ (λ db h. h) (control-Leaves _ _) (λ _. stop_each-Leaves ps)

  delete_user-Leaves :
      (caller : Option AuthUser) (id : ℕ) → Leaves AllNamed AllNamed (delete_user caller id)
  unfolding delete_user without_user
  delete_user-Leaves caller id =
      then-Leaves _ _ (λ _. IsAdmin caller) _ _ (λ db h. h) (admin_only-Reads caller)
        (admin_only-Yields caller)
        (skip-Leaves _ _ _ _ (λ db q. q.0) (search reading)
          (λ direct.
            chain_then-Leaves _ AllNamed _ _ _ (λ db h. h)
              (weaken-Leaves _ AllNamed _ _ (λ db q. q.0) (stop_each-Leaves direct))
              (write-Leaves AllNamed AllNamed (without_user id) (λ db. refl) (λ db h. h)
                (λ db h. NamedOnce-filter (λ (u : User F). not (u.id == id)) db.users h))))

-- A request about users, with what the server adds to it.
pub data UserRequest (F : Type 0) : Type 0 where
  create : String → DateTime → Defaults F → Option AuthUser → CreateUserRequest F → UserRequest F
  update : DateTime → Option AuthUser → ℕ → UpdateUserRequest F → UserRequest F
  delete : Option AuthUser → ℕ → UserRequest F

module _ {F : Type 0} (hash : String → Option String) (next_key : List (User F) → ℕ) where
  unfoldable pub answer_user : UserRequest F → World F → World F
  answer_user (create random now defaults caller req) w =
      (create_user hash random next_key now defaults caller req w).1
  answer_user (update now caller id req) w = (update_user hash now caller id req w).1
  answer_user (delete caller id) w = (delete_user caller id w).1

  unfoldable pub answer_users : List (UserRequest F) → World F → World F
  answer_users [] w = w
  answer_users (r ∷ rs) w = answer_users rs (answer_user r w)

  answer_user-NamedOnce :
      (r : UserRequest F) (w : World F)
      → GivesNewKeys next_key
      → NamedOnce w.db.users
      → NamedOnce (answer_user r w).db.users
  unfolding answer_user
  answer_user-NamedOnce (create random now defaults caller req) w new_keys h =
      (create_user-Leaves next_key new_keys hash random now defaults caller req).run w h
  answer_user-NamedOnce (update now caller id req) w new_keys h =
      (update_user-Leaves hash now caller id req).run w h
  answer_user-NamedOnce (delete caller id) w new_keys h = (delete_user-Leaves caller id).run w h

  -- Where the key of a new row is new: if the keys and the names of the users are each one user's,
  -- then so they are after any series of creations, updates and deletions of users, whoever asks and
  -- whichever queries fail.
  pub users_stay_named :
      (rs : List (UserRequest F)) (w : World F)
      → GivesNewKeys next_key
      → NamedOnce w.db.users
      → NamedOnce (answer_users rs w).db.users
  unfolding answer_users
  users_stay_named [] w new_keys h = h
  users_stay_named (r ∷ rs) w new_keys h =
      users_stay_named rs (answer_user r w) new_keys (answer_user-NamedOnce r w new_keys h)
