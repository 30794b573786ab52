-- ===== src/Handlers.antt =====
-- What the REST handlers of the controller share: the caller, the world that a handler changes, early
-- returns with a status code, and the ownership checks of controller/src/api/handlers/mod.rs.
-- The proxy control of the application's state is a trait object: its calls are recorded in order, and
-- `refusals` says which of the coming ones return an error (an empty list: none does). `notified`
-- are the clients whose new configuration the handler asked to be sent.
pub mod Reading
pub mod Yielding
pub mod Keeping
pub mod Ending
pub mod Leaving
use oxiproxy.Prelude.{
  ℕ, zero, suc, ◌+◌, ◌-◌, ◌*◌, ◌^◌, Bool, true, false, not, ◌&&◌, ◌||◌, Option, none, some, List,
  [], ◌∷◌, ◌++◌, String, str_eq, Text, ltb, ◌==◌, opt_eq, if◌then◌else◌, is_empty, filter,
  is_ascii_digit, Result, ok, err,
}
use oxiproxy.Prelude.Int.{ℤ, pos, negsuc}
use oxiproxy.Store.{Client, Proxy, Db}
use oxiproxy.Store.Rows.{find}
use oxiproxy.Store.Queries.{M, Error, query, logged, next_fault, later_faults}

pub record AuthUser : Type 0 where
  pub id : ℕ
  pub username : String
  pub is_admin : Bool

pub data Call : Type 0 where
  started : Text → ℕ → Call
  stopped : Text → ℕ → Call

pub record World (F : Type 0) : Type 0 where
  pub db : Db F
  pub calls : List Call
  pub refusals : List Bool
  pub notified : List Text

-- An error is the status code of the reply.
abbrev pub Act : Type 0 → Type 0 → Type 0
Act F A = World F → Result ℕ A × World F

-- The digits of `str::parse::<i64>`, up to `most`.
pub digits_upto : ℕ → ℕ → Text → Option ℕ
digits_upto most n [] = some n
digits_upto most n (c ∷ s) =
    let next = n * 10 + (c - b'0') in
    let rest = digits_upto most next s in
    if is_ascii_digit c && ltb next (suc most) then rest else none

abbrev minus : Option ℕ → Option ℤ
minus none = none
minus (some zero) = some (pos zero)
minus (some (suc n)) = some (negsuc n)

abbrev plus : Option ℕ → Option ℤ
plus none = none
plus (some n) = some (pos n)

abbrev signed : ℕ → ℕ → Text → Option ℤ
signed c d s =
    if c == b'-'
    then minus (digits_upto (2 ^ 63) 0 (d ∷ s))
    else (if c == b'+'
        then plus (digits_upto (2 ^ 63 - 1) 0 (d ∷ s))
        else plus (digits_upto (2 ^ 63 - 1) 0 (c ∷ d ∷ s)))

-- `str::parse::<i64>`: an optional sign, then at least one digit.
unfoldable pub parse_i64 : Text → Option ℤ
unfolding digits_upto
parse_i64 [] = none
parse_i64 (c ∷ []) = plus (digits_upto (2 ^ 63 - 1) 0 (c ∷ []))
parse_i64 (c ∷ d ∷ s) = signed c d s

abbrev pub or_empty : Option Text → Text
or_empty none = []
or_empty (some s) = s

abbrev pub is_some {ℓ} : {A : Type ℓ} → Option A → Bool
is_some none = false
is_some (some a) = true

abbrev pub in_group : String → Proxy → Bool
in_group group p = elim p.group_id [ none ↦ false | some g ↦ str_eq g group ]

module _ {F : Type 0} where
  abbrev pub act_then : {A B : Type 0} → Result ℕ A × World F → (A → Act F B) → Result ℕ B × World F
  act_then (ok a, w) k = k a w
  act_then (err e, w) k = (err e, w)

  infixl 5 ◌>>=◌ ◌>>◌
  unfoldable pub ◌>>=◌ : {A B : Type 0} → Act F A → (A → Act F B) → Act F B
  ◌>>=◌ m k w = act_then (m w) k

  unfoldable pub ◌>>◌ : {B : Type 0} → Act F (Unit {0}) → Act F B → Act F B
  ◌>>◌ m k w = act_then (m w) (λ _. k)

  unfoldable pub return : {A : Type 0} → A → Act F A
  return a w = (ok a, w)

  unfoldable pub reject : {A : Type 0} → ℕ → Act F A
  reject code w = (err code, w)

  -- An early return unless the test holds.
  unfoldable pub require : Bool → ℕ → Act F (Unit {0})
  require true code w = (ok tt, w)
  require false code w = (err code, w)

  unfoldable pub or_reject : {A : Type 0} → Option A → ℕ → Act F A
  or_reject none code w = (err code, w)
  or_reject (some a) code w = (ok a, w)

  unfoldable pub from_result : {A : Type 0} → Result ℕ A → Act F A
  from_result r w = (r, w)

  abbrev pub lifted : {A : Type 0} → World F → Result Error A × Db F → Result ℕ A × World F
  lifted w (ok a, db) = (ok a, record w { db = db })
  lifted w (err e, db) = (err 500, record w { db = db })

  -- A query whose error is answered with 500.
  unfoldable pub from_db : {A : Type 0} → M F A → Act F A
  from_db m w = lifted w (m w.db)

  abbrev weighed : World F → Result Error Bool × Db F → Result ℕ Bool × World F
  weighed w (ok b, db) = (ok b, record w { db = db })
  weighed w (err e, db) = (ok false, record w { db = db })

  -- A query whose error is dropped: did it succeed.
  unfoldable pub tried : {A : Type 0} → M F A → Act F Bool
  tried m w = weighed w (logged m w.db)

  -- A call of the proxy control: did it succeed.
  unfoldable pub control : Call → Act F Bool
  control c w = (
    ok (not (next_fault w.refusals)),
    record w { calls = w.calls ++ c ∷ []; refusals = later_faults w.refusals },
  )

  unfoldable pub notify : Text → Act F (Unit {0})
  notify client_id w = (ok tt, record w { notified = w.notified ++ client_id ∷ [] })

  -- A client by the number in a request: a negative number is nobody's key.
  abbrev pub find_signed : ℤ → List (Client F) → Option (Client F)
  find_signed (pos n) cs = find (λ (c : Client F). c.id) n cs
  find_signed (negsuc n) cs = none

  unfoldable pub read_client : ℤ → Act F (Client F)
  read_client id = do
    client ← from_db (query (λ db. find_signed id db.clients))
    or_reject client 404

  unfoldable pub verify_client_ownership : AuthUser → ℤ → Act F (Client F)
  unfolding read_client
  verify_client_ownership u id = do
    client ← read_client id
    require (u.is_admin || opt_eq client.user_id (some u.id)) 403
    return client

  abbrev pub verify_owner : AuthUser → Proxy → Option Text → Act F (Unit {0})
  verify_owner u p none = require (opt_eq p.user_id (some u.id)) 403
  verify_owner u p (some client_id) = do
    id ← or_reject (parse_i64 client_id) 500
    client ← read_client id
    require (opt_eq client.user_id (some u.id)) 403

  unfoldable pub verify_proxy_ownership : AuthUser → Proxy → Act F (Unit {0})
  unfolding read_client
  verify_proxy_ownership u p = if u.is_admin then return tt else verify_owner u p p.client_id

  abbrev pub verify_group : AuthUser → List Proxy → Act F (Proxy × List Proxy)
  verify_group u [] = reject 404
  verify_group u (p ∷ ps) = do
    if u.is_admin then return tt else verify_proxy_ownership u p
    return (p, ps)

  -- The group is not empty: its first proxy and the others.
  unfoldable pub verify_proxy_group_ownership : AuthUser → String → Act F (Proxy × List Proxy)
  unfolding verify_proxy_ownership
  verify_proxy_group_ownership u group = do
    ps ← from_db (query (λ db. filter (in_group group) db.proxies))
    verify_group u ps
