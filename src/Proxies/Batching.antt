-- ===== src/Proxies/Batching.antt =====
-- `batch_create_proxies` keeps the routes of the enabled proxies apart, whatever fails, if the ports of
-- the request differ.
use oxiproxy.Prelude.{
  ℕ, ◌≡◌, refl, sym, ap, ◌∙◌, subst, Bool, true, false, Option, none, some, List, [], ◌∷◌, ◌++◌,
  arith, Text, ◌==◌, opt_eq, any, map, All,
}
use oxiproxy.Store.{Proxy}
use oxiproxy.Store.Rows.{delete_row}
use oxiproxy.Handlers.{started, World, Act, ◌>>=◌, ◌>>◌, reject, tried, control}
use oxiproxy.Handlers.Reading.{reading}
use oxiproxy.Handlers.Yielding.{Yields}
use oxiproxy.Handlers.Keeping.{
  Turns, weaken-Turns, Reads-Turns, bind-Turns, then-Turns, tried-Turns, control-Turns, found-Turns,
  return-Turns,
}
use oxiproxy.Proxies.{give_key, remove_proxy}
use oxiproxy.Proxies.Routing.{NewKeys}
use oxiproxy.Proxies.Separate.{by_id, Apart, Separate, Separate-filter, Separate-append, All-both}
use oxiproxy.Proxies.Checking.{give_key-Reads}
use oxiproxy.Proxies.Batch.{
  Shared, batch_row, is_taken, for_each, take_back_one, take_back, create_rows,
}

abbrev pub Distinct : List ℕ → Type 0
Distinct [] = Unit
Distinct (x ∷ xs) = All (λ y. (x == y) ≡ false) xs × Distinct xs

abbrev pub IsFree : Option ℕ → List Proxy → ℕ → Type 0
IsFree node_id ps port = any (is_taken node_id port) ps ≡ false

-- There is room for a row on each of the ports.
pub record Room (node_id : Option ℕ) (ports : List ℕ) (ps : List Proxy) : Type 0 where
  pub separate : Separate ps
  pub free : All (IsFree node_id ps) ports

unfoldable pub remote_ports_of : List (ℕ × ℕ) → List ℕ
remote_ports_of pairs = map (λ x. x.1) pairs

any-append :
    (f : Proxy → Bool) (ps : List Proxy) (q : Proxy)
    → any f ps ≡ false
    → f q ≡ false
    → any f (ps ++ q ∷ []) ≡ false
any-append f [] q h hq = rw hq refl
any-append f (p ∷ ps) q h hq =
    let both : (f p ≡ false) × (any f ps ≡ false) = ground arith in
    rw (both.0, any-append f ps q both.1 hq) refl

any-All : (f : Proxy → Bool) (ps : List Proxy) → any f ps ≡ false → All (λ p. f p ≡ false) ps
any-All f [] h = tt
any-All f (p ∷ ps) h =
    let both : (f p ≡ false) × (any f ps ≡ false) = ground arith in (both.0, any-All f ps both.1)

test_comm : (a b : ℕ) → (a == b) ≡ (b == a)
test_comm a b = ground arith

opt_comm : (a b : Option ℕ) → opt_eq a b ≡ opt_eq b a
opt_comm none none = refl
opt_comm none (some b) = refl
opt_comm (some a) none = refl
opt_comm (some a) (some b) = test_comm a b

module _ (next_key : List Proxy → ℕ) (keys : NewKeys next_key) (shared : Shared) where
  row : ℕ × ℕ → List Proxy → Proxy
  row ports ps = batch_row shared ports (next_key ps)

  added :
      (ports : ℕ × ℕ) (rest : List ℕ) (ps : List Proxy)
      → All (λ y. (ports.1 == y) ≡ false) rest
      → Room shared.node_id (ports.1 ∷ rest) ps
      → Room shared.node_id rest (ps ++ row ports ps ∷ [])
  unfolding row
  added ports rest ps differ room = record {
    separate =
        Separate-append ps (row ports ps) (keys.positive ps)
          (All-both (λ q. is_taken shared.node_id ports.1 q ≡ false)
            (λ q. (q.id == next_key ps) ≡ false) (λ q. Apart q (row ports ps))
            (λ q taken other. record { other = other; free = ground (arith, taken) }) ps
            (any-All _ ps room.free.0) (keys.fresh ps))
          room.separate;
    free =
        All-both (λ y. (ports.1 == y) ≡ false) (IsFree shared.node_id ps)
          (IsFree shared.node_id (ps ++ row ports ps ∷ []))
          (λ y other free.
            any-append (is_taken shared.node_id y) ps (row ports ps) free (rw other refl))
          rest differ room.free.1;
  }

  -- The row that is about to be inserted.
  record Given (ports : ℕ × ℕ) (rest : List ℕ) (p : Proxy) (ps : List Proxy) : Type 0 where
    room : Room shared.node_id (ports.1 ∷ rest) ps
    given : p ≡ row ports ps

  Room-smaller :
      (ports : ℕ × ℕ) (rest : List ℕ) (ps : List Proxy)
      → Room shared.node_id (ports.1 ∷ rest) ps
      → Room shared.node_id rest ps
  Room-smaller ports rest ps room = record { separate = room.separate; free = room.free.1 }

module _ {F : Type 0} where
  take_back_one-Turns :
      (client_id : Text) (p : Proxy) → Turns Separate Separate (take_back_one {F = F} client_id p)
  take_back_one-Turns client_id p =
      bind-Turns Separate Separate Separate (λ ps s. s) _ _ (control-Turns Separate _)
        (λ b.
          bind-Turns Separate Separate Separate (λ ps s. s) _ _
            (tried-Turns _ Separate Separate (λ ps s. s) (delete_row by_id p.id)
              (λ ps. Separate-filter _ ps))
            (λ b'. return-Turns Separate Separate tt (λ ps s. s)))

  pub take_back-Turns :
      (client_id : Text) (ps : List Proxy)
      → Turns Separate Separate (take_back {F = F} client_id ps)
  unfolding take_back for_each
  take_back-Turns client_id [] = return-Turns Separate Separate tt (λ ps s. s)
  take_back-Turns client_id (p ∷ ps) =
      then-Turns Separate Separate Separate (λ qs s. s) _ _ (take_back_one-Turns client_id p)
        (take_back-Turns client_id ps)

module _ (next_key : List Proxy → ℕ) (keys : NewKeys next_key) (shared : Shared) {F : Type 0} where
  give-Yields :
      (ports : ℕ × ℕ)
      → Yields
          (λ p (w : World F). p ≡ row next_key keys shared ports w.db.proxies)
          (give_key next_key (batch_row shared ports))
  unfolding give_key row
  give-Yields ports = record {
    after = λ w w1 p e.
        let there : w ≡ w1 = cc in
        let same : batch_row shared ports (next_key w.db.proxies) ≡ p = cc in
        sym same ∙ ap (λ (v : World F). batch_row shared ports (next_key v.db.proxies)) there;
  }

  refuse-Turns :
      (created : List Proxy) (p : Proxy)
      → Turns Separate Separate (do
        take_back {F = F} shared.client_id created
        _ ← tried (remove_proxy p.id)
        reject {A = List Proxy} 409)
  refuse-Turns created p =
      then-Turns Separate Separate Separate (λ ps s. s) _ _
        (take_back-Turns shared.client_id created)
        (bind-Turns Separate Separate Separate (λ ps s. s) _ _
          (tried-Turns _ Separate Separate (λ ps s. s) (delete_row by_id p.id)
            (λ ps. Separate-filter _ ps))
          (λ b. Reads-Turns Separate _ (search reading)))

  -- What follows the attempt to insert a row.
  inserted-Turns :
      (created : List Proxy) (p : Proxy) (rest : List ℕ) (later : Act F (List Proxy))
      → Turns (Room shared.node_id rest) Separate later
      → (inserted : Bool)
      → Turns (Room shared.node_id rest) Separate (elim inserted as (λ _. Act F (List Proxy)) [
        | false ↦ do take_back shared.client_id created; reject 500
        | true ↦ do
          running ← control (started shared.client_id p.id)
          elim running [
            | true ↦ later
            | false ↦ do
              take_back shared.client_id created
              _ ← tried (remove_proxy p.id)
              reject 409
          ]
      ])
  inserted-Turns created p rest later h false =
      weaken-Turns (Room shared.node_id rest) Separate _ (λ ps room. room.separate)
        (then-Turns Separate Separate Separate (λ ps s. s) _ _
          (take_back-Turns shared.client_id created) (Reads-Turns Separate _ (search reading)))
  inserted-Turns created p rest later h true =
      bind-Turns (Room shared.node_id rest) (Room shared.node_id rest) Separate
        (λ ps room. room.separate) _ _ (control-Turns (Room shared.node_id rest) _) running
    where
      running :
          (b : Bool)
          → Turns (Room shared.node_id rest) Separate (elim b as (λ _. Act F (List Proxy)) [
            | true ↦ later
            | false ↦ do
              take_back shared.client_id created
              _ ← tried (remove_proxy p.id)
              reject 409
          ])
      running true = h
      running false =
          weaken-Turns (Room shared.node_id rest) Separate _ (λ ps room. room.separate)
            (refuse-Turns created p)

  pub create_rows-Turns :
      (created : List Proxy) (pairs : List (ℕ × ℕ))
      → Distinct (remote_ports_of pairs)
      → Turns
          (Room shared.node_id (remote_ports_of pairs))
          Separate
          (create_rows next_key {F = F} shared created pairs)
  unfolding create_rows remote_ports_of
  create_rows-Turns created [] d =
      return-Turns (Room shared.node_id []) Separate created (λ ps room. room.separate)
  create_rows-Turns created (ports ∷ rest) (differ, d) =
      let ports' = remote_ports_of rest in
      found-Turns (Room shared.node_id (ports.1 ∷ ports')) (Given next_key keys shared ports ports')
        Separate (λ ps room. room.separate) _ _ (give_key-Reads next_key (batch_row shared ports))
        (record {
          after =
              λ w w1 p e room. record { room = room; given = (give-Yields ports).after w w1 p e };
        })
        (λ p.
          bind-Turns (Given next_key keys shared ports ports' p) (Room shared.node_id ports')
            Separate (λ ps room. room.separate) _ _
            (tried-Turns _ (Given next_key keys shared ports ports' p) (Room shared.node_id ports')
              (λ ps g. Room-smaller next_key keys shared ports ports' ps g.room)
              (λ ps. ps ++ p ∷ [])
              (λ ps g.
                subst (λ q. Room shared.node_id ports' (ps ++ q ∷ [])) (sym g.given)
                  (added next_key keys shared ports ports' ps differ g.room)))
            (inserted-Turns created p ports' (create_rows next_key shared (created ++ p ∷ []) rest)
              (create_rows-Turns (created ++ p ∷ []) rest d)))
