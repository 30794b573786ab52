-- ===== src/Proxies/Rollback.antt =====
-- While the database works, `create_proxy` and the two handlers that create several proxies do all of
-- it or nothing: a refused listener takes back every row that was written for the request.
use oxiproxy.Prelude.{
  ℕ, ◌≡◌, refl, ap, ◌∙◌, Bool, true, false, List, [], ◌∷◌, ◌++◌, append-nil, append_assoc, arith,
  Text, ◌==◌, All, All-append, Result, ok, err,
}
use oxiproxy.Store.{Proxy}
use oxiproxy.Store.Rows.{delete_row}
use oxiproxy.Handlers.{Act, ◌>>=◌, ◌>>◌, reject, tried}
use oxiproxy.Handlers.Ending.{
  Ends, given-Ends, given_then-Ends, answered-Ends, Gives, tried-Ends, control-Ends, return-Ends,
  reject-Ends,
}
use oxiproxy.Proxies.{append_proxy, remove_proxy, give_key}
use oxiproxy.Proxies.Routing.{NewKeys}
use oxiproxy.Proxies.Separate.{by_id}
use oxiproxy.Proxies.Batch.{Shared, batch_row, for_each, take_back_one, take_back, create_rows}

abbrev pub Differs : ℕ → Proxy → Type 0
Differs id q = (q.id == id) ≡ false

-- The rows have keys of their own, which are not in the table.
abbrev pub Removable : List Proxy → List Proxy → Type 0
Removable ps [] = Unit
Removable ps (c ∷ cs) = All (Differs c.id) ps × All (Differs c.id) cs × Removable ps cs

delete_row_absent : (id : ℕ) (ps : List Proxy) → All (Differs id) ps → delete_row by_id id ps ≡ ps
delete_row_absent id [] h = refl
delete_row_absent id (p ∷ ps) (h, hs) = rw h (ap (λ r. p ∷ r) (delete_row_absent id ps hs))

pub delete_row-append :
    (c : Proxy) (ps qs : List Proxy)
    → All (Differs c.id) ps
    → All (Differs c.id) qs
    → delete_row by_id c.id (ps ++ c ∷ qs) ≡ ps ++ qs
delete_row-append c [] qs _ h =
    let self : (c.id == c.id) ≡ true = ground arith in rw self (delete_row_absent c.id qs h)
delete_row-append c (p ∷ ps) qs (h, hs) hq =
    rw h (ap (λ r. p ∷ r) (delete_row-append c ps qs hs hq))

All-split : (P : Proxy → Type 0) (xs ys : List Proxy) → All P (xs ++ ys) → All P xs × All P ys
All-split P [] ys h = (tt, h)
All-split P (x ∷ xs) ys (h, hs) = let (a, b) = All-split P xs ys hs in ((h, a), b)

Removable-append :
    (p : Proxy) (ps cs : List Proxy)
    → All (Differs p.id) ps
    → All (Differs p.id) cs
    → Removable ps cs
    → Removable ps (cs ++ p ∷ [])
Removable-append p ps [] h _ _ = (h, tt, tt)
Removable-append p ps (c ∷ cs) h (hc, hcs) (out, among, rest) = (
  out,
  All-append (Differs c.id) cs (p ∷ []) among (flip c.id p.id hc, tt),
  Removable-append p ps cs h hcs rest,
)
  where
    flip : (a b : ℕ) → (a == b) ≡ false → (b == a) ≡ false
    flip a b e = ground arith

-- The rows of a success stand at the end of the table; an error leaves the table as it was.
abbrev pub AllOrNothing : List Proxy → Result ℕ (List Proxy) → List Proxy → Type 0
AllOrNothing ps (ok rows) qs = qs ≡ ps ++ rows
AllOrNothing ps (err e) qs = qs ≡ ps

module _ {F : Type 0} where
  take_back_one-Ends :
      (client_id : Text) (c : Proxy) (ps : List Proxy)
      → Ends ps (Gives tt (delete_row by_id c.id ps)) (take_back_one {F = F} client_id c)
  take_back_one-Ends client_id c ps =
      answered-Ends ps ps (Gives tt (delete_row by_id c.id ps)) _ _ (control-Ends ps _) (λ b.
        given-Ends ps (delete_row by_id c.id ps) (Gives tt (delete_row by_id c.id ps)) true _ _
          (tried-Ends _ ps (delete_row by_id c.id))
          (return-Ends (delete_row by_id c.id ps) (Gives tt (delete_row by_id c.id ps)) tt
            (refl, refl)))

  -- Taking back `cs`, which stand between `ps` and `rest`.
  take_back-Ends :
      (client_id : Text) (ps cs rest : List Proxy)
      → Removable ps (cs ++ rest)
      → Ends (ps ++ (cs ++ rest)) (Gives tt (ps ++ rest)) (take_back {F = F} client_id cs)
  unfolding take_back for_each
  take_back-Ends client_id ps [] rest h =
      return-Ends (ps ++ rest) (Gives tt (ps ++ rest)) tt (refl, refl)
  take_back-Ends client_id ps (c ∷ cs) rest (out, among, others) =
      given_then-Ends (ps ++ c ∷ (cs ++ rest)) (ps ++ (cs ++ rest)) (Gives tt (ps ++ rest)) _ _
        (rw (← delete_row-append c ps (cs ++ rest) out among)
          (take_back_one-Ends client_id c (ps ++ c ∷ (cs ++ rest))))
        (take_back-Ends client_id ps cs rest others)

module _ (next_key : List Proxy → ℕ) (keys : NewKeys next_key) {F : Type 0} where
  append_proxy-Ends :
      (ps : List Proxy) (p : Proxy)
      → Ends ps (Gives true (ps ++ p ∷ [])) (tried {F = F} (append_proxy p))
  append_proxy-Ends ps p = tried-Ends _ ps (λ qs. qs ++ p ∷ [])

  give_key-Ends :
      (ps : List Proxy) (row : ℕ → Proxy)
      → Ends ps (Gives (row (next_key ps)) ps) (give_key {F = F} next_key row)
  unfolding give_key
  give_key-Ends ps row = record { run = λ w h. rw h.rows ((refl, refl), h.calm) }

  module _ (shared : Shared) (ps created : List Proxy) (p : Proxy)
      (new : Removable ps (created ++ p ∷ [])) (fresh : All (Differs p.id) ps) where
    -- The listener of the last row is refused.
    refused-Ends :
        Ends
          (ps ++ (created ++ p ∷ []))
          (AllOrNothing ps)
          (do take_back {F = F} shared.client_id created; _ ← tried (remove_proxy p.id); reject 409)
    refused-Ends =
        given_then-Ends (ps ++ (created ++ p ∷ [])) (ps ++ p ∷ []) (AllOrNothing ps) _ _
          (take_back-Ends shared.client_id ps created (p ∷ []) new)
          (given-Ends (ps ++ p ∷ []) (delete_row by_id p.id (ps ++ p ∷ [])) (AllOrNothing ps) true _
            _ (tried-Ends _ (ps ++ p ∷ []) (delete_row by_id p.id))
            (reject-Ends (delete_row by_id p.id (ps ++ p ∷ [])) (AllOrNothing ps) 409
              (delete_row-append p ps [] fresh tt ∙ append-nil ps)))

    started-Ends :
        (later : Act F (List Proxy))
        → Ends (ps ++ (created ++ p ∷ [])) (AllOrNothing ps) later
        → (running : Bool)
        → Ends
            (ps ++ (created ++ p ∷ []))
            (AllOrNothing ps)
            (elim running as (λ _. Act F (List Proxy)) [
              | true ↦ later
              | false ↦ do
                take_back shared.client_id created
                _ ← tried (remove_proxy p.id)
                reject 409
            ])
    started-Ends later h true = h
    started-Ends later h false = refused-Ends

  pub create_rows-Ends :
      (shared : Shared) (ps created : List Proxy) (pairs : List (ℕ × ℕ))
      → Removable ps created
      → Ends (ps ++ created) (AllOrNothing ps) (create_rows next_key {F = F} shared created pairs)
  unfolding create_rows
  create_rows-Ends shared ps created [] new =
      return-Ends (ps ++ created) (AllOrNothing ps) created refl
  create_rows-Ends shared ps created (ports ∷ rest) new =
      let base = ps ++ created in
      let p = batch_row shared ports (next_key base) in
      let fresh = All-split (Differs p.id) ps created (keys.fresh base) in
      let new' = Removable-append p ps created fresh.0 fresh.1 new in
      let after = ps ++ (created ++ p ∷ []) in
      given-Ends base base (AllOrNothing ps) p _ _ (give_key-Ends base (batch_row shared ports)) (
        given-Ends base after (AllOrNothing ps) true _ _
          (rw (← append_assoc ps created (p ∷ [])) (append_proxy-Ends base p))
          (answered-Ends after after (AllOrNothing ps) _ _ (control-Ends after _) (
            started-Ends shared ps created p new' fresh.0
              (create_rows next_key shared (created ++ p ∷ []) rest)
              (create_rows-Ends shared ps (created ++ p ∷ []) rest new'))))
