-- ===== src/Pending/Lifetime.antt =====
-- How long a request can be answered.
use oxiproxy.Prelude.{
  ℕ, ◌+◌, ◌-◌, ◌≤◌, ◌<◌, ◌≡◌, refl, inl, inr, Bool, false, none, some, [], ◌∷◌, arith, ◌==◌, ==_iff,
  Option-cases, if◌then◌else◌,
}
use oxiproxy.Prelude.Maps.{get, insert, remove, get-insert, get-remove}
use oxiproxy.Pending.{PendingEntry, Pending, nat_eq, register, complete, cleanup}

complete_found :
    (listens : ℕ → Bool) (id : ℕ) (p : Pending) (e : PendingEntry)
    → get nat_eq id p ≡ some e
    → complete listens id p
      ≡ (remove nat_eq id p, listens e.sender, if listens e.sender then some e.sender else none)
unfolding complete
complete_found listens id p e h = rw (h, complete)

complete_missing :
    (listens : ℕ → Bool) (id : ℕ) (p : Pending)
    → get nat_eq id p ≡ none
    → complete listens id p ≡ (p, false, none)
unfolding complete
complete_missing listens id p h = rw (h, complete)

get-remove_self : (id : ℕ) (p : Pending) → get nat_eq id (remove nat_eq id p) ≡ none
get-remove_self id p = ground (arith, get-remove nat_eq ==_iff id id p)

-- A registered request is answered once: the response goes to its waiter if that still listens,
-- and a second response for the same request is refused.
pub complete_once :
    (listens : ℕ → Bool) (id sender now : ℕ) (p : Pending)
    → let first = complete listens id (register id sender now p) in
      (first.1 ≡ listens sender)
      × (first.2 ≡ (if listens sender then some sender else none))
      × (complete listens id first.0 ≡ (first.0, false, none))
unfolding register
complete_once listens id sender now p =
    let entry : PendingEntry = record { sender = sender; created_at = now } in
    let found : get nat_eq id (insert nat_eq id entry p) ≡ some entry =
      ground (arith, get-insert nat_eq ==_iff id id entry p) in
    rw (complete_found listens id (insert nat_eq id entry p) entry found) (
      refl,
      refl,
      complete_missing listens id (remove nat_eq id (insert nat_eq id entry p))
          (get-remove_self id (insert nat_eq id entry p)),
    )

-- Registering or answering one request leaves every request under another key as it was.
pub other_requests_kept :
    (listens : ℕ → Bool) (id other sender now : ℕ) (p : Pending)
    → (id == other) ≡ false
    → (get nat_eq other (register id sender now p) ≡ get nat_eq other p)
      × (get nat_eq other (complete listens id p).0 ≡ get nat_eq other p)
unfolding register
other_requests_kept listens id other sender now p h =
    let entry : PendingEntry = record { sender = sender; created_at = now } in
    (
      ground (arith, get-insert nat_eq ==_iff id other entry p),
      elim (Option-cases (get nat_eq id p)) [
        | inl missing ↦ rw (complete_missing listens id p missing)
        | inr (e, found) ↦
            rw (complete_found listens id p e found)
              (ground (arith, get-remove nat_eq ==_iff id other p))
      ],
    )

cleanup-none :
    (now id : ℕ) (p : Pending) → get nat_eq id p ≡ none → get nat_eq id (cleanup now p) ≡ none
unfolding cleanup
cleanup-none now id [] h = refl
cleanup-none now id ((j, f) ∷ p) h = ground (arith, cleanup-none now id p)

-- A round of the background task keeps every request younger than a minute.
pub cleanup_keeps_young :
    (now id : ℕ) (p : Pending) (e : PendingEntry)
    → get nat_eq id p ≡ some e
    → now - e.created_at < 60_000
    → get nat_eq id (cleanup now p) ≡ some e
unfolding cleanup
cleanup_keeps_young now id [] e h young = absurd (cc)
cleanup_keeps_young now id ((j, f) ∷ p) e h young = ground (arith, cleanup_keeps_young now id p e)

cleanup_drops :
    (now id : ℕ) (p : Pending) (e : PendingEntry)
    → get nat_eq id p ≡ none
    → e.created_at + 60_000 ≤ now
    → get nat_eq id (cleanup now (insert nat_eq id e p)) ≡ none
unfolding cleanup
cleanup_drops now id [] e h old = ground arith
cleanup_drops now id ((j, f) ∷ p) e h old = ground (arith, cleanup_drops now id p e)

-- A request under a fresh key that is a minute old at a round of the background task is dropped:
-- a response after that round is refused and reaches nobody.
pub late_response_refused :
    (listens : ℕ → Bool) (id sender registered now : ℕ) (p : Pending)
    → get nat_eq id p ≡ none
    → registered + 60_000 ≤ now
    → let swept = cleanup now (register id sender registered p) in
      complete listens id swept ≡ (swept, false, none)
unfolding register
late_response_refused listens id sender registered now p fresh old =
    complete_missing listens id _
      (cleanup_drops now id p (record { sender = sender; created_at = registered }) fresh old)
