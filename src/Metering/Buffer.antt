-- ===== src/Metering/Buffer.antt =====
-- What the buffer and a flush do with events.
use oxiproxy.Prelude.{
  ℕ, ◌≡◌, refl, ap, ◌∙◌, ◌↔◌, inl, inr, true, Option, none, List, [], ◌∷◌, arith, Text, opt_eq,
  if◌then◌else◌, Bool-cases, ok,
}
use oxiproxy.Prelude.Maps.{get, get-insert}
use oxiproxy.Prelude.Time.{DateTime}
use oxiproxy.Prelude.Float.{Float}
use oxiproxy.Store.{Proxy, Db}
use oxiproxy.Store.Rows.{find}
use oxiproxy.Store.Queries.{query, fails_now, past}
use oxiproxy.Metering.{
  TrafficEvent, Key, Bytes, Buffer, key_eq, key_of, add_bytes, entry, receive, no_bytes,
}
use oxiproxy.Metering.Flush.{flush_entry, flush_entries}

opt_eq_iff : (a b : Option ℕ) → (opt_eq a b ≡ true) ↔ (a ≡ b)
opt_eq_iff a b = ground arith

key_eq_iff : (a b : Key) → (key_eq a b ≡ true) ↔ (a ≡ b)
key_eq_iff (p, c, u) (q, d, v) = ground (arith, opt_eq_iff u v)

-- The events one after the other.
abbrev pub receive_all : List TrafficEvent → Buffer → Buffer
receive_all [] buffer = buffer
receive_all (e ∷ es) buffer = receive_all es (receive e buffer)

-- The bytes of the events that have a key, added up.
abbrev pub sum_for : Key → List TrafficEvent → Bytes → Bytes
sum_for k [] b = b
sum_for k (e ∷ es) b =
    sum_for k es (if key_eq (key_of e) k then add_bytes b e.bytes_sent e.bytes_received else b)

receive_one :
    (k : Key) (e : TrafficEvent) (buffer : Buffer)
    → entry (get key_eq k (receive e buffer)) ≡ (
        if key_eq (key_of e) k
        then add_bytes (entry (get key_eq k buffer)) e.bytes_sent e.bytes_received
        else entry (get key_eq k buffer))
unfolding receive
receive_one k e buffer = elim (Bool-cases (key_eq (key_of e) k)) [
  | inl same ↦ rw (
    get-insert key_eq key_eq_iff (key_of e) k
        (add_bytes (entry (get key_eq (key_of e) buffer)) e.bytes_sent e.bytes_received) buffer,
    same,
    (key_eq_iff (key_of e) k).0 same,
  )
  | inr other ↦ rw (
    get-insert key_eq key_eq_iff (key_of e) k
        (add_bytes (entry (get key_eq (key_of e) buffer)) e.bytes_sent e.bytes_received) buffer,
    other,
  )
]

-- After any sequence of events, the buffer has under each key the sum of the bytes of exactly the
-- events with that key, added to what it had.
pub receive_all_lem :
    (k : Key) (es : List TrafficEvent) (buffer : Buffer)
    → entry (get key_eq k (receive_all es buffer)) ≡ sum_for k es (entry (get key_eq k buffer))
receive_all_lem k [] buffer = refl
receive_all_lem k (e ∷ es) buffer =
    receive_all_lem k es (receive e buffer) ∙ ap (sum_for k es) (receive_one k e buffer)

module _ (fl : Float) where
  open fl use {F}

  -- The tables alone.
  abbrev pub SameTables : Db F → Db F → Type 0
  SameTables a b = record a { faults = [] } ≡ record b { faults = [] }

  -- No row of the buffer's proxies is there.
  abbrev pub AllGone : Db F → Buffer → Type 0
  AllGone db [] = Unit
  AllGone db ((k, b) ∷ es) = (find (λ (p : Proxy). p.id) k.0 db.proxies ≡ none) × AllGone db es

  gone_entry :
      (today : Text) (now : DateTime) (k : Key) (b : Bytes) (nodes : List (ℕ × Bytes)) (db : Db F)
      → find (λ (p : Proxy). p.id) k.0 db.proxies ≡ none
      → (after : Db F) × (flush_entry fl today now (k, b) nodes db ≡ (ok nodes, after))
        × SameTables after db
  unfolding flush_entry query
  gone_entry today now k b nodes db h = elim (Bool-cases (no_bytes b)) [
    | inl nothing ↦ (db, rw nothing, refl)
    | inr bytes ↦ elim (Bool-cases (fails_now db)) [
      | inl fails ↦ (past db, rw (bytes, fails), refl)
      | inr works ↦ (past db, rw (bytes, works, h), refl)
    ]
  ]

  gone_kept : (a db : Db F) (es : Buffer) → SameTables a db → AllGone db es → AllGone a es
  gone_kept a db [] same h = tt
  gone_kept a db ((k, b) ∷ es) same (here, h) = (
    ap (λ (x : Db F). find (λ (p : Proxy). p.id) k.0 x.proxies) same ∙ here,
    gone_kept a db es same h,
  )

  -- Entries of proxies that are deleted change no table and count for no node, whatever queries fail.
  pub deleted_proxies_ignored :
      (today : Text) (now : DateTime) (es : Buffer) (nodes : List (ℕ × Bytes)) (db : Db F)
      → AllGone db es
      → (after : Db F) × (flush_entries fl today now es nodes db ≡ (ok nodes, after))
        × SameTables after db
  unfolding flush_entries
  deleted_proxies_ignored today now [] nodes db h = (db, refl, refl)
  deleted_proxies_ignored today now ((k, b) ∷ es) nodes db (here, h) =
      let (mid, first, same) = gone_entry today now k b nodes db here in
      let (after, rest, same') =
        deleted_proxies_ignored today now es nodes mid (gone_kept mid db es same h) in
      (after, rw (first, rest), same' ∙ same)
