-- ===== src/Metering/Charges.antt =====
-- What a charge leaves in a row: the totals and the quota flag.
use oxiproxy.Prelude.{
  ℕ, ◌≡◌, refl, ap, ◌∙◌, inl, inr, Bool, true, false, not, ◌&&◌, Option, none, some, [], arith,
  if◌then◌else◌, Bool-cases, ok,
}
use oxiproxy.Prelude.Int.{◌+ℤ◌, wrap_i64}
use oxiproxy.Prelude.Time.{DateTime}
use oxiproxy.Prelude.Float.{Float}
use oxiproxy.Store.{Db}
use oxiproxy.Store.Rows.{find, update_row, find-update_row_self}
use oxiproxy.Store.Queries.{query, write, fails_now, past, logged}
use oxiproxy.Traffic.{reaches}
use oxiproxy.Metering.Meters.{IsMeter}
use oxiproxy.Metering.{
  Bytes, Meter, read_row, change_row, new_total, charged, mark_exceeded, newly_exceeded, charge,
}

module _ (fl : Float) where
  open fl use {F}

  module _ (m : Meter F) (laws : IsMeter fl m) where
    -- The flag that a charge leaves: it is cleared by a reset, kept otherwise, and set when the
    -- quota is reached by a row that was not over it.
    abbrev new_flag : m.Row → Bytes → DateTime → Bool
    new_flag read b now =
        if newly_exceeded fl m read (new_total fl m read b now)
        then true
        else (if m.due read now then false else m.is_exceeded read)

    branch_key :
        (due : Bool) (now : DateTime) (r : m.Row)
        → m.key (if due then m.restart now r else r) ≡ m.key r
    branch_key true now r = laws.key-restart now r
    branch_key false now r = refl

    branch_flag :
        (due : Bool) (now : DateTime) (r : m.Row)
        → m.is_exceeded (if due then m.restart now r else r)
          ≡ (if due then false else m.is_exceeded r)
    branch_flag true now r = laws.flag-restart now r
    branch_flag false now r = refl

    key-charged :
        (read : m.Row) (b : Bytes) (now : DateTime) (r : m.Row)
        → m.key (charged fl m read b now r) ≡ m.key r
    key-charged read b now r = laws.key-count _ now _ ∙ branch_key (m.due read now) now r

    flag-charged :
        (read : m.Row) (b : Bytes) (now : DateTime)
        → m.is_exceeded (charged fl m read b now read)
          ≡ (if m.due read now then false else m.is_exceeded read)
    flag-charged read b now = laws.flag-count _ now _ ∙ branch_flag (m.due read now) now read

    -- A database in which the row with the key is `r`, and whose queries succeed.
    pub record Holds (id : ℕ) (r : m.Row) (db : Db F) : Type 0 where
      pub works : db.faults ≡ []
      pub listed : find m.key id (m.rows db) ≡ some r

    change_row_lem :
        (id : ℕ) (f : m.Row → m.Row) (r : m.Row) (db : Db F)
        → ((x : m.Row) → m.key (f x) ≡ m.key x)
        → Holds id r db
        → (after : Db F) × (logged (change_row fl m id f) db ≡ (ok true, after))
          × Holds id (f r) after
    unfolding write
    change_row_lem id f r db keeps h =
        let rows' = update_row m.key id f (m.rows (past db)) in
        let found : find m.key id rows' ≡ some (f r) =
          find-update_row_self m.key f keeps id _ r
            (ap (find m.key id) (laws.rows_past db) ∙ h.listed) in
        (
          m.with_rows (past db) rows',
          rw h.works,
          record {
            works = laws.faults-with_rows _ _ ∙ rw h.works;
            listed = ap (find m.key id) (laws.rows-with_rows _ _) ∙ found;
          },
        )

    read_row_lem :
        (id : ℕ) (r : m.Row) (db : Db F)
        → Holds id r db
        → (read_row fl m id db ≡ (ok (some r), past db)) × Holds id r (past db)
    unfolding query
    read_row_lem id r db h = (
      (let works : fails_now db ≡ false = rw h.works in rw (works, h.listed)),
      record { works = rw h.works; listed = ap (find m.key id) (laws.rows_past db) ∙ h.listed },
    )

    mark_lem :
        (id : ℕ) (r : m.Row) (now : DateTime) (db : Db F)
        → Holds id r db
        → (after : Db F) × (mark_exceeded fl m id now db ≡ (ok tt, after))
          × Holds id (m.exceed now r) after
    unfolding mark_exceeded
    mark_lem id r now db h =
        let (read, h') = read_row_lem id r db h in
        let (after, changed, left) =
          change_row_lem id (m.exceed now) r (past db) (laws.key-exceed now) h' in
        (after, rw (read, changed), left)

    charge_run :
        (read : m.Row) (b : Bytes) (now : DateTime) (db : Db F)
        → Holds (m.key read) read db
        → (after : Db F) × (left : m.Row) × (charge fl m read b now db ≡ (ok tt, after))
          × Holds (m.key read) left after
          × (m.total left ≡ new_total fl m read b now)
          × (m.is_exceeded left ≡ new_flag read b now)
    unfolding charge
    charge_run read b now db h =
        let total = new_total fl m read b now in
        let now_row = charged fl m read b now read in
        let (mid, changed, held) =
          change_row_lem (m.key read) (charged fl m read b now) read db (key-charged read b now)
            h in
        elim (Bool-cases (newly_exceeded fl m read total)) [
          | inr under ↦ (
            mid,
            now_row,
            rw (changed, under),
            held,
            laws.total-count _ _ _,
            rw under (flag-charged read b now),
          )
          | inl over ↦
              let (after, marked, left) = mark_lem (m.key read) now_row now mid held in
              (
                after,
                m.exceed now now_row,
                rw (changed, over, marked),
                left,
                laws.total-exceed now now_row ∙ laws.total-count _ _ _,
                rw over (laws.flag-exceed now now_row),
              )
        ]

    -- The totals after a charge: the bytes alone after a reset, else the old totals and the bytes,
    -- added in 64 bits.
    abbrev pub total_after : m.Row → Bytes → DateTime → Bytes
    total_after read b now =
        if m.due read now
        then b
        else (wrap_i64 ((m.total read).0 +ℤ b.0), wrap_i64 ((m.total read).1 +ℤ b.1))

    -- The flag after a charge, from the quota, the flag before, whether a reset was due, and the
    -- totals after it.
    abbrev pub flag_after : Option F → Bool → Bool → Bytes → Bool
    flag_after none flag due total = flag && not due
    flag_after (some quota) flag due total =
        if flag then not due else reaches fl (wrap_i64 (total.0 +ℤ total.1)) quota

    flag_lem :
        (read : m.Row) (quota : Option F) (flag due : Bool) (total : Bytes)
        → m.quota read ≡ quota
        → m.is_exceeded read ≡ flag
        → (if newly_exceeded fl m read total then true else (if due then false else flag))
          ≡ flag_after quota flag due total
    flag_lem read none flag due total q f = rw (q, newly_exceeded) (ground arith)
    flag_lem read (some quota) flag due total q f = rw (q, newly_exceeded) (rw f (ground arith))

    -- If no query fails, a charge leaves the row with the bytes added to its totals in 64 bits, or
    -- with the bytes alone where a reset is due. A row that had the flag keeps it, or loses it to a
    -- reset, whatever its quota; one that had not gets it exactly if it has a quota that the sum of
    -- the new totals reaches.
    pub charge_lem :
        (read : m.Row) (b : Bytes) (now : DateTime) (db : Db F)
        → Holds (m.key read) read db
        → (after : Db F) × (left : m.Row) × (charge fl m read b now db ≡ (ok tt, after))
          × Holds (m.key read) left after
          × (m.total left ≡ total_after read b now)
          × (m.is_exceeded left
              ≡ flag_after
                  (m.quota read)
                  (m.is_exceeded read)
                  (m.due read now)
                  (total_after read b now))
    charge_lem read b now db h =
        let (after, left, run, held, total, flag) = charge_run read b now db h in
        (
          after,
          left,
          run,
          held,
          total,
          flag
              ∙ flag_lem read (m.quota read) (m.is_exceeded read) (m.due read now)
                  (new_total fl m read b now) refl refl,
        )

    -- If no query fails, a charge that resets a row with the flag leaves the row with the new
    -- bytes and without the flag, whatever its quota is.
    pub reset_misses :
        (read : m.Row) (b : Bytes) (now : DateTime) (db : Db F)
        → Holds (m.key read) read db
        → m.due read now ≡ true
        → m.is_exceeded read ≡ true
        → (after : Db F) × (left : m.Row) × (charge fl m read b now db ≡ (ok tt, after))
          × Holds (m.key read) left after
          × (m.total left ≡ b)
          × (m.is_exceeded left ≡ false)
    reset_misses read b now db h due flag =
        let (after, left, run, held, total, set) = charge_run read b now db h in
        (after, left, run, held, total ∙ rw due, set ∙ rw kept (rw due))
      where
        newly :
            (q : Option F) (total : Bytes)
            → m.quota read ≡ q
            → newly_exceeded fl m read total ≡ false
        newly none total e = rw (e, newly_exceeded)
        newly (some q) total e = rw (e, newly_exceeded) (rw flag (ground arith))

        kept : newly_exceeded fl m read (new_total fl m read b now) ≡ false
        kept = newly (m.quota read) _ refl
