-- ===== src/Quota/Counts.antt =====
-- The arithmetic of one limit under merge and rollback.
use oxiproxy.Prelude.{ℕ, ◌≡◌, Option, none, some, arith}
use oxiproxy.Prelude.Int.{
  ℤ, pos, negsuc, ◌+ℤ◌, ◌-ℤ◌, ◌≤ℤ◌, IsI32, wrap_i32, wrap_i32_id, max_zero, +ℤ_cancel, int_laws,
}
use oxiproxy.Quota.{merge_count, rollback_count, count_or_zero}

-- A rollback never leaves a negative limit.
pub rollback_count_nonneg :
    (read stored : Option ℤ) (n z : ℤ) → rollback_count read stored (some n) ≡ some z → pos 0 ≤ℤ z
unfolding rollback_count
rollback_count_nonneg read stored n z e = nonneg (wrap_i32 (count_or_zero read -ℤ n)) e
  where
    nonneg : (w : ℤ) → some (max_zero w) ≡ some z → pos 0 ≤ℤ z
    nonneg (pos k) e = ground arith
    nonneg (negsuc k) e = ground arith

-- A rollback undoes a merge into a limit that is set and not negative, if the sum fits.
pub rollback-merge_count :
    (c : ℕ) (n : ℤ)
    → IsI32 (pos c)
    → IsI32 (pos c +ℤ n)
    → let m = merge_count (some (pos c)) (some (pos c)) (some n) in
      rollback_count m m (some n) ≡ some (pos c)
unfolding merge_count rollback_count
rollback-merge_count c n hc h =
    rw (wrap_i32_id (pos c +ℤ n) h, +ℤ_cancel (pos c) n, wrap_i32_id (pos c) hc)

-- A merge of an i32 count into a missing limit makes the count the limit, and the rollback leaves
-- the limit zero.
pub rollback-merge_unlimited :
    (n : ℤ)
    → IsI32 n
    → let m = merge_count none none (some n) in
      (m ≡ some n) × (rollback_count m m (some n) ≡ some (pos 0))
unfolding merge_count rollback_count
rollback-merge_unlimited n h =
    let start : pos 0 +ℤ n ≡ n = omega int_laws in
    let back : n -ℤ n ≡ pos 0 = omega int_laws in
    (
      rw (start, wrap_i32_id n h),
      rw (start, wrap_i32_id n h, back) (rw (wrap_i32_id (pos 0) (omega arith))),
    )
