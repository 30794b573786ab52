-- ===== src/Pending/Tests.antt =====
-- A request that is answered, and one that is answered too late: the witnesses of the theorems.
use oxiproxy.Prelude.{◌≡◌, refl, ℕ, Bool, true, false, none, [], ◌∷◌, arith}
use oxiproxy.Pending.{Pending, register, complete, cleanup}
use oxiproxy.Pending.Lifetime.{late_response_refused}

abbrev all_listen : ℕ → Bool
all_listen n = true

abbrev waiting : Pending
waiting = (6, record { sender = 2; created_at = 90 }) ∷ []

-- Answered 61 seconds after it was sent, while its waiter waits for two minutes.
late_example :
    let swept = cleanup 61_000 (register 7 1 0 waiting) in
    complete all_listen 7 swept ≡ (swept, false, none)
late_example = late_response_refused all_listen 7 1 0 61_000 waiting refl (omega arith)
