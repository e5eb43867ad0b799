-- ===== src/Security/Lockout.antt =====
-- The lockout of app/users/security.py against its thresholds.
use super_wallet.Base.{ltb, if◌then◌else◌, ◌≡◌, arith, ℕ, ◌+◌, ◌*◌, none, some}
use super_wallet.Security.{Platform}
use super_wallet.Security.Users.{compute_lockout}

abbrev minutes : ℕ → ℕ
minutes n = n * 60000000

-- The lockout of a failure count: none below six, then a quarter of an hour, and an hour from ten.
pub compute_lockout_lem :
    (p : Platform) (failed_count : ℕ)
    → compute_lockout p failed_count ≡ (
        if ltb failed_count 6
        then none
        else (if ltb failed_count 10
            then some (p.utc_now + minutes 15)
            else some (p.utc_now + minutes 60)))
unfolding compute_lockout
compute_lockout_lem p failed_count = ground arith
