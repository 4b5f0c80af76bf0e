-- ===== src/Pool/Timing.antt =====
-- `treq_PoolEventSetup`: how long Tcl may block.
use trequests.Base.{ℕ, ℤ, pos, negsuc, ◌*◌, ◌≤◌, true, Option, none, some, ◌≡◌, ◌↔◌, arith}
use trequests.Pool.{event_setup}
use trequests.Request.Memory.{Pool}

-- Whatever timeout libcurl has, if any, Tcl blocks for at most 100 milliseconds; and it does not
-- block at all exactly if the pool is to be refreshed by the check that follows.
pub event_setup_bounds :
    (curl_timeout : Option ℤ) (p q : Pool) (time : ℕ)
    → event_setup true curl_timeout p ≡ (some time, q)
    → (time ≤ 100 * 1000) × ((q.need_refresh ≡ true) ↔ (time ≡ 0))
unfolding event_setup
event_setup_bounds none p q time e = ground arith
event_setup_bounds (some (pos t)) p q time e = ground arith
event_setup_bounds (some (negsuc n)) p q time e = ground arith
