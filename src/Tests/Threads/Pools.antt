-- ===== src/Tests/Threads/Pools.antt =====
-- The theorems on the pool.
use trequests.Base.{
  ◌*◌, ◌≤◌, pos, true, false, List, [], ◌∷◌, some, ◌≡◌, ◌↔◌, refl, arith, ◌==◌, Bool-cases, inl,
  inr,
}
use trequests.Pool.Remove.{PoolInv}
use trequests.Pool.Timing.{event_setup_bounds}
use trequests.Pool.{Message, Answer, event_setup}
use trequests.Tests.Threads.{running, running_alone, busy_pool, thread}

pub thread-PoolInv : PoolInv thread
thread-PoolInv = record {
  member = λ r q e t. (busy_pool, refl, ground arith);
  listed = λ p r e c. elim (Bool-cases (7 == r)) [
    | inl y ↦ (running, ground arith, refl, refl)
    | inr n ↦ (running_alone, ground arith, refl, refl)
  ];
  counted = λ p e. ground arith;
  distinct = λ p e. ground arith;
  alive = λ p e. ground arith;
}

both_end : List Message
both_end =
    (record { is_done = true; request = 7; is_ok = true })
    ∷ (record { is_done = true; request = 8; is_ok = false })
    ∷ []

none_left : Answer
none_left = record { is_ok = true; numfds = 0 }

event_setup_bounds_example : (50 * 1000 ≤ 100 * 1000) × ((false ≡ true) ↔ (50 * 1000 ≡ 0))
event_setup_bounds_example =
    event_setup_bounds (some (pos 50)) (record busy_pool { need_refresh = false })
      (record busy_pool { need_refresh = false }) (50 * 1000) (unfold event_setup in refl)
