-- ===== src/Pool/Check.antt =====
-- `treq_PoolEventCheck` as a whole.
use trequests.Base.{Bool, true, false, not, ◌||◌, List, ◌∷◌, some, ◌≡◌, if◌then◌else◌, ◌==◌}
use trequests.Pool.{Answer, queue_deactivate}
use trequests.Request.Memory.{Pool, Event, deactivate_event, Memory, M, when◌then◌else◌, skip}

-- The pool with its refresh done.
abbrev refreshed : Memory → Pool → Memory
refreshed w p = record w { pool = some (record p { need_refresh = false }) }

abbrev deactivates_next : List Event → Bool
deactivates_next (deactivate_event ∷ es) = true
deactivates_next _ = false

-- Once no transfer is left, the head of the queue deactivates the pool.
abbrev pub HeadDeactivates : Answer → Memory → Type 0
HeadDeactivates a v = (not (a.numfds == 0) || deactivates_next v.queue) ≡ true

abbrev finish : Answer → M (Unit {0})
finish a = when a.numfds == 0 then queue_deactivate else skip
