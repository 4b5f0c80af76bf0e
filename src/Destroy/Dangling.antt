-- ===== src/Destroy/Dangling.antt =====
-- Destroying a running request that has a callback.
use trequests.Base.{==_self, ℕ, true, false, [], ◌∷◌, ◌++◌, none, some, ◌≡◌, arith, Bytes}
use trequests.Destroy.{request_free}
use trequests.Request.Callback.{request_event_proc}
use trequests.Request.Memory.{Request, Pool, inprogress, request_event, Memory, Leaves}

-- A live running request of the pool that has a callback, no event in the queue and no session
-- is freed, in a live interpreter, and the queue ends in an event that still names it: to serve
-- that event is a fault.
pub request_free-dangling :
    (w : Memory) (r : ℕ) (q : Request) (p : Pool) (callback : Bytes)
    → w.requests r ≡ some q
    → q.pool ≡ true
    → w.pool ≡ some p
    → q.state ≡ inprogress
    → q.callback ≡ some callback
    → q.session ≡ none
    → q.callback_event ≡ none
    → w.interp_deleted ≡ false
    → Leaves (request_free r w) (λ v.
      (v.requests r ≡ none)
      × (v.queue ≡ w.queue ++ request_event w.fresh (some r) ∷ [])
      × (request_event_proc true (some r) v ≡ none))
unfolding request_free request_event_proc
request_free-dangling w r q p callback hq hpool hp hs hc hses hev hd = ground (arith, ==_self r)
