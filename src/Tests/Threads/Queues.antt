-- ===== src/Tests/Threads/Queues.antt =====
-- The theorems on the event queue and on freeing a request.
use trequests.Base.{true, [], ◌∷◌, ◌++◌, none, some, codes, ◌≡◌, refl, arith}
use trequests.Destroy.Dangling.{request_free-dangling}
use trequests.Destroy.Queue.{QueueInv, refers}
use trequests.Destroy.Safe.{request_free-QueueInv}
use trequests.Destroy.{request_free, holds_event}
use trequests.Request.Callback.{request_event_proc}
use trequests.Request.Memory.{Leaves, request_event}
use trequests.Tests.Threads.{running, finished, busy_pool, thread, waiting}

pub thread-QueueInv : QueueInv thread
unfolding refers holds_event
thread-QueueInv = record {
  targets = ((finished, refl, refl), (tt, tt));
  queued = λ r q e hq c. ground arith;
  unique = (refl, (refl, tt));
  new = λ e le. ground arith;
}

request_free-QueueInv_example :
    Leaves (request_free 9 thread) (λ v. (v.requests 9 ≡ none) × QueueInv v)
request_free-QueueInv_example =
    request_free-QueueInv thread 9 finished thread-QueueInv refl (λ s e. ground arith)
      (λ e. ground arith) refl

request_free-dangling_example : Leaves (request_free 7 thread) (λ v.
    (v.requests 7 ≡ none)
    × (v.queue ≡ waiting ++ request_event 100 (some 7) ∷ [])
    × (request_event_proc true (some 7) v ≡ none))
request_free-dangling_example =
    request_free-dangling thread 7 running busy_pool (codes "cb") refl refl refl refl refl refl refl
      refl
