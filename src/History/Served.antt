-- ===== src/History/Served.antt =====
-- Every callback that waits is run.
use trequests.Base.{
  ℕ, zero, suc, true, List, [], ◌∷◌, none, some, length, ◌≡◌, refl, arith, Option-cases, inl, inr,
  ap, ◌∙◌,
}
use trequests.Destroy.Queue.{refers}
use trequests.Destroy.Serve.{proc-Ran}
use trequests.History.Ordered.{serve-ThreadInv}
use trequests.History.{serve, act, serve_event}
use trequests.Pool.{deactivate}
use trequests.Pool.Active.{deactivates}
use trequests.Request.Callback.{request_event_proc}
use trequests.Request.Memory.{
  Request, Event, request_event, deactivate_event, Memory, M, ◌>>◌, skip, Leaves, Leaves-weaken,
  Leaves-both, Leaves-bind,
}
use trequests.Thread.{ThreadInv}

-- The event loop serves so many events.
unfoldable pub serve_times : ℕ → M (Unit {0})
unfolding act
serve_times zero = skip
serve_times (suc n) = do act serve_event; serve_times n

-- The requests of the events, the last one first, before those whose callback ran earlier.
abbrev pub answered : List Event → List ℕ → List ℕ
answered [] ran = ran
answered (request_event e (some r) ∷ es) ran = answered es (r ∷ ran)
answered (request_event e none ∷ es) ran = answered es ran
answered (deactivate_event ∷ es) ran = answered es ran

abbrev Answers : Memory → Event → List Event → Memory → Type 0
Answers w e es v = (v.queue ≡ es) × (v.ran ≡ answered (e ∷ []) w.ran)

serve-Answers :
    (w : Memory) (e : Event) (es : List Event)
    → ThreadInv w
    → w.queue ≡ e ∷ es
    → Leaves (serve (e ∷ es) w) (Answers w e es)
unfolding serve
serve-Answers w (request_event e none) es inv head = unfold request_event_proc in (refl, refl)
serve-Answers w (request_event e (some r)) es inv head =
    let (q, hq, c) = (rw head at inv.queue.targets).0 in
    Leaves-bind (request_event_proc true (some r)) _ w (Answers w (request_event e (some r)) es)
      (proc-Ran w e r es q inv.queue head hq c) λ _ v ran. (refl, ran.1)
serve-Answers w deactivate_event es inv head =
    let (p, hp, _) = inv.active.ending (ap deactivates head) in unfold deactivate in ground arith

abbrev pub AllServed : List Event → Memory → Memory → Type 0
AllServed es w v =
    (v.queue ≡ [])
    × (v.ran ≡ answered es w.ran)
    × ((r : ℕ) (q : Request) → v.requests r ≡ some q → q.callback_event ≡ none)

-- A request that no event of the queue refers to has no event.
none_left :
    (w : Memory)
    → ThreadInv w
    → w.queue ≡ []
    → (r : ℕ) (q : Request) → w.requests r ≡ some q
    → q.callback_event ≡ none
unfolding refers
none_left w inv empty r q hq = elim (Option-cases q.callback_event) [
  | inl c ↦ c
  | inr (e, c) ↦ absurd (ground (arith, inv.queue.queued r q e hq c))
]

act-serve : (w : Memory) (es : List Event) → w.queue ≡ es → act serve_event w ≡ serve es w
unfolding act
act-serve w es head = ap (λ x. serve x w) head

served_one :
    (w : Memory) (e : Event) (es : List Event)
    → ThreadInv w
    → w.queue ≡ e ∷ es
    → Leaves (act serve_event w) (λ v. ThreadInv v × Answers w e es v)
served_one w e es inv head = rw (act-serve w (e ∷ es) head) (
    Leaves-both (serve (e ∷ es) w) ThreadInv (Answers w e es) (serve-ThreadInv w (e ∷ es) inv head)
      (serve-Answers w e es inv head))

answered_cons :
    (e : Event) (es : List Event) (ran : List ℕ)
    → answered es (answered (e ∷ []) ran) ≡ answered (e ∷ es) ran
answered_cons (request_event e none) es ran = refl
answered_cons (request_event e (some r)) es ran = refl
answered_cons deactivate_event es ran = refl

-- While the thread is in order (ThreadInv), to serve as many events as the queue holds goes without a fault and empties the queue: the callback
-- of each request that an event refers to has run, in the order of the queue, and no request waits
-- any more.
pub serve_times-AllServed :
    (es : List Event) (w : Memory)
    → ThreadInv w
    → w.queue ≡ es
    → Leaves (serve_times (length es) w) (AllServed es w)
unfolding serve_times
serve_times-AllServed [] w inv head = (head, refl, none_left w inv head)
serve_times-AllServed (e ∷ es) w inv head =
    Leaves-bind (act serve_event) (λ _. serve_times (length es)) w (AllServed (e ∷ es) w)
      (served_one w e es inv head)
      λ _ v (inv', (queue', ran')).
        Leaves-weaken (serve_times (length es) v) (serve_times-AllServed es v inv' queue')
          λ u (queue'', ran'', none'').
            (queue'', ran'' ∙ ap (answered es) ran' ∙ answered_cons e es w.ran, none'')
