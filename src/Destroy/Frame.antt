-- ===== src/Destroy/Frame.antt =====
-- What the references between events and requests depend on.
use trequests.Base.{ℕ, List, [], ◌∷◌, Option, none, some, ◌≡◌, refl, sym, ◌∙◌, arith, All, ◌≤◌}
use trequests.Destroy.Queue.{QueueInv, Target}
use trequests.Request.Memory.{Request, Event, request_event, deactivate_event, Memory}

-- The event of a request, if it is live and has one.
abbrev pub event_of : Option Request → Option ℕ
event_of none = none
event_of (some q) = q.callback_event

pub event_of-some :
    (o : Option Request) (e : ℕ)
    → event_of o ≡ some e
    → (q : Request) × (o ≡ some q) × (q.callback_event ≡ some e)
event_of-some none e h = absurd (ground arith)
event_of-some (some q) e h = (q, refl, h)

pub event_of-on :
    (o : Option Request) (q : Request) (e : ℕ)
    → o ≡ some q
    → q.callback_event ≡ some e
    → event_of o ≡ some e
event_of-on o q e h c = ground arith

targets-view :
    (f g : ℕ → Option Request)
    → ((x : ℕ) → event_of (g x) ≡ event_of (f x))
    → (es : List Event) → All (Target f) es
    → All (Target g) es
targets-view f g view [] t = tt
targets-view f g view (deactivate_event ∷ es) t = (tt, targets-view f g view es t.1)
targets-view f g view (request_event b none ∷ es) t = (tt, targets-view f g view es t.1)
targets-view f g view (request_event b (some x) ∷ es) ((y, ey, cy), t) =
    (event_of-some (g x) b (view x ∙ event_of-on (f x) y b ey cy), targets-view f g view es t)

-- The references stay right where the queue and the events of the requests are as they were.
pub QueueInv-frame :
    (w v : Memory)
    → v.queue ≡ w.queue
    → w.fresh ≤ v.fresh
    → ((x : ℕ) → event_of (v.requests x) ≡ event_of (w.requests x))
    → QueueInv w
    → QueueInv v
QueueInv-frame w v same later view inv = record {
  targets = rw same (targets-view w.requests v.requests view w.queue inv.targets);
  queued = λ r q e eq c.
      let (q', e', c') = event_of-some (w.requests r) e (sym (view r) ∙ event_of-on _ q e eq c) in
      rw same (inv.queued r q' e e' c');
  unique = rw same inv.unique;
  new = λ e le. rw same (inv.new e (omega arith));
}
