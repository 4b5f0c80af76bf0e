-- ===== src/Destroy/Queue.antt =====
-- The callback events of the queue and the requests that they refer to.
use trequests.Base.{
  ℕ, ◌≤◌, Bool, true, false, List, [], ◌∷◌, Option, none, some, if◌then◌else◌, ◌==◌, ◌≡◌, refl, ◌∙◌,
  arith, All, Bool-cases, inl, inr,
}
use trequests.Destroy.{clear_event, holds_event}
use trequests.Request.Memory.{Request, Event, request_event, deactivate_event, Memory}

-- An event that refers to a request is the one that the request, which is live, refers to.
abbrev pub Target : (ℕ → Option Request) → Event → Type 0
Target requests (request_event e (some r)) =
    (q : Request) × (requests r ≡ some q) × (q.callback_event ≡ some e)
Target requests (request_event e none) = Unit {0}
Target requests deactivate_event = Unit {0}

-- The event at address `e` is in the queue and refers to the request.
unfoldable pub refers : ℕ → ℕ → List Event → Bool
refers e r [] = false
refers e r (deactivate_event ∷ es) = refers e r es
refers e r (request_event a none ∷ es) = if a == e then false else refers e r es
refers e r (request_event a (some t) ∷ es) = if a == e then t == r else refers e r es

pub refers-holds_event :
    (e r : ℕ) (es : List Event) → refers e r es ≡ true → holds_event e es ≡ true
unfolding refers holds_event
refers-holds_event e r [] h = cc
refers-holds_event e r (deactivate_event ∷ es) h = refers-holds_event e r es h
refers-holds_event e r (request_event a none ∷ es) h = ground (arith, refers-holds_event e r es)
refers-holds_event e r (request_event a (some t) ∷ es) h = ground (arith, refers-holds_event e r es)

pub refers-single :
    (e r x : ℕ) (es : List Event) → refers e r es ≡ true → refers e x es ≡ true → (x == r) ≡ true
unfolding refers
refers-single e r x [] h k = cc
refers-single e r x (deactivate_event ∷ es) h k = refers-single e r x es h k
refers-single e r x (request_event a none ∷ es) h k = ground (arith, refers-single e r x es)
refers-single e r x (request_event a (some t) ∷ es) h k = ground (arith, refers-single e r x es)

pub refers-clear_event :
    (e x a : ℕ) (es : List Event) → (e == a) ≡ false → refers e x (clear_event a es) ≡ refers e x es
unfolding refers clear_event
refers-clear_event e x a [] ne = refl
refers-clear_event e x a (deactivate_event ∷ es) ne = refers-clear_event e x a es ne
refers-clear_event e x a (request_event b none ∷ es) ne =
    ground (arith, refers-clear_event e x a es ne)
refers-clear_event e x a (request_event b (some t) ∷ es) ne =
    ground (arith, refers-clear_event e x a es ne)

abbrev pub Unique : List Event → Type 0
Unique [] = Unit {0}
Unique (deactivate_event ∷ es) = Unique es
Unique (request_event e t ∷ es) = (holds_event e es ≡ false) × Unique es

-- No event refers to memory that is not live, and a request refers to an event of the queue that
-- refers to it. Each event has an address of its own.
pub record QueueInv (w : Memory) : Type 0 where
  pub targets : All (Target w.requests) w.queue
  pub queued :
      (r : ℕ) (q : Request) (e : ℕ)
      → w.requests r ≡ some q
      → q.callback_event ≡ some e
      → refers e r w.queue ≡ true
  pub unique : Unique w.queue
  pub new : (e : ℕ) → w.fresh ≤ e → holds_event e w.queue ≡ false

pub holds_event-clear_event :
    (a e : ℕ) (es : List Event) → holds_event a (clear_event e es) ≡ holds_event a es
unfolding holds_event clear_event
holds_event-clear_event a e [] = refl
holds_event-clear_event a e (deactivate_event ∷ es) = holds_event-clear_event a e es
holds_event-clear_event a e (request_event b t ∷ es) =
    ground (arith, holds_event-clear_event a e es)

pub clear_event-Unique : (e : ℕ) (es : List Event) → Unique es → Unique (clear_event e es)
unfolding clear_event
clear_event-Unique e [] u = tt
clear_event-Unique e (deactivate_event ∷ es) u = clear_event-Unique e es u
clear_event-Unique e (request_event b t ∷ es) u =
    (holds_event-clear_event b e es ∙ u.0, clear_event-Unique e es u.1)

module _ (f g : ℕ → Option Request) (r : ℕ) (q : Request) (fr : f r ≡ some q)
    (frame : (x : ℕ) → (x == r) ≡ false → g x ≡ f x) where
  -- Once its event is cleared, no event refers to the request.
  pub clear_event-targets :
      (e : ℕ) (es : List Event)
      → q.callback_event ≡ some e
      → All (Target f) es
      → All (Target g) (clear_event e es)
  unfolding clear_event
  clear_event-targets e [] c h = tt
  clear_event-targets e (deactivate_event ∷ es) c h = (tt, clear_event-targets e es c h.1)
  clear_event-targets e (request_event b none ∷ es) c h =
      (ground arith, clear_event-targets e es c h.1)
  clear_event-targets e (request_event b (some t) ∷ es) c ((y, ey, cy), h) =
      elim (Bool-cases (b == e)) [
        | inl same ↦ (rw same tt, clear_event-targets e es c h)
        | inr other ↦
            let apart : (t == r) ≡ false = ground arith in
            (rw other (y, ground (arith, frame t apart), cy), clear_event-targets e es c h)
      ]

  pub targets-frame :
      (es : List Event) → q.callback_event ≡ none → All (Target f) es → All (Target g) es
  targets-frame [] c h = tt
  targets-frame (deactivate_event ∷ es) c h = (tt, targets-frame es c h.1)
  targets-frame (request_event b none ∷ es) c h = (tt, targets-frame es c h.1)
  targets-frame (request_event b (some t) ∷ es) c ((y, ey, cy), h) =
      let apart : (t == r) ≡ false = ground arith in
      ((y, ground (arith, frame t apart), cy), targets-frame es c h)
