-- ===== src/History/Ordered.antt =====
-- The thread is in order after every history.
use trequests.Base.{
  ==_self, ℕ, Bool, true, false, List, [], ◌∷◌, Option, none, some, ◌≡◌, refl, arith, Bool-cases,
  inl, inr, subst,
}
use trequests.Destroy.Safe.{IsQuiet}
use trequests.Destroy.{request_free, handle_delete, session_free, handle_delete_with, holds_event}
use trequests.History.{
  Happening, create_request, create_session, serve_event, delete_interp, check_pool, destroy,
  destroy_session, serve, act, MayHappen, empty_thread, Reach, nothing_yet, next, forget,
}
use trequests.Launch.Ordered.{create_new_request-ThreadInv, Returns-Leaves}
use trequests.Launch.Opened.{Answered, session_cmd-Answered}
use trequests.Launch.Sessions.{
  SessionArgs, SessionReply, refused, not_allocated, handle, session_cmd, session_handle_delete,
}
use trequests.Launch.{Site, create_new_request}
use trequests.Pool.{deactivate}
use trequests.Request.Callback.{request_event_proc}
use trequests.Request.Memory.{
  Request, Event, request_event, deactivate_event, Memory, Leaves, Leaves-weaken, Leaves-bind,
}
use trequests.Launch.Replies.{with_command, with_command-ThreadInv}
use trequests.Thread.Callbacks.{request_event_proc-ThreadInv, request_free-ThreadInv}
use trequests.Thread.Checks.{event_check-ThreadInv}
use trequests.Thread.Marks.{deactivate-ThreadInv}
use trequests.Thread.Sessions.{session_free-SessionFreed}
use trequests.Session.Owned.{SessionInv-frame}
use trequests.Thread.{ThreadInv, core, CoreInv-frame, in_order}

empty-ThreadInv : ThreadInv empty_thread
unfolding holds_event
empty-ThreadInv = record {
  books = record {
    member = λ r q e t. absurd (ground arith);
    listed = λ p r e c. absurd (ground arith);
    counted = λ p e. absurd (ground arith);
    distinct = λ p e. absurd (ground arith);
    alive = λ p e. absurd (ground arith);
  };
  queue = record {
    targets = tt;
    queued = λ r q e hq c. absurd (ground arith);
    unique = tt;
    new = λ e le. refl;
  };
  tidy = record { idle = λ r q e t. absurd (ground arith); unused = λ r le. refl };
  sessions = record {
    listed = λ r s e. absurd (ground arith);
    member = λ s ses r e c. absurd (ground arith);
    distinct = λ s ses e. absurd (ground arith);
    free = λ s le. refl;
  };
  active = record {
    ending = λ d. absurd (ground arith);
    active = λ p e off. absurd (ground arith);
  };
}

forget-Leaves :
    {A : Type 0} (o : Option (A × Memory)) (P : Memory → Type 0) → Leaves o P → Leaves (forget o) P
forget-Leaves none P h = h
forget-Leaves (some (a, v)) P h = h

Answered-ThreadInv :
    (w : Memory) (site : Site) (inited : Bool) (a : SessionArgs)
    → ThreadInv w
    → (reply : SessionReply) (v : Memory)
    → Answered site.world.platform site.find_exact inited w a reply v
    → ThreadInv v
Answered-ThreadInv w site inited a inv (refused e) v (same, _) = rw same inv
Answered-ThreadInv w site inited a inv not_allocated v (same, _) = rw same inv
Answered-ThreadInv w site inited a inv (handle s) v (_, _, _, opened) = opened.0

pub opened-ThreadInv :
    (w : Memory) (site : Site) (inited : Bool) (a : SessionArgs)
    → ThreadInv w
    → Leaves (session_cmd site.world.platform site.find_exact inited a w) ThreadInv
opened-ThreadInv w site inited a inv =
    Returns-Leaves (session_cmd site.world.platform site.find_exact inited a w)
      (session_cmd-Answered site.world.platform site.find_exact inited w a inv)
      (Answered-ThreadInv w site inited a inv)

delete_interp-ThreadInv : (w : Memory) → ThreadInv w → Leaves (act delete_interp w) ThreadInv
unfolding act
delete_interp-ThreadInv w inv =
    let v = record w { interp_deleted = true } in
    in_order (CoreInv-frame w v (λ x. refl) refl refl (omega arith) (core inv))
      (SessionInv-frame w v (λ x. refl) (λ x. refl) (omega arith) inv.sessions)

pub serve-ThreadInv :
    (w : Memory) (es : List Event) → ThreadInv w → w.queue ≡ es → Leaves (serve es w) ThreadInv
unfolding serve
serve-ThreadInv w [] inv head = inv
serve-ThreadInv w (request_event e target ∷ es) inv head =
    Leaves-bind (request_event_proc true target) _ w ThreadInv
      (request_event_proc-ThreadInv w e target es inv head) λ _ v inv'. inv'
serve-ThreadInv w (deactivate_event ∷ es) inv head =
    Leaves-bind deactivate _ w ThreadInv (deactivate-ThreadInv w es inv head) λ _ v inv'. inv'

handle_delete-dead :
    (w : Memory) (r : ℕ) (q : Request)
    → w.requests r ≡ some q
    → q.is_dead ≡ true
    → handle_delete r w ≡ some (tt, w)
unfolding handle_delete handle_delete_with
handle_delete-dead w r q hq dead = ground arith

handle_delete-alive :
    (w : Memory) (r : ℕ) (q : Request)
    → w.requests r ≡ some q
    → q.is_dead ≡ false
    → handle_delete r w ≡ request_free r (with_command w r q false)
unfolding handle_delete handle_delete_with
handle_delete-alive w r q hq alive = ground arith

pub destroy-ThreadInv :
    (w : Memory) (r : ℕ) (q : Request)
    → ThreadInv w
    → w.requests r ≡ some q
    → IsQuiet w q
    → Leaves (handle_delete r w) ThreadInv
destroy-ThreadInv w r q inv hq quiet = elim (Bool-cases q.is_dead) [
  | inl dead ↦ rw (handle_delete-dead w r q hq dead) inv
  | inr alive ↦ rw (handle_delete-alive w r q hq alive) (
      Leaves-weaken (request_free r (with_command w r q false))
        (request_free-ThreadInv (with_command w r q false) r (record q { cmd_token = false })
          (with_command-ThreadInv w r q false inv hq) (ground (arith, ==_self r)) quiet)
        λ v (inv', _). inv')
]

-- What may happen happens with no fault, and leaves the thread in order.
pub act-ThreadInv :
    (w : Memory) (x : Happening) → ThreadInv w → MayHappen w x → Leaves (act x w) ThreadInv
unfolding act
act-ThreadInv w (create_request site t raw) inv (readable, live, served) =
    forget-Leaves (create_new_request site t raw w) ThreadInv
      (create_new_request-ThreadInv site readable w t raw inv live served)
act-ThreadInv w (create_session site inited a) inv may =
    forget-Leaves (session_cmd site.world.platform site.find_exact inited a w) ThreadInv
      (opened-ThreadInv w site inited a inv)
act-ThreadInv w serve_event inv may = serve-ThreadInv w w.queue inv refl
act-ThreadInv w delete_interp inv may = delete_interp-ThreadInv w inv
act-ThreadInv w (check_pool file_events waited performed ms) inv (p, hp, reports, all) =
    event_check-ThreadInv w p file_events waited performed ms inv hp reports all
act-ThreadInv w (destroy r) inv (q, hq, quiet) = destroy-ThreadInv w r q inv hq quiet
act-ThreadInv w (destroy_session s) inv (ses, hs, quiet) =
    unfold session_handle_delete in
    Leaves-weaken (session_free s w) (session_free-SessionFreed w s ses inv hs quiet)
      λ v (inv', _, _). inv'

Leaves-at :
    {A : Type 0} (o : Option (A × Memory)) (P : Memory → Type 0) (a : A) (v : Memory)
    → o ≡ some (a, v)
    → Leaves o P
    → P v
Leaves-at o P a v e h = subst (λ x. Leaves x P) e h

-- After every history of commands, events and answers of libcurl that may happen one after the other
-- (Reach), the books of the pool are right, the queue and the requests refer to each other as they
-- should, no request of the pool has a callback event, the list of a session holds just the live
-- requests that refer to it, each once, and the pool is active while it has requests (ThreadInv).
pub Reach-ThreadInv : {w : Memory} → Reach w → ThreadInv w
Reach-ThreadInv nothing_yet = empty-ThreadInv
Reach-ThreadInv (next {w} {v} x before may e) =
    Leaves-at (act x w) ThreadInv tt v e (act-ThreadInv w x (Reach-ThreadInv before) may)

Leaves-some :
    (o : Option (Unit {0} × Memory)) (P : Memory → Type 0)
    → Leaves o P
    → (v : Memory) × (o ≡ some (tt, v))
Leaves-some none P h = absurd h
Leaves-some (some (tt, v)) P h = (v, refl)

-- After every history, what may happen next (MayHappen) happens with no fault, so that no memory is
-- used that is not live: a request is created and run, a session is created, the event at the
-- head of the queue is served, the pool is checked with reports on its own transfers,
-- the interpreter is deleted, or a request or a session is destroyed of which no request runs in the
-- pool with a callback. What follows is a history again.
pub Reach-act :
    (w : Memory) (x : Happening)
    → Reach w
    → MayHappen w x
    → (v : Memory) × (act x w ≡ some (tt, v)) × Reach v
Reach-act w x before may =
    let (v, e) = Leaves-some (act x w) ThreadInv (act-ThreadInv w x (Reach-ThreadInv before) may) in
    (v, e, next x before may e)
