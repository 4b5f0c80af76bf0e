-- ===== src/Thread/Checks.antt =====
-- The check of the pool.
use trequests.Base.{
  [], true, pos, int_eq, Bool, false, not, ◌||◌, List, some, if◌then◌else◌, ◌==◌, ◌≡◌, refl, arith,
  Bool-cases, Option-cases, ap, is_some, inl, inr,
}
use trequests.Pool.Complete.{Reports, Settles, handle_messages-Settles}
use trequests.Pool.{Message, Answer, handle_messages, perform, event_check, queue_deactivate}
use trequests.Request.Memory.{
  Pool, Memory, M, ◌>>=◌, skip, when◌then◌else◌, Leaves, Leaves-both, Leaves-bind,
}
use trequests.Thread.Messages.{handle_messages-ThreadInv}
use trequests.Pool.Drained.{AllReported, Settles-empty}
use trequests.Thread.{ThreadInv}
use trequests.Thread.Marks.{marked, marked-ThreadInv, queued-ThreadInv}

finish : Answer → M (Unit {0})
finish a = when a.numfds == 0 then queue_deactivate else skip

finish-ThreadInv :
    (a : Answer) (w : Memory) (p : Pool)
    → ThreadInv w
    → w.pool ≡ some p
    → (a.numfds ≡ 0 → p.requests ≡ [])
    → Leaves (finish a w) ThreadInv
unfolding finish
finish-ThreadInv a w p inv hp empty = elim (Bool-cases (a.numfds == 0)) [
  | inl z ↦ rw z (queued-ThreadInv w p inv hp (empty (ground arith)))
  | inr nz ↦ rw nz inv
]

perform-eq :
    (w : Memory) (p : Pool) (a : Answer) (ms : List Message)
    → w.pool ≡ some p
    → perform a ms w ≡ (
        if not a.is_ok || int_eq (pos a.numfds) p.active_connection_count
        then some (tt, w)
        else ◌>>=◌ (handle_messages ms) (λ _. finish a) w)
unfolding perform finish
perform-eq w p a ms hp = ground arith

-- What handling the messages leaves.
abbrev Handled : Memory → List Message → Memory → Type 0
Handled w ms v = (ThreadInv v × (is_some v.pool ≡ true)) × Settles w ms v

handle_messages-Handled :
    (w : Memory) (p : Pool) (ms : List Message)
    → ThreadInv w
    → w.pool ≡ some p
    → Reports w.requests ms
    → Leaves (handle_messages ms w) (Handled w ms)
handle_messages-Handled w p ms inv hp h =
    Leaves-both (handle_messages ms w) (λ v. ThreadInv v × (is_some v.pool ≡ true)) (Settles w ms)
      (handle_messages-ThreadInv ms w inv (ap is_some hp) h)
      (handle_messages-Settles ms w inv.books h)

Handled-finish :
    (a : Answer) (w v : Memory) (p : Pool) (ms : List Message)
    → ThreadInv w
    → w.pool ≡ some p
    → (a.numfds ≡ 0 → AllReported p ms)
    → Handled w ms v
    → Leaves (finish a v) ThreadInv
Handled-finish a w v p ms inv hp all ((inv', has), settles) = elim (Option-cases v.pool) [
  | inl gone ↦ absurd (ground arith)
  | inr (p', hp') ↦
      finish-ThreadInv a v p' inv' hp'
        (λ z. Settles-empty w v p p' ms inv.books hp (all z) settles hp')
]

perform-ThreadInv :
    (w : Memory) (p : Pool) (a : Answer) (ms : List Message)
    → ThreadInv w
    → w.pool ≡ some p
    → Reports w.requests ms
    → (a.numfds ≡ 0 → AllReported p ms)
    → Leaves (perform a ms w) ThreadInv
perform-ThreadInv w p a ms inv hp h all =
    elim (Bool-cases (not a.is_ok || int_eq (pos a.numfds) p.active_connection_count)) [
      | inl stop ↦ rw (perform-eq w p a ms hp, stop) inv
      | inr more ↦
          rw (perform-eq w p a ms hp, more)
            (Leaves-bind (handle_messages ms) (λ _. finish a) w ThreadInv
              (handle_messages-Handled w p ms inv hp h)
              λ _ v handled. Handled-finish a w v p ms inv hp all handled)
    ]

event_check-eq :
    (w : Memory) (p : Pool) (file_events : Bool) (waited performed : Answer) (ms : List Message)
    → w.pool ≡ some p
    → event_check file_events waited performed ms w ≡ (
        if not file_events
        then some (tt, w)
        else if p.need_refresh
        then perform performed ms (marked w p p.is_active false)
        else if not waited.is_ok || waited.numfds == 0
        then some (tt, w)
        else perform performed ms w)
unfolding event_check
event_check-eq w p file_events waited performed ms hp = ground arith

-- Whatever libcurl answers, if it reports all transfers when it says that none is left, a check of the pool leaves the thread in order.
pub event_check-ThreadInv :
    (w : Memory) (p : Pool) (file_events : Bool) (waited performed : Answer) (ms : List Message)
    → ThreadInv w
    → w.pool ≡ some p
    → Reports w.requests ms
    → (performed.numfds ≡ 0 → AllReported p ms)
    → Leaves (event_check file_events waited performed ms w) ThreadInv
event_check-ThreadInv w p file_events waited performed ms inv hp h all =
    let eq = event_check-eq w p file_events waited performed ms hp in
    elim (Bool-cases (not file_events)) [
      | inl no_files ↦ rw (eq, no_files) inv
      | inr files ↦ elim (Bool-cases p.need_refresh) [
        | inl fresh ↦
            rw (eq, files, fresh)
              (perform-ThreadInv (marked w p p.is_active false) (record p { need_refresh = false })
                performed ms
                (marked-ThreadInv w p p.is_active false inv hp (inv.active.active p hp)) refl h all)
        | inr old ↦ elim (Bool-cases (not waited.is_ok || waited.numfds == 0)) [
          | inl idle ↦ rw (eq, files, old, idle) inv
          | inr ready ↦ rw (eq, files, old, ready) (perform-ThreadInv w p performed ms inv hp h all)
        ]
      ]
    ]
