-- ===== src/Launch/Opened.antt =====
-- What `treq_SessionCmd` leaves of a thread.
use trequests.Base.{
  suc, ℕ, Bool, true, false, List, [], Option, none, some, Bytes, ◌==◌, ◌≡◌, if◌then◌else◌, refl,
  arith, Bool-cases, inl, inr,
}
use trequests.Create.{session_settings}
use trequests.Launch.Flags.{accepted_flags}
use trequests.Launch.Sessions.{
  SessionReply, refused, not_allocated, handle, SessionArgs, options_with, open_session,
  session_cmd,
}
use trequests.Launch.Simple.{Returns}
use trequests.Options.Compatible.Consistent.{IsConsistent, validate_options-IsConsistent}
use trequests.Options.Compatible.{validate_options}
use trequests.Options.Platform.{Platform, Checked, ok, failed}
use trequests.Options.Validate.{Options}
use trequests.Pool.Members.{contains, Distinct}
use trequests.Request.Memory.{Session, SessionSettings, Memory, update}
use trequests.Request.Settings.{custom}
use trequests.Session.Owned.{session_of}
use trequests.Session.{session_init}
use trequests.Thread.{ThreadInv, core, CoreInv-frame, in_order}

-- A new session, which has no request.
abbrev pub with_session : Memory → SessionSettings → Memory
with_session w s = record w {
  sessions = update w.sessions w.fresh (some (record { settings = s; requests = [] }));
  fresh = suc w.fresh;
}

module _ (w : Memory) (s : SessionSettings) (inv : ThreadInv w) where
  with_session-listed :
      (x z : ℕ)
      → session_of (w.requests x) ≡ some z
      → (t : Session) × ((with_session w s).sessions z ≡ some t) × (contains x t.requests ≡ true)
  with_session-listed x z e =
      let (t, ht, c) = inv.sessions.listed x z e in
      (t, ground (arith, inv.sessions.free w.fresh (omega arith)), c)

  with_session-member :
      (z : ℕ) (t : Session) (x : ℕ)
      → (with_session w s).sessions z ≡ some t
      → contains x t.requests ≡ true
      → session_of (w.requests x) ≡ some z
  with_session-member z t x ht c = elim (Bool-cases (z == w.fresh)) [
    | inl new ↦ absurd (ground arith)
    | inr old ↦ inv.sessions.member z t x (ground arith) c
  ]

  with_session-Distinct :
      (z : ℕ) (t : Session) → (with_session w s).sessions z ≡ some t → Distinct t.requests
  with_session-Distinct z t ht = elim (Bool-cases (z == w.fresh)) [
    | inl new ↦ let e : t ≡ record { settings = s; requests = [] } = ground arith in rw e tt
    | inr old ↦ inv.sessions.distinct z t (ground arith)
  ]

  pub with_session-ThreadInv : ThreadInv (with_session w s)
  with_session-ThreadInv =
      in_order (CoreInv-frame w (with_session w s) (λ x. refl) refl refl (omega arith) (core inv))
        (record {
          listed = with_session-listed;
          member = with_session-member;
          distinct = with_session-Distinct;
          free = λ z le. ground (arith, inv.sessions.free z (omega arith));
        })

-- The thread has the session at a new address, with defaults but without requests, and all else is as
-- it was.
abbrev pub Opened : Memory → ℕ → SessionSettings → Memory → Type 0
Opened w s settings v =
    ThreadInv v
    × (w.sessions s ≡ none)
    × ((x : ℕ)
        → v.sessions x
          ≡ (if x == s then some (record { settings = settings; requests = [] }) else w.sessions x))
    × ((x : ℕ) → v.requests x ≡ w.requests x)
    × (v.queue ≡ w.queue)
    × (v.pool ≡ w.pool)

module _ (p : Platform) (find_exact : List (Bytes × Bytes) → Bytes → Option Bytes) (inited : Bool)
    (w : Memory) (a : SessionArgs) where
  abbrev checks : Checked (Options × Option ℕ × Option Bytes)
  checks = validate_options p custom (options_with a)

  -- The answer of the command and the memory that goes with it.
  abbrev pub Answered : SessionReply → Memory → Type 0
  Answered (refused e) v = (v ≡ w) × (checks ≡ failed e)
  Answered not_allocated v = (v ≡ w) × (inited ≡ false)
  Answered (handle s) v =
      (given : Options × Option ℕ × Option Bytes) × (checks ≡ ok given)
      × (given.0.callback_value ≡ none)
      × Opened w s (session_settings p find_exact given) v

  no_callback :
      (o : Options) (s : Option ℕ) (x : Option Bytes)
      → checks ≡ ok (o, s, x)
      → o.callback_value ≡ none
  unfolding IsConsistent
  no_callback o s x e =
      let (_, consistent) = validate_options-IsConsistent p custom (options_with a) o s x e in
      let kept = accepted_flags p custom (options_with a) o s x e in
      ground (arith, kept, consistent.4)

  open_session-Answered :
      (c : Checked (Options × Option ℕ × Option Bytes))
      → ThreadInv w
      → checks ≡ c
      → Returns (open_session p find_exact inited c w) Answered
  unfolding open_session session_init
  open_session-Answered (failed e) inv is = (refl, is)
  open_session-Answered (ok (o, s, x)) inv is = elim (Bool-cases inited) [
    | inr broken ↦ rw broken (refl, refl)
    | inl good ↦ rw good (
      (o, s, x),
      is,
      no_callback o s x is,
      (
        with_session-ThreadInv w (session_settings p find_exact (o, s, x)) inv,
        inv.sessions.free w.fresh (omega arith),
        (λ y. refl),
        (λ y. refl),
        refl,
        refl,
      ),
    )
  ]

  -- While the thread is in order (ThreadInv), the command of a new session answers with the message
  -- of a failed check of its options, or that libcurl gives no share handle, and changes nothing;
  -- or it answers with the handle of a session at a new address, whose defaults are those of the
  -- options and which has no callback: all else is as it was, and the thread is in order.
  pub session_cmd-Answered : ThreadInv w → Returns (session_cmd p find_exact inited a w) Answered
  unfolding session_cmd
  session_cmd-Answered inv = open_session-Answered checks inv refl
