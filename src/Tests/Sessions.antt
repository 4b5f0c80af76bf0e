-- ===== src/Tests/Sessions.antt =====
-- The theorem on sessions, in a thread with a session at address 0 and its request 7.
use trequests.Base.{false, [], ◌∷◌, none, some, refl, arith, if◌then◌else◌, ◌==◌}
use trequests.Destroy.Queue.{refers}
use trequests.Destroy.{session_free, holds_event}
use trequests.History.{empty_thread}
use trequests.Request.Memory.{Request, Session, done, Memory, Leaves}
use trequests.Tests.Running.{session_defaults}
use trequests.Tests.Threads.{request_with}
use trequests.Thread.Sessions.{session_free-SessionFreed, SessionFreed}
use trequests.Thread.{ThreadInv}

abbrev answered : Request
answered = record (request_with none done false none) { session = some 0 }

abbrev owner : Session
owner = record { settings = session_defaults; requests = 7 ∷ [] }

abbrev two_commands : Memory
two_commands = record empty_thread {
  requests = λ r. if r == 7 then some answered else none;
  sessions = λ s. if s == 0 then some owner else none;
  fresh = 8;
}

two_commands-ThreadInv : ThreadInv two_commands
unfolding refers holds_event
two_commands-ThreadInv = record {
  books = record {
    member = λ r q e t. absurd (ground arith);
    listed = λ p r e c. absurd (ground arith);
    counted = λ p e. absurd (ground arith);
    distinct = λ p e. absurd (ground arith);
    alive = λ p e. absurd (ground arith);
  };
  queue = record {
    targets = tt;
    queued = λ r q e hq c. absurd (ground arith);
    unique = tt;
    new = λ e le. refl;
  };
  tidy = record { idle = λ r q e t. absurd (ground arith); unused = λ r le. ground arith };
  sessions = record {
    listed = λ r s e. (owner, ground arith, ground arith);
    member = λ s ses r e c. ground arith;
    distinct = λ s ses e. ground arith;
    free = λ s le. ground arith;
  };
  active = record {
    ending = λ d. absurd (ground arith);
    active = λ p e off. absurd (ground arith);
  };
}

session_free-SessionFreed_example :
    Leaves (session_free 0 two_commands) (SessionFreed two_commands 0 owner)
session_free-SessionFreed_example =
    session_free-SessionFreed two_commands 0 owner two_commands-ThreadInv refl
      ((answered, refl, refl), tt)
