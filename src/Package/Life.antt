-- ===== src/Package/Life.antt =====
-- The life of a process that loads the package.
use trequests.Base.{
  ◌+◌, zero, ℕ, suc, Bool, true, false, ◌==◌, ◌≡◌, refl, arith, if◌then◌else◌, Bytes, Bool-cases,
  inl, inr,
}
use trequests.Package.{
  Process, new_process, init_global, trequests_init, package_exit, cleanup_global,
}

abbrev without_exit_handler : Process → ℕ → Process
without_exit_handler p n = record p { exit_handlers = n }

abbrev without_thread_exit_handler : Process → ℕ → ℕ → Process
without_thread_exit_handler p t n = record p {
  thread_exit_handlers = λ x. if x == t then n else p.thread_exit_handlers x;
}

-- What may happen to a process: an interpreter in some thread loads the package, or Tcl runs one of
-- the handlers, of a thread that exits or of the process.
pub data Step : Process → Process → Type 0 where
  loads :
      {p : Process} (testing : Bool) (version : Bytes) (stubs : Bool) (t : ℕ)
      → Step p (trequests_init testing version stubs t p).1
  thread_exits :
      {p : Process} (t n : ℕ)
      → p.thread_exit_handlers t ≡ suc n
      → Step p (cleanup_global (without_thread_exit_handler p t n))
  process_exits :
      {p : Process} (n : ℕ)
      → p.exit_handlers ≡ suc n
      → Step p (package_exit (without_exit_handler p n))

pub data Life : Process → Type 0 where
  starts : Life new_process
  goes_on : {p q : Process} → Life p → Step p q → Life q

-- Until the shutdown, libcurl is initialised once, where the package is loaded, and not cleaned up.
abbrev Once : Process → Type 0
Once p =
    (p.global_inits ≡ (if p.is_initialized then 1 else 0))
    × (p.global_cleanups ≡ 0)
    × (p.exit_handlers ≡ p.global_inits)
    × ((t : ℕ) → (if p.is_initialized then 0 else p.thread_exit_handlers t) ≡ 0)

loads-Once :
    (p : Process) (testing : Bool) (version : Bytes) (stubs : Bool) (t : ℕ)
    → Once p
    → Once (trequests_init testing version stubs t p).1
unfolding trequests_init init_global
loads-Once p testing version false t once = once
loads-Once p testing version true t (inits, cleanups, handlers, none_yet) =
    elim (Bool-cases p.is_initialized) [
      | inl before ↦ rw before (ground arith, cleanups, handlers, λ x. refl)
      | inr first ↦ rw first (ground arith, cleanups, ground arith, λ x. refl)
    ]

Step-running : {p q : Process} → Step p q → q.is_shutdown ≡ false → p.is_shutdown ≡ false
unfolding trequests_init init_global cleanup_global package_exit
Step-running {p} (loads testing version false t) off = off
Step-running {p} (loads testing version true t) off = ground arith
Step-running {p} (thread_exits t n has) off = ground arith
Step-running {p} (process_exits n has) off = absurd (ground arith)

exits-Once :
    (p : Process) (t n : ℕ)
    → p.thread_exit_handlers t ≡ suc n
    → p.is_shutdown ≡ false
    → Once p
    → Once (cleanup_global (without_thread_exit_handler p t n))
unfolding cleanup_global
exits-Once p t n has off (inits, cleanups, handlers, none_yet) =
    let loaded : p.is_initialized ≡ true = ground (arith, none_yet t) in
    rw (off, loaded) (ground arith, cleanups, handlers, λ x. refl)

Step-Once : {p q : Process} → Step p q → q.is_shutdown ≡ false → Once p → Once q
unfolding package_exit
Step-Once {p} (loads testing version stubs t) off once = loads-Once p testing version stubs t once
Step-Once {p} (thread_exits t n has) off once =
    exits-Once p t n has (Step-running (thread_exits t n has) off) once
Step-Once {p} (process_exits n has) off once = absurd (ground arith)

Life-Once : {p : Process} → Life p → p.is_shutdown ≡ false → Once p
Life-Once starts off = (refl, refl, refl, λ t. refl)
Life-Once (goes_on before step) off = Step-Once step off (Life-Once before (Step-running step off))

-- So many handlers of threads that exit are run.
unfoldable pub cleanup_times : ℕ → Process → Process
unfolding cleanup_global
cleanup_times zero p = p
cleanup_times (suc n) p = cleanup_times n (cleanup_global p)

cleanup_times-shutdown :
    (n : ℕ) (p : Process)
    → p.is_shutdown ≡ true
    → ((cleanup_times n p).global_inits ≡ p.global_inits)
      × ((cleanup_times n p).global_cleanups ≡ p.global_cleanups + n)
unfolding cleanup_times cleanup_global
cleanup_times-shutdown zero p off = (refl, omega arith)
cleanup_times-shutdown (suc n) p off =
    let (inits, cleanups) = cleanup_times-shutdown n (cleanup_global p) (ground arith) in
    (ground arith, ground arith)

-- However interpreters load the package and threads exit, until the process is shut down libcurl is
-- initialised once, if the package is loaded, and never cleaned up; and once the process is being shut
-- down, every handler of a thread that exits cleans libcurl up, so that it is cleaned up as many times
-- as handlers run, though it was initialised at most once.
pub Life-cleanups :
    {p : Process} (n : ℕ)
    → Life p
    → p.is_shutdown ≡ false
    → (p.global_inits ≡ (if p.is_initialized then 1 else 0))
      × (p.global_cleanups ≡ 0)
      × ((cleanup_times n (package_exit p)).global_inits ≡ p.global_inits)
      × ((cleanup_times n (package_exit p)).global_cleanups ≡ n)
unfolding package_exit
Life-cleanups {p} n life off =
    let (inits, cleanups, _, _) = Life-Once life off in
    let (same, more) = cleanup_times-shutdown n (package_exit p) refl in
    (inits, cleanups, same, ground arith)
