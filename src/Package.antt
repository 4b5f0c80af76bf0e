-- ===== src/Package.antt =====
-- src/library.c and src/library.h: the initialisation of the package and its exit handlers. A process
-- has one `glob`; each interpreter that loads the package calls `Trequests_Init` in its thread.
pub mod Life
pub mod Exit
use trequests.Base.{
  ℕ, suc, Bool, true, false, List, [], ◌∷◌, Option, none, some, Bytes, codes, if◌then◌else◌, ◌==◌,
}
use trequests.Destroy.{pool_thread_exit}
use trequests.Request.Memory.{M, ◌>>=◌, ◌>>◌, return, skip}
use trequests.Request.Settings.{Method, head, get, post, put, patch, delete}

-- `glob`, the calls of libcurl that are made once in a while, and the handlers that Tcl is to run: when
-- the process exits, and when a thread does.
pub record Process : Type 0 where
  pub is_initialized : Bool
  pub is_shutdown : Bool
  pub global_inits : ℕ
  pub global_cleanups : ℕ
  pub exit_handlers : ℕ
  pub thread_exit_handlers : ℕ → ℕ

-- A process in which no interpreter has loaded the package.
abbrev pub new_process : Process
new_process = record {
  is_initialized = false;
  is_shutdown = false;
  global_inits = 0;
  global_cleanups = 0;
  exit_handlers = 0;
  thread_exit_handlers = λ t. 0;
}

-- What `Trequests_Init` does under the mutex.
unfoldable pub init_global : Process → Process
init_global p = if p.is_initialized then p else record p {
  global_inits = suc p.global_inits;
  exit_handlers = suc p.exit_handlers;
  is_initialized = true;
}

abbrev add_thread_exit_handler : ℕ → Process → Process
add_thread_exit_handler t p = record p {
  thread_exit_handlers =
      λ x. if x == t then suc (p.thread_exit_handlers x) else p.thread_exit_handlers x;
}

-- The procedures of the commands, the first with its client data: a method, or NULL for `none`.
pub data CommandProc : Type 0 where
  request_proc : Option Method → CommandProc
  session_proc curl_version_proc : CommandProc

-- What an interpreter that loads the package gets.
pub record Loaded : Type 0 where
  pub namespaces : List Bytes
  pub package_commands : List (Bytes × CommandProc)
  pub pkgconfig : List (Bytes × Bytes)
  pub provided : Bytes

abbrev pub registered_commands : List (Bytes × CommandProc)
registered_commands =
    (codes "::trequests::request", request_proc none)
    ∷ (codes "::trequests::head", request_proc (some head))
    ∷ (codes "::trequests::get", request_proc (some get))
    ∷ (codes "::trequests::post", request_proc (some post))
    ∷ (codes "::trequests::put", request_proc (some put))
    ∷ (codes "::trequests::patch", request_proc (some patch))
    ∷ (codes "::trequests::delete", request_proc (some delete))
    ∷ (codes "::trequests::session", session_proc)
    ∷ (codes "::trequests::curl_version", curl_version_proc)
    ∷ []

-- `treq_pkgconfig`
abbrev pub treq_pkgconfig : Bool → Bytes → List (Bytes × Bytes)
treq_pkgconfig testing version =
    (codes "package-version", version)
    ∷ (codes "testing-mode", if testing then codes "1" else codes "0")
    ∷ []

-- `Trequests_Init` in a thread: `stubs` says whether `Tcl_InitStubs` succeeds, and the result is `none`
-- for TCL_ERROR. The version and the testing mode are those of the build.
unfoldable pub trequests_init : Bool → Bytes → Bool → ℕ → Process → Option Loaded × Process
unfolding init_global
trequests_init testing version stubs t p =
    if stubs
    then (
      some (record {
        namespaces =
            codes "::trequests" ∷ codes "::trequests::session" ∷ codes "::trequests::request" ∷ [];
        package_commands = registered_commands;
        pkgconfig = treq_pkgconfig testing version;
        provided = version;
      }),
      add_thread_exit_handler t (init_global p),
    )
    else (none, p)

-- `treq_PackageExitProc`
unfoldable pub package_exit : Process → Process
package_exit p = record p { is_shutdown = true }

-- The end of `treq_PackageThreadExitProc`.
unfoldable pub cleanup_global : Process → Process
cleanup_global p =
    if p.is_shutdown
    then record p { global_cleanups = suc p.global_cleanups; is_initialized = false }
    else p

-- `treq_SessionThreadExitProc`
abbrev pub session_thread_exit : M (Unit {0})
session_thread_exit = skip

-- `treq_PackageThreadExitProc`, in a thread and its process.
unfoldable pub package_thread_exit : Process → M Process
unfolding cleanup_global
package_thread_exit p = do session_thread_exit; pool_thread_exit; return (cleanup_global p)
