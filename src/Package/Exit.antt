-- ===== src/Package/Exit.antt =====
-- A thread that exits.
use trequests.Base.{suc, not, ◌&&◌, if◌then◌else◌, ◌≡◌, refl, arith}
use trequests.Destroy.{pool_thread_exit}
use trequests.Launch.Simple.{Returns, Returns-after}
use trequests.Package.{Process, cleanup_global, package_thread_exit}
use trequests.Request.Memory.{Memory, ◌>>◌, return}
use trequests.Thread.Exit.{Exited, pool_thread_exit-Exited}
use trequests.Thread.{ThreadInv}

-- libcurl is cleaned up if the process is being shut down.
abbrev pub CleanedUp : Process → Process → Type 0
CleanedUp p p' =
    (p'.global_cleanups ≡ (if p.is_shutdown then suc p.global_cleanups else p.global_cleanups))
    × (p'.is_initialized ≡ (p.is_initialized && not p.is_shutdown))
    × (p'.global_inits ≡ p.global_inits)

cleanup_global-CleanedUp : (p : Process) → CleanedUp p (cleanup_global p)
unfolding cleanup_global
cleanup_global-CleanedUp p = ground arith

package_thread_exit-eq :
    (p : Process) (w : Memory)
    → package_thread_exit p w ≡ (pool_thread_exit >> return (cleanup_global p)) w
unfolding package_thread_exit
package_thread_exit-eq p w = refl

-- When a thread that is in order (ThreadInv) exits, its pool is freed with no fault: a request that ran
-- in the pool has left it, has failed and waits for its callback, if it has one, but in a deleted
-- interpreter it only leaves the pool; all other requests stay as they were, and the queue, the
-- requests and the sessions refer to each other as they should. libcurl is cleaned up just if the
-- process is being shut down.
pub package_thread_exit-Exited :
    (p : Process) (w : Memory)
    → ThreadInv w
    → Returns (package_thread_exit p w) (λ p' v. CleanedUp p p' × Exited w v)
package_thread_exit-Exited p w inv = rw (package_thread_exit-eq p w) (
    Returns-after pool_thread_exit (return (cleanup_global p)) w
      (λ p' v. CleanedUp p p' × Exited w v) (pool_thread_exit-Exited w inv)
      λ v exited. (cleanup_global-CleanedUp p, exited))
