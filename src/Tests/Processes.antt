-- ===== src/Tests/Processes.antt =====
-- The theorems on the package, in a process in which one interpreter has loaded it.
use trequests.Base.{true, false, if◌then◌else◌, codes, ◌≡◌, refl}
use trequests.Launch.Simple.{Returns}
use trequests.Package.Exit.{package_thread_exit-Exited, CleanedUp}
use trequests.Package.Life.{Life, starts, goes_on, loads, Life-cleanups, cleanup_times}
use trequests.Package.{Process, new_process, trequests_init, package_exit, package_thread_exit}
use trequests.Tests.Running.{thread-ThreadInv}
use trequests.Tests.Threads.{thread}
use trequests.Thread.Exit.{Exited}

abbrev loaded : Process
loaded = (trequests_init false (codes "1.0") true 5 new_process).1

loaded-Life : Life loaded
loaded-Life = goes_on starts (loads false (codes "1.0") true 5)

Life-cleanups_example :
    (loaded.global_inits ≡ (if loaded.is_initialized then 1 else 0))
    × (loaded.global_cleanups ≡ 0)
    × ((cleanup_times 2 (package_exit loaded)).global_inits ≡ loaded.global_inits)
    × ((cleanup_times 2 (package_exit loaded)).global_cleanups ≡ 2)
Life-cleanups_example = Life-cleanups {p = loaded} 2 loaded-Life (unfold trequests_init in refl)

package_thread_exit-Exited_example :
    Returns (package_thread_exit loaded thread) (λ p v. CleanedUp loaded p × Exited thread v)
package_thread_exit-Exited_example = package_thread_exit-Exited loaded thread thread-ThreadInv
