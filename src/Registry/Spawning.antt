-- ===== src/Registry/Spawning.antt =====
-- Spawning a worker, and the workers counted as active.
use aws_demo.Base.{ℕ, ◌≡◌, refl, ap, true, false, none, some, any, length}
use aws_demo.Text.{Text}
use aws_demo.Registry.{
  WorkerSpawnConfig, WorkerLauncher, Registry, already_registered, launch_failed, has_id,
  get_worker, spawn_started, spawn_config, badly_ended, launch_error, record_event, with_worker,
  register_spawned_worker, finish_spawn, spawn_worker,
}
use aws_demo.Registry.Invariant.{IsWellFormed, with_worker-IsWellFormed, record_event-IsWellFormed}
use aws_demo.Registry.Lookup.{IsGone, removed, remove_worker-IsGone}

-- The registry that the launcher starts from.
abbrev pub launching : ℕ → WorkerSpawnConfig → Registry → Registry
launching started conf r =
    record_event started spawn_started (spawn_config conf) (length r.objects) (with_worker conf r)

launching-IsWellFormed :
    (started : ℕ) (conf : WorkerSpawnConfig) (r : Registry)
    → any (has_id conf.worker_id r.objects) r.workers ≡ false
    → IsWellFormed r
    → IsWellFormed (launching started conf r)
launching-IsWellFormed started conf r e h =
    record_event-IsWellFormed started spawn_started (spawn_config conf) (length r.objects)
      (with_worker conf r) (with_worker-IsWellFormed conf r e h)

pub spawn_worker-fresh :
    (started ended : ℕ) (launch : WorkerLauncher) (conf : WorkerSpawnConfig) (r : Registry)
    → any (has_id conf.worker_id r.objects) r.workers ≡ false
    → spawn_worker started ended launch conf r
      ≡ finish_spawn ended conf (length r.objects) (launch conf (launching started conf r))
unfolding spawn_worker register_spawned_worker
spawn_worker-fresh started ended launch conf r e =
    rw (e, spawn_worker, register_spawned_worker) refl

-- A spawn whose ID a registered worker has is refused and changes nothing.
pub spawn_worker-registered :
    (started ended : ℕ) (launch : WorkerLauncher) (conf : WorkerSpawnConfig) (r : Registry)
    → any (has_id conf.worker_id r.objects) r.workers ≡ true
    → spawn_worker started ended launch conf r ≡ (some (already_registered conf.worker_id), r)
unfolding spawn_worker register_spawned_worker
spawn_worker-registered started ended launch conf r e =
    rw (e, spawn_worker, register_spawned_worker) refl

-- After a launch that failed with an error, while a well-formed registry still has the worker under
-- its address, the spawn returns that error, and the worker is gone: its ID is not found, every
-- other ID is found as the launcher left it, and its object carries the event badly_ended.
pub spawn_worker-IsGone :
    (started ended : ℕ) (launch : WorkerLauncher) (conf : WorkerSpawnConfig) (r after : Registry)
    (e : Text)
    → any (has_id conf.worker_id r.objects) r.workers ≡ false
    → launch conf (launching started conf r) ≡ (some e, after)
    → IsWellFormed after
    → get_worker conf.worker_id after ≡ some (length r.objects)
    → ((spawn_worker started ended launch conf r).0 ≡ some (launch_failed conf.worker_id e))
      × IsGone conf.worker_id badly_ended
          (length r.objects)
          after
          (spawn_worker started ended launch conf r).1
unfolding finish_spawn
spawn_worker-IsGone started ended launch conf r after e fresh launched h found =
    rw (spawn_worker-fresh started ended launch conf r fresh, launched)
      (rw
        (
          ap (λ o. o.0)
              (removed ended badly_ended (launch_error e) conf.worker_id (length r.objects) after
                found),
          finish_spawn,
        )
        (
          refl,
          remove_worker-IsGone ended badly_ended (launch_error e) conf.worker_id (length r.objects)
              after h found,
        ))

-- After a launch that succeeded, the spawn returns no error and what the launcher left.
pub spawn_worker-launched :
    (started ended : ℕ) (launch : WorkerLauncher) (conf : WorkerSpawnConfig) (r after : Registry)
    → any (has_id conf.worker_id r.objects) r.workers ≡ false
    → launch conf (launching started conf r) ≡ (none, after)
    → spawn_worker started ended launch conf r ≡ (none, after)
unfolding finish_spawn
spawn_worker-launched started ended launch conf r after fresh launched =
    rw (spawn_worker-fresh started ended launch conf r fresh, launched) refl
