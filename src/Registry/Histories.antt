-- ===== src/Registry/Histories.antt =====
-- Every interleaving of what holds a mutex of the registry: a registration, an event on a worker that
-- a pointer leads to, a removal. The handlers that take it several times, such as
-- recordWorkerErrorAndDeregister, interleave as these steps; run without interruption they are steps
-- of their own.
use aws_demo.Base.{
  length, arith, arith, ℕ, ◌≡◌, sym, ap, Result, ok, err, any, Bool-cases, Option-cases, inl, inr,
}
use aws_demo.Text.{Text}
use aws_demo.Registry.{
  WorkerSpawnConfig, WorkerEvent, Payload, Registry, RegistryError, has_id, handshake_succeeded,
  safely_ended, codex_error, new_worker_registry, with_worker, record_event, record_for, remove_for,
  get_required_worker, register_spawned_worker, remove_worker, register_worker_handshake,
  register_worker_safely_ended, record_worker_error_and_deregister, wait_fargate_and_deregister,
}
use aws_demo.Registry.Invariant.{
  IsWellFormed, with_worker-IsWellFormed, record_event-IsWellFormed, remove_worker-IsWellFormed,
}

-- A step of some handler. `registers`, `records` and `removes` hold a mutex while they run; `records`
-- is recordEvent on the worker that the handler's pointer leads to. The others are handlers that
-- nothing interrupts.
pub data IsStep : Registry → Registry → Type 0 where
  registers :
      (conf : WorkerSpawnConfig) (r r' : Registry) (p : ℕ)
      → register_spawned_worker conf r ≡ ok (p, r')
      → IsStep r r'
  records :
      (now : ℕ) (kind : WorkerEvent) (payload : Payload) (p : ℕ) (r : Registry)
      → IsStep r (record_event now kind payload p r)
  shakes :
      (now : ℕ) (id : Text) (payload : Payload) (r : Registry)
      → IsStep r (register_worker_handshake now id payload r).1
  ends :
      (now : ℕ) (id : Text) (payload : Payload) (r : Registry)
      → IsStep r (register_worker_safely_ended now id payload r).1
  fails :
      (now : ℕ) (id : Text) (payload : Payload) (r : Registry)
      → IsStep r (record_worker_error_and_deregister now id payload r).1
  removes : (id : Text) (r : Registry) → IsStep r (wait_fargate_and_deregister id r).1

pub data IsHistory : Registry → Type 0 where
  starts : IsHistory new_worker_registry
  steps : (r r' : Registry) → IsHistory r → IsStep r r' → IsHistory r'

register-IsWellFormed :
    (conf : WorkerSpawnConfig) (r r' : Registry) (p : ℕ)
    → IsWellFormed r
    → register_spawned_worker conf r ≡ ok (p, r')
    → IsWellFormed r'
unfolding register_spawned_worker
register-IsWellFormed conf r r' p h e =
    elim (Bool-cases (any (has_id conf.worker_id r.objects) r.workers)) [
      | inl taken ↦ absurd (cc (rw (taken, register_spawned_worker) at e))
      | inr free ↦
          let k = rw (free, register_spawned_worker) at e in
          let same : ◌≡◌ {A = ℕ × Registry} (length r.objects, with_worker conf r) (p, r') = cc k in
          rw (sym (ap (λ o. o.1) same)) (with_worker-IsWellFormed conf r free h)
    ]

record_for-IsWellFormed :
    (now : ℕ) (kind : WorkerEvent) (payload : Payload) (x : Result RegistryError ℕ) (r : Registry)
    → IsWellFormed r
    → IsWellFormed (record_for now kind payload x r).1
unfolding record_for
record_for-IsWellFormed now kind payload (ok p) r h =
    record_event-IsWellFormed now kind payload p r h
record_for-IsWellFormed now kind payload (err e) r h = h

remove_for-IsWellFormed :
    (id : Text) (x : Result RegistryError ℕ) (r : Registry)
    → IsWellFormed r
    → IsWellFormed (remove_for id (x, r)).1
unfolding remove_for
remove_for-IsWellFormed id (err e) r h = h
remove_for-IsWellFormed id (ok p) r h =
    let w = remove_worker-IsWellFormed id r h in
    elim (Option-cases (remove_worker id r).0) [
      | inl e ↦ rw (e, remove_for) w
      | inr (f, e) ↦ rw (e, remove_for) w
    ]

step-IsWellFormed : (r r' : Registry) → IsStep r r' → IsWellFormed r → IsWellFormed r'
unfolding register_worker_handshake register_worker_safely_ended record_worker_error_and_deregister
step-IsWellFormed r r' (registers conf s s' p e) h = register-IsWellFormed conf s s' p h e
step-IsWellFormed r r' (records now kind payload p s) h =
    record_event-IsWellFormed now kind payload p s h
step-IsWellFormed r r' (shakes now id payload s) h =
    record_for-IsWellFormed now handshake_succeeded payload (get_required_worker id s) s h
step-IsWellFormed r r' (ends now id payload s) h =
    record_for-IsWellFormed now safely_ended payload (get_required_worker id s) s h
step-IsWellFormed r r' (fails now id payload s) h =
    remove_for-IsWellFormed id (record_for now codex_error payload (get_required_worker id s) s).0
      (record_for now codex_error payload (get_required_worker id s) s).1
      (record_for-IsWellFormed now codex_error payload (get_required_worker id s) s h)
step-IsWellFormed r r' (removes id s) h = remove_worker-IsWellFormed id s h

-- After any sequence of the registry's operations from the empty registry, whatever the order in
-- which the handlers take the mutex, every address of the slice is that of an object and no two
-- registered workers share an ID.
pub history-IsWellFormed : (r : Registry) → IsHistory r → IsWellFormed r
history-IsWellFormed r starts = record { valid = tt; unique = λ id. omega arith }
history-IsWellFormed r (steps s r' t step) = step-IsWellFormed s r' step (history-IsWellFormed s t)
