-- ===== src/Server/Deregister.antt =====
-- The two handlers that end a worker: WorkerStartsShutdown and WorkerSendsCodexError.
use aws_demo.Base.{ap, ℕ, ◌≡◌, refl, ◌∙◌, false, [], ◌∷◌, some, Result, ok}
use aws_demo.Text.{Text, is_empty}
use aws_demo.Registry.{
  remove_for, record_for, WorkerEvent, Registry, request_message, get_worker, get_required_worker,
  safely_ended, codex_error, record_event, remove_worker, register_worker_safely_ended,
  record_worker_error_and_deregister, validate_worker_id,
}
use aws_demo.Registry.Invariant.{IsWellFormed}
use aws_demo.Registry.Lookup.{IsGone, remove_worker-IsGone, removed}
use aws_demo.Server.{
  answer, deregister, validated, Message, ServerError, general_response, worker_starts_shutdown,
  worker_sends_codex_error,
}

-- The registry after the event and the removal.
abbrev pub end_worker : ℕ → WorkerEvent → Message → ℕ → Registry → Registry
end_worker now kind msg p r =
    (remove_worker msg.worker_id (record_event now kind (request_message msg.worker_message) p r)).1

pub validated-named :
    {A : Type 0} (id : Text) (r : Registry) (rest : Result ServerError A × Registry)
    → is_empty id ≡ false
    → validated id r rest ≡ rest
unfolding validate_worker_id
validated-named [] r rest h = absurd (cc h)
validated-named (c ∷ id) r rest h = refl

pub get_required_worker-found :
    (id : Text) (r : Registry) (p : ℕ) → get_worker id r ≡ some p → get_required_worker id r ≡ ok p
unfolding get_required_worker
get_required_worker-found id r p h = rw (h, get_required_worker) refl

pub worker_starts_shutdown-removes :
    (now : ℕ) (msg : Message) (p : ℕ) (r : Registry)
    → is_empty msg.worker_id ≡ false
    → get_worker msg.worker_id r ≡ some p
    → worker_starts_shutdown now msg r ≡ (
      ok (general_response msg.worker_message p (end_worker now safely_ended msg p r)),
      end_worker now safely_ended msg p r,
    )
unfolding worker_starts_shutdown register_worker_safely_ended record_for deregister
worker_starts_shutdown-removes now msg p r named found =
    let payload = request_message msg.worker_message in
    validated-named msg.worker_id r
      (deregister msg (register_worker_safely_ended now msg.worker_id payload r)) named
    ∙ ap (λ x. deregister msg (record_for now safely_ended payload x r))
        (get_required_worker-found msg.worker_id r p found)
    ∙ rw (removed now safely_ended payload msg.worker_id p r found, deregister) refl

pub worker_sends_codex_error-removes :
    (now : ℕ) (msg : Message) (p : ℕ) (r : Registry)
    → is_empty msg.worker_id ≡ false
    → get_worker msg.worker_id r ≡ some p
    → worker_sends_codex_error now msg r ≡ (
      ok (general_response msg.worker_message p (end_worker now codex_error msg p r)),
      end_worker now codex_error msg p r,
    )
unfolding worker_sends_codex_error record_worker_error_and_deregister record_for remove_for
worker_sends_codex_error-removes now msg p r named found =
    let payload = request_message msg.worker_message in
    validated-named msg.worker_id r
      (answer (general_response msg.worker_message)
        (record_worker_error_and_deregister now msg.worker_id payload r))
      named
    ∙ ap
        (λ x.
          answer (general_response msg.worker_message)
            (remove_for msg.worker_id (record_for now codex_error payload x r)))
        (get_required_worker-found msg.worker_id r p found)
    ∙ rw (removed now codex_error payload msg.worker_id p r found, answer, remove_for) refl

-- In a well-formed registry, a shutdown request with a nonempty ID of a registered worker is acknowledged; after it the ID is
-- not found, every other ID is found as before, the worker's object carries the event safely_ended,
-- and the registry is well-formed.
pub worker_starts_shutdown-IsGone :
    (now : ℕ) (msg : Message) (p : ℕ) (r : Registry)
    → IsWellFormed r
    → is_empty msg.worker_id ≡ false
    → get_worker msg.worker_id r ≡ some p
    → ((worker_starts_shutdown now msg r).0
        ≡ ok (general_response msg.worker_message p (worker_starts_shutdown now msg r).1))
      × IsGone msg.worker_id safely_ended p r (worker_starts_shutdown now msg r).1
worker_starts_shutdown-IsGone now msg p r h named found =
    rw (worker_starts_shutdown-removes now msg p r named found) (
      refl,
      remove_worker-IsGone now safely_ended (request_message msg.worker_message) msg.worker_id p r h
          found,
    )

-- In a well-formed registry, an error report with a nonempty ID of a registered worker is
-- acknowledged; after it the ID is not found, every other ID is found as before, the worker's object
-- carries the event codex_error, and the registry is well-formed.
pub worker_sends_codex_error-IsGone :
    (now : ℕ) (msg : Message) (p : ℕ) (r : Registry)
    → IsWellFormed r
    → is_empty msg.worker_id ≡ false
    → get_worker msg.worker_id r ≡ some p
    → ((worker_sends_codex_error now msg r).0
        ≡ ok (general_response msg.worker_message p (worker_sends_codex_error now msg r).1))
      × IsGone msg.worker_id codex_error p r (worker_sends_codex_error now msg r).1
worker_sends_codex_error-IsGone now msg p r h named found =
    rw (worker_sends_codex_error-removes now msg p r named found) (
      refl,
      remove_worker-IsGone now codex_error (request_message msg.worker_message) msg.worker_id p r h
          found,
    )
