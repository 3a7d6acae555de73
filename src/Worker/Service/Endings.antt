-- ===== src/Worker/Service/Endings.antt =====
-- The calls of a worker's run by its ending, and what the conductor's registry keeps of them: worker.go
-- of the worker with grpcserver.go of the conductor.
use aws_demo.Base.{
  ◌≡◌, refl, ap, ◌∙◌, Bool, true, false, List, [], ◌∷◌, ◌++◌, Option, none, some, if◌then◌else◌,
  Option-cases, inl, inr, All,
}
use aws_demo.Text.{Text}
use aws_demo.Registry.{WorkerEvent, safely_ended, codex_error, Registry}
use aws_demo.Registry.Keeping.{Keeps, Keeps-refl, Keeps-trans}
use aws_demo.Server.Keeping.{
  worker_starts_handshake-Keeps, worker_requests_work_files-Keeps, worker_uploads_files-Keeps,
}
use aws_demo.Worker.Process.{
  Call, handshake_call, request_files_call, upload_call, codex_error_call, shutdown_call,
}
use aws_demo.Worker.Main.{
  Ending, panicked, dial_failed, handshake_failed, request_failed, dirs_failed, reported,
  report_failed, upload_failed, shutdown_failed, finished,
}
use aws_demo.Worker.Main.Calls.{asked_upload, ready, calls_of}
use aws_demo.Worker.Service.{Handling, send_counted, message_of, serve, serve_calls}

-- The call by which a run takes its leave, and the event under which the conductor keeps it.
pub record Departure : Type 0 where
  pub call : Call
  pub event : WorkerEvent

abbrev pub departure : Ending → Option Departure
departure panicked = none
departure dial_failed = none
departure handshake_failed = none
departure (request_failed f) = none
departure dirs_failed = none
departure (reported e) = some (record { call = codex_error_call e; event = codex_error })
departure (report_failed e) = some (record { call = codex_error_call e; event = codex_error })
departure (upload_failed f) = none
departure (shutdown_failed link) = some (record { call = shutdown_call link; event = safely_ended })
departure (finished link) = some (record { call = shutdown_call link; event = safely_ended })

abbrev pub leaves : Call → Bool
leaves handshake_call = false
leaves request_files_call = false
leaves upload_call = false
leaves (codex_error_call e) = true
leaves (shutdown_call link) = true

-- The calls of a run before it takes its leave.
abbrev pub stays : Ending → List Call
stays panicked = []
stays dial_failed = []
stays handshake_failed = handshake_call ∷ []
stays (request_failed f) = ready
stays dirs_failed = ready
stays (reported e) = ready
stays (report_failed e) = ready
stays (upload_failed f) = ready ++ (if asked_upload f then upload_call ∷ [] else [])
stays (shutdown_failed link) = ready ++ upload_call ∷ []
stays (finished link) = ready ++ upload_call ∷ []

abbrev pub farewell : Option Departure → List Call
farewell none = []
farewell (some d) = d.call ∷ []

calls_of-stays : (e : Ending) → calls_of e ≡ stays e ++ farewell (departure e)
calls_of-stays panicked = refl
calls_of-stays (upload_failed f) =
    elim (asked_upload f)
      as (λ b.
        ready ++ (if b then upload_call ∷ [] else [])
        ≡ (ready ++ (if b then upload_call ∷ [] else [])) ++ []) [ true ↦ refl | false ↦ refl ]
calls_of-stays _ = refl

upload-All :
    (b : Bool) → All (λ c. leaves c ≡ false) (ready ++ (if b then upload_call ∷ [] else []))
upload-All true = (refl, (refl, (refl, tt)))
upload-All false = (refl, (refl, tt))

pub stays-All : (e : Ending) → All (λ c. leaves c ≡ false) (stays e)
stays-All panicked = tt
stays-All dial_failed = tt
stays-All handshake_failed = (refl, tt)
stays-All (upload_failed f) = upload-All (asked_upload f)
stays-All (shutdown_failed link) = upload-All true
stays-All (finished link) = upload-All true
stays-All _ = upload-All false

-- The call of a departure that the conductor serves, if there is one.
abbrev pub heard : (Call → Option Handling) → Option Departure → Option Handling
heard conductor none = none
heard conductor (some d) = conductor d.call

module _ (id : Text) (conductor : Call → Option Handling) where
  serve-Keeps :
      (h : Handling) (c : Call) (r : Registry) → leaves c ≡ false → Keeps r (serve id h c r)
  serve-Keeps h handshake_call r stay = worker_starts_handshake-Keeps h.now (message_of id h) r
  serve-Keeps h request_files_call r stay =
      worker_requests_work_files-Keeps (send_counted h.sends) h.now (message_of id h) h.disk h.files
        r 0
  serve-Keeps h upload_call r stay =
      worker_uploads_files-Keeps h.unzips h.responds h.now h.messages r
  serve-Keeps h (codex_error_call e) r stay = absurd (cc stay)
  serve-Keeps h (shutdown_call link) r stay = absurd (cc stay)

  pub serve_calls-Keeps :
      (cs : List Call) (r : Registry)
      → All (λ c. leaves c ≡ false) cs
      → Keeps r (serve_calls id conductor cs r)
  serve_calls-Keeps [] r stay = Keeps-refl r
  serve_calls-Keeps (c ∷ cs) r stay = elim (Option-cases (conductor c)) [
    | inl e ↦ rw (serve_calls, e) (serve_calls-Keeps cs r stay.1)
    | inr (h, e) ↦
        rw (serve_calls, e)
          (Keeps-trans (serve-Keeps h c r stay.0) (serve_calls-Keeps cs (serve id h c r) stay.1))
  ]

  serve_calls-append :
      (cs ds : List Call) (r : Registry)
      → serve_calls id conductor (cs ++ ds) r
        ≡ serve_calls id conductor ds (serve_calls id conductor cs r)
  serve_calls-append [] ds r = refl
  serve_calls-append (c ∷ cs) ds r = elim (Option-cases (conductor c)) [
    | inl e ↦ rw (serve_calls, e) (serve_calls-append cs ds r)
    | inr (h, e) ↦ rw (serve_calls, e) (serve_calls-append cs ds (serve id h c r))
  ]

  -- The registry after the calls of an ending, from the one before its departure.
  pub serve_calls-calls_of :
      (e : Ending) (r : Registry)
      → serve_calls id conductor (calls_of e) r
        ≡ serve_calls id conductor (farewell (departure e)) (serve_calls id conductor (stays e) r)
  serve_calls-calls_of e r =
      ap (λ cs. serve_calls id conductor cs r) (calls_of-stays e)
      ∙ serve_calls-append (stays e) (farewell (departure e)) r
