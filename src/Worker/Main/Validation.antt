-- ===== src/Worker/Main/Validation.antt =====
-- The loop in which the agent corrects its artifacts, in conductor-and-worker/worker/go-worker/worker.go.
use aws_demo.Base.{
  ℕ, zero, suc, ◌+◌, ◌≤◌, ◌<◌, ◌≡◌, refl, ap, Bool, true, false, Option, none, some, Result, ok,
  err, if◌then◌else◌, ◌==◌, ==_iff, Bool-cases, Result-cases, inl, inr, arith,
}
use aws_demo.Text.{Text}
use aws_demo.Worker.{Machine, default_worker_runtime_paths}
use aws_demo.Worker.Artifacts.{ArtifactFailure, CodexRunResult, validate_worker_codex_artifacts}
use aws_demo.Worker.Process.{
  Report, validation_failed, correction_prompt_failed, Process, ◌>>=◌, read, change, call,
}
use aws_demo.Worker.Transfers.{Client}
use aws_demo.Worker.Main.{
  Ending, panicked, dial_failed, handshake_failed, request_failed, dirs_failed, reported,
  report_failed, upload_failed, shutdown_failed, finished, wrk_max_validation_attempts,
  Surroundings, correction_prompt, report_codex_error_and_exit, or_report, validation_loop,
}

-- The report that a run ended with, sent or not.
abbrev pub report_of : Ending → Option Report
report_of panicked = none
report_of dial_failed = none
report_of handshake_failed = none
report_of (request_failed f) = none
report_of dirs_failed = none
report_of (reported report) = some report
report_of (report_failed report) = some report
report_of (upload_failed f) = none
report_of (shutdown_failed link) = none
report_of (finished link) = none

not_last :
    (attempt remaining : ℕ)
    → attempt + suc remaining ≡ 5
    → (attempt == wrk_max_validation_attempts) ≡ false
    → 0 < remaining
not_last attempt remaining total more = ground arith

module _ {W : Type 0} (m : Machine W) (client : Client W) (s : Surroundings W) where
  abbrev checked_at : W → Result ArtifactFailure CodexRunResult
  checked_at w = validate_worker_codex_artifacts m w default_worker_runtime_paths

  -- The worlds before each attempt, from the first one in `start`: every attempt before failed, and
  -- the agent answered a prompt with the errors of that attempt.
  pub data Corrected (start : W) : ℕ → W → Type 0 where
    first_attempt : Corrected start 1 start
    corrected :
        (attempt : ℕ) (w w' : W) (failure : ArtifactFailure) (answer : Text)
        → Corrected start attempt w
        → checked_at w ≡ err failure
        → m.prompt w (correction_prompt m client s failure (attempt + 1)) ≡ (ok answer, w')
        → Corrected start (attempt + 1) w'

  -- Why the loop ends the process: the last attempt failed, or the agent did not answer.
  pub data GivenUp (start : W) : Report → Type 0 where
    last_failed :
        (w : W) (failure : ArtifactFailure)
        → Corrected start wrk_max_validation_attempts w
        → checked_at w ≡ err failure
        → GivenUp start (validation_failed failure)
    unanswered :
        (attempt : ℕ) (w : W) (failure : ArtifactFailure) (e : Text)
        → attempt < wrk_max_validation_attempts
        → Corrected start attempt w
        → checked_at w ≡ err failure
        → (m.prompt w (correction_prompt m client s failure (attempt + 1))).0 ≡ err e
        → GivenUp start (correction_prompt_failed e)

  abbrev pub LoopEnds : W → Result Ending CodexRunResult × Process W → Type 0
  LoopEnds start (ok result, p) =
      (attempt : ℕ) × (attempt ≤ wrk_max_validation_attempts)
      × Corrected start attempt p.world
      × (checked_at p.world ≡ ok result)
  LoopEnds start (err ending, p) =
      (report : Report) × (report_of ending ≡ some report) × GivenUp start report

  answered-report :
      (answered : Bool) (report : Report)
      → report_of (if answered then reported report else report_failed report) ≡ some report
  answered-report true report = refl
  answered-report false report = refl

  report-LoopEnds :
      (start : W) (report : Report) (p : Process W)
      → GivenUp start report
      → LoopEnds start (report_codex_error_and_exit m client s report p)
  unfolding report_codex_error_and_exit ◌>>=◌ call
  report-LoopEnds start report p given =
      (report, answered-report (client.codex_error report p.world).0 report, given)

  loop-LoopEnds :
      (start : W) (remaining attempt : ℕ) (p : Process W)
      → attempt + remaining ≡ 5
      → 0 < remaining
      → Corrected start attempt p.world
      → LoopEnds start (validation_loop m client s remaining attempt p)
  unfolding validation_loop ◌>>=◌ read change or_report report_codex_error_and_exit call
  loop-LoopEnds start zero attempt p total some_left before = absurd (omega arith)
  loop-LoopEnds start (suc remaining) attempt p total some_left before =
      elim (Result-cases (checked_at p.world)) [
        | inl (result, e) ↦ rw e (attempt, omega arith, before, e)
        | inr (failure, e) ↦ elim (Bool-cases (attempt == wrk_max_validation_attempts)) [
          | inl last ↦
              rw (e, last)
                (report-LoopEnds start (validation_failed failure) p (
                  last_failed p.world failure
                    (rw ((==_iff attempt wrk_max_validation_attempts).0 last) at before) e))
          | inr more ↦
              let asked = m.prompt p.world (correction_prompt m client s failure (attempt + 1)) in
              elim (Result-cases asked.0) [
                | inl (answer, e') ↦
                    rw (e, more, e')
                      (loop-LoopEnds start remaining (attempt + 1) (record p { world = asked.1 })
                        (omega arith) (not_last attempt remaining total more)
                        (corrected attempt p.world asked.1 failure answer before e
                          (ap (λ o. (o, asked.1)) e')))
                | inr (x, e') ↦
                    rw (e, more, e')
                      (report-LoopEnds start (correction_prompt_failed x)
                        (record p { world = asked.1 })
                        (unanswered attempt p.world failure x
                          (omega (arith, not_last attempt remaining total more)) before e e'))
              ]
        ]
      ]

-- The loop ends either with the result of a validation of the artifacts that are there when it ends,
-- after at most 4 attempts, each after a failed one and an answered prompt with its errors; or with the
-- report that the fourth attempt failed, or that the agent did not answer such a prompt.
pub validation_loop-LoopEnds :
    {W : Type 0} (m : Machine W) (client : Client W) (s : Surroundings W) (p : Process W)
    → LoopEnds m client s p.world (validation_loop m client s wrk_max_validation_attempts 1 p)
validation_loop-LoopEnds m client s p =
    loop-LoopEnds m client s p.world wrk_max_validation_attempts 1 p refl (omega arith)
      first_attempt
