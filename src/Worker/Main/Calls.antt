-- ===== src/Worker/Main/Calls.antt =====
-- Which calls of the conductor a worker has made when it ends.
use aws_demo.Base.{
  not, ℕ, zero, suc, ◌+◌, ◌≡◌, refl, Bool, true, false, List, [], ◌∷◌, ◌++◌, Option, none, some,
  Result, ok, err, if◌then◌else◌, ◌==◌,
}
use aws_demo.Text.{is_empty, Text}
use aws_demo.Transfer.{StreamError}
use aws_demo.Worker.{Machine, default_worker_runtime_paths}
use aws_demo.Worker.Process.{
  Report, validation_failed, correction_prompt_failed, initial_prompt_failed, ending_prompt_failed,
  publishing_failed, Call, handshake_call, request_files_call, upload_call, codex_error_call,
  shutdown_call, Process, Run, fail, lift, rename,
}
use aws_demo.Worker.Process.Goes.{
  Ended, Goes, IsQuiet, Goes-if, Goes-on_result, Goes-on_found, Goes-pure, Goes-fail, Goes-read,
  Goes-change, Goes-call, Goes-lift, Goes-check, Goes-bind, Goes-with_errors,
}
use aws_demo.Worker.Transfers.{
  Client, TransferFailure, old_zip_kept, zip_failed, stream_unopened, zip_unpacked, stream_unclosed,
  receiving_failed, sending_failed, opened, request_work_files, upload_files,
}
use aws_demo.Worker.Publishing.Quiet.{
  write_git_hub_report_markdown-IsQuiet, create_pull_request_from_worker_repo-IsQuiet,
  create_failed_worker_git_hub_issue-IsQuiet, write_git_hub_link_file-IsQuiet,
}
use aws_demo.Worker.Publishing.{ReportMarkdown}
use aws_demo.Worker.Main.{
  Ending, panicked, dial_failed, handshake_failed, request_failed, dirs_failed, reported,
  report_failed, upload_failed, shutdown_failed, finished, wrk_max_validation_attempts,
  Surroundings, report_codex_error_and_exit, or_report, reporting, validation_loop, dirs,
  ensure_dirs_exist, publish_pull_request, publish_issue, write_link, set_up, work, run_worker,
}

-- The upload stream was asked for before the failure.
abbrev pub asked_upload : TransferFailure → Bool
asked_upload old_zip_kept = false
asked_upload zip_failed = false
asked_upload stream_unopened = true
asked_upload zip_unpacked = true
asked_upload stream_unclosed = true
asked_upload (receiving_failed e) = true
asked_upload (sending_failed e) = true

abbrev pub ready : List Call
ready = handshake_call ∷ request_files_call ∷ []

abbrev uploaded : List Call
uploaded = ready ++ upload_call ∷ []

-- All calls of a run, by how it ended.
abbrev pub calls_of : Ending → List Call
calls_of panicked = []
calls_of dial_failed = []
calls_of handshake_failed = handshake_call ∷ []
calls_of (request_failed f) = ready
calls_of dirs_failed = ready
calls_of (reported e) = ready ++ codex_error_call e ∷ []
calls_of (report_failed e) = ready ++ codex_error_call e ∷ []
calls_of (upload_failed f) = ready ++ (if asked_upload f then upload_call ∷ [] else [])
calls_of (shutdown_failed link) = ready ++ upload_call ∷ shutdown_call link ∷ []
calls_of (finished link) = ready ++ upload_call ∷ shutdown_call link ∷ []

-- What a step that is not a call leaves to the handling of its error.
module _ {W : Type 0} (m : Machine W) (client : Client W) (s : Surroundings W) where
  answered-Goes :
      {A : Type 0} (report : Report) (answered : Bool) (post : A → List Call)
      → Goes {W = W}
          (ready ++ codex_error_call report ∷ [])
          (fail (if answered then reported report else report_failed report))
          post
          calls_of
  answered-Goes report true post = Goes-fail refl
  answered-Goes report false post = Goes-fail refl

  report-Goes :
      {A : Type 0} (report : Report) (post : A → List Call)
      → Goes ready (report_codex_error_and_exit m client s report) post calls_of
  unfolding report_codex_error_and_exit
  report-Goes report post =
      Goes-bind _ (Goes-call (codex_error_call report) (client.codex_error report) ready)
        (λ answered. answered-Goes report answered post)

  or_report-Goes :
      {A : Type 0} (r : Result Report A) → Goes ready (or_report m client s r) (λ a. ready) calls_of
  unfolding or_report
  or_report-Goes (ok a) = Goes-pure (λ a. ready) refl
  or_report-Goes (err e) = report-Goes e (λ a. ready)

  or_report-Ended :
      {A E : Type 0} (f : E → Report) (r : Result E A × Process W)
      → Ended (λ a. ready) (λ e. ready) r
      → Ended (λ a. ready) calls_of (or_report m client s (rename f r.0) r.1)
  or_report-Ended f (ok a, p) h = (or_report-Goes (ok a)).at p h
  or_report-Ended f (err e, p) h = (or_report-Goes (err (f e))).at p h

  reporting-Goes :
      {A E : Type 0} (f : E → Report) (step : Run W E A)
      → IsQuiet ready step
      → Goes ready (reporting m client s f step) (λ a. ready) calls_of
  unfolding reporting
  reporting-Goes f step h = record { at = λ p e. or_report-Ended f (step p) (h.at p e) }

  loop-Goes :
      (remaining attempt : ℕ)
      → Goes ready (validation_loop m client s remaining attempt) (λ r. ready) calls_of
  unfolding validation_loop
  loop-Goes zero attempt = Goes-pure (λ a. ready) refl
  loop-Goes (suc remaining) attempt = Goes-bind _ (Goes-read _ ready) λ checked.
      Goes-on_result checked (λ result. Goes-pure (λ a. ready) refl)
        λ failure.
          Goes-if (attempt == wrk_max_validation_attempts)
            (report-Goes (validation_failed failure) (λ a. ready))
            (Goes-bind _ (Goes-change _ ready) λ answer.
              Goes-bind _ (or_report-Goes (rename correction_prompt_failed answer))
                λ u. loop-Goes remaining (attempt + 1))

  publish_pull_request-Goes :
      (repo : Text) (report : ReportMarkdown)
      → Goes ready (publish_pull_request m client s repo report) (λ a. ready) calls_of
  unfolding publish_pull_request
  publish_pull_request-Goes repo report =
      Goes-bind _
        (reporting-Goes publishing_failed _ (
          create_pull_request_from_worker_repo-IsQuiet m ready repo report.path report.title
            s.worker_id))
        (λ made. Goes-pure (λ a. ready) refl)

  publish_issue-Goes :
      (report : ReportMarkdown) → Goes ready (publish_issue m client s report) (λ a. ready) calls_of
  unfolding publish_issue
  publish_issue-Goes report = Goes-bind _ (Goes-read _ ready) λ found.
      Goes-on_found found (Goes-pure (λ a. ready) refl) λ repo.
        Goes-bind _
          (reporting-Goes publishing_failed _
            (create_failed_worker_git_hub_issue-IsQuiet m ready repo report.path report.title))
          (λ made. Goes-pure (λ a. ready) refl)

  write_link-Goes :
      (link : Option Text) → Goes ready (write_link m client s link) (λ a. ready) calls_of
  unfolding write_link
  write_link-Goes none = Goes-pure (λ a. ready) refl
  write_link-Goes (some url) =
      reporting-Goes publishing_failed _
        (write_git_hub_link_file-IsQuiet m ready default_worker_runtime_paths url)

  work-Goes : Goes ready (work m client s) (λ link. ready) calls_of
  unfolding work
  work-Goes = Goes-bind _ (Goes-change _ ready) λ answer.
      Goes-bind _ (or_report-Goes (rename initial_prompt_failed answer)) λ u.
        Goes-bind _ (Goes-change _ ready) λ ending.
          Goes-bind _ (or_report-Goes (rename ending_prompt_failed ending)) λ u.
            Goes-bind _ (loop-Goes wrk_max_validation_attempts 1) λ result.
              Goes-bind _ (Goes-read _ ready) λ transcript.
                Goes-bind _ (or_report-Goes transcript) λ text.
                  Goes-bind _
                    (reporting-Goes publishing_failed _ (
                      write_git_hub_report_markdown-IsQuiet m ready default_worker_runtime_paths
                        text))
                    λ report.
                      Goes-bind _
                        (Goes-if result.should_create_pull_request
                          (publish_pull_request-Goes result.repo_path report)
                          (publish_issue-Goes report))
                        λ link.
                          Goes-bind _ (write_link-Goes link) λ u. Goes-pure (λ link. ready) refl

  ensure_dirs_exist-Goes :
      (names : List Text) → Goes ready (ensure_dirs_exist m client s names) (λ u. ready) calls_of
  unfolding ensure_dirs_exist
  ensure_dirs_exist-Goes [] = Goes-pure (λ u. ready) refl
  ensure_dirs_exist-Goes (dir ∷ rest) =
      Goes-bind _ (Goes-change _ ready) λ made.
        Goes-bind _ (Goes-check made dirs_failed ready refl) λ u. ensure_dirs_exist-Goes rest

  request-Goes :
      Goes {W = W}
        (handshake_call ∷ [])
        (request_work_files client)
        (λ u. ready)
        (λ f. calls_of (request_failed f))
  unfolding request_work_files
  request-Goes =
      Goes-bind _ (Goes-call request_files_call client.open_work_files (handshake_call ∷ []))
        λ stream. Goes-bind _ (Goes-lift (opened stream) ready (λ e. refl)) λ messages.
          Goes-bind _ (Goes-lift _ ready (λ e. refl)) λ bytes.
            Goes-bind _ (Goes-change (client.unzip bytes) ready)
              λ unpacked. Goes-check unpacked zip_unpacked ready refl

  set_up-Goes : Goes [] (set_up m client s) (λ u. ready) calls_of
  unfolding set_up
  set_up-Goes = Goes-bind _ (Goes-check (not (is_empty s.server_addr)) panicked [] refl) λ u.
      Goes-bind _ (Goes-check (not (is_empty s.worker_id)) panicked [] refl) λ u.
        Goes-bind _ (Goes-check s.has_agent panicked [] refl) λ u.
          Goes-bind _ (Goes-check s.has_thread panicked [] refl) λ u.
            Goes-bind _ (Goes-check s.dials dial_failed [] refl) λ u.
              Goes-bind _ (Goes-call handshake_call client.handshake []) λ shaken.
                Goes-bind _ (Goes-check shaken handshake_failed (handshake_call ∷ []) refl) λ u.
                  Goes-bind _ (Goes-with_errors request_failed request-Goes)
                    λ u. ensure_dirs_exist-Goes (dirs m client s)

  sent-Goes :
      (r : Result StreamError Unit)
      → Goes {W = W} uploaded
          (lift (rename sending_failed r))
          (λ u. uploaded)
          (λ f. calls_of (upload_failed f))
  sent-Goes (ok u) = Goes-pure (λ u. uploaded) refl
  sent-Goes (err e) = Goes-fail refl

  upload-Goes :
      (id : Text)
      → Goes {W = W} ready
          (upload_files client id)
          (λ u. uploaded)
          (λ f. calls_of (upload_failed f))
  unfolding upload_files
  upload-Goes id = Goes-bind _ (Goes-change client.remove_old_zip ready) λ removed.
      Goes-bind _ (Goes-check removed old_zip_kept ready refl) λ u.
        Goes-bind _ (Goes-change client.zip ready) λ zipped.
          Goes-bind _ (Goes-check zipped zip_failed ready refl) λ u.
            Goes-bind _ (Goes-call upload_call client.open_upload ready) λ is_open.
              Goes-bind _ (Goes-check is_open stream_unopened uploaded refl) λ u.
                Goes-bind _ (Goes-change _ uploaded) λ streamed.
                  Goes-bind _ (sent-Goes streamed) λ u.
                    Goes-bind _ (Goes-change client.close_upload uploaded)
                      λ closed. Goes-check closed stream_unclosed uploaded refl

  run_worker-Goes : Goes [] (run_worker m client s) calls_of calls_of
  unfolding run_worker
  run_worker-Goes = Goes-bind _ set_up-Goes λ u. Goes-bind _ work-Goes λ link.
      Goes-bind _ (Goes-with_errors upload_failed (upload-Goes s.worker_id)) λ u.
        Goes-bind _ (Goes-call (shutdown_call link) (client.shutdown link) uploaded) λ ended.
          Goes-bind _
            (Goes-check ended (shutdown_failed link)
              (ready ++ upload_call ∷ shutdown_call link ∷ []) refl)
            λ u. Goes-pure calls_of refl

-- How a run ended, by the return of main or before.
abbrev pub ending_of : {W : Type 0} → Result Ending Ending × Process W → Ending
ending_of (ok e, p) = e
ending_of (err e, p) = e

Ended-calls :
    {W : Type 0} (r : Result Ending Ending × Process W)
    → Ended calls_of calls_of r
    → r.1.calls ≡ calls_of (ending_of r)
Ended-calls (ok e, p) h = h
Ended-calls (err e, p) h = h

-- A worker that has made no call yet has made exactly the calls `calls_of` its ending when its process
-- ends, whatever its machine, the agent and the conductor answer.
pub run_worker-calls :
    {W : Type 0} (m : Machine W) (client : Client W) (s : Surroundings W) (w : W)
    → (let r = run_worker m client s (record { world = w; calls = [] }) in
        r.1.calls ≡ calls_of (ending_of r))
run_worker-calls m client s w = Ended-calls _ ((run_worker-Goes m client s).at _ refl)
