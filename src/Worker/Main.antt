-- ===== src/Worker/Main.antt =====
-- The worker's run: main of conductor-and-worker/worker/go-worker/worker.go, less its debugging path,
-- with the prompts and the transcript of worker-runtime.go.
pub mod Calls
pub mod Validation
use aws_demo.Base.{
  ℕ, zero, suc, ◌+◌, ◌/◌, ◌%◌, ◌≡◌, Bool, true, false, not, List, [], ◌∷◌, ◌++◌, Option, none, some,
  Result, ok, err, if◌then◌else◌, ◌==◌,
}
use aws_demo.Text.{is_empty, Text, codes}
use aws_demo.Text.Decimal.{digits, decimal}
use aws_demo.Json.{Json}
use aws_demo.Transcript.{TranscriptError, extract_transcript_text}
use aws_demo.Transcript.Values.{tokens}
use aws_demo.Worker.{Machine, WorkerRuntimePaths, Problem, default_worker_runtime_paths}
use aws_demo.Worker.Artifacts.{
  ArtifactFailure, CodexRunResult, validate_worker_codex_artifacts, find_optional_worker_git_repo,
  format_validation_error_for_prompt,
}
use aws_demo.Worker.Process.{
  Report, initial_prompt_failed, ending_prompt_failed, correction_prompt_failed, validation_failed,
  transcript_unreadable, transcript_unextractable, publishing_failed, Call, handshake_call,
  codex_error_call, shutdown_call, Process, Run, pure, fail, lift, on_result, on_found, ◌>>=◌, ◌>>◌,
  read, change, call, check, rename, with_errors,
}
use aws_demo.Worker.Transfers.{Client, TransferFailure, request_work_files, upload_files}
use aws_demo.Worker.Publishing.{
  ReportMarkdown, write_git_hub_report_markdown, create_pull_request_from_worker_repo,
  create_failed_worker_git_hub_issue, write_git_hub_link_file,
}

-- How the process ends: a panic, log.Fatalf at some point, or the return of main.
pub data Ending : Type 0 where
  panicked dial_failed handshake_failed : Ending
  request_failed : TransferFailure → Ending
  dirs_failed : Ending
  reported report_failed : Report → Ending
  upload_failed : TransferFailure → Ending
  shutdown_failed finished : Option Text → Ending

abbrev pub wrk_max_validation_attempts : ℕ
wrk_max_validation_attempts = 4

-- buildWorkerArtifactCorrectionPrompt, with the validation errors as formatted for a prompt
unfoldable pub build_worker_artifact_correction_prompt : WorkerRuntimePaths → Text → ℕ → ℕ → Text
unfolding digits
build_worker_artifact_correction_prompt paths errors attempt max_attempts =
    codes
      "# Worker Artifact Correction Required\n\nThe worker could not continue because required output artifacts are missing or invalid.\n\nThis is validation attempt "
    ++ (decimal attempt
        ++ (codes " of "
            ++ (decimal max_attempts
                ++ (codes
                      ".\n\nFix the exact issues below, then stop. Do not redo unrelated work.\n\nValidation errors:\n\n"
                    ++ (errors
                        ++ (codes "\n\nRequired protocol:\n\n- Write "
                            ++ (paths.job_success_path
                                ++ (codes
                                      " with exactly true or false.\n- Use true only when the repo work is complete, committed, and ready for PR creation.\n- Use false when the task is blocked or should not create a PR.\n- Place exactly one Git repo under "
                                    ++ (paths.repo_root_dir
                                        ++ (codes
                                              ".\n- When successful, the repo must be on a feature branch with committed changes relative to main.\n- Write the final report to "
                                            ++ (paths.ending_report_path ++ codes ".\n")))))))))))

-- `gitHubPublicationURL != ""`
abbrev pub published : Text → Option Text
published [] = none
published (c ∷ url) = some (c ∷ url)

-- What the process finds when it starts: its variables, and whether the agent's client, its thread and
-- the connection can be made; the worker's ID; the embedded prompts; the wording of problems; and what
-- ThreadRead and its encoding as JSON answer.
pub record Surroundings (W : Type 0) : Type 0 where
  pub server_addr : Text
  pub worker_id : Text
  pub has_agent : Bool
  pub has_thread : Bool
  pub dials : Bool
  pub initial_worker_prompt : Text
  pub ending_report : Text
  pub wording : Problem → Text
  pub thread : W → Option Json

module _ {W : Type 0} (m : Machine W) (client : Client W) (s : Surroundings W) where
  -- reportCodexErrorAndExit
  unfoldable pub report_codex_error_and_exit : {A : Type 0} → Report → Run W Ending A
  report_codex_error_and_exit report = do
    answered ← call (codex_error_call report) (client.codex_error report)
    fail (if answered then reported report else report_failed report)

  -- `if err != nil { reportCodexErrorAndExit }`
  unfoldable pub or_report : {A : Type 0} → Result Report A → Run W Ending A
  or_report (ok a) = pure a
  or_report (err e) = report_codex_error_and_exit e

  -- A step that is not a call of the conductor, and whose error is reported.
  unfoldable pub reporting : {A E : Type 0} → (E → Report) → Run W E A → Run W Ending A
  unfolding or_report
  reporting f step p = let (r, p') = step p in or_report (rename f r) p'

  abbrev pub correction_prompt : ArtifactFailure → ℕ → Text
  correction_prompt failure attempt =
      build_worker_artifact_correction_prompt default_worker_runtime_paths
        (format_validation_error_for_prompt s.wording (some failure)) attempt
        wrk_max_validation_attempts

  -- The loop over the attempts, with those that remain.
  unfoldable pub validation_loop : ℕ → ℕ → Run W Ending CodexRunResult
  validation_loop zero attempt =
      pure (record { should_create_pull_request = false; repo_path = [] })
  validation_loop (suc remaining) attempt = do
    checked ← read (λ w. validate_worker_codex_artifacts m w default_worker_runtime_paths)
    on_result checked pure λ failure.
        if attempt == wrk_max_validation_attempts
        then report_codex_error_and_exit (validation_failed failure)
        else do
          answer ← change (λ w. m.prompt w (correction_prompt failure (attempt + 1)))
          or_report (rename correction_prompt_failed answer)
          validation_loop remaining (attempt + 1)

  -- readCodexThreadTranscriptText
  unfoldable pub read_codex_thread_transcript_text : W → Result Report Text
  read_codex_thread_transcript_text w = elim (s.thread w) [
    | none ↦ err transcript_unreadable
    | some v ↦ rename (λ e. transcript_unextractable) (extract_transcript_text true (tokens v))
  ]

  abbrev pub dirs : List Text
  dirs =
      default_worker_runtime_paths.repo_root_dir ∷ default_worker_runtime_paths.agent_meta_dir ∷ []

  -- ensureDirsExist
  unfoldable pub ensure_dirs_exist : List Text → Run W Ending Unit
  ensure_dirs_exist [] = pure tt
  ensure_dirs_exist (dir ∷ rest) = do
    made ← change (λ w. m.make_dir w dir)
    check made dirs_failed
    ensure_dirs_exist rest

  unfoldable pub publish_pull_request : Text → ReportMarkdown → Run W Ending (Option Text)
  publish_pull_request repo report = do
    made ←
        reporting publishing_failed
          (create_pull_request_from_worker_repo m repo report.path report.title s.worker_id)
    pure (published made.url)

  unfoldable pub publish_issue : ReportMarkdown → Run W Ending (Option Text)
  publish_issue report = do
    found ← read (λ w. find_optional_worker_git_repo m w default_worker_runtime_paths)
    on_found found (pure none) λ repo. do
      made ←
          reporting publishing_failed
            (create_failed_worker_git_hub_issue m repo report.path report.title)
      pure (published made.url)

  -- The pull request, the issue, or nothing; the link that was published.
  abbrev pub publish : CodexRunResult → ReportMarkdown → Run W Ending (Option Text)
  publish result report =
      if result.should_create_pull_request
      then publish_pull_request result.repo_path report
      else publish_issue report

  unfoldable pub write_link : Option Text → Run W Ending Unit
  write_link none = pure tt
  write_link (some url) =
      reporting publishing_failed (write_git_hub_link_file m default_worker_runtime_paths url)

  -- From the start to the directories.
  unfoldable pub set_up : Run W Ending Unit
  unfolding ensure_dirs_exist
  set_up = do
    check (not (is_empty s.server_addr)) panicked
    check (not (is_empty s.worker_id)) panicked
    check s.has_agent panicked
    check s.has_thread panicked
    check s.dials dial_failed
    shaken ← call handshake_call client.handshake
    check shaken handshake_failed
    with_errors request_failed (request_work_files client)
    ensure_dirs_exist dirs

  -- The agent's turns, and what is published of them.
  unfoldable pub work : Run W Ending (Option Text)
  unfolding write_link
  work = do
    answer ← change (λ w. m.prompt w s.initial_worker_prompt)
    or_report (rename initial_prompt_failed answer)
    ending ← change (λ w. m.prompt w s.ending_report)
    or_report (rename ending_prompt_failed ending)
    result ← validation_loop wrk_max_validation_attempts 1
    transcript ← read read_codex_thread_transcript_text
    text ← or_report transcript
    report ←
        reporting publishing_failed
          (write_git_hub_report_markdown m default_worker_runtime_paths text)
    link ← publish result report
    write_link link
    pure link

  -- main
  unfoldable pub run_worker : Run W Ending Ending
  unfolding set_up work
  run_worker = do
    set_up
    link ← work
    with_errors upload_failed (upload_files client s.worker_id)
    ended ← call (shutdown_call link) (client.shutdown link)
    check ended (shutdown_failed link)
    pure (finished link)
