-- ===== src/Worker/Artifacts.antt =====
-- The checks of worker-files-github.go and worker-runtime.go on what the agent has left.
pub mod Accepted
mod Checks
use aws_demo.Base.{
  ℕ, zero, suc, ◌≡◌, Bool, true, false, not, ◌&&◌, ◌||◌, List, [], ◌∷◌, ◌++◌, map, Option, none,
  some, Result, ok, err, and_then, filter_map, length, if◌then◌else◌,
}
use aws_demo.Text.{Text, codes, text_eq, is_empty, trim_space, join}
use aws_demo.Worker.{
  DirEntry, CommandResult, exited, not_run, Machine, WorkerRuntimePaths, in_dir, Problem,
  marker_unreadable, marker_invalid, root_unreadable, repo_count, branch_unnamed, branch_protected,
  worktree_dirty, no_base_ref, no_delta, report_unreadable, report_empty, command_failed,
  command_output,
}

-- The error of the repository's checks: the first one, or errors.Join of several.
pub data RepoFailure : Type 0 where
  one : Problem → RepoFailure
  several : List Problem → RepoFailure

-- The error of all checks: that of the marker, or errors.Join of several.
pub data ArtifactFailure : Type 0 where
  marker_failed : Problem → ArtifactFailure
  joined : List RepoFailure → ArtifactFailure

-- WorkerCodexRunResult
pub record CodexRunResult : Type 0 where
  pub should_create_pull_request : Bool
  pub repo_path : Text

abbrev pub problem_list : Result Problem (Unit {0}) → List Problem
problem_list (ok u) = []
problem_list (err e) = e ∷ []

abbrev pub work_tree_command : List Text
work_tree_command = codes "git" ∷ codes "rev-parse" ∷ codes "--is-inside-work-tree" ∷ []

abbrev pub single_repo : List Text → Result Problem Text
single_repo [] = err (repo_count 0)
single_repo (path ∷ []) = ok path
single_repo (path ∷ other ∷ paths) = err (repo_count (length (path ∷ other ∷ paths)))

abbrev pub branch_command : List Text
branch_command = codes "git" ∷ codes "branch" ∷ codes "--show-current" ∷ []

abbrev pub status_command : List Text
status_command = codes "git" ∷ codes "status" ∷ codes "--porcelain" ∷ []

abbrev pub verify_command : Text → List Text
verify_command ref = codes "git" ∷ codes "rev-parse" ∷ codes "--verify" ∷ ref ∷ []

abbrev pub diff_command : Text → List Text
diff_command ref = codes "git" ∷ codes "diff" ∷ codes "--quiet" ∷ (ref ++ codes "...HEAD") ∷ []

abbrev pub base_refs : List Text
base_refs = codes "origin/main" ∷ codes "main" ∷ []

-- The exit code of git diff --quiet.
abbrev pub has_delta : List Text → CommandResult → Result Problem Bool
has_delta command (exited zero output) = ok false
has_delta command (exited (suc zero) output) = ok true
has_delta command (exited (suc (suc code)) output) =
    err (command_failed command (exited (suc (suc code)) output))
has_delta command not_run = err (command_failed command not_run)

abbrev pub is_protected : Text → Bool
is_protected branch = text_eq branch (codes "main") || text_eq branch (codes "master")

abbrev pub delta_problems : Result Problem Bool → List Problem
delta_problems (ok true) = []
delta_problems (ok false) = no_delta ∷ []
delta_problems (err e) = e ∷ []

abbrev pub join_problems : List Problem → Option RepoFailure
join_problems [] = none
join_problems (p ∷ ps) = some (several (p ∷ ps))

abbrev pub failure_list : Option RepoFailure → List RepoFailure
failure_list none = []
failure_list (some f) = f ∷ []

abbrev pub repo_or_empty : Result Problem Text → Text
repo_or_empty (err e) = []
repo_or_empty (ok repo) = repo

abbrev pub accept : Text × List RepoFailure → Result ArtifactFailure CodexRunResult
accept (repo, []) = ok (record { should_create_pull_request = true; repo_path = repo })
accept (repo, f ∷ fs) = err (joined (f ∷ fs))

module _ {W : Type 0} (m : Machine W) (w : W) where
  -- readWorkerJobSuccessMarker
  unfoldable pub read_worker_job_success_marker : WorkerRuntimePaths → Result Problem Bool
  read_worker_job_success_marker paths = elim (m.read_file w paths.job_success_path) [
    | none ↦ err marker_unreadable
    | some bytes ↦
        if text_eq (trim_space bytes) (codes "true")
        then ok true
        else if text_eq (trim_space bytes) (codes "false")
        then ok false
        else err (marker_invalid (trim_space bytes))
  ]

  -- isGitRepositoryDirectory
  unfoldable pub is_git_repository_directory : Text → Bool
  is_git_repository_directory path =
      elim (command_output work_tree_command (m.ask w path work_tree_command)) [
        | err e ↦ false
        | ok output ↦ text_eq (trim_space output) (codes "true")
      ]

  -- The path of an entry that is a Git repository.
  unfoldable pub repo_of : Text → DirEntry → Option Text
  repo_of root entry =
      if entry.is_dir && is_git_repository_directory (in_dir root entry.name)
      then some (in_dir root entry.name)
      else none

  -- findSingleWorkerGitRepo
  unfoldable pub find_single_worker_git_repo : Text → Result Problem Text
  find_single_worker_git_repo root = elim (m.read_dir w root) [
    | none ↦ err root_unreadable
    | some entries ↦ single_repo (filter_map (repo_of root) entries)
  ]

  -- findOptionalWorkerGitRepo
  unfoldable pub find_optional_worker_git_repo : WorkerRuntimePaths → Option Text
  find_optional_worker_git_repo paths = elim (find_single_worker_git_repo paths.repo_root_dir) [
    | err e ↦ none
    | ok path ↦ some path
  ]

  -- currentWorkerRepoBranchName
  unfoldable pub current_worker_repo_branch_name : Text → Result Problem Text
  current_worker_repo_branch_name repo =
      and_then (command_output branch_command (m.ask w repo branch_command)) λ output.
        if is_empty (trim_space output) then err branch_unnamed else ok (trim_space output)

  -- validateWorkerRepoCleanWorktree
  unfoldable pub validate_worker_repo_clean_worktree : Text → Result Problem (Unit {0})
  validate_worker_repo_clean_worktree repo =
      and_then (command_output status_command (m.ask w repo status_command)) λ output.
        if is_empty (trim_space output) then ok tt else err (worktree_dirty (trim_space output))

  -- firstExistingWorkerRepoBaseRef
  unfoldable pub first_existing_worker_repo_base_ref : Text → List Text → Result Problem Text
  first_existing_worker_repo_base_ref repo [] = err no_base_ref
  first_existing_worker_repo_base_ref repo (ref ∷ refs) =
      let later = first_existing_worker_repo_base_ref repo refs in
      elim (command_output (verify_command ref) (m.ask w repo (verify_command ref))) [
        | ok output ↦ ok ref
        | err e ↦ later
      ]

  -- workerRepoHasCommittedDeltaFromMain
  unfoldable pub worker_repo_has_committed_delta_from_main : Text → Result Problem Bool
  worker_repo_has_committed_delta_from_main repo =
      and_then (first_existing_worker_repo_base_ref repo base_refs)
        λ ref. has_delta (diff_command ref) (m.ask w repo (diff_command ref))

  -- The errors that validateSuccessfulWorkerGitRepo joins.
  unfoldable pub repo_problems : Text → Text → List Problem
  repo_problems repo branch =
      (if is_protected branch then branch_protected branch ∷ [] else [])
      ++ (problem_list (validate_worker_repo_clean_worktree repo)
          ++ delta_problems (worker_repo_has_committed_delta_from_main repo))

  -- validateSuccessfulWorkerGitRepo
  unfoldable pub validate_successful_worker_git_repo : Text → Option RepoFailure
  validate_successful_worker_git_repo repo = elim (current_worker_repo_branch_name repo) [
    | err e ↦ some (one e)
    | ok branch ↦ join_problems (repo_problems repo branch)
  ]

  -- validateEndingReportFile
  unfoldable pub validate_ending_report_file : Text → Option RepoFailure
  validate_ending_report_file path = elim (m.read_file w path) [
    | none ↦ some (one report_unreadable)
    | some bytes ↦ if is_empty (trim_space bytes) then some (one report_empty) else none
  ]

  abbrev pub repo_failures : Result Problem Text → List RepoFailure
  repo_failures (err e) = one e ∷ []
  repo_failures (ok repo) = failure_list (validate_successful_worker_git_repo repo)

  -- validateSuccessfulWorkerArtifacts: the path, and the errors that it joins.
  unfoldable pub validate_successful_worker_artifacts : WorkerRuntimePaths → Text × List RepoFailure
  validate_successful_worker_artifacts paths =
      let found = find_single_worker_git_repo paths.repo_root_dir in
      (
        repo_or_empty found,
        repo_failures found ++ failure_list (validate_ending_report_file paths.ending_report_path),
      )

  -- validateWorkerCodexArtifacts
  unfoldable pub validate_worker_codex_artifacts :
      WorkerRuntimePaths → Result ArtifactFailure CodexRunResult
  validate_worker_codex_artifacts paths = elim (read_worker_job_success_marker paths) [
    | err e ↦ err (marker_failed e)
    | ok successful ↦
        if successful
        then accept (validate_successful_worker_artifacts paths)
        else ok (record { should_create_pull_request = false; repo_path = [] })
  ]

-- The messages that a prompt or a log line shows, from the wording of single problems. The message of
-- joined errors has one line for each.
module _ (wording : Problem → Text) where
  unfoldable pub failure_message : RepoFailure → Text
  failure_message (one p) = wording p
  failure_message (several ps) = join (map wording ps) (codes "\n")

  -- validationErrorMessages: only the outer errors are taken apart.
  unfoldable pub validation_error_messages : ArtifactFailure → List Text
  unfolding failure_message
  validation_error_messages (marker_failed p) = wording p ∷ []
  validation_error_messages (joined fs) = map failure_message fs

  -- formatValidationErrorForPrompt
  unfoldable pub format_validation_error_for_prompt : Option ArtifactFailure → Text
  format_validation_error_for_prompt none = []
  format_validation_error_for_prompt (some e) =
      codes "- " ++ join (validation_error_messages e) (codes "\n- ")

  -- formatValidationErrorForLog
  unfoldable pub format_validation_error_for_log : ArtifactFailure → Text
  format_validation_error_for_log e = join (validation_error_messages e) (codes "; ")
