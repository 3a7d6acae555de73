-- ===== src/Worker/Publishing.antt =====
-- What worker-files-github.go publishes: the report, a pull request or an issue, and its link.
pub mod Quiet
use aws_demo.Base.{
  ℕ, zero, suc, ◌≡◌, Bool, true, false, not, ◌||◌, List, [], ◌∷◌, ◌++◌, Option, none, some, Result,
  ok, err, if◌then◌else◌,
}
use aws_demo.Text.{Text, codes, is_empty, is_space, trim_space, has_prefix}
use aws_demo.Worker.{
  CommandResult, Machine, WorkerRuntimePaths, Problem, title_empty, title_unreadable,
  report_unreadable, report_unwritable, url_missing, link_unwritable, command_output,
}
use aws_demo.Worker.Artifacts.{current_worker_repo_branch_name}
use aws_demo.Worker.Process.{Run, pure, fail, lift, ◌>>=◌, ◌>>◌, read, change, check}

-- GitHubReportMarkdownResult
pub record ReportMarkdown : Type 0 where
  pub path : Text
  pub title : Text

-- PullRequestCreationResult
pub record PullRequest : Type 0 where
  pub branch_name : Text
  pub url : Text
  pub output : Text

-- GitHubIssueCreationResult
pub record Issue : Type 0 where
  pub url : Text
  pub output : Text

abbrev pub add_field : Text → List Text → List Text
add_field [] fields = fields
add_field (c ∷ s) fields = (c ∷ s) ∷ fields

-- strings.Fields, with the field that is being read.
unfoldable pub fields_from : Text → Text → List Text
unfolding is_space
fields_from field [] = add_field field []
fields_from field (c ∷ s) = elim (is_space c) [
  | true ↦ add_field field (fields_from [] s)
  | false ↦ fields_from (field ++ c ∷ []) s
]

unfoldable pub first_url : List Text → Result Problem Text
unfolding has_prefix
first_url [] = err url_missing
first_url (field ∷ fields) =
    let later = first_url fields in
    if has_prefix field (codes "https://") || has_prefix field (codes "http://")
    then ok field
    else later

-- extractGitHubURLFromOutput
unfoldable pub extract_git_hub_url_from_output : Text → Result Problem Text
unfolding fields_from first_url
extract_git_hub_url_from_output output = first_url (fields_from [] output)

abbrev pub title_command : Text → List Text
title_command path = codes "goawk" ∷ codes "NR == 1 { print; exit }" ∷ path ∷ []

abbrev pub command_text : CommandResult → Result Problem Text
command_text (CommandResult.exited zero output) = ok output
command_text (CommandResult.exited (suc code) output) = err title_unreadable
command_text CommandResult.not_run = err title_unreadable

abbrev pub file_text : Problem → Option Text → Result Problem Text
file_text e none = err e
file_text e (some bytes) = ok bytes

-- The report's body
abbrev pub report_markdown : Text → Text → Text
report_markdown report transcript =
    codes "# Agent Work Report\n\n"
    ++ (report
        ++ (codes
              "\n\n## Full Agent Transcript\n\n<details>\n<summary>Click to see extracted agent transcript text</summary>\n\n```txt\n"
            ++ (transcript ++ codes "\n```\n\n</details>\n")))

-- workerRemoteBranchName
abbrev pub worker_remote_branch_name : Text → Text → Text
worker_remote_branch_name id branch = codes "worker/" ++ (id ++ (codes "/" ++ branch))

module _ {W : Type 0} (m : Machine W) where
  -- writeGitHubReportMarkdown
  unfoldable pub write_git_hub_report_markdown :
      WorkerRuntimePaths → Text → Run W Problem ReportMarkdown
  write_git_hub_report_markdown paths transcript = do
    bytes ← read (λ w. m.read_file w paths.ending_report_path)
    report ← lift (file_text report_unreadable bytes)
    answer ← read (λ w. m.ask w [] (title_command paths.meta_info_path))
    title ← lift (command_text answer)
    check (not (is_empty (trim_space title))) title_empty
    written ←
        change (λ w.
          m.write_file w paths.pr_message_path (report_markdown (trim_space report) transcript))
    check written report_unwritable
    pure (record { path = paths.pr_message_path; title = trim_space title })

  -- runWorkerRepoCommand of a command that changes something
  unfoldable pub run_worker_repo_command : Text → List Text → Run W Problem Text
  run_worker_repo_command repo command = do
    answer ← change (λ w. m.act w repo command)
    lift (command_output command answer)

  -- createPullRequestFromWorkerRepo
  unfoldable pub create_pull_request_from_worker_repo :
      Text → Text → Text → Text → Run W Problem PullRequest
  unfolding run_worker_repo_command
  create_pull_request_from_worker_repo repo message_path title id = do
    found ← read (λ w. current_worker_repo_branch_name m w repo)
    branch ← lift found
    run_worker_repo_command repo (
        codes "git"
        ∷ codes "push"
        ∷ codes "-u"
        ∷ codes "origin"
        ∷ (branch ++ (codes ":" ++ worker_remote_branch_name id branch))
        ∷ [])
    output ← run_worker_repo_command repo (
        codes "gh"
        ∷ codes "pr"
        ∷ codes "create"
        ∷ codes "--base"
        ∷ codes "main"
        ∷ codes "--head"
        ∷ worker_remote_branch_name id branch
        ∷ codes "--title"
        ∷ title
        ∷ codes "--body-file"
        ∷ message_path
        ∷ [])
    url ← lift (extract_git_hub_url_from_output output)
    pure (record { branch_name = worker_remote_branch_name id branch; url = url; output = output })

  -- createFailedWorkerGitHubIssue
  unfoldable pub create_failed_worker_git_hub_issue : Text → Text → Text → Run W Problem Issue
  unfolding run_worker_repo_command
  create_failed_worker_git_hub_issue repo report_path title = do
    output ← run_worker_repo_command repo (
        codes "gh"
        ∷ codes "issue"
        ∷ codes "create"
        ∷ codes "--title"
        ∷ (codes "[agent-failed] " ++ title)
        ∷ codes "--body-file"
        ∷ report_path
        ∷ [])
    url ← lift (extract_git_hub_url_from_output output)
    pure (record { url = url; output = output })

  -- writeGitHubLinkFile
  unfoldable pub write_git_hub_link_file : WorkerRuntimePaths → Text → Run W Problem Unit
  write_git_hub_link_file paths url = do
    check (not (is_empty (trim_space url))) url_missing
    written ← change (λ w. m.write_file w paths.git_hub_link_path (url ++ codes "\n"))
    check written link_unwritable
