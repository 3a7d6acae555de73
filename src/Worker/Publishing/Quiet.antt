-- ===== src/Worker/Publishing/Quiet.antt =====
-- The publishing of worker-files-github.go makes no call of the conductor's service.
use aws_demo.Base.{refl, Bool, not, List, Result}
use aws_demo.Text.{Text, is_empty, trim_space}
use aws_demo.Worker.{
  Machine, WorkerRuntimePaths, title_empty, report_unreadable, report_unwritable, url_missing,
  link_unwritable, command_output,
}
use aws_demo.Worker.Process.{Call, lift, check}
use aws_demo.Worker.Process.Goes.{
  IsQuiet, Goes-pure, Goes-read, Goes-change, Goes-lift, Goes-check, Goes-bind,
}
use aws_demo.Worker.Publishing.{
  file_text, command_text, write_git_hub_report_markdown, run_worker_repo_command,
  create_pull_request_from_worker_repo, create_failed_worker_git_hub_issue, write_git_hub_link_file,
  extract_git_hub_url_from_output,
}

module _ {W : Type 0} (m : Machine W) (pre : List Call) where
  lift-IsQuiet : {E A : Type 0} (r : Result E A) → IsQuiet {W = W} pre (lift r)
  lift-IsQuiet r = Goes-lift r pre (λ e. refl)

  check-IsQuiet : {E : Type 0} (b : Bool) (e : E) → IsQuiet {W = W} pre (check b e)
  check-IsQuiet b e = Goes-check b e pre refl

  command-IsQuiet :
      (repo : Text) (command : List Text) → IsQuiet pre (run_worker_repo_command m repo command)
  unfolding run_worker_repo_command
  command-IsQuiet repo command =
      Goes-bind _ (Goes-change _ pre) λ answer. lift-IsQuiet (command_output command answer)

  pub write_git_hub_report_markdown-IsQuiet :
      (paths : WorkerRuntimePaths) (transcript : Text)
      → IsQuiet pre (write_git_hub_report_markdown m paths transcript)
  unfolding write_git_hub_report_markdown
  write_git_hub_report_markdown-IsQuiet paths transcript = Goes-bind _ (Goes-read _ pre) λ bytes.
      Goes-bind _ (lift-IsQuiet (file_text report_unreadable bytes)) λ report.
        Goes-bind _ (Goes-read _ pre) λ answer.
          Goes-bind _ (lift-IsQuiet (command_text answer)) λ title.
            Goes-bind _ (check-IsQuiet (not (is_empty (trim_space title))) title_empty) λ u.
              Goes-bind _ (Goes-change _ pre) λ written.
                Goes-bind _ (check-IsQuiet written report_unwritable) λ u. Goes-pure (λ a. pre) refl

  pub create_pull_request_from_worker_repo-IsQuiet :
      (repo message_path title id : Text)
      → IsQuiet pre (create_pull_request_from_worker_repo m repo message_path title id)
  unfolding create_pull_request_from_worker_repo
  create_pull_request_from_worker_repo-IsQuiet repo message_path title id =
      Goes-bind _ (Goes-read _ pre) λ found. Goes-bind _ (lift-IsQuiet found) λ branch.
        Goes-bind _ (command-IsQuiet repo _) λ pushed.
          Goes-bind _ (command-IsQuiet repo _) λ output.
            Goes-bind _ (lift-IsQuiet (extract_git_hub_url_from_output output))
              λ url. Goes-pure (λ a. pre) refl

  pub create_failed_worker_git_hub_issue-IsQuiet :
      (repo report_path title : Text)
      → IsQuiet pre (create_failed_worker_git_hub_issue m repo report_path title)
  unfolding create_failed_worker_git_hub_issue
  create_failed_worker_git_hub_issue-IsQuiet repo report_path title =
      Goes-bind _ (command-IsQuiet repo _) λ output.
        Goes-bind _ (lift-IsQuiet (extract_git_hub_url_from_output output))
          λ url. Goes-pure (λ a. pre) refl

  pub write_git_hub_link_file-IsQuiet :
      (paths : WorkerRuntimePaths) (url : Text) → IsQuiet pre (write_git_hub_link_file m paths url)
  unfolding write_git_hub_link_file
  write_git_hub_link_file-IsQuiet paths url =
      Goes-bind _ (check-IsQuiet (not (is_empty (trim_space url))) url_missing)
        λ u. Goes-bind _ (Goes-change _ pre) λ written. check-IsQuiet written link_unwritable
