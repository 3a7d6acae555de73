-- ===== src/Worker.antt =====
-- The worker's side: what conductor-and-worker/worker/go-worker asks of its machine, and the paths of
-- worker-files-github.go. The files, the repositories and the agent are one state of type `W`; what a
-- command answers and what it leaves is a parameter.
pub mod Artifacts
pub mod Debugging
pub mod Main
pub mod Process
pub mod Publishing
pub mod Transfers
pub mod Service
mod Tests
use aws_demo.Base.{
  ℕ, zero, suc, ◌≡◌, Bool, true, false, List, [], ◌∷◌, ◌++◌, Option, none, some, Result, ok, err,
}
use aws_demo.Text.{Text, codes}

-- What os.ReadDir says of an entry.
pub record DirEntry : Type 0 where
  pub name : Text
  pub is_dir : Bool

-- A command that ran, with its exit code and its combined output, or one that could not be run or was
-- ended by a signal.
pub data CommandResult : Type 0 where
  exited : ℕ → Text → CommandResult
  not_run : CommandResult

-- What the worker asks of its machine. `ask` is a command that only reads; `act` is git push or gh;
-- `prompt` is one turn of the agent, with its final response or an error.
pub record Machine (W : Type 0) : Type 0 where
  pub read_file : W → Text → Option Text
  pub read_dir : W → Text → Option (List DirEntry)
  pub ask : W → Text → List Text → CommandResult
  pub act : W → Text → List Text → CommandResult × W
  pub write_file : W → Text → Text → Bool × W
  pub make_dir : W → Text → Bool × W
  pub prompt : W → Text → Result Text Text × W

-- WorkerRuntimePaths
pub record WorkerRuntimePaths : Type 0 where
  pub work_dir : Text
  pub repo_root_dir : Text
  pub agent_meta_dir : Text
  pub job_success_path : Text
  pub meta_info_path : Text
  pub ending_report_path : Text
  pub pr_message_path : Text
  pub git_hub_link_path : Text

-- filepath.Join of a clean directory and a name.
abbrev pub in_dir : Text → Text → Text
in_dir dir name = dir ++ (codes "/" ++ name)

abbrev pub worker_work_files_destination_dir : Text
worker_work_files_destination_dir = codes "/worker/work"

abbrev pub worker_agent_meta_dir : Text
worker_agent_meta_dir = in_dir worker_work_files_destination_dir (codes "agent-meta")

-- defaultWorkerRuntimePaths
abbrev pub default_worker_runtime_paths : WorkerRuntimePaths
default_worker_runtime_paths = record {
  work_dir = worker_work_files_destination_dir;
  repo_root_dir = in_dir worker_work_files_destination_dir (codes "repo");
  agent_meta_dir = worker_agent_meta_dir;
  job_success_path = in_dir worker_agent_meta_dir (codes "WAS_JOB_SUCCESSFUL");
  meta_info_path = in_dir worker_agent_meta_dir (codes "meta-info.txt");
  ending_report_path = in_dir worker_agent_meta_dir (codes "ending-report.md");
  pr_message_path = in_dir worker_agent_meta_dir (codes "pr-message.md");
  git_hub_link_path = in_dir worker_agent_meta_dir (codes "GHLINK");
}

-- A single problem. The wording of its message is a parameter where it matters.
pub data Problem : Type 0 where
  marker_unreadable root_unreadable no_base_ref no_delta report_unreadable report_empty : Problem
  branch_unnamed title_empty title_unreadable report_unwritable url_missing link_unwritable :
      Problem
  marker_invalid branch_protected worktree_dirty : Text → Problem
  repo_count : ℕ → Problem
  command_failed : List Text → CommandResult → Problem

-- runWorkerRepoCommand's reading of a result: the output, or an error for any exit code but 0.
abbrev pub command_output : List Text → CommandResult → Result Problem Text
command_output command (exited zero output) = ok output
command_output command (exited (suc code) output) =
    err (command_failed command (exited (suc code) output))
command_output command not_run = err (command_failed command not_run)
