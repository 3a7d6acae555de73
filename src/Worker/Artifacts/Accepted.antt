-- ===== src/Worker/Artifacts/Accepted.antt =====
-- Which artifacts are accepted for a pull request.
use aws_demo.Base.{
  ◌≡◌, ◌≢◌, ◌↔◌, refl, ap, ◌∙◌, true, false, List, [], ◌∷◌, none, some, ok, filter_map,
  if◌then◌else◌, Result-cases, inl, inr,
}
use aws_demo.Text.{Text, codes, text_eq, is_empty, trim_space}
use aws_demo.Worker.{branch_protected, DirEntry, Machine, WorkerRuntimePaths, command_output}
use aws_demo.Worker.Artifacts.{
  read_worker_job_success_marker, repo_of, find_single_worker_git_repo, branch_command,
  current_worker_repo_branch_name, status_command, validate_worker_repo_clean_worktree,
  first_existing_worker_repo_base_ref, diff_command, base_refs, has_delta,
  worker_repo_has_committed_delta_from_main, is_protected, problem_list, repo_problems,
  validate_successful_worker_git_repo, validate_ending_report_file, failure_list,
  validate_successful_worker_artifacts, validate_worker_codex_artifacts,
}
use aws_demo.Worker.Artifacts.Checks.{
  append-nil_both, failure_list-nil, join_problems-none, accept-ok, protected-nil, protected_iff,
  marker-ok, find-ok, branch-ok, clean-ok, delta-ok, report-ok,
}

-- The agent has delivered the repository at `repo`: the marker says true; `repo` is the only Git
-- repository under the root; it is on a named branch that is neither main nor master, has nothing
-- uncommitted, and differs from its base; and there is a report that is not blank.
pub record IsDeliverable {W : Type 0} (m : Machine W) (w : W) (paths : WorkerRuntimePaths)
    (repo : Text) : Type 0 where
  pub marker : Text
  pub marker_read : m.read_file w paths.job_success_path ≡ some marker
  pub marker_true : text_eq (trim_space marker) (codes "true") ≡ true
  pub entries : List DirEntry
  pub listed : m.read_dir w paths.repo_root_dir ≡ some entries
  pub only_repo : filter_map (repo_of m w paths.repo_root_dir) entries ≡ repo ∷ []
  pub branch : Text
  pub on_branch : command_output branch_command (m.ask w repo branch_command) ≡ ok branch
  pub is_named : is_empty (trim_space branch) ≡ false
  pub not_main : trim_space branch ≢ codes "main"
  pub not_master : trim_space branch ≢ codes "master"
  pub status : Text
  pub status_read : command_output status_command (m.ask w repo status_command) ≡ ok status
  pub is_clean : is_empty (trim_space status) ≡ true
  pub base : Text
  pub has_base : first_existing_worker_repo_base_ref m w repo base_refs ≡ ok base
  pub differs : has_delta (diff_command base) (m.ask w repo (diff_command base)) ≡ ok true
  pub report : Text
  pub report_read : m.read_file w paths.ending_report_path ≡ some report
  pub is_reported : is_empty (trim_space report) ≡ false

module _ {W : Type 0} (m : Machine W) (w : W) where
  -- What the checks of the repository say when they find nothing.
  record IsSound (repo : Text) : Type 0 where
    branch : Text
    on_branch : command_output branch_command (m.ask w repo branch_command) ≡ ok branch
    is_named : is_empty (trim_space branch) ≡ false
    is_feature : is_protected (trim_space branch) ≡ false
    status : Text
    status_read : command_output status_command (m.ask w repo status_command) ≡ ok status
    is_clean : is_empty (trim_space status) ≡ true
    base : Text
    has_base : first_existing_worker_repo_base_ref m w repo base_refs ≡ ok base
    differs : has_delta (diff_command base) (m.ask w repo (diff_command base)) ≡ ok true

  repo-ok : (repo : Text) → validate_successful_worker_git_repo m w repo ≡ none → IsSound repo
  unfolding validate_successful_worker_git_repo repo_problems
  repo-ok repo h = elim (Result-cases (current_worker_repo_branch_name m w repo)) [
    | inr (f, e) ↦ absurd (cc (rw (validate_successful_worker_git_repo, e) at h))
    | inl (name, e) ↦
        let b = branch-ok m w repo name e in
        let none_found =
          join_problems-none (repo_problems m w repo name)
            (rw (validate_successful_worker_git_repo, e) at h) in
        let split =
          append-nil_both (if is_protected name then branch_protected name ∷ [] else []) _
            none_found in
        let rest =
          append-nil_both (problem_list (validate_worker_repo_clean_worktree m w repo)) _ split.1 in
        let c = clean-ok m w repo rest.0 in
        let d = delta-ok m w repo rest.1 in
        record {
          branch = b.0;
          on_branch = b.1;
          is_named = b.2;
          is_feature = rw b.3 (protected-nil name split.0);
          status = c.0;
          status_read = c.1;
          is_clean = c.2;
          base = d.0;
          has_base = d.1;
          differs = d.2;
        }
  ]

  artifacts-ok :
      (paths : WorkerRuntimePaths) (repo : Text)
      → validate_successful_worker_artifacts m w paths ≡ (repo, [])
      → (find_single_worker_git_repo m w paths.repo_root_dir ≡ ok repo)
        × IsSound repo
        × (failure_list (validate_ending_report_file m w paths.ending_report_path) ≡ [])
  unfolding validate_successful_worker_artifacts
  artifacts-ok paths repo h =
      elim (Result-cases (find_single_worker_git_repo m w paths.repo_root_dir)) [
        | inr (f, e) ↦
            absurd (cc (ap (λ x. x.1) (rw (validate_successful_worker_artifacts, e) at h)))
        | inl (found, e) ↦
            let k = rw (validate_successful_worker_artifacts, e) at h in
            let same : found ≡ repo = ap (λ x. x.0) k in
            let split =
              append-nil_both (failure_list (validate_successful_worker_git_repo m w found)) _
                (ap (λ x. x.1) k) in
            (
              e ∙ ap ok same,
              rw (← same) (
                  repo-ok found
                    (failure_list-nil (validate_successful_worker_git_repo m w found) split.0)),
              split.1,
            )
      ]

  accepted :
      (paths : WorkerRuntimePaths) (repo : Text)
      → validate_worker_codex_artifacts m w paths
        ≡ ok (record { should_create_pull_request = true; repo_path = repo })
      → IsDeliverable m w paths repo
  unfolding validate_worker_codex_artifacts
  accepted paths repo h = elim (Result-cases (read_worker_job_success_marker m w paths)) [
    | inr (f, e) ↦ absurd (cc (rw (validate_worker_codex_artifacts, e) at h))
    | inl (false, e) ↦ absurd (cc (rw (validate_worker_codex_artifacts, e) at h))
    | inl (true, e) ↦
        let x =
          accept-ok (validate_successful_worker_artifacts m w paths) repo
            (rw (validate_worker_codex_artifacts, e) at h) in
        let (found, sound, reported) = artifacts-ok paths repo x in
        let feature = (protected_iff (trim_space sound.branch)).0 sound.is_feature in
        let (marker, read, says) = marker-ok m w paths true e in
        let (entries, listed, only) = find-ok m w paths.repo_root_dir repo found in
        let (report, reads, filled) = report-ok m w paths.ending_report_path reported in
        record {
          marker = marker;
          marker_read = read;
          marker_true = says;
          entries = entries;
          listed = listed;
          only_repo = only;
          branch = sound.branch;
          on_branch = sound.on_branch;
          is_named = sound.is_named;
          not_main = feature.0;
          not_master = feature.1;
          status = sound.status;
          status_read = sound.status_read;
          is_clean = sound.is_clean;
          base = sound.base;
          has_base = sound.has_base;
          differs = sound.differs;
          report = report;
          report_read = reads;
          is_reported = filled;
        }
  ]

  deliverable-repo :
      (paths : WorkerRuntimePaths) (repo : Text)
      → IsDeliverable m w paths repo
      → validate_successful_worker_git_repo m w repo ≡ none
  unfolding validate_successful_worker_git_repo repo_problems current_worker_repo_branch_name
      validate_worker_repo_clean_worktree worker_repo_has_committed_delta_from_main
  deliverable-repo paths repo d =
      rw
        (
          validate_successful_worker_git_repo,
          current_worker_repo_branch_name,
          d.on_branch,
          d.is_named,
          repo_problems,
          (protected_iff (trim_space d.branch)).1 (d.not_main, d.not_master),
          validate_worker_repo_clean_worktree,
          d.status_read,
          d.is_clean,
          worker_repo_has_committed_delta_from_main,
          d.has_base,
          d.differs,
        )
        refl

  delivered :
      (paths : WorkerRuntimePaths) (repo : Text)
      → IsDeliverable m w paths repo
      → validate_worker_codex_artifacts m w paths
        ≡ ok (record { should_create_pull_request = true; repo_path = repo })
  unfolding validate_worker_codex_artifacts validate_successful_worker_artifacts
      read_worker_job_success_marker find_single_worker_git_repo validate_ending_report_file
  delivered paths repo d =
      rw
        (
          validate_worker_codex_artifacts,
          read_worker_job_success_marker,
          d.marker_read,
          d.marker_true,
          validate_successful_worker_artifacts,
          find_single_worker_git_repo,
          d.listed,
          d.only_repo,
          deliverable-repo paths repo d,
          validate_ending_report_file,
          d.report_read,
          d.is_reported,
        )
        refl

  -- The checks accept the artifacts for a pull request from `repo` exactly when the agent has
  -- delivered the repository at `repo`.
  pub validate_worker_codex_artifacts_iff :
      (paths : WorkerRuntimePaths) (repo : Text)
      → (validate_worker_codex_artifacts m w paths
          ≡ ok (record { should_create_pull_request = true; repo_path = repo }))
        ↔ IsDeliverable m w paths repo
  validate_worker_codex_artifacts_iff paths repo = (accepted paths repo, delivered paths repo)
