-- ===== src/Worker/Artifacts/Checks.antt =====
-- What each check of the artifacts says when it finds nothing: worker-files-github.go of the worker.
use aws_demo.Base.{
  ◌≡◌, ◌≢◌, ◌↔◌, refl, ap, ◌∙◌, Bool, true, false, List, [], ◌∷◌, ◌++◌, Option, none, some, Result,
  ok, err, filter_map, if◌then◌else◌, Bool-cases, Option-cases, Result-cases, inl, inr,
}
use aws_demo.Text.{Text, codes, text_eq, text_eq_iff, is_empty, trim_space}
use aws_demo.Worker.{
  branch_protected, DirEntry, Machine, WorkerRuntimePaths, Problem, command_output,
}
use aws_demo.Worker.Artifacts.{
  RepoFailure, read_worker_job_success_marker, repo_of, single_repo, find_single_worker_git_repo,
  branch_command, current_worker_repo_branch_name, status_command,
  validate_worker_repo_clean_worktree, first_existing_worker_repo_base_ref, diff_command, base_refs,
  has_delta, worker_repo_has_committed_delta_from_main, is_protected, problem_list, delta_problems,
  join_problems, validate_ending_report_file, failure_list, accept,
}

single_repo-ok : (l : List Text) (repo : Text) → single_repo l ≡ ok repo → l ≡ repo ∷ []
single_repo-ok [] repo h = absurd (cc h)
single_repo-ok (path ∷ []) repo h = let same : path ≡ repo = cc h in ap (λ p. p ∷ []) same
single_repo-ok (path ∷ other ∷ l) repo h = absurd (cc h)

delta_problems-nil : (r : Result Problem Bool) → delta_problems r ≡ [] → r ≡ ok true
delta_problems-nil (ok true) h = refl
delta_problems-nil (ok false) h = absurd (cc h)
delta_problems-nil (err e) h = absurd (cc h)

pub append-nil_both : {A : Type 0} (a b : List A) → a ++ b ≡ [] → (a ≡ []) × (b ≡ [])
append-nil_both [] b h = (refl, h)
append-nil_both (x ∷ a) b h = absurd (cc h)

pub failure_list-nil : (f : Option RepoFailure) → failure_list f ≡ [] → f ≡ none
failure_list-nil none h = refl
failure_list-nil (some f) h = absurd (cc h)

pub join_problems-none : (ps : List Problem) → join_problems ps ≡ none → ps ≡ []
join_problems-none [] h = refl
join_problems-none (p ∷ ps) h = absurd (cc h)

pub accept-ok :
    (x : Text × List RepoFailure) (repo : Text)
    → accept x ≡ ok (record { should_create_pull_request = true; repo_path = repo })
    → x ≡ (repo, [])
accept-ok (path, []) repo h = let same : path ≡ repo = cc h in ap (λ (p : Text). (p, [])) same
accept-ok (path, f ∷ fs) repo h = absurd (cc h)

pub protected-nil :
    (branch : Text)
    → (if is_protected branch then branch_protected branch ∷ [] else []) ≡ []
    → is_protected branch ≡ false
protected-nil branch h = elim (Bool-cases (is_protected branch)) [
  | inl e ↦ absurd (cc (rw e at h))
  | inr e ↦ e
]

text_eq-other : (s t : Text) → s ≢ t → text_eq s t ≡ false
text_eq-other s t h = elim (Bool-cases (text_eq s t)) [
  | inl e ↦ absurd (h ((text_eq_iff s t).0 e))
  | inr e ↦ e
]

-- The protected branches are main and master.
pub protected_iff :
    (branch : Text)
    → (is_protected branch ≡ false) ↔ ((branch ≢ codes "main") × (branch ≢ codes "master"))
unfolding text_eq
protected_iff branch = (
  λ h. (λ e. absurd (cc (rw e at h)), λ e. absurd (cc (rw e at h))),
  λ (main, master).
      rw (text_eq-other branch (codes "main") main, text_eq-other branch (codes "master") master)
        refl,
)

module _ {W : Type 0} (m : Machine W) (w : W) where
  pub marker-ok :
      (paths : WorkerRuntimePaths) (b : Bool)
      → read_worker_job_success_marker m w paths ≡ ok b
      → (marker : Text) × (m.read_file w paths.job_success_path ≡ some marker)
        × (text_eq (trim_space marker) (codes "true") ≡ b)
  unfolding read_worker_job_success_marker
  marker-ok paths b h = elim (Option-cases (m.read_file w paths.job_success_path)) [
    | inl e ↦ absurd (cc (rw (read_worker_job_success_marker, e) at h))
    | inr (bytes, e) ↦ elim (Bool-cases (text_eq (trim_space bytes) (codes "true"))) [
      | inl t ↦ (bytes, e, t ∙ cc (rw (read_worker_job_success_marker, e, t) at h))
      | inr f ↦ elim (Bool-cases (text_eq (trim_space bytes) (codes "false"))) [
        | inl t ↦ (bytes, e, f ∙ cc (rw (read_worker_job_success_marker, e, f, t) at h))
        | inr g ↦ absurd (cc (rw (read_worker_job_success_marker, e, f, g) at h))
      ]
    ]
  ]

  pub find-ok :
      (root repo : Text)
      → find_single_worker_git_repo m w root ≡ ok repo
      → (entries : List DirEntry) × (m.read_dir w root ≡ some entries)
        × (filter_map (repo_of m w root) entries ≡ repo ∷ [])
  unfolding find_single_worker_git_repo
  find-ok root repo h = elim (Option-cases (m.read_dir w root)) [
    | inl e ↦ absurd (cc (rw (find_single_worker_git_repo, e) at h))
    | inr (entries, e) ↦ (
      entries,
      e,
      single_repo-ok (filter_map (repo_of m w root) entries) repo
          (rw (find_single_worker_git_repo, e) at h),
    )
  ]

  pub branch-ok :
      (repo name : Text)
      → current_worker_repo_branch_name m w repo ≡ ok name
      → (branch : Text) × (command_output branch_command (m.ask w repo branch_command) ≡ ok branch)
        × (is_empty (trim_space branch) ≡ false)
        × (trim_space branch ≡ name)
  unfolding current_worker_repo_branch_name
  branch-ok repo name h =
      elim (Result-cases (command_output branch_command (m.ask w repo branch_command))) [
        | inr (f, e) ↦ absurd (cc (rw (current_worker_repo_branch_name, e) at h))
        | inl (out, e) ↦ elim (Bool-cases (is_empty (trim_space out))) [
          | inl b ↦ absurd (cc (rw (current_worker_repo_branch_name, e, b) at h))
          | inr b ↦ (out, e, b, cc (rw (current_worker_repo_branch_name, e, b) at h))
        ]
      ]

  pub clean-ok :
      (repo : Text)
      → problem_list (validate_worker_repo_clean_worktree m w repo) ≡ []
      → (status : Text) × (command_output status_command (m.ask w repo status_command) ≡ ok status)
        × (is_empty (trim_space status) ≡ true)
  unfolding validate_worker_repo_clean_worktree
  clean-ok repo h =
      elim (Result-cases (command_output status_command (m.ask w repo status_command))) [
        | inr (f, e) ↦ absurd (cc (rw (e, validate_worker_repo_clean_worktree) at h))
        | inl (out, e) ↦ elim (Bool-cases (is_empty (trim_space out))) [
          | inl b ↦ (out, e, b)
          | inr b ↦ absurd (cc (rw (e, validate_worker_repo_clean_worktree, b) at h))
        ]
      ]

  pub delta-ok :
      (repo : Text)
      → delta_problems (worker_repo_has_committed_delta_from_main m w repo) ≡ []
      → (base : Text) × (first_existing_worker_repo_base_ref m w repo base_refs ≡ ok base)
        × (has_delta (diff_command base) (m.ask w repo (diff_command base)) ≡ ok true)
  unfolding worker_repo_has_committed_delta_from_main
  delta-ok repo h = elim (Result-cases (first_existing_worker_repo_base_ref m w repo base_refs)) [
    | inr (f, e) ↦ absurd (cc (rw (e, worker_repo_has_committed_delta_from_main) at h))
    | inl (base, e) ↦ (
      base,
      e,
      delta_problems-nil (has_delta (diff_command base) (m.ask w repo (diff_command base)))
          (rw (e, worker_repo_has_committed_delta_from_main) at h),
    )
  ]

  pub report-ok :
      (path : Text)
      → failure_list (validate_ending_report_file m w path) ≡ []
      → (report : Text) × (m.read_file w path ≡ some report)
        × (is_empty (trim_space report) ≡ false)
  unfolding validate_ending_report_file
  report-ok path h = elim (Option-cases (m.read_file w path)) [
    | inl e ↦ absurd (cc (rw (e, validate_ending_report_file) at h))
    | inr (bytes, e) ↦ elim (Bool-cases (is_empty (trim_space bytes))) [
      | inl b ↦ absurd (cc (rw (e, validate_ending_report_file, b) at h))
      | inr b ↦ (bytes, e, b)
    ]
  ]
