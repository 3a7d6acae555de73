-- ===== src/Conductor/Startup/Checks.antt =====
-- What holds when the loops of the conductor start: runConductor of main.go, over what it calls.
use mathlib.Core.Path.{subst, subst₂}
use aws_demo.Base.{
  ◌≡◌, refl, sym, ap, ◌∙◌, Bool, true, false, Option, none, some, Result, ok, err, Bool-cases,
  Result-cases, inl, inr,
}
use aws_demo.Text.{Text, codes, trim_space}
use aws_demo.Host.{Host, M, Removal, removed, missing, not_removed, continue, told, try}
use aws_demo.Host.Runs.{told-ran}
use aws_demo.Atlas.{AtlasError, not_empty, is_db_compliant, dbg_create_db}
use aws_demo.Atlas.Compliance.{Complies, is_db_compliant_iff}
use aws_demo.Poller.Settings.{
  SqsPoller, PollerError, PollerEnvironment, new_ticket_cloud_watch_sqs_poller,
}
use aws_demo.Poller.Settings.Numbers.{IsUsable, new_ticket_cloud_watch_sqs_poller-IsUsable}
use aws_demo.Conductor.Startup.{
  no_shutdown_file, old_shutdown_file, StartError, Flags, Ready, Services,
  conductor_worker_dial_address, shutdown_okay_path, open_scheduler, prepare_run_dir,
  choose_database, start_with, start_conductor, poller_of, compliant_path, created_path, removal_ok,
  run_dir,
}

module _ {W : Type 0} (host : Host W) (services : Services W) (schema : Text) where
  -- The database of a start: a debug database that was created for the requested path, or the
  -- requested one, which complies.
  pub data IsChosen (flags : Flags) (w : W) (path : Text) : Type 0 where
    fresh :
        flags.debug_always_new_db ≡ true
        → (dbg_create_db host schema (trim_space flags.test_db_loc) w).0 ≡ ok path
        → IsChosen flags w path
    compliant :
        flags.debug_always_new_db ≡ false
        → path ≡ trim_space flags.test_db_loc
        → Complies host schema path w
        → IsChosen flags w path

  -- The shutdown file was written with the word false; then a database was asked for, and is chosen;
  -- the scheduler has opened it; the poller is usable; and the address is listened on.
  pub record IsStarted (flags : Flags) (r : Ready) (end : W) : Type 0 where
    pub cleared : W
    pub prepared : W
    pub written : host.write_file cleared shutdown_okay_path (codes "false\n") ≡ (true, prepared)
    pub requested : not_empty (trim_space flags.test_db_loc) ≡ true
    pub chosen : IsChosen flags prepared r.database
    pub opening : W
    pub opened : open_scheduler host services schema r.database opening ≡ (ok tt, end)
    pub usable : IsUsable r.poller
    pub listens : services.listens end flags.addr ≡ true
    pub dialed : r.worker_dial_address ≡ conductor_worker_dial_address flags

  removal-ran :
      (k : Unit {0} → M W StartError (Unit {0})) (x : Removal × W) {w' : W}
      → continue k (told old_shutdown_file (removal_ok host services schema x)) ≡ (ok tt, w')
      → (w : W) × (k tt w ≡ (ok tt, w'))
  removal-ran k (removed, w) h = (w, h)
  removal-ran k (missing, w) h = (w, h)
  removal-ran k (not_removed, w) h = absurd (cc h)

  prepare-ran :
      (w w' : W)
      → prepare_run_dir host services schema w ≡ (ok tt, w')
      → (cleared : W) × (host.write_file cleared shutdown_okay_path (codes "false\n") ≡ (true, w'))
  unfolding prepare_run_dir
  prepare-ran w w' h = elim (Bool-cases (host.make_all w run_dir).0) [
    | inr e ↦ absurd (cc (rw e at h))
    | inl e ↦
        let (cleared, wrote) =
          removal-ran
            (λ u.
              try no_shutdown_file (λ w. host.write_file w shutdown_okay_path (codes "false\n")))
            (host.remove (host.make_all w run_dir).1 shutdown_okay_path) (rw e at h) in
        (
          cleared,
          told-ran no_shutdown_file (host.write_file cleared shutdown_okay_path (codes "false\n"))
              wrote,
        )
  ]

  created-ran :
      (x : Result AtlasError Text × W) (path : Text) (w' : W)
      → created_path host services schema x ≡ (ok (some path), w')
      → x.0 ≡ ok path
  created-ran (ok p, w) path w' h = cc h
  created-ran (err e, w) path w' h = absurd (cc h)

  compliant-ran :
      (p : Text) (x : Bool × W) (path : Text) (w' : W)
      → compliant_path host services schema p x ≡ (ok (some path), w')
      → (x.0 ≡ true) × (p ≡ path)
  compliant-ran p (true, w) path w' h = (refl, cc h)
  compliant-ran p (false, w) path w' h = absurd (cc h)

  choose-ran :
      (flags : Flags) (debug : Bool) (w : W) (path : Text) (w' : W)
      → flags.debug_always_new_db ≡ debug
      → choose_database host services schema debug (trim_space flags.test_db_loc) w
        ≡ (ok (some path), w')
      → IsChosen flags w path
  unfolding choose_database
  choose-ran flags true w path w' e h = fresh e (created-ran _ path w' h)
  choose-ran flags false w path w' e h =
      let (accepted, same) = compliant-ran (trim_space flags.test_db_loc) _ path w' h in
      compliant e (sym same) (
        (is_db_compliant_iff host schema path w).0
          (ap (λ p. (is_db_compliant host schema p w).0) (sym same) ∙ accepted))

  poller-ran :
      (w : W) (x : Result PollerError SqsPoller) (r : Result StartError SqsPoller × W)
      → poller_of host services schema w x ≡ r
      → (p : SqsPoller) → r.0 ≡ ok p
      → x ≡ ok p
  poller-ran w (ok q) r h p e = cc (ap (λ y. y.0) h ∙ e)
  poller-ran w (err x) r h p e = absurd (cc (ap (λ y. y.0) h ∙ e))

  -- What start_with has done where it returns.
  record IsOpened (flags : Flags) (env : PollerEnvironment) (path : Text) (r : Ready) (w end : W)
      : Type 0 where
    opened : open_scheduler host services schema path w ≡ (ok tt, end)
    made : new_ticket_cloud_watch_sqs_poller services.config_error env ≡ ok r.poller
    listens : services.listens end flags.addr ≡ true
    named : path ≡ r.database
    dialed : r.worker_dial_address ≡ conductor_worker_dial_address flags

  start_with-ran :
      (flags : Flags) (env : PollerEnvironment) (path : Text) (r : Ready) (w end : W)
      → start_with host services schema flags env (some path) w ≡ (ok (some r), end)
      → IsOpened flags env path r w end
  unfolding start_with
  start_with-ran flags env path r w end h =
      let opening = open_scheduler host services schema path w in
      elim (Result-cases opening.0) [
        | inr (x, e) ↦ absurd (cc (rw e at h))
        | inl (u, e) ↦
            elim (Result-cases (new_ticket_cloud_watch_sqs_poller services.config_error env)) [
              | inr (x, e') ↦ absurd (cc (rw (e, e') at h))
              | inl (p, e') ↦ elim (Bool-cases (services.listens opening.1 flags.addr)) [
                | inr e2 ↦ absurd (cc (rw (e, e', e2) at h))
                | inl e2 ↦
                    let same : ◌≡◌ {A = Result StartError (Option Ready) × W}
                        (
                          ok (
                              some (record {
                                database = path;
                                poller = p;
                                worker_dial_address = conductor_worker_dial_address flags;
                              })),
                          opening.1,
                        )
                        (ok (some r), end) =
                      rw (e, e', e2) at h in
                    subst₂ (λ q v. IsOpened flags env path q w v) (cc (ap (λ x. x.0) same))
                      (ap (λ x. x.1) same)
                      (record {
                        opened = ap (λ x. (x, opening.1)) e;
                        made = e';
                        listens = e2;
                        named = refl;
                        dialed = refl;
                      })
              ]
            ]
      ]

  database-ran :
      (flags : Flags) (env : PollerEnvironment) (o : Option Text) (r : Ready) (w end : W)
      → start_with host services schema flags env o w ≡ (ok (some r), end)
      → (path : Text) × (o ≡ some path) × IsOpened flags env path r w end
  unfolding start_with
  database-ran flags env none r w end h = absurd (cc h)
  database-ran flags env (some path) r w end h =
      (path, refl, start_with-ran flags env path r w end h)

  -- Where the start reaches the loops: the shutdown file was written with the word false; then a
  -- database was asked for, and is a debug database that was created for the requested path, or the
  -- requested one, which complies; the scheduler has opened it; the poller is usable; and the address
  -- is listened on.
  pub start_conductor-IsStarted :
      (flags : Flags) (env : PollerEnvironment) (r : Ready) (w end : W)
      → start_conductor host services schema flags env w ≡ (ok (some r), end)
      → IsStarted flags r end
  unfolding start_conductor
  start_conductor-IsStarted flags env r w end h =
      let prepared = prepare_run_dir host services schema w in
      elim (Result-cases prepared.0) [
        | inr (x, e) ↦ absurd (cc (rw e at h))
        | inl (u, e) ↦ elim (Bool-cases (not_empty (trim_space flags.test_db_loc))) [
          | inr e' ↦ absurd (cc (rw (e, e') at h))
          | inl e' ↦
              let chosen =
                choose_database host services schema flags.debug_always_new_db
                  (trim_space flags.test_db_loc) prepared.1 in
              elim (Result-cases chosen.0) [
                | inr (x, e2) ↦ absurd (cc (rw (e, e', e2) at h))
                | inl (o, e2) ↦
                    let (cleared, written) =
                      prepare-ran w prepared.1 (ap (λ x. (x, prepared.1)) e) in
                    let (path, is, opened) =
                      database-ran flags env o r chosen.1 end (rw (e, e', e2) at h) in
                    record {
                      cleared = cleared;
                      prepared = prepared.1;
                      written = written;
                      requested = e';
                      chosen = subst (IsChosen flags prepared.1) opened.named (
                          choose-ran flags flags.debug_always_new_db prepared.1 path chosen.1 refl
                            (ap (λ x. (x, chosen.1)) (e2 ∙ ap ok is)));
                      opening = chosen.1;
                      opened =
                          subst (λ q. open_scheduler host services schema q chosen.1 ≡ (ok tt, end))
                            opened.named opened.opened;
                      usable =
                          new_ticket_cloud_watch_sqs_poller-IsUsable services.config_error env
                            r.poller opened.made;
                      listens = opened.listens;
                      dialed = opened.dialed;
                    }
              ]
        ]
      ]
