-- ===== src/Conductor/Startup/Exits.antt =====
-- How the conductor's process ends: the returns of runConductor and the status of main of main.go.
use aws_demo.Base.{◌≡◌, true, false, ok}
use aws_demo.Text.{Text, trim_space}
use aws_demo.Host.{Host}
use aws_demo.Atlas.{not_empty}
use aws_demo.Atlas.Compliance.{Complies}
use aws_demo.Conductor.Startup.{Flags, Services, prepare_run_dir}

module _ {W : Type 0} (host : Host W) (services : Services W) (schema : Text) where
  -- The run directory was prepared, and a database was asked for, with no debug database; and the
  -- one at that path does not comply.
  pub record IsRefused (flags : Flags) (w : W) : Type 0 where
    pub prepared : W
    pub prepares : prepare_run_dir host services schema w ≡ (ok tt, prepared)
    pub requested : not_empty (trim_space flags.test_db_loc) ≡ true
    pub no_debug : flags.debug_always_new_db ≡ false
    pub differs : ¬ Complies host schema (trim_space flags.test_db_loc) prepared
