-- ===== src/Atlas.antt =====
-- The set-up of the scheduler's database: conductor-and-worker/conductor/go-conductor/atlas. The text
-- of database.sql, SQLite and the program atlas are parameters: the text, and answers of the host.
pub mod Compliance
pub mod Debug
pub mod Frames
mod Tests
use aws_demo.Base.{
  zero, suc, ◌≡◌, refl, Bool, true, false, ◌||◌, List, [], ◌∷◌, ◌++◌, Option, none, some, Result,
  ok, err, if◌then◌else◌,
}
use aws_demo.Text.{Text, codes, is_empty, text_eq, trim_space, contains}
use aws_demo.Worker.{CommandResult, exited, not_run}
use aws_demo.Host.{Host, M, pure, fail, ◌>>=◌, ◌>>◌, try, ask, require, found, deferring, undoing}
use aws_demo.Host.Paths.{dir, base, ext, stem, join_path}

pub data AtlasError : Type 0 where
  path_required not_there no_temp_dir not_opened not_initialized not_resolved : AtlasError
  no_parent not_created not_closed schema_not_written : AtlasError
  command_failed : List Text → CommandResult → AtlasError
  schema_differs : Text → AtlasError

abbrev pub not_empty : Text → Bool
not_empty [] = false
not_empty (c ∷ s) = true

-- The program ended with exit code 0.
abbrev pub atlas_output : List Text → CommandResult → Result AtlasError Text
atlas_output args (exited zero output) = ok output
atlas_output args (exited (suc code) output) = err (command_failed args (exited (suc code) output))
atlas_output args not_run = err (command_failed args not_run)

-- normalizeAtlasDiffOutput
unfoldable pub normalize_atlas_diff_output : Text → Text
normalize_atlas_diff_output output =
    let trimmed = trim_space output in
    if is_empty trimmed || contains trimmed (codes "Schemas are synced, no changes to be made.")
    then []
    else trimmed

-- dbName and dbExtension of makeDebugDbPath for the last element of a path.
abbrev pub db_name : Text → Text
db_name last =
    if is_empty (stem last) || text_eq (stem last) (codes ".") then codes "scheduler" else stem last

abbrev pub db_extension : Text → Text
db_extension last = if is_empty (ext last) then codes ".sqlite" else ext last

-- The path of makeDebugDbPath for a clean absolute path, at a timestamp.
unfoldable pub debug_db_path : Text → Text → Text
debug_db_path requested timestamp =
    join_path (dir requested) (
      db_name (base requested) ++ (codes "-debug-" ++ (timestamp ++ db_extension (base requested))))

module _ {W : Type 0} (host : Host W) (expected_schema_sql : Text) where
  -- runAtlasCommand
  unfoldable pub run_atlas_command : List Text → M W AtlasError Text
  run_atlas_command args w =
      let (result, w') = host.command w [] (codes "atlas" ∷ args) in (atlas_output args result, w')

  -- sqliteDatabaseURL
  unfoldable pub sqlite_database_url : Text → M W AtlasError Text
  sqlite_database_url path = do
    absolute ← ask not_resolved (λ w. host.abs w path)
    pure (codes "sqlite://file:" ++ absolute)

  -- atlasSchemaDiff
  unfoldable pub atlas_schema_diff : Text → Text → M W AtlasError Text
  unfolding run_atlas_command sqlite_database_url
  atlas_schema_diff from to = do
    from_url ← sqlite_database_url from
    to_url ← sqlite_database_url to
    output ←
        run_atlas_command
          (codes "schema" ∷ codes "diff" ∷ codes "--from" ∷ from_url ∷ codes "--to" ∷ to_url ∷ [])
    pure (normalize_atlas_diff_output output)

  -- atlasSchemaInspectHCL
  unfoldable pub atlas_schema_inspect_hcl : Text → M W AtlasError Text
  unfolding run_atlas_command sqlite_database_url
  atlas_schema_inspect_hcl path = do
    url ← sqlite_database_url path
    run_atlas_command (codes "schema" ∷ codes "inspect" ∷ codes "-d" ∷ url ∷ [])

  -- os.MkdirTemp with its error
  abbrev pub temp_dir : Text → M W AtlasError Text
  temp_dir name w = let (made, w') = host.make_temp w name in found no_temp_dir w' made

  -- atlasSchemaApply, which nothing calls.
  unfoldable pub atlas_schema_apply : Text → Text → M W AtlasError (Unit {0})
  unfolding atlas_schema_inspect_hcl
  atlas_schema_apply target desired = do
    target_url ← sqlite_database_url target
    hcl ← atlas_schema_inspect_hcl desired
    temporary ← temp_dir (codes "go-conductor-atlas-schema-*")
    deferring (λ w. host.remove_all w temporary)
        do
          try schema_not_written
              (λ w. host.write_file w (join_path temporary (codes "schema.hcl")) hcl)
          output ← run_atlas_command (
              codes "schema"
              ∷ codes "apply"
              ∷ codes "-d"
              ∷ target_url
              ∷ codes "-f"
              ∷ join_path temporary (codes "schema.hcl")
              ∷ codes "--auto-approve"
              ∷ [])
          pure tt

  abbrev pub snapshot_path : Text → Text
  snapshot_path temporary = join_path temporary (codes "desired.sqlite")

  -- createDesiredDatabaseSnapshot after its directory was made; an error removes the directory.
  unfoldable pub fill_snapshot : Text → M W AtlasError Text
  fill_snapshot temporary =
      undoing (λ w. host.remove_all w temporary)
        do
          require not_opened (λ w. host.opens_database w (snapshot_path temporary))
          try not_initialized (λ w. host.execute w (snapshot_path temporary) expected_schema_sql)
          pure (snapshot_path temporary)

  -- The comparison of verifyRuntimeDatabaseSchema
  unfoldable pub compare_schemas : Text → Text → M W AtlasError (Unit {0})
  unfolding atlas_schema_diff
  compare_schemas path desired = do
    diff ← atlas_schema_diff path desired
    if is_empty (trim_space diff) then pure tt else fail (schema_differs (trim_space diff))

  -- verifyRuntimeDatabaseSchema; the snapshot's `cleanup` is deferred.
  unfoldable pub verify_runtime_database_schema : Text → M W AtlasError (Unit {0})
  unfolding fill_snapshot compare_schemas
  verify_runtime_database_schema path = do
    require path_required (λ w. not_empty (trim_space path))
    ask not_there (λ w. host.stat w path)
    temporary ← temp_dir (codes "go-conductor-desired-db-*")
    desired ← fill_snapshot temporary
    deferring (λ w. host.remove_all w temporary) (compare_schemas path desired)

  abbrev pub succeeded : {A : Type 0} → Result AtlasError A × W → Bool × W
  succeeded (ok a, w) = (true, w)
  succeeded (err e, w) = (false, w)

  -- IsDbCompliant
  unfoldable pub is_db_compliant : Text → W → Bool × W
  unfolding verify_runtime_database_schema
  is_db_compliant path w = succeeded (verify_runtime_database_schema path w)

  abbrev pub removes : Text → W → Bool × W
  removes path w = let (removal, w') = host.remove w path in (true, w')

  -- CreateConformantDatabase
  unfoldable pub create_conformant_database : Text → M W AtlasError (Unit {0})
  create_conformant_database path = do
    try no_parent (λ w. host.make_all w (dir path))
    try not_created (λ w. host.create_new w path)
    try not_closed (λ w. host.close_new w path)
    undoing (removes path) (require not_opened (λ w. host.opens_database w path))
    undoing (removes path) (try not_initialized (λ w. host.execute w path expected_schema_sql))

  -- makeDebugDbPath
  unfoldable pub make_debug_db_path : Text → M W AtlasError Text
  unfolding debug_db_path
  make_debug_db_path requested w =
      (ask not_resolved (λ w. host.abs w requested) >>= λ p w.
      pure (debug_db_path p (host.timestamp w)) w)
        w

  -- DbgCreateDb
  unfoldable pub dbg_create_db : Text → M W AtlasError Text
  unfolding make_debug_db_path create_conformant_database
  dbg_create_db requested = do
    path ← make_debug_db_path requested
    create_conformant_database path
    pure path
