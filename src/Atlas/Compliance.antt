-- ===== src/Atlas/Compliance.antt =====
-- When a database complies: verifyRuntimeDatabaseSchema of atlas-and-db-init.go.
use aws_demo.Base.{
  zero, suc, ◌≡◌, refl, ap, ◌∙◌, Bool, true, false, ◌||◌, List, [], ◌∷◌, ◌++◌, some, Result, ok,
  err, if◌then◌else◌, ◌↔◌, arith, Bool-cases, Option-cases, inl, inr,
}
use aws_demo.Text.{Text, codes, is_empty, trim_space, contains}
use aws_demo.Worker.{CommandResult, exited, not_run}
use aws_demo.Host.{Host, pure, fail, continue}
use aws_demo.Host.Runs.{after-ran}
use aws_demo.Text.Trimming.{trim_space_idem}
use aws_demo.Atlas.{
  AtlasError, schema_differs, not_empty, atlas_output, normalize_atlas_diff_output,
  run_atlas_command, sqlite_database_url, atlas_schema_diff, snapshot_path, fill_snapshot,
  compare_schemas, verify_runtime_database_schema, is_db_compliant, succeeded,
}

-- What atlas prints where two schemas are the same.
abbrev pub says_synced : Text → Bool
says_synced output =
    is_empty (trim_space output)
    || contains (trim_space output) (codes "Schemas are synced, no changes to be made.")

abbrev pub url_of : Text → Text
url_of absolute = codes "sqlite://file:" ++ absolute

abbrev tail_of : List Text → List Text
tail_of [] = []
tail_of (program ∷ args) = args

abbrev pub diff_command : Text → Text → List Text
diff_command from to =
    codes "atlas"
    ∷ codes "schema"
    ∷ codes "diff"
    ∷ codes "--from"
    ∷ url_of from
    ∷ codes "--to"
    ∷ url_of to
    ∷ []

or_false-left : (b c : Bool) → (b || c) ≡ false → b ≡ false
or_false-left b c h = ground arith

-- The normalized difference is blank exactly where atlas found none.
diff_is_empty :
    (output : Text)
    → is_empty (trim_space (normalize_atlas_diff_output output)) ≡ says_synced output
unfolding normalize_atlas_diff_output trim_space
diff_is_empty output = elim (Bool-cases (says_synced output)) [
  | inl e ↦ rw e refl
  | inr e ↦ rw e (ap is_empty (trim_space_idem output) ∙ or_false-left _ _ e)
]

module _ {W : Type 0} (host : Host W) (schema : Text) where
  -- A database exists at the path; a fresh directory could be made with a database of the expected
  -- schema in it; and atlas, asked for the difference from the one to the other, ended with exit code
  -- 0 and found none.
  pub record Complies (path : Text) (w : W) : Type 0 where
    pub named : not_empty (trim_space path) ≡ true
    pub kind : Bool
    pub there : host.stat w path ≡ some kind
    pub temporary : Text
    pub made : W
    pub makes : host.make_temp w (codes "go-conductor-desired-db-*") ≡ (some temporary, made)
    pub opens : host.opens_database made (snapshot_path host schema temporary) ≡ true
    pub filled : W
    pub fills : host.execute made (snapshot_path host schema temporary) schema ≡ (true, filled)
    pub from : Text
    pub from_is : host.abs filled path ≡ some from
    pub to : Text
    pub to_is : host.abs filled (snapshot_path host schema temporary) ≡ some to
    pub output : Text
    pub compared : W
    pub compares : host.command filled [] (diff_command from to) ≡ (exited 0 output, compared)
    pub synced : says_synced output ≡ true

  fills_snapshot :
      (temporary : Text) (w w' : W)
      → host.opens_database w (snapshot_path host schema temporary) ≡ true
      → host.execute w (snapshot_path host schema temporary) schema ≡ (true, w')
      → fill_snapshot host schema temporary w ≡ (ok (snapshot_path host schema temporary), w')
  unfolding fill_snapshot
  fills_snapshot temporary w w' opens fills = rw (opens, fills) refl

  compares_schemas :
      (path desired : Text) (w w' : W) (from to output : Text)
      → host.abs w path ≡ some from
      → host.abs w desired ≡ some to
      → host.command w [] (diff_command from to) ≡ (exited 0 output, w')
      → says_synced output ≡ true
      → compare_schemas host schema path desired w ≡ (ok tt, w')
  unfolding compare_schemas atlas_schema_diff sqlite_database_url run_atlas_command
      normalize_atlas_diff_output trim_space
  compares_schemas path desired w w' from to output from_is to_is compares synced =
      rw (from_is, to_is, compares, synced) refl

  -- A path that is named, of a database that is there, is compared with a snapshot.
  verifies :
      (path : Text) (w : W) (c : Complies path w)
      → verify_runtime_database_schema host schema path w
        ≡ (ok tt, (host.remove_all c.compared c.temporary).1)
  unfolding verify_runtime_database_schema
  verifies path w c =
      rw
        (
          c.named,
          c.there,
          c.makes,
          fills_snapshot c.temporary c.made c.filled c.opens c.fills,
          compares_schemas path (snapshot_path host schema c.temporary) c.filled c.compared c.from
              c.to c.output c.from_is c.to_is c.compares c.synced,
        )
        refl

  decided :
      (output : Text) (w : W) {u : Unit {0}} {w' : W}
      → (if is_empty (trim_space (normalize_atlas_diff_output output))
            then pure tt
            else fail (schema_differs (trim_space (normalize_atlas_diff_output output))))
          w
        ≡ (ok u, w')
      → (says_synced output ≡ true) × (w ≡ w')
  decided output w h = elim (Bool-cases (says_synced output)) [
    | inl e ↦ (e, ap (λ x. x.1) (rw (diff_is_empty output, e) at h))
    | inr e ↦ absurd (cc (rw (diff_is_empty output, e) at h))
  ]

  -- What follows the command in compareSchemas.
  judged :
      (args : List Text) (x : CommandResult × W) {u : Unit {0}} {w' : W}
      → continue
          (λ diff.
            if is_empty (trim_space diff) then pure tt else fail (schema_differs (trim_space diff)))
          (continue
            (λ output. pure (normalize_atlas_diff_output output))
            (atlas_output args x.0, x.1))
        ≡ (ok u, w')
      → (output : Text) × (x ≡ (exited 0 output, w')) × (says_synced output ≡ true)
  judged args (exited zero output, w) h =
      let (synced, same) = decided output w h in
      (output, ap (λ v. (exited 0 output, v)) same, synced)
  judged args (exited (suc code) output, w) h = absurd (cc h)
  judged args (not_run, w) h = absurd (cc h)

  compare-ran :
      (path desired : Text) (w : W) {u : Unit {0}} {w' : W}
      → compare_schemas host schema path desired w ≡ (ok u, w')
      → (from : Text) × (to : Text) × (output : Text) × (host.abs w path ≡ some from)
        × (host.abs w desired ≡ some to)
        × (host.command w [] (diff_command from to) ≡ (exited 0 output, w'))
        × (says_synced output ≡ true)
  unfolding compare_schemas atlas_schema_diff run_atlas_command sqlite_database_url
  compare-ran path desired w h = elim (Option-cases (host.abs w path)) [
    | inl e ↦ absurd (cc (rw e at h))
    | inr (from, e) ↦ elim (Option-cases (host.abs w desired)) [
      | inl e' ↦ absurd (cc (rw (e, e') at h))
      | inr (to, e') ↦
          let (output, ran, synced) =
            judged (tail_of (diff_command from to)) (host.command w [] (diff_command from to))
              (rw (e, e') at h) in
          (from, to, output, e, e', ran, synced)
    ]
  ]

  verify-ran :
      (path : Text) (w : W) {u : Unit {0}} {w' : W}
      → verify_runtime_database_schema host schema path w ≡ (ok u, w')
      → Complies path w
  unfolding verify_runtime_database_schema fill_snapshot
  verify-ran path w h = elim (Bool-cases (not_empty (trim_space path))) [
    | inr e ↦ absurd (cc (rw e at h))
    | inl e ↦ elim (Option-cases (host.stat w path)) [
      | inl e' ↦ absurd (cc (rw (e, e') at h))
      | inr (kind, e') ↦
          elim (Option-cases (host.make_temp w (codes "go-conductor-desired-db-*")).0) [
            | inl e2 ↦ absurd (cc (rw (e, e', e2) at h))
            | inr (temporary, e2) ↦
                let made = (host.make_temp w (codes "go-conductor-desired-db-*")).1 in
                let snapshot = snapshot_path host schema temporary in
                elim (Bool-cases (host.opens_database made snapshot)) [
                  | inr e3 ↦ absurd (cc (rw (e, e', e2, e3) at h))
                  | inl e3 ↦ elim (Bool-cases (host.execute made snapshot schema).0) [
                    | inr e4 ↦ absurd (cc (rw (e, e', e2, e3, e4) at h))
                    | inl e4 ↦
                        let filled = (host.execute made snapshot schema).1 in
                        let (compared, ran, last) =
                          after-ran (λ w. host.remove_all w temporary)
                            (compare_schemas host schema path snapshot filled)
                            (rw (e, e', e2, e3, e4) at h) in
                        let (from, to, output, from_is, to_is, compares, synced) =
                          compare-ran path snapshot filled ran in
                        record {
                          named = e;
                          kind = kind;
                          there = e';
                          temporary = temporary;
                          made = made;
                          makes = ap (λ o. (o, made)) e2;
                          opens = e3;
                          filled = filled;
                          fills = ap (λ b. (b, filled)) e4;
                          from = from;
                          from_is = from_is;
                          to = to;
                          to_is = to_is;
                          output = output;
                          compared = compared;
                          compares = compares;
                          synced = synced;
                        }
                  ]
                ]
          ]
    ]
  ]

  succeeded-ran :
      {A : Type 0} (x : Result AtlasError A × W)
      → (succeeded host schema x).0 ≡ true
      → (a : A) × (x ≡ (ok a, x.1))
  succeeded-ran (ok a, w) h = (a, refl)
  succeeded-ran (err e, w) h = absurd (cc h)

  -- A database is accepted exactly when it complies.
  pub is_db_compliant_iff :
      (path : Text) (w : W) → ((is_db_compliant host schema path w).0 ≡ true) ↔ Complies path w
  unfolding is_db_compliant
  is_db_compliant_iff path w = (
    λ h. verify-ran path w (succeeded-ran (verify_runtime_database_schema host schema path w) h).1,
    λ c. ap (λ x. (succeeded host schema x).0) (verifies path w c),
  )
