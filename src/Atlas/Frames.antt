-- ===== src/Atlas/Frames.antt =====
-- What DbgCreateDb leaves alone, on a host whose functions change no other file than the one they are
-- given.
use aws_demo.Base.{◌≡◌, ◌≢◌, refl, ap, ◌∙◌, Bool, true, false, some, Result, ok, err}
use aws_demo.Text.{Text}
use aws_demo.Host.{Host, M, ◌>>=◌, continue, told, try, undone, undoing, pure}
use aws_demo.Host.Paths.{dir}
use aws_demo.Atlas.{
  AtlasError, no_parent, not_created, not_closed, not_opened, not_initialized, debug_db_path,
  removes, create_conformant_database, make_debug_db_path, dbg_create_db,
}
use aws_demo.Atlas.Debug.{debug_db_path-ne}

-- What a state holds at a path is `content`. Making directories changes no file, and creating,
-- closing, removing or executing changes none but its own.
pub record ChangesOnlyItsFile {W C : Type 0} (host : Host W) (content : W → Text → C) : Type 0 where
  pub by_make_all : (w : W) (p q : Text) → content (host.make_all w p).1 q ≡ content w q
  pub by_create_new : (w : W) (p q : Text) → p ≢ q → content (host.create_new w p).1 q ≡ content w q
  pub by_close_new : (w : W) (p q : Text) → p ≢ q → content (host.close_new w p).1 q ≡ content w q
  pub by_remove : (w : W) (p q : Text) → p ≢ q → content (host.remove w p).1 q ≡ content w q
  pub by_execute :
      (w : W) (p sql q : Text) → p ≢ q → content (host.execute w p sql).1 q ≡ content w q

module _ {W C : Type 0} (content : W → Text → C) (q : Text) where
  -- The run leaves the file at `q` as it was.
  pub record Frames {A : Type 0} (m : M W AtlasError A) : Type 0 where
    pub at : (w : W) → content (m w).1 q ≡ content w q

  continue-Frames :
      {A B : Type 0} (f : A → M W AtlasError B) (x : Result AtlasError A × W)
      → ((a : A) → Frames (f a))
      → content (continue f x).1 q ≡ content x.1 q
  continue-Frames f (ok a, w) k = (k a).at w
  continue-Frames f (err e, w) k = refl

  bind-Frames :
      {A B : Type 0} (m : M W AtlasError A) (f : A → M W AtlasError B)
      → Frames m
      → ((a : A) → Frames (f a))
      → Frames (m >>= f)
  bind-Frames m f h k = record { at = λ w. continue-Frames f (m w) k ∙ h.at w }

  told-Frames : (e : AtlasError) (x : Bool × W) → content (told e x).1 q ≡ content x.1 q
  told-Frames e (true, w) = refl
  told-Frames e (false, w) = refl

  try-Frames :
      (e : AtlasError) (step : W → Bool × W)
      → ((w : W) → content (step w).1 q ≡ content w q)
      → Frames (try e step)
  try-Frames e step h = record { at = λ w. told-Frames e (step w) ∙ h w }

  undone-Frames :
      {A : Type 0} (step : W → Bool × W) (x : Result AtlasError A × W)
      → ((w : W) → content (step w).1 q ≡ content w q)
      → content (undone step x).1 q ≡ content x.1 q
  undone-Frames step (ok a, w) h = refl
  undone-Frames step (err e, w) h = h w

  undoing-Frames :
      {A : Type 0} (step : W → Bool × W) (m : M W AtlasError A)
      → ((w : W) → content (step w).1 q ≡ content w q)
      → Frames m
      → Frames (undoing step m)
  undoing-Frames step m h k = record { at = λ w. undone-Frames step (m w) h ∙ k.at w }

module _ {W C : Type 0} (host : Host W) (schema : Text) (content : W → Text → C)
    (laws : ChangesOnlyItsFile host content) where
  create-Frames :
      (path q : Text) → path ≢ q → Frames content q (create_conformant_database host schema path)
  unfolding create_conformant_database
  create-Frames path q other =
      bind-Frames content q _ _
        (try-Frames content q no_parent (λ w. host.make_all w (dir path))
          (λ w. laws.by_make_all w (dir path) q))
        λ u.
          bind-Frames content q _ _
            (try-Frames content q not_created (λ w. host.create_new w path)
              (λ w. laws.by_create_new w path q other))
            λ u.
              bind-Frames content q _ _
                (try-Frames content q not_closed (λ w. host.close_new w path)
                  (λ w. laws.by_close_new w path q other))
                λ u.
                  bind-Frames content q _ _
                    (undoing-Frames content q (removes host schema path) _
                      (λ w. laws.by_remove w path q other)
                      (try-Frames content q not_opened (λ w. (host.opens_database w path, w))
                        (λ w. refl)))
                    λ u.
                      undoing-Frames content q (removes host schema path) _
                        (λ w. laws.by_remove w path q other)
                        (try-Frames content q not_initialized (λ w. host.execute w path schema)
                          (λ w. laws.by_execute w path schema q other))

  returned :
      (path p : Text) (x : Result AtlasError (Unit {0}) × W)
      → (continue (λ u. pure path) x).0 ≡ ok p
      → path ≡ p
  returned path p (ok u, w) h = cc h
  returned path p (err e, w) h = absurd (cc h)

  created :
      (path : Text) (x : Result AtlasError (Unit {0}) × W) → (continue (λ u. pure path) x).1 ≡ x.1
  created path (ok u, w) = refl
  created path (err e, w) = refl

  -- On a host that changes no other file than the one a function is given: whatever the functions
  -- answer, DbgCreateDb leaves the file at the requested path, made absolute, as it was, and never
  -- returns that path.
  pub dbg_create_db-keeps :
      (requested p : Text) (w : W)
      → host.abs w requested ≡ some p
      → (content (dbg_create_db host schema requested w).1 p ≡ content w p)
        × ((dbg_create_db host schema requested w).0 ≢ ok p)
  unfolding dbg_create_db make_debug_db_path
  dbg_create_db-keeps requested p w e =
      let path = debug_db_path p (host.timestamp w) in
      let x = create_conformant_database host schema path w in
      let other = debug_db_path-ne p (host.timestamp w) in
      rw e (
        ap (λ v. content v p) (created path x) ∙ (create-Frames path p other).at w,
        λ h. other (returned path p x h),
      )
