-- ===== src/Host.antt =====
-- The machine that the conductor and the worker run on, as far as atlas-and-db-init.go and main.go of
-- conductor-and-worker/conductor/go-conductor and sharedlib/zip.go of conductor-and-worker use it: a
-- state of any type with the answers of the packages os, os/exec and database/sql, and the monad of a
-- function that changes it and may return an error.
pub mod Joining
pub mod Paths
pub mod Runs
pub mod Sample
pub mod Splitting
use aws_demo.Base.{
  ◌≡◌, refl, Bool, true, false, List, [], ◌∷◌, ◌++◌, Option, none, some, Result, ok, err,
  if◌then◌else◌, ◌==◌, ℕ,
}
use aws_demo.Text.{Text, codes, is_empty}
use aws_demo.Worker.{CommandResult}

-- What os.Remove answers: an error may say that there is no such file.
pub data Removal : Type 0 where
  removed missing not_removed : Removal

-- The functions answer, and the state goes on. `stat` says whether a path is a directory; `create_new`
-- is os.OpenFile with O_EXCL, and `close_new` closes its file; `execute` runs SQL text on a database;
-- `command` is a program with its arguments, in a directory.
pub record Host (W : Type 0) : Type 0 where
  pub stat : W → Text → Option Bool
  pub abs : W → Text → Option Text
  pub timestamp : W → Text
  pub make_all : W → Text → Bool × W
  pub make_temp : W → Text → Option Text × W
  pub remove : W → Text → Removal × W
  pub remove_all : W → Text → Bool × W
  pub write_file : W → Text → Text → Bool × W
  pub create_new : W → Text → Bool × W
  pub close_new : W → Text → Bool × W
  pub opens_database : W → Text → Bool
  pub execute : W → Text → Text → Bool × W
  pub command : W → Text → List Text → CommandResult × W

abbrev pub M : Type 0 → Type 0 → Type 0 → Type 0
M W E A = W → Result E A × W

module _ {W E : Type 0} where
  abbrev pub pure : {A : Type 0} → A → M W E A
  pure a w = (ok a, w)

  abbrev pub fail : {A : Type 0} → E → M W E A
  fail e w = (err e, w)

  abbrev pub continue : {A B : Type 0} → (A → M W E B) → Result E A × W → Result E B × W
  continue f (ok a, w) = f a w
  continue f (err e, w) = (err e, w)

  infixl 5 ◌>>=◌ ◌>>◌
  abbrev pub ◌>>=◌ : {A B : Type 0} → M W E A → (A → M W E B) → M W E B
  ◌>>=◌ m f w = continue f (m w)

  abbrev pub ◌>>◌ : {A B : Type 0} → M W E A → M W E B → M W E B
  m >> k = m >>= λ _. k

  -- `if err := step(); err != nil { return e }`
  abbrev pub told : E → Bool × W → Result E (Unit {0}) × W
  told e (true, w) = (ok tt, w)
  told e (false, w) = (err e, w)

  abbrev pub try : E → (W → Bool × W) → M W E (Unit {0})
  try e step w = told e (step w)

  -- What is read off the state, or an error.
  abbrev pub found : {A : Type 0} → E → W → Option A → Result E A × W
  found e w none = (err e, w)
  found e w (some a) = (ok a, w)

  abbrev pub ask : {A : Type 0} → E → (W → Option A) → M W E A
  ask e f w = found e w (f w)

  abbrev pub require : E → (W → Bool) → M W E (Unit {0})
  require e f w = told e (f w, w)

  -- `defer`, of a step whose error is not looked at.
  abbrev pub after : {A : Type 0} → (W → Bool × W) → Result E A × W → Result E A × W
  after step (r, w) = (r, (step w).1)

  abbrev pub deferring : {A : Type 0} → (W → Bool × W) → M W E A → M W E A
  deferring step m w = after step (m w)

  -- The step that follows an error only, whose own error is not looked at.
  abbrev pub undone : {A : Type 0} → (W → Bool × W) → Result E A × W → Result E A × W
  undone step (ok a, w) = (ok a, w)
  undone step (err e, w) = (err e, (step w).1)

  abbrev pub undoing : {A : Type 0} → (W → Bool × W) → M W E A → M W E A
  undoing step m w = undone step (m w)
