-- ===== src/Worker/Process.antt =====
-- The worker as a process: its machine's state, and the calls of the conductor that it has made.
pub mod Goes
use aws_demo.Base.{
  ◌≡◌, refl, sym, ap, ◌∙◌, Bool, true, false, List, [], ◌∷◌, ◌++◌, Option, none, some, Result, ok,
  err, if◌then◌else◌,
}
use aws_demo.Text.{Text}
use aws_demo.Worker.{Problem, CommandResult, Machine, command_output}
use aws_demo.Worker.Artifacts.{ArtifactFailure}

-- What is reported to the conductor as an error of the agent.
pub data Report : Type 0 where
  initial_prompt_failed ending_prompt_failed correction_prompt_failed : Text → Report
  validation_failed : ArtifactFailure → Report
  transcript_unreadable transcript_unextractable : Report
  publishing_failed : Problem → Report

-- A call of the conductor's service, where it is made; a shutdown carries the published link.
pub data Call : Type 0 where
  handshake_call request_files_call upload_call : Call
  codex_error_call : Report → Call
  shutdown_call : Option Text → Call

pub record Process (W : Type 0) : Type 0 where
  pub world : W
  pub calls : List Call

abbrev pub Run : Type 0 → Type 0 → Type 0 → Type 0
Run W E A = Process W → Result E A × Process W

module _ {W E : Type 0} where
  abbrev pub pure : {A : Type 0} → A → Run W E A
  pure a p = (ok a, p)

  abbrev pub fail : {A : Type 0} → E → Run W E A
  fail e p = (err e, p)

  abbrev pub lift : {A : Type 0} → Result E A → Run W E A
  lift r p = (r, p)

  abbrev pub continue : {A B : Type 0} → Result E A → (A → Run W E B) → Run W E B
  continue (ok a) f p = f a p
  continue (err e) f p = (err e, p)

  infixl 5 ◌>>=◌ ◌>>◌
  unfoldable pub ◌>>=◌ : {A B : Type 0} → Run W E A → (A → Run W E B) → Run W E B
  ◌>>=◌ m f p = let (r, p') = m p in continue r f p'

  abbrev pub ◌>>◌ : {A B : Type 0} → Run W E A → Run W E B → Run W E B
  m >> k = m >>= λ _. k

  -- What is read off the machine.
  unfoldable pub read : {A : Type 0} → (W → A) → Run W E A
  read f p = (ok (f p.world), p)

  -- What changes the machine, and is not a call.
  unfoldable pub change : {A : Type 0} → (W → A × W) → Run W E A
  change f p = let (a, w) = f p.world in (ok a, record p { world = w })

  -- A call is recorded where it is made, whether or not it succeeds.
  unfoldable pub call : {A : Type 0} → Call → (W → A × W) → Run W E A
  call c f p =
      let (answer, w) = f p.world in (ok answer, record { world = w; calls = p.calls ++ c ∷ [] })

  -- `if err != nil { … }`, and what follows it.
  abbrev pub on_result :
      {A F B : Type 0} → Result F A → (A → Run W E B) → (F → Run W E B) → Run W E B
  on_result (ok a) f g = f a
  on_result (err e) f g = g e

  -- `if found { … }`
  abbrev pub on_found : {A B : Type 0} → Option A → Run W E B → (A → Run W E B) → Run W E B
  on_found none m f = m
  on_found (some a) m f = f a

  abbrev pub check : Bool → E → Run W E (Unit {0})
  check b e = if b then pure tt else fail e

-- The errors of `m` as those of its caller.
abbrev pub rename : {E F A : Type 0} → (E → F) → Result E A → Result F A
rename f (ok a) = ok a
rename f (err e) = err (f e)

unfoldable pub with_errors : {W E F A : Type 0} → (E → F) → Run W E A → Run W F A
with_errors f m p = let (r, p') = m p in (rename f r, p')
