-- ===== src/ShutdownGate.antt =====
-- The shutdown gate: conductor-and-worker/conductor/go-conductor/shutdowngate.go. One turn of its loop
-- reads the flag file and counts the active workers; the loop runs over the turns of a run.
pub mod Safety
mod Tests
use aws_demo.Base.{
  ℕ, suc, zero, ◌+◌, ◌≡◌, refl, Bool, true, false, not, ◌||◌, List, [], ◌∷◌, Option, none, some,
  any, if◌then◌else◌, ◌==◌,
}
use aws_demo.Text.{Text, codes, text_eq, trim_space}

-- Whether a word is one of the list.
one_of : Text → List Text → Bool
one_of w ws = any (text_eq w) ws

-- strconv.ParseBool
unfoldable pub parse_bool : Text → Option Bool
unfolding one_of
parse_bool s =
    if one_of s
      (codes "1" ∷ codes "t" ∷ codes "T" ∷ codes "true" ∷ codes "TRUE" ∷ codes "True" ∷ [])
    then some true
    else if one_of s
        (codes "0" ∷ codes "f" ∷ codes "F" ∷ codes "false" ∷ codes "FALSE" ∷ codes "False" ∷ [])
    then some false
    else none

-- What one turn meets: the content of the flag file, if it can be read, and the active workers.
pub record Turn : Type 0 where
  pub flag : Option Text
  pub active : ℕ

-- `pollStopSignaled`, how often PollDone was closed (a second time panics), and whether polling was
-- told to stop.
pub record Gate : Type 0 where
  pub signaled : Bool
  pub closes : ℕ
  pub stopped : Bool

abbrev pub new_gate : Gate
new_gate = record { signaled = false; closes = 0; stopped = false }

-- The flag file was read and says true.
unfoldable pub is_shutdown_okay : Turn → Bool
is_shutdown_okay t = elim t.flag [
  | none ↦ false
  | some s ↦ elim (parse_bool (trim_space s)) [ none ↦ false | some b ↦ b ]
]

unfoldable pub signal : Gate → Gate
signal g =
    if g.signaled then g else record { signaled = true; closes = g.closes + 1; stopped = true }

pub data Outcome : Type 0 where
  waiting ready write_failed : Outcome

-- The loop of shutdownGate over the turns, and the file it writes after it: `writes` says whether
-- that succeeds. After the last turn the gate still waits.
unfoldable pub shutdown_gate : Bool → List Turn → Gate → Outcome × Gate
unfolding signal
shutdown_gate writes [] g = (waiting, g)
shutdown_gate writes (t ∷ ts) g =
    let idle = shutdown_gate writes ts g in
    let later = shutdown_gate writes ts (signal g) in
    if is_shutdown_okay t
    then (if t.active == 0 then (if writes then ready else write_failed, signal g) else later)
    else idle
