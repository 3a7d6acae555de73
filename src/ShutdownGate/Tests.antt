-- ===== src/ShutdownGate/Tests.antt =====
-- A gate that waits for one worker, and the instances of its theorems.
use aws_demo.Base.{◌≡◌, refl, true, List, [], ◌∷◌, none, some, any, if◌then◌else◌}
use aws_demo.Text.{codes, text_eq, trim_space}
use aws_demo.ShutdownGate.{
  Turn, new_gate, waiting, ready, write_failed, parse_bool, is_shutdown_okay, shutdown_gate,
}
use aws_demo.ShutdownGate.Safety.{lets_go, shutdown_gate-closes, shutdown_gate-outcome}

-- The file is missing, then says false, then true while a worker is active, then true.
abbrev turns : List Turn
turns =
    record { flag = none; active = 1 }
    ∷ record { flag = some (codes "false\n"); active = 1 }
    ∷ record { flag = some (codes "true\n"); active = 1 }
    ∷ record { flag = some (codes "true\n"); active = 0 }
    ∷ []

opens : (shutdown_gate true turns new_gate).0 ≡ ready
unfolding shutdown_gate is_shutdown_okay parse_bool text_eq trim_space
opens = refl

shutdown_gate-closes_example :
    ((shutdown_gate true turns new_gate).1.closes ≡ (if any is_shutdown_okay turns then 1 else 0))
    × ((shutdown_gate true turns new_gate).1.stopped ≡ any is_shutdown_okay turns)
shutdown_gate-closes_example = shutdown_gate-closes true turns

shutdown_gate-outcome_example :
    (shutdown_gate true turns new_gate).0
    ≡ (if any lets_go turns then (if true then ready else write_failed) else waiting)
shutdown_gate-outcome_example = shutdown_gate-outcome true turns
