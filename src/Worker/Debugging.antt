-- ===== src/Worker/Debugging.antt =====
-- The debugging path of the worker's main, behind the flag --skip-conductor: worker.go and
-- skip-conductor-debugging.go of conductor-and-worker/worker/go-worker.
use aws_demo.Base.{Bool, true, false}
use aws_demo.Text.{Text, codes}
use aws_demo.Worker.{Machine}
use aws_demo.Worker.Process.{
  Report, initial_prompt_failed, ending_prompt_failed, Run, lift, rename, read, change, check,
  ◌>>=◌, ◌>>◌,
}
use aws_demo.Worker.Transfers.{Client}
use aws_demo.Worker.Main.{Surroundings, read_codex_thread_transcript_text}

pub data DebugPanic : Type 0 where
  no_client no_thread no_thread_and_close_failed : DebugPanic
  work_failed : Report → DebugPanic

-- Whether the client of the agent is closed without an error.
abbrev pub thread_error : Bool → DebugPanic
thread_error true = no_thread
thread_error false = no_thread_and_close_failed

module _ {W : Type 0} (m : Machine W) (client : Client W) (s : Surroundings W) (closes : Bool) where
  -- startSkipConductorDebuggingThread
  unfoldable pub start_skip_conductor_debugging_thread : Run W DebugPanic Unit
  start_skip_conductor_debugging_thread = do
    check s.has_agent no_client
    check s.has_thread (thread_error closes)

  -- The block of main under the flag: the transcript that it prints, or a panic.
  unfoldable pub skip_conductor : Run W DebugPanic Text
  unfolding start_skip_conductor_debugging_thread
  skip_conductor = do
    start_skip_conductor_debugging_thread
    main_task ← change (λ w.
        m.prompt w (codes "Make a new directory named foo and write a python fizzbuzz inside"))
    lift (rename (λ e. work_failed (initial_prompt_failed e)) main_task)
    ending ← change (λ w. m.prompt w s.ending_report)
    lift (rename (λ e. work_failed (ending_prompt_failed e)) ending)
    transcript ← read (read_codex_thread_transcript_text m client s)
    lift (rename work_failed transcript)
