-- ===== src/Conductor/Tests.antt =====
-- A conductor that polls one ticket, and the instances of the theorems on the poll loop.
use aws_demo.Base.{ℕ, ◌≡◌, refl, true, false, List, [], ◌∷◌, ◌++◌, none, some, ok, err, filter_map}
use aws_demo.Text.{Text, codes}
use aws_demo.Scheduler.Store.{Session, unsupported_shape}
use aws_demo.Scheduler.Messages.{ScheduleDecision, ticket}
use aws_demo.Scheduler.Tests.{decoder, program}
use aws_demo.Registry.{new_worker_registry}
use aws_demo.Conductor.{
  PolledMessage, Spawning, LoopEvent, message, poll_done, poll_error, handle_message, poll_loop,
}
use aws_demo.Conductor.Loop.{IsHandled, to_scheduler, handle_message-IsHandled}
use aws_demo.Conductor.Draining.{taken, before_end, handle_all, poll_loop-drains}

abbrev empty : Session
empty = record {
  db = record { alarms = []; tickets = [] };
  pending = record { alarms = []; tickets = [] };
  faults = [];
  clock = codes "2026-05-12 23:00:00";
}

-- Every spawn succeeds; the names differ.
abbrev spawns : ℕ → Spawning
spawns i = record {
  name = i ∷ [];
  disk = record {
    template = some true;
    removes_old = true;
    makes_parent = true;
    copies = true;
    writes_task = true;
  };
  launcher = λ conf r. (none, r);
  started = i;
  ended = i;
}

abbrev a_ticket : PolledMessage
a_ticket = record {
  external_message_id = codes "m1";
  receipt_handle = codes "h1";
  body = codes "T";
}

abbrev garbage : PolledMessage
garbage = record { external_message_id = codes "m2"; receipt_handle = codes "h2"; body = codes "?" }

abbrev asked : List ScheduleDecision
asked =
    record {
      to_schedule = true;
      text = codes "Fix it.";
      account_number = [];
      message_type = ticket;
    }
    ∷ []

accepted : (to_scheduler decoder a_ticket empty).0 ≡ ok asked
unfolding program
accepted = refl

refused : (to_scheduler decoder garbage empty).0 ≡ err unsupported_shape
unfolding program
refused = refl

abbrev run_dir : Text
run_dir = codes "/conductor/run"

abbrev before : List LoopEvent
before = poll_error ∷ message a_ticket false true spawns ∷ []

-- PollDone is closed, and still a message is received.
abbrev later : List LoopEvent
later = message a_ticket true true spawns ∷ poll_done ∷ message a_ticket true true spawns ∷ []

poll_loop-drains_example :
    poll_loop run_dir (codes "h:1") decoder (before ++ later) empty new_worker_registry
    ≡ handle_all run_dir
        (codes "h:1")
        decoder
        (filter_map taken (before_end before))
        empty
        new_worker_registry
poll_loop-drains_example =
    poll_loop-drains run_dir (codes "h:1") decoder before later empty new_worker_registry
      (refl, (tt, (refl, tt)))

handle_message-IsHandled_example :
    IsHandled run_dir
      (codes "h:1")
      decoder
      a_ticket
      true
      spawns
      empty
      new_worker_registry
      asked
      (handle_message run_dir (codes "h:1") decoder a_ticket true spawns empty new_worker_registry)
handle_message-IsHandled_example =
    handle_message-IsHandled run_dir (codes "h:1") decoder a_ticket true spawns empty
      new_worker_registry asked accepted
