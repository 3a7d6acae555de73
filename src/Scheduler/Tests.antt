-- ===== src/Scheduler/Tests.antt =====
-- The scheduler on small tables, as in go-db-scheduler/scheduler_test.go, and the instances of its
-- theorems at them.
use aws_demo.Base.{
  ℕ, ◌≡◌, ◌+◌, refl, count_if, true, false, List, [], ◌∷◌, ◌++◌, none, some, ok, err, All, arith,
  if◌then◌else◌, map, filter_map,
}
use aws_demo.Text.{Text, codes, is_empty, text_eq, text_lt, trim_space, join}
use aws_demo.Clock.{parse_received_at}
use aws_demo.Json.{
  Json, str, obj, arr, member, end, cons, nil, Decoder, string_field, raw_field, fits, map_value,
  has_key,
}
use aws_demo.Scheduler.Store.{
  AlarmRow, Db, driver_error, unsupported_shape, Session, ◌>>=◌, query, directly, begin_tx, commit,
  mark_sqs_alarm_message_chained, set_sqs_alarm_message_spawn_decision,
  set_sqs_ticket_message_spawn_decision, insert_sqs_alarm_message, insert_sqs_ticket_message,
}
use aws_demo.Scheduler.Store.Rules.{Outcome, Healthy}
use aws_demo.Scheduler.Messages.{
  ticket_description_text, ScheduleDecision, incident, ticket,
  parse_incoming_message_for_scheduling, parse_incident_message_for_scheduling,
  parse_ticket_message_for_scheduling,
}
use aws_demo.Scheduler.Order.{stable_sort, alarm_less, ticket_less}
use aws_demo.Scheduler.Chains.{Chain, alarm_rows_are_chained, linked, IsTimed}
use aws_demo.Scheduler.Alarms.{
  list_sqs_alarm_messages, schedule_alarms, mark_chain, decide_chain, process_alarm_chain, flush,
  alarm_loop, alarm_pass,
}
use aws_demo.Scheduler.Alarms.Effect.{settle}
use aws_demo.Scheduler.Alarms.Refinement.{decide}
use aws_demo.Scheduler.Tickets.{
  schedule_tickets, ticket_loop, ticket_decision, list_sqs_ticket_messages_needing_decision,
  undecided,
}
use aws_demo.Scheduler.Tickets.Refinement.{settle_ticket}
use aws_demo.Scheduler.Run.{
  run_scheduling, transaction, schedule_both, insert_message_and_run_scheduling, insert_parsed,
  insert_alarm_messages, insert_ticket_messages,
}
use aws_demo.Scheduler.Run.Passes.{
  IsKeyed, decisions, settled, run_scheduling-Outcome, run_scheduling_idem,
}
use aws_demo.Scheduler.Run.Rollback.{run_scheduling_atomic}
use aws_demo.Scheduler.Run.Decisions.{AreRollingChains, run_scheduling_chains}
use aws_demo.Scheduler.Run.Inserts.{InsertOutcome, insert_message-InsertOutcome}
use aws_demo.Scheduler.Run.Conservation.{
  Delivery, deliver, is_on_ticket, is_decided_ticket, deliver-conserves,
}

abbrev ticket_json : Json
ticket_json = obj (
    member (codes "key") (str (codes "ENG-123")) (
      member (codes "fields")
        (obj (
          member (codes "description")
            (obj (
              member (codes "content")
                (arr (cons (obj (member (codes "text") (str (codes " Fix it. ")) end)) nil)) end))
            end))
        end))

abbrev incident_json : Json
incident_json = obj (
    member (codes "Source") (str (codes "aws.cloudwatch")) (
      member (codes "detail-type") (str (codes "CloudWatch Alarm State Change"))
        (member (codes "account") (str (codes " 2047 ")) end)))

-- A reader of two bodies.
abbrev pub decoder : Decoder
decoder = record {
  read = λ raw.
      if text_eq raw (codes "T")
      then some ticket_json
      else if text_eq raw (codes "I")
      then some incident_json
      else none;
  fits_float64 = λ _. true;
  range_order = λ parts. parts;
}

abbrev alarm : ℕ → Text → Text → AlarmRow
alarm id at body = record {
  id = id;
  received_at = at;
  raw_message_body = body;
  aws_account_number = codes "2047";
  returned_spawn_decision_for_chained_set = 0;
  is_chained = 0;
}

-- Two alarms exactly an hour apart, one an hour and a second later, and a ticket.
abbrev tables : Db
tables = record {
  alarms =
      alarm 1 (codes "2026-05-12 20:00:00") (codes "one")
      ∷ alarm 2 (codes "2026-05-12 22:00:01") (codes "three")
      ∷ alarm 3 (codes "2026-05-12 21:00:00") (codes "two")
      ∷ [];
  tickets =
      record {
        id = 1;
        received_at = codes "2026-05-12 20:00:00";
        raw_message_body = codes "T";
        aws_account_number = [];
        returned_spawn_decision_for_ticket = 0;
      }
      ∷ [];
}

abbrev healthy : Session
healthy = record { db = tables; pending = tables; faults = []; clock = codes "2026-05-12 23:00:01" }

-- The driver fails at the fourth call.
abbrev failing : Session
failing = record {
  db = tables;
  pending = tables;
  faults = false ∷ false ∷ false ∷ true ∷ [];
  clock = codes "2026-05-12 23:00:01";
}

-- What the tests evaluate.
unfoldable pub program : Unit {0}
unfolding run_scheduling transaction schedule_both begin_tx commit directly schedule_alarms
    alarm_pass alarm_loop flush process_alarm_chain mark_chain decide_chain list_sqs_alarm_messages
    mark_sqs_alarm_message_chained set_sqs_alarm_message_spawn_decision
    set_sqs_ticket_message_spawn_decision schedule_tickets ticket_loop ticket_decision
    list_sqs_ticket_messages_needing_decision query ◌>>=◌ stable_sort alarm_less ticket_less
    alarm_rows_are_chained linked parse_received_at parse_ticket_message_for_scheduling
    parse_incident_message_for_scheduling parse_incoming_message_for_scheduling
    insert_message_and_run_scheduling insert_parsed insert_alarm_messages insert_ticket_messages
    insert_sqs_alarm_message insert_sqs_ticket_message settle settle_ticket text_eq text_lt
    trim_space join string_field raw_field fits map_value has_key ticket_description_text
program = tt

abbrev incident_decision : Text → ScheduleDecision
incident_decision text = record {
  to_schedule = true;
  text = text;
  account_number = codes "2047";
  message_type = incident;
}

abbrev made : List ScheduleDecision
made =
    incident_decision (codes "two")
    ∷ incident_decision (codes "three")
    ∷ record {
      to_schedule = true;
      text = codes "Fix it.";
      account_number = [];
      message_type = ticket;
    }
    ∷ []

after : Session
after = record healthy { db = settled tables; pending = settled tables }

pass : run_scheduling decoder healthy ≡ (ok made, after)
unfolding program after settled
pass = refl

tables-IsKeyed : IsKeyed tables
tables-IsKeyed = record { alarms = omega arith; tickets = omega arith }

pass_failing : (s : Session) × (run_scheduling decoder failing ≡ (err driver_error, s))
unfolding program
pass_failing = (record failing { faults = [] }, refl)

run_scheduling-Outcome_example :
    Outcome
      (Healthy [] × All IsTimed tables.alarms)
      (decisions decoder tables)
      (settled tables)
      (run_scheduling decoder healthy)
run_scheduling-Outcome_example = run_scheduling-Outcome decoder healthy tables-IsKeyed

run_scheduling_atomic_example : pass_failing.0.db ≡ tables
run_scheduling_atomic_example =
    run_scheduling_atomic decoder failing pass_failing.0 driver_error pass_failing.1

pass_again : run_scheduling decoder after ≡ (ok [], after)
unfolding program after settled
pass_again = refl

run_scheduling_idem_example : (◌≡◌ {A = List ScheduleDecision} [] []) × (after.db ≡ after.db)
run_scheduling_idem_example =
    run_scheduling_idem decoder healthy after after after made [] tables-IsKeyed pass refl
      pass_again

run_scheduling_chains_example :
    (cs : List Chain) × AreRollingChains tables cs
    × (made
        ≡ filter_map decide cs
          ++ map (ticket_decision decoder) (stable_sort ticket_less (undecided tables.tickets)))
run_scheduling_chains_example = run_scheduling_chains decoder healthy after made tables-IsKeyed pass

-- An incident an hour after the last alarm of its account is taken into that alarm's chain.
insert_message-InsertOutcome_example :
    InsertOutcome decoder
      (codes "I")
      healthy
      (parse_incoming_message_for_scheduling decoder (codes "I"))
      (insert_message_and_run_scheduling decoder
        (record { raw_body = codes "I"; account_number = [] })
        healthy)
insert_message-InsertOutcome_example =
    insert_message-InsertOutcome decoder (record { raw_body = codes "I"; account_number = [] })
      healthy tables-IsKeyed

insert_incident :
    (insert_message_and_run_scheduling decoder
      (record { raw_body = codes "I"; account_number = [] })
      after).0
    ≡ ok []
unfolding program after settled
insert_incident = refl

insert_unsupported :
    insert_message_and_run_scheduling decoder
      (record { raw_body = codes "?"; account_number = [] })
      healthy
    ≡ (err unsupported_shape, healthy)
unfolding program
insert_unsupported = refl

-- An incident, a ticket whose pass fails, and the same ticket once more.
abbrev deliveries : List Delivery
deliveries =
    record {
      message = record { raw_body = codes "I"; account_number = [] };
      faults = [];
      clock = codes "2026-05-12 23:00:01";
    }
    ∷ record {
      message = record { raw_body = codes "T"; account_number = [] };
      faults = false ∷ false ∷ false ∷ true ∷ [];
      clock = codes "2026-05-12 23:01:00";
    }
    ∷ record {
      message = record { raw_body = codes "T"; account_number = [] };
      faults = [];
      clock = codes "2026-05-12 23:02:00";
    }
    ∷ []

three_decided : count_if (is_on_ticket is_empty) (deliver decoder deliveries tables).0 ≡ 3
unfolding program deliver
three_decided = refl

deliver-conserves_example :
    count_if (is_on_ticket is_empty) (deliver decoder deliveries tables).0
      + count_if (is_decided_ticket is_empty) tables.tickets
    ≡ count_if (is_decided_ticket is_empty) (deliver decoder deliveries tables).1.tickets
deliver-conserves_example = deliver-conserves is_empty decoder deliveries tables tables-IsKeyed
