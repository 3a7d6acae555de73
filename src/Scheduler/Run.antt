-- ===== src/Scheduler/Run.antt =====
-- The scheduler's methods in scheduler.go: `RunScheduling` with its transaction, the inserts, and
-- the entry points that insert a message and run a pass.
pub mod Passes
pub mod Decisions
pub mod Inserts
pub mod Conservation
pub mod Rollback
use aws_demo.Base.{
  ◌≡◌, Bool, true, false, List, [], ◌∷◌, ◌++◌, map, Option, none, some, Result, ok, err, filter_map,
}
use aws_demo.Text.{Text}
use aws_demo.Json.{Decoder}
use aws_demo.Scheduler.Store.{
  Db, Error, Session, Tx, pure, lift, ◌>>=◌, ◌>>◌, directly, begin_tx, commit, rollback,
  insert_sqs_alarm_message, insert_sqs_ticket_message,
}
use aws_demo.Scheduler.Messages.{
  ScheduleDecision, IncomingMessage, ParsedIncomingMessage, ScheduleMessageType, incident, ticket,
  parse_incoming_message_for_scheduling,
}
use aws_demo.Scheduler.Alarms.{schedule_alarms}
use aws_demo.Scheduler.Tickets.{schedule_tickets}

-- The two halves of RunScheduling, on the queries of its transaction.
unfoldable pub schedule_both : Decoder → Tx (List ScheduleDecision)
schedule_both d = do
  alarm_decisions ← schedule_alarms
  ticket_decisions ← schedule_tickets d
  pure (alarm_decisions ++ ticket_decisions)

-- RunScheduling from BeginTx to Commit.
unfoldable pub transaction : Decoder → Tx (List ScheduleDecision)
unfolding schedule_both begin_tx commit
transaction d = do begin_tx; decisions ← schedule_both d; commit; pure decisions

-- RunScheduling
unfoldable pub run_scheduling : Decoder → Tx (List ScheduleDecision)
run_scheduling d s = rollback (transaction d s)

-- InsertAlarmMessages: one statement for each message, each committed on its own.
unfoldable pub insert_alarm_messages : List IncomingMessage → Tx Unit
insert_alarm_messages [] = pure tt
insert_alarm_messages (message ∷ rest) = do
  directly (insert_sqs_alarm_message message.raw_body message.account_number)
  insert_alarm_messages rest

-- InsertTicketMessages
unfoldable pub insert_ticket_messages : List IncomingMessage → Tx Unit
insert_ticket_messages [] = pure tt
insert_ticket_messages (message ∷ rest) = do
  directly (insert_sqs_ticket_message message.raw_body message.account_number)
  insert_ticket_messages rest

-- InsertAlarmMessageAndRunScheduling
unfoldable pub insert_alarm_message_and_run_scheduling :
    Decoder → IncomingMessage → Tx (List ScheduleDecision)
insert_alarm_message_and_run_scheduling d message = do
  insert_alarm_messages (message ∷ [])
  run_scheduling d

-- The two cases of the switch in InsertMessageAndRunScheduling.
unfoldable pub insert_parsed : ScheduleMessageType → IncomingMessage → Tx Unit
insert_parsed incident message = insert_alarm_messages (message ∷ [])
insert_parsed ticket message = insert_ticket_messages (message ∷ [])

-- InsertMessageAndRunScheduling
unfoldable pub insert_message_and_run_scheduling :
    Decoder → IncomingMessage → Tx (List ScheduleDecision)
insert_message_and_run_scheduling d message = do
  parsed ← lift (parse_incoming_message_for_scheduling d message.raw_body)
  insert_parsed parsed.message_type
      (record { raw_body = message.raw_body; account_number = parsed.account_number })
  run_scheduling d
