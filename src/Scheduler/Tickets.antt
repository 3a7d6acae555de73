-- ===== src/Scheduler/Tickets.antt =====
-- `scheduleTickets` of scheduler.go: every undecided ticket is marked and gets a decision.
pub mod Refinement
use aws_demo.Base.{
  ℕ, ◌≡◌, refl, Bool, true, false, List, [], ◌∷◌, ◌++◌, map, Option, none, some, if◌then◌else◌,
  ◌==◌,
}
use aws_demo.Text.{Text, trim_space, is_empty}
use aws_demo.Json.{Decoder}
use aws_demo.Scheduler.Store.{
  TicketRow, Db, Tx, pure, ◌>>=◌, ◌>>◌, query, set_sqs_ticket_message_spawn_decision,
}
use aws_demo.Scheduler.Messages.{
  ScheduleDecision, ticket, ParsedIncomingMessage, parse_ticket_message_for_scheduling,
}
use aws_demo.Scheduler.Order.{stable_sort, ticket_less}

-- WHERE returned_spawn_decision_for_ticket = 0
unfoldable pub undecided : List TicketRow → List TicketRow
undecided [] = []
undecided (row ∷ rows) =
    if row.returned_spawn_decision_for_ticket == 0 then row ∷ undecided rows else undecided rows

-- ListSQSTicketMessagesNeedingDecision
unfoldable pub list_sqs_ticket_messages_needing_decision : Tx (List TicketRow)
unfolding undecided
list_sqs_ticket_messages_needing_decision =
    query (λ db. (stable_sort ticket_less (undecided db.tickets), db))

-- The parsed description, if the body still parses and the description is not blank.
unfoldable pub ticket_decision_text : Option ParsedIncomingMessage → Text → Text
ticket_decision_text none raw = raw
ticket_decision_text (some message) raw =
    if is_empty (trim_space message.text) then raw else message.text

unfoldable pub ticket_decision : Decoder → TicketRow → ScheduleDecision
unfolding ticket_decision_text
ticket_decision d row = record {
  to_schedule = true;
  text =
      ticket_decision_text (parse_ticket_message_for_scheduling d row.raw_message_body)
        row.raw_message_body;
  account_number = row.aws_account_number;
  message_type = ticket;
}

-- The loop over the rows.
unfoldable pub ticket_loop :
    Decoder → List TicketRow → List ScheduleDecision → Tx (List ScheduleDecision)
ticket_loop d [] decisions = pure decisions
ticket_loop d (row ∷ rest) decisions = do
  set_sqs_ticket_message_spawn_decision 1 row.id
  ticket_loop d rest (decisions ++ ticket_decision d row ∷ [])

-- scheduleTickets
unfoldable pub schedule_tickets : Decoder → Tx (List ScheduleDecision)
schedule_tickets d = do rows ← list_sqs_ticket_messages_needing_decision; ticket_loop d rows []
