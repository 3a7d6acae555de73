-- ===== src/Scheduler/Alarms.antt =====
-- `scheduleAlarms` and `processAlarmChain` of scheduler.go, call by call.
pub mod Effect
pub mod Refinement
use aws_demo.Base.{
  ℕ, ◌≡◌, refl, Bool, true, false, not, ◌&&◌, ◌||◌, List, [], ◌∷◌, ◌++◌, map, Option, none, some,
  if◌then◌else◌, ◌==◌, last,
}
use aws_demo.Text.{text_eq}
use aws_demo.Scheduler.Store.{
  AlarmRow, Db, Tx, pure, lift, ◌>>=◌, ◌>>◌, query, mark_sqs_alarm_message_chained,
  set_sqs_alarm_message_spawn_decision,
}
use aws_demo.Scheduler.Messages.{ScheduleDecision, incident}
use aws_demo.Scheduler.Order.{stable_sort, alarm_less}
use aws_demo.Scheduler.Chains.{alarm_rows_are_chained}

-- ListSQSAlarmMessages
unfoldable pub list_sqs_alarm_messages : Tx (List AlarmRow)
list_sqs_alarm_messages = query (λ db. (stable_sort alarm_less db.alarms, db))

-- The first loop of processAlarmChain; the result is `alreadyDecided`.
unfoldable pub mark_chain : List AlarmRow → Bool → Tx Bool
mark_chain [] already_decided = pure already_decided
mark_chain (row ∷ rest) already_decided = do
  if row.is_chained == 0 then mark_sqs_alarm_message_chained row.id else pure tt
  mark_chain rest
      (if row.returned_spawn_decision_for_chained_set == 0 then already_decided else true)

-- The second loop.
unfoldable pub decide_chain : List AlarmRow → Tx Unit
decide_chain [] = pure tt
decide_chain (row ∷ rest) = do
  if row.returned_spawn_decision_for_chained_set == 0
      then set_sqs_alarm_message_spawn_decision 1 row.id
      else pure tt
  decide_chain rest

abbrev pub alarm_decision : AlarmRow → ScheduleDecision
alarm_decision row = record {
  to_schedule = true;
  text = row.raw_message_body;
  account_number = row.aws_account_number;
  message_type = incident;
}

-- processAlarmChain; no decision is Go's `false`.
unfoldable pub process_alarm_chain : List AlarmRow → Tx (Option ScheduleDecision)
process_alarm_chain [] = pure none
process_alarm_chain (row ∷ rest) = do
  already_decided ← mark_chain (row ∷ rest) false
  decide_chain (row ∷ rest)
  pure (if already_decided then none else some (alarm_decision (last row rest)))

abbrev pub append_decision : List ScheduleDecision → Option ScheduleDecision → List ScheduleDecision
append_decision decisions none = decisions
append_decision decisions (some decision) = decisions ++ decision ∷ []

-- The closure `flush`: the decisions after the chain.
unfoldable pub flush : List AlarmRow → List ScheduleDecision → Tx (List ScheduleDecision)
flush chain decisions = do
  result ← process_alarm_chain chain
  pure (append_decision decisions result)

-- The loop over the sorted rows and the last flush.
unfoldable pub alarm_loop :
    List AlarmRow → List AlarmRow → List ScheduleDecision → Tx (List ScheduleDecision)
alarm_loop [] current decisions = flush current decisions
alarm_loop (row ∷ later) [] decisions = alarm_loop later (row ∷ []) decisions
alarm_loop (row ∷ later) (first ∷ rest) decisions = do
  chained ← lift (alarm_rows_are_chained (last first rest) row)
  elim (text_eq (last first rest).aws_account_number row.aws_account_number && chained) [
    | true ↦ alarm_loop later (first ∷ rest ++ row ∷ []) decisions
    | false ↦ do decisions' ← flush (first ∷ rest) decisions; alarm_loop later (row ∷ []) decisions'
  ]

-- scheduleAlarms after the query: the rows come sorted, and are sorted again.
unfoldable pub alarm_pass : List AlarmRow → Tx (List ScheduleDecision)
alarm_pass [] = pure []
alarm_pass (row ∷ later) = alarm_loop (stable_sort alarm_less (row ∷ later)) [] []

unfoldable pub schedule_alarms : Tx (List ScheduleDecision)
schedule_alarms = do rows ← list_sqs_alarm_messages; alarm_pass rows
