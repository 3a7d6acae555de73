-- ===== src/Scheduler/Run/Rollback.antt =====
-- What a pass that fails has changed: nothing, since its statements are those of its transaction.
use aws_demo.Base.{
  ◌≡◌, sym, ap, ◌∙◌, Bool, true, false, ◌&&◌, List, [], ◌∷◌, ◌++◌, Result, ok, err, ◌==◌,
  Bool-cases, inl, inr, last, if◌then◌else◌,
}
use aws_demo.Text.{text_eq}
use aws_demo.Json.{Decoder}
use aws_demo.Scheduler.Store.{
  AlarmRow, TicketRow, Error, Session, Tx, pure, continue, ◌>>=◌, ◌>>◌, query, begin_tx, commit,
  committed, rollback, mark_sqs_alarm_message_chained, set_sqs_alarm_message_spawn_decision,
  set_sqs_ticket_message_spawn_decision,
}
use aws_demo.Scheduler.Store.Rules.{Frames, pure-Frames, query-Frames, bind-Frames, lift-Frames}
use aws_demo.Scheduler.Messages.{ScheduleDecision}
use aws_demo.Scheduler.Order.{stable_sort, alarm_less}
use aws_demo.Scheduler.Chains.{alarm_rows_are_chained}
use aws_demo.Scheduler.Alarms.{
  list_sqs_alarm_messages, mark_chain, decide_chain, process_alarm_chain, flush, alarm_loop,
  alarm_pass, schedule_alarms,
}
use aws_demo.Scheduler.Tickets.{
  list_sqs_ticket_messages_needing_decision, ticket_loop, schedule_tickets,
}
use aws_demo.Scheduler.Run.{schedule_both, transaction, run_scheduling}

-- A statement that a test guards.
guarded-Frames : (b : Bool) (m : Tx Unit) → Frames m → Frames (if b then m else pure tt)
guarded-Frames true m h = h
guarded-Frames false m h = pure-Frames tt

mark_chain-Frames : (rows : List AlarmRow) (already : Bool) → Frames (mark_chain rows already)
unfolding mark_chain mark_sqs_alarm_message_chained
mark_chain-Frames [] already = pure-Frames already
mark_chain-Frames (row ∷ rest) already =
    bind-Frames _ _ (guarded-Frames (row.is_chained == 0) _ (query-Frames _))
      (λ u. mark_chain-Frames rest _)

decide_chain-Frames : (rows : List AlarmRow) → Frames (decide_chain rows)
unfolding decide_chain set_sqs_alarm_message_spawn_decision
decide_chain-Frames [] = pure-Frames tt
decide_chain-Frames (row ∷ rest) =
    bind-Frames _ _
      (guarded-Frames (row.returned_spawn_decision_for_chained_set == 0) _ (query-Frames _))
      (λ u. decide_chain-Frames rest)

process_alarm_chain-Frames : (rows : List AlarmRow) → Frames (process_alarm_chain rows)
unfolding process_alarm_chain
process_alarm_chain-Frames [] = pure-Frames _
process_alarm_chain-Frames (row ∷ rest) =
    bind-Frames _ _ (mark_chain-Frames (row ∷ rest) false)
      (λ already. bind-Frames _ _ (decide_chain-Frames (row ∷ rest)) (λ u. pure-Frames _))

flush-Frames :
    (chain : List AlarmRow) (decisions : List ScheduleDecision) → Frames (flush chain decisions)
unfolding flush
flush-Frames chain decisions =
    bind-Frames _ _ (process_alarm_chain-Frames chain) (λ result. pure-Frames _)

alarm_loop-Frames :
    (rows current : List AlarmRow) (decisions : List ScheduleDecision)
    → Frames (alarm_loop rows current decisions)
unfolding alarm_loop
alarm_loop-Frames [] current decisions = flush-Frames current decisions
alarm_loop-Frames (row ∷ later) [] decisions = alarm_loop-Frames later (row ∷ []) decisions
alarm_loop-Frames (row ∷ later) (first ∷ rest) decisions =
    lift-Frames (alarm_rows_are_chained (last first rest) row) _ λ chained.
      elim (Bool-cases
        (text_eq (last first rest).aws_account_number row.aws_account_number && chained)) [
          | inl e ↦ rw e (alarm_loop-Frames later (first ∷ rest ++ row ∷ []) decisions)
          | inr e ↦ rw e (
              bind-Frames _ _ (flush-Frames (first ∷ rest) decisions)
                (λ ds. alarm_loop-Frames later (row ∷ []) ds))
        ]

alarm_pass-Frames : (rows : List AlarmRow) → Frames (alarm_pass rows)
unfolding alarm_pass
alarm_pass-Frames [] = pure-Frames []
alarm_pass-Frames (row ∷ later) = alarm_loop-Frames (stable_sort alarm_less (row ∷ later)) [] []

ticket_loop-Frames :
    (d : Decoder) (rows : List TicketRow) (decisions : List ScheduleDecision)
    → Frames (ticket_loop d rows decisions)
unfolding ticket_loop set_sqs_ticket_message_spawn_decision
ticket_loop-Frames d [] decisions = pure-Frames decisions
ticket_loop-Frames d (row ∷ rest) decisions =
    bind-Frames _ _ (query-Frames _) (λ u. ticket_loop-Frames d rest _)

schedule_both-Frames : (d : Decoder) → Frames (schedule_both d)
unfolding schedule_both schedule_alarms schedule_tickets list_sqs_alarm_messages
    list_sqs_ticket_messages_needing_decision
schedule_both-Frames d =
    bind-Frames _ _ (bind-Frames _ _ (query-Frames _) alarm_pass-Frames) λ alarms.
      bind-Frames _ _ (bind-Frames _ _ (query-Frames _) (λ rows. ticket_loop-Frames d rows []))
        (λ tickets. pure-Frames _)

committed-failed :
    (ds : List ScheduleDecision) (r : Result Error (Unit {0}) × Session) (e : Error) (s' : Session)
    → continue (committed r).0 (λ u. pure ds) (committed r).1 ≡ (err e, s')
    → s'.db ≡ r.1.db
committed-failed ds (ok u, s) e s' h = absurd (cc (ap (λ x. x.0) h))
committed-failed ds (err x, s) e s' h = sym (ap (λ x. x.1.db) h)

decided-failed :
    (r : Result Error (List ScheduleDecision) × Session) (e : Error) (s' : Session)
    → continue r.0 (λ ds. commit >> pure ds) r.1 ≡ (err e, s')
    → s'.db ≡ r.1.db
unfolding commit ◌>>=◌
decided-failed (ok ds, s) e s' h =
    committed-failed ds (query (λ db. (tt, db)) s) e s' h ∙ (query-Frames (λ db. (tt, db))).at s
decided-failed (err x, s) e s' h = sym (ap (λ x. x.1.db) h)

begun-failed :
    (d : Decoder) (r : Result Error (Unit {0}) × Session) (e : Error) (s' : Session)
    → continue r.0 (λ u. schedule_both d >>= λ ds. commit >> pure ds) r.1 ≡ (err e, s')
    → s'.db ≡ r.1.db
unfolding ◌>>=◌
begun-failed d (ok u, s) e s' h =
    decided-failed (schedule_both d s) e s' h ∙ (schedule_both-Frames d).at s
begun-failed d (err x, s) e s' h = sym (ap (λ x. x.1.db) h)

rollback-failed :
    (r : Result Error (List ScheduleDecision) × Session) (e : Error) (s' : Session)
    → rollback r ≡ (err e, s')
    → (t : Session) × (r ≡ (err e, t)) × (s'.db ≡ t.db)
rollback-failed (ok a, s) e s' h = absurd (cc (ap (λ x. x.0) h))
rollback-failed (err x, s) e s' h =
    let same : x ≡ e = cc (ap (λ y. y.0) h) in
    (s, ap (λ x. (err x, s)) same, sym (ap (λ y. y.1.db) h))

-- A pass that fails, at whatever statement, has left the committed tables as they were: each of its
-- statements was one of its transaction, which was not committed.
pub run_scheduling_atomic :
    (dec : Decoder) (s s' : Session) (e : Error) → run_scheduling dec s ≡ (err e, s') → s'.db ≡ s.db
unfolding run_scheduling transaction begin_tx ◌>>=◌
run_scheduling_atomic dec s s' e h =
    let (t, failed, same) = rollback-failed (transaction dec s) e s' h in
    same ∙ begun-failed dec (begin_tx s) e t failed ∙ (query-Frames (λ db. (tt, s.db))).at s
