-- ===== src/Scheduler/Run/Conservation.antt =====
-- Histories of deliveries to the scheduler, failed ones included: what becomes of the tickets.
use aws_demo.Base.{
  ◌≡◌, refl, ◌+◌, Bool, true, false, not, ◌&&◌, ◌==◌, List, [], ◌∷◌, ◌++◌, map, Result, ok, err,
  filter_map, count_if, count_if-append, arith, inl, inr,
}
use aws_demo.Text.{Text}
use aws_demo.Json.{Decoder}
use aws_demo.Scheduler.Store.{TicketRow, Db, Error, Session, new_ticket}
use aws_demo.Scheduler.Messages.{
  ScheduleDecision, IncomingMessage, ParsedIncomingMessage, ScheduleMessageType, incident, ticket,
  parse_incoming_message_for_scheduling,
}
use aws_demo.Scheduler.Order.{stable_sort, ticket_less, count_if-stable_sort}
use aws_demo.Scheduler.Chains.{Chain}
use aws_demo.Scheduler.Alarms.Refinement.{decide}
use aws_demo.Scheduler.Tickets.{undecided, ticket_decision}
use aws_demo.Scheduler.Tickets.Refinement.{settle_ticket}
use aws_demo.Scheduler.Run.{insert_message_and_run_scheduling}
use aws_demo.Scheduler.Run.Passes.{IsKeyed, decisions, settled, alarm_chains}
use aws_demo.Scheduler.Run.Inserts.{
  with_row, Inserted, InsertOutcome, insert_message-InsertOutcome, outcome-IsKeyed,
}

-- A delivery, with what the driver will answer and the time at which it comes.
pub record Delivery : Type 0 where
  pub message : IncomingMessage
  pub faults : List Bool
  pub clock : Text

abbrev pub returned : Result Error (List ScheduleDecision) → List ScheduleDecision
returned (ok ds) = ds
returned (err e) = []

-- One delivery to tables with no transaction open.
abbrev pub session_for : Delivery → Db → Session
session_for v db = record { db = db; pending = db; faults = v.faults; clock = v.clock }

-- The decisions that the conductor is given, and the tables, after deliveries that it hands over one
-- by one.
unfoldable pub deliver : Decoder → List Delivery → Db → List ScheduleDecision × Db
deliver dec [] db = ([], db)
deliver dec (v ∷ rest) db =
    let (r, s) = insert_message_and_run_scheduling dec v.message (session_for v db) in
    let (ds, end) = deliver dec rest s.db in (returned r ++ ds, end)

abbrev pub is_ticket : ScheduleMessageType → Bool
is_ticket incident = false
is_ticket ticket = true

-- A decision on a ticket of an account that passes the test.
abbrev pub is_on_ticket : (Text → Bool) → ScheduleDecision → Bool
is_on_ticket p d = is_ticket d.message_type && p d.account_number

-- A ticket of such an account that has been decided, and one that has not.
abbrev pub is_decided_ticket : (Text → Bool) → TicketRow → Bool
is_decided_ticket p row =
    not (row.returned_spawn_decision_for_ticket == 0) && p row.aws_account_number

abbrev of_account : (Text → Bool) → TicketRow → Bool
of_account p row = p row.aws_account_number

module _ (p : Text → Bool) where
  count-alarms : (cs : List Chain) → count_if (is_on_ticket p) (filter_map decide cs) ≡ 0
  unfolding decide
  count-alarms [] = refl
  count-alarms (c ∷ cs) = ground (arith, count-alarms cs)

  count-ticket_decisions :
      (dec : Decoder) (l : List TicketRow)
      → count_if (is_on_ticket p) (map (ticket_decision dec) l) ≡ count_if (of_account p) l
  unfolding ticket_decision
  count-ticket_decisions dec [] = refl
  count-ticket_decisions dec (x ∷ l) = ground (arith, count-ticket_decisions dec l)

  count-settle_ticket :
      (l : List TicketRow)
      → count_if (is_decided_ticket p) (map settle_ticket l)
        ≡ count_if (of_account p) (undecided l) + count_if (is_decided_ticket p) l
  unfolding settle_ticket undecided
  count-settle_ticket [] = refl
  count-settle_ticket (x ∷ l) = ground (arith, count-settle_ticket l)

  count-decisions :
      (dec : Decoder) (db : Db)
      → count_if (is_on_ticket p) (decisions dec db)
        ≡ count_if (of_account p) (undecided db.tickets)
  unfolding decisions
  count-decisions dec db =
      rw
        (
          count_if-append (is_on_ticket p),
          count-alarms (alarm_chains db),
          count-ticket_decisions dec (stable_sort ticket_less (undecided db.tickets)),
          count_if-stable_sort ticket_less (of_account p) (undecided db.tickets),
        )
        (omega arith)

  -- A new row is undecided.
  count-with_row :
      (t : ScheduleMessageType) (clock raw account : Text) (db : Db)
      → count_if (is_decided_ticket p) (with_row t clock raw account db).tickets
        ≡ count_if (is_decided_ticket p) db.tickets
  unfolding with_row
  count-with_row incident clock raw account db = refl
  count-with_row ticket clock raw account db =
      let old = db.tickets in
      omega
        (arith, count_if-append (is_decided_ticket p) old (new_ticket clock raw account db ∷ []))

  -- What one delivery adds.
  Inserted-conserves :
      (dec : Decoder) (raw : Text) (s : Session) (q : ParsedIncomingMessage)
      (r : Result Error (List ScheduleDecision) × Session)
      → Inserted dec raw s r q
      → count_if (is_on_ticket p) (returned r.0) + count_if (is_decided_ticket p) s.db.tickets
        ≡ count_if (is_decided_ticket p) r.1.db.tickets
  unfolding settled
  Inserted-conserves dec raw s q (ok ds, s') (made, left) =
      let now = with_row q.message_type s.clock raw q.account_number s.db in
      let before = count-with_row q.message_type s.clock raw q.account_number s.db in
      rw (made, left, count-decisions dec now)
        (omega (arith, count-settle_ticket now.tickets, before))
  Inserted-conserves dec raw s q (err e, s') (inl same) = rw same (omega arith)
  Inserted-conserves dec raw s q (err e, s') (inr added) =
      rw added (omega (arith, count-with_row q.message_type s.clock raw q.account_number s.db))

  outcome-conserves :
      (dec : Decoder) (raw : Text) (s : Session) (q : Result Error ParsedIncomingMessage)
      (r : Result Error (List ScheduleDecision) × Session)
      → InsertOutcome dec raw s q r
      → count_if (is_on_ticket p) (returned r.0) + count_if (is_decided_ticket p) s.db.tickets
        ≡ count_if (is_decided_ticket p) r.1.db.tickets
  outcome-conserves dec raw s (ok q) r o = Inserted-conserves dec raw s q r o
  outcome-conserves dec raw s (err e) r o = rw o (omega arith)

-- Over any deliveries to tables with distinct identifiers, whatever fails meanwhile, as many tickets
-- of the accounts that a test selects become decided as the conductor is given decisions on tickets
-- of these accounts.
pub deliver-conserves :
    (p : Text → Bool) (dec : Decoder) (vs : List Delivery) (db : Db)
    → IsKeyed db
    → count_if (is_on_ticket p) (deliver dec vs db).0 + count_if (is_decided_ticket p) db.tickets
      ≡ count_if (is_decided_ticket p) (deliver dec vs db).1.tickets
unfolding deliver
deliver-conserves p dec [] db k = omega arith
deliver-conserves p dec (v ∷ rest) db k =
    let s = session_for v db in
    let parsed = parse_incoming_message_for_scheduling dec v.message.raw_body in
    let one = insert_message_and_run_scheduling dec v.message s in
    let o = insert_message-InsertOutcome dec v.message s k in
    let keyed = outcome-IsKeyed dec v.message.raw_body s parsed one k o in
    let later = deliver-conserves p dec rest one.1.db keyed in
    let now = outcome-conserves p dec v.message.raw_body s parsed one o in
    omega (
      arith,
      count_if-append (is_on_ticket p) (returned one.0) (deliver dec rest one.1.db).0,
      later,
      now,
    )
