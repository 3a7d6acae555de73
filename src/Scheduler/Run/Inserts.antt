-- ===== src/Scheduler/Run/Inserts.antt =====
-- What the inserting entry points do to the tables, errors included.
use aws_demo.Base.{
  ℕ, ◌≤◌, ◌<◌, ◌≡◌, refl, ap, ◌∙◌, ◌≢◌, ◌⊎◌, inl, inr, Bool, true, false, List, [], ◌∷◌, ◌++◌,
  Result, ok, err, All, arith,
}
use aws_demo.Text.{Text}
use aws_demo.Json.{Decoder}
use aws_demo.Scheduler.Store.{
  AlarmRow, TicketRow, Db, Error, driver_error, Session, continue, ◌>>=◌, directly, query, call,
  new_alarm, new_ticket, next_alarm_id, next_ticket_id, insert_sqs_alarm_message,
  insert_sqs_ticket_message,
}
use aws_demo.Scheduler.Messages.{
  ScheduleDecision, IncomingMessage, ParsedIncomingMessage, ScheduleMessageType, incident, ticket,
  parse_incoming_message_for_scheduling,
}
use aws_demo.Scheduler.Alarms.Effect
use aws_demo.Scheduler.Tickets.Refinement
use aws_demo.Scheduler.Run.{
  run_scheduling, insert_alarm_messages, insert_ticket_messages, insert_parsed,
  insert_message_and_run_scheduling,
}
use aws_demo.Scheduler.Run.Passes.{IsKeyed, decisions, settled, settled-IsKeyed, run_scheduling-ok}
use aws_demo.Scheduler.Run.Rollback.{run_scheduling_atomic}

alarm_ids-lt : (rows : List AlarmRow) → All (λ row. row.id < next_alarm_id rows) rows
alarm_ids-lt [] = tt
alarm_ids-lt (x ∷ rows) = (
  omega arith,
  up (next_alarm_id rows) (next_alarm_id (x ∷ rows)) rows (omega arith) (alarm_ids-lt rows),
)
  where
    up :
        (m n : ℕ) (l : List AlarmRow)
        → m ≤ n
        → All (λ row. row.id < m) l
        → All (λ row. row.id < n) l
    up m n [] h hs = tt
    up m n (y ∷ l) h hs = (omega arith, up m n l h hs.1)

ticket_ids-lt : (rows : List TicketRow) → All (λ row. row.id < next_ticket_id rows) rows
ticket_ids-lt [] = tt
ticket_ids-lt (x ∷ rows) = (
  omega arith,
  up (next_ticket_id rows) (next_ticket_id (x ∷ rows)) rows (omega arith) (ticket_ids-lt rows),
)
  where
    up :
        (m n : ℕ) (l : List TicketRow)
        → m ≤ n
        → All (λ row. row.id < m) l
        → All (λ row. row.id < n) l
    up m n [] h hs = tt
    up m n (y ∷ l) h hs = (omega arith, up m n l h hs.1)

ne-append :
    (n : ℕ) (l : List AlarmRow) (row : AlarmRow)
    → All (λ y. n ≢ y.id) l
    → n ≢ row.id
    → All (λ y. n ≢ y.id) (l ++ row ∷ [])
ne-append n [] row h e = (e, tt)
ne-append n (y ∷ l) row h e = (h.0, ne-append n l row h.1 e)

alarms-IsKeyed-append :
    (l : List AlarmRow) (row : AlarmRow)
    → All (λ y. y.id < row.id) l
    → Effect.IsKeyed l
    → Effect.IsKeyed (l ++ row ∷ [])
alarms-IsKeyed-append [] row h k = (tt, tt)
alarms-IsKeyed-append (x ∷ l) row h k =
    (ne-append x.id l row k.0 (omega arith), alarms-IsKeyed-append l row h.1 k.1)

ne-append_ticket :
    (n : ℕ) (l : List TicketRow) (row : TicketRow)
    → All (λ y. n ≢ y.id) l
    → n ≢ row.id
    → All (λ y. n ≢ y.id) (l ++ row ∷ [])
ne-append_ticket n [] row h e = (e, tt)
ne-append_ticket n (y ∷ l) row h e = (h.0, ne-append_ticket n l row h.1 e)

tickets-IsKeyed-append :
    (l : List TicketRow) (row : TicketRow)
    → All (λ y. y.id < row.id) l
    → Refinement.IsKeyed l
    → Refinement.IsKeyed (l ++ row ∷ [])
tickets-IsKeyed-append [] row h k = (tt, tt)
tickets-IsKeyed-append (x ∷ l) row h k =
    (ne-append_ticket x.id l row k.0 (omega arith), tickets-IsKeyed-append l row h.1 k.1)

-- The tables with a new row: an incident in the table of alarms, a ticket in the other.
unfoldable pub with_row : ScheduleMessageType → Text → Text → Text → Db → Db
with_row incident clock raw account db = record db {
  alarms = db.alarms ++ new_alarm clock raw account db ∷ [];
}
with_row ticket clock raw account db = record db {
  tickets = db.tickets ++ new_ticket clock raw account db ∷ [];
}

-- The next identifier is not in use.
pub with_row-IsKeyed :
    (t : ScheduleMessageType) (clock raw account : Text) (db : Db)
    → IsKeyed db
    → IsKeyed (with_row t clock raw account db)
unfolding with_row
with_row-IsKeyed incident clock raw account db k = record {
  alarms = alarms-IsKeyed-append db.alarms _ (alarm_ids-lt db.alarms) k.alarms;
  tickets = k.tickets;
}
with_row-IsKeyed ticket clock raw account db k = record {
  alarms = k.alarms;
  tickets = tickets-IsKeyed-append db.tickets _ (ticket_ids-lt db.tickets) k.tickets;
}

query_cases :
    {A : Type 0} (f : Db → A × Db) (s : Session)
    → ((s' : Session) × (directly (query f) s ≡ (err driver_error, s')) × (s'.db ≡ s.db))
      ⊎ ((s' : Session) × (directly (query f) s ≡ (ok (f s.db).0, s')) × (s'.db ≡ (f s.db).1))
unfolding directly query call
query_cases f s = go s.faults
  where
    go :
        (faults : List Bool)
        → (((s' : Session) × (directly (call faults f) s ≡ (err driver_error, s')) × (s'.db ≡ s.db))
            ⊎ ((s' : Session) × (directly (call faults f) s ≡ (ok (f s.db).0, s'))
                × (s'.db ≡ (f s.db).1)))
    go [] = inr (record s { db = (f s.db).1 }, refl, refl)
    go (true ∷ later) = inl (record s { faults = later }, refl, refl)
    go (false ∷ later) = inr (record s { db = (f s.db).1; faults = later }, refl, refl)

-- The statements of the inserts at the clock of their session.
directly-insert_sqs_alarm_message :
    (raw account : Text) (s : Session)
    → directly (insert_sqs_alarm_message raw account) s
      ≡ directly
          (query λ db. (
            new_alarm s.clock raw account db,
            record db { alarms = db.alarms ++ new_alarm s.clock raw account db ∷ [] },
          ))
          s
unfolding directly insert_sqs_alarm_message
directly-insert_sqs_alarm_message raw account s = refl

directly-insert_sqs_ticket_message :
    (raw account : Text) (s : Session)
    → directly (insert_sqs_ticket_message raw account) s
      ≡ directly
          (query λ db. (
            new_ticket s.clock raw account db,
            record db { tickets = db.tickets ++ new_ticket s.clock raw account db ∷ [] },
          ))
          s
unfolding directly insert_sqs_ticket_message
directly-insert_sqs_ticket_message raw account s = refl

abbrev message : Text → Text → IncomingMessage
message raw account = record { raw_body = raw; account_number = account }

abbrev InsertCases : ScheduleMessageType → Text → Text → Session → Type 0
InsertCases t raw account s =
    ((s' : Session) × (insert_parsed t (message raw account) s ≡ (err driver_error, s'))
      × (s'.db ≡ s.db))
    ⊎ ((s' : Session) × (insert_parsed t (message raw account) s ≡ (ok tt, s'))
        × (s'.db ≡ with_row t s.clock raw account s.db))

insert_parsed_cases :
    (t : ScheduleMessageType) (raw account : Text) (s : Session) → InsertCases t raw account s
unfolding insert_parsed insert_alarm_messages insert_ticket_messages insert_sqs_alarm_message
    insert_sqs_ticket_message with_row ◌>>=◌
insert_parsed_cases incident raw account s =
    elim (query_cases
      (λ db. (
        new_alarm s.clock raw account db,
        record db { alarms = db.alarms ++ new_alarm s.clock raw account db ∷ [] },
      ))
      s) [
        | inl (s', e, same) ↦
            inl (s', rw (directly-insert_sqs_alarm_message raw account s, e) refl, same)
        | inr (s', e, added) ↦
            inr (s', rw (directly-insert_sqs_alarm_message raw account s, e) refl, added)
      ]
insert_parsed_cases ticket raw account s =
    elim (query_cases
      (λ db. (
        new_ticket s.clock raw account db,
        record db { tickets = db.tickets ++ new_ticket s.clock raw account db ∷ [] },
      ))
      s) [
        | inl (s', e, same) ↦
            inl (s', rw (directly-insert_sqs_ticket_message raw account s, e) refl, same)
        | inr (s', e, added) ↦
            inr (s', rw (directly-insert_sqs_ticket_message raw account s, e) refl, added)
      ]

-- What one delivery leaves in the tables and returns.
abbrev pub Inserted :
    Decoder
    → Text
    → Session
    → Result Error (List ScheduleDecision) × Session
    → ParsedIncomingMessage
    → Type 0
Inserted dec raw s (ok ds, s') p =
    let after = with_row p.message_type s.clock raw p.account_number s.db in
    (ds ≡ decisions dec after) × (s'.db ≡ settled after)
Inserted dec raw s (err e, s') p =
    (s'.db ≡ s.db) ⊎ (s'.db ≡ with_row p.message_type s.clock raw p.account_number s.db)

abbrev pub InsertOutcome :
    Decoder
    → Text
    → Session
    → Result Error ParsedIncomingMessage
    → Result Error (List ScheduleDecision) × Session
    → Type 0
InsertOutcome dec raw s (ok p) r = Inserted dec raw s r p
InsertOutcome dec raw s (err e) r = (r ≡ (err e, s))

pass_after :
    (dec : Decoder) (raw : Text) (s s₁ : Session) (p : ParsedIncomingMessage)
    (r : Result Error (List ScheduleDecision) × Session)
    → IsKeyed s.db
    → s₁.db ≡ with_row p.message_type s.clock raw p.account_number s.db
    → run_scheduling dec s₁ ≡ r
    → Inserted dec raw s r p
pass_after dec raw s s₁ p (ok ds, s') k added h =
    let keyed : IsKeyed s₁.db =
      rw added (with_row-IsKeyed p.message_type s.clock raw p.account_number s.db k) in
    let o = run_scheduling-ok dec s₁ s' ds keyed h in
    (o.0 ∙ ap (decisions dec) added, o.1 ∙ ap settled added)
pass_after dec raw s s₁ p (err e, s') k added h = inr (run_scheduling_atomic dec s₁ s' e h ∙ added)

after_parse :
    (dec : Decoder) (raw : Text) (s : Session) (r : Result Error ParsedIncomingMessage)
    → IsKeyed s.db
    → InsertOutcome dec raw s r (
        continue r
          (λ p.
            insert_parsed p.message_type (message raw p.account_number) >>= λ _. run_scheduling dec)
          s)
unfolding ◌>>=◌
after_parse dec raw s (err e) k = refl
after_parse dec raw s (ok p) k = elim (insert_parsed_cases p.message_type raw p.account_number s) [
  | inl (s₁, e, same) ↦ rw e (inl same)
  | inr (s₁, e, added) ↦ rw e (pass_after dec raw s s₁ p _ k added refl)
]

-- One delivery to keyed tables: a body of neither shape is refused with nothing changed. Otherwise, if the call
-- returns, it has stored the row with its account, returned the decisions of a pass over the tables
-- with it, and left them settled; and if it fails, the tables are as before, or hold the new row.
pub insert_message-InsertOutcome :
    (dec : Decoder) (m : IncomingMessage) (s : Session)
    → IsKeyed s.db
    → InsertOutcome dec m.raw_body s
        (parse_incoming_message_for_scheduling dec m.raw_body)
        (insert_message_and_run_scheduling dec m s)
unfolding insert_message_and_run_scheduling ◌>>=◌
insert_message-InsertOutcome dec m s k =
    after_parse dec m.raw_body s (parse_incoming_message_for_scheduling dec m.raw_body) k

Inserted-IsKeyed :
    (dec : Decoder) (raw : Text) (s : Session) (p : ParsedIncomingMessage)
    (r : Result Error (List ScheduleDecision) × Session)
    → IsKeyed s.db
    → Inserted dec raw s r p
    → IsKeyed r.1.db
Inserted-IsKeyed dec raw s p (ok ds, s') k o =
    rw o.1 (settled-IsKeyed _ (with_row-IsKeyed p.message_type s.clock raw p.account_number s.db k))
Inserted-IsKeyed dec raw s p (err e, s') k (inl same) = rw same k
Inserted-IsKeyed dec raw s p (err e, s') k (inr added) =
    rw added (with_row-IsKeyed p.message_type s.clock raw p.account_number s.db k)

-- A delivery, failed or not, gives no two rows of a table one identifier.
pub outcome-IsKeyed :
    (dec : Decoder) (raw : Text) (s : Session) (q : Result Error ParsedIncomingMessage)
    (r : Result Error (List ScheduleDecision) × Session)
    → IsKeyed s.db
    → InsertOutcome dec raw s q r
    → IsKeyed r.1.db
outcome-IsKeyed dec raw s (ok p) r k o = Inserted-IsKeyed dec raw s p r k o
outcome-IsKeyed dec raw s (err e) r k o = rw o k
