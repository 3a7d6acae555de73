-- ===== src/Scheduler/Store.antt =====
-- The two tables of atlas/database.sql, and the queries of
-- conductor-and-worker/conductor/go-conductor/db-internal/sqlc-generated/sqs_alarm_mesages_queries.sql.go.
-- A query is a function on the tables. The driver may answer any call with an error: a session
-- carries the answers that are still to come, and a call that fails leaves the tables alone.
pub mod Rules
use Prim.Native.Nat.{max}
use aws_demo.Base.{
  ℕ, suc, Bool, true, false, List, [], ◌∷◌, ◌++◌, map, Result, ok, err, if◌then◌else◌, ◌==◌,
}
use aws_demo.Text.{Text}
use mathlib.Core.List.{foldr}

-- SqsAlarmMessage
pub record AlarmRow : Type 0 where
  pub id : ℕ
  pub received_at : Text
  pub raw_message_body : Text
  pub aws_account_number : Text
  pub returned_spawn_decision_for_chained_set : ℕ
  pub is_chained : ℕ

-- SqsTicketMessage
pub record TicketRow : Type 0 where
  pub id : ℕ
  pub received_at : Text
  pub raw_message_body : Text
  pub aws_account_number : Text
  pub returned_spawn_decision_for_ticket : ℕ

pub record Db : Type 0 where
  pub alarms : List AlarmRow
  pub tickets : List TicketRow

-- What the scheduler's functions return as an error.
pub data Error : Type 0 where
  driver_error : Error
  bad_received_at : ℕ → Text → Error
  unsupported_shape : Error

-- `db` has the tables that are committed, `pending` those that the open transaction reads and writes;
-- `clock` is what SQLite writes for CURRENT_TIMESTAMP during the call.
pub record Session : Type 0 where
  pub db : Db
  pub pending : Db
  pub faults : List Bool
  pub clock : Text

abbrev pub Tx : Type 0 → Type 0
Tx A = Session → Result Error A × Session

abbrev pub pure : {A : Type 0} → A → Tx A
pure a s = (ok a, s)

abbrev pub lift : {A : Type 0} → Result Error A → Tx A
lift r s = (r, s)

abbrev pub continue : {A B : Type 0} → Result Error A → (A → Tx B) → Tx B
continue (ok a) f s = f a s
continue (err e) f s = (err e, s)

infixl 5 ◌>>=◌ ◌>>◌
unfoldable pub ◌>>=◌ : {A B : Type 0} → Tx A → (A → Tx B) → Tx B
◌>>=◌ m f s = let (r, s') = m s in continue r f s'

abbrev pub ◌>>◌ : {A B : Type 0} → Tx A → Tx B → Tx B
m >> k = m >>= λ _. k

-- One call of the driver, in the open transaction.
unfoldable pub call : {A : Type 0} → List Bool → (Db → A × Db) → Tx A
call [] f s = (ok (f s.pending).0, record s { pending = (f s.pending).1 })
call (true ∷ later) f s = (err driver_error, record s { faults = later })
call (false ∷ later) f s =
    (ok (f s.pending).0, record s { pending = (f s.pending).1; faults = later })

-- A statement of the queries that are bound to the open transaction.
unfoldable pub query : {A : Type 0} → (Db → A × Db) → Tx A
unfolding call
query f s = call s.faults f s

-- The same statement of the queries that are bound to the database: it is committed on its own, and
-- an open transaction does not hold it.
unfoldable pub directly : {A : Type 0} → Tx A → Tx A
directly m s =
    let (r, s') = m (record s { pending = s.db }) in
    (r, record s' { db = s'.pending; pending = s.pending })

-- BeginTx
unfoldable pub begin_tx : Tx Unit
unfolding query
begin_tx s = query (λ db. (tt, s.db)) s

abbrev pub committed : Result Error (Unit {0}) × Session → Result Error (Unit {0}) × Session
committed (ok u, s) = (ok u, record s { db = s.pending })
committed (err e, s) = (err e, s)

-- Commit
unfoldable pub commit : Tx Unit
unfolding query
commit s = committed (query (λ db. (tt, db)) s)

-- `defer tx.Rollback()`: what is not committed is dropped.
abbrev pub rollback : {A : Type 0} → Result Error A × Session → Result Error A × Session
rollback (r, s) = (r, record s { pending = s.db })

-- INTEGER PRIMARY KEY: one more than the largest id in use.
abbrev pub next_alarm_id : List AlarmRow → ℕ
next_alarm_id rows = suc (foldr (λ row n. max row.id n) 0 rows)

abbrev pub next_ticket_id : List TicketRow → ℕ
next_ticket_id rows = suc (foldr (λ row n. max row.id n) 0 rows)

-- The columns that the statement does not name take the defaults of the schema.
abbrev pub new_alarm : Text → Text → Text → Db → AlarmRow
new_alarm clock body account db = record {
  id = next_alarm_id db.alarms;
  received_at = clock;
  raw_message_body = body;
  aws_account_number = account;
  returned_spawn_decision_for_chained_set = 0;
  is_chained = 0;
}

abbrev pub new_ticket : Text → Text → Text → Db → TicketRow
new_ticket clock body account db = record {
  id = next_ticket_id db.tickets;
  received_at = clock;
  raw_message_body = body;
  aws_account_number = account;
  returned_spawn_decision_for_ticket = 0;
}

unfoldable pub insert_sqs_alarm_message : Text → Text → Tx AlarmRow
insert_sqs_alarm_message body account s =
    query
      (λ db. (
        new_alarm s.clock body account db,
        record db { alarms = db.alarms ++ new_alarm s.clock body account db ∷ [] },
      ))
      s

-- The statement with a time, which only tests run.
unfoldable pub insert_sqs_alarm_message_at : Text → Text → Text → Tx AlarmRow
insert_sqs_alarm_message_at received_at body account = query λ db. (
  new_alarm received_at body account db,
  record db { alarms = db.alarms ++ new_alarm received_at body account db ∷ [] },
)

unfoldable pub insert_sqs_ticket_message : Text → Text → Tx TicketRow
insert_sqs_ticket_message body account s =
    query
      (λ db. (
        new_ticket s.clock body account db,
        record db { tickets = db.tickets ++ new_ticket s.clock body account db ∷ [] },
      ))
      s

-- UPDATE sqs_alarm_messages SET is_chained = 1 WHERE id = ?
abbrev pub mark_row : ℕ → AlarmRow → AlarmRow
mark_row id row = record row { is_chained = if row.id == id then 1 else row.is_chained }

unfoldable pub mark_sqs_alarm_message_chained : ℕ → Tx Unit
mark_sqs_alarm_message_chained id =
    query (λ db. (tt, record db { alarms = map (mark_row id) db.alarms }))

-- UPDATE sqs_alarm_messages SET returned_spawn_decision_for_chained_set = ? WHERE id = ?
abbrev pub decide_row : ℕ → ℕ → AlarmRow → AlarmRow
decide_row value id row = record row {
  returned_spawn_decision_for_chained_set =
      if row.id == id then value else row.returned_spawn_decision_for_chained_set;
}

unfoldable pub set_sqs_alarm_message_spawn_decision : ℕ → ℕ → Tx Unit
set_sqs_alarm_message_spawn_decision value id =
    query (λ db. (tt, record db { alarms = map (decide_row value id) db.alarms }))

-- UPDATE sqs_ticket_messages SET returned_spawn_decision_for_ticket = ? WHERE id = ?
abbrev pub decide_ticket : ℕ → ℕ → TicketRow → TicketRow
decide_ticket value id row = record row {
  returned_spawn_decision_for_ticket =
      if row.id == id then value else row.returned_spawn_decision_for_ticket;
}

unfoldable pub set_sqs_ticket_message_spawn_decision : ℕ → ℕ → Tx Unit
set_sqs_ticket_message_spawn_decision value id =
    query (λ db. (tt, record db { tickets = map (decide_ticket value id) db.tickets }))
