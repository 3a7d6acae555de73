-- ===== src/Scheduler/Run/Passes.antt =====
-- What a scheduling pass does.
use aws_demo.Base.{
  ◌≢◌, ℕ, ◌≡◌, refl, ap, sym, ◌∙◌, List, [], ◌∷◌, ◌++◌, map, none, Result, ok, err, filter_map, All,
  arith,
}
use aws_demo.Json.{Decoder}
use aws_demo.Scheduler.Store.{
  AlarmRow, TicketRow, Db, Error, Session, pure, continue, ◌>>=◌, ◌>>◌, query, begin_tx, commit,
  committed, rollback,
}
use aws_demo.Scheduler.Store.Rules.{
  Healthy, Outcome, Progress, Runs, Runs-pure, Runs-query, Runs-bind, Runs-eq,
}
use aws_demo.Scheduler.Messages.{ScheduleDecision}
use aws_demo.Scheduler.Order.{
  stable_sort, alarm_less, ticket_less, any-stable_sort, stable_sort-map,
}
use aws_demo.Scheduler.Chains.{
  alarm_rows_are_chained, IsTimed, linked, Chain, chains, chains-map, map_chain,
}
use aws_demo.Scheduler.Alarms.Effect
use aws_demo.Scheduler.Alarms.Effect.{processed, settle, processed-settle}
use aws_demo.Scheduler.Alarms.Refinement.{decide, schedule_alarms-Runs}
use aws_demo.Scheduler.Tickets.{undecided, ticket_decision}
use aws_demo.Scheduler.Tickets.Refinement
use aws_demo.Scheduler.Tickets.Refinement.{
  with_tickets, issued, settle_ticket, issued-settle, undecided-settle, schedule_tickets-Runs,
}
use aws_demo.Scheduler.Run.{schedule_both, transaction, run_scheduling}

-- The primary keys of both tables.
pub record IsKeyed (d : Db) : Type 0 where
  pub alarms : Effect.IsKeyed d.alarms
  pub tickets : Refinement.IsKeyed d.tickets

-- The chains of a table of alarms, oldest row first in each.
unfoldable pub alarm_chains : Db → List Chain
alarm_chains d = chains (stable_sort alarm_less d.alarms)

-- What a pass on these tables returns: a decision for each undecided chain and undecided ticket ...
unfoldable pub decisions : Decoder → Db → List ScheduleDecision
unfolding alarm_chains
decisions dec d =
    filter_map decide (alarm_chains d)
    ++ map (ticket_decision dec) (stable_sort ticket_less (undecided d.tickets))

-- ... and what it leaves: every row marked.
unfoldable pub settled : Db → Db
settled d = record { alarms = map settle d.alarms; tickets = map settle_ticket d.tickets }

schedule_both-Runs :
    {H : Type 0} (dec : Decoder) (d : Db)
    → IsKeyed d
    → (H → All IsTimed d.alarms)
    → Runs H (schedule_both dec) d (decisions dec d) (settled d)
unfolding schedule_both decisions settled
schedule_both-Runs dec d k h =
    Runs-eq refl
      (ground (
        arith,
        issued-settle d.tickets k.tickets,
        processed-settle (stable_sort alarm_less d.alarms) d.alarms
            (λ p. any-stable_sort alarm_less p d.alarms) k.alarms,
      ))
      (Runs-bind _ (schedule_alarms-Runs d h)
        (Runs-bind _ (schedule_tickets-Runs dec _) (Runs-pure _ _)))

committed-Outcome :
    (H : Type 0) (d : Db) (v : List ScheduleDecision) (r : Result Error (Unit {0}) × Session)
    → Progress H tt d r
    → Outcome H v d (continue (committed r).0 (λ u. pure v) (committed r).1)
committed-Outcome H d v (ok u, s) o = (refl, o.1, o.2)
committed-Outcome H d v (err e, s) o = o

commit-Outcome :
    (H : Type 0) (d : Db) (v : List ScheduleDecision) (s : Session)
    → s.pending ≡ d
    → (H → Healthy s.faults)
    → Outcome H v d ((commit >> pure v) s)
unfolding commit ◌>>=◌
commit-Outcome H d v s e h =
    committed-Outcome H d v (query (λ db. (tt, db)) s) ((Runs-query (λ db. (tt, db)) d).at s e h)

decided-Outcome :
    (H : Type 0) (d : Db) (v : List ScheduleDecision)
    (r : Result Error (List ScheduleDecision) × Session)
    → Progress H v d r
    → Outcome H v d (continue r.0 (λ ds. commit >> pure ds) r.1)
decided-Outcome H d v (ok ds, s) o = rw o.0 (commit-Outcome H d v s o.1 o.2)
decided-Outcome H d v (err e, s) o = o

begun-Outcome :
    (H : Type 0) (dec : Decoder) (d d' : Db) (v : List ScheduleDecision)
    (r : Result Error (Unit {0}) × Session)
    → Progress H tt d r
    → Runs H (schedule_both dec) d v d'
    → Outcome H v d' (continue r.0 (λ u. schedule_both dec >>= λ ds. commit >> pure ds) r.1)
unfolding ◌>>=◌
begun-Outcome H dec d d' v (ok u, s) o both =
    decided-Outcome H d' v (schedule_both dec s) (both.at s o.1 o.2)
begun-Outcome H dec d d' v (err e, s) o both = o

rollback-Outcome :
    (H : Type 0) (d : Db) (v : List ScheduleDecision)
    (r : Result Error (List ScheduleDecision) × Session)
    → Outcome H v d r
    → Outcome H v d (rollback r)
rollback-Outcome H d v (ok a, s) o = o
rollback-Outcome H d v (err e, s) o = o

-- A pass over keyed tables that returns has returned one decision for each undecided chain of
-- alarms and each undecided ticket and has left every row marked; and it does return where no driver
-- call fails and every alarm's time can be read.
pub run_scheduling-Outcome :
    (dec : Decoder) (s : Session)
    → IsKeyed s.db
    → Outcome
        (Healthy s.faults × All IsTimed s.db.alarms)
        (decisions dec s.db)
        (settled s.db)
        (run_scheduling dec s)
unfolding run_scheduling transaction begin_tx ◌>>=◌
run_scheduling-Outcome dec s k =
    rollback-Outcome _ (settled s.db) (decisions dec s.db) (transaction dec s) (
      begun-Outcome _ dec s.db (settled s.db) (decisions dec s.db) (begin_tx s)
        ((Runs-query (λ db. (tt, s.db)) s.pending).at s refl (λ h. h.0))
        (schedule_both-Runs dec s.db k (λ h. h.1)))

decide-settle : (c : Chain) → decide (map_chain settle c) ≡ none
unfolding decide settle
decide-settle c = ground arith

filter_map-settle : (cs : List Chain) → filter_map decide (map (map_chain settle) cs) ≡ []
filter_map-settle [] = refl
filter_map-settle (c ∷ cs) = rw (decide-settle c, filter_map) (filter_map-settle cs)

alarm_chains-settled : (d : Db) → alarm_chains (settled d) ≡ map (map_chain settle) (alarm_chains d)
unfolding alarm_chains settled alarm_rows_are_chained
alarm_chains-settled d =
    rw (stable_sort-map alarm_less settle (λ a b. unfold alarm_less settle in refl) d.alarms)
      (chains-map settle (λ a b. unfold linked settle in refl) (stable_sort alarm_less d.alarms))

decisions-settled : (dec : Decoder) (d : Db) → decisions dec (settled d) ≡ []
unfolding decisions
decisions-settled dec d =
    rw (alarm_chains-settled d, filter_map-settle (alarm_chains d))
      (unfold settled in rw (undecided-settle d.tickets) (unfold stable_sort in refl))

settle-settle : (l : List AlarmRow) → map settle (map settle l) ≡ map settle l
unfolding settle
settle-settle [] = refl
settle-settle (x ∷ l) = ground (arith, settle-settle l)

settle_ticket-settle_ticket :
    (l : List TicketRow) → map settle_ticket (map settle_ticket l) ≡ map settle_ticket l
unfolding settle_ticket
settle_ticket-settle_ticket [] = refl
settle_ticket-settle_ticket (x ∷ l) = ground (arith, settle_ticket-settle_ticket l)

settled-settled : (d : Db) → settled (settled d) ≡ settled d
unfolding settled
settled-settled d = ground (arith, settle-settle d.alarms, settle_ticket-settle_ticket d.tickets)

All-id-settle :
    (n : ℕ) (l : List AlarmRow) → All (λ y. n ≢ y.id) l → All (λ y. n ≢ y.id) (map settle l)
unfolding settle
All-id-settle n [] h = tt
All-id-settle n (x ∷ l) h = (h.0, All-id-settle n l h.1)

settle-IsKeyed : (l : List AlarmRow) → Effect.IsKeyed l → Effect.IsKeyed (map settle l)
settle-IsKeyed [] k = tt
settle-IsKeyed (x ∷ l) k = (unfold settle in All-id-settle x.id l k.0, settle-IsKeyed l k.1)

All-id-settle_ticket :
    (n : ℕ) (l : List TicketRow) → All (λ y. n ≢ y.id) l → All (λ y. n ≢ y.id) (map settle_ticket l)
unfolding settle_ticket
All-id-settle_ticket n [] h = tt
All-id-settle_ticket n (x ∷ l) h = (h.0, All-id-settle_ticket n l h.1)

settle_ticket-IsKeyed :
    (l : List TicketRow) → Refinement.IsKeyed l → Refinement.IsKeyed (map settle_ticket l)
settle_ticket-IsKeyed [] k = tt
settle_ticket-IsKeyed (x ∷ l) k =
    (unfold settle_ticket in All-id-settle_ticket x.id l k.0, settle_ticket-IsKeyed l k.1)

pub settled-IsKeyed : (d : Db) → IsKeyed d → IsKeyed (settled d)
unfolding settled
settled-IsKeyed d k = record {
  alarms = settle-IsKeyed d.alarms k.alarms;
  tickets = settle_ticket-IsKeyed d.tickets k.tickets;
}

-- What a pass that returned has returned and left.
pub run_scheduling-ok :
    (dec : Decoder) (s s' : Session) (ds : List ScheduleDecision)
    → IsKeyed s.db
    → run_scheduling dec s ≡ (ok ds, s')
    → (ds ≡ decisions dec s.db) × (s'.db ≡ settled s.db)
run_scheduling-ok dec s s' ds k h =
    let o = run_scheduling-Outcome dec s k in let o' = rw h at o in (o'.0, o'.1)

-- After a pass over keyed tables that returned, the next one that returns makes no decision and
-- changes no row, whatever faults and clocks the two met.
pub run_scheduling_idem :
    (dec : Decoder) (s s' t t' : Session) (ds es : List ScheduleDecision)
    → IsKeyed s.db
    → run_scheduling dec s ≡ (ok ds, s')
    → t.db ≡ s'.db
    → run_scheduling dec t ≡ (ok es, t')
    → (es ≡ []) × (t'.db ≡ t.db)
run_scheduling_idem dec s s' t t' ds es k first same second =
    let a = run_scheduling-ok dec s s' ds k first in
    let e : t.db ≡ settled s.db = same ∙ a.1 in
    let b = run_scheduling-ok dec t t' es (rw e (settled-IsKeyed s.db k)) second in
    (
      b.0 ∙ ap (decisions dec) e ∙ decisions-settled dec s.db,
      b.1 ∙ ap settled e ∙ settled-settled s.db ∙ sym e,
    )
