-- ===== src/Scheduler/Run/Decisions.antt =====
-- Which decisions a pass returns: rolling chains, and a bound by the undecided rows.
use aws_demo.Base.{
  ◌+◌, ◌≤◌, ◌≡◌, refl, ap, Bool, true, false, not, List, [], ◌∷◌, ◌++◌, map, none, some, ok,
  filter_map, All, any, arith, ◌==◌, length, length-append, concat, count_if, count_if-append,
}
use mathlib.Core.List.{Perm}
use aws_demo.Json.{Decoder}
use aws_demo.Scheduler.Store.{AlarmRow, TicketRow, Db, Session}
use aws_demo.Scheduler.Messages.{ScheduleDecision}
use aws_demo.Scheduler.Order.{
  stable_sort, alarm_less, ticket_less, IsSorted, stable_sort-IsSorted, alarm_less_asym,
  stable_sort-perm, count_if-stable_sort,
}
use aws_demo.Scheduler.Chains.{
  Chain, rows, chains, chains-concat, chains-IsLinked, chains-IsMaximal, IsLinked, IsMaximal,
}
use aws_demo.Scheduler.Alarms.Refinement.{is_decided, decide}
use aws_demo.Scheduler.Tickets.{undecided, ticket_decision}
use aws_demo.Scheduler.Run.{run_scheduling}
use aws_demo.Scheduler.Run.Passes.{IsKeyed, alarm_chains, decisions, run_scheduling-ok}

-- `cs` are the rolling chains of the alarms of `d`: they hold every row once, sorted by account and
-- time; neighbours in a chain have one account and are at most an hour apart; and no chain could
-- take in the first row of the next.
pub record AreRollingChains (d : Db) (cs : List Chain) : Type 0 where
  pub complete : Perm (concat (map rows cs)) d.alarms
  pub in_order : IsSorted alarm_less (concat (map rows cs))
  pub are_linked : All (λ c. IsLinked c.first c.rest) cs
  pub are_maximal : IsMaximal cs

alarm_chains-AreRollingChains : (d : Db) → AreRollingChains d (alarm_chains d)
unfolding alarm_chains
alarm_chains-AreRollingChains d =
    let l = stable_sort alarm_less d.alarms in
    record {
      complete = rw (chains-concat l) (stable_sort-perm alarm_less d.alarms);
      in_order = rw (chains-concat l) (stable_sort-IsSorted alarm_less alarm_less_asym d.alarms);
      are_linked = chains-IsLinked l;
      are_maximal = chains-IsMaximal l;
    }

-- The decisions of a pass over keyed tables that returned are those of the rolling chains of its alarms with no row
-- decided before, each with the text of its newest row, followed by one for each undecided ticket.
pub run_scheduling_chains :
    (dec : Decoder) (s s' : Session) (ds : List ScheduleDecision)
    → IsKeyed s.db
    → run_scheduling dec s ≡ (ok ds, s')
    → (cs : List Chain) × AreRollingChains s.db cs
      × (ds
          ≡ filter_map decide cs
            ++ map (ticket_decision dec) (stable_sort ticket_less (undecided s.db.tickets)))
unfolding decisions
run_scheduling_chains dec s s' ds k h =
    (alarm_chains s.db, alarm_chains-AreRollingChains s.db, (run_scheduling-ok dec s s' ds k h).0)

abbrev pub is_new : AlarmRow → Bool
is_new row = not (is_decided row)

abbrev pub is_new_ticket : TicketRow → Bool
is_new_ticket row = row.returned_spawn_decision_for_ticket == 0

chain-has_new :
    (x : AlarmRow) (l : List AlarmRow)
    → any is_decided (x ∷ l) ≡ false
    → 1 ≤ count_if is_new (x ∷ l)
chain-has_new x l h = ground arith

decide-count :
    (c : Chain) (ds : List ScheduleDecision)
    → length (elim (decide c) [ none ↦ ds | some x ↦ x ∷ ds ])
      ≤ count_if is_new (rows c) + length ds
unfolding decide
decide-count c ds = ground (arith, chain-has_new c.first c.rest)

chains-count :
    (cs : List Chain) → length (filter_map decide cs) ≤ count_if is_new (concat (map rows cs))
chains-count [] = omega arith
chains-count (c ∷ cs) = omega (
  arith,
  decide-count c (filter_map decide cs),
  count_if-append is_new (rows c) (concat (map rows cs)),
  chains-count cs,
)

length-map_count :
    (dec : Decoder) (l : List TicketRow)
    → length (map (ticket_decision dec) l) ≡ count_if (λ _. true) l
length-map_count dec [] = refl
length-map_count dec (x ∷ l) = omega (arith, length-map_count dec l)

count-undecided :
    (l : List TicketRow) → count_if (λ _. true) (undecided l) ≡ count_if is_new_ticket l
unfolding undecided
count-undecided [] = refl
count-undecided (x ∷ l) = ground (arith, count-undecided l)

-- A pass over keyed tables never returns more decisions than there are alarms and tickets with none so far.
pub length-run_scheduling-le :
    (dec : Decoder) (s s' : Session) (ds : List ScheduleDecision)
    → IsKeyed s.db
    → run_scheduling dec s ≡ (ok ds, s')
    → length ds ≤ count_if is_new s.db.alarms + count_if is_new_ticket s.db.tickets
unfolding decisions alarm_chains
length-run_scheduling-le dec s s' ds k h =
    let sorted = stable_sort alarm_less s.db.alarms in
    let tickets = stable_sort ticket_less (undecided s.db.tickets) in
    omega (
      arith,
      ap length (run_scheduling-ok dec s s' ds k h).0,
      length-append (filter_map decide (chains sorted)) (map (ticket_decision dec) tickets),
      chains-count (chains sorted),
      ap (count_if is_new) (chains-concat sorted),
      count_if-stable_sort alarm_less is_new s.db.alarms,
      length-map_count dec tickets,
      count_if-stable_sort ticket_less (λ _. true) (undecided s.db.tickets),
      count-undecided s.db.tickets,
    )
