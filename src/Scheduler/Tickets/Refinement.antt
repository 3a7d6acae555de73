-- ===== src/Scheduler/Tickets/Refinement.antt =====
-- The ticket pass returns one decision for each undecided ticket, and marks them all.
use aws_demo.Base.{
  ◌≡◌, refl, sym, ◌≢◌, Bool, false, ◌&&◌, List, [], ◌∷◌, ◌++◌, append-nil, append_assoc, map,
  if◌then◌else◌, ◌==◌, any, arith, All,
}
use aws_demo.Json.{Decoder}
use aws_demo.Scheduler.Store.{TicketRow, Db, decide_ticket, set_sqs_ticket_message_spawn_decision}
use aws_demo.Scheduler.Store.Rules.{Runs, Runs-pure, Runs-query, Runs-bind, Runs-eq}
use aws_demo.Scheduler.Messages.{ScheduleDecision}
use aws_demo.Scheduler.Order.{stable_sort, ticket_less, any-stable_sort}
use aws_demo.Scheduler.Tickets.{
  undecided, list_sqs_ticket_messages_needing_decision, ticket_decision, ticket_loop,
  schedule_tickets,
}

abbrev pub with_tickets : (TicketRow → TicketRow) → Db → Db
with_tickets f d = record d { tickets = map f d.tickets }

-- What the loop over `rows` does to a row of the table.
abbrev pub issued : List TicketRow → TicketRow → TicketRow
issued rows x = record x {
  returned_spawn_decision_for_ticket =
      if any (λ row. x.id == row.id) rows then 1 else x.returned_spawn_decision_for_ticket;
}

-- What a whole pass does to a row.
unfoldable pub settle_ticket : TicketRow → TicketRow
settle_ticket x = record x {
  returned_spawn_decision_for_ticket =
      if x.returned_spawn_decision_for_ticket == 0 then 1 else x.returned_spawn_decision_for_ticket;
}

issued-cons :
    (row : TicketRow) (rows l : List TicketRow)
    → map (issued rows) (map (decide_ticket 1 row.id) l) ≡ map (issued (row ∷ rows)) l
issued-cons row rows [] = refl
issued-cons row rows (x ∷ l) = ground (arith, issued-cons row rows l)

issued-nil : (l : List TicketRow) → l ≡ map (issued []) l
issued-nil [] = refl
issued-nil (x ∷ l) = cc (issued-nil l)

module _ {H : Type 0} (dec : Decoder) where
  ticket_loop-Runs :
      (rows : List TicketRow) (ds : List ScheduleDecision) (d : Db)
      → Runs H
          (ticket_loop dec rows ds)
          d
          (ds ++ map (ticket_decision dec) rows)
          (with_tickets (issued rows) d)
  unfolding ticket_loop set_sqs_ticket_message_spawn_decision
  ticket_loop-Runs [] ds d =
      Runs-eq (sym (append-nil ds)) (ground (arith, issued-nil d.tickets)) (Runs-pure ds d)
  ticket_loop-Runs (row ∷ rows) ds d =
      Runs-eq (append_assoc ds (ticket_decision dec row ∷ []) (map (ticket_decision dec) rows))
        (ground (arith, issued-cons row rows d.tickets))
        (Runs-bind _ (Runs-query _ d) (
          ticket_loop-Runs rows (ds ++ ticket_decision dec row ∷ [])
            (with_tickets (decide_ticket 1 row.id) d)))

  pub schedule_tickets-Runs :
      (d : Db)
      → Runs H
          (schedule_tickets dec)
          d
          (map (ticket_decision dec) (stable_sort ticket_less (undecided d.tickets)))
          (with_tickets (issued (stable_sort ticket_less (undecided d.tickets))) d)
  unfolding schedule_tickets list_sqs_ticket_messages_needing_decision
  schedule_tickets-Runs d =
      Runs-bind _ (Runs-query _ d)
        (ticket_loop-Runs (stable_sort ticket_less (undecided d.tickets)) [] d)

-- The identifiers of a table's rows are distinct: a primary key.
abbrev pub IsKeyed : List TicketRow → Type 0
IsKeyed [] = Unit
IsKeyed (x ∷ xs) = All (λ y. x.id ≢ y.id) xs × IsKeyed xs

any-undecided :
    (x : TicketRow) (l : List TicketRow)
    → any (λ row. x.id == row.id) (undecided l)
      ≡ any (λ row. x.id == row.id && row.returned_spawn_decision_for_ticket == 0) l
unfolding undecided
any-undecided x [] = refl
any-undecided x (y ∷ l) = ground (arith, any-undecided x l)

absent :
    (x : TicketRow) (xs : List TicketRow)
    → All (λ y. x.id ≢ y.id) xs
    → any (λ row. x.id == row.id && row.returned_spawn_decision_for_ticket == 0) xs ≡ false
absent x [] h = refl
absent x (y ∷ ys) h = ground (arith, absent x ys h.1)

abbrev asked : TicketRow → List TicketRow → Bool
asked x = any (λ row. x.id == row.id && row.returned_spawn_decision_for_ticket == 0)

asked-All :
    (l : List TicketRow)
    → IsKeyed l
    → All (λ x. asked x l ≡ (x.returned_spawn_decision_for_ticket == 0)) l
asked-All [] k = tt
asked-All (x ∷ xs) k = (ground (arith, absent x xs k.0), later xs k.0 (asked-All xs k.1))
  where
    later :
        (ys : List TicketRow)
        → All (λ y. x.id ≢ y.id) ys
        → All (λ y. asked y xs ≡ (y.returned_spawn_decision_for_ticket == 0)) ys
        → All (λ y. asked y (x ∷ xs) ≡ (y.returned_spawn_decision_for_ticket == 0)) ys
    later [] h ih = tt
    later (y ∷ ys) h ih = (ground (arith, h.0, ih.0), later ys h.1 ih.1)

issued-settle_from :
    (l xs : List TicketRow)
    → All (λ x. asked x l ≡ (x.returned_spawn_decision_for_ticket == 0)) xs
    → map (issued (stable_sort ticket_less (undecided l))) xs ≡ map settle_ticket xs
unfolding settle_ticket
issued-settle_from l [] h = refl
issued-settle_from l (x ∷ xs) h = ground (
  arith,
  any-stable_sort ticket_less (λ row. x.id == row.id) (undecided l),
  any-undecided x l,
  h.0,
  issued-settle_from l xs h.1,
)

-- Marking the undecided tickets settles every row of a keyed table.
pub issued-settle :
    (l : List TicketRow)
    → IsKeyed l
    → map (issued (stable_sort ticket_less (undecided l))) l ≡ map settle_ticket l
issued-settle l k = issued-settle_from l l (asked-All l k)

pub undecided-settle : (l : List TicketRow) → undecided (map settle_ticket l) ≡ []
unfolding undecided settle_ticket
undecided-settle [] = refl
undecided-settle (x ∷ l) = ground (arith, undecided-settle l)
