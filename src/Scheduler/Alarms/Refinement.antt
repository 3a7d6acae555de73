-- ===== src/Scheduler/Alarms/Refinement.antt =====
-- The alarm pass returns the decisions of the undecided chains, and processes every row.
use mathlib.Core.Path.{fun_ext}
use aws_demo.Base.{
  ℕ, ◌≡◌, refl, ap, sym, ◌∙◌, Bool, true, false, not, ◌&&◌, ◌||◌, List, [], ◌∷◌, ◌++◌, append-nil,
  append_assoc, map, Option, none, some, if◌then◌else◌, ◌==◌, any, arith, Bool-cases, Option-cases,
  inl, inr, All, ok, err, last-append, filter_map,
}
use aws_demo.Text.{text_eq}
use aws_demo.Clock.{Instant, parse_received_at}
use aws_demo.Scheduler.Store.{
  AlarmRow, Db, Error, mark_row, decide_row, mark_sqs_alarm_message_chained,
  set_sqs_alarm_message_spawn_decision,
}
use aws_demo.Scheduler.Store.Rules.{Runs, Runs-pure, Runs-query, Runs-bind, Runs-lift, Runs-eq}
use aws_demo.Scheduler.Messages.{ScheduleDecision}
use aws_demo.Scheduler.Order.{
  stable_sort, alarm_less, All-stable_sort, stable_sort_idem, alarm_less_asym,
}
use aws_demo.Scheduler.Chains.{
  alarm_rows_are_chained, IsTimed, linked, Chain, rows, newest, chains, absorb, absorb-single,
  absorb-linked, absorb-broken, extend,
}
use aws_demo.Scheduler.Alarms.{
  list_sqs_alarm_messages, mark_chain, decide_chain, alarm_decision, process_alarm_chain,
  append_decision, flush, alarm_loop, alarm_pass, schedule_alarms,
}
use aws_demo.Scheduler.Alarms.Effect.{
  marked, decided, processed, marked-cons, marked-cons_skip, decided-cons, decided-cons_skip,
  processed-append,
}

abbrev pub is_decided : AlarmRow → Bool
is_decided row = not (row.returned_spawn_decision_for_chained_set == 0)

-- The tables with every alarm row changed by `f`.
abbrev pub with_alarms : (AlarmRow → AlarmRow) → Db → Db
with_alarms f d = record d { alarms = map f d.alarms }

map_id : (f : AlarmRow → AlarmRow) (l : List AlarmRow) → ((x : AlarmRow) → f x ≡ x) → map f l ≡ l
map_id f [] h = refl
map_id f (x ∷ l) h = cc (h x, map_id f l h)

map_after :
    (f g k : AlarmRow → AlarmRow) (l : List AlarmRow)
    → ((x : AlarmRow) → g (f x) ≡ k x)
    → map g (map f l) ≡ map k l
map_after f g k [] h = refl
map_after f g k (x ∷ l) h = cc (h x, map_after f g k l h)

with_alarms_after :
    (f g k : AlarmRow → AlarmRow) (d : Db)
    → ((x : AlarmRow) → g (f x) ≡ k x)
    → with_alarms g (with_alarms f d) ≡ with_alarms k d
with_alarms_after f g k d h = ground (arith, map_after f g k d.alarms h)

with_alarms_id :
    (f : AlarmRow → AlarmRow) (d : Db) → ((x : AlarmRow) → f x ≡ x) → d ≡ with_alarms f d
with_alarms_id f d h = ground (arith, map_id f d.alarms h)

with_alarms_cong :
    (f g : AlarmRow → AlarmRow) (d : Db)
    → ((x : AlarmRow) → f x ≡ g x)
    → with_alarms f d ≡ with_alarms g d
with_alarms_cong f g d h = rw (fun_ext h)

already_or :
    (r : ℕ) (already b : Bool)
    → ((if r == 0 then already else true) || b) ≡ (already || (not (r == 0) || b))
already_or r already b = ground arith

-- What processAlarmChain answers for a chain: the newest row's decision, unless a row is decided.
unfoldable pub decide : Chain → Option ScheduleDecision
decide c = if any is_decided (rows c) then none else some (alarm_decision (newest c))

is_timed :
    (row : AlarmRow) → IsTimed row → (t : Instant) × (parse_received_at row.received_at ≡ some t)
is_timed row h = elim (Option-cases (parse_received_at row.received_at)) [
  | inl e ↦ absurd (h e)
  | inr found ↦ found
]

-- Rows whose times can be read are compared without an error.
timed_ok :
    (p r : AlarmRow) (e : Error) → IsTimed p → IsTimed r → alarm_rows_are_chained p r ≡ err e → ⊥
unfolding alarm_rows_are_chained
timed_ok p r e hp hr q = let (t, et) = is_timed p hp in let (u, eu) = is_timed r hr in ground arith

linked_ok :
    (p r : AlarmRow) (b : Bool)
    → alarm_rows_are_chained p r ≡ ok b
    → (text_eq p.aws_account_number r.aws_account_number && b) ≡ linked p r
unfolding linked
linked_ok p r b q = rw q

append_decision-append :
    (ds : List ScheduleDecision) (o : Option ScheduleDecision) (later : List ScheduleDecision)
    → append_decision ds o ++ later ≡ ds ++ (elim o [ none ↦ later | some x ↦ x ∷ later ])
append_decision-append ds none later = refl
append_decision-append ds (some x) later = append_assoc ds (x ∷ []) later

module _ {H : Type 0} where
  mark_chain-Runs :
      (l : List AlarmRow) (already : Bool) (d : Db)
      → Runs H (mark_chain l already) d (already || any is_decided l) (with_alarms (marked l) d)
  unfolding mark_chain mark_sqs_alarm_message_chained
  mark_chain-Runs [] already d =
      Runs-eq (ground arith) (with_alarms_id (marked []) d (λ x. refl)) (Runs-pure already d)
  mark_chain-Runs (row ∷ l) already d =
      let value =
        already_or row.returned_spawn_decision_for_chained_set already (any is_decided l) in
      elim (Bool-cases (row.is_chained == 0)) [
        | inl e ↦ rw e (
            Runs-eq value
              (with_alarms_after (mark_row row.id) (marked l) (marked (row ∷ l)) d
                (λ x. marked-cons row l x (ground arith)))
              (Runs-bind _ (Runs-query _ d)
                (mark_chain-Runs l _ (with_alarms (mark_row row.id) d))))
        | inr e ↦ rw e (
            Runs-eq value
              (with_alarms_cong (marked l) (marked (row ∷ l)) d (λ x. marked-cons_skip row l x e))
              (Runs-bind _ (Runs-pure tt d) (mark_chain-Runs l _ d)))
      ]

  decide_chain-Runs :
      (l : List AlarmRow) (d : Db) → Runs H (decide_chain l) d tt (with_alarms (decided l) d)
  unfolding decide_chain set_sqs_alarm_message_spawn_decision
  decide_chain-Runs [] d = Runs-eq refl (with_alarms_id (decided []) d (λ x. refl)) (Runs-pure tt d)
  decide_chain-Runs (row ∷ l) d =
      elim (Bool-cases (row.returned_spawn_decision_for_chained_set == 0)) [
        | inl e ↦ rw e (
            Runs-eq refl
              (with_alarms_after (decide_row 1 row.id) (decided l) (decided (row ∷ l)) d
                (λ x. decided-cons row l x (ground arith)))
              (Runs-bind _ (Runs-query _ d)
                (decide_chain-Runs l (with_alarms (decide_row 1 row.id) d))))
        | inr e ↦ rw e (
            Runs-eq refl
              (with_alarms_cong (decided l) (decided (row ∷ l)) d
                (λ x. decided-cons_skip row l x e))
              (Runs-bind _ (Runs-pure tt d) (decide_chain-Runs l d)))
      ]

  process_alarm_chain-Runs :
      (c : Chain) (d : Db)
      → Runs H (process_alarm_chain (rows c)) d (decide c) (with_alarms (processed (rows c)) d)
  unfolding process_alarm_chain decide
  process_alarm_chain-Runs c d =
      Runs-eq refl
        (with_alarms_after (marked (rows c)) (decided (rows c)) (processed (rows c)) d (λ x. refl))
        (Runs-bind _ (mark_chain-Runs (rows c) false d) (
          Runs-bind _ (decide_chain-Runs (rows c) (with_alarms (marked (rows c)) d))
            (Runs-pure _ _)))

  flush-Runs :
      (c : Chain) (ds : List ScheduleDecision) (d : Db)
      → Runs H
          (flush (rows c) ds)
          d
          (append_decision ds (decide c))
          (with_alarms (processed (rows c)) d)
  unfolding flush
  flush-Runs c ds d = Runs-bind _ (process_alarm_chain-Runs c d) (Runs-pure _ _)

  alarm_loop-Runs :
      (later : List AlarmRow) (c : Chain) (ds : List ScheduleDecision) (d : Db)
      → (H → IsTimed (newest c))
      → (H → All IsTimed later)
      → Runs H
          (alarm_loop later (rows c) ds)
          d
          (ds ++ filter_map decide (absorb c (chains later)))
          (with_alarms (processed (rows c ++ later)) d)
  unfolding alarm_loop chains absorb
  alarm_loop-Runs [] c ds d hc hl =
      Runs-eq
        (sym (append-nil (append_decision ds (decide c))) ∙ append_decision-append ds (decide c) [])
        (ap (λ l. with_alarms (processed (c.first ∷ l)) d) (sym (append-nil c.rest)))
        (flush-Runs c ds d)
  alarm_loop-Runs (row ∷ later) c ds d hc hl =
      Runs-lift (alarm_rows_are_chained (newest c) row) _
        (λ b q. rw (linked_ok (newest c) row b q) (elim (Bool-cases (linked (newest c) row)) [
          | inl e ↦ rw e (
              Runs-eq
                (ap (λ cs. ds ++ filter_map decide cs) (sym (absorb-linked c row (chains later) e)))
                (ap (λ l. with_alarms (processed (c.first ∷ l)) d)
                  (append_assoc c.rest (row ∷ []) later))
                (alarm_loop-Runs later (extend c row) ds d
                  (λ h. rw (last-append c.first c.rest row) ((hl h).0)) (λ h. (hl h).1)))
          | inr e ↦ rw e (
              Runs-eq
                (append_decision-append ds (decide c)
                    (filter_map decide (absorb (record { first = row; rest = [] }) (chains later)))
                  ∙ ap (λ cs. ds ++ filter_map decide cs)
                      (ap (λ cs. c ∷ cs) (absorb-single row (chains later))
                        ∙ sym (absorb-broken c row (chains later) e)))
                (with_alarms_after (processed (rows c)) (processed (row ∷ later))
                  (processed (rows c ++ row ∷ later)) d (processed-append (rows c) (row ∷ later)))
                (Runs-bind _ (flush-Runs c ds d) (
                  alarm_loop-Runs later (record { first = row; rest = [] })
                    (append_decision ds (decide c)) _ (λ h. (hl h).0) (λ h. (hl h).1))))
        ]))
        (λ e q h. timed_ok (newest c) row e (hc h) (hl h).0 q)

  alarm_pass-Runs :
      (l : List AlarmRow) (d : Db)
      → stable_sort alarm_less l ≡ l
      → (H → All IsTimed l)
      → Runs H (alarm_pass l) d (filter_map decide (chains l)) (with_alarms (processed l) d)
  unfolding alarm_pass chains
  alarm_pass-Runs [] d e h =
      Runs-eq refl (with_alarms_id (processed []) d (λ x. refl)) (Runs-pure [] d)
  alarm_pass-Runs (row ∷ later) d e h =
      let alone : Chain = record { first = row; rest = [] } in
      rw e (
        unfold alarm_loop in
        Runs-eq (ap (filter_map decide) (absorb-single row (chains later))) refl
          (alarm_loop-Runs later alone [] d (λ k. (h k).0) (λ k. (h k).1)))

  -- Sorted rows, chains of neighbours, one decision for each undecided chain, every row processed.
  pub schedule_alarms-Runs :
      (d : Db)
      → (H → All IsTimed d.alarms)
      → Runs H schedule_alarms d
          (filter_map decide (chains (stable_sort alarm_less d.alarms)))
          (with_alarms (processed (stable_sort alarm_less d.alarms)) d)
  unfolding schedule_alarms list_sqs_alarm_messages
  schedule_alarms-Runs d h = Runs-bind _ (Runs-query _ d) (
      alarm_pass-Runs (stable_sort alarm_less d.alarms) d
        (stable_sort_idem alarm_less alarm_less_asym d.alarms)
        (λ k. All-stable_sort alarm_less IsTimed d.alarms (h k)))
