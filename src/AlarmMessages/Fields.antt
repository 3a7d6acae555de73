-- ===== src/AlarmMessages/Fields.antt =====
-- What the parsed fields say of a body.
use aws_demo.Base.{
  zero, suc, arith, ℕ, ◌≡◌, refl, true, List, [], ◌∷◌, Option, some, Bool-cases, Option-cases, inl,
  inr,
}
use aws_demo.Text.{Text}
use aws_demo.AlarmMessages.{
  Int64, nonnegative, below_zero, AlarmBody, unknown, first_metric_period, is_alarm_body,
  unclassified, normalize, parse_sqs_message_body,
}

-- The period is positive and stands in the list behind periods that are not.
abbrev pub IsFirstPeriod : List Int64 → ℕ → Type 0
IsFirstPeriod [] p = ⊥
IsFirstPeriod (below_zero n ∷ rest) p = IsFirstPeriod rest p
IsFirstPeriod (nonnegative zero ∷ rest) p = IsFirstPeriod rest p
IsFirstPeriod (nonnegative (suc n) ∷ rest) p = suc n ≡ p

first_metric_period-IsFirstPeriod :
    (l : List Int64) (p : ℕ) → first_metric_period l ≡ some p → IsFirstPeriod l p
first_metric_period-IsFirstPeriod [] p h = absurd (cc h)
first_metric_period-IsFirstPeriod (below_zero n ∷ rest) p h =
    first_metric_period-IsFirstPeriod rest p h
first_metric_period-IsFirstPeriod (nonnegative zero ∷ rest) p h =
    first_metric_period-IsFirstPeriod rest p h
first_metric_period-IsFirstPeriod (nonnegative (suc n) ∷ rest) p h = ground arith

normalize-unknown :
    (e : AlarmBody)
    → (normalize e).message_type ≡ unknown
    → normalize e ≡ unclassified (normalize e).external_event_id (normalize e).account_number
unfolding normalize
normalize-unknown e h = elim (Bool-cases (is_alarm_body e)) [
  | inl a ↦ absurd (cc (rw (normalize, a) at h))
  | inr a ↦ rw (normalize, a) refl
]

-- A message of unknown type, a body that cannot be read included, carries no field of an alarm.
pub parse_sqs_message_body-unknown :
    (decode : Text → Option AlarmBody) (body : Text)
    → (parse_sqs_message_body decode body).message_type ≡ unknown
    → parse_sqs_message_body decode body
      ≡ unclassified
          (parse_sqs_message_body decode body).external_event_id
          (parse_sqs_message_body decode body).account_number
unfolding parse_sqs_message_body
parse_sqs_message_body-unknown decode body h = elim (Option-cases (decode body)) [
  | inl e ↦ rw (parse_sqs_message_body, e) refl
  | inr (b, e) ↦
      rw (parse_sqs_message_body, e) (normalize-unknown b (rw (parse_sqs_message_body, e) at h))
]

normalize-period :
    (e : AlarmBody) (p : ℕ)
    → (normalize e).alarm_period_seconds ≡ some p
    → (is_alarm_body e ≡ true) × IsFirstPeriod e.periods p
unfolding normalize
normalize-period e p h = elim (Bool-cases (is_alarm_body e)) [
  | inl a ↦ (a, first_metric_period-IsFirstPeriod e.periods p (rw (normalize, a) at h))
  | inr a ↦ absurd (cc (rw (normalize, a) at h))
]

-- A period in the result is that of a body that could be read and is an alarm's, and the first
-- positive one of its metrics.
pub parse_sqs_message_body-period :
    (decode : Text → Option AlarmBody) (body : Text) (p : ℕ)
    → (parse_sqs_message_body decode body).alarm_period_seconds ≡ some p
    → (e : AlarmBody) × (decode body ≡ some e)
      × (is_alarm_body e ≡ true)
      × IsFirstPeriod e.periods p
unfolding parse_sqs_message_body
parse_sqs_message_body-period decode body p h = elim (Option-cases (decode body)) [
  | inl e ↦ absurd (cc (rw (parse_sqs_message_body, e) at h))
  | inr (b, e) ↦
      let k = normalize-period b p (rw (parse_sqs_message_body, e) at h) in (b, e, k.0, k.1)
]
