-- ===== src/AlarmMessages.antt =====
-- The fields of an inbound body: conductor-and-worker/conductor/go-conductor/parse_message.go. What
-- json.Unmarshal makes of a body is a parameter.
pub mod Fields
mod Tests
use aws_demo.Base.{
  ℕ, ◌≡◌, refl, Bool, true, false, not, ◌&&◌, List, [], ◌∷◌, Option, none, some, if◌then◌else◌, ltb,
}
use aws_demo.Text.{Text, codes, text_eq, is_empty}
use aws_demo.Clock.{Instant, parse_rfc3339}

-- An int64.
pub data Int64 : Type 0 where
  nonnegative below_zero : ℕ → Int64

-- eventBridgeCloudWatchAlarmBody, its nested structures laid flat; `periods` are those of its metrics.
pub record AlarmBody : Type 0 where
  pub id : Text
  pub account : Text
  pub detail_type : Text
  pub source : Text
  pub time : Text
  pub alarm_name : Text
  pub state_value : Text
  pub periods : List Int64

pub data MessageType : Type 0 where
  unknown cloudwatch_alarm : MessageType

-- ParsedSQSMessage
pub record ParsedMessage : Type 0 where
  pub external_event_id : Option Text
  pub account_number : Option Text
  pub message_type : MessageType
  pub cloud_watch_alarm_name : Option Text
  pub cloud_watch_state : Option Text
  pub event_time : Option Instant
  pub alarm_period_seconds : Option ℕ

-- ptrNonEmpty
abbrev pub ptr_non_empty : Text → Option Text
ptr_non_empty [] = none
ptr_non_empty (c ∷ s) = some (c ∷ s)

-- parseRFC3339Ptr
unfoldable pub parse_rfc3339_ptr : Text → Option Instant
parse_rfc3339_ptr value = if is_empty value then none else parse_rfc3339 value

-- firstMetricPeriod
abbrev pub first_metric_period : List Int64 → Option ℕ
first_metric_period [] = none
first_metric_period (below_zero n ∷ rest) = first_metric_period rest
first_metric_period (nonnegative n ∷ rest) =
    let later = first_metric_period rest in if ltb 0 n then some n else later

abbrev pub is_alarm_body : AlarmBody → Bool
is_alarm_body e =
    text_eq e.source (codes "aws.cloudwatch")
    && text_eq e.detail_type (codes "CloudWatch Alarm State Change")

-- A message of which only the two common fields are known.
abbrev pub unclassified : Option Text → Option Text → ParsedMessage
unclassified id account = record {
  external_event_id = id;
  account_number = account;
  message_type = unknown;
  cloud_watch_alarm_name = none;
  cloud_watch_state = none;
  event_time = none;
  alarm_period_seconds = none;
}

-- Normalize
unfoldable pub normalize : AlarmBody → ParsedMessage
unfolding parse_rfc3339_ptr
normalize e =
    let parsed = unclassified (ptr_non_empty e.id) (ptr_non_empty e.account) in
    if is_alarm_body e
    then record parsed {
      message_type = cloudwatch_alarm;
      cloud_watch_alarm_name = ptr_non_empty e.alarm_name;
      cloud_watch_state = ptr_non_empty e.state_value;
      event_time = parse_rfc3339_ptr e.time;
      alarm_period_seconds = first_metric_period e.periods;
    }
    else parsed

-- ParseSQSMessageBody
unfoldable pub parse_sqs_message_body : (Text → Option AlarmBody) → Text → ParsedMessage
unfolding normalize
parse_sqs_message_body decode body = elim (decode body) [
  | none ↦ unclassified none none
  | some e ↦ normalize e
]
