-- ===== src/Poller/Settings.antt =====
-- The poller's settings: NewTicketCloudWatchSQSPoller, NewSQSPoller, ReceiveMessages and
-- int32FromEnv of poll.go.
pub mod Numbers
mod Tests
use aws_demo.Base.{
  ℕ, zero, suc, ◌+◌, ◌≤◌, ◌<◌, ◌≡◌, ◌≢◌, refl, ap, ◌∙◌, Bool, true, false, List, [], ◌∷◌, Option,
  none, some, Result, ok, err, ◌==◌, leb, ltb, if◌then◌else◌, arith, Bool-cases, Option-cases, inl,
  inr,
}
use native.Mathlib.Numerals.{add-one}
use aws_demo.Text.{Text, codes, is_empty}
use aws_demo.Text.Decimal.{
  decimal, digits, is_digit, read_digits, read_digits-digits, StartsWithDigit,
  decimal-StartsWithDigit,
}
use aws_demo.Poller.{RawMessage, PollError, receive_failed, getenv_default}

-- `negsuc n` is -(n + 1).
pub data ℤ : Type 0 where
  pos : ℕ → ℤ
  negsuc : ℕ → ℤ

-- 2 ^ 31
abbrev pub int32_cutoff : ℕ
int32_cutoff = 2147483648

abbrev pub in_int32 : ℤ → Bool
in_int32 (pos n) = ltb n int32_cutoff
in_int32 (negsuc n) = ltb n int32_cutoff

abbrev pub negative : ℕ → ℤ
negative zero = pos 0
negative (suc n) = negsuc n

-- strconv.ParseUint in base 10, with no bound on the size.
unfoldable pub parse_uint : Text → Option ℕ
parse_uint [] = none
parse_uint (c ∷ s) = read_digits 0 (c ∷ s)

abbrev pub positive_in_range : Option ℕ → Option ℤ
positive_in_range none = none
positive_in_range (some n) = if ltb n int32_cutoff then some (pos n) else none

abbrev pub negative_in_range : Option ℕ → Option ℤ
negative_in_range none = none
negative_in_range (some n) = if leb n int32_cutoff then some (negative n) else none

-- strconv.ParseInt value 10 32, its error as `none`.
unfoldable pub parse_int32 : Text → Option ℤ
unfolding parse_uint
parse_int32 [] = none
parse_int32 (c ∷ s) =
    if c == b'-'
    then negative_in_range (parse_uint s)
    else if c == b'+'
    then positive_in_range (parse_uint s)
    else positive_in_range (parse_uint (c ∷ s))

abbrev pub or_fallback : ℤ → Option ℤ → ℤ
or_fallback fallback none = fallback
or_fallback fallback (some z) = z

-- int32FromEnv of the value of the variable
unfoldable pub int32_from_env : Text → ℤ → ℤ
unfolding parse_int32
int32_from_env value fallback =
    if is_empty value then fallback else or_fallback fallback (parse_int32 value)

-- SQSPoller, without its client.
pub record SqsPoller : Type 0 where
  pub queue_url : Text
  pub region : Text
  pub wait_time_seconds : ℤ
  pub visibility_timeout_seconds : ℤ

pub data PollerError : Type 0 where
  queue_url_required : PollerError
  config_failed : Text → PollerError

-- NewSQSPoller, with the error of loading the configuration of a region, if there is one.
unfoldable pub new_sqs_poller : (Text → Option Text) → SqsPoller → Result PollerError SqsPoller
new_sqs_poller config_error poller =
    if is_empty poller.queue_url
    then err queue_url_required
    else elim (config_error poller.region) [ none ↦ ok poller | some e ↦ err (config_failed e) ]

abbrev pub default_queue_url : Text
default_queue_url = codes "https://sqs.us-west-2.amazonaws.com/204772699175/agent-operation-events"

-- The values of the four variables of NewTicketCloudWatchSQSPoller.
pub record PollerEnvironment : Type 0 where
  pub queue_url : Text
  pub region : Text
  pub wait_time_seconds : Text
  pub visibility_timeout_seconds : Text

-- NewTicketCloudWatchSQSPoller
unfoldable pub new_ticket_cloud_watch_sqs_poller :
    (Text → Option Text) → PollerEnvironment → Result PollerError SqsPoller
unfolding new_sqs_poller int32_from_env
new_ticket_cloud_watch_sqs_poller config_error env = new_sqs_poller config_error (record {
  queue_url = getenv_default env.queue_url default_queue_url;
  region = getenv_default env.region (codes "us-west-2");
  wait_time_seconds = int32_from_env env.wait_time_seconds (pos 20);
  visibility_timeout_seconds = int32_from_env env.visibility_timeout_seconds (pos 60);
})

-- ReceiveMessageInput of the service, as far as the poller sets it.
pub record ReceiveMessageInput : Type 0 where
  pub queue_url : Text
  pub max_number_of_messages : ℕ
  pub wait_time_seconds : ℤ
  pub visibility_timeout : ℤ
  pub message_attribute_names : List Text
  pub message_system_attribute_names : List Text

-- ReceiveMessages, with the answer of the service to its input.
unfoldable pub receive_messages :
    (ReceiveMessageInput → Result Text (List RawMessage))
    → SqsPoller
    → Result PollError (List RawMessage)
receive_messages receive poller =
    elim (receive (record {
      queue_url = poller.queue_url;
      max_number_of_messages = 1;
      wait_time_seconds = poller.wait_time_seconds;
      visibility_timeout = poller.visibility_timeout_seconds;
      message_attribute_names = codes "All" ∷ [];
      message_system_attribute_names = codes "All" ∷ [];
    })) [ ok ms ↦ ok ms | err e ↦ err (receive_failed e) ]

-- A number as the verb %d prints it.
abbrev pub printed : ℤ → Text
printed (pos n) = decimal n
printed (negsuc n) = b'-' ∷ decimal (n + 1)
