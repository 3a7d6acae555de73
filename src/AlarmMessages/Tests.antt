-- ===== src/AlarmMessages/Tests.antt =====
-- An alarm's body, and the instances of the theorems at it.
use aws_demo.Base.{◌≡◌, refl, true, [], ◌∷◌, Option, none, some}
use aws_demo.Text.{Text, codes, text_eq}
use aws_demo.AlarmMessages.{
  nonnegative, below_zero, AlarmBody, unknown, is_alarm_body, parse_sqs_message_body,
}
use aws_demo.AlarmMessages.Fields.{IsFirstPeriod, parse_sqs_message_body-period}

abbrev alarm : AlarmBody
alarm = record {
  id = codes "e1";
  account = codes "2047";
  detail_type = codes "CloudWatch Alarm State Change";
  source = codes "aws.cloudwatch";
  time = [];
  alarm_name = codes "cpu";
  state_value = codes "ALARM";
  periods = below_zero 3 ∷ nonnegative 0 ∷ nonnegative 60 ∷ nonnegative 300 ∷ [];
}

-- Only the empty body is refused.
abbrev decode : Text → Option AlarmBody
decode [] = none
decode (c ∷ s) = some alarm

period : (parse_sqs_message_body decode (codes "A")).alarm_period_seconds ≡ some 60
unfolding parse_sqs_message_body text_eq
period = refl

parse_sqs_message_body-period_example :
    (e : AlarmBody) × (decode (codes "A") ≡ some e)
    × (is_alarm_body e ≡ true)
    × IsFirstPeriod e.periods 60
parse_sqs_message_body-period_example = parse_sqs_message_body-period decode (codes "A") 60 period

is_unknown : (parse_sqs_message_body decode []).message_type ≡ unknown
unfolding parse_sqs_message_body
is_unknown = refl
