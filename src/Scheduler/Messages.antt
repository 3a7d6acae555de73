-- ===== src/Scheduler/Messages.antt =====
-- Message classification: `ScheduleDecision` and `ScheduleMessageType` of
-- conductor-and-worker/conductor/go-conductor/db-internal/shared/schedule_decision.go, and the
-- functions of go-db-scheduler/scheduler.go that read a raw SQS body.
use aws_demo.Base.{
  Bool, not, ◌&&◌, ◌||◌, List, [], ◌∷◌, ◌++◌, Option, none, some, Result, ok, err, if◌then◌else◌,
  concat,
}
use aws_demo.Text.{Text, codes, text_eq, trim_space, is_empty, join}
use aws_demo.Json.{
  Json, null, str, arr, obj, Members, end, member, Items, nil, cons, Decoder, string_field,
  raw_field, members, names, map_value, has_key, fits,
}
use aws_demo.Scheduler.Store.{Error, unsupported_shape}

pub data ScheduleMessageType : Type 0 where
  incident ticket : ScheduleMessageType

pub record ScheduleDecision : Type 0 where
  pub to_schedule : Bool
  pub text : Text
  pub account_number : Text
  pub message_type : ScheduleMessageType

pub record IncomingMessage : Type 0 where
  pub raw_body : Text
  pub account_number : Text

pub record ParsedIncomingMessage : Type 0 where
  pub message_type : ScheduleMessageType
  pub text : Text
  pub account_number : Text

infixl 5 ◌>>=◌
abbrev pub ◌>>=◌ {ℓ κ} : {A : Type ℓ} {B : Type κ} → Option A → (A → Option B) → Option B
none >>= f = none
some a >>= f = f a

-- The text of a map's "text" entry, if it is a string that is not blank.
own_text : Option Json → List Text
own_text (some (str t)) = let s = trim_space t in if is_empty s then [] else s ∷ []
own_text other = []

-- collectTicketDescriptionTextParts. A map holds one entry for each key, the last of its members.
unfoldable mutual
  unfolding own_text

  pub collect_ticket_description_text_parts : Decoder → Json → List Text
  collect_ticket_description_text_parts d (obj fs) =
      own_text (map_value (codes "text") none fs) ++ concat (d.range_order (collect_members d fs))
  collect_ticket_description_text_parts d (arr xs) = collect_items d xs
  collect_ticket_description_text_parts d other = []

  collect_items : Decoder → Items → List Text
  collect_items d nil = []
  collect_items d (cons x xs) = collect_ticket_description_text_parts d x ++ collect_items d xs

  collect_members : Decoder → Members → List (List Text)
  collect_members d end = []
  collect_members d (member k v fs) =
      let later = collect_members d fs in
      let parts = collect_ticket_description_text_parts d v in
      if has_key k fs then later else parts ∷ later

unfoldable pub ticket_description_text : Decoder → Option Json → Text
unfolding collect_ticket_description_text_parts
ticket_description_text d none = []
ticket_description_text d (some null) = []
ticket_description_text d (some (str t)) = trim_space t
ticket_description_text d (some v) =
    if fits d.fits_float64 v
    then trim_space (join (collect_ticket_description_text_parts d v) (codes "\n"))
    else []

-- parseIncidentMessageForScheduling
unfoldable pub parse_incident_message_for_scheduling : Decoder → Text → Option ParsedIncomingMessage
parse_incident_message_for_scheduling d raw = do
  v ← d.read raw
  ms ← members v
  account ← string_field (codes "account") (some []) ms
  detail_type ← string_field (codes "detail-type") (some []) ms
  source ← string_field (codes "source") (some []) ms
  if not (text_eq source (codes "aws.cloudwatch"))
        || not (text_eq detail_type (codes "CloudWatch Alarm State Change"))
      then none
      else if is_empty (trim_space account)
      then none
      else some
          (record { message_type = incident; text = raw; account_number = trim_space account })

-- The `fields` of a ticket: `null` and further objects add to what is there.
merge_fields : Option (Option Json) → Json → Option (Option Json)
merge_fields none v = none
merge_fields (some old) (obj fs) = some (raw_field (codes "description") old fs)
merge_fields (some old) null = some old
merge_fields (some old) v = none

ticket_description : Option (Option Json) → Members → Option (Option Json)
unfolding merge_fields
ticket_description acc end = acc
ticket_description acc (member key v rest) =
    ticket_description (if names key (codes "fields") then merge_fields acc v else acc) rest

-- parseTicketMessageForScheduling; the account number keeps its zero value.
unfoldable pub parse_ticket_message_for_scheduling : Decoder → Text → Option ParsedIncomingMessage
unfolding ticket_description
parse_ticket_message_for_scheduling d raw = do
  v ← d.read raw
  ms ← members v
  id ← string_field (codes "id") (some []) ms
  key ← string_field (codes "key") (some []) ms
  description ← ticket_description (some none) ms
  if is_empty (trim_space id) && is_empty (trim_space key)
      then none
      else if is_empty (ticket_description_text d description)
      then none
      else some (record {
        message_type = ticket;
        text = ticket_description_text d description;
        account_number = [];
      })

-- parseIncomingMessageForScheduling
unfoldable pub parse_incoming_message_for_scheduling :
    Decoder → Text → Result Error ParsedIncomingMessage
parse_incoming_message_for_scheduling d raw = elim (parse_incident_message_for_scheduling d raw) [
  | some message ↦ ok message
  | none ↦ elim (parse_ticket_message_for_scheduling d raw) [
    | some message ↦ ok message
    | none ↦ err unsupported_shape
  ]
]
