-- ===== src/Poller.antt =====
-- The poller's loop: conductor-and-worker/conductor/go-conductor/poll.go. What each receive call
-- returns is given, with what each select of the loop finds.
pub mod Delivery
pub mod Settings
mod Tests
use aws_demo.Base.{
  ◌≡◌, Bool, true, false, List, [], ◌∷◌, ◌++◌, Option, none, some, Result, ok, err, if◌then◌else◌,
}
use aws_demo.Text.{Text, is_empty}
use aws_demo.Conductor.{PolledMessage}

-- types.Message of the service: three pointers to strings.
pub record RawMessage : Type 0 where
  pub message_id : Option Text
  pub receipt_handle : Option Text
  pub body : Option Text

pub data PollError : Type 0 where
  receive_failed : Text → PollError
  empty_body : Text → PollError

-- aws.ToString
abbrev pub to_string : Option Text → Text
to_string none = []
to_string (some s) = s

-- parseSQSMessage
unfoldable pub parse_sqs_message : RawMessage → Result PollError PolledMessage
parse_sqs_message m = elim m.body [
  | none ↦ err (empty_body (to_string m.message_id))
  | some body ↦ ok (record {
    external_message_id = to_string m.message_id;
    receipt_handle = to_string m.receipt_handle;
    body = body;
  })
]

-- What the loop puts on its two channels, in the order of its sends.
pub data Sent : Type 0 where
  sent_message : PolledMessage → Sent
  sent_error : PollError → Sent

-- A turn of the loop: whether its check finds the context canceled, and what the receive call returns.
-- With the error, and with each message, stands whether the main loop takes what is sent for it; where
-- it does not, the select finds the context canceled.
pub record ReceiveTurn : Type 0 where
  pub canceled : Bool
  pub answer : Result (Text × Bool) (List (RawMessage × Bool))

-- sendPollError, whose select does not end the loop.
unfoldable pub send_poll_error : PollError → Bool → List Sent
send_poll_error e taken = if taken then sent_error e ∷ [] else []

-- A turn of the inner loop before the others; its flag says whether Poll has returned.
unfoldable pub send_parsed :
    Result PollError PolledMessage → Bool → List Sent × Bool → List Sent × Bool
unfolding send_poll_error
send_parsed (err e) taken rest = (send_poll_error e taken ++ rest.0, rest.1)
send_parsed (ok m) true rest = (sent_message m ∷ rest.0, rest.1)
send_parsed (ok m) false rest = ([], true)

-- The inner loop over the messages of one call.
unfoldable pub send_messages : List (RawMessage × Bool) → List Sent × Bool
unfolding send_parsed
send_messages [] = ([], false)
send_messages ((m, taken) ∷ ms) = send_parsed (parse_sqs_message m) taken (send_messages ms)

-- What follows the receive call, with the turns behind it.
abbrev pub received : Result (Text × Bool) (List (RawMessage × Bool)) → List Sent → List Sent
received (err (e, taken)) rest = send_poll_error (receive_failed e) taken ++ rest
received (ok ms) rest = (send_messages ms).0 ++ (if (send_messages ms).1 then [] else rest)

-- Poll
unfoldable pub poll : List ReceiveTurn → List Sent
unfolding send_messages send_poll_error
poll [] = []
poll (t ∷ ts) = let rest = poll ts in if t.canceled then [] else received t.answer rest

-- getenvDefault of the value of the variable
unfoldable pub getenv_default : Text → Text → Text
getenv_default value fallback = if is_empty value then fallback else value
