-- ===== src/Poller/Delivery.antt =====
-- Which deliveries reach the main loop.
use aws_demo.Base.{
  ◌≡◌, refl, ap, ◌∙◌, Bool, true, false, not, List, [], ◌∷◌, ◌++◌, map, Option, none, some, ok, err,
  if◌then◌else◌, filter_map, Bool-cases, Result-cases, inl, inr,
}
use aws_demo.Text.{Text}
use aws_demo.Conductor.{PolledMessage}
use aws_demo.Poller.{
  RawMessage, to_string, parse_sqs_message, PollError, empty_body, receive_failed, Sent,
  sent_message, sent_error, ReceiveTurn, send_poll_error, send_parsed, send_messages, received,
  poll,
}

-- The messages on the channel of messages.
abbrev pub messages : List Sent → List PolledMessage
messages [] = []
messages (sent_message m ∷ rest) = m ∷ messages rest
messages (sent_error e ∷ rest) = messages rest

abbrev delivered : RawMessage → Text → PolledMessage
delivered m body = record {
  external_message_id = to_string m.message_id;
  receipt_handle = to_string m.receipt_handle;
  body = body;
}

-- The delivery for a message that has a body.
abbrev pub delivery : RawMessage → Option PolledMessage
delivery m = elim m.body [ none ↦ none | some body ↦ some (delivered m body) ]

-- A point where the loop may end, with the message that it is about: the check of a turn, and the
-- sending of a message that has a body; and whether the loop goes on behind it.
abbrev pub Point : Type 0
Point = Option RawMessage × Bool

abbrev pub sending : RawMessage × Bool → Point
sending (m, taken) = (some m, elim m.body [ none ↦ true | some body ↦ taken ])

abbrev pub sendings : ReceiveTurn → List Point
sendings t = elim t.answer [ err e ↦ [] | ok ms ↦ map sending ms ]

abbrev pub points : List ReceiveTurn → List Point
points [] = []
points (t ∷ ts) = (none, not t.canceled) ∷ (sendings t ++ points ts)

-- The messages up to the first point where the loop ends.
abbrev pub reached : List Point → List RawMessage
reached [] = []
reached ((o, false) ∷ rest) = []
reached ((none, true) ∷ rest) = reached rest
reached ((some m, true) ∷ rest) = m ∷ reached rest

messages-send_poll_error :
    (e : PollError) (taken : Bool) (rest : List Sent)
    → messages (send_poll_error e taken ++ rest) ≡ messages rest
unfolding send_poll_error
messages-send_poll_error e true rest = refl
messages-send_poll_error e false rest = refl

-- What the main loop is sent by a run of the inner loop and what follows it.
abbrev followed : List Sent × Bool → List Sent → List PolledMessage
followed x rest = messages (x.0 ++ (if x.1 then [] else rest))

error-followed :
    (e : PollError) (taken : Bool) (x : List Sent × Bool) (rest : List Sent)
    → followed (send_poll_error e taken ++ x.0, x.1) rest ≡ followed x rest
unfolding send_poll_error
error-followed e true x rest = refl
error-followed e false x rest = refl

abbrev raw : Option Text → Option Text → Option Text → RawMessage
raw id handle body = record { message_id = id; receipt_handle = handle; body = body }

-- A turn of the inner loop before what the others send.
messages-send_parsed :
    (id handle body : Option Text) (taken : Bool) (x : List Sent × Bool) (rest : List Sent)
    → (ps : List Point) → followed x rest ≡ filter_map delivery (reached ps)
    → followed (send_parsed (parse_sqs_message (raw id handle body)) taken x) rest
      ≡ filter_map delivery (reached (sending (raw id handle body, taken) ∷ ps))
unfolding send_parsed parse_sqs_message
messages-send_parsed id handle none taken x rest ps h =
    error-followed (empty_body (to_string id)) taken x rest ∙ h
messages-send_parsed id handle (some body) true x rest ps h =
    ap (λ ms. delivered (raw id handle (some body)) body ∷ ms) h
messages-send_parsed id handle (some body) false x rest ps h = refl

messages-send_messages :
    (ms : List (RawMessage × Bool)) (rest : List Sent) (ps : List Point)
    → messages rest ≡ filter_map delivery (reached ps)
    → followed (send_messages ms) rest ≡ filter_map delivery (reached (map sending ms ++ ps))
unfolding send_messages
messages-send_messages [] rest ps h = h
messages-send_messages ((m, taken) ∷ ms) rest ps h =
    messages-send_parsed m.message_id m.receipt_handle m.body taken (send_messages ms) rest _
      (messages-send_messages ms rest ps h)

messages-received :
    (t : ReceiveTurn) (rest : List Sent) (ps : List Point)
    → messages rest ≡ filter_map delivery (reached ps)
    → messages (received t.answer rest) ≡ filter_map delivery (reached (sendings t ++ ps))
messages-received t rest ps h = elim (Result-cases t.answer) [
  | inr ((e, taken), is) ↦ rw is (messages-send_poll_error (receive_failed e) taken rest ∙ h)
  | inl (ms, is) ↦ rw is (messages-send_messages ms rest ps h)
]

-- Whatever errors come between, the main loop is sent the messages with a body that the service
-- returned, in order, each once and with its receipt handle, up to the first select of a turn's check
-- or of a message that finds the context canceled, and no other.
pub messages-poll :
    (ts : List ReceiveTurn) → messages (poll ts) ≡ filter_map delivery (reached (points ts))
unfolding poll
messages-poll [] = refl
messages-poll (t ∷ ts) = elim (Bool-cases t.canceled) [
  | inl e ↦ rw e refl
  | inr e ↦ rw e (messages-received t (poll ts) (points ts) (messages-poll ts))
]
