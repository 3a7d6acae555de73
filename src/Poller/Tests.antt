-- ===== src/Poller/Tests.antt =====
-- A call that fails, one whose message has no body, and one during which the context is canceled.
use aws_demo.Base.{
  ◌≡◌, refl, Bool, true, false, List, [], ◌∷◌, none, some, ok, err, filter_map, map,
}
use aws_demo.Text.{Text, codes}
use aws_demo.Poller.{RawMessage, ReceiveTurn, parse_sqs_message, poll}
use aws_demo.Poller.Delivery.{messages, points, reached, delivery, messages-poll}

abbrev named : Text → RawMessage
named handle = record {
  message_id = some (codes "m");
  receipt_handle = some handle;
  body = some (codes "T");
}

abbrev turn : List (RawMessage × Bool) → ReceiveTurn
turn ms = record { canceled = false; answer = ok ms }

abbrev turns : List ReceiveTurn
turns =
    turn
      ((record { message_id = some (codes "m1"); receipt_handle = none; body = none }, false) ∷ [])
    ∷ record { canceled = false; answer = err (codes "timeout", true) }
    ∷ turn ((named (codes "h2"), true) ∷ [])
    ∷ turn ((named (codes "h3"), false) ∷ [])
    ∷ turn ((named (codes "h4"), true) ∷ [])
    ∷ []

handles : map (λ m. m.receipt_handle) (messages (poll turns)) ≡ codes "h2" ∷ []
unfolding poll parse_sqs_message
handles = refl

messages-poll_example : messages (poll turns) ≡ filter_map delivery (reached (points turns))
messages-poll_example = messages-poll turns
