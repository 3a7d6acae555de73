-- ===== src/Conductor/Draining.antt =====
-- Which messages the poll loop handles, and that it drains: the two selects of the loop of main.go.
use aws_demo.Base.{
  ℕ, ◌≡◌, refl, ap, Bool, true, false, List, [], ◌∷◌, ◌++◌, Option, none, some, filter_map,
  if◌then◌else◌, All, Bool-cases, inl, inr,
}
use aws_demo.Text.{Text}
use aws_demo.Json.{Decoder}
use aws_demo.Scheduler.Store.{Session}
use aws_demo.Registry.{Registry}
use aws_demo.Conductor.{
  PolledMessage, Spawning, Handled, LoopEvent, poll_done, cancelled, messages_closed, errors_closed,
  poll_error, message, handle_message, poll_loop,
}

-- A message that the loop handles, whether the queue deletes it, and the spawns that may follow.
pub record Taken : Type 0 where
  pub polled : PolledMessage
  pub deletes : Bool
  pub spawns : ℕ → Spawning

abbrev pub taken : LoopEvent → Option Taken
taken (message m draining deletes spawns) =
    some (record { polled = m; deletes = deletes; spawns = spawns })
taken _ = none

-- An event that ends the loop: what a select receives, or what the second one finds with a message.
abbrev pub ends : LoopEvent → Bool
ends poll_done = true
ends cancelled = true
ends messages_closed = true
ends errors_closed = false
ends poll_error = false
ends (message m draining deletes spawns) = draining

-- An event that can come once PollDone is closed: the first select may still receive a message, but
-- then the second one finds PollDone closed.
abbrev pub IsDraining : LoopEvent → Type 0
IsDraining (message m draining deletes spawns) = draining ≡ true
IsDraining _ = Unit

abbrev pub before_end : List LoopEvent → List LoopEvent
before_end [] = []
before_end (e ∷ es) = let rest = before_end es in if ends e then [] else e ∷ rest

module _ (run_dir dial_address : Text) (d : Decoder) where
  -- All of the messages, one after the other.
  abbrev pub handle_all : List Taken → Session → Registry → List Handled × Session × Registry
  handle_all [] s r = ([], s, r)
  handle_all (t ∷ ts) s r =
      let (handled, s', r') =
        handle_message run_dir dial_address d t.polled t.deletes t.spawns s r in
      let (later, s'', r'') = handle_all ts s' r' in (handled ∷ later, s'', r'')

  poll_loop-IsDraining :
      (rest : List LoopEvent) (s : Session) (r : Registry)
      → All IsDraining rest
      → poll_loop run_dir dial_address d rest s r ≡ ([], s, r)
  unfolding poll_loop
  poll_loop-IsDraining [] s r h = refl
  poll_loop-IsDraining (poll_done ∷ es) s r h = refl
  poll_loop-IsDraining (cancelled ∷ es) s r h = refl
  poll_loop-IsDraining (messages_closed ∷ es) s r h = refl
  poll_loop-IsDraining (errors_closed ∷ es) s r h = poll_loop-IsDraining es s r h.1
  poll_loop-IsDraining (poll_error ∷ es) s r h = poll_loop-IsDraining es s r h.1
  poll_loop-IsDraining (message m draining deletes spawns ∷ es) s r h = rw h.0 refl

  -- Whatever the selects receive once PollDone is closed, messages included: what the loop did, and
  -- the tables and the registry that it leaves, are those of handling, one after the other, the
  -- messages that came before it, up to the first event that ended it.
  pub poll_loop-drains :
      (es rest : List LoopEvent) (s : Session) (r : Registry)
      → All IsDraining rest
      → poll_loop run_dir dial_address d (es ++ rest) s r
        ≡ handle_all (filter_map taken (before_end es)) s r
  unfolding poll_loop
  poll_loop-drains [] rest s r h = poll_loop-IsDraining rest s r h
  poll_loop-drains (poll_done ∷ es) rest s r h = refl
  poll_loop-drains (cancelled ∷ es) rest s r h = refl
  poll_loop-drains (messages_closed ∷ es) rest s r h = refl
  poll_loop-drains (errors_closed ∷ es) rest s r h = poll_loop-drains es rest s r h
  poll_loop-drains (poll_error ∷ es) rest s r h = poll_loop-drains es rest s r h
  poll_loop-drains (message m draining deletes spawns ∷ es) rest s r h =
      let x = handle_message run_dir dial_address d m deletes spawns s r in
      elim (Bool-cases draining) [
        | inl e ↦ rw e refl
        | inr e ↦ rw e (ap (λ y. (x.0 ∷ y.0, y.1, y.2)) (poll_loop-drains es rest x.1 x.2 h))
      ]
