-- ===== src/ShutdownGate/Safety.antt =====
-- What the gate promises the deployment and the poller.
use aws_demo.Base.{
  ap, ◌∙◌, ◌≡◌, refl, Bool, ◌||◌, List, [], ◌∷◌, any, if◌then◌else◌, ◌==◌, Bool-cases, inl, inr,
  arith, ◌&&◌,
}
use aws_demo.ShutdownGate.{
  Turn, Gate, new_gate, waiting, ready, write_failed, is_shutdown_okay, signal, shutdown_gate,
}

-- PollDone was closed once if polling was stopped, and never before.
pub record IsClosedOnce (g : Gate) : Type 0 where
  pub closed : g.closes ≡ (if g.signaled then 1 else 0)
  pub halted : g.stopped ≡ g.signaled

signal-IsClosedOnce : (g : Gate) → IsClosedOnce g → IsClosedOnce (signal g)
unfolding signal
signal-IsClosedOnce g h = record {
  closed = ground (arith, h.closed);
  halted = ground (arith, h.halted);
}

gate-IsClosedOnce :
    (writes : Bool) (ts : List Turn) (g : Gate)
    → IsClosedOnce g
    → IsClosedOnce (shutdown_gate writes ts g).1
unfolding shutdown_gate
gate-IsClosedOnce writes [] g h = h
gate-IsClosedOnce writes (t ∷ ts) g h = elim (Bool-cases (is_shutdown_okay t)) [
  | inr e ↦ rw e (gate-IsClosedOnce writes ts g h)
  | inl e ↦ elim (Bool-cases (t.active == 0)) [
    | inl e' ↦ rw (e, e') (signal-IsClosedOnce g h)
    | inr e' ↦ rw (e, e') (gate-IsClosedOnce writes ts (signal g) (signal-IsClosedOnce g h))
  ]
]

signaled-gate :
    (writes : Bool) (ts : List Turn) (g : Gate)
    → (shutdown_gate writes ts g).1.signaled ≡ (g.signaled || any is_shutdown_okay ts)
unfolding shutdown_gate signal
signaled-gate writes [] g = ground arith
signaled-gate writes (t ∷ ts) g =
    ground (arith, signaled-gate writes ts g, signaled-gate writes ts (signal g))

-- Over any turns, PollDone is closed exactly once if some turn found the flag true and never
-- otherwise, and exactly then is polling stopped.
pub shutdown_gate-closes :
    (writes : Bool) (ts : List Turn)
    → ((shutdown_gate writes ts new_gate).1.closes ≡ (if any is_shutdown_okay ts then 1 else 0))
      × ((shutdown_gate writes ts new_gate).1.stopped ≡ any is_shutdown_okay ts)
shutdown_gate-closes writes ts =
    let h = gate-IsClosedOnce writes ts new_gate (record { closed = refl; halted = refl }) in
    let s = signaled-gate writes ts new_gate in
    (h.closed ∙ ap (λ b. if b then 1 else 0) s, h.halted ∙ s)

-- A turn that lets the conductor go: the flag says true and no worker is active.
abbrev pub lets_go : Turn → Bool
lets_go t = is_shutdown_okay t && t.active == 0

gate-outcome :
    (writes : Bool) (ts : List Turn) (g : Gate)
    → (shutdown_gate writes ts g).0
      ≡ (if any lets_go ts then (if writes then ready else write_failed) else waiting)
unfolding shutdown_gate
gate-outcome writes [] g = refl
gate-outcome writes (t ∷ ts) g =
    ground (arith, gate-outcome writes ts g, gate-outcome writes ts (signal g))

-- The gate opens, and tries to write the file of a safe shutdown, exactly when in some turn the flag
-- is true and no worker is active; until then it waits.
pub shutdown_gate-outcome :
    (writes : Bool) (ts : List Turn)
    → (shutdown_gate writes ts new_gate).0
      ≡ (if any lets_go ts then (if writes then ready else write_failed) else waiting)
shutdown_gate-outcome writes ts = gate-outcome writes ts new_gate
