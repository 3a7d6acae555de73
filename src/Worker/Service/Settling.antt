-- ===== src/Worker/Service/Settling.antt =====
-- Workers that are settled by their ending and workers that linger: worker.go of the worker with
-- grpcserver.go and shutdowngate.go of the conductor.
use aws_demo.Base.{ℕ, ◌+◌, ◌<◌, ◌≡◌, refl, sym, ◌∙◌, false, [], Option, none, some, arith}
use mathlib.Core.Path.{subst}
use mathlib.Core.Option.{some-injective}
use aws_demo.Text.{Text, is_empty}
use aws_demo.Registry.{
  WorkerEvent, safely_ended, codex_error, Registry, request_message, get_worker, has_event_at,
  get_num_active_workers,
}
use aws_demo.Registry.Invariant.{IsWellFormed}
use aws_demo.Registry.Keeping.{Keeps, get_num_active_workers-pos}
use aws_demo.Registry.Counting.{get_num_active_workers-removed}
use aws_demo.Registry.Lookup.{IsGone, remove_worker-IsGone}
use aws_demo.Server.Deregister.{
  end_worker, worker_starts_shutdown-removes, worker_sends_codex_error-removes,
}
use aws_demo.ShutdownGate.Safety.{lets_go}
use aws_demo.Worker.{Machine}
use aws_demo.Worker.Process.{Report, Call, codex_error_call, shutdown_call}
use aws_demo.Worker.Transfers.{Client}
use aws_demo.Worker.Main.{
  Ending, reported, report_failed, shutdown_failed, finished, Surroundings, run_worker,
}
use aws_demo.Worker.Main.Calls.{calls_of, ending_of, run_worker-calls}
use aws_demo.Worker.Service.{Handling, message_of, serve, serve_calls}
use aws_demo.Worker.Service.Endings.{
  Departure, departure, stays, stays-All, farewell, heard, serve_calls-Keeps, serve_calls-calls_of,
}

-- The worker has ended, under that event, and one worker less is active.
pub record IsSettled (id : Text) (event : WorkerEvent) (p : ℕ) (before after : Registry)
    : Type 0 where
  pub ended : IsGone id event p before after
  pub fewer : get_num_active_workers after + 1 ≡ get_num_active_workers before

-- The worker is registered as before, and no turn of the shutdown gate lets the conductor go.
pub record IsLingering (id : Text) (p : ℕ) (after : Registry) : Type 0 where
  pub registered : get_worker id after ≡ some p
  pub counted : 0 < get_num_active_workers after
  pub held :
      (flag : Option Text)
      → lets_go (record { flag = flag; active = get_num_active_workers after }) ≡ false

Keeps-IsSettled :
    (id : Text) (event : WorkerEvent) (p : ℕ) (r s t : Registry)
    → Keeps r s
    → IsSettled id event p s t
    → IsSettled id event p r t
Keeps-IsSettled id event p r s t k h = record {
  ended = record {
    gone = h.ended.gone;
    others = λ id' n. h.ended.others id' n ∙ k.lookups id';
    recorded = h.ended.recorded;
    well_formed = h.ended.well_formed;
  };
  fewer = h.fewer ∙ k.active;
}

-- A worker that is registered in a sound registry and has not ended.
pub record IsWorking (id : Text) (p : ℕ) (r : Registry) : Type 0 where
  pub sound : IsWellFormed r
  pub named : is_empty id ≡ false
  pub found : get_worker id r ≡ some p
  pub alive : has_event_at safely_ended r.objects p ≡ false

Keeps-IsWorking :
    (id : Text) (p : ℕ) (r s : Registry) → Keeps r s → IsWorking id p r → IsWorking id p s
Keeps-IsWorking id p r s k h = record {
  sound = k.sound h.sound;
  named = h.named;
  found = k.lookups id ∙ h.found;
  alive = k.endings p ∙ h.alive;
}

end_worker-IsSettled :
    (id : Text) (h : Handling) (event : WorkerEvent) (p : ℕ) (r : Registry)
    → IsWorking id p r
    → IsSettled id event p r (end_worker h.now event (message_of id h) p r)
end_worker-IsSettled id h event p r w = record {
  ended = remove_worker-IsGone h.now event (request_message h.message) id p r w.sound w.found;
  fewer =
      get_num_active_workers-removed h.now event (request_message h.message) id p r w.sound w.found
        w.alive;
}

module _ (id : Text) (h : Handling) (p : ℕ) (r : Registry) (w : IsWorking id p r) where
  abbrev Settles : Departure → Type 0
  Settles d = IsSettled id d.event p r (serve id h d.call r)

  report-IsSettled :
      (x : Report) → Settles (record { call = codex_error_call x; event = codex_error })
  report-IsSettled x =
      subst (λ x. IsSettled id codex_error p r x.1)
        (sym (worker_sends_codex_error-removes h.now (message_of id h) p r w.named w.found))
        (end_worker-IsSettled id h codex_error p r w)

  shutdown-IsSettled :
      (link : Option Text) → Settles (record { call = shutdown_call link; event = safely_ended })
  shutdown-IsSettled link =
      subst (λ x. IsSettled id safely_ended p r x.1)
        (sym (worker_starts_shutdown-removes h.now (message_of id h) p r w.named w.found))
        (end_worker-IsSettled id h safely_ended p r w)

  serve-IsSettled : (e : Ending) (d : Departure) → departure e ≡ some d → Settles d
  serve-IsSettled (reported x) d last = subst Settles (some-injective _ d last) (report-IsSettled x)
  serve-IsSettled (report_failed x) d last =
      subst Settles (some-injective _ d last) (report-IsSettled x)
  serve-IsSettled (shutdown_failed link) d last =
      subst Settles (some-injective _ d last) (shutdown-IsSettled link)
  serve-IsSettled (finished link) d last =
      subst Settles (some-injective _ d last) (shutdown-IsSettled link)
  serve-IsSettled _ d last = absurd (cc last)

module _ (id : Text) (conductor : Call → Option Handling) (p : ℕ) (r : Registry) where
  ending-IsSettled :
      (e : Ending) (d : Departure) (h : Handling)
      → IsWorking id p r
      → departure e ≡ some d
      → conductor d.call ≡ some h
      → IsSettled id d.event p r (serve_calls id conductor (calls_of e) r)
  ending-IsSettled e d h w last heard =
      let s = serve_calls id conductor (stays e) r in
      let keeps = serve_calls-Keeps id conductor (stays e) r (stays-All e) in
      rw (serve_calls-calls_of id conductor e r, last, heard)
        (Keeps-IsSettled id d.event p r s (serve id h d.call s) keeps
          (serve-IsSettled id h p s (Keeps-IsWorking id p r s keeps w) e d last))

  unheard :
      (o : Option Departure) (s : Registry)
      → heard conductor o ≡ none
      → serve_calls id conductor (farewell o) s ≡ s
  unheard none s lost = refl
  unheard (some d) s lost = rw (serve_calls, lost) refl

  working-IsLingering : (s : Registry) → IsWorking id p s → IsLingering id p s
  working-IsLingering s w =
      let some_active = get_num_active_workers-pos id p s w.found w.alive in
      record { registered = w.found; counted = some_active; held = λ flag. ground arith }

  ending-IsLingering :
      (e : Ending)
      → IsWorking id p r
      → heard conductor (departure e) ≡ none
      → IsLingering id p (serve_calls id conductor (calls_of e) r)
  ending-IsLingering e w lost =
      let s = serve_calls id conductor (stays e) r in
      let keeps = serve_calls-Keeps id conductor (stays e) r (stays-All e) in
      rw (serve_calls-calls_of id conductor e r, unheard (departure e) s lost)
        (working-IsLingering s (Keeps-IsWorking id p r s keeps w))

module _ {W : Type 0} (m : Machine W) (client : Client W) (s : Surroundings W) (w : W)
    (conductor : Call → Option Handling) (p : ℕ) (r : Registry) where
  abbrev pub ending : Ending
  ending = ending_of (run_worker m client s (record { world = w; calls = [] }))

  -- The registry after the calls of a whole run.
  abbrev pub after_run : Registry
  after_run =
      serve_calls s.worker_id conductor
        (run_worker m client s (record { world = w; calls = [] })).1.calls r

  -- Where the conductor serves nothing else meanwhile and its registry is well-formed: if the run of a
  -- registered worker that has not ended ends with an error report or a shutdown that the conductor
  -- serves, whatever became of its other calls, its ID is then not found, every other ID is found as
  -- before, its object carries the event of that call, the registry is well-formed, and one worker
  -- less is active than before the run.
  pub run_worker-IsSettled :
      (d : Departure) (h : Handling)
      → IsWorking s.worker_id p r
      → departure ending ≡ some d
      → conductor d.call ≡ some h
      → IsSettled s.worker_id d.event p r after_run
  run_worker-IsSettled d h working last served =
      rw (run_worker-calls m client s w)
        (ending-IsSettled s.worker_id conductor p r ending d h working last served)

  -- Where the conductor serves nothing else meanwhile and its registry is well-formed: if the run of a
  -- registered worker that has not ended ends with no error report and no shutdown that the conductor
  -- serves, the worker stays registered and counted as active, and no turn of the shutdown gate with
  -- that count lets the conductor go, whatever its flag file says.
  pub run_worker-IsLingering :
      IsWorking s.worker_id p r
      → heard conductor (departure ending) ≡ none
      → IsLingering s.worker_id p after_run
  run_worker-IsLingering working lost =
      rw (run_worker-calls m client s w)
        (ending-IsLingering s.worker_id conductor p r ending working lost)
