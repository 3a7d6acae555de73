-- ===== src/Registry/Lookup.antt =====
-- Looking workers up after an event was recorded and a worker removed.
use aws_demo.Base.{
  ℕ, zero, suc, ◌<◌, ◌≡◌, refl, sym, ◌∙◌, true, false, List, [], ◌∷◌, none, some, any, any-append,
  count_if, length, All, arith, Bool-cases, inl, inr,
}
use aws_demo.Text.{Text, text_eq, text_eq_iff}
use aws_demo.Registry.{
  spawn_started, handshake_succeeded, handshake_failed, got_files_succeeded, got_files_failed,
  uploaded_files_succeeded, starts_test, codex_error, safely_ended, badly_ended, WorkerEvent,
  Payload, SpawnedWorker, Registry, modify, has_id, has_event, has_event_at, kind_eq, with_event,
  find_worker, get_worker, record_event, remove_first, remove_worker,
}
use aws_demo.Registry.Invariant.{
  IsWellFormed, has_id-modify, count-remove_first, record_event-IsWellFormed,
  remove_worker-IsWellFormed,
}

pub find-cong :
    (id : Text) (ws vs : List SpawnedWorker) (l : List ℕ)
    → ((q : ℕ) → has_id id ws q ≡ has_id id vs q)
    → find_worker id ws l ≡ find_worker id vs l
unfolding find_worker
find-cong id ws vs [] h = refl
find-cong id ws vs (q ∷ l) h = rw (h q, find-cong id ws vs l h)

any-cong :
    (id : Text) (ws vs : List SpawnedWorker) (l : List ℕ)
    → ((q : ℕ) → has_id id ws q ≡ has_id id vs q)
    → any (has_id id ws) l ≡ any (has_id id vs) l
any-cong id ws vs [] h = refl
any-cong id ws vs (q ∷ l) h = rw (h q, any-cong id ws vs l h)

any-find :
    (id : Text) (ws : List SpawnedWorker) (l : List ℕ) (p : ℕ)
    → find_worker id ws l ≡ some p
    → any (has_id id ws) l ≡ true
unfolding find_worker
any-find id ws [] p h = absurd (cc h)
any-find id ws (q ∷ l) p h = ground (arith, any-find id ws l p)

find-All :
    (P : ℕ → Type 0) (id : Text) (ws : List SpawnedWorker) (l : List ℕ) (p : ℕ)
    → All P l
    → find_worker id ws l ≡ some p
    → P p
unfolding find_worker
find-All P id ws [] p a h = absurd (cc h)
find-All P id ws (q ∷ l) p a h = elim (Bool-cases (has_id id ws q)) [
  | inl e ↦ let same : q ≡ p = cc (rw e at h) in rw (sym same) a.0
  | inr e ↦ find-All P id ws l p a.1 (rw e at h)
]

find-count :
    (id : Text) (ws : List SpawnedWorker) (l : List ℕ)
    → count_if (has_id id ws) l ≡ 0
    → find_worker id ws l ≡ none
unfolding find_worker
find-count id ws [] h = refl
find-count id ws (q ∷ l) h = ground (arith, find-count id ws l)

has_id-other :
    (id id' : Text) (ws : List SpawnedWorker) (q : ℕ)
    → text_eq id id' ≡ false
    → has_id id ws q ≡ true
    → has_id id' ws q ≡ false
has_id-other id id' [] q n h = refl
has_id-other id id' (w ∷ ws) zero n h = rw ((text_eq_iff w.id id).0 h) n
has_id-other id id' (w ∷ ws) (suc q) n h = has_id-other id id' ws q n h

find-remove_first :
    (id id' : Text) (ws : List SpawnedWorker) (l : List ℕ)
    → text_eq id id' ≡ false
    → find_worker id' ws (remove_first id ws l) ≡ find_worker id' ws l
unfolding find_worker remove_first
find-remove_first id id' ws [] n = refl
find-remove_first id id' ws (q ∷ l) n =
    ground (arith, find-remove_first id id' ws l n, has_id-other id id' ws q n)

kind_eq_refl : (k : WorkerEvent) → kind_eq k k ≡ true
unfolding kind_eq
kind_eq_refl spawn_started = refl
kind_eq_refl handshake_succeeded = refl
kind_eq_refl handshake_failed = refl
kind_eq_refl got_files_succeeded = refl
kind_eq_refl got_files_failed = refl
kind_eq_refl uploaded_files_succeeded = refl
kind_eq_refl starts_test = refl
kind_eq_refl codex_error = refl
kind_eq_refl safely_ended = refl
kind_eq_refl badly_ended = refl

has_event-with_event :
    (now : ℕ) (kind : WorkerEvent) (payload : Payload) (w : SpawnedWorker)
    → has_event kind (with_event now kind payload w) ≡ true
unfolding has_event
has_event-with_event now kind payload w = ground (
  arith,
  any-append (λ x. kind_eq x.kind kind) w.events
      (record { kind = kind; received_at = now; payload = payload } ∷ []),
  kind_eq_refl kind,
)

has_event_at-modify :
    (now : ℕ) (kind : WorkerEvent) (payload : Payload) (ws : List SpawnedWorker) (p : ℕ)
    → p < length ws
    → has_event_at kind (modify ws p (with_event now kind payload)) p ≡ true
has_event_at-modify now kind payload [] p h = absurd (omega arith)
has_event_at-modify now kind payload (w ∷ ws) zero h = has_event-with_event now kind payload w
has_event_at-modify now kind payload (w ∷ ws) (suc p) h =
    has_event_at-modify now kind payload ws p (omega arith)

-- The worker is no longer found, every other one is found as before, and the worker's object, which
-- the store keeps, has the event.
pub record IsGone (id : Text) (kind : WorkerEvent) (p : ℕ) (before after : Registry) : Type 0 where
  pub gone : get_worker id after ≡ none
  pub others : (id' : Text) → text_eq id id' ≡ false → get_worker id' after ≡ get_worker id' before
  pub recorded : has_event_at kind after.objects p ≡ true
  pub well_formed : IsWellFormed after

pub removed :
    (now : ℕ) (kind : WorkerEvent) (payload : Payload) (id : Text) (p : ℕ) (r : Registry)
    → get_worker id r ≡ some p
    → remove_worker id (record_event now kind payload p r) ≡ (
      none,
      record (record_event now kind payload p r) {
        workers = remove_first id (record_event now kind payload p r).objects r.workers;
      },
    )
unfolding record_event get_worker remove_worker
removed now kind payload id p r h = rw (
  any-cong id (modify r.objects p (with_event now kind payload)) r.objects r.workers
      (λ q. has_id-modify id r.objects p q (with_event now kind payload) (λ w. refl)),
  any-find id r.objects r.workers p h,
)

pub remove_worker-IsGone :
    (now : ℕ) (kind : WorkerEvent) (payload : Payload) (id : Text) (p : ℕ) (r : Registry)
    → IsWellFormed r
    → get_worker id r ≡ some p
    → IsGone id kind p r (remove_worker id (record_event now kind payload p r)).1
unfolding record_event get_worker
remove_worker-IsGone now kind payload id p r h found =
    let ws = modify r.objects p (with_event now kind payload) in
    let same = λ (i : Text) (q : ℕ).
      has_id-modify i r.objects p q (with_event now kind payload) (λ w. refl) in
    let w = record_event-IsWellFormed now kind payload p r h in
    record {
      gone = rw (removed now kind payload id p r found) (
          find-count id ws (remove_first id ws r.workers)
            (omega (arith, count-remove_first id ws r.workers, w.unique id)));
      others = λ id' n. rw (removed now kind payload id p r found) (
          find-remove_first id id' ws r.workers n
          ∙ find-cong id' ws r.objects r.workers (same id'));
      recorded = rw (removed now kind payload id p r found) (
          has_event_at-modify now kind payload r.objects p
            (find-All (λ q. q < length r.objects) id r.objects r.workers p h.valid found));
      well_formed = remove_worker-IsWellFormed id (record_event now kind payload p r) w;
    }
