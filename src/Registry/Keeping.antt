-- ===== src/Registry/Keeping.antt =====
-- Registries in which the same workers are registered and active.
use aws_demo.Base.{
  ℕ, zero, suc, ◌<◌, ◌≡◌, refl, ap, ◌∙◌, Bool, true, false, not, List, [], ◌∷◌, some, count_if,
  arith, ◌||◌, any, any-append, Bool-cases, inl, inr,
}
use aws_demo.Text.{Text}
use aws_demo.Registry.{
  WorkerEvent, safely_ended, Payload, SpawnedWorker, Registry, modify, has_id, has_event,
  has_event_at, kind_eq, with_event, find_worker, get_worker, record_event, get_num_active_workers,
}
use aws_demo.Registry.Invariant.{IsWellFormed, has_id-modify, record_event-IsWellFormed}
use aws_demo.Registry.Lookup.{find-cong}

-- The same workers are registered at the same addresses, the same objects have the event
-- safely_ended, and as many workers are active.
pub record Keeps (before after : Registry) : Type 0 where
  pub lookups : (id : Text) → get_worker id after ≡ get_worker id before
  pub endings :
      (p : ℕ)
      → has_event_at safely_ended after.objects p ≡ has_event_at safely_ended before.objects p
  pub active : get_num_active_workers after ≡ get_num_active_workers before
  pub sound : IsWellFormed before → IsWellFormed after

pub Keeps-refl : (r : Registry) → Keeps r r
Keeps-refl r = record { lookups = λ id. refl; endings = λ p. refl; active = refl; sound = λ h. h }

pub Keeps-trans : {r s t : Registry} → Keeps r s → Keeps s t → Keeps r t
Keeps-trans h k = record {
  lookups = λ id. k.lookups id ∙ h.lookups id;
  endings = λ p. k.endings p ∙ h.endings p;
  active = k.active ∙ h.active;
  sound = λ w. k.sound (h.sound w);
}

or_none : (b c : Bool) → c ≡ false → (b || (c || false)) ≡ b
or_none b c h = ground arith

has_event-with_other :
    (now : ℕ) (kind : WorkerEvent) (payload : Payload) (w : SpawnedWorker)
    → kind_eq kind safely_ended ≡ false
    → has_event safely_ended (with_event now kind payload w) ≡ has_event safely_ended w
unfolding has_event
has_event-with_other now kind payload w other =
    any-append (λ e. kind_eq e.kind safely_ended) w.events
      (record { kind = kind; received_at = now; payload = payload } ∷ [])
    ∙ or_none (any (λ e. kind_eq e.kind safely_ended) w.events) (kind_eq kind safely_ended) other

has_event_at-modify :
    (now : ℕ) (kind : WorkerEvent) (payload : Payload) (ws : List SpawnedWorker) (p q : ℕ)
    → kind_eq kind safely_ended ≡ false
    → has_event_at safely_ended (modify ws p (with_event now kind payload)) q
      ≡ has_event_at safely_ended ws q
has_event_at-modify now kind payload [] p q other = refl
has_event_at-modify now kind payload (w ∷ ws) zero zero other =
    has_event-with_other now kind payload w other
has_event_at-modify now kind payload (w ∷ ws) zero (suc q) other = refl
has_event_at-modify now kind payload (w ∷ ws) (suc p) zero other = refl
has_event_at-modify now kind payload (w ∷ ws) (suc p) (suc q) other =
    has_event_at-modify now kind payload ws p q other

count_if-cong : (f g : ℕ → Bool) (l : List ℕ) → ((q : ℕ) → f q ≡ g q) → count_if f l ≡ count_if g l
count_if-cong f g [] h = refl
count_if-cong f g (q ∷ l) h = ground (arith, h q, count_if-cong f g l h)

pub record_event-Keeps :
    (now : ℕ) (kind : WorkerEvent) (payload : Payload) (p : ℕ) (r : Registry)
    → kind_eq kind safely_ended ≡ false
    → Keeps r (record_event now kind payload p r)
unfolding record_event get_worker get_num_active_workers
record_event-Keeps now kind payload p r other = record {
  lookups = λ id.
      find-cong id (modify r.objects p (with_event now kind payload)) r.objects r.workers
        (λ q. has_id-modify id r.objects p q (with_event now kind payload) (λ w. refl));
  endings = λ q. has_event_at-modify now kind payload r.objects p q other;
  active =
      count_if-cong
        (λ q. not (has_event_at safely_ended (modify r.objects p (with_event now kind payload)) q))
        (λ q. not (has_event_at safely_ended r.objects q)) r.workers
        (λ q. ap not (has_event_at-modify now kind payload r.objects p q other));
  sound = record_event-IsWellFormed now kind payload p r;
}

find-count_pos :
    (test : ℕ → Bool) (id : Text) (ws : List SpawnedWorker) (l : List ℕ) (p : ℕ)
    → find_worker id ws l ≡ some p
    → test p ≡ true
    → 0 < count_if test l
unfolding find_worker
find-count_pos test id ws [] p h t = absurd (cc h)
find-count_pos test id ws (q ∷ l) p h t = elim (Bool-cases (has_id id ws q)) [
  | inl e ↦ let same : q ≡ p = cc (rw e at h) in rw (count_if, ap test same ∙ t) (omega arith)
  | inr e ↦ let later = find-count_pos test id ws l p (rw e at h) t in ground (arith, later)
]

-- A registered worker that has not safely ended is counted.
pub get_num_active_workers-pos :
    (id : Text) (p : ℕ) (r : Registry)
    → get_worker id r ≡ some p
    → has_event_at safely_ended r.objects p ≡ false
    → 0 < get_num_active_workers r
unfolding get_num_active_workers get_worker
get_num_active_workers-pos id p r found alive =
    find-count_pos (λ q. not (has_event_at safely_ended r.objects q)) id r.objects r.workers p found
      (ap not alive)
