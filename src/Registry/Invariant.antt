-- ===== src/Registry/Invariant.antt =====
-- The registry's slice: every address is that of an object, and no two workers share an ID.
use aws_demo.Base.{
  ℕ, zero, suc, ◌+◌, ◌-◌, ◌≤◌, ◌<◌, ◌≡◌, refl, ap, Bool, true, false, List, [], ◌∷◌, ◌++◌, any,
  count_if, count_if-append, length, length-append, All, All-append, arith, Bool-cases, inl, inr,
}
use aws_demo.Text.{Text, text_eq, text_eq_iff}
use aws_demo.Registry.{
  new_worker, with_event, with_worker, WorkerSpawnConfig, WorkerEvent, Payload, SpawnedWorker,
  Registry, modify, has_id, record_event, remove_first, remove_worker,
}

pub record IsWellFormed (r : Registry) : Type 0 where
  pub valid : All (λ p. p < length r.objects) r.workers
  pub unique : (id : Text) → count_if (has_id id r.objects) r.workers ≤ 1

length-modify :
    (ws : List SpawnedWorker) (p : ℕ) (f : SpawnedWorker → SpawnedWorker)
    → length (modify ws p f) ≡ length ws
length-modify [] p f = refl
length-modify (w ∷ ws) zero f = refl
length-modify (w ∷ ws) (suc p) f = ap suc (length-modify ws p f)

pub has_id-modify :
    (id : Text) (ws : List SpawnedWorker) (p q : ℕ) (f : SpawnedWorker → SpawnedWorker)
    → ((w : SpawnedWorker) → (f w).id ≡ w.id)
    → has_id id (modify ws p f) q ≡ has_id id ws q
has_id-modify id [] p q f h = refl
has_id-modify id (w ∷ ws) zero zero f h = ap (λ i. text_eq i id) (h w)
has_id-modify id (w ∷ ws) zero (suc q) f h = refl
has_id-modify id (w ∷ ws) (suc p) zero f h = refl
has_id-modify id (w ∷ ws) (suc p) (suc q) f h = has_id-modify id ws p q f h

pub has_id-append :
    (id : Text) (ws : List SpawnedWorker) (w : SpawnedWorker) (p : ℕ)
    → p < length ws
    → has_id id (ws ++ w ∷ []) p ≡ has_id id ws p
has_id-append id [] w p h = absurd (omega arith)
has_id-append id (v ∷ ws) w zero h = refl
has_id-append id (v ∷ ws) w (suc p) h = has_id-append id ws w p (omega arith)

pub has_id-append_last :
    (id : Text) (ws : List SpawnedWorker) (w : SpawnedWorker)
    → has_id id (ws ++ w ∷ []) (length ws) ≡ text_eq w.id id
has_id-append_last id [] w = refl
has_id-append_last id (v ∷ ws) w = has_id-append_last id ws w

count_cong : (p q : ℕ → Bool) (l : List ℕ) → All (λ x. p x ≡ q x) l → count_if p l ≡ count_if q l
count_cong p q [] h = refl
count_cong p q (x ∷ l) h = ground (arith, count_cong p q l h.1)

All-mono : (P Q : ℕ → Type 0) (l : List ℕ) → ((x : ℕ) → P x → Q x) → All P l → All Q l
All-mono P Q [] f h = tt
All-mono P Q (x ∷ l) f h = (f x h.0, All-mono P Q l f h.1)

All-of : (P : ℕ → Type 0) (l : List ℕ) → ((x : ℕ) → P x) → All P l
All-of P [] f = tt
All-of P (x ∷ l) f = (f x, All-of P l f)

pub any-count : (p : ℕ → Bool) (l : List ℕ) → any p l ≡ false → count_if p l ≡ 0
any-count p [] h = refl
any-count p (x ∷ l) h = ground (arith, any-count p l)

-- Recording an event changes neither the slice nor an ID.
pub record_event-IsWellFormed :
    (now : ℕ) (kind : WorkerEvent) (payload : Payload) (p : ℕ) (r : Registry)
    → IsWellFormed r
    → IsWellFormed (record_event now kind payload p r)
unfolding record_event
record_event-IsWellFormed now kind payload p r h = record {
  valid = rw (length-modify r.objects p (with_event now kind payload)) h.valid;
  unique = λ id. omega (
    arith,
    h.unique id,
    count_cong (has_id id (modify r.objects p (with_event now kind payload))) (has_id id r.objects)
        r.workers
        (All-of
          (λ q.
            has_id id (modify r.objects p (with_event now kind payload)) q ≡ has_id id r.objects q)
          r.workers
          (λ q. has_id-modify id r.objects p q (with_event now kind payload) (λ w. refl))),
  );
}

count-with_worker :
    (conf : WorkerSpawnConfig) (r : Registry) (id : Text)
    → IsWellFormed r
    → count_if (has_id id (with_worker conf r).objects) (with_worker conf r).workers
      ≡ count_if (has_id id r.objects) r.workers
        + elim (text_eq conf.worker_id id) [ true ↦ 1 | false ↦ 0 ]
count-with_worker conf r id h = ground (
  arith,
  count_if-append (has_id id (r.objects ++ new_worker conf ∷ [])) r.workers (length r.objects ∷ []),
  count_cong (has_id id (r.objects ++ new_worker conf ∷ [])) (has_id id r.objects) r.workers (
      All-mono (λ p. p < length r.objects)
        (λ p. has_id id (r.objects ++ new_worker conf ∷ []) p ≡ has_id id r.objects p) r.workers
        (λ p. has_id-append id r.objects (new_worker conf) p) h.valid),
  has_id-append_last id r.objects (new_worker conf),
)

-- Registering a worker whose ID no worker of the slice has.
pub with_worker-IsWellFormed :
    (conf : WorkerSpawnConfig) (r : Registry)
    → any (has_id conf.worker_id r.objects) r.workers ≡ false
    → IsWellFormed r
    → IsWellFormed (with_worker conf r)
with_worker-IsWellFormed conf r e h = record {
  valid =
      All-append (λ p. p < length (with_worker conf r).objects) r.workers (length r.objects ∷ [])
        (All-mono (λ p. p < length r.objects) (λ p. p < length (with_worker conf r).objects)
          r.workers (λ p l. omega (arith, length-append r.objects (new_worker conf ∷ []))) h.valid)
        (omega (arith, length-append r.objects (new_worker conf ∷ [])), tt);
  unique = λ id. elim (Bool-cases (text_eq conf.worker_id id)) [
    | inl same ↦ ground (
      arith,
      count-with_worker conf r id h,
      any-count (has_id conf.worker_id r.objects) r.workers e,
      ap (λ i. count_if (has_id i r.objects) r.workers) ((text_eq_iff conf.worker_id id).0 same),
    )
    | inr other ↦ ground (arith, count-with_worker conf r id h, h.unique id)
  ];
}

count-remove_first-le :
    (id id' : Text) (objects : List SpawnedWorker) (l : List ℕ)
    → count_if (has_id id' objects) (remove_first id objects l) ≤ count_if (has_id id' objects) l
unfolding remove_first
count-remove_first-le id id' objects [] = omega arith
count-remove_first-le id id' objects (p ∷ l) =
    ground (arith, count-remove_first-le id id' objects l)

pub count-remove_first :
    (id : Text) (objects : List SpawnedWorker) (l : List ℕ)
    → count_if (has_id id objects) (remove_first id objects l) ≡ count_if (has_id id objects) l - 1
unfolding remove_first
count-remove_first id objects [] = refl
count-remove_first id objects (p ∷ l) = ground (arith, count-remove_first id objects l)

All-remove_first :
    (P : ℕ → Type 0) (id : Text) (objects : List SpawnedWorker) (l : List ℕ)
    → All P l
    → All P (remove_first id objects l)
unfolding remove_first
All-remove_first P id objects [] h = tt
All-remove_first P id objects (p ∷ l) h = elim (Bool-cases (has_id id objects p)) [
  | inl e ↦ rw e h.1
  | inr e ↦ rw e (h.0, All-remove_first P id objects l h.1)
]

pub remove_worker-IsWellFormed :
    (id : Text) (r : Registry) → IsWellFormed r → IsWellFormed (remove_worker id r).1
unfolding remove_worker
remove_worker-IsWellFormed id r h = elim (Bool-cases (any (has_id id r.objects) r.workers)) [
  | inl e ↦ rw e (record {
    valid = All-remove_first (λ p. p < length r.objects) id r.objects r.workers h.valid;
    unique = λ id'. omega (arith, count-remove_first-le id id' r.objects r.workers, h.unique id');
  })
  | inr e ↦ rw e h
]
