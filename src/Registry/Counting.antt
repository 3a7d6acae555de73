-- ===== src/Registry/Counting.antt =====
-- How the count of getNumActiveWorkers changes when a worker ends.
use aws_demo.Base.{
  ℕ, zero, suc, ◌+◌, ◌≤◌, ◌≡◌, refl, sym, ap, ◌∙◌, Bool, true, false, not, List, [], ◌∷◌, some,
  count_if, arith, Bool-cases, inl, inr,
}
use aws_demo.Text.{Text}
use aws_demo.Registry.{
  WorkerEvent, safely_ended, Payload, SpawnedWorker, Registry, modify, has_id, has_event_at,
  with_event, find_worker, get_worker, record_event, remove_first, remove_worker,
  get_num_active_workers,
}
use aws_demo.Registry.Invariant.{IsWellFormed, has_id-modify}
use aws_demo.Registry.Lookup.{removed}

abbrev active : List SpawnedWorker → ℕ → Bool
active ws p = not (has_event_at safely_ended ws p)

module _ (id : Text) (f : SpawnedWorker → SpawnedWorker) where
  active-modify_other :
      (ws : List SpawnedWorker) (p q : ℕ)
      → has_id id ws p ≡ true
      → has_id id ws q ≡ false
      → active (modify ws p f) q ≡ active ws q
  active-modify_other [] p q hp hq = refl
  active-modify_other (w ∷ ws) zero zero hp hq = absurd (cc (sym hp ∙ hq))
  active-modify_other (w ∷ ws) zero (suc q) hp hq = refl
  active-modify_other (w ∷ ws) (suc p) zero hp hq = refl
  active-modify_other (w ∷ ws) (suc p) (suc q) hp hq = active-modify_other ws p q hp hq

  -- A change of a worker that is not in the list.
  count-modify_absent :
      (ws : List SpawnedWorker) (p : ℕ) (l : List ℕ)
      → has_id id ws p ≡ true
      → count_if (has_id id ws) l ≡ 0
      → count_if (active (modify ws p f)) l ≡ count_if (active ws) l
  count-modify_absent ws p [] hp none_left = refl
  count-modify_absent ws p (q ∷ l) hp none_left = elim (Bool-cases (has_id id ws q)) [
    | inl e ↦ absurd (ground (arith, none_left, e))
    | inr e ↦
        ground (arith, e, none_left, active-modify_other ws p q hp e, count-modify_absent ws p l hp)
  ]

  -- A worker that was active, and is changed and removed, is one active worker less.
  count-remove_first :
      (ws : List SpawnedWorker) (p : ℕ) (l : List ℕ)
      → ((q : ℕ) → has_id id (modify ws p f) q ≡ has_id id ws q)
      → find_worker id ws l ≡ some p
      → has_id id ws p ≡ true
      → active ws p ≡ true
      → count_if (has_id id ws) l ≤ 1
      → count_if (active (modify ws p f)) (remove_first id (modify ws p f) l) + 1
        ≡ count_if (active ws) l
  unfolding find_worker remove_first
  count-remove_first ws p [] same found hp alive unique = absurd (cc found)
  count-remove_first ws p (q ∷ l) same found hp alive unique = elim (Bool-cases (has_id id ws q)) [
    | inl e ↦
        let here : q ≡ p = cc (rw e at found) in
        let absent : count_if (has_id id ws) l ≡ 0 = ground (arith, e, unique) in
        let counted : active ws q ≡ true = ap (active ws) here ∙ alive in
        rw (same q, e) (ground (arith, counted, count-modify_absent ws p l hp absent))
    | inr e ↦
        let later : find_worker id ws l ≡ some p = rw e at found in
        let fewer : count_if (has_id id ws) l ≤ 1 = ground (arith, e, unique) in
        rw (same q, e)
          (ground (
            arith,
            active-modify_other ws p q hp e,
            count-remove_first ws p l same later hp alive fewer,
          ))
  ]

  find-has_id :
      (ws : List SpawnedWorker) (l : List ℕ) (p : ℕ)
      → find_worker id ws l ≡ some p
      → has_id id ws p ≡ true
  unfolding find_worker
  find-has_id ws [] p found = absurd (cc found)
  find-has_id ws (q ∷ l) p found = elim (Bool-cases (has_id id ws q)) [
    | inl e ↦ let here : q ≡ p = cc (rw e at found) in sym (ap (has_id id ws) here) ∙ e
    | inr e ↦ find-has_id ws l p (rw e at found)
  ]

-- Once an active worker has ended, one worker less is active.
pub get_num_active_workers-removed :
    (now : ℕ) (kind : WorkerEvent) (payload : Payload) (id : Text) (p : ℕ) (r : Registry)
    → IsWellFormed r
    → get_worker id r ≡ some p
    → has_event_at safely_ended r.objects p ≡ false
    → get_num_active_workers (remove_worker id (record_event now kind payload p r)).1 + 1
      ≡ get_num_active_workers r
unfolding get_num_active_workers get_worker record_event
get_num_active_workers-removed now kind payload id p r sound found alive =
    rw (removed now kind payload id p r found) (
      count-remove_first id (with_event now kind payload) r.objects p r.workers
        (λ q. has_id-modify id r.objects p q (with_event now kind payload) (λ w. refl)) found
        (find-has_id id (with_event now kind payload) r.objects r.workers p found) (ap not alive)
        (sound.unique id))
