-- ===== src/Scheduler/Store/Rules.antt =====
-- How a chain of driver calls is reasoned about: `Runs H m d v d'` is the contract of a program `m`
-- on the tables `d` of the open transaction. Whatever the driver answers, a program that returns has returned `v` and left `d'`;
-- and where `H` holds and no fault is to come, it does return.
use aws_demo.Base.{◌≡◌, refl, ap, ◌∙◌, Bool, true, false, List, [], ◌∷◌, Result, ok, err, All}
use aws_demo.Scheduler.Store.{Db, Error, Session, Tx, pure, lift, continue, ◌>>=◌, call, query}

abbrev pub Healthy : List Bool → Type 0
Healthy = All (λ fault. fault ≡ false)

-- What a run of the whole transaction leaves committed.
abbrev pub Outcome : {A : Type 0} → Type 0 → A → Db → Result Error A × Session → Type 0
Outcome H v d (ok a, s) = (a ≡ v) × (s.db ≡ d) × (H → Healthy s.faults)
Outcome H v d (err e, s) = ¬ H

-- What a part of it leaves in the open transaction.
abbrev pub Progress : {A : Type 0} → Type 0 → A → Db → Result Error A × Session → Type 0
Progress H v d (ok a, s) = (a ≡ v) × (s.pending ≡ d) × (H → Healthy s.faults)
Progress H v d (err e, s) = ¬ H

pub record Runs {A : Type 0} (H : Type 0) (m : Tx A) (d : Db) (v : A) (d' : Db) : Type 0 where
  pub at : (s : Session) → s.pending ≡ d → (H → Healthy s.faults) → Progress H v d' (m s)

module _ {H A : Type 0} where
  pub Runs-pure : (v : A) (d : Db) → Runs H (pure v) d v d
  Runs-pure v d = record { at = λ s e h. (refl, e, h) }

  call-Progress :
      (faults : List Bool) (f : Db → A × Db) (d : Db) (s : Session)
      → s.pending ≡ d
      → (H → Healthy faults)
      → s.faults ≡ faults
      → Progress H (f d).0 (f d).1 (call faults f s)
  unfolding call
  call-Progress [] f d s e h same = (ap (λ x. (f x).0) e, ap (λ x. (f x).1) e, λ k. rw same tt)
  call-Progress (true ∷ later) f d s e h same = λ k. cc ((h k).0)
  call-Progress (false ∷ later) f d s e h same =
      (ap (λ x. (f x).0) e, ap (λ x. (f x).1) e, λ k. (h k).1)

  pub Runs-query : (f : Db → A × Db) (d : Db) → Runs H (query f) d (f d).0 (f d).1
  unfolding query
  Runs-query f d = record { at = λ s e h. call-Progress s.faults f d s e h refl }

module _ {H A B : Type 0} where
  continue-Progress :
      (r : Result Error A × Session) (f : A → Tx B) (d d' : Db) (v : A) (w : B)
      → Progress H v d r
      → Runs H (f v) d w d'
      → Progress H w d' (continue r.0 f r.1)
  continue-Progress (ok a, s) f d d' v w o next = rw o.0 (next.at s o.1 o.2)
  continue-Progress (err e, s) f d d' v w o next = o

  pub Runs-bind :
      {m : Tx A} {d d₁ d₂ : Db} {v : A} {w : B} (f : A → Tx B)
      → Runs H m d v d₁
      → Runs H (f v) d₁ w d₂
      → Runs H (m >>= f) d w d₂
  unfolding ◌>>=◌
  Runs-bind {m} {d} {d₁} {d₂} {v} {w} f first next = record {
    at = λ s e h. continue-Progress (m s) f d₁ d₂ v w (first.at s e h) next;
  }

  -- A step that only computes, and may fail where `H` does not hold.
  pub Runs-lift :
      (r : Result Error A) (f : A → Tx B) {d d' : Db} {w : B}
      → ((a : A) → r ≡ ok a → Runs H (f a) d w d')
      → ((e : Error) → r ≡ err e → ¬ H)
      → Runs H (lift r >>= f) d w d'
  unfolding ◌>>=◌
  Runs-lift (ok a) f good bad = record { at = λ s e h. (good a refl).at s e h }
  Runs-lift (err x) f good bad = record { at = λ s e h. bad x refl }

module _ {H A : Type 0} where
  -- The contract read with an equal value and equal tables.
  pub Runs-eq :
      {m : Tx A} {d d₁ d₂ : Db} {v w : A} → v ≡ w → d₁ ≡ d₂ → Runs H m d v d₁ → Runs H m d w d₂
  Runs-eq p q r = rw (← p, ← q) r

-- A program that leaves what is committed as it was, however it ends.
pub record Frames {A : Type 0} (m : Tx A) : Type 0 where
  pub at : (s : Session) → (m s).1.db ≡ s.db

module _ {A : Type 0} where
  pub pure-Frames : (a : A) → Frames (pure a)
  pure-Frames a = record { at = λ s. refl }

  call-db : (faults : List Bool) (f : Db → A × Db) (s : Session) → (call faults f s).1.db ≡ s.db
  unfolding call
  call-db [] f s = refl
  call-db (true ∷ later) f s = refl
  call-db (false ∷ later) f s = refl

  pub query-Frames : (f : Db → A × Db) → Frames (query f)
  unfolding query
  query-Frames f = record { at = λ s. call-db s.faults f s }

module _ {A B : Type 0} where
  continue-db :
      (r : Result Error A × Session) (f : A → Tx B)
      → ((a : A) → Frames (f a))
      → (continue r.0 f r.1).1.db ≡ r.1.db
  continue-db (ok a, s) f h = (h a).at s
  continue-db (err e, s) f h = refl

  pub bind-Frames :
      (m : Tx A) (f : A → Tx B) → Frames m → ((a : A) → Frames (f a)) → Frames (m >>= f)
  unfolding ◌>>=◌
  bind-Frames m f first next = record { at = λ s. continue-db (m s) f next ∙ first.at s }

  pub lift-Frames :
      (r : Result Error A) (f : A → Tx B) → ((a : A) → Frames (f a)) → Frames (lift r >>= f)
  unfolding ◌>>=◌
  lift-Frames (ok a) f next = record { at = λ s. (next a).at s }
  lift-Frames (err e) f next = record { at = λ s. refl }
