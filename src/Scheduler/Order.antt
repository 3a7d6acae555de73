-- ===== src/Scheduler/Order.antt =====
-- The order of rows: `ORDER BY` of the list queries, and the less function that `scheduleAlarms` of
-- scheduler.go gives to `sort.SliceStable`. Both are stable sorts; a row is put before the first
-- row that is not less than it.
use aws_demo.Base.{
  count_if, false, true, ◌≡◌, refl, Bool, not, ◌||◌, List, [], ◌∷◌, map, if◌then◌else◌, ltb, any,
  All, arith, Bool-cases, inl, inr,
}
use aws_demo.Text.{Text, text_eq, text_lt}
use aws_demo.Scheduler.Store.{AlarmRow, TicketRow}
use mathlib.Core.List.{Perm}
use mathlib.Core.List.Perm

module _ {ℓ} {A : Type ℓ} (less : A → A → Bool) where
  unfoldable pub insert : A → List A → List A
  insert x [] = x ∷ []
  insert x (y ∷ ys) = if less y x then y ∷ insert x ys else x ∷ y ∷ ys

  unfoldable pub stable_sort : List A → List A
  unfolding insert
  stable_sort [] = []
  stable_sort (x ∷ xs) = insert x (stable_sort xs)

  insert-perm : (x : A) (xs : List A) → Perm (insert x xs) (x ∷ xs)
  unfolding insert
  insert-perm x [] = Perm.refl (x ∷ [])
  insert-perm x (y ∷ ys) = elim (Bool-cases (less y x)) [
    | inl e ↦ rw e (Perm.trans (Perm.cons y (insert-perm x ys)) (Perm.swap x y ys))
    | inr e ↦ rw e (Perm.refl (x ∷ y ∷ ys))
  ]

  -- Sorting loses no row and makes none up.
  pub stable_sort-perm : (xs : List A) → Perm (stable_sort xs) xs
  unfolding stable_sort
  stable_sort-perm [] = Perm.nil
  stable_sort-perm (x ∷ xs) =
      Perm.trans (insert-perm x (stable_sort xs)) (Perm.cons x (stable_sort-perm xs))

  any-insert : (p : A → Bool) (x : A) (xs : List A) → any p (insert x xs) ≡ (p x || any p xs)
  unfolding insert
  any-insert p x [] = refl
  any-insert p x (y ∷ ys) = ground (arith, any-insert p x ys)

  pub any-stable_sort : (p : A → Bool) (xs : List A) → any p (stable_sort xs) ≡ any p xs
  unfolding stable_sort
  any-stable_sort p [] = refl
  any-stable_sort p (x ∷ xs) = ground (arith, any-insert p x (stable_sort xs), any-stable_sort p xs)

  count_if-insert :
      (p : A → Bool) (x : A) (xs : List A) → count_if p (insert x xs) ≡ count_if p (x ∷ xs)
  unfolding insert
  count_if-insert p x [] = refl
  count_if-insert p x (y ∷ ys) = ground (arith, count_if-insert p x ys)

  pub count_if-stable_sort :
      (p : A → Bool) (xs : List A) → count_if p (stable_sort xs) ≡ count_if p xs
  unfolding stable_sort
  count_if-stable_sort p [] = refl
  count_if-stable_sort p (x ∷ xs) =
      ground (arith, count_if-insert p x (stable_sort xs), count_if-stable_sort p xs)

  All-insert {κ} : (P : A → Type κ) (x : A) (xs : List A) → P x → All P xs → All P (insert x xs)
  unfolding insert
  All-insert P x [] h hs = (h, tt)
  All-insert P x (y ∷ ys) h hs = elim (Bool-cases (less y x)) [
    | inl e ↦ rw e (hs.0, All-insert P x ys h hs.1)
    | inr e ↦ rw e (h, hs)
  ]

  pub All-stable_sort {κ} : (P : A → Type κ) (xs : List A) → All P xs → All P (stable_sort xs)
  unfolding stable_sort
  All-stable_sort P [] hs = tt
  All-stable_sort P (x ∷ xs) hs = All-insert P x (stable_sort xs) hs.0 (All-stable_sort P xs hs.1)

  -- A change of the rows that the order does not see can be made before or after the sorting.
  module _ (f : A → A) (blind : (a b : A) → less (f a) (f b) ≡ less a b) where
    insert-map : (x : A) (xs : List A) → insert (f x) (map f xs) ≡ map f (insert x xs)
    unfolding insert
    insert-map x [] = refl
    insert-map x (y ∷ ys) = ground (arith, blind y x, insert-map x ys)

    pub stable_sort-map : (xs : List A) → stable_sort (map f xs) ≡ map f (stable_sort xs)
    unfolding stable_sort
    stable_sort-map [] = refl
    stable_sort-map (x ∷ xs) = rw (stable_sort-map xs) (insert-map x (stable_sort xs))

-- No row is less than the row before it.
abbrev pub IsSorted {ℓ} : {A : Type ℓ} → (A → A → Bool) → List A → Type 0
IsSorted less [] = Unit
IsSorted less (x ∷ []) = Unit
IsSorted less (x ∷ y ∷ ys) = (less y x ≡ false) × IsSorted less (y ∷ ys)

module _ {ℓ} {A : Type ℓ} (less : A → A → Bool)
    (asym : (a b : A) → less a b ≡ true → less b a ≡ false) where
  insert-after :
      (x y : A) (ys : List A)
      → less y x ≡ true
      → IsSorted less (y ∷ ys)
      → IsSorted less (insert less x ys)
      → IsSorted less (y ∷ insert less x ys)
  unfolding insert
  insert-after x y [] h s r = (asym y x h, tt)
  insert-after x y (z ∷ zs) h s r = elim (Bool-cases (less z x)) [
    | inl e ↦ rw e (s.0, rw e at r)
    | inr e ↦ rw e (asym y x h, rw e at r)
  ]

  tail-IsSorted : (x : A) (xs : List A) → IsSorted less (x ∷ xs) → IsSorted less xs
  tail-IsSorted x [] s = tt
  tail-IsSorted x (y ∷ ys) s = s.1

  insert-IsSorted : (x : A) (xs : List A) → IsSorted less xs → IsSorted less (insert less x xs)
  unfolding insert
  insert-IsSorted x [] s = tt
  insert-IsSorted x (y ∷ ys) s = elim (Bool-cases (less y x)) [
    | inl e ↦ rw e (insert-after x y ys e s (insert-IsSorted x ys (tail-IsSorted y ys s)))
    | inr e ↦ rw e (e, s)
  ]

  pub stable_sort-IsSorted : (xs : List A) → IsSorted less (stable_sort less xs)
  unfolding stable_sort
  stable_sort-IsSorted [] = tt
  stable_sort-IsSorted (x ∷ xs) = insert-IsSorted x (stable_sort less xs) (stable_sort-IsSorted xs)

  stable_sort_sorted : (xs : List A) → IsSorted less xs → stable_sort less xs ≡ xs
  unfolding stable_sort
  stable_sort_sorted [] s = refl
  stable_sort_sorted (x ∷ []) s = refl
  stable_sort_sorted (x ∷ y ∷ ys) s = rw (stable_sort_sorted (y ∷ ys) s.1) (rw s.0)

  -- Sorting sorted rows again changes nothing.
  pub stable_sort_idem :
      (xs : List A) → stable_sort less (stable_sort less xs) ≡ stable_sort less xs
  stable_sort_idem xs = stable_sort_sorted (stable_sort less xs) (stable_sort-IsSorted xs)

pub text_lt_asym : (s t : Text) → text_lt s t ≡ true → text_lt t s ≡ false
unfolding text_lt
text_lt_asym [] [] h = cc
text_lt_asym [] (b ∷ t) h = refl
text_lt_asym (a ∷ s) [] h = cc
text_lt_asym (a ∷ s) (b ∷ t) h = ground (arith, text_lt_asym s t)

text_eq_comm : (s t : Text) → text_eq s t ≡ text_eq t s
unfolding text_eq
text_eq_comm [] [] = refl
text_eq_comm [] (b ∷ t) = refl
text_eq_comm (a ∷ s) [] = refl
text_eq_comm (a ∷ s) (b ∷ t) = ground (arith, text_eq_comm s t)

-- The less function of scheduleAlarms, and ORDER BY aws_account_number, received_at, id.
unfoldable pub alarm_less : AlarmRow → AlarmRow → Bool
alarm_less a b =
    if not (text_eq a.aws_account_number b.aws_account_number)
    then text_lt a.aws_account_number b.aws_account_number
    else if not (text_eq a.received_at b.received_at)
    then text_lt a.received_at b.received_at
    else ltb a.id b.id

-- ORDER BY received_at, id
unfoldable pub ticket_less : TicketRow → TicketRow → Bool
ticket_less a b =
    if not (text_eq a.received_at b.received_at)
    then text_lt a.received_at b.received_at
    else ltb a.id b.id

pub alarm_less_asym : (a b : AlarmRow) → alarm_less a b ≡ true → alarm_less b a ≡ false
unfolding alarm_less
alarm_less_asym a b h = ground (
  arith,
  text_eq_comm a.aws_account_number b.aws_account_number,
  text_eq_comm a.received_at b.received_at,
  text_lt_asym a.aws_account_number b.aws_account_number,
  text_lt_asym a.received_at b.received_at,
)
