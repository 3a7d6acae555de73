-- ===== src/Scheduler/Chains.antt =====
-- Rolling chains: `alarmRowsAreChained` of scheduler.go, and the chains of a sorted list of rows as
-- docs/scheduling-system-desc.md describes them.
use aws_demo.Base.{
  ◌≡◌, refl, Bool, true, false, not, ◌&&◌, List, [], ◌∷◌, ◌++◌, map, Option, none, some, Result, ok,
  err, if◌then◌else◌, ◌≢◌, ltb, leb, All, Bool-cases, inl, inr, concat, last, last-append,
  append_assoc,
}
use aws_demo.Text.{text_eq}
use aws_demo.Clock.{Instant, parse_received_at, chain_window, sub}
use aws_demo.Scheduler.Store.{AlarmRow, Error, bad_received_at}

-- !nextTime.Before(previousTime) && nextTime.Sub(previousTime) <= chainWindow
abbrev pub within_window : Instant → Instant → Bool
within_window previous next = not (ltb next previous) && leb (sub next previous) chain_window

chained_times : AlarmRow → AlarmRow → Option Instant → Option Instant → Result Error Bool
chained_times previous next none u = err (bad_received_at previous.id previous.received_at)
chained_times previous next (some t) none = err (bad_received_at next.id next.received_at)
chained_times previous next (some t) (some u) = ok (within_window t u)

-- alarmRowsAreChained
unfoldable pub alarm_rows_are_chained : AlarmRow → AlarmRow → Result Error Bool
unfolding chained_times
alarm_rows_are_chained previous next =
    chained_times previous next (parse_received_at previous.received_at)
      (parse_received_at next.received_at)

-- A row whose time can be read.
abbrev pub IsTimed : AlarmRow → Type 0
IsTimed row = parse_received_at row.received_at ≢ none

abbrev pub is_ok_true : Result Error Bool → Bool
is_ok_true (ok b) = b
is_ok_true (err e) = false

-- Two neighbours belong to one chain: one account, and at most an hour from one to the next.
unfoldable pub linked : AlarmRow → AlarmRow → Bool
linked previous next =
    text_eq previous.aws_account_number next.aws_account_number
    && is_ok_true (alarm_rows_are_chained previous next)

pub record Chain : Type 0 where
  pub first : AlarmRow
  pub rest : List AlarmRow

abbrev pub rows : Chain → List AlarmRow
rows c = c.first ∷ c.rest

abbrev pub newest : Chain → AlarmRow
newest c = last c.first c.rest

-- A row goes to the chain of the row after it, or makes a chain of its own.
unfoldable pub attach : AlarmRow → List Chain → List Chain
attach row [] = record { first = row; rest = [] } ∷ []
attach row (c ∷ cs) =
    if linked row c.first
    then record { first = row; rest = c.first ∷ c.rest } ∷ cs
    else record { first = row; rest = [] } ∷ c ∷ cs

-- The chains of a list of rows, from its end.
unfoldable pub chains : List AlarmRow → List Chain
unfolding attach
chains [] = []
chains (row ∷ later) = attach row (chains later)

-- All neighbours of a list are linked.
abbrev pub IsLinked : AlarmRow → List AlarmRow → Type 0
IsLinked r [] = Unit
IsLinked r (n ∷ more) = (linked r n ≡ true) × IsLinked n more

-- The first row of a chain is not linked to the row before it.
abbrev pub IsMaximal : List Chain → Type 0
IsMaximal [] = Unit
IsMaximal (c ∷ []) = Unit
IsMaximal (c ∷ d ∷ cs) = (linked (newest c) d.first ≡ false) × IsMaximal (d ∷ cs)

attach-concat :
    (row : AlarmRow) (cs : List Chain)
    → concat (map rows (attach row cs)) ≡ row ∷ concat (map rows cs)
unfolding attach
attach-concat row [] = refl
attach-concat row (c ∷ cs) = elim (Bool-cases (linked row c.first)) [ inl e ↦ rw e | inr e ↦ rw e ]

pub chains-concat : (l : List AlarmRow) → concat (map rows (chains l)) ≡ l
unfolding chains
chains-concat [] = refl
chains-concat (row ∷ l) = rw (attach-concat row (chains l), chains-concat l)

attach-IsLinked :
    (row : AlarmRow) (cs : List Chain)
    → All (λ c. IsLinked c.first c.rest) cs
    → All (λ c. IsLinked c.first c.rest) (attach row cs)
unfolding attach
attach-IsLinked row [] h = (tt, tt)
attach-IsLinked row (c ∷ cs) h = elim (Bool-cases (linked row c.first)) [
  | inl e ↦ rw e ((e, h.0), h.1)
  | inr e ↦ rw e (tt, h)
]

pub chains-IsLinked : (l : List AlarmRow) → All (λ c. IsLinked c.first c.rest) (chains l)
unfolding chains
chains-IsLinked [] = tt
chains-IsLinked (row ∷ l) = attach-IsLinked row (chains l) (chains-IsLinked l)

attach-IsMaximal : (row : AlarmRow) (cs : List Chain) → IsMaximal cs → IsMaximal (attach row cs)
unfolding attach
attach-IsMaximal row [] h = tt
attach-IsMaximal row (c ∷ []) h = elim (Bool-cases (linked row c.first)) [
  | inl e ↦ rw e tt
  | inr e ↦ rw e (e, tt)
]
attach-IsMaximal row (c ∷ d ∷ cs) h = elim (Bool-cases (linked row c.first)) [
  | inl e ↦ rw e h
  | inr e ↦ rw e (e, h)
]

pub chains-IsMaximal : (l : List AlarmRow) → IsMaximal (chains l)
unfolding chains
chains-IsMaximal [] = tt
chains-IsMaximal (row ∷ l) = attach-IsMaximal row (chains l) (chains-IsMaximal l)

-- A chain that is being built, and the chains of the rows that follow.
unfoldable pub absorb : Chain → List Chain → List Chain
absorb c [] = c ∷ []
absorb c (d ∷ ds) =
    if linked (newest c) d.first
    then record { first = c.first; rest = c.rest ++ d.first ∷ d.rest } ∷ ds
    else c ∷ d ∷ ds

pub absorb-single :
    (row : AlarmRow) (cs : List Chain)
    → absorb (record { first = row; rest = [] }) cs ≡ attach row cs
unfolding absorb attach
absorb-single row [] = refl
absorb-single row (c ∷ cs) = refl

abbrev pub extend : Chain → AlarmRow → Chain
extend c row = record { first = c.first; rest = c.rest ++ row ∷ [] }

-- The next row goes to the chain that is being built, if it is linked to it ...
pub absorb-linked :
    (c : Chain) (row : AlarmRow) (cs : List Chain)
    → linked (newest c) row ≡ true
    → absorb c (attach row cs) ≡ absorb (extend c row) cs
unfolding absorb attach
absorb-linked c row [] h = rw h
absorb-linked c row (d ∷ ds) h = elim (Bool-cases (linked row d.first)) [
  | inl e ↦ rw (last-append c.first c.rest row, e) (rw h (rw append_assoc refl))
  | inr e ↦ rw (last-append c.first c.rest row, e) (rw h refl)
]

-- ... and begins another one, if it is not.
pub absorb-broken :
    (c : Chain) (row : AlarmRow) (cs : List Chain)
    → linked (newest c) row ≡ false
    → absorb c (attach row cs) ≡ c ∷ attach row cs
unfolding absorb attach
absorb-broken c row [] h = rw h
absorb-broken c row (d ∷ ds) h = elim (Bool-cases (linked row d.first)) [
  | inl e ↦ rw e (rw h)
  | inr e ↦ rw e (rw h)
]

-- A change of rows that links do not see changes the chains row by row.
abbrev pub map_chain : (AlarmRow → AlarmRow) → Chain → Chain
map_chain f c = record { first = f c.first; rest = map f c.rest }

module _ (f : AlarmRow → AlarmRow)
    (blind : (a b : AlarmRow) → linked (f a) (f b) ≡ linked a b) where
  attach-map :
      (row : AlarmRow) (cs : List Chain)
      → attach (f row) (map (map_chain f) cs) ≡ map (map_chain f) (attach row cs)
  unfolding attach
  attach-map row [] = refl
  attach-map row (c ∷ cs) =
      rw blind (elim (Bool-cases (linked row c.first)) [ inl e ↦ rw e | inr e ↦ rw e ])

  pub chains-map : (l : List AlarmRow) → chains (map f l) ≡ map (map_chain f) (chains l)
  unfolding chains
  chains-map [] = refl
  chains-map (row ∷ l) = rw (chains-map l) (attach-map row (chains l))
