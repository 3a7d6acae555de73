-- ===== src/Clock.antt =====
-- Instants as the scheduler reads them: `parseReceivedAt` and `chainWindow` of
-- conductor-and-worker/conductor/go-conductor/go-db-scheduler/scheduler.go, over the part of the
-- package `time` that they use: `time.Parse` at the two layouts "2006-01-02 15:04:05" and RFC 3339,
-- with its leniency (a one-digit hour, a fraction of a second that the layout does not name, any
-- number of spaces), the order of instants, and `Sub` with its saturation.
use aws_demo.Base.{
  ℕ, zero, suc, ◌+◌, ◌-◌, ◌*◌, ◌/◌, ◌%◌, ◌^◌, ◌≡◌, refl, Bool, true, false, not, ◌&&◌, ◌||◌, [],
  ◌∷◌, Option, none, some, if◌then◌else◌, ◌==◌, leb, ltb, drop, length, take,
}
use aws_demo.Text.{Text, codes}
use Prim.Native.Nat.{min}

-- Nanoseconds since 100,000 seconds before the start of year 0, UTC: no offset makes it negative.
abbrev pub Instant : Type 0
Instant = ℕ

infixl 5 ◌>>=◌
abbrev ◌>>=◌ {ℓ κ} : {A : Type ℓ} {B : Type κ} → Option A → (A → Option B) → Option B
none >>= f = none
some a >>= f = f a

abbrev guard : Bool → Option (Unit {0})
guard true = some tt
guard false = none

infixl 5 ◌>>◌
abbrev ◌>>◌ {ℓ} : {B : Type ℓ} → Option (Unit {0}) → Option B → Option B
m >> k = m >>= λ _. k

is_digit : ℕ → Bool
is_digit c = leb b'0' c && leb c b'9'

-- isDigit(value, 0)
starts_with_digit : Text → Bool
unfolding is_digit
starts_with_digit [] = false
starts_with_digit (c ∷ s) = is_digit c

-- atoi on a text of digits
digits_value : ℕ → Text → Option ℕ
unfolding is_digit
digits_value n [] = some n
digits_value n (c ∷ s) =
    let rest = digits_value (n * 10 + (c - b'0')) s in if is_digit c then rest else none

-- getnum: one or two digits, or exactly two
get_num : Bool → Text → Option (ℕ × Text)
unfolding is_digit
get_num fixed [] = none
get_num fixed (a ∷ []) = if is_digit a && not fixed then some (a - b'0', []) else none
get_num fixed (a ∷ b ∷ s) =
    if is_digit a
    then (if is_digit b
        then some ((a - b'0') * 10 + (b - b'0'), s)
        else if fixed
        then none
        else some (a - b'0', b ∷ s))
    else none

-- the literal text of a layout between two fields: one character, not a space
skip : ℕ → Text → Option Text
skip c [] = none
skip c (d ∷ s) = if c == d then some s else none

cut_space : Text → Text
cut_space [] = []
cut_space (c ∷ s) = let rest = cut_space s in if c == 32 then rest else c ∷ s

-- a space in the layout: at least one space, unless the value has ended
skip_space : Text → Option Text
unfolding cut_space
skip_space [] = some []
skip_space (c ∷ s) = if c == 32 then some (cut_space s) else none

-- stdLongYear
get_year : Text → Option (ℕ × Text)
unfolding digits_value
get_year s =
    if leb 4 (length s) then (do y ← digits_value 0 (take 4 s); some (y, drop 4 s)) else none

span_digits : Text → Text × Text
unfolding is_digit
span_digits [] = ([], [])
span_digits (c ∷ s) =
    let rest = span_digits s in if is_digit c then (c ∷ rest.0, rest.1) else ([], c ∷ s)

-- parseNanoseconds: at most nine digits count
nanoseconds : Text → Option ℕ
unfolding digits_value
nanoseconds ds = do n ← digits_value 0 (take 9 ds); some (n * 10 ^ (9 - length (take 9 ds)))

-- the fraction that may follow the seconds
get_fraction : Text → Option (ℕ × Text)
unfolding starts_with_digit span_digits nanoseconds
get_fraction [] = some (0, [])
get_fraction (c ∷ s) =
    if (c == b'.' || c == b',') && starts_with_digit s
    then (do n ← nanoseconds (span_digits s).0; some (n, (span_digits s).1))
    else some (0, c ∷ s)

is_leap : ℕ → Bool
is_leap y = y % 4 == 0 && (not (y % 100 == 0) || y % 400 == 0)

days_in : ℕ → ℕ → ℕ
unfolding is_leap
days_in m y =
    if m == 2
    then (if is_leap y then 29 else 28)
    else if m == 4 || m == 6 || m == 9 || m == 11
    then 30
    else 31

-- the days of the months before the month `m + 1`
days_before : ℕ → ℕ → ℕ
unfolding days_in
days_before zero y = 0
days_before (suc m) y = days_before m y + days_in (suc m) y

-- the days from 1 January of year 0 to a date
day_number : ℕ → ℕ → ℕ → ℕ
unfolding days_before
day_number y m d =
    365 * y + (y + 3) / 4 - (y + 99) / 100 + (y + 399) / 400 + days_before (m - 1) y + (d - 1)

abbrev Fields : Type 0
Fields = record { seconds : ℕ; nanos : ℕ }

-- Seconds since the start of year 0, and nanoseconds; the flag says whether `T` or a space parts
-- the date from the time.
get_date_time : Bool → Text → Option (Fields × Text)
unfolding get_year get_num skip skip_space get_fraction day_number
get_date_time with_t s = do
  (y, s) ← get_year s
  s ← skip b'-' s
  (m, s) ← get_num true s
  guard (leb 1 m && leb m 12)
  s ← skip b'-' s
  (d, s) ← get_num true s
  s ← if with_t then skip b'T' s else skip_space s
  (h, s) ← get_num false s
  guard (ltb h 24)
  s ← skip b':' s
  (mi, s) ← get_num true s
  guard (ltb mi 60)
  s ← skip b':' s
  (se, s) ← get_num true s
  guard (ltb se 60)
  (ns, s) ← get_fraction s
  guard (leb 1 d && leb d (days_in m y))
  some (record { seconds = day_number y m d * 86400 + h * 3600 + mi * 60 + se; nanos = ns }, s)

-- "Z07:00": the seconds to add to get from local time to UTC, with the base of `Instant` added
get_zone : Text → Option ℕ
unfolding get_num skip
get_zone [] = none
get_zone (c ∷ s) = if c == b'Z' then (if length s == 0 then some 100000 else none) else do
  (hr, s) ← get_num true s
  s ← skip b':' s
  (mm, s) ← get_num true s
  guard (leb hr 24 && leb mm 60 && length s == 0)
  if c == b'+'
      then some (100000 - (hr * 60 + mm) * 60)
      else if c == b'-'
      then some (100000 + (hr * 60 + mm) * 60)
      else none

-- time.ParseInLocation("2006-01-02 15:04:05", value, time.UTC)
parse_sqlite_time : Text → Option Instant
unfolding get_date_time
parse_sqlite_time value = do
  (f, rest) ← get_date_time false value
  if length rest == 0 then some ((f.seconds + 100000) * 10 ^ 9 + f.nanos) else none

-- time.Parse(time.RFC3339, value)
unfoldable pub parse_rfc3339 : Text → Option Instant
unfolding get_date_time get_zone
parse_rfc3339 value = do
  (f, rest) ← get_date_time true value
  shift ← get_zone rest
  some ((f.seconds + shift) * 10 ^ 9 + f.nanos)

unfoldable pub parse_received_at : Text → Option Instant
unfolding parse_sqlite_time parse_rfc3339
parse_received_at value = elim (parse_sqlite_time value) [
  | some t ↦ some t
  | none ↦ parse_rfc3339 value
]

-- const chainWindow = time.Hour
abbrev pub chain_window : ℕ
chain_window = 3600 * 10 ^ 9

-- `t.Sub(u)` for `u` not after `t`: a duration is an int64, and saturates
abbrev pub sub : Instant → Instant → ℕ
sub t u = min (t - u) (2 ^ 63 - 1)

parses_sqlite : parse_received_at (codes "2026-05-12 20:00:00") ≡ some 63945935200000000000
unfolding parse_received_at
parses_sqlite = refl

-- The same instant with an offset, and malformed values.
parses_more :
    (parse_received_at (codes "2026-05-12T13:00:00-07:00") ≡ some 63945935200000000000)
    × (parse_received_at (codes "2026-05-12 20:00:00.25") ≡ some 63945935200250000000)
    × (parse_received_at (codes "2026-02-29 20:00:00") ≡ none)
    × (parse_received_at (codes "yesterday") ≡ none)
unfolding parse_received_at
parses_more = (refl, refl, refl, refl)
