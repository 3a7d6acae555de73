-- ===== src/Poller/Settings/Numbers.antt =====
-- What the poller's settings are for any value of their variables: int32FromEnv and
-- NewTicketCloudWatchSQSPoller of poll.go.
use mathlib.Core.Path.{subst}
use aws_demo.Base.{
  ℕ, zero, suc, ◌+◌, ◌≡◌, refl, ap, ◌∙◌, Bool, true, false, [], ◌∷◌, Option, none, some, ok, ◌==◌,
  leb, ltb, if◌then◌else◌, arith, Bool-cases, Option-cases, inl, inr,
}
use native.Mathlib.Numerals.{add-one}
use aws_demo.Text.{Text, codes, is_empty}
use aws_demo.Text.Decimal.{
  decimal, read_digits, read_digits-digits, StartsWithDigit, decimal-StartsWithDigit,
}
use aws_demo.Poller.{getenv_default}
use aws_demo.Poller.Settings.{
  ℤ, pos, negsuc, int32_cutoff, in_int32, parse_uint, positive_in_range, negative_in_range,
  parse_int32, or_fallback, int32_from_env, SqsPoller, new_sqs_poller, default_queue_url,
  PollerEnvironment, new_ticket_cloud_watch_sqs_poller, printed,
}

unsigned : (s : Text) → StartsWithDigit s → parse_int32 s ≡ positive_in_range (read_digits 0 s)
unfolding parse_int32
unsigned [] h = absurd h
unsigned (c ∷ s) h =
    let not_minus : (c == b'-') ≡ false = ground arith in
    let not_plus : (c == b'+') ≡ false = ground arith in rw (not_minus, not_plus) refl

parse_uint-digits : (s : Text) → StartsWithDigit s → parse_uint s ≡ read_digits 0 s
unfolding parse_uint
parse_uint-digits [] h = absurd h
parse_uint-digits (c ∷ s) h = refl

read-decimal : (n : ℕ) → read_digits 0 (decimal n) ≡ some n
unfolding read_digits
read-decimal n = read_digits-digits (n + 1) n [] (omega arith)

parse_int32-printed : (z : ℤ) → parse_int32 (printed z) ≡ (if in_int32 z then some z else none)
unfolding parse_int32
parse_int32-printed (pos n) =
    unsigned (decimal n) (decimal-StartsWithDigit n) ∙ ap positive_in_range (read-decimal n)
parse_int32-printed (negsuc n) =
    ap negative_in_range
      (parse_uint-digits (decimal (n + 1)) (decimal-StartsWithDigit (n + 1)) ∙ read-decimal (n + 1))
    ∙ rw (add-one n) (ground arith)

is_empty-StartsWithDigit : (s : Text) → StartsWithDigit s → is_empty s ≡ false
is_empty-StartsWithDigit [] h = absurd h
is_empty-StartsWithDigit (c ∷ s) h = refl

printed-not_empty : (z : ℤ) → is_empty (printed z) ≡ false
printed-not_empty (pos n) = is_empty-StartsWithDigit (decimal n) (decimal-StartsWithDigit n)
printed-not_empty (negsuc n) = refl

or_fallback-if :
    (fallback z : ℤ) (b : Bool)
    → or_fallback fallback (if b then some z else none) ≡ (if b then z else fallback)
or_fallback-if fallback z true = refl
or_fallback-if fallback z false = refl

-- A variable that holds a number, as the verb %d prints it, sets that number if it is an int32, and the
-- fallback otherwise.
pub int32_from_env-printed :
    (z fallback : ℤ) → int32_from_env (printed z) fallback ≡ (if in_int32 z then z else fallback)
unfolding int32_from_env
int32_from_env-printed z fallback =
    rw (printed-not_empty z, parse_int32-printed z) (or_fallback-if fallback z (in_int32 z))

positive-in_int32 :
    (fallback : ℤ) (o : Option ℕ)
    → in_int32 fallback ≡ true
    → in_int32 (or_fallback fallback (positive_in_range o)) ≡ true
positive-in_int32 fallback none h = h
positive-in_int32 fallback (some n) h = elim (Bool-cases (ltb n int32_cutoff)) [
  | inl e ↦ rw e e
  | inr e ↦ rw e h
]

negative-in_int32 :
    (fallback : ℤ) (o : Option ℕ)
    → in_int32 fallback ≡ true
    → in_int32 (or_fallback fallback (negative_in_range o)) ≡ true
negative-in_int32 fallback none h = h
negative-in_int32 fallback (some zero) h = refl
negative-in_int32 fallback (some (suc n)) h = elim (Bool-cases (leb (suc n) int32_cutoff)) [
  | inl e ↦ rw e (ground arith)
  | inr e ↦ rw e h
]

parsed-in_int32 :
    (value : Text) (fallback : ℤ)
    → in_int32 fallback ≡ true
    → in_int32 (or_fallback fallback (parse_int32 value)) ≡ true
unfolding parse_int32
parsed-in_int32 [] fallback h = h
parsed-in_int32 (c ∷ s) fallback h = elim (Bool-cases (c == b'-')) [
  | inl e ↦ rw e (negative-in_int32 fallback (parse_uint s) h)
  | inr e ↦ elim (Bool-cases (c == b'+')) [
    | inl e' ↦ rw (e, e') (positive-in_int32 fallback (parse_uint s) h)
    | inr e' ↦ rw (e, e') (positive-in_int32 fallback (parse_uint (c ∷ s)) h)
  ]
]

from_env-in_int32 :
    (value : Text) (fallback : ℤ)
    → in_int32 fallback ≡ true
    → in_int32 (int32_from_env value fallback) ≡ true
unfolding int32_from_env
from_env-in_int32 [] fallback h = h
from_env-in_int32 (c ∷ s) fallback h = parsed-in_int32 (c ∷ s) fallback h

-- What the conductor polls with.
pub record IsUsable (p : SqsPoller) : Type 0 where
  pub queue : is_empty p.queue_url ≡ false
  pub region : is_empty p.region ≡ false
  pub wait : in_int32 p.wait_time_seconds ≡ true
  pub visibility : in_int32 p.visibility_timeout_seconds ≡ true

getenv_default-not_empty :
    (value fallback : Text)
    → is_empty fallback ≡ false
    → is_empty (getenv_default value fallback) ≡ false
unfolding getenv_default
getenv_default-not_empty [] fallback h = h
getenv_default-not_empty (c ∷ value) fallback h = refl

new_sqs_poller-ok :
    (config_error : Text → Option Text) (p q : SqsPoller)
    → new_sqs_poller config_error p ≡ ok q
    → p ≡ q
unfolding new_sqs_poller
new_sqs_poller-ok config_error p q h = elim (Bool-cases (is_empty p.queue_url)) [
  | inl e ↦ absurd (cc (rw (new_sqs_poller, e) at h))
  | inr e ↦ elim (Option-cases (config_error p.region)) [
    | inl e' ↦ cc (rw (new_sqs_poller, e, e') at h)
    | inr (x, e') ↦ absurd (cc (rw (new_sqs_poller, e, e') at h))
  ]
]

-- Whatever the variables say, a poller that is made has a queue URL and a region that are not empty,
-- and an int32 for its wait and for its visibility timeout.
pub new_ticket_cloud_watch_sqs_poller-IsUsable :
    (config_error : Text → Option Text) (env : PollerEnvironment) (p : SqsPoller)
    → new_ticket_cloud_watch_sqs_poller config_error env ≡ ok p
    → IsUsable p
unfolding new_ticket_cloud_watch_sqs_poller
new_ticket_cloud_watch_sqs_poller-IsUsable config_error env p h =
    subst IsUsable (new_sqs_poller-ok config_error _ p h) (record {
      queue = getenv_default-not_empty env.queue_url default_queue_url refl;
      region = getenv_default-not_empty env.region (codes "us-west-2") refl;
      wait = from_env-in_int32 env.wait_time_seconds (pos 20) refl;
      visibility = from_env-in_int32 env.visibility_timeout_seconds (pos 60) refl;
    })
