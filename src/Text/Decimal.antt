-- ===== src/Text/Decimal.antt =====
-- Numbers as decimal text: the verb %d of the package fmt, and the digits that strconv.ParseInt reads.
use aws_demo.Base.{
  ℕ, zero, suc, ◌+◌, ◌*◌, ◌/◌, ◌%◌, ◌-◌, ◌<◌, ◌≡◌, refl, ap, ◌∙◌, Bool, true, ◌&&◌, [], ◌∷◌, Option,
  none, some, ◌==◌, leb, if◌then◌else◌, arith, Bool-cases, inl, inr, ==_iff,
}
use native.Mathlib.Numerals.{add-one}
use aws_demo.Text.{Text}

-- The digits of a number before `acc`; the first argument bounds their number.
unfoldable pub digits : ℕ → ℕ → Text → Text
digits zero n acc = acc
digits (suc f) n acc =
    let more = digits f (n / 10) ((48 + n % 10) ∷ acc) in
    if n / 10 == 0 then (48 + n % 10) ∷ acc else more

-- The verb %d
abbrev pub decimal : ℕ → Text
decimal n = digits (n + 1) n []

abbrev pub is_digit : ℕ → Bool
is_digit c = leb b'0' c && leb c b'9'

-- The number that digits denote, behind those that were read.
unfoldable pub read_digits : ℕ → Text → Option ℕ
read_digits n [] = some n
read_digits n (c ∷ s) =
    let rest = read_digits (n * 10 + (c - b'0')) s in if is_digit c then rest else none

read_digits-digit :
    (n m : ℕ) (s : Text) → m < 10 → read_digits n ((48 + m) ∷ s) ≡ read_digits (n * 10 + m) s
unfolding read_digits
read_digits-digit n m s h =
    let digit : is_digit (48 + m) ≡ true = ground arith in
    let same : n * 10 + (48 + m - 48) ≡ n * 10 + m = omega arith in rw (digit, same) refl

pub read_digits-digits :
    (f n : ℕ) (acc : Text) → n < f → read_digits 0 (digits f n acc) ≡ read_digits n acc
unfolding digits
read_digits-digits zero n acc h = absurd (omega arith)
read_digits-digits (suc f) n acc h = elim (Bool-cases (n / 10 == 0)) [
  | inl e ↦
      let small : n / 10 ≡ 0 = (==_iff (n / 10) 0).0 e in
      let same : 0 * 10 + n % 10 ≡ n = omega arith in
      rw e (read_digits-digit 0 (n % 10) acc (omega arith) ∙ ap (λ m. read_digits m acc) same)
  | inr e ↦
      let large : n / 10 < f = ground arith in
      let same : n / 10 * 10 + n % 10 ≡ n = omega arith in
      rw e (
        read_digits-digits f (n / 10) ((48 + n % 10) ∷ acc) large
        ∙ read_digits-digit (n / 10) (n % 10) acc (omega arith)
        ∙ ap (λ m. read_digits m acc) same)
]

-- The text is not empty and starts with a digit.
abbrev pub StartsWithDigit : Text → Type 0
StartsWithDigit [] = ⊥
StartsWithDigit (c ∷ s) = is_digit c ≡ true

digits-StartsWithDigit :
    (f n : ℕ) (acc : Text) → StartsWithDigit acc → StartsWithDigit (digits f n acc)
unfolding digits
digits-StartsWithDigit zero n acc h = h
digits-StartsWithDigit (suc f) n acc h = elim (Bool-cases (n / 10 == 0)) [
  | inl e ↦ rw e (ground arith)
  | inr e ↦ rw e (digits-StartsWithDigit f (n / 10) ((48 + n % 10) ∷ acc) (ground arith))
]

pub decimal-StartsWithDigit : (n : ℕ) → StartsWithDigit (decimal n)
unfolding digits
decimal-StartsWithDigit n = rw (add-one n) (elim (Bool-cases (n / 10 == 0)) [
  | inl e ↦ rw e (ground arith)
  | inr e ↦ rw e (digits-StartsWithDigit n (n / 10) ((48 + n % 10) ∷ []) (ground arith))
])
