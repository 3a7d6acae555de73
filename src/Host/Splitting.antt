-- ===== src/Host/Splitting.antt =====
-- The parts of a path: what split_last, stem and ext make of it, put together again.
use aws_demo.Base.{
  ℕ, ◌+◌, ◌≡◌, ap, false, [], ◌∷◌, ◌++◌, Option, none, some, ◌==◌, if◌then◌else◌, length,
  length-append, All, arith, ==_iff, Bool-cases, Option-cases, inl, inr,
}
use mathlib.Core.Path.{subst}
use aws_demo.Text.{Text}
use aws_demo.Host.Paths.{split_last, stem, ext, trim_slashes}

abbrev pub HasNo : ℕ → Text → Type 0
HasNo k s = All (λ c. (c == k) ≡ false) s

-- The text has no such character, or it is its two parts with the character between them, and the
-- second part has none.
abbrev pub Parts : ℕ → Text → Option (Text × Text) → Type 0
Parts k s none = HasNo k s
Parts k s (some (a, b)) = (s ≡ a ++ (k ∷ b)) × HasNo k b

Parts-cons :
    (k c : ℕ) (s : Text) (o : Option (Text × Text))
    → Parts k s o
    → Parts k
        (c ∷ s)
        (elim o [ some (a, b) ↦ some (c ∷ a, b) | none ↦ if c == k then some ([], s) else none ])
Parts-cons k c s (some (a, b)) h = (ap (λ t. c ∷ t) h.0, h.1)
Parts-cons k c s none h = elim (Bool-cases (c == k)) [
  | inl e ↦ rw e (ap (λ d. d ∷ s) ((==_iff c k).0 e), h)
  | inr e ↦ rw e (e, h)
]

pub split_last-Parts : (k : ℕ) (s : Text) → Parts k s (split_last k s)
unfolding split_last
split_last-Parts k [] = tt
split_last-Parts k (c ∷ s) = Parts-cons k c s (split_last k s) (split_last-Parts k s)

HasNo-prefix : (k : ℕ) (s t : Text) → HasNo k (s ++ t) → HasNo k s
HasNo-prefix k [] t h = tt
HasNo-prefix k (c ∷ s) t h = (h.0, HasNo-prefix k s t h.1)

pub HasNo-stem : (k : ℕ) (name : Text) → HasNo k name → HasNo k (stem name)
unfolding stem
HasNo-stem k name h = elim (Option-cases (split_last b'.' name)) [
  | inl e ↦ subst (HasNo k) (rw (stem, e)) h
  | inr ((a, b), e) ↦
      let whole : name ≡ a ++ (b'.' ∷ b) =
        (subst (Parts b'.' name) e (split_last-Parts b'.' name)).0 in
      subst (HasNo k) (rw (stem, e)) (HasNo-prefix k a (b'.' ∷ b) (subst (HasNo k) whole h))
]

pub length-stem-ext : (name : Text) → length (stem name) + length (ext name) ≡ length name
unfolding stem ext
length-stem-ext name = elim (Option-cases (split_last b'.' name)) [
  | inl e ↦
      let s : stem name ≡ name = rw (stem, e) in
      let x : ext name ≡ [] = rw (ext, e) in omega (arith, ap length s, ap length x)
  | inr ((a, b), e) ↦
      let whole : name ≡ a ++ (b'.' ∷ b) =
        (subst (Parts b'.' name) e (split_last-Parts b'.' name)).0 in
      let s : stem name ≡ a = rw (stem, e) in
      let x : ext name ≡ b'.' ∷ b = rw (ext, e) in
      omega (arith, ap length s, ap length x, ap length whole, length-append a (b'.' ∷ b))
]

pub trim_slashes-HasNo :
    (s t : Text) (c : ℕ)
    → HasNo b'/' s
    → (c == b'/') ≡ false
    → trim_slashes (s ++ (c ∷ t)) ≡ s ++ (c ∷ t)
unfolding trim_slashes
trim_slashes-HasNo [] t c h n = rw n
trim_slashes-HasNo (d ∷ s) t c h n = rw h.0
