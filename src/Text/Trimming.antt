-- ===== src/Text/Trimming.antt =====
-- strings.TrimSpace leaves no space at either end, so trimming twice is trimming once.
use mathlib.Core.List.{reverse, reverse-append, reverse-reverse}
use aws_demo.Base.{◌≤◌, ◌≡◌, refl, sym, ap, ◌∙◌, [], ◌∷◌, ◌++◌, length, arith, Bool-cases, inl, inr}
use aws_demo.Text.{Text, is_space, trim_left, trim_space}

trim_left-suffix : (s : Text) → (pre : Text) × (s ≡ pre ++ trim_left s)
unfolding trim_left
trim_left-suffix [] = ([], refl)
trim_left-suffix (c ∷ s) = elim (Bool-cases (is_space c)) [
  | inl e ↦ let (pre, h) = trim_left-suffix s in (c ∷ pre, rw e (ap (λ t. c ∷ t) h))
  | inr e ↦ ([], rw e)
]

length-trim_left-le : (s : Text) → length (trim_left s) ≤ length s
unfolding trim_left
length-trim_left-le [] = omega arith
length-trim_left-le (c ∷ s) = elim (Bool-cases (is_space c)) [
  | inl e ↦ rw e (omega (arith, length-trim_left-le s))
  | inr e ↦ rw e (omega arith)
]

trim_left_idem : (s : Text) → trim_left (trim_left s) ≡ trim_left s
unfolding trim_left
trim_left_idem [] = refl
trim_left_idem (c ∷ s) = elim (Bool-cases (is_space c)) [
  | inl e ↦ rw e (trim_left_idem s)
  | inr e ↦ rw (e, trim_left, e) refl
]

-- What starts with no space, or is empty, does so when it is cut short.
trim_left-prefix : (s rest : Text) → trim_left (s ++ rest) ≡ s ++ rest → trim_left s ≡ s
unfolding trim_left
trim_left-prefix [] rest h = refl
trim_left-prefix (c ∷ s) rest h = elim (Bool-cases (is_space c)) [
  | inr e ↦ rw e
  | inl e ↦
      let gone : trim_left (s ++ rest) ≡ c ∷ (s ++ rest) = rw e at h in
      absurd (omega (arith, ap (λ t. length t) gone, length-trim_left-le (s ++ rest)))
]

trim_left-trim_space : (s : Text) → trim_left (trim_space s) ≡ trim_space s
unfolding trim_space
trim_left-trim_space s =
    let u = trim_left s in
    let (pre, h) = trim_left-suffix (reverse u) in
    let whole : u ≡ reverse (trim_left (reverse u)) ++ reverse pre =
      sym (reverse-reverse u) ∙ ap reverse h ∙ reverse-append pre (trim_left (reverse u)) in
    trim_left-prefix (reverse (trim_left (reverse u))) (reverse pre)
      (ap trim_left (sym whole) ∙ trim_left_idem s ∙ whole)

pub trim_space_idem : (s : Text) → trim_space (trim_space s) ≡ trim_space s
unfolding trim_space
trim_space_idem s =
    let v = trim_left (reverse (trim_left s)) in
    ap (λ t. reverse (trim_left (reverse t))) (trim_left-trim_space s)
    ∙ ap (λ t. reverse (trim_left t)) (reverse-reverse v)
    ∙ ap reverse (trim_left_idem (reverse (trim_left s)))
