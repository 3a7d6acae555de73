-- ===== src/Names/Distinct.antt =====
-- When two generated names are different: GenerateWorkerName of names.go.
use mathlib.Core.Option.{some-injective}
use aws_demo.Base.{
  ℕ, zero, suc, ◌<◌, ◌≡◌, ◌≢◌, refl, sym, ap, ◌∙◌, Bool, true, false, ◌&&◌, if◌then◌else◌,
  Bool-cases, List, [], ◌∷◌, ◌++◌, map, some, ◌==◌, ==_iff, length, length-append, All, arith,
  Option-cases, inl, inr,
}
use aws_demo.Text.{Text, codes}
use aws_demo.Names.{fields, element, rand_chars, rand_char, generate_worker_name}

-- The text has no character like this one.
lacks : ℕ → Text → Bool
lacks c [] = true
lacks c (d ∷ s) = let rest = lacks c s in if d == c then false else rest

no_repeats : Text → Bool
no_repeats [] = true
no_repeats (c ∷ s) = let rest = no_repeats s in lacks c s && rest

lacks-element : (c : ℕ) (s : Text) (i : ℕ) → lacks c s ≡ true → element s i ≢ some c
unfolding lacks element
lacks-element c [] i h e = absurd (cc e)
lacks-element c (d ∷ s) zero h e = ground (arith, ==_iff d c, some-injective d c e)
lacks-element c (d ∷ s) (suc i) h e = elim (Bool-cases (d == c)) [
  | inl same ↦ absurd (cc (rw same at h))
  | inr other ↦ lacks-element c s i (rw other at h) e
]

-- In such a text a character has one index.
element-injective :
    (s : Text) (c i j : ℕ)
    → no_repeats s ≡ true
    → element s i ≡ some c
    → element s j ≡ some c
    → i ≡ j
unfolding no_repeats element
element-injective [] c i j h e f = absurd (cc e)
element-injective (d ∷ s) c zero zero h e f = refl
element-injective (d ∷ s) c zero (suc j) h e f =
    absurd (lacks-element d s j (ground arith) (f ∙ sym e))
element-injective (d ∷ s) c (suc i) zero h e f =
    absurd (lacks-element d s i (ground arith) (e ∙ sym f))
element-injective (d ∷ s) c (suc i) (suc j) h e f =
    ap suc (element-injective s c i j (ground arith) e f)

-- Below the length there is a character.
element-length : (s : Text) (i : ℕ) → i < length s → (c : ℕ) × (element s i ≡ some c)
unfolding element
element-length [] i lt = absurd (omega (arith, lt))
element-length (c ∷ s) zero lt = (c, refl)
element-length (c ∷ s) (suc i) lt = element-length s i (omega (arith, lt))

rand_chars-no_repeats : no_repeats rand_chars ≡ true
unfolding no_repeats lacks
rand_chars-no_repeats = refl

rand_char-injective : (i j : ℕ) → i < 64 → j < 64 → rand_char i ≡ rand_char j → i ≡ j
unfolding element
rand_char-injective i j hi hj same =
    let (c, e) = element-length rand_chars i hi in
    let (d, f) = element-length rand_chars j hj in
    let equal : c ≡ d = rw (e, f) at same in
    element-injective rand_chars c i j rand_chars-no_repeats e (f ∙ ap some (sym equal))

map-rand_char-injective :
    (ds es : List ℕ)
    → All (λ d. d < 64) ds
    → All (λ e. e < 64) es
    → map rand_char ds ≡ map rand_char es
    → ds ≡ es
map-rand_char-injective [] [] hd he same = refl
map-rand_char-injective [] (e ∷ es) hd he same = absurd (cc same)
map-rand_char-injective (d ∷ ds) [] hd he same = absurd (cc same)
map-rand_char-injective (d ∷ ds) (e ∷ es) hd he same =
    cc (
      rand_char-injective d e hd.0 he.0 (cc same),
      map-rand_char-injective ds es hd.1 he.1 (cc same),
    )

-- Texts with ends of the same length have the same ends.
same_end : (a b s t : Text) → length s ≡ length t → a ++ s ≡ b ++ t → s ≡ t
same_end [] [] s t l h = h
same_end [] (c ∷ b) s t l h = absurd (omega (arith, ap length h, length-append b t, l))
same_end (c ∷ a) [] s t l h = absurd (omega (arith, ap length h, length-append a s, l))
same_end (c ∷ a) (d ∷ b) s t l h = same_end a b s t l (cc h)

same_start : (a b s t : Text) → length s ≡ length t → a ++ s ≡ b ++ t → a ≡ b
same_start [] [] s t l h = refl
same_start [] (c ∷ b) s t l h = absurd (omega (arith, ap length h, length-append b t, l))
same_start (c ∷ a) [] s t l h = absurd (omega (arith, ap length h, length-append a s, l))
same_start (c ∷ a) (d ∷ b) s t l h = cc (same_start a b s t l (cc h))

length-map : (f : ℕ → ℕ) (ds : List ℕ) → length (map f ds) ≡ length ds
length-map f [] = refl
length-map f (d ∷ ds) = ap suc (length-map f ds)

-- The word of a name and its end.
generated :
    (names_txt : Text) (i : ℕ) (ds : List ℕ) (name : Text)
    → generate_worker_name names_txt i ds ≡ some name
    → (word : Text) × (element (fields names_txt) i ≡ some word)
      × (name ≡ word ++ (codes "-" ++ map rand_char ds))
unfolding generate_worker_name
generated names_txt i ds name h = elim (Option-cases (element (fields names_txt) i)) [
  | inl e ↦ absurd (cc (rw (generate_worker_name, e) at h))
  | inr (word, e) ↦ (word, e, sym (cc (rw (generate_worker_name, e) at h)))
]

-- Where two calls give the same name, each with ten draws below 64, they have drawn the same word and
-- the same ten characters.
pub generate_worker_name-injective :
    (names_txt : Text) (i j : ℕ) (ds es : List ℕ) (name : Text)
    → length ds ≡ 10
    → length es ≡ 10
    → All (λ d. d < 64) ds
    → All (λ e. e < 64) es
    → generate_worker_name names_txt i ds ≡ some name
    → generate_worker_name names_txt j es ≡ some name
    → (element (fields names_txt) i ≡ element (fields names_txt) j) × (ds ≡ es)
generate_worker_name-injective names_txt i j ds es name ld le hd he gd ge =
    let (v, is_v, of_v) = generated names_txt i ds name gd in
    let (w, is_w, of_w) = generated names_txt j es name ge in
    let s = codes "-" ++ map rand_char ds in
    let t = codes "-" ++ map rand_char es in
    let same_length : length s ≡ length t =
      omega (arith, length-map rand_char ds, length-map rand_char es, ld, le) in
    let whole : v ++ s ≡ w ++ t = sym of_v ∙ of_w in
    let ends : map rand_char ds ≡ map rand_char es = cc (same_end v w s t same_length whole) in
    (
      is_v ∙ ap some (same_start v w s t same_length whole) ∙ sym is_w,
      map-rand_char-injective ds es hd he ends,
    )
