-- ===== src/Transcript/Values.antt =====
-- The extraction on the tokens of a JSON value, against the value itself.
use aws_demo.Base.{
  ℕ, zero, suc, ◌+◌, ◌*◌, ◌<◌, ◌≡◌, refl, sym, ap, ◌∙◌, Bool, true, false, List, [], ◌∷◌, ◌++◌,
  append_assoc, append-nil, ok, and_then, length, length-append, arith, if◌then◌else◌,
}
use aws_demo.Text.{Text, codes, text_eq}
use aws_demo.Json.{Json, Items, Members, null, bool, num, str, arr, obj, nil, cons, end, member}
use aws_demo.Transcript.{
  Token, open_object, open_array, close_object, close_array, scalar, word, append_text,
  collect_value, collect_object, collect_array, finish, extract_transcript_text,
}

-- The tokens of a value.
unfoldable mutual
  pub tokens : Json → List Token
  tokens null = scalar ∷ []
  tokens (bool b) = scalar ∷ []
  tokens (num d) = scalar ∷ []
  tokens (str s) = word s ∷ []
  tokens (arr xs) = open_array ∷ item_tokens xs
  tokens (obj fs) = open_object ∷ member_tokens fs

  pub item_tokens : Items → List Token
  item_tokens nil = close_array ∷ []
  item_tokens (cons v xs) = tokens v ++ item_tokens xs

  pub member_tokens : Members → List Token
  member_tokens end = close_object ∷ []
  member_tokens (member key v fs) = word key ∷ tokens v ++ member_tokens fs

-- The strings that stand under a key `text`, in the order of the value.
unfoldable mutual
  pub texts : Bool → Json → List Text
  texts collect null = []
  texts collect (bool b) = []
  texts collect (num d) = []
  texts collect (str s) = if collect then s ∷ [] else []
  texts collect (arr xs) = item_texts xs
  texts collect (obj fs) = member_texts fs

  pub item_texts : Items → List Text
  item_texts nil = []
  item_texts (cons v xs) = texts false v ++ item_texts xs

  pub member_texts : Members → List Text
  member_texts end = []
  member_texts (member key v fs) = texts (text_eq key (codes "text")) v ++ member_texts fs

-- The output after several texts.
abbrev pub append_texts : Text → List Text → Text
append_texts output [] = output
append_texts output (s ∷ ss) = append_texts (append_text output s) ss

append_texts-append :
    (output : Text) (a b : List Text)
    → append_texts output (a ++ b) ≡ append_texts (append_texts output a) b
append_texts-append output [] b = refl
append_texts-append output (s ∷ a) b = append_texts-append (append_text output s) a b

-- What holds of any positive fuel holds of each that exceeds a bound.
with_fuel :
    {bound : ℕ} (Holds : ℕ → Type 0)
    → ((left : ℕ) → bound < suc left → Holds (suc left))
    → (fuel : ℕ) → bound < fuel
    → Holds fuel
with_fuel Holds positive zero more = absurd (omega arith)
with_fuel Holds positive (suc left) more = positive left more

abbrev ReadsValue : Json → Type 0
ReadsValue v =
    (collect : Bool) (rest : List Token) (output : Text) (f : ℕ)
    → 2 * length (tokens v) < f
    → collect_value f collect (tokens v ++ rest) output
      ≡ ok (rest, append_texts output (texts collect v))

abbrev ReadsItems : Items → Type 0
ReadsItems xs =
    (rest : List Token) (output : Text) (f : ℕ)
    → 2 * length (item_tokens xs) + 1 < f
    → collect_array f (item_tokens xs ++ rest) output
      ≡ ok (rest, append_texts output (item_texts xs))

abbrev ReadsMembers : Members → Type 0
ReadsMembers fs =
    (rest : List Token) (output : Text) (f : ℕ)
    → 2 * length (member_tokens fs) + 1 < f
    → collect_object f (member_tokens fs ++ rest) output
      ≡ ok (rest, append_texts output (member_texts fs))

reads_string :
    (collect : Bool) (s output : Text)
    → (if collect then append_text output s else output)
      ≡ append_texts output (if collect then s ∷ [] else [])
reads_string true s output = refl
reads_string false s output = refl

-- An array loop reads a value, whatever its first token is.
collect_array-tokens :
    (f : ℕ) (v : Json) (ts : List Token) (output : Text)
    → collect_array (suc f) (tokens v ++ ts) output
      ≡ and_then (collect_value f false (tokens v ++ ts) output) (λ x. collect_array f x.0 x.1)
unfolding collect_array tokens
collect_array-tokens f null ts output = refl
collect_array-tokens f (bool b) ts output = refl
collect_array-tokens f (num d) ts output = refl
collect_array-tokens f (str s) ts output = refl
collect_array-tokens f (arr xs) ts output = refl
collect_array-tokens f (obj fs) ts output = refl

length-tokens_pos : (v : Json) → 0 < length (tokens v)
unfolding tokens
length-tokens_pos null = omega arith
length-tokens_pos (bool b) = omega arith
length-tokens_pos (num d) = omega arith
length-tokens_pos (str s) = omega arith
length-tokens_pos (arr xs) = omega arith
length-tokens_pos (obj fs) = omega arith

collect_value-Reads : (v : Json) → ReadsValue v
unfolding collect_value tokens texts
collect_value-Reads v = elim v as ReadsValue ReadsItems ReadsMembers [
  | str s ↦ λ collect rest output. with_fuel _ λ f h. rw (reads_string collect s output) refl
  | arr (xs → ih) ↦ λ collect rest output. with_fuel _ λ f h. ih rest output f (omega arith)
  | obj (fs → ih) ↦ λ collect rest output. with_fuel _ λ f h. ih rest output f (omega arith)
  | nil ↦ λ rest output. with_fuel _ λ f h. refl
  | cons (w → ih) (xs → ihs) ↦ λ rest output. with_fuel _ λ f h.
      ap (λ t. collect_array (suc f) t output) (append_assoc (tokens w) (item_tokens xs) rest)
      ∙ collect_array-tokens f w (item_tokens xs ++ rest) output
      ∙ ap (λ r. and_then r (λ x. collect_array f x.0 x.1))
          (ih false (item_tokens xs ++ rest) output f
            (omega (arith, length-append (tokens w) (item_tokens xs))))
      ∙ ihs rest (append_texts output (texts false w)) f
          (omega (arith, length-append (tokens w) (item_tokens xs), length-tokens_pos w))
      ∙ ap (λ (o : Text). ok (rest, o))
          (sym (append_texts-append output (texts false w) (item_texts xs)))
  | end ↦ λ rest output. with_fuel _ λ f h. refl
  | member key (w → ih) (fs → ihs) ↦ λ rest output. with_fuel _ λ f h.
      let collects = text_eq key (codes "text") in
      ap (λ t. and_then (collect_value f collects t output) (λ x. collect_object f x.0 x.1))
        (append_assoc (tokens w) (member_tokens fs) rest)
      ∙ ap (λ r. and_then r (λ x. collect_object f x.0 x.1))
          (ih collects (member_tokens fs ++ rest) output f
            (omega (arith, length-append (tokens w) (member_tokens fs))))
      ∙ ihs rest (append_texts output (texts collects w)) f
          (omega (arith, length-append (tokens w) (member_tokens fs), length-tokens_pos w))
      ∙ ap (λ (o : Text). ok (rest, o))
          (sym (append_texts-append output (texts collects w) (member_texts fs)))
  | _ ↦ λ collect rest output. with_fuel _ λ f h. refl
]

-- On the tokens of a JSON value, with nothing behind them, the extraction returns the strings that
-- stand under a key `text`, in order, each put on its own lines.
pub extract_transcript_text-tokens :
    (v : Json) → extract_transcript_text true (tokens v) ≡ ok (append_texts [] (texts false v))
unfolding extract_transcript_text finish
extract_transcript_text-tokens v =
    ap (λ ts. and_then (collect_value (2 * length (tokens v) + 1) false ts []) (finish true))
      (sym (append-nil (tokens v)))
    ∙ ap (λ r. and_then r (finish true))
        (collect_value-Reads v false [] [] (2 * length (tokens v) + 1) (omega arith))
