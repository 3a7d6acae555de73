-- ===== src/Names.antt =====
-- Names of workers: conductor-and-worker/conductor/go-conductor/util/names.go. The text of names.txt
-- and the answers of rand.Int are parameters.
pub mod Distinct
mod Tests
use aws_demo.Base.{
  ℕ, zero, suc, ◌≡◌, refl, Bool, true, false, List, [], ◌∷◌, ◌++◌, map, Option, none, some,
  if◌then◌else◌, String,
}
use aws_demo.Text.{Text, codes, is_space}

-- A word that ends here, if it has begun.
abbrev pub with_word : Text → List Text → List Text
with_word [] words = words
with_word (c ∷ word) words = (c ∷ word) ∷ words

-- The first word of a text and the words behind it; the first word is empty behind a space.
unfoldable pub split_words : Text → Text × List Text
unfolding is_space
split_words [] = ([], [])
split_words (c ∷ s) =
    let rest = split_words s in
    if is_space c then ([], with_word rest.0 rest.1) else (c ∷ rest.0, rest.1)

-- strings.Fields
unfoldable pub fields : Text → List Text
unfolding split_words
fields s = with_word (split_words s).0 (split_words s).1

abbrev pub rand_chars : Text
rand_chars = codes "ABCDEFGHIJKLMNOPQRSTUVWXYZabcdefghijklmnopqrstuvwxyz0123456789_-"

-- An element of a list; the index is below the length where rand.Int gives it.
unfoldable pub element : {A : Type 0} → List A → ℕ → Option A
element [] i = none
element (x ∷ xs) zero = some x
element (x ∷ xs) (suc i) = element xs i

abbrev pub rand_char : ℕ → ℕ
rand_char i = elim (element rand_chars i) [ none ↦ 0 | some c ↦ c ]

-- GenerateWorkerName, with what rand.Int answers for the name and for each character of the suffix;
-- none is a panic.
unfoldable pub generate_worker_name : Text → ℕ → List ℕ → Option Text
unfolding fields element
generate_worker_name names_txt name_idx draws = elim (element (fields names_txt) name_idx) [
  | none ↦ none
  | some name ↦ some (name ++ (codes "-" ++ map rand_char draws))
]

words : fields (codes " ada  bob\n") ≡ codes "ada" ∷ codes "bob" ∷ []
unfolding fields
words = refl
