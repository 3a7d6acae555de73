-- ===== src/Transcript.antt =====
-- The text of an agent's transcript: conductor-and-worker/worker/go-worker/extract-transcript-text.go.
-- The tokens that json.Decoder yields are given; after the last of them it fails, or is at io.EOF.
pub mod Values
pub mod Fuel
mod Tests
use aws_demo.Base.{
  ℕ, zero, suc, ◌+◌, ◌*◌, Bool, true, false, not, ◌&&◌, ◌||◌, List, [], ◌∷◌, ◌++◌, Result, ok, err,
  and_then, if◌then◌else◌, ◌==◌, length,
}
use aws_demo.Text.{Text, codes, text_eq, is_empty, has_suffix}

-- A token; numbers, Booleans and null are not told apart.
pub data Token : Type 0 where
  open_object close_object open_array close_array scalar : Token
  word : Text → Token

-- `out_of_fuel` has no counterpart in the program.
pub data TranscriptError : Type 0 where
  no_token expected_key unexpected_delimiter expected_end extra_token out_of_fuel : TranscriptError

-- strings.ReplaceAll text `\n` "\n"
unfoldable pub unescape : Text → Text
unescape [] = []
unescape (c ∷ []) = c ∷ []
unescape (c ∷ d ∷ s) = elim (c == 92 && d == 110) [
  | true ↦ 10 ∷ unescape s
  | false ↦ c ∷ unescape (d ∷ s)
]

abbrev pub new_line : Text
new_line = 10 ∷ []

-- appendText after its replacement
abbrev pub append_line : Text → Text → Text
append_line output [] = output
append_line output (c ∷ s) =
    if not (is_empty output) && not (has_suffix output new_line)
    then output ++ (new_line ++ c ∷ s)
    else output ++ c ∷ s

-- appendText: the output after it.
unfoldable pub append_text : Text → Text → Text
unfolding unescape
append_text output text = append_line output (unescape text)

-- What is left of the tokens, and the output.
abbrev pub Collector : Type 0
Collector = List Token → Text → Result TranscriptError (List Token × Text)

-- collectValue with collectToken, and the loops of collectObject and collectArray with consumeEnd.
-- `decoder.More` is false before a closing token and at the end.
unfoldable mutual
  pub collect_value : ℕ → Bool → Collector
  collect_value zero collect ts output = err out_of_fuel
  collect_value (suc f) collect [] output = err no_token
  collect_value (suc f) collect (open_object ∷ ts) output = collect_object f ts output
  collect_value (suc f) collect (open_array ∷ ts) output = collect_array f ts output
  collect_value (suc f) collect (close_object ∷ ts) output = err unexpected_delimiter
  collect_value (suc f) collect (close_array ∷ ts) output = err unexpected_delimiter
  collect_value (suc f) collect (scalar ∷ ts) output = ok (ts, output)
  collect_value (suc f) collect (word s ∷ ts) output =
      ok (ts, if collect then append_text output s else output)

  pub collect_object : ℕ → Collector
  collect_object zero ts output = err out_of_fuel
  collect_object (suc f) [] output = err no_token
  collect_object (suc f) (close_object ∷ ts) output = ok (ts, output)
  collect_object (suc f) (close_array ∷ ts) output = err expected_end
  collect_object (suc f) (word key ∷ ts) output =
      and_then (collect_value f (text_eq key (codes "text")) ts output)
        λ (rest, out). collect_object f rest out
  collect_object (suc f) (open_object ∷ ts) output = err expected_key
  collect_object (suc f) (open_array ∷ ts) output = err expected_key
  collect_object (suc f) (scalar ∷ ts) output = err expected_key

  pub collect_array : ℕ → Collector
  collect_array zero ts output = err out_of_fuel
  collect_array (suc f) [] output = err no_token
  collect_array (suc f) (close_array ∷ ts) output = ok (ts, output)
  collect_array (suc f) (close_object ∷ ts) output = err expected_end
  collect_array (suc f) (t ∷ ts) output =
      and_then (collect_value f false (t ∷ ts) output) λ (rest, out). collect_array f rest out

-- The check for io.EOF behind the value; `ends` says whether the decoder is at io.EOF after the
-- tokens, and does not fail there.
unfoldable pub finish : Bool → List Token × Text → Result TranscriptError Text
finish ends ([], output) = if ends then ok output else err no_token
finish ends (t ∷ ts, output) = err extra_token

-- extractTranscriptTextFromJSON, with fuel for every token.
unfoldable pub extract_transcript_text : Bool → List Token → Result TranscriptError Text
unfolding finish
extract_transcript_text ends ts =
    and_then (collect_value (2 * length ts + 1) false ts []) (finish ends)
