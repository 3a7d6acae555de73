-- ===== src/Transcript/Tests.antt =====
-- A small transcript, and the instances of the theorems at it.
use aws_demo.Base.{◌≡◌, ◌≢◌, refl, true, false, [], ◌∷◌, ok, err}
use aws_demo.Text.{codes, text_eq, has_suffix}
use aws_demo.Json.{Json, str, arr, obj, nil, cons, end, member, num}
use aws_demo.Transcript.{
  collect_value, open_object, close_array, word, out_of_fuel, expected_end, append_text,
  extract_transcript_text,
}
use aws_demo.Transcript.Values.{tokens, texts, append_texts, extract_transcript_text-tokens}
use aws_demo.Transcript.Fuel.{extract_transcript_text-ends}

-- {"id": 7, "turns": [{"text": "a\\nb"}, {"text": "c", "kind": "x"}]}
abbrev thread : Json
thread = obj (
    member (codes "id") (num (codes "7")) (
      member (codes "turns")
        (arr (
          cons (obj (member (codes "text") (str (codes "a\\nb")) end)) (
            cons
              (obj (
                member (codes "text") (str (codes "c"))
                  (member (codes "kind") (str (codes "x")) end)))
              nil)))
        end))

extracted : extract_transcript_text true (tokens thread) ≡ ok (codes "a\nb\nc")
unfolding extract_transcript_text collect_value tokens text_eq append_text has_suffix
extracted = refl

extract_transcript_text-tokens_example :
    extract_transcript_text true (tokens thread) ≡ ok (append_texts [] (texts false thread))
extract_transcript_text-tokens_example = extract_transcript_text-tokens thread

mismatched : extract_transcript_text true (open_object ∷ close_array ∷ []) ≡ err expected_end
unfolding extract_transcript_text collect_value
mismatched = refl

extract_transcript_text-ends_example :
    extract_transcript_text true (open_object ∷ word (codes "text") ∷ []) ≢ err out_of_fuel
extract_transcript_text-ends_example =
    extract_transcript_text-ends true (open_object ∷ word (codes "text") ∷ [])
