-- ===== src/Transcript/Fuel.antt =====
-- The fuel that extractTranscriptTextFromJSON is given is enough for any tokens.
use aws_demo.Base.{
  ℕ, zero, suc, ◌+◌, ◌*◌, ◌≤◌, ◌<◌, ◌≢◌, Bool, true, false, List, [], ◌∷◌, Result, ok, err,
  and_then, length, arith,
}
use aws_demo.Text.{Text, codes, text_eq}
use aws_demo.Transcript.{
  Token, TranscriptError, Collector, out_of_fuel, word, open_object, open_array, close_object,
  close_array, scalar, collect_value, collect_object, collect_array, finish,
  extract_transcript_text,
}

-- The run kept within its fuel, and left fewer than `n` tokens if it succeeded.
abbrev pub Ends : ℕ → Result TranscriptError (List Token × Text) → Type 0
Ends n (ok (rest, output)) = length rest < n
Ends n (err e) = e ≢ out_of_fuel

Ends-and_then :
    (m n : ℕ) (r : Result TranscriptError (List Token × Text)) (k : Collector)
    → Ends m r
    → ((rest : List Token) (output : Text) → length rest < m → Ends n (k rest output))
    → Ends n (and_then r (λ x. k x.0 x.1))
Ends-and_then m n (ok (rest, output)) k h next = next rest output h
Ends-and_then m n (err e) k h next = h

Ends-weaken :
    (m n : ℕ) (r : Result TranscriptError (List Token × Text)) → m ≤ n → Ends m r → Ends n r
Ends-weaken m n (ok (rest, output)) l h = omega arith
Ends-weaken m n (err e) l h = h

-- With fuel above twice the tokens a value is read, and takes one token at least; the loops need one
-- unit more.
abbrev ValueEnds : ℕ → Type 0
ValueEnds f =
    (collect : Bool) (ts : List Token) (out : Text)
    → 2 * length ts < f
    → Ends (length ts) (collect_value f collect ts out)

abbrev LoopEnds : ℕ → Collector → Type 0
LoopEnds f loop =
    (ts : List Token) (out : Text) → 2 * length ts + 1 < f → Ends (length ts) (loop ts out)

value_step :
    (f : ℕ) → LoopEnds f (collect_object f) → LoopEnds f (collect_array f) → ValueEnds (suc f)
unfolding collect_value
value_step f object array collect [] out h = cc
value_step f object array collect (open_object ∷ ts) out h =
    Ends-weaken (length ts) (suc (length ts)) (collect_object f ts out) (omega arith)
      (object ts out (omega arith))
value_step f object array collect (open_array ∷ ts) out h =
    Ends-weaken (length ts) (suc (length ts)) (collect_array f ts out) (omega arith)
      (array ts out (omega arith))
value_step f object array collect (close_object ∷ ts) out h = cc
value_step f object array collect (close_array ∷ ts) out h = cc
value_step f object array collect (scalar ∷ ts) out h = omega arith
value_step f object array collect (word s ∷ ts) out h = omega arith

-- One turn of a loop: a value is read from `ts`, and the loop goes on behind it.
turn :
    (f n : ℕ) (collect : Bool) (ts : List Token) (out : Text) (loop : Collector)
    → ValueEnds f
    → LoopEnds f loop
    → 2 * length ts < f
    → length ts ≤ n
    → Ends n (and_then (collect_value f collect ts out) (λ x. loop x.0 x.1))
turn f n collect ts out loop value later h l =
    Ends-and_then (length ts) n (collect_value f collect ts out) loop (value collect ts out h)
      (λ rest output k.
        Ends-weaken (length rest) n (loop rest output) (omega arith)
          (later rest output (omega arith)))

object_step :
    (f : ℕ)
    → ValueEnds f
    → LoopEnds f (collect_object f)
    → LoopEnds (suc f) (collect_object (suc f))
unfolding collect_object
object_step f value object [] out h = cc
object_step f value object (close_object ∷ ts) out h = omega arith
object_step f value object (close_array ∷ ts) out h = cc
object_step f value object (word key ∷ ts) out h =
    turn f (suc (length ts)) (text_eq key (codes "text")) ts out (collect_object f) value object
      (omega arith) (omega arith)
object_step f value object (open_object ∷ ts) out h = cc
object_step f value object (open_array ∷ ts) out h = cc
object_step f value object (scalar ∷ ts) out h = cc

array_step :
    (f : ℕ) → ValueEnds f → LoopEnds f (collect_array f) → LoopEnds (suc f) (collect_array (suc f))
unfolding collect_array
array_step f value array [] out h = cc
array_step f value array (close_array ∷ ts) out h = omega arith
array_step f value array (close_object ∷ ts) out h = cc
array_step f value array (open_object ∷ ts) out h =
    turn f (suc (length ts)) false (open_object ∷ ts) out (collect_array f) value array
      (omega arith) (omega arith)
array_step f value array (open_array ∷ ts) out h =
    turn f (suc (length ts)) false (open_array ∷ ts) out (collect_array f) value array (omega arith)
      (omega arith)
array_step f value array (scalar ∷ ts) out h =
    turn f (suc (length ts)) false (scalar ∷ ts) out (collect_array f) value array (omega arith)
      (omega arith)
array_step f value array (word s ∷ ts) out h =
    turn f (suc (length ts)) false (word s ∷ ts) out (collect_array f) value array (omega arith)
      (omega arith)

all_end : (f : ℕ) → ValueEnds f × LoopEnds f (collect_object f) × LoopEnds f (collect_array f)
all_end zero = (
  λ collect ts out h. absurd (omega arith),
  λ ts out h. absurd (omega arith),
  λ ts out h. absurd (omega arith),
)
all_end (suc f) =
    let ih = all_end f in (value_step f ih.1 ih.2, object_step f ih.0 ih.1, array_step f ih.0 ih.2)

finish-out_of_fuel :
    (ends : Bool) (n : ℕ) (r : Result TranscriptError (List Token × Text))
    → Ends n r
    → and_then r (finish ends) ≢ err out_of_fuel
unfolding finish
finish-out_of_fuel true n (ok ([], output)) h = cc
finish-out_of_fuel false n (ok ([], output)) h = cc
finish-out_of_fuel ends n (ok (t ∷ ts, output)) h = cc
finish-out_of_fuel ends n (err e) h = λ same. h (cc same)

-- Whatever tokens the decoder yields, the extraction does not run out of its fuel: it ends with a text
-- or one of the program's own errors.
pub extract_transcript_text-ends :
    (ends : Bool) (ts : List Token) → extract_transcript_text ends ts ≢ err out_of_fuel
unfolding extract_transcript_text
extract_transcript_text-ends ends ts =
    finish-out_of_fuel ends (length ts) (collect_value (2 * length ts + 1) false ts [])
      ((all_end (2 * length ts + 1)).0 false ts [] (omega arith))
