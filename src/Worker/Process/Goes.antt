-- ===== src/Worker/Process/Goes.antt =====
-- How the calls of a process are followed: `Goes pre m post bad` says that `m`, started after the
-- calls `pre`, has made the calls `post a` in all when it returns `a`, and `bad e` when it fails by `e`.
use aws_demo.Base.{
  ◌≡◌, ap, ◌∙◌, Bool, true, false, List, [], ◌∷◌, ◌++◌, Option, none, some, Result, ok, err,
  if◌then◌else◌,
}
use aws_demo.Worker.Process.{
  Call, Process, Run, pure, fail, lift, continue, on_result, on_found, ◌>>=◌, read, change, call,
  check, rename, with_errors,
}

abbrev pub Ended :
    {W E A : Type 0} → (A → List Call) → (E → List Call) → Result E A × Process W → Type 0
Ended post bad (ok a, p) = p.calls ≡ post a
Ended post bad (err e, p) = p.calls ≡ bad e

pub record Goes {W E A : Type 0} (pre : List Call) (m : Run W E A) (post : A → List Call)
    (bad : E → List Call) : Type 0 where
  pub at : (p : Process W) → p.calls ≡ pre → Ended post bad (m p)

-- A step that makes no call, and fails by errors of its own.
abbrev pub IsQuiet : {W E A : Type 0} → List Call → Run W E A → Type 0
IsQuiet pre m = Goes pre m (λ a. pre) (λ e. pre)

module _ {W E A : Type 0} {bad : E → List Call} where
  pub Goes-pure :
      {a : A} {pre : List Call} (post : A → List Call)
      → pre ≡ post a
      → Goes {W = W} pre (pure a) post bad
  Goes-pure post same = record { at = λ p e. e ∙ same }

  pub Goes-fail :
      {e : E} {pre : List Call} {post : A → List Call}
      → pre ≡ bad e
      → Goes {W = W} pre (fail e) post bad
  Goes-fail same = record { at = λ p e. e ∙ same }

  pub Goes-read : (f : W → A) (pre : List Call) → Goes pre (read f) (λ a. pre) bad
  unfolding read
  Goes-read f pre = record { at = λ p e. e }

  pub Goes-change : (f : W → A × W) (pre : List Call) → Goes pre (change f) (λ a. pre) bad
  unfolding change
  Goes-change f pre = record { at = λ p e. e }

  pub Goes-call :
      (c : Call) (f : W → A × W) (pre : List Call) → Goes pre (call c f) (λ a. pre ++ c ∷ []) bad
  unfolding call
  Goes-call c f pre = record { at = λ p e. ap (λ l. l ++ c ∷ []) e }

  pub Goes-lift :
      (r : Result E A) (pre : List Call)
      → ((e : E) → pre ≡ bad e)
      → Goes {W = W} pre (lift r) (λ a. pre) bad
  Goes-lift (ok a) pre same = record { at = λ p e. e }
  Goes-lift (err x) pre same = record { at = λ p e. e ∙ same x }

module _ {W E : Type 0} {bad : E → List Call} where
  pub Goes-check :
      (b : Bool) (x : E) (pre : List Call)
      → pre ≡ bad x
      → Goes {W = W} pre (check b x) (λ a. pre) bad
  Goes-check true x pre same = record { at = λ p e. e }
  Goes-check false x pre same = record { at = λ p e. e ∙ same }

module _ {W E A : Type 0} {bad : E → List Call} {pre : List Call} {post : A → List Call} where
  pub Goes-if :
      {x y : Run W E A} (b : Bool)
      → Goes pre x post bad
      → Goes pre y post bad
      → Goes pre (if b then x else y) post bad
  Goes-if true hx hy = hx
  Goes-if false hx hy = hy

  pub Goes-on_result :
      {B F : Type 0} {f : B → Run W E A} {g : F → Run W E A} (r : Result F B)
      → ((a : B) → Goes pre (f a) post bad)
      → ((e : F) → Goes pre (g e) post bad)
      → Goes pre (on_result r f g) post bad
  Goes-on_result (ok a) hf hg = hf a
  Goes-on_result (err e) hf hg = hg e

  pub Goes-on_found :
      {B : Type 0} {m : Run W E A} {f : B → Run W E A} (o : Option B)
      → Goes pre m post bad
      → ((a : B) → Goes pre (f a) post bad)
      → Goes pre (on_found o m f) post bad
  Goes-on_found none hm hf = hm
  Goes-on_found (some a) hm hf = hf a

module _ {W E A B : Type 0} {bad : E → List Call} where
  continue-Ended :
      {mid : A → List Call} {post : B → List Call} (r : Result E A × Process W) (f : A → Run W E B)
      → Ended mid bad r
      → ((a : A) → Goes (mid a) (f a) post bad)
      → Ended post bad (continue r.0 f r.1)
  continue-Ended (ok a, p) f h next = (next a).at p h
  continue-Ended (err e, p) f h next = h

  pub Goes-bind :
      {pre : List Call} {mid : A → List Call} {post : B → List Call} {m : Run W E A}
      (f : A → Run W E B)
      → Goes pre m mid bad
      → ((a : A) → Goes (mid a) (f a) post bad)
      → Goes pre (m >>= f) post bad
  unfolding ◌>>=◌
  Goes-bind {m} f first next = record { at = λ p e. continue-Ended (m p) f (first.at p e) next }

module _ {W E F A : Type 0} where
  rename-Ended :
      (post : A → List Call) (bad : F → List Call) (f : E → F) (r : Result E A × Process W)
      → Ended post (λ e. bad (f e)) r
      → Ended post bad (rename f r.0, r.1)
  rename-Ended post bad f (ok a, p) h = h
  rename-Ended post bad f (err e, p) h = h

  pub Goes-with_errors :
      {pre : List Call} {post : A → List Call} {bad : F → List Call} {m : Run W E A} (f : E → F)
      → Goes pre m post (λ e. bad (f e))
      → Goes pre (with_errors f m) post bad
  unfolding with_errors
  Goes-with_errors {post} {bad} {m} f h = record {
    at = λ p e. rename-Ended post bad f (m p) (h.at p e);
  }
