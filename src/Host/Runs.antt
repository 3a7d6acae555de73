-- ===== src/Host/Runs.antt =====
-- Runs of the host's monad that return a value, taken apart and put together.
use aws_demo.Base.{◌≡◌, refl, ap, ◌∙◌, Bool, true, false, Option, none, some, Result, ok, err}
use aws_demo.Host.{M, continue, ◌>>=◌, told, found, after, undone}

module _ {W E : Type 0} where
  pub bind-runs :
      {A B : Type 0} (m : M W E A) (f : A → M W E B) (w : W) {a : A} {w' : W} {x : Result E B × W}
      → m w ≡ (ok a, w')
      → f a w' ≡ x
      → (m >>= f) w ≡ x
  bind-runs m f w h k = ap (continue f) h ∙ k

  pub continue-ran :
      {A B : Type 0} (f : A → M W E B) (x : Result E A × W) {b : B} {w'' : W}
      → continue f x ≡ (ok b, w'')
      → (a : A) × (w' : W) × (x ≡ (ok a, w')) × (f a w' ≡ (ok b, w''))
  continue-ran f (ok a, w) h = (a, w, refl, h)
  continue-ran f (err e, w) h = absurd (cc h)

  pub bind-ran :
      {A B : Type 0} (m : M W E A) (f : A → M W E B) (w : W) {b : B} {w'' : W}
      → (m >>= f) w ≡ (ok b, w'')
      → (a : A) × (w' : W) × (m w ≡ (ok a, w')) × (f a w' ≡ (ok b, w''))
  bind-ran m f w h = continue-ran f (m w) h

  pub told-ran :
      (e : E) (x : Bool × W) {u : Unit {0}} {w : W} → told e x ≡ (ok u, w) → x ≡ (true, w)
  told-ran e (true, w) h = ap (λ x. (true, x.1)) h
  told-ran e (false, w) h = absurd (cc h)

  pub found-ran :
      {A : Type 0} (e : E) (w : W) (o : Option A) {a : A} {w' : W}
      → found e w o ≡ (ok a, w')
      → (o ≡ some a) × (w ≡ w')
  found-ran e w none h = absurd (cc h)
  found-ran e w (some a) h = (cc h, ap (λ x. x.1) h)

  pub after-ran :
      {A : Type 0} (step : W → Bool × W) (x : Result E A × W) {a : A} {w : W}
      → after step x ≡ (ok a, w)
      → (w' : W) × (x ≡ (ok a, w')) × ((step w').1 ≡ w)
  after-ran step (ok a, w') h = (w', cc h, ap (λ x. x.1) h)
  after-ran step (err e, w') h = absurd (cc h)

  pub undone-ran :
      {A : Type 0} (step : W → Bool × W) (x : Result E A × W) {a : A} {w : W}
      → undone step x ≡ (ok a, w)
      → x ≡ (ok a, w)
  undone-ran step (ok a, w') h = h
  undone-ran step (err e, w') h = absurd (cc h)
