-- ===== src/Host/Joining/Last.antt =====
-- A name that is joined to a directory is the last element of the path.
use mathlib.Core.List.{append_assoc}
use aws_demo.Base.{
  ℕ, ◌≡◌, refl, sym, ap, ◌∙◌, Bool, true, false, List, [], ◌∷◌, ◌++◌, if◌then◌else◌, ◌==◌,
  Bool-cases, inl, inr,
}
use aws_demo.Text.{Text, codes, is_empty, text_eq}
use aws_demo.Host.Joining.{cut, enter, enter_all, slashed, shown, is_rooted, clean, joined, join}

unfoldable pub no_slash : Text → Bool
no_slash [] = true
no_slash (c ∷ s) = let rest = no_slash s in if c == b'/' then false else rest

-- A name that stands for a file.
pub record IsPlain (name : Text) : Type 0 where
  pub one : no_slash name ≡ true
  pub some_text : is_empty name ≡ false
  pub not_here : text_eq name (codes ".") ≡ false
  pub not_up : text_eq name (codes "..") ≡ false

cut-append :
    (a b : Text) → cut (a ++ (b'/' ∷ b)) ≡ ((cut a).0, (cut a).1 ++ ((cut b).0 ∷ (cut b).1))
unfolding cut
cut-append [] b = refl
cut-append (c ∷ a) b = elim (Bool-cases (c == b'/')) [
  | inl e ↦ rw (e, cut-append a b) refl
  | inr e ↦ rw (e, cut-append a b) refl
]

cut-no_slash : (s : Text) → no_slash s ≡ true → cut s ≡ (s, [])
unfolding cut no_slash
cut-no_slash [] h = refl
cut-no_slash (c ∷ s) h = elim (Bool-cases (c == b'/')) [
  | inl e ↦ absurd (cc (rw e at h))
  | inr e ↦ rw (e, cut-no_slash s (rw e at h)) refl
]

enter_all-append :
    (r : Bool) (es : List Text) (e : Text) (st : List Text)
    → enter_all r (es ++ (e ∷ [])) st ≡ enter r e (enter_all r es st)
unfolding enter_all
enter_all-append r [] e st = refl
enter_all-append r (x ∷ es) e st = enter_all-append r es e (enter r x st)

abbrev elements : Text → List Text
elements p = enter_all (is_rooted p) ((cut p).0 ∷ (cut p).1) []

enter-IsPlain :
    (r : Bool) (name : Text) (st : List Text) → IsPlain name → enter r name st ≡ name ∷ st
enter-IsPlain r name st h = rw (h.some_text, h.not_here, h.not_up) refl

elements-last :
    (c : ℕ) (s name : Text)
    → IsPlain name
    → elements ((c ∷ s) ++ (b'/' ∷ name)) ≡ name ∷ elements (c ∷ s)
elements-last c s name h =
    rw (cut-append (c ∷ s) name, cut-no_slash name h.one)
      (enter_all-append (c == b'/') ((cut (c ∷ s)).0 ∷ (cut (c ∷ s)).1) name []
        ∙ enter-IsPlain (c == b'/') name (elements (c ∷ s)) h)

shown-append :
    (r : Bool) (s name : Text) (t : Text)
    → shown r ((s ++ (b'/' ∷ t)) ++ (b'/' ∷ name)) ≡ shown r (s ++ (b'/' ∷ t)) ++ (b'/' ∷ name)
shown-append true [] name t = refl
shown-append false [] name t = refl
shown-append true (c ∷ s) name t = refl
shown-append false (c ∷ s) name t = refl

shown-slashed :
    (r : Bool) (dir name : Text) (st ups : List Text)
    → st ≡ dir ∷ ups
    → shown r (slashed (name ∷ st)) ≡ shown r (slashed st) ++ (b'/' ∷ name)
unfolding slashed
shown-slashed r dir name st ups e = rw e (shown-append r (slashed ups) name dir)

-- Where the elements of a path end with a name, another one follows it.
clean-last :
    (c : ℕ) (s dir name : Text) (ups : List Text)
    → elements (c ∷ s) ≡ dir ∷ ups
    → IsPlain name
    → clean ((c ∷ s) ++ (b'/' ∷ name)) ≡ clean (c ∷ s) ++ (b'/' ∷ name)
unfolding clean
clean-last c s dir name ups e h =
    ap (λ st. shown (c == b'/') (slashed st)) (elements-last c s name h)
    ∙ shown-slashed (c == b'/') dir name (elements (c ∷ s)) ups e

elements-IsPlain : (name : Text) → IsPlain name → elements name ≡ name ∷ []
unfolding enter_all
elements-IsPlain name h = rw (cut-no_slash name h.one) (enter-IsPlain (is_rooted name) name [] h)

pub join-last :
    (d dir name : Text)
    → IsPlain dir
    → IsPlain name
    → join (d ∷ dir ∷ name ∷ []) ≡ join (d ∷ dir ∷ []) ++ (b'/' ∷ name)
unfolding join joined
join-last [] [] name hd hn = absurd (cc hd.some_text)
join-last [] (c ∷ dir) name hd hn =
    clean-last c dir (c ∷ dir) name [] (elements-IsPlain (c ∷ dir) hd) hn
join-last (c ∷ d) dir name hd hn =
    ap clean (sym (append_assoc (c ∷ d) (b'/' ∷ dir) (b'/' ∷ name)))
    ∙ clean-last c (d ++ (b'/' ∷ dir)) dir name (elements (c ∷ d)) (elements-last c d dir hd) hn
