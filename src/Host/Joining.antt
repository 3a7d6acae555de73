-- ===== src/Host/Joining.antt =====
-- filepath.Clean and filepath.Join, on the paths of Unix.

pub mod Last
use aws_demo.Base.{
  ℕ, ◌≡◌, ◌≢◌, refl, ap, ◌∙◌, Bool, true, false, ◌||◌, List, [], ◌∷◌, ◌++◌, if◌then◌else◌, ◌==◌,
  Bool-cases, inl, inr, length, length-append, arith,
}
use aws_demo.Text.{Text, codes, is_empty, text_eq}

-- The first element of a path, and those behind its slashes.
unfoldable pub cut : Text → Text × List Text
cut [] = ([], [])
cut (c ∷ s) = let rest = cut s in if c == b'/' then ([], rest.0 ∷ rest.1) else (c ∷ rest.0, rest.1)

-- `..` on the elements so far, the last one first.
abbrev pub go_up : Bool → List Text → List Text
go_up rooted [] = if rooted then [] else codes ".." ∷ []
go_up rooted (x ∷ xs) = if text_eq x (codes "..") then codes ".." ∷ x ∷ xs else xs

abbrev pub enter : Bool → Text → List Text → List Text
enter rooted e stack =
    if is_empty e || text_eq e (codes ".")
    then stack
    else if text_eq e (codes "..")
    then go_up rooted stack
    else e ∷ stack

unfoldable pub enter_all : Bool → List Text → List Text → List Text
enter_all rooted [] stack = stack
enter_all rooted (e ∷ es) stack = enter_all rooted es (enter rooted e stack)

unfoldable pub slashed : List Text → Text
slashed [] = []
slashed (e ∷ es) = slashed es ++ (b'/' ∷ e)

abbrev pub shown : Bool → Text → Text
shown rooted [] = if rooted then codes "/" else codes "."
shown rooted (c ∷ s) = if rooted then c ∷ s else s

abbrev pub is_rooted : Text → Bool
is_rooted [] = false
is_rooted (c ∷ s) = c == b'/'

abbrev pub clean_elements : Bool → Text × List Text → Text
clean_elements rooted x = shown rooted (slashed (enter_all rooted (x.0 ∷ x.1) []))

-- filepath.Clean
unfoldable pub clean : Text → Text
unfolding cut slashed enter_all
clean p = clean_elements (is_rooted p) (cut p)

unfoldable pub joined : Text → List Text → Text
joined e [] = e
joined e (f ∷ fs) = e ++ (b'/' ∷ joined f fs)

-- filepath.Join
unfoldable pub join : List Text → Text
unfolding clean joined
join [] = []
join (e ∷ es) = let rest = join es in if is_empty e then rest else clean (joined e es)

cleans : clean (codes "/a//b/./../c/") ≡ codes "/a/c"
unfolding clean text_eq
cleans = refl

climbs : join (codes "a" ∷ codes "../../b" ∷ []) ≡ codes "../b"
unfolding join text_eq
climbs = refl
