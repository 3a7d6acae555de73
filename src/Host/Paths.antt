-- ===== src/Host/Paths.antt =====
-- What the program uses of the package filepath, on the clean paths that it gives to it.
use aws_demo.Base.{ℕ, ◌≡◌, refl, [], ◌∷◌, ◌++◌, Option, none, some, if◌then◌else◌, ◌==◌}
use aws_demo.Text.{Text, codes, is_empty}

-- The parts of a text before and behind the last occurrence of a character.
unfoldable pub split_last : ℕ → Text → Option (Text × Text)
split_last k [] = none
split_last k (c ∷ s) = elim (split_last k s) [
  | some (a, b) ↦ some (c ∷ a, b)
  | none ↦ if c == k then some ([], s) else none
]

-- filepath.Dir
unfoldable pub dir : Text → Text
dir p = elim (split_last b'/' p) [
  | none ↦ codes "."
  | some (a, b) ↦ if is_empty a then codes "/" else a
]

-- filepath.Base
unfoldable pub base : Text → Text
base p = elim (split_last b'/' p) [
  | none ↦ if is_empty p then codes "." else p
  | some (a, b) ↦ if is_empty b then codes "/" else b
]

-- filepath.Ext of a last element
unfoldable pub ext : Text → Text
ext name = elim (split_last b'.' name) [ none ↦ [] | some (a, b) ↦ b'.' ∷ b ]

-- strings.TrimSuffix name (filepath.Ext name)
unfoldable pub stem : Text → Text
stem name = elim (split_last b'.' name) [ none ↦ name | some (a, b) ↦ a ]

unfoldable pub trim_slashes : Text → Text
trim_slashes [] = []
trim_slashes (c ∷ s) = let rest = trim_slashes s in if c == b'/' then rest else c ∷ s

-- A clean directory, without the slash of the root.
unfoldable pub as_prefix : Text → Text
as_prefix [] = []
as_prefix (c ∷ []) = if c == b'/' then [] else c ∷ []
as_prefix (c ∷ d ∷ s) = c ∷ d ∷ s

-- filepath.Join of a clean directory and a name
unfoldable pub join_path : Text → Text → Text
unfolding trim_slashes as_prefix
join_path d name = as_prefix d ++ (b'/' ∷ trim_slashes name)

splits : dir (codes "/data/db.sqlite") ≡ codes "/data"
unfolding dir split_last
splits = refl

names_last : base (codes "/data/db.sqlite") ≡ codes "db.sqlite"
unfolding base split_last
names_last = refl

extends : ext (codes "db.v2.sqlite") ≡ codes ".sqlite"
unfolding ext split_last
extends = refl

joins : join_path (codes "/") (codes "/x") ≡ codes "/x"
unfolding join_path
joins = refl
