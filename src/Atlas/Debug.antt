-- ===== src/Atlas/Debug.antt =====
-- The debug database: makeDebugDbPath and DbgCreateDb of atlas-and-db-init.go leave the requested
-- database alone.
use aws_demo.Base.{
  ◌+◌, ◌≤◌, ◌<◌, ◌≡◌, ◌≢◌, refl, ap, true, ◌||◌, [], ◌∷◌, ◌++◌, Option, none, some, if◌then◌else◌,
  length, length-append, arith, Bool-cases, inl, inr,
}
use aws_demo.Text.{Text, codes, is_empty, text_eq, text_eq_iff}
use aws_demo.Host.Paths.{dir, base, ext, stem, split_last, trim_slashes, as_prefix, join_path}
use aws_demo.Host.Splitting.{
  HasNo, Parts, split_last-Parts, HasNo-stem, length-stem-ext, trim_slashes-HasNo,
}
use aws_demo.Atlas.{db_name, db_extension, debug_db_path}

HasNo-db_name : (name : Text) → HasNo b'/' name → HasNo b'/' (db_name name)
HasNo-db_name name h = elim (Bool-cases (is_empty (stem name) || text_eq (stem name) (codes "."))) [
  | inl e ↦ rw e (refl, (refl, (refl, (refl, (refl, (refl, (refl, (refl, (refl, tt)))))))))
  | inr e ↦ rw e (HasNo-stem b'/' name h)
]

length-is_empty : (s : Text) → is_empty s ≡ true → length s ≡ 0
length-is_empty [] h = refl
length-is_empty (c ∷ s) h = absurd (cc h)

length-db_name-le : (name : Text) → length (stem name) ≤ length (db_name name)
length-db_name-le name = elim (Bool-cases (is_empty (stem name))) [
  | inl e ↦ rw e (omega (arith, length-is_empty _ e))
  | inr e ↦ elim (Bool-cases (text_eq (stem name) (codes "."))) [
    | inl e' ↦ rw (e, e') (omega (arith, ap length ((text_eq_iff (stem name) (codes ".")).0 e')))
    | inr e' ↦ rw (e, e') (omega arith)
  ]
]

length-db_extension-le : (name : Text) → length (ext name) ≤ length (db_extension name)
length-db_extension-le name = elim (Bool-cases (is_empty (ext name))) [
  | inl e ↦ rw e (omega (arith, length-is_empty _ e))
  | inr e ↦ rw e (omega arith)
]

length-as_prefix : (d : Text) → length d ≤ length (as_prefix d) + 1
unfolding as_prefix
length-as_prefix [] = omega arith
length-as_prefix (c ∷ []) = ground arith
length-as_prefix (c ∷ d ∷ s) = omega arith

abbrev debug_file : Text → Text → Text
debug_file name timestamp = db_name name ++ (codes "-debug-" ++ (timestamp ++ db_extension name))

length-debug_file :
    (d name timestamp : Text)
    → HasNo b'/' name
    → length d + length name + 6 ≤ length (join_path d (debug_file name timestamp))
unfolding join_path
length-debug_file d name timestamp h =
    rw (trim_slashes-HasNo (db_name name) _ b'-' (HasNo-db_name name h) refl) (
      omega (
        arith,
        length-append (as_prefix d) (b'/' ∷ debug_file name timestamp),
        length-append (db_name name) (codes "-debug-" ++ (timestamp ++ db_extension name)),
        length-append timestamp (db_extension name),
        length-as_prefix d,
        length-db_name-le name,
        length-db_extension-le name,
        length-stem-ext name,
      ))

length-join_path : (d name : Text) → length d ≤ length (join_path d name)
unfolding join_path
length-join_path d name =
    omega (arith, length-append (as_prefix d) (b'/' ∷ trim_slashes name), length-as_prefix d)

-- The file in the directory of the root's slash.
length-root_file :
    (d timestamp : Text) → length d + 7 ≤ length (join_path d (debug_file (codes "/") timestamp))
unfolding join_path stem ext split_last text_eq
length-root_file d timestamp = omega (
  arith,
  length-append (as_prefix d) (b'/' ∷ codes "-debug-" ++ (timestamp ++ codes ".sqlite")),
  length-as_prefix d,
)

length-or_root : (a : Text) → length a ≤ length (if is_empty a then codes "/" else a)
length-or_root [] = omega arith
length-or_root (c ∷ a) = omega arith

HasNo-or_dot : (p : Text) → HasNo b'/' p → HasNo b'/' (if is_empty p then codes "." else p)
HasNo-or_dot [] h = (refl, tt)
HasNo-or_dot (c ∷ p) h = h

length-or_dot : (p : Text) → length p ≤ length (if is_empty p then codes "." else p)
length-or_dot [] = omega arith
length-or_dot (c ∷ p) = omega arith

-- The new path for the last element of a path behind a slash.
length-named_file :
    (d b timestamp : Text)
    → HasNo b'/' b
    → length d + length b + 6
      ≤ length (join_path d (debug_file (if is_empty b then codes "/" else b) timestamp))
length-named_file d [] timestamp h = omega (arith, length-root_file d timestamp)
length-named_file d (c ∷ b) timestamp h = length-debug_file d (c ∷ b) timestamp h

length-debug_db_path :
    (p timestamp : Text) (o : Option (Text × Text))
    → split_last b'/' p ≡ o
    → Parts b'/' p o
    → length p < length (debug_db_path p timestamp)
unfolding debug_db_path dir base
length-debug_db_path p timestamp none e h =
    rw (debug_db_path, dir, base, e)
      (omega (
        arith,
        length-or_dot p,
        length-debug_file (codes ".") (if is_empty p then codes "." else p) timestamp
            (HasNo-or_dot p h),
      ))
length-debug_db_path p timestamp (some (a, b)) e h =
    rw (debug_db_path, dir, base, e)
      (omega (
        arith,
        ap length h.0,
        length-append a (b'/' ∷ b),
        length-or_root a,
        length-named_file (if is_empty a then codes "/" else a) b timestamp h.1,
      ))

-- The debug database is not where the requested one is.
pub debug_db_path-ne : (p timestamp : Text) → debug_db_path p timestamp ≢ p
debug_db_path-ne p timestamp same = absurd (
    omega (
      arith,
      length-debug_db_path p timestamp (split_last b'/' p) refl (split_last-Parts b'/' p),
      ap length same,
    ))
