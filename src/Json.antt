-- ===== src/Json.antt =====
-- JSON values and what the program uses of `encoding/json`: `Unmarshal` into a struct with string
-- fields. The reader of JSON text and the order in which Go walks a map are in a `Decoder`.
use aws_demo.Base.{
  ℕ, ◌+◌, Bool, true, false, ◌&&◌, ◌||◌, List, map, Option, none, some, if◌then◌else◌, ◌==◌, leb,
}
use aws_demo.Text.{Text, text_eq}

-- A number keeps its digits. The members of an object keep their order and their repetitions.
mutual
  pub data Json : Type 0 where
    null : Json
    bool : Bool → Json
    num : Text → Json
    str : Text → Json
    arr : Items → Json
    obj : Members → Json

  pub data Items : Type 0 where
    nil : Items
    cons : Json → Items → Items

  pub data Members : Type 0 where
    end : Members
    member : Text → Json → Members → Members

-- What encoding/json and the runtime decide: the value that a text denotes, if it is valid JSON;
-- whether a number fits a float64; and the order in which `range` walks a map, as a rearrangement
-- of what the walk yields for each member.
pub record Decoder : Type 0 where
  pub read : Text → Option Json
  pub fits_float64 : Text → Bool
  pub range_order : List (List Text) → List (List Text)

-- The case folding of a member's key: ASCII letters, and the two letters that fold to ASCII ones.
fold_rune : ℕ → ℕ
fold_rune c =
    if leb b'A' c && leb c b'Z'
    then c + 32
    else if c == 0x17f
    then b's'
    else if c == 0x212a
    then b'k'
    else c

-- Whether a member's key names a field.
unfoldable pub names : Text → Text → Bool
unfolding fold_rune text_eq
names key name = text_eq (map fold_rune key) (map fold_rune name)

-- What storing a value in a string field leaves: `null` leaves the field alone, and a value of
-- another type is an error, after which the whole call fails.
store_text : Option Text → Json → Option Text
store_text none v = none
store_text (some old) (str t) = some t
store_text (some old) null = some old
store_text (some old) v = none

-- A string field of a struct, after the members; `acc` is the field so far, or an error.
unfoldable pub string_field : Text → Option Text → Members → Option Text
unfolding names store_text
string_field name acc end = acc
string_field name acc (member key v rest) =
    string_field name (if names key name then store_text acc v else acc) rest

-- A json.RawMessage field: the last member of that name, `null` included.
unfoldable pub raw_field : Text → Option Json → Members → Option Json
unfolding names
raw_field name acc end = acc
raw_field name acc (member key v rest) =
    raw_field name (if names key name then some v else acc) rest

-- A struct at the top of a text: an object, or `null`, which has no members.
abbrev pub members : Json → Option Members
members null = some end
members (obj fs) = some fs
members _ = none

-- The value of a key in a decoded map: of repeated members, the last.
unfoldable pub map_value : Text → Option Json → Members → Option Json
unfolding text_eq
map_value k acc end = acc
map_value k acc (member key v rest) = map_value k (if text_eq key k then some v else acc) rest

unfoldable pub has_key : Text → Members → Bool
unfolding text_eq
has_key k end = false
has_key k (member key v rest) = text_eq key k || has_key k rest

-- Whether `Unmarshal` into `any` succeeds: every number fits.
unfoldable mutual
  pub fits : (Text → Bool) → Json → Bool
  fits ok null = true
  fits ok (bool b) = true
  fits ok (num d) = ok d
  fits ok (str t) = true
  fits ok (arr xs) = fits_items ok xs
  fits ok (obj fs) = fits_members ok fs

  pub fits_items : (Text → Bool) → Items → Bool
  fits_items ok nil = true
  fits_items ok (cons x xs) = fits ok x && fits_items ok xs

  pub fits_members : (Text → Bool) → Members → Bool
  fits_members ok end = true
  fits_members ok (member k v fs) = fits ok v && fits_members ok fs
