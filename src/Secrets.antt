-- ===== src/Secrets.antt =====
-- The program that fetches secrets: conductor-and-worker/worker/go-worker/cmd/get-secrets. What the
-- secrets service answers and the reader of JSON text are parameters.
pub mod Values
mod Tests
use aws_demo.Base.{
  Bool, true, false, ◌&&◌, List, [], ◌∷◌, Option, none, some, Result, ok, err, if◌then◌else◌,
  and_then,
}
use aws_demo.Text.{Text, codes, is_empty, trim_space}
use aws_demo.Json.{Json, null, bool, num, str, arr, obj, Members, end, member, members, map_value}

pub data SecretError : Type 0 where
  config_failed fetch_failed : Text → SecretError
  no_string_value parse_failed field_not_found value_empty usage : SecretError

-- What loading the configuration and GetSecretValue answer: an error each, and the pointer to the
-- secret's string.
pub record SecretService : Type 0 where
  pub config_error : Text → Option Text
  pub get_secret_value : Text → Text → Result Text (Option Text)

-- getSecretString
unfoldable pub get_secret_string : SecretService → Text → Text → Result SecretError Text
get_secret_string service region name = elim (service.config_error region) [
  | some e ↦ err (config_failed e)
  | none ↦ elim (service.get_secret_value region name) [
    | err e ↦ err (fetch_failed e)
    | ok none ↦ err no_string_value
    | ok (some s) ↦ ok s
  ]
]

-- A value that json.Unmarshal stores in a string: of null, the empty one.
abbrev pub stored_text : Json → Option Text
stored_text null = some []
stored_text (bool b) = none
stored_text (num d) = none
stored_text (str t) = some t
stored_text (arr xs) = none
stored_text (obj fs) = none

abbrev pub is_text : Json → Bool
is_text v = elim (stored_text v) [ none ↦ false | some t ↦ true ]

-- json.Unmarshal into a map of strings succeeds.
abbrev pub all_texts : Members → Bool
all_texts end = true
all_texts (member k v rest) = is_text v && all_texts rest

abbrev pub field_text : Option Json → Result SecretError Text
field_text none = err field_not_found
field_text (some v) = elim (stored_text v) [ none ↦ err parse_failed | some t ↦ ok (trim_space t) ]

-- getSecretJSONField, of the members of the value; `null` has none.
unfoldable pub member_field : Text → Members → Result SecretError Text
member_field field fs =
    if all_texts fs then field_text (map_value field none fs) else err parse_failed

abbrev pub value_field : Text → Option Members → Result SecretError Text
value_field field none = err parse_failed
value_field field (some fs) = member_field field fs

abbrev pub read_members : Option Json → Option Members
read_members none = none
read_members (some v) = members v

-- getSecretJSONField
unfoldable pub get_secret_json_field : (Text → Option Json) → Text → Text → Result SecretError Text
unfolding member_field
get_secret_json_field read secret field = value_field field (read_members (read secret))

-- The value of readSecretValue before its last check.
abbrev pub resolved : (Text → Option Json) → Text → Text → Result SecretError Text
resolved read field secret =
    if is_empty field then ok (trim_space secret) else get_secret_json_field read secret field

abbrev pub checked : Text → Result SecretError Text
checked value = if is_empty value then err value_empty else ok value

-- readSecretValue
unfoldable pub read_secret_value :
    (Text → Option Json) → SecretService → Text → Text → Text → Result SecretError Text
unfolding get_secret_string get_secret_json_field
read_secret_value read service region name field =
    and_then (get_secret_string service region name)
      λ secret. and_then (resolved read field secret) checked

-- print_secret, which nothing calls: what is printed, or the error of log.Fatal.
unfoldable pub print_secret :
    (Text → Option Json) → SecretService → Text → Text → Result SecretError Text
unfolding read_secret_value
print_secret read service region name = read_secret_value read service region name []

-- main: what is printed, or the error of log.Fatal.
unfoldable pub run_get_secrets :
    (Text → Option Json) → SecretService → Text → Text → List Text → Result SecretError Text
unfolding read_secret_value
run_get_secrets read service region field [] = err usage
run_get_secrets read service region field (name ∷ []) =
    read_secret_value read service region name field
run_get_secrets read service region field (a ∷ b ∷ rest) = err usage
