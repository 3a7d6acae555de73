-- ===== src/Secrets/Tests.antt =====
-- A secret with two keys, and the instance of the theorem on the values that are printed.
use aws_demo.Base.{◌≡◌, ◌↔◌, refl, [], ◌∷◌, Option, none, some, ok}
use aws_demo.Text.{Text, codes, text_eq, trim_space}
use aws_demo.Json.{Json, str, obj, end, member, map_value}
use aws_demo.Secrets.{SecretService, read_secret_value, run_get_secrets}
use aws_demo.Secrets.Values.{IsPrinted, read_secret_value_iff}

abbrev keys : Json
keys = obj (member (codes "A") (str (codes " x\n")) (member (codes "B") (str (codes "y")) end))

abbrev reader : Text → Option Json
reader s = some keys

abbrev store : SecretService
store = record {
  config_error = λ region. none;
  get_secret_value = λ region name. ok (some (codes "{}"));
}

reads_one :
    run_get_secrets reader store (codes "us-west-2") (codes "A") (codes "keys" ∷ [])
    ≡ ok (codes "x")
unfolding run_get_secrets text_eq trim_space map_value
reads_one = refl

read_secret_value_iff_example :
    (read_secret_value reader store (codes "us-west-2") (codes "keys") (codes "A") ≡ ok (codes "x"))
    ↔ IsPrinted reader store (codes "us-west-2") (codes "keys") (codes "A") (codes "x")
read_secret_value_iff_example =
    read_secret_value_iff reader store (codes "us-west-2") (codes "keys") (codes "A") (codes "x")
