-- ===== src/Secrets/Values.antt =====
-- Which values the program prints: readSecretValue of get-secrets.go.
use mathlib.Core.Path.{subst}
use mathlib.Core.Option.{some-injective}
use aws_demo.Base.{
  ◌≡◌, ◌⊎◌, ◌↔◌, refl, sym, ap, ◌∙◌, true, false, [], ◌∷◌, Option, none, some, ok, if◌then◌else◌,
  Bool-cases, Option-cases, Result-cases, inl, inr,
}
use aws_demo.Text.{Text, is_empty, text_eq, trim_space}
use aws_demo.Json.{Json, null, str, Members, end, member, map_value, has_key}
use aws_demo.Secrets.{
  SecretService, all_texts, field_text, member_field, value_field, read_members, get_secret_string,
  get_secret_json_field, resolved, checked, read_secret_value,
}

-- The last member of that key has that value.
pub data IsLast (k : Text) (v : Json) : Members → Type 0 where
  here :
      (key : Text) (rest : Members)
      → text_eq key k ≡ true
      → has_key k rest ≡ false
      → IsLast k v (member key v rest)
  later :
      (key : Text) (u : Json) (rest : Members) → IsLast k v rest → IsLast k v (member key u rest)

map_value-absent :
    (k : Text) (acc : Option Json) (fs : Members) → has_key k fs ≡ false → map_value k acc fs ≡ acc
unfolding map_value has_key
map_value-absent k acc end h = refl
map_value-absent k acc (member key v rest) h = elim (Bool-cases (text_eq key k)) [
  | inl e ↦ absurd (cc (rw e at h))
  | inr e ↦ rw e (map_value-absent k acc rest (rw e at h))
]

map_value-last :
    (k : Text) (v : Json) (acc : Option Json) (fs : Members)
    → IsLast k v fs
    → map_value k acc fs ≡ some v
unfolding map_value
map_value-last k v acc end h = elim h [ ]
map_value-last k v acc (member key v' rest) (here _ _ e absent) =
    rw e (map_value-absent k (some v') rest absent)
map_value-last k v acc (member key u rest) (later _ _ _ h) =
    map_value-last k v (if text_eq key k then some u else acc) rest h

IsLast-or_absent :
    (k : Text) (v : Json) (acc : Option Json) (fs : Members)
    → map_value k acc fs ≡ some v
    → IsLast k v fs ⊎ ((has_key k fs ≡ false) × (acc ≡ some v))
unfolding map_value has_key
IsLast-or_absent k v acc end h = inr (refl, h)
IsLast-or_absent k v acc (member key u rest) h =
    elim (IsLast-or_absent k v (if text_eq key k then some u else acc) rest h) [
      | inl l ↦ inl (later key u rest l)
      | inr (absent, is) ↦ elim (Bool-cases (text_eq key k)) [
        | inl e ↦
            let same : some u ≡ some v = rw e at is in
            inl (
              subst (λ x. IsLast k v (member key x rest)) (sym (some-injective u v same))
                (here key rest e absent))
        | inr e ↦ inr (rw e absent, rw e at is)
      ]
    ]

-- What a secret holds for a request: without a field all of it, and with one the text of the last
-- member of that name of a JSON object of texts.
pub data IsHeld (read : Text → Option Json) (field secret : Text) : Text → Type 0 where
  whole : (t : Text) → is_empty field ≡ true → t ≡ secret → IsHeld read field secret t
  of_member :
      (t : Text) (fs : Members)
      → is_empty field ≡ false
      → read_members (read secret) ≡ some fs
      → all_texts fs ≡ true
      → IsLast field (str t) fs
      → IsHeld read field secret t

-- The service gave a string, and the value is what it holds, trimmed, and not empty.
pub record IsPrinted (read : Text → Option Json) (service : SecretService)
    (region name field value : Text) : Type 0 where
  pub secret : Text
  pub configured : service.config_error region ≡ none
  pub fetched : service.get_secret_value region name ≡ ok (some secret)
  pub text : Text
  pub held : IsHeld read field secret text
  pub trimmed : value ≡ trim_space text
  pub given : is_empty value ≡ false

string-got :
    (service : SecretService) (region name secret : Text)
    → get_secret_string service region name ≡ ok secret
    → (service.config_error region ≡ none)
      × (service.get_secret_value region name ≡ ok (some secret))
unfolding get_secret_string
string-got service region name secret h = elim (Option-cases (service.config_error region)) [
  | inr (x, e) ↦ absurd (cc (rw (get_secret_string, e) at h))
  | inl e ↦ elim (Result-cases (service.get_secret_value region name)) [
    | inr (x, e') ↦ absurd (cc (rw (get_secret_string, e, e') at h))
    | inl (none, e') ↦ absurd (cc (rw (get_secret_string, e, e') at h))
    | inl (some s, e') ↦
        let same : s ≡ secret = cc (rw (get_secret_string, e, e') at h) in
        (e, e' ∙ ap (λ t. ok (some t)) same)
  ]
]

string-gets :
    (service : SecretService) (region name secret : Text)
    → service.config_error region ≡ none
    → service.get_secret_value region name ≡ ok (some secret)
    → get_secret_string service region name ≡ ok secret
unfolding get_secret_string
string-gets service region name secret configured fetched =
    rw (get_secret_string, configured, fetched) refl

checked-trimmed :
    (value text : Text)
    → value ≡ trim_space text
    → is_empty value ≡ false
    → checked (trim_space text) ≡ ok value
checked-trimmed value text trimmed given = rw (← trimmed, given) refl

field_text-held :
    (v : Option Json) (value : Text)
    → field_text v ≡ ok value
    → is_empty value ≡ false
    → (t : Text) × (v ≡ some (str t)) × (value ≡ trim_space t)
unfolding trim_space
field_text-held none value h given = absurd (cc h)
field_text-held (some (str t)) value h given = (t, refl, sym (cc h))
field_text-held (some null) value h given =
    let same : ◌≡◌ {A = Text} [] value = cc h in absurd (cc (ap is_empty same))
field_text-held (some _) value h given = absurd (cc h)

member_field-held :
    (field : Text) (fs : Members) (value : Text)
    → member_field field fs ≡ ok value
    → is_empty value ≡ false
    → (t : Text) × (all_texts fs ≡ true) × IsLast field (str t) fs × (value ≡ trim_space t)
unfolding member_field
member_field-held field fs value h given = elim (Bool-cases (all_texts fs)) [
  | inr e ↦ absurd (cc (rw e at h))
  | inl e ↦
      let (t, is, trimmed) = field_text-held (map_value field none fs) value (rw e at h) given in
      elim (IsLast-or_absent field (str t) none fs is) [
        | inl l ↦ (t, e, l, trimmed)
        | inr (absent, wrong) ↦ absurd (cc wrong)
      ]
]

IsHeld-of_member :
    (read : Text → Option Json) (field secret : Text) (o : Option Members) (value : Text)
    → is_empty field ≡ false
    → read_members (read secret) ≡ o
    → value_field field o ≡ ok value
    → is_empty value ≡ false
    → (t : Text) × IsHeld read field secret t × (value ≡ trim_space t)
IsHeld-of_member read field secret none value named e h given = absurd (cc h)
IsHeld-of_member read field secret (some fs) value named e h given =
    let (t, texts, l, trimmed) = member_field-held field fs value h given in
    (t, of_member t fs named e texts l, trimmed)

held :
    (read : Text → Option Json) (field secret value : Text)
    → resolved read field secret ≡ ok value
    → is_empty value ≡ false
    → (t : Text) × IsHeld read field secret t × (value ≡ trim_space t)
unfolding get_secret_json_field
held read field secret value h given = elim (Bool-cases (is_empty field)) [
  | inl e ↦ (secret, whole secret e refl, sym (cc (rw e at h)))
  | inr e ↦
      IsHeld-of_member read field secret (read_members (read secret)) value e refl (rw e at h) given
]

checked-given : (value v : Text) → checked value ≡ ok v → (value ≡ v) × (is_empty v ≡ false)
checked-given [] v h = absurd (cc h)
checked-given (c ∷ value) v h = let same : c ∷ value ≡ v = cc h in (same, ap is_empty (sym same))

resolves :
    (read : Text → Option Json) (field secret text : Text)
    → IsHeld read field secret text
    → resolved read field secret ≡ ok (trim_space text)
unfolding get_secret_json_field member_field
resolves read field secret text (whole _ e same) = rw (e, same) refl
resolves read field secret text (of_member _ fs named is texts l) =
    rw (named, is, texts, map_value-last field (str text) none fs l) refl

module _ (read : Text → Option Json) (service : SecretService)
    (region name field value : Text) where
  prints :
      read_secret_value read service region name field ≡ ok value
      → IsPrinted read service region name field value
  unfolding read_secret_value
  prints h = elim (Result-cases (get_secret_string service region name)) [
    | inr (x, e) ↦ absurd (cc (rw e at h))
    | inl (secret, e) ↦ elim (Result-cases (resolved read field secret)) [
      | inr (x, e') ↦ absurd (cc (rw (e, e') at h))
      | inl (v, e') ↦
          let (same, given) = checked-given v value (rw (e, e') at h) in
          let (configured, fetched) = string-got service region name secret e in
          let (t, holds, trimmed) = held read field secret value (e' ∙ ap ok same) given in
          record {
            secret = secret;
            configured = configured;
            fetched = fetched;
            text = t;
            held = holds;
            trimmed = trimmed;
            given = given;
          }
    ]
  ]

  printed :
      IsPrinted read service region name field value
      → read_secret_value read service region name field ≡ ok value
  unfolding read_secret_value
  printed p = rw (string-gets service region name p.secret p.configured p.fetched) (
      rw (resolves read field p.secret p.text p.held)
        (checked-trimmed value p.text p.trimmed p.given))

  -- A value is printed exactly when the service gave a string, the value is what the string holds for
  -- the field, trimmed, and it is not empty.
  pub read_secret_value_iff :
      (read_secret_value read service region name field ≡ ok value)
      ↔ IsPrinted read service region name field value
  read_secret_value_iff = (prints, printed)
