-- ===== src/Console/Redact.antt =====
-- api/app.py: what the console hides from operators: `_is_sensitive_operator_segment`,
-- `_is_sensitive_operator_path` and `_redact_operator_metadata`.
use mathlib.Core.Path.{subst}
use meshonator.Base.{
  ◌≡◌, refl, sym, ap, String, Bool, true, ◌||◌, none, some, List, [], ◌∷◌, ◌==◌, if◌then◌else◌,
  string_eq, arith, any, Bool-cases, Option-cases, inl, inr, ◌⊎◌,
}
use meshonator.Base.Text.{strip, lower, ends_with}
use meshonator.Json.{
  Value, null, bool, int, float, str, obj, arr, Fields, end, field, Items, nil, cons, get,
}
use meshonator.Console.Nested.{get_nested, or_null}

unfoldable pub is_sensitive_operator_segment : String → Bool
is_sensitive_operator_segment segment =
    let lowered : String = lower (strip segment) in
    lowered == "security"
    || lowered == "privatekey"
    || lowered == "publickey"
    || lowered == "password"
    || lowered == "psk"
    || lowered == "primarychannelurl"
    || lowered == "secret"
    || lowered == "token"
    || ends_with lowered "password"

unfoldable pub is_sensitive_operator_path : List String → Bool
is_sensitive_operator_path path = any is_sensitive_operator_segment path

unfoldable mutual
  pub redact_operator_metadata : Value → Value
  redact_operator_metadata (obj d) = obj (redact_fields d)
  redact_operator_metadata (arr xs) = arr (redact_items xs)
  redact_operator_metadata value = value

  redact_fields : Fields → Fields
  redact_fields end = end
  redact_fields (field key item d) =
      let shown = redact_operator_metadata item in
      field key (if is_sensitive_operator_segment key then str "[redacted]" else shown)
        (redact_fields d)

  redact_items : Items → Items
  redact_items nil = nil
  redact_items (cons item xs) = cons (redact_operator_metadata item) (redact_items xs)

-- what the console shows under a key
abbrev shown_under : String → Value → Value
shown_under key item =
    if is_sensitive_operator_segment key then str "[redacted]" else redact_operator_metadata item

get-redact :
    (key : String) (d : Fields) (v : Value)
    → get key d ≡ some v
    → get key (redact_fields d) ≡ some (shown_under key v)
unfolding get redact_operator_metadata
get-redact key end v h = cc
get-redact key (field k item d) v h = ground (arith, get-redact key d v)

get-redact_none : (key : String) (d : Fields) → get key d ≡ none → get key (redact_fields d) ≡ none
unfolding get redact_operator_metadata
get-redact_none key end h = refl
get-redact_none key (field k item d) h = ground (arith, get-redact_none key d)

mutual
  unfolding redact_operator_metadata

  value_twice :
      (v : Value)
      → redact_operator_metadata (redact_operator_metadata v) ≡ redact_operator_metadata v
  value_twice null = refl
  value_twice (bool b) = refl
  value_twice (int z) = refl
  value_twice (float m k) = refl
  value_twice (str t) = refl
  value_twice (obj d) = ap obj (redact_fields_twice d)
  value_twice (arr xs) = ap arr (redact_items_twice xs)

  redact_fields_twice : (d : Fields) → redact_fields (redact_fields d) ≡ redact_fields d
  redact_fields_twice end = refl
  redact_fields_twice (field key item d) = ground (arith, value_twice item, redact_fields_twice d)

  redact_items_twice : (xs : Items) → redact_items (redact_items xs) ≡ redact_items xs
  redact_items_twice nil = refl
  redact_items_twice (cons item xs) = cc (value_twice item, redact_items_twice xs)

-- Redacting what was redacted already changes nothing.
redact_twice :
    (v : Value) → redact_operator_metadata (redact_operator_metadata v) ≡ redact_operator_metadata v
redact_twice v = value_twice v

-- What stands at a path that a segment of is sensitive: nothing, or the mark.
abbrev pub Hidden : Value → Type 0
Hidden v = (v ≡ null) ⊎ (v ≡ str "[redacted]")

text-Hidden : (path : List String) → Hidden (get_nested (str "[redacted]") path)
unfolding get_nested
text-Hidden [] = inr refl
text-Hidden (segment ∷ path) = inl refl

null-Hidden : (path : List String) → Hidden (get_nested null path)
unfolding get_nested
null-Hidden [] = inl refl
null-Hidden (segment ∷ path) = inl refl

-- Along a path with a sensitive segment, the metadata that an operator is shown holds nothing, or
-- the mark "[redacted]".
pub redact_hides :
    (v : Value) (path : List String)
    → is_sensitive_operator_path path ≡ true
    → Hidden (get_nested (redact_operator_metadata v) path)
unfolding get_nested or_null redact_operator_metadata is_sensitive_operator_path
redact_hides v [] h = cc
redact_hides null (segment ∷ path) h = inl refl
redact_hides (bool b) (segment ∷ path) h = inl refl
redact_hides (int z) (segment ∷ path) h = inl refl
redact_hides (float m k) (segment ∷ path) h = inl refl
redact_hides (str t) (segment ∷ path) h = inl refl
redact_hides (arr xs) (segment ∷ path) h = inl refl
redact_hides (obj d) (segment ∷ path) h = elim (Option-cases (get segment d)) [
  | inl e ↦
      subst (λ o. Hidden (get_nested (or_null o) path)) (sym (get-redact_none segment d e))
        (null-Hidden path)
  | inr (v, e) ↦
      subst (λ o. Hidden (get_nested (or_null o) path)) (sym (get-redact segment d v e))
        (elim (Bool-cases (is_sensitive_operator_segment segment)) [
          | inl hit ↦ rw hit (text-Hidden path)
          | inr clear ↦ rw clear (redact_hides v path (ground (arith, h, clear)))
        ])
]
