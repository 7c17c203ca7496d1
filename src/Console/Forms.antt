-- ===== src/Console/Forms.antt =====
-- api/app.py: how the console reads the fields of its forms. `float`, `int`, `json.loads` and `UUID`
-- are parameters.
pub mod Lines
use Prim.Native.String
use Prim.Native.Char.{Char, code}
use meshonator.Base.{
  ◌≡◌, refl, ℕ, String, Bool, true, false, ◌&&◌, ◌||◌, not, Option, none, some, List, [], ◌∷◌, ◌==◌,
  if◌then◌else◌, string_eq, nat_eq, leb, any, filter_by, map, All, arith, Bool-cases, inl, inr,
}
use meshonator.Base.Text.{strip, lower, upper, is_empty}
use meshonator.Json.{Value, null, bool, int, float, str, obj, arr, Fields, end, Items, nil}
use meshonator.Db.{Uuid}
use meshonator.Db.Session.{Exn, value_error, Result, ok, raised}

-- a comma, or a character that `str.splitlines` breaks at; a "\r\n" gives an empty line more than
-- there, which `_parse_multi_value` drops
unfoldable pub is_break : Char → Bool
is_break c =
    code c == 44
    || (leb 10 (code c) && leb (code c) 13)
    || (leb 28 (code c) && leb (code c) 30)
    || code c == 133
    || code c == 8232
    || code c == 8233

abbrev pub extend_first : Char → List String → List String
extend_first c [] = String.◌∷◌ c String.[] ∷ []
extend_first c (line ∷ lines) = String.◌∷◌ c line ∷ lines

-- `raw.replace(",", "\n").splitlines()`
unfoldable pub chunks : String → List String
chunks String.[] = String.[] ∷ []
chunks (String.◌∷◌ c s) =
    let rest = chunks s in if is_break c then String.[] ∷ rest else extend_first c rest

-- the loop over the chunks
unfoldable pub stripped : List String → List String
stripped [] = []
stripped (chunk ∷ rest) =
    let values = stripped rest in if is_empty (strip chunk) then values else strip chunk ∷ values

unfoldable pub parse_multi_value : String → List String
parse_multi_value raw = stripped (chunks raw)

-- `_normalize_roles`
unfoldable normalize_roles : String → List String
normalize_roles raw =
    filter_by (λ r. not (is_empty r)) (map (λ item. upper (strip item)) (parse_multi_value raw))

unfoldable has_discovery_targets : List (List String) → Bool
has_discovery_targets collections =
    any (λ collection. any (λ item. not (is_empty (strip item))) collection) collections

-- `_parse_optional_float` and `_parse_optional_int`, for `float` and `int`
unfoldable pub parse_optional : {A : Type 0} → (String → Result A) → String → Result (Option A)
parse_optional number raw =
    if is_empty (strip raw)
    then ok none
    else elim (number (strip raw)) [ ok a ↦ ok (some a) | raised e ↦ raised e ]

unfoldable pub parse_optional_text : String → Option String
parse_optional_text raw = if is_empty (strip raw) then none else some (strip raw)

unfoldable pub parse_optional_bool : String → Result (Option Bool)
parse_optional_bool raw =
    let value : String = lower (strip raw) in
    if is_empty value || value == "keep"
    then ok none
    else if value == "true" || value == "1" || value == "yes" || value == "on"
    then ok (some true)
    else if value == "false" || value == "0" || value == "no" || value == "off"
    then ok (some false)
    else raised (value_error (String.◌++◌ "Invalid boolean value: " raw))

-- `json.loads`: the value, or the line and the column of a JSONDecodeError as texts
pub data Decoded : Type 0 where
  value : Value → Decoded
  broken : (line column : String) → Decoded

unfoldable parse_json_error : String → String → String → Exn
parse_json_error label line column = value_error (
    String.◌++◌ "Invalid JSON in " (
      String.◌++◌ label (
        String.◌++◌ " at line " (
          String.◌++◌ line
            (String.◌++◌ ", column " (String.◌++◌ column ". Check quotes, commas, and braces."))))))

abbrev dict_result : String → Decoded → Result Fields
dict_result label (value (obj d)) = ok d
dict_result label (value v) = raised (value_error (String.◌++◌ label " must be a JSON object"))
dict_result label (broken line column) = raised (parse_json_error label line column)

abbrev list_result : String → Decoded → Result Items
list_result label (value (arr xs)) = ok xs
list_result label (value v) = raised (value_error (String.◌++◌ label " must be a JSON array"))
list_result label (broken line column) = raised (parse_json_error label line column)

module _ (loads : String → Decoded) where
  unfoldable parse_json_dict : String → String → Result Fields
  parse_json_dict raw label =
      if is_empty (strip raw) then ok end else dict_result label (loads (strip raw))

  unfoldable parse_json_list : String → String → Result Items
  parse_json_list raw label =
      if is_empty (strip raw) then ok nil else list_result label (loads (strip raw))

-- `_parse_uuid_list`
unfoldable parse_uuid_list : (String → Result Uuid) → List String → Result (List Uuid)
parse_uuid_list uuid [] = ok []
parse_uuid_list uuid (raw ∷ values) =
    let rest = parse_uuid_list uuid values in
    if is_empty (strip raw) then rest else elim (uuid (strip raw)) [
      | raised e ↦ raised e
      | ok id ↦ elim rest [ ok out ↦ ok (id ∷ out) | raised e ↦ raised e ]
    ]

-- `_coerce_structured_value`; bytes stay the text that they encode
unfoldable coerce_structured_value :
    (String → Result Value)
    → (String → Result Value)
    → (String → Result Value)
    → String
    → String
    → Result Value
coerce_structured_value int_of float_of loads kind raw =
    if kind == "bool"
    then (let word : String = lower (strip raw) in
        ok (bool (word == "true" || word == "1" || word == "yes" || word == "on")))
    else if kind == "int"
    then int_of (strip raw)
    else if kind == "float"
    then float_of (strip raw)
    else if kind == "json"
    then loads (if is_empty (strip raw) then "[]" else strip raw)
    else ok (str raw)
