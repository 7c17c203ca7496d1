-- ===== src/Groups/Filters.antt =====
-- The filters of dynamic groups in `resolve_dynamic_members`: when a filter raises, and the nodes
-- that its query selects.
use Prim.Native.Nat.{◌^◌}
use meshonator.Base.{
  ◌+◌, ◌*◌, String, Bool, true, false, ◌&&◌, ◌||◌, Option, none, some, ◌==◌, if◌then◌else◌, nat_eq,
  string_eq, bool_eq, leb,
}
use meshonator.Base.Int.{pos_part, neg_part}
use meshonator.Json.{Value, str, obj, float, Fields, end, field, get, truthy, as_int}
use meshonator.Db.{Real, ManagedNodeModel}
use meshonator.Db.Session.{Exn, other_error}

-- a number of a filter, as a Float column compares with it
unfoldable pub as_real : Value → Option Real
as_real (float m k) = some (record { mantissa = m; scale = k })
as_real v = elim (as_int v) [ none ↦ none | some z ↦ some (record { mantissa = z; scale = 0 }) ]

unfoldable pub real_leb : Real → Real → Bool
real_leb a b =
    leb (pos_part a.mantissa * 2 ^ b.scale + neg_part b.mantissa * 2 ^ a.scale)
      (pos_part b.mantissa * 2 ^ a.scale + neg_part a.mantissa * 2 ^ b.scale)

-- `column >= low AND column <= high`; a NULL column fails both
unfoldable pub between : Option Real → Option Real → Option Real → Bool
between (some low) (some high) (some x) = real_leb low x && real_leb x high
between _ _ _ = false

-- `column == value` for a text column and a value that is true; only a text can be equal
unfoldable pub text_is : Value → Option String → Bool
text_is (str s) (some t) = t == s
text_is _ _ = false

-- the condition that a filter's entry adds, if the entry is there and true
abbrev pub text_clause : Option Value → Option String → Bool
text_clause none column = true
text_clause (some v) column = if truthy v then text_is v column else true

-- `column.is_(bool(f[key]))`, if the key is there
abbrev flag_clause : Option Value → Bool → Bool
flag_clause none column = true
flag_clause (some v) column = column == truthy v

abbrev pub real_of : Option Value → Option Real
real_of none = none
real_of (some v) = as_real v

abbrev pub bbox_clause : Option Value → ManagedNodeModel → Bool
bbox_clause none node = true
bbox_clause (some (obj box)) node =
    if truthy (obj box)
    then between (real_of (get "min_lat" box)) (real_of (get "max_lat" box)) node.latitude
      && between (real_of (get "min_lon" box)) (real_of (get "max_lon" box)) node.longitude
    else true
bbox_clause (some v) node = true

abbrev missing : Option Value → Bool
missing none = true
missing (some x) = false

-- `bbox["min_lat"]` and the others: a missing key raises, and so does a bbox that is no dict
unfoldable pub bbox_error : Option Value → Option Exn
bbox_error none = none
bbox_error (some (obj end)) = none
bbox_error (some (obj (field k v d))) =
    let box : Fields = field k v d in
    if missing (get "min_lat" box)
      || missing (get "max_lat" box)
      || missing (get "min_lon" box)
      || missing (get "max_lon" box)
    then some (other_error "KeyError")
    else none
bbox_error (some v) = if truthy v then some (other_error "TypeError") else none

-- the WHERE of the query
unfoldable pub selects : Fields → ManagedNodeModel → Bool
selects f node =
    text_clause (get "provider" f) (some node.provider)
    && text_clause (get "firmware" f) node.firmware_version
    && flag_clause (get "favorite" f) node.favorite
    && flag_clause (get "reachable" f) node.reachable
    && text_clause (get "role" f) node.role
    && bbox_clause (get "bbox" f) node
