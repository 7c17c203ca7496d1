-- ===== src/Channels/Clone.antt =====
-- What a batch job clones from a source node: `_sanitize_clone_local_config` and
-- `_channels_to_patch` of jobs/queue.py, and the `_channels_to_patch` of api/app.py.
use text.Mathlib.TextEquality.{eq_iff}
use meshonator.Base.{
  String, ◌≡◌, ◌≢◌, refl, Bool, true, false, not, ◌&&◌, Option, none, some, arith, ◌==◌,
  if◌then◌else◌, string_eq, ◌||◌, Option-cases, inl, inr,
}
use meshonator.Base.Text.{strip, upper, is_empty}
use meshonator.Json.{Value, str, obj, Items, nil, cons, Fields, get, set, pop}
use meshonator.Json.Laws.{get-set, get-pop}
use meshonator.Channels.{index_of, bare_row}

drop_role : Option Value → Fields → Fields
drop_role (some (obj device)) out = set "device" (obj (pop "role" device)) out
drop_role _ out = out

unfoldable pub sanitize_clone_local_config : Fields → Bool → Fields
unfolding drop_role
sanitize_clone_local_config local_cfg include_role =
    let out = pop "security" local_cfg in
    if include_role then out else drop_role (get "device" out) out

-- `row[key] = value`, if there is a value
unfoldable pub set_some : String → Option Value → Fields → Fields
set_some key none row = row
set_some key (some v) row = set key v row

-- the value, if it is a dict
unfoldable pub dict_only : Option Value → Option Value
dict_only (some (obj d)) = some (obj d)
dict_only _ = none

-- the value, or else the other
unfoldable pub or_else : Option Value → Option Value → Option Value
or_else none other = other
or_else (some v) other = some v

-- the stripped role in capitals, if it is a text with something in it
unfoldable pub role_name : Option Value → Option Value
role_name (some (str role)) =
    if is_empty (strip role) then none else some (str (upper (strip role)))
role_name _ = none

-- one channel, in jobs/queue.py
unfoldable pub clone_row : Fields → Fields
clone_row item =
    set_some "moduleSettings"
      (or_else (dict_only (get "moduleSettings" item)) (dict_only (get "module_settings" item)))
      (set_some "settings" (dict_only (get "settings" item))
        (set_some "role" (role_name (get "role" item)) (bare_row item)))

unfoldable pub channels_to_patch : Items → Items
channels_to_patch nil = nil
channels_to_patch (cons (obj item) rest) =
    let out = channels_to_patch rest in
    elim (index_of item) [ none ↦ out | some i ↦ cons (obj (clone_row item)) out ]
channels_to_patch (cons _ rest) = channels_to_patch rest

-- the role as it stands, if it is a text with something in it
unfoldable plain_role : Option Value → Option Value
plain_role (some (str role)) = if is_empty role then none else some (str role)
plain_role _ = none

-- one channel, in api/app.py
unfoldable console_row : Fields → Fields
console_row item = set_some "role" (plain_role (get "role" item)) (
    set_some "moduleSettings" (dict_only (get "module_settings" item)) (
      set_some "moduleSettings" (dict_only (get "moduleSettings" item))
        (set_some "settings" (dict_only (get "settings" item)) (bare_row item))))

unfoldable console_channels_to_patch : Items → Items
console_channels_to_patch nil = nil
console_channels_to_patch (cons (obj item) rest) =
    let out = console_channels_to_patch rest in
    elim (index_of item) [ none ↦ out | some i ↦ cons (obj (console_row item)) out ]
console_channels_to_patch (cons _ rest) = console_channels_to_patch rest

get-set_some :
    (j k : String) (o : Option Value) (row : Fields)
    → get j (set_some k o row) ≡ (if j == k then or_else o (get j row) else get j row)
unfolding set_some or_else
get-set_some j k none row = ground arith
get-set_some j k (some v) row = get-set j k v row

get-bare_row :
    (j : String) (item : Fields)
    → get j (bare_row item) ≡ (if j == "index" then get "index" item else none)
unfolding bare_row get
get-bare_row j item = ground arith

-- The keys that a cloned channel can have.
abbrev clone_keys : String → Bool
clone_keys k = k == "index" || k == "role" || k == "settings" || k == "moduleSettings"

clone_row-keys :
    (k : String) (item : Fields)
    → get k (clone_row item) ≡ (if clone_keys k then get k (clone_row item) else none)
unfolding clone_row
clone_row-keys k item = simp (get-set_some, get-bare_row) (ground arith)

-- every entry of the list is a dict with `P`
abbrev AllRows : (Fields → Type 0) → Items → Type 0
AllRows P nil = Unit
AllRows P (cons (obj row) rest) = P row × AllRows P rest
AllRows P (cons _ rest) = ⊥

-- The rows of a cloned channel list hold nothing but an int index, a role, settings and module
-- settings: no other entry of the source's channels is copied.
channels_to_patch-keys :
    (channels : Items)
    → AllRows
        (λ row. (k : String) → get k row ≡ (if clone_keys k then get k row else none))
        (channels_to_patch channels)
unfolding channels_to_patch
channels_to_patch-keys nil = tt
channels_to_patch-keys (cons (obj item) rest) = elim (Option-cases (index_of item)) [
  | inl e ↦ rw (e, channels_to_patch) (channels_to_patch-keys rest)
  | inr (i, e) ↦
      rw (e, channels_to_patch) ((λ k. clone_row-keys k item), channels_to_patch-keys rest)
]
channels_to_patch-keys (cons _ rest) = channels_to_patch-keys rest

-- a device section without its role
unfoldable without_role : Option Value → Option Value
without_role (some (obj device)) = some (obj (pop "role" device))
without_role o = o

security-ne-device : ◌≢◌ {A = String} "security" "device"
security-ne-device = ground (arith, eq_iff "security" "device")

get-drop_role :
    (k : String) (d : Option Value) (out : Fields)
    → get "device" out ≡ d
    → get k (drop_role d out) ≡ (if k == "device" then without_role d else get k out)
unfolding drop_role without_role
get-drop_role k (some (obj device)) out h = get-set k "device" (obj (pop "role" device)) out
get-drop_role k _ out h = ground arith

-- Of each section of a node's local configuration, what a clone takes: nothing of the security
-- section, the device section without its role unless the role was asked for, and every other
-- section whole.
sanitize_clone_local_config_lem :
    (k : String) (local_cfg : Fields) (include_role : Bool)
    → get k (sanitize_clone_local_config local_cfg include_role) ≡ (
        if k == "security"
        then none
        else if k == "device" && not include_role
        then without_role (get "device" local_cfg)
        else get k local_cfg)
unfolding sanitize_clone_local_config
sanitize_clone_local_config_lem k local_cfg true = ground (arith, get-pop k "security" local_cfg)
sanitize_clone_local_config_lem k local_cfg false = ground (
  arith,
  get-drop_role k (get "device" (pop "security" local_cfg)) (pop "security" local_cfg) refl,
  get-pop k "security" local_cfg,
  get-pop "device" "security" local_cfg,
  security-ne-device,
)
