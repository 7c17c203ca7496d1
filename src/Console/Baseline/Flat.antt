-- ===== src/Console/Baseline/Flat.antt =====
-- The dicts that a patch for a fleet is made of: flat ones, and dicts of flat ones.
use meshonator.Base.{◌≡◌, refl, String, Bool, Option, none, some, ◌⊎◌, inl, inr, arith, string_eq}
use meshonator.Base.Int.{ℤ, pos, int_eq}
use meshonator.Console.Baseline.{
  FleetPatch, put_value, put_section, channel_part, primary_row, int_value, bool_value, text_value,
  capital_value, truthy_int,
}
use meshonator.Json.{Value, int, obj, arr, Fields, end, field, Items, nil, cons, get, set}
use meshonator.Json.Laws.{get-set}

abbrev Scalar : Value → Type 0
Scalar (obj d) = ⊥
Scalar (arr xs) = ⊥
Scalar _ = Unit

-- a dict of scalars, no key twice
abbrev pub Flat : Fields → Type 0
Flat end = Unit
Flat (field k v d) = Scalar v × (get k d ≡ none) × Flat d

-- such a dict with something in it
abbrev IsSection : Value → Type 0
IsSection (obj (field k v d)) = Flat (field k v d)
IsSection _ = ⊥

-- a dict of such sections, no key twice
abbrev Shaped : Fields → Type 0
Shaped end = Unit
Shaped (field k v d) = IsSection v × (get k d ≡ none) × Shaped d

-- nothing, or one row for the primary channel
abbrev IsPrimaryRow : Items → Type 0
IsPrimaryRow items =
    (items ≡ nil)
    ⊎ ((row : Fields) × (items ≡ cons (obj (field "index" (int (pos 0)) row)) nil) × Shaped row)

abbrev pub IsFleetPatch : FleetPatch → Type 0
IsFleetPatch p = Shaped p.local_patch × Shaped p.module_patch × IsPrimaryRow p.channels_patch

set-Flat : (k : String) (v : Value) (d : Fields) → Scalar v → Flat d → Flat (set k v d)
unfolding get set
set-Flat k v end s f = (s, refl, tt)
set-Flat k v (field j w d) s (sj, fresh, f) = ground (arith, set-Flat k v d s f, get-set j k v d)

set-Shaped : (k : String) (v : Value) (d : Fields) → IsSection v → Shaped d → Shaped (set k v d)
unfolding get set
set-Shaped k v end s f = (s, refl, tt)
set-Shaped k v (field j w d) s (sj, fresh, f) =
    ground (arith, set-Shaped k v d s f, get-set j k v d)

-- a section joins the patch, unless it is empty
pub put_section-Shaped :
    (k : String) (d parent : Fields) → Flat d → Shaped parent → Shaped (put_section k d parent)
put_section-Shaped k end parent f h = h
put_section-Shaped k (field j v d) parent f h = set-Shaped k (obj (field j v d)) parent f h

channel_part-Shaped : (k : String) (d : Fields) → Flat d → Shaped (channel_part k d)
unfolding get
channel_part-Shaped k end f = tt
channel_part-Shaped k (field j v d) f = (f, refl, tt)

pub primary_row-IsPrimaryRow :
    (settings module_settings : Fields)
    → Flat settings
    → Flat module_settings
    → IsPrimaryRow (primary_row settings module_settings)
unfolding get
primary_row-IsPrimaryRow end end f g = inl refl
primary_row-IsPrimaryRow (field k v d) end f g =
    inr (field "settings" (obj (field k v d)) end, refl, (f, refl, tt))
primary_row-IsPrimaryRow settings (field k v d) f g = inr (
  put_section "moduleSettings" (field k v d) (channel_part "settings" settings),
  refl,
  put_section-Shaped "moduleSettings" (field k v d) (channel_part "settings" settings) g
      (channel_part-Shaped "settings" settings f),
)

-- nothing, or a scalar
abbrev pub MaybeScalar : Option Value → Type 0
MaybeScalar none = Unit
MaybeScalar (some v) = Scalar v

pub put_value-Flat :
    (k : String) (o : Option Value) (d : Fields) → MaybeScalar o → Flat d → Flat (put_value k o d)
put_value-Flat k none d s f = f
put_value-Flat k (some v) d s f = set-Flat k v d s f

pub int_value-MaybeScalar : (o : Option ℤ) → MaybeScalar (int_value o)
int_value-MaybeScalar none = tt
int_value-MaybeScalar (some z) = tt

pub truthy_int-MaybeScalar : (o : Option ℤ) → MaybeScalar (truthy_int o)
truthy_int-MaybeScalar none = tt
truthy_int-MaybeScalar (some z) = ground arith

pub text_value-MaybeScalar : (o : Option String) → MaybeScalar (text_value o)
text_value-MaybeScalar none = tt
text_value-MaybeScalar (some s) = tt

pub capital_value-MaybeScalar : (o : Option String) → MaybeScalar (capital_value o)
capital_value-MaybeScalar none = tt
capital_value-MaybeScalar (some s) = tt

pub bool_value-MaybeScalar : (o : Option Bool) → MaybeScalar (bool_value o)
bool_value-MaybeScalar none = tt
bool_value-MaybeScalar (some b) = tt
