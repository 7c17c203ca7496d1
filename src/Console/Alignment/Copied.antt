-- ===== src/Console/Alignment/Copied.antt =====
-- What the local patch of an alignment holds.
use mathlib.Core.Path.{subst}
use meshonator.Base.{
  ◌≡◌, refl, sym, ◌∙◌, ap, String, Bool, true, false, ◌&&◌, ◌||◌, none, some, List, [], ◌∷◌, ◌==◌,
  if◌then◌else◌, string_eq, arith, any, Bool-cases, Option-cases, inl, inr, ◌⊎◌,
}
use meshonator.Json.{Value, null, bool, int, float, str, arr, obj, Fields, end, get, set, pop}
use meshonator.Json.Laws.{get-set, get-pop}
use meshonator.Console.Alignment.{
  in_section, alignment_local_paths, section_dict, written, copy_paths, without_keys,
  build_alignment_local_patch,
}
use meshonator.Console.Nested.{
  or_null, get_nested, child, with_child, set_nested, dict_at, dict_at-some, get_nested-no_dict,
  remove_nested_key,
}

-- the path is this key of this section
abbrev is_path : String → String → List String → Bool
is_path i j (section ∷ key ∷ []) = i == section && j == key
is_path i j path = false

-- every key of the dict holds a dict
abbrev Sections : Fields → Type 0
Sections d = (k : String) → (get k d ≡ none) ⊎ ((e : Fields) × (get k d ≡ some (obj e)))

abbrev at : Fields → String → String → Value
at d i j = get_nested (obj d) (in_section i j)

-- what was copied from `prefs` so far: what passes the test
abbrev Holds : Fields → (String → String → Bool) → Fields → Type 0
Holds prefs copied out = (i j : String) → at out i j ≡ (if copied i j then at prefs i j else null)

-- one write into a section that holds `d`
section_written :
    (section key : String) (v : Value) (out d : Fields)
    → Sections out
    → child (get section out) ≡ some d
    → ((j : String) → at out section j ≡ or_null (get j d))
    → (next : Fields) × (set_nested (in_section section key) v out ≡ some next)
      × Sections next
      × ((i j : String) → at next i j ≡ (if i == section && j == key then v else at out i j))
unfolding set_nested with_child get_nested or_null
section_written section key v out d dicts e old = (
  set section (obj (set key v d)) out,
  rw (e, set_nested) refl,
  λ k. elim (Bool-cases (k == section)) [
    | inl same ↦ inr (set key v d, ground (arith, get-set k section (obj (set key v d)) out))
    | inr apart ↦
        subst (λ o. (o ≡ none) ⊎ ((e : Fields) × (o ≡ some (obj e))))
          (sym (ground (arith, get-set k section (obj (set key v d)) out))) (dicts k)
  ],
  λ i j. elim (Bool-cases (i == section)) [
    | inl same ↦
        ground (arith, get-set i section (obj (set key v d)) out, get-set j key v d, old j, same)
    | inr apart ↦ ground (arith, get-set i section (obj (set key v d)) out)
  ],
)

write_section :
    (section key : String) (v : Value) (out : Fields)
    → Sections out
    → (next : Fields) × (set_nested (in_section section key) v out ≡ some next)
      × Sections next
      × ((i j : String) → at next i j ≡ (if i == section && j == key then v else at out i j))
unfolding child get_nested or_null get
write_section section key v out dicts = elim (dicts section) [
  | inl e ↦
      section_written section key v out end dicts (ap child e)
        (λ j. ap (λ o. get_nested (or_null o) (j ∷ [])) e)
  | inr (d, e) ↦
      section_written section key v out d dicts (ap child e)
        (λ j. ap (λ o. get_nested (or_null o) (j ∷ [])) e)
]

abbrev is_null : Value → Bool
is_null null = true
is_null v = false

null_of : (v : Value) → is_null v ≡ true → v ≡ null
null_of null h = refl
null_of (bool b) h = cc
null_of (int z) h = cc
null_of (float m k) h = cc
null_of (str t) h = cc
null_of (obj d) h = cc
null_of (arr xs) h = cc

value_written :
    (v : Value) (section key : String) (out : Fields)
    → Sections out
    → (next : Fields) × (written v (in_section section key) out ≡ some next)
      × Sections next
      × ((i j : String)
          → at next i j ≡ (
              if i == section && j == key
              then (if is_null v then at out i j else v)
              else at out i j))
unfolding written
value_written null section key out dicts = (out, refl, dicts, λ i j. ground arith)
value_written (bool b) section key out dicts = write_section section key (bool b) out dicts
value_written (int z) section key out dicts = write_section section key (int z) out dicts
value_written (float m k) section key out dicts = write_section section key (float m k) out dicts
value_written (str t) section key out dicts = write_section section key (str t) out dicts
value_written (obj d) section key out dicts = write_section section key (obj d) out dicts
value_written (arr xs) section key out dicts = write_section section key (arr xs) out dicts

abbrev IsPair : List String → Type 0
IsPair (section ∷ key ∷ []) = Unit {0}
IsPair path = ⊥

abbrev Pairs : List (List String) → Type 0
Pairs [] = Unit {0}
Pairs (path ∷ paths) = IsPair path × Pairs paths

-- the loop from an `out` that holds what was copied so far
copy_paths-Holds :
    (paths : List (List String)) (prefs out : Fields) (copied : String → String → Bool)
    → Pairs paths
    → Sections out
    → Holds prefs copied out
    → (next : Fields) × (copy_paths paths prefs out ≡ some next)
      × Holds prefs (λ i j. any (is_path i j) paths || copied i j) next
unfolding copy_paths
copy_paths-Holds [] prefs out copied pairs dicts h = (out, refl, h)
copy_paths-Holds ((section ∷ key ∷ []) ∷ paths) prefs out copied (pair, pairs) dicts h =
    let (now, run, dicts', holds) = value_written (at prefs section key) section key out dicts in
    let (next, rest, all) =
      copy_paths-Holds paths prefs now (λ i j. is_path i j (in_section section key) || copied i j)
        pairs dicts' (λ i j. ground (arith, holds i j, h i j, null_of (at prefs section key))) in
    (next, rw (run, copy_paths) rest, λ i j. ground (arith, all i j))
copy_paths-Holds ([] ∷ paths) prefs out copied (pair, pairs) dicts h = absurd pair
copy_paths-Holds ((section ∷ []) ∷ paths) prefs out copied (pair, pairs) dicts h = absurd pair
copy_paths-Holds ((section ∷ key ∷ k ∷ more) ∷ paths) prefs out copied (pair, pairs) dicts h =
    absurd pair

-- taking a key away from a section
at-remove :
    (section key : String) (d : Fields) (i j : String)
    → at (remove_nested_key (in_section section key) d) i j
      ≡ (if i == section && j == key then null else at d i j)
unfolding remove_nested_key get_nested or_null
at-remove section key d i j = elim (Option-cases (dict_at (get section d))) [
  | inl e ↦ rw (e, remove_nested_key) (ground (arith, get_nested-no_dict (get section d) j [] e))
  | inr (inner, e) ↦
      rw (e, remove_nested_key)
        (ground (
          arith,
          get-set i section (obj (pop key inner)) d,
          get-pop j key inner,
          ap (λ o. get_nested (or_null o) (j ∷ [])) (dict_at-some (get section d) inner e),
        ))
]

-- the key of the section is among the paths that an alignment copies, and no key of the device
unfoldable pub is_aligned : String → String → Bool
is_aligned i j = any (is_path i j) alignment_local_paths

empty-Sections : Sections end
unfolding get
empty-Sections k = inl refl

nothing_yet : (prefs : Fields) → Holds prefs (λ i j. false) end
unfolding get get_nested or_null
nothing_yet prefs i j = refl

alignment_local_paths-Pairs : Pairs alignment_local_paths
alignment_local_paths-Pairs =
    (tt, (tt, (tt, (tt, (tt, (tt, (tt, (tt, (tt, (tt, (tt, (tt, (tt, (tt, tt))))))))))))))

if_or_false : (b : Bool) (v w : Value) → (if b || false then v else w) ≡ (if b then v else w)
if_or_false true v w = refl
if_or_false false v w = refl

security-aligned : (key : String) → is_aligned "security" key ≡ false
unfolding is_aligned string_eq
security-aligned key = refl

abbrev cleaned : Fields → Fields
cleaned out =
    remove_nested_key (in_section "security" "publicKey")
      (remove_nested_key (in_section "security" "privateKey") out)

at-cleaned :
    (out : Fields) (i j : String) (v : Value)
    → at out i j ≡ (if is_aligned i j then v else null)
    → at (cleaned out) i j ≡ (if is_aligned i j then v else null)
at-cleaned out i j v h = ground (
  arith,
  h,
  security-aligned j,
  at-remove "security" "privateKey" out i j,
  at-remove "security" "publicKey" (remove_nested_key (in_section "security" "privateKey") out) i j,
)

-- The patch that an alignment makes from the configuration of a source node is made without an
-- exception, and in every section it has exactly the values that stand in the source's preferences
-- at the listed paths: nothing for any other path, the security keys among them.
pub build_alignment_local_patch_lem :
    (raw_metadata prefs : Fields)
    → section_dict (get "preferences" raw_metadata) ≡ some prefs
    → (patch : Fields) × (build_alignment_local_patch raw_metadata ≡ some patch)
      × ((section key : String)
          → get_nested (obj patch) (in_section section key) ≡ (
              if is_aligned section key
              then get_nested (obj prefs) (in_section section key)
              else null))
unfolding build_alignment_local_patch without_keys is_aligned
build_alignment_local_patch_lem raw_metadata prefs h =
    let (out, run, holds) =
      copy_paths-Holds alignment_local_paths prefs end (λ i j. false) alignment_local_paths-Pairs
        empty-Sections (nothing_yet prefs) in
    (
      cleaned out,
      rw (h, build_alignment_local_patch) (rw (run, without_keys) refl),
      λ i j.
          at-cleaned out i j (at prefs i j)
            (holds i j ∙ if_or_false (is_aligned i j) (at prefs i j) null),
    )
