-- ===== src/Radios/Sections/Written.antt =====
-- What the writing of sections leaves: which sections are written, and the attributes of an object.
use meshonator.Base.{◌≡◌, refl, ◌∙◌, String, Option, none, some, List, [], ◌∷◌, string_eq, arith}
use meshonator.Json.{obj, Fields, end, field}
use meshonator.Db.Session.{ok}
use meshonator.Providers.{Net}
use meshonator.Radios.Sections.{
  normalize_key, update_attribute, assign_message_fields, assign_value, apply_section_patch,
}
use meshonator.Radios.{Attributes, no_more, attribute, Attribute, Section, descriptor, attributes}

abbrev names_of : Attributes → List String
names_of no_more = []
names_of (attribute name held rest) = name ∷ names_of rest

names_of-update_attribute :
    (key : String) (f : Attribute → Attribute) (message : Attributes)
    → names_of (update_attribute key f message) ≡ names_of message
unfolding update_attribute
names_of-update_attribute key f no_more = refl
names_of-update_attribute key f (attribute name held rest) =
    ground (arith, names_of-update_attribute key f rest)

-- `_assign_message_fields` neither adds nor removes an attribute: keys that the object lacks are
-- skipped.
names_of-assign_message_fields :
    (values : Fields) (message : Attributes)
    → names_of (assign_message_fields values message) ≡ names_of message
unfolding assign_message_fields
names_of-assign_message_fields end message = refl
names_of-assign_message_fields (field k v values) message =
    names_of-assign_message_fields values
      (update_attribute (normalize_key k) (assign_value v) message)
    ∙ names_of-update_attribute (normalize_key k) (assign_value v) message

module _ {N : Type 0} (section : String → Option (Section N))
    (write_config : String → Net N (Unit {0})) where
  abbrev with_known : Option (Section N) → String → List String → List String
  with_known none name rest = rest
  with_known (some held) name rest = name ∷ rest

  -- the section names of a patch that name a dict and a section of the radio, in order
  abbrev known_sections : Fields → List String
  known_sections end = []
  known_sections (field k (obj d) patch) =
      with_known (section (normalize_key k)) (normalize_key k) (known_sections patch)
  known_sections (field k v patch) = known_sections patch

  -- neither the writing of a section that the radio has nor `writeConfig` raises
  abbrev pub Writes : Type 0
  Writes =
      ((name : String) (held : Section N)
        → section name ≡ some held
        → (d : Fields) (n : N) → (apply_section_patch held d n).0 ≡ ok tt)
      × ((name : String) (n : N) → (write_config name n).0 ≡ ok tt)

  -- what the writing of one section does to the radio: its part of the patch, and then `writeConfig`
  abbrev pub section_written : Option (Section N) → String → Fields → N → N
  section_written none name d n = n
  section_written (some (descriptor parse_dict)) name d n = (write_config name (parse_dict d n).1).1
  section_written (some (attributes read write)) name d n =
      (write_config name (write (assign_message_fields d (read n)) n)).1

  -- and what the writing of all does, one section after the other
  abbrev all_written : Fields → N → N
  all_written end n = n
  all_written (field k (obj d) patch) n =
      all_written patch (section_written (section (normalize_key k)) (normalize_key k) d n)
  all_written (field k v patch) n = all_written patch n
