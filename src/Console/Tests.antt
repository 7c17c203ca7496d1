-- ===== src/Console/Tests.antt =====
-- Runs of the console's helpers, and the theorems about them at these inputs.
use meshonator.Base.{◌≡◌, refl, String, none, some, [], ◌∷◌, if◌then◌else◌, string_eq}
use meshonator.Base.Int.{pos}
use meshonator.Base.Text.{strip, lower, ends_with}
use meshonator.Json.{null, int, str, obj, Fields, end, field, get, IsWf}
use meshonator.Db.{success, status_eq, JobModel, JobResultModel, text}
use meshonator.Console.Alignment.{in_section, section_dict, build_alignment_local_patch}
use meshonator.Console.Alignment.Copied.{is_aligned, build_alignment_local_patch_lem}
use meshonator.Console.Compare.{compare_values}
use meshonator.Base.Member.{In}
use meshonator.Console.Compare.{Diff}
use meshonator.Console.Compare.Reported.{Reported, compare_values_lem}
use meshonator.Console.Nested.{or_null}
use meshonator.Console.Forms.{is_break, parse_multi_value}
use meshonator.Console.Forms.Lines.{typed, has_break, Plain, parse_multi_value-typed}
use meshonator.Console.Nested.{get_nested}
use meshonator.Console.Redact.{
  Hidden, is_sensitive_operator_segment, is_sensitive_operator_path, redact_operator_metadata,
  redact_hides,
}

abbrev radio_config : Fields
radio_config =
    field "lora" (obj (field "hopLimit" (int (pos 3)) (field "region" (str "EU_868") end)))
      (field "security" (obj (field "privateKey" (str "k1") end)) end)

redact_hides_example :
    Hidden (
      get_nested (redact_operator_metadata (obj radio_config)) (in_section "security" "privateKey"))
unfolding is_sensitive_operator_path is_sensitive_operator_segment strip lower ends_with string_eq
redact_hides_example = redact_hides (obj radio_config) (in_section "security" "privateKey") refl

build_alignment_local_patch_lem_example :
    (patch : Fields) × (build_alignment_local_patch (field "preferences" (obj radio_config) end)
      ≡ some patch)
    × ((section key : String)
        → get_nested (obj patch) (in_section section key) ≡ (
            if is_aligned section key
            then get_nested (obj radio_config) (in_section section key)
            else null))
unfolding get section_dict string_eq
build_alignment_local_patch_lem_example =
    build_alignment_local_patch_lem (field "preferences" (obj radio_config) end) radio_config refl

radio_config-IsWf : IsWf (obj radio_config)
unfolding get string_eq
radio_config-IsWf = ((tt, refl, (tt, refl, tt)), refl, ((tt, refl, tt), refl, tt))

abbrev other_config : Fields
other_config = field "lora" null end

other_config-IsWf : IsWf (obj other_config)
unfolding get
other_config-IsWf = (tt, refl, tt)

abbrev lora_diff : Diff
lora_diff = record { path = "lora"; source = or_null (get "lora" radio_config); target = null }

compare_values_lem_example :
    (In lora_diff (compare_values (obj radio_config) (obj other_config) "")
      → Reported (obj radio_config) (obj other_config) "" lora_diff)
    × (Reported (obj radio_config) (obj other_config) "" lora_diff
        → In lora_diff (compare_values (obj radio_config) (obj other_config) ""))
compare_values_lem_example =
    compare_values_lem (obj radio_config) (obj other_config) "" lora_diff radio_config-IsWf
      other_config-IsWf

host-Plain : Plain "10.0.0.1"
unfolding has_break is_break strip
host-Plain = record { unbroken = refl; trimmed = refl; filled = refl }

parse_multi_value-typed_example :
    parse_multi_value (typed ("10.0.0.1" ∷ "10.0.0.1" ∷ [])) ≡ "10.0.0.1" ∷ "10.0.0.1" ∷ []
parse_multi_value-typed_example =
    parse_multi_value-typed ("10.0.0.1" ∷ "10.0.0.1" ∷ []) (host-Plain, (host-Plain, tt))

abbrev done_job : JobModel
done_job = record {
  id = 1;
  job_type = "sync_all";
  status = success;
  requested_by = "admin";
  source = "ui";
  payload = end;
  started_at = none;
  finished_at = none;
  created_at = 3;
}

abbrev done_row : JobResultModel
done_row = record {
  id = 2;
  job_id = 1;
  node_id = none;
  status = success;
  message = text "Sync finished";
  details = end;
}
