-- ===== src/Console/Summary.antt =====
-- api/app.py: what the console says of a job: the fields that its patch sets, its targets, and the
-- results that it has so far. The `str` of a value and the labels of `_humanize_patch_path` are
-- parameters.

use meshonator.Base.{
  ℕ, ◌+◌, ◌≡◌, refl, String, Bool, ◌||◌, Option, none, some, List, [], ◌∷◌, ◌++◌, ◌==◌,
  if◌then◌else◌, string_eq, nat_eq, contains, count_by, length, leb, arith,
}
use meshonator.Base.Text.{strip, is_empty}
use meshonator.Json.{Value, obj, arr, Fields, end, field, Items, nil, cons, get}
use meshonator.Db.{
  Uuid, Status, pending, running, success, failed, status_eq, JobModel, JobResultModel,
}
use meshonator.Console.Compare.{child_path}

-- `[prefix] if prefix else []`
abbrev unless_root : String → List String
unless_root prefix = if is_empty prefix then [] else prefix ∷ []

-- `paths or ([prefix] if prefix else [])`
abbrev or_prefix : List String → String → List String
or_prefix [] prefix = unless_root prefix
or_prefix (path ∷ paths) prefix = path ∷ paths

module _ (str_nat : ℕ → String) where
  unfoldable mutual
    collect_patch_paths : Value → String → List String
    collect_patch_paths (obj d) prefix = collect_entries d prefix
    collect_patch_paths (arr nil) prefix = []
    collect_patch_paths (arr (cons x xs)) prefix =
        or_prefix
          (collect_patch_paths x (child_path prefix (str_nat 0)) ++ collect_items 1 xs prefix)
          prefix
    collect_patch_paths value prefix = unless_root prefix

    collect_entries : Fields → String → List String
    collect_entries end prefix = []
    collect_entries (field key nested d) prefix =
        collect_patch_paths nested (child_path prefix key) ++ collect_entries d prefix

    -- the entries of a list from a position on
    collect_items : ℕ → Items → String → List String
    collect_items index nil prefix = []
    collect_items index (cons nested xs) prefix =
        collect_patch_paths nested (child_path prefix (str_nat index))
        ++ collect_items (index + 1) xs prefix

  -- the loop of `_summarize_patch_fields`
  unfoldable add_labels : (String → String) → List String → List String → List String
  add_labels humanize_patch_path [] seen = seen
  add_labels humanize_patch_path (path ∷ paths) seen = add_labels humanize_patch_path paths (
      if contains seen (humanize_patch_path path)
      then seen
      else seen ++ humanize_patch_path path ∷ [])

  unfoldable summarize_patch_fields : (String → String) → Fields → List String
  summarize_patch_fields humanize_patch_path base_patch =
      add_labels humanize_patch_path (collect_patch_paths (obj base_patch) "") []

module _ (str_of : Value → String) where
  unfoldable nonblank_texts : Items → List String
  nonblank_texts nil = []
  nonblank_texts (cons value xs) =
      let rest = nonblank_texts xs in
      if is_empty (strip (str_of value)) then rest else str_of value ∷ rest

  abbrev or_other : Option Value → List String → List String
  or_other (some (arr raw)) other = nonblank_texts raw
  or_other _ other = other

  -- the first of the two keys that holds a list
  unfoldable extract_job_target_ids : Fields → List String
  extract_job_target_ids payload =
      or_other (get "node_ids" payload) (or_other (get "destination_node_ids" payload) [])

-- the nodes of the result rows, each once
unfoldable result_nodes : List JobResultModel → List Uuid
result_nodes [] = []
result_nodes (row ∷ rows) =
    let nodes = result_nodes rows in
    elim row.node_id [ none ↦ nodes | some id ↦ if contains nodes id then nodes else id ∷ nodes ]

abbrev count_or : List String → ℕ → ℕ
count_or [] other = other
count_or (id ∷ ids) other = length (id ∷ ids)

unfoldable extract_job_target_count : (Value → String) → Fields → List JobResultModel → ℕ
extract_job_target_count str_of payload result_rows =
    count_or (extract_job_target_ids str_of payload) (length (result_nodes result_rows))

-- `_summarize_job_results`
pub record Counts : Type 0 where
  pub succeeded : ℕ
  pub failures : ℕ
  pub ongoing : ℕ

unfoldable summarize_job_results : List JobResultModel → Counts
summarize_job_results result_rows = record {
  succeeded = count_by (λ row. row.status == success) result_rows;
  failures = count_by (λ row. row.status == failed) result_rows;
  ongoing = count_by (λ row. row.status == pending || row.status == running) result_rows;
}

-- the texts of `_build_job_result_summary`, with their numbers
pub data Summary : Type 0 where
  some_failed : (failures succeeded : ℕ) → Summary
  still_running : ℕ → Summary
  all_succeeded : ℕ → Summary
  failed_before_evidence waiting no_evidence : Summary

unfoldable summary_of : Status → Counts → Summary
summary_of status counts =
    if leb 1 counts.failures
    then some_failed counts.failures counts.succeeded
    else if leb 1 counts.ongoing
    then still_running counts.ongoing
    else if leb 1 counts.succeeded
    then all_succeeded counts.succeeded
    else if status == failed
    then failed_before_evidence
    else if status == pending || status == running
    then waiting
    else no_evidence

unfoldable build_job_result_summary : JobModel → List JobResultModel → Summary
build_job_result_summary job result_rows = summary_of job.status (summarize_job_results result_rows)

abbrev one_if : Bool → ℕ
one_if b = if b then 1 else 0

one_status :
    (s : Status)
    → one_if (s == success) + one_if (s == failed) + one_if (s == pending || s == running) ≡ 1
unfolding status_eq
one_status pending = refl
one_status running = refl
one_status success = refl
one_status failed = refl

-- every row counts once
summarize_job_results_lem :
    (rows : List JobResultModel)
    → (summarize_job_results rows).succeeded
        + (summarize_job_results rows).failures
        + (summarize_job_results rows).ongoing
      ≡ length rows
unfolding summarize_job_results
summarize_job_results_lem [] = refl
summarize_job_results_lem (row ∷ rows) =
    omega (arith, summarize_job_results_lem rows, one_status row.status)

summary_of-all_succeeded :
    (status : Status) (c : Counts) (n : ℕ)
    → summary_of status c ≡ all_succeeded n
    → (c.failures ≡ 0) × (c.ongoing ≡ 0) × (c.succeeded ≡ n)
unfolding summary_of
summary_of-all_succeeded status c n h = ground (arith, h)

-- Where the console says of a job that n of its results succeeded and nothing else, each of its
-- result rows is a success, and n is their number.
build_job_result_summary_lem :
    (job : JobModel) (rows : List JobResultModel) (n : ℕ)
    → build_job_result_summary job rows ≡ all_succeeded n
    → (n ≡ length rows) × (count_by (λ row. row.status == success) rows ≡ length rows)
unfolding build_job_result_summary summarize_job_results
build_job_result_summary_lem job rows n h =
    let (no_failures, none_ongoing, count) =
      summary_of-all_succeeded job.status (summarize_job_results rows) n h in
    (
      omega (arith, summarize_job_results_lem rows, no_failures, none_ongoing, count),
      omega (arith, summarize_job_results_lem rows, no_failures, none_ongoing),
    )
