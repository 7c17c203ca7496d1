-- ===== src/Channels/Agree.antt =====
-- Where the three merges of channel lists agree.
use mathlib.Core.Path.{fun_ext}
use meshonator.Base.{ℕ, suc, ◌≡◌, ◌≢◌, refl, ◌∙◌, sym, none, some, [], Option-cases, inl, inr}
use meshonator.Base.Assoc.{insert}
use meshonator.Base.Int.{pos, int_eq}
use meshonator.Json.{obj, Items, nil, cons, Fields}
use meshonator.Json.Merge.Agree.{merges_agree}
use meshonator.Channels.{
  Rows, index_of, seed_positioned, seed_indexed, merge_channels, merge_channels_patch,
  merge_list_patch,
}

-- every dict of the list has an int index
abbrev pub AllIndexed : Items → Type 0
AllIndexed nil = Unit
AllIndexed (cons (obj item) rest) = (index_of item ≢ none) × AllIndexed rest
AllIndexed (cons _ rest) = AllIndexed rest

seed_obj :
    (idx : ℕ) (item : Fields) (rows : Rows)
    → index_of item ≢ none
    → ◌≡◌ {A = Rows}
        (insert (elim (index_of item) [ none ↦ pos idx | some i ↦ i ]) item rows)
        (elim (index_of item) [ none ↦ rows | some i ↦ insert i item rows ])
seed_obj idx item rows h = elim (Option-cases (index_of item)) [
  | inl e ↦ absurd (h e)
  | inr (i, e) ↦ rw e
]

seeds_agree :
    (idx : ℕ) (items : Items) (rows : Rows)
    → AllIndexed items
    → seed_positioned idx items rows ≡ seed_indexed items rows
unfolding seed_positioned seed_indexed
seeds_agree idx nil rows h = refl
seeds_agree idx (cons (obj item) rest) rows (here, h) = rw (seed_obj idx item rows here) (
    seeds_agree (suc idx) rest (elim (index_of item) [ none ↦ rows | some i ↦ insert i item rows ])
      h)
seeds_agree idx (cons _ rest) rows h = seeds_agree (suc idx) rest rows h

queue-console : (base patch : Items) → merge_channels_patch base patch ≡ merge_list_patch base patch
unfolding merge_channels_patch merge_list_patch
queue-console base patch =
    rw (fun_ext λ b. fun_ext λ o. (merges_agree b o).0 ∙ sym (merges_agree b o).1)

-- On a channel list whose dicts all have an int index, the channel merges of the job queue, of the
-- web console and of the operations service give the same list, whatever the patch.
pub channel_merges_agree :
    (base patch : Items)
    → AllIndexed base
    → (merge_channels_patch base patch ≡ merge_list_patch base patch)
      × (merge_channels base patch ≡ merge_list_patch base patch)
unfolding merge_channels merge_list_patch
channel_merges_agree base patch h = (
  queue-console base patch,
  rw (seeds_agree 0 base [] h, fun_ext λ b. fun_ext λ o. (merges_agree b o).1),
)
