-- ===== src/Upi/Plan.antt =====
-- The helpers of internal/crawler/upi/engine.go that decide which source is asked for which suffixes:
-- `buildMeta`, the order and the count of the common-flow sources, and the suffix sets.
pub mod Sort
pub mod Sets
use go_you.Common.{
  ℕ, zero, suc, ◌+◌, ◌-◌, ◌*◌, ◌^◌, Bool, true, false, not, ◌&&◌, ◌||◌, List, [], ◌∷◌, ◌++◌, map,
  Option, none, some, Text, codes, ◌==◌, contains, keep, eqb, ltb, leb, length, drop, replicate,
  if◌then◌else◌, concat,
}
use go_you.Common.Int.{ℤ, pos, negsuc, ltb_ℤ, leb_ℤ, pos_part}
use go_you.Upi.Model.{Float, SuffixEntry, SourceCommon, SourceConfig, Config, Meta}
use go_you.Upi.Sample.{FloatOps, weighted_sample_no_replace, state_after_sample}
use go_you.Upi.Split.{split_list}
use go_you.Upi.Suffix.{common_suffix_constant}

-- `x == 0` for the bits of a float: both zeros.
abbrev is_zero_float : Float → Bool
is_zero_float x = eqb x 0 || eqb x (2 ^ 63)

-- 6.0
abbrev default_timeout : Float
default_timeout = 0x4018000000000000

abbrev with_timeout : SourceConfig → SourceConfig
with_timeout s = if is_zero_float s.timeout then record s { timeout = default_timeout } else s

-- The enabled sources of one type, with their timeout filled in.
unfoldable pub sources_of_kind : Text → List SourceConfig → List SourceConfig
sources_of_kind kind sources = keep (λ s. s.enabled && (s.kind == kind)) (map with_timeout sources)

abbrev pub min_ℤ : ℤ → ℤ → ℤ
min_ℤ a b = if ltb_ℤ b a then b else a

module _ (ops : FloatOps) where
  -- Whether the sample of the LITE sources is drawn at all.
  abbrev takes_lite : Config → List SourceConfig → Bool
  takes_lite cfg lite =
      ltb_ℤ (pos 0) cfg.lite_sources_sample_count
      && leb_ℤ cfg.lite_sources_sample_count (pos (length lite))

  -- `buildMeta`, with the generator in state `s`. The state goes from the LITE draw to the other.
  unfoldable pub build_meta : Config → ℕ → Meta
  build_meta cfg s =
      let lite = sources_of_kind (codes "LITE") cfg.source_list in
      let enriched = sources_of_kind (codes "ENRICHED") cfg.source_list in
      let k = cfg.lite_sources_sample_count in
      let drawn = takes_lite cfg lite in
      let s' = if drawn then state_after_sample lite k s else s in
      record {
        lite = cfg.lite;
        lite_return_all = cfg.lite_return_all;
        lite_seq = cfg.lite_seq;
        enriched = cfg.enriched;
        enriched_return_all = cfg.enriched_return_all;
        enriched_seq = cfg.enriched_seq;
        hit_organic_sources = cfg.hit_organic_sources;
        suffix_list = cfg.suffix_list;
        source_list = cfg.source_list;
        tpi_sources = keep (λ t. t.enabled) cfg.tpi_sources;
        lite_sources = if drawn then weighted_sample_no_replace ops lite k s else [];
        enriched_sources =
            if ltb 0 (length enriched)
            then weighted_sample_no_replace ops enriched
                (min_ℤ cfg.enriched_sources_sample_count (pos (length enriched))) s'
            else [];
        enriched_suffix_sample_count = cfg.enriched_suffix_sample_count;
        enriched_sources_count_for_ha = cfg.enriched_sources_count_for_ha;
      }

-- `s.Common != nil && ((enriched && s.Common.Enriched) || (!enriched && s.Common.Lite))`
unfoldable pub is_common_in : Bool → SourceConfig → Bool
is_common_in enriched s = elim s.common [
  | none ↦ false
  | some c ↦ enriched && c.enriched || not enriched && c.lite
]

unfoldable pub is_common_flow : SourceConfig → Bool
is_common_flow s = elim s.common [ none ↦ false | some c ↦ c.lite || c.enriched ]

unfoldable pub order_common_first : List SourceConfig → Bool → List SourceConfig
order_common_first sources enriched =
    keep (is_common_in enriched) sources ++ keep (λ s. not (is_common_in enriched s)) sources

unfoldable pub count_common : List SourceConfig → Bool → ℕ
count_common [] enriched = 0
count_common (s ∷ rest) enriched =
    let n = count_common rest enriched in if is_common_in enriched s then suc n else n

-- The common sources get the constant each; the others share the suffixes out.
unfoldable pub build_suffix_sets : ℕ → ℕ → List Text → List (List Text)
build_suffix_sets common_count non_common suffix_names =
    replicate common_count (common_suffix_constant ∷ [])
    ++ (if ltb 0 non_common then split_list suffix_names non_common else [])

-- One entry put before the first that has a priority not above its own.
unfoldable pub insert_by_priority : SuffixEntry → List SuffixEntry → List SuffixEntry
insert_by_priority e [] = e ∷ []
insert_by_priority e (x ∷ xs) = elim (ltb_ℤ e.priority x.priority) [
  | true ↦ x ∷ insert_by_priority e xs
  | false ↦ e ∷ x ∷ xs
]

-- The stable sort, highest priority first.
unfoldable pub sort_suffixes_by_priority_desc : List SuffixEntry → List SuffixEntry
unfolding insert_by_priority
sort_suffixes_by_priority_desc [] = []
sort_suffixes_by_priority_desc (e ∷ es) = insert_by_priority e (sort_suffixes_by_priority_desc es)

abbrev pub entry_names : List SuffixEntry → List Text
entry_names = map (λ e. e.name)

unfoldable pub suffix_names_for : List SuffixEntry → Bool → List Text
suffix_names_for entries seq_desc =
    entry_names (if seq_desc then sort_suffixes_by_priority_desc entries else entries)

unfoldable pub remove_suffixes : List Text → List Text → List Text
remove_suffixes list dropped = keep (λ s. not (contains s dropped)) list

unfoldable pub remove_suffix_entries : List SuffixEntry → List Text → List SuffixEntry
remove_suffix_entries list dropped = keep (λ e. not (contains e.name dropped)) list

unfoldable pub repeat_suffixes : List SuffixEntry → ℕ → List SuffixEntry
repeat_suffixes list n = if leb n 1 || eqb (length list) 0 then list else concat (replicate n list)

unfoldable pub last10 : Text → Text
last10 s = if ltb 10 (length s) then drop (length s - 10) s else s
