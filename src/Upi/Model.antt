-- ===== src/Upi/Model.antt =====
-- internal/crawler/upi/model.go: profiles, the resolved configuration and the per-request metadata.
-- A `*bool` is an `Option Bool`, and a nil slice that is told apart from an empty one an `Option`.
-- A `float64` is carried as its 64 bits; what computes with it is a parameter where it is used.
use go_you.Common.{ℕ, Bool, true, false, List, [], Option, none, Text, ◌==◌, not}
use go_you.Common.Int.{ℤ}

abbrev pub Float : Type 0
Float = ℕ

-- What the `any` of an error marker holds.
pub data ErrVal : Type 0 where
  nil_err other_err : ErrVal
  bool_err : Bool → ErrVal
  text_err : Text → ErrVal

-- `hasError`: whether the marker is truthy in the sense of Python.
unfoldable pub is_error : ErrVal → Bool
is_error nil_err = false
is_error (bool_err e) = e
is_error (text_err e) = not (e == [])
is_error other_err = true

-- `e == nil`
unfoldable pub is_nil_err : ErrVal → Bool
is_nil_err nil_err = true
is_nil_err _ = false

pub record Profile : Type 0 where
  pub source : Text
  pub flow : Text
  pub suffix : Text
  pub app_name : Text
  pub user_exist : Option Bool
  pub name : Text
  pub vpa : Text
  pub err : ErrVal
  pub vpa_mismatch : Option Bool
  pub vpa_match : Text
  pub masked_vpa : Text
  pub match_type : Text

unfoldable pub has_error : Profile → Bool
unfolding is_error
has_error p = is_error p.err

pub record SuffixEntry : Type 0 where
  pub name : Text
  pub priority : ℤ

pub record SourceCommon : Type 0 where
  pub lite : Bool
  pub enriched : Bool

pub record SourceConfig : Type 0 where
  pub name : Text
  pub kind : Text
  pub weight : Float
  pub enabled : Bool
  pub timeout : Float
  pub common : Option SourceCommon

pub record Config : Type 0 where
  pub client_response : Bool
  pub suffix_list : List SuffixEntry
  pub source_list : List SourceConfig
  pub tpi_sources : List SourceConfig
  pub hit_organic_sources : Bool
  pub lite : Bool
  pub lite_return_all : Bool
  pub lite_seq : Bool
  pub enriched : Bool
  pub enriched_return_all : Bool
  pub enriched_seq : Bool
  pub lite_sources_sample_count : ℤ
  pub enriched_sources_sample_count : ℤ
  pub enriched_sources_count_for_ha : ℤ
  pub enriched_suffix_sample_count : ℤ

pub record Meta : Type 0 where
  pub lite : Bool
  pub lite_return_all : Bool
  pub lite_seq : Bool
  pub enriched : Bool
  pub enriched_return_all : Bool
  pub enriched_seq : Bool
  pub hit_organic_sources : Bool
  pub suffix_list : List SuffixEntry
  pub source_list : List SourceConfig
  pub tpi_sources : List SourceConfig
  pub lite_sources : List SourceConfig
  pub enriched_sources : List SourceConfig
  pub enriched_suffix_sample_count : ℤ
  pub enriched_sources_count_for_ha : ℤ

-- An entry `{source, name, upi_ids}`; a missing name is nil.
pub record VerifiedName : Type 0 where
  pub source : Text
  pub name : Option Text
  pub upi_ids : List Text

pub record Profiles : Type 0 where
  pub user_exist : Option Bool
  pub source : Text
  pub flow : Text
  pub suffix : Text
  pub app_name : Text
  pub name : Text
  pub profiles : List Profile
  pub verified_names : Option (List VerifiedName)
  pub err : ErrVal
  pub lite_error : ErrVal
  pub enriched_error : ErrVal
  pub meta : Meta

unfoldable pub profiles_has_error : Profiles → Bool
unfolding is_error
profiles_has_error p = is_error p.err

-- `&Profiles{Meta: meta}`
abbrev pub empty_profiles : Meta → Profiles
empty_profiles meta = record {
  user_exist = none;
  source = [];
  flow = [];
  suffix = [];
  app_name = [];
  name = [];
  profiles = [];
  verified_names = none;
  err = nil_err;
  lite_error = nil_err;
  enriched_error = nil_err;
  meta = meta;
}

pub record SourceMeta : Type 0 where
  pub source : SourceConfig
  pub suffix_list : List Text
  pub return_all : Bool
