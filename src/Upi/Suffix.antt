-- ===== src/Upi/Suffix.antt =====
-- internal/crawler/upi/suffix.go: the bank suffixes, the apps that own them, and the texts of a VPA
-- (`<number>@<suffix>`). `vpaFor` is from source.go. The proofs are in the modules below.
pub mod Owner
pub mod Vpa
use Prim.Native.String.{String}
use go_you.Common.{
  ℕ, Bool, true, false, List, [], ◌∷◌, ◌++◌, map, Option, Text, codes, ◌==◌, eqb, get_or, is_some,
  if◌then◌else◌,
}
use go_you.Common.Maps.{Dict, lookup, insert}

abbrev pub common_suffix_constant : Text
common_suffix_constant = codes "COMMON"

abbrev pub other_app_name : Text
other_app_name = codes "UNKNOWN"

pub record UpiApp : Type 0 where
  pub app_name : Text
  pub suffixes : List Text
  pub encoding : Text

unfoldable pub app : String → List String → String → UpiApp
app name suffixes encoding = record {
  app_name = codes name;
  suffixes = map codes suffixes;
  encoding = codes encoding;
}

unfoldable pub upi_apps : List UpiApp
unfolding app
upi_apps =
    app "PHONEPE" ("ybl" ∷ "axl" ∷ "ibl" ∷ []) "a1"
    ∷ app "PAYTM" ("paytm" ∷ "ptyes" ∷ "ptaxis" ∷ "pthdfc" ∷ "ptsbi" ∷ []) "a2"
    ∷ app "BHIM" ("bhim" ∷ []) "a3"
    ∷ app "GPAY" ("okicici" ∷ "okhdfcbank" ∷ "oksbi" ∷ "okaxis" ∷ []) "a4"
    ∷ app "AMAZON_PAY" ("apl" ∷ "yapl" ∷ "rapl" ∷ "amazonpay" ∷ []) "a5"
    ∷ app "SLICE_PAY" ("sliceaxis" ∷ []) "a6"
    ∷ app "WHATSAPP_UPI" ("waicici" ∷ "icici" ∷ "waaxis" ∷ "wahdfcbank" ∷ "wasbi" ∷ []) "a7"
    ∷ app "CRED_UPI" ("axisb" ∷ "yescred" ∷ []) "a8"
    ∷ app "ADITYA_BIRLA_PAY" ("abcdicici" ∷ []) "a9"
    ∷ app "BAJAJ_FINSERV" ("abfspay" ∷ []) "a10"
    ∷ app "BHARAT_PAY" ("bpunity" ∷ []) "a11"
    ∷ app "CURIE_MONEY" ("yescurie" ∷ []) "a12"
    ∷ app "FAMAPP" ("yesfam" ∷ []) "a13"
    ∷ app "FI_MONEY" ("fifederal" ∷ []) "a14"
    ∷ app "FLIPKART_UPI" ("fkaxis" ∷ []) "a15"
    ∷ app "FREO" ("freoicici" ∷ []) "a16"
    ∷ app "GENWISE" ("gwaxis" ∷ []) "a17"
    ∷ app "GROW" ("yesg" ∷ []) "a18"
    ∷ app "IND_MONEY" ("inhdfc" ∷ []) "a19"
    ∷ app "JUPITER_MONEY" ("jupiteraxis" ∷ []) "a20"
    ∷ app "KIWI" ("goaxb" ∷ []) "a21"
    ∷ app "KREDIT_PE" ("kphdfc" ∷ []) "a22"
    ∷ app "MOBIKWIK" ("ikwik" ∷ []) "a23"
    ∷ app "MONEY_VIEW" ("mvhdfc" ∷ []) "a24"
    ∷ app "NAVI" ("naviaxis" ∷ []) "a25"
    ∷ app "NIYO" ("niyoicici" ∷ []) "a26"
    ∷ app "ONE_CARD" ("oneyes" ∷ []) "a27"
    ∷ app "OK_CREDIT" ("axb" ∷ []) "a28"
    ∷ app "POP_UPI" ("yespop" ∷ []) "a29"
    ∷ app "RIO_MONEY" ("rmrbl" ∷ []) "a30"
    ∷ app "SAMSUNG_PAY" ("pingpay" ∷ []) "a31"
    ∷ app "SALARY_SE" ("seyes" ∷ []) "a32"
    ∷ app "SHRIRAM_ONE" ("shriramhdfcbank" ∷ []) "a33"
    ∷ app "SLICE" ("sliceaxis" ∷ []) "a34"
    ∷ app "SUPER_MONEY" ("superyes" ∷ []) "a35"
    ∷ app "TATA_NEU" ("tapicici" ∷ []) "a36"
    ∷ app "TIME_PAY" ("timecosmos" ∷ []) "a37"
    ∷ app "T_WALLET" ("axisbank" ∷ []) "a38"
    ∷ app "TWID_PAY" ("yestp" ∷ []) "a39"
    ∷ app "ULTRACASH" ("idfcbank" ∷ []) "a40"
    ∷ []

-- The inner loop of `supportedSuffix`: every suffix of one app.
unfoldable pub add_suffixes : Text → List Text → Dict Text → Dict Text
add_suffixes name [] m = m
add_suffixes name (s ∷ ss) m = add_suffixes name ss (insert s name m)

-- The outer loop: a later app overwrites an earlier one.
unfoldable pub add_apps : List UpiApp → Dict Text → Dict Text
unfolding add_suffixes
add_apps [] m = m
add_apps (a ∷ rest) m = add_apps rest (add_suffixes a.app_name a.suffixes m)

-- The map that the initialiser builds from a table of apps.
unfoldable pub supported_suffix_of : List UpiApp → Dict Text
unfolding add_apps
supported_suffix_of apps = add_apps apps ((common_suffix_constant, common_suffix_constant) ∷ [])

unfoldable pub supported_suffix : Dict Text
supported_suffix = supported_suffix_of upi_apps

add_encodings : List UpiApp → Dict Text → Dict Text
add_encodings [] m = m
add_encodings (a ∷ rest) m = add_encodings rest (insert a.app_name a.encoding m)

unfoldable pub app_name_encoding_of : List UpiApp → Dict Text
unfolding add_encodings
app_name_encoding_of apps = add_encodings apps ((common_suffix_constant, other_app_name) ∷ [])

unfoldable pub app_name_encoding : Dict Text
app_name_encoding = app_name_encoding_of upi_apps

unfoldable pub app_name_for_suffix : Text → Text
app_name_for_suffix suffix =
    if suffix == common_suffix_constant
    then common_suffix_constant
    else get_or other_app_name (lookup suffix supported_suffix)

unfoldable pub is_supported_suffix : Text → Bool
is_supported_suffix suffix = is_some (lookup suffix supported_suffix)

unfoldable pub flow_for_suffix : Text → Text
flow_for_suffix suffix =
    if suffix == common_suffix_constant then common_suffix_constant else codes "NON_COMMON"

-- What follows the first `@`, or nothing where there is none.
unfoldable pub suffix_from_vpa : Text → Text
suffix_from_vpa [] = []
suffix_from_vpa (c ∷ s) = elim (eqb c b'@') [ true ↦ s | false ↦ suffix_from_vpa s ]

unfoldable pub vpa_for : Text → Text → Text
vpa_for national suffix = national ++ (b'@' ∷ suffix)
