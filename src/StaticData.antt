-- ===== src/StaticData.antt =====
-- internal/staticdata/derive.go: the digital age and the linked ids of a static persona document. A
-- time there is a day in UTC. `strings.TrimSpace` and the print of a float are parameters; texts are
-- valid UTF-8.
pub mod Age
pub mod Linked
use go_you.Common.{
  ℕ, zero, suc, Bool, true, false, not, ◌&&◌, ◌||◌, List, [], ◌∷◌, ◌++◌, ◌+◌, ◌-◌, ◌*◌, ◌^◌, ◌/◌,
  ◌%◌, Option, none, some, Text, codes, ◌==◌, eqb, leb, ltb, contains, length, take, drop, keep,
  is_some, get_or, if◌then◌else◌, ◌>>=◌,
}
use go_you.Common.Strings.{strip_prefix}
use go_you.Json.{
  Value, Fields, no_fields, field, bool, num, str, arr, maps, obj, get, elements, members, as_bool,
  as_map, as_str, text_or_empty,
}
use go_you.Handler.Clean.{is_null}

pub record Date : Type 0 where
  pub year : ℕ
  pub month : ℕ
  pub day : ℕ

-- `Before`
abbrev pub before : Date → Date → Bool
before a b =
    ltb a.year b.year
    || (eqb a.year b.year && (ltb a.month b.month || (eqb a.month b.month && ltb a.day b.day)))

abbrev pub date_keys : List Text
date_keys =
    codes "domain_create_date"
    ∷ codes "car_registration_date"
    ∷ codes "leak_date"
    ∷ codes "dunzo_join_date"
    ∷ []

pub data DigitalAge : Type 0 where
  failed : DigitalAge
  aged : ℕ → ℕ → ℕ → DigitalAge

-- `Map`
unfoldable pub to_map : DigitalAge → Fields
to_map failed = field (codes "error") (bool true) no_fields
to_map (aged year month age) =
    field (codes "year") (num year)
      (field (codes "month") (num month) (field (codes "age") (num age) no_fields))

objects_of : List Value → List Fields
objects_of [] = []
objects_of (obj m ∷ vs) = m ∷ objects_of vs
objects_of (_ ∷ vs) = objects_of vs

unfoldable pub as_payload_list : Value → List Fields
unfolding objects_of
as_payload_list (maps os) = members os
as_payload_list (arr vs) = objects_of (elements vs)
as_payload_list _ = []

-- The dates of one payload, of the payloads of a source, and of all sources.
payload_dates : Fields → List Text
payload_dates no_fields = []
payload_dates (field k v m) =
    let rest = payload_dates m in
    let s = text_or_empty (some v) in
    if contains k date_keys && not (s == []) then s ∷ rest else rest

list_dates : List Fields → List Text
unfolding payload_dates
list_dates [] = []
list_dates (pw ∷ pws) =
    payload_dates (get_or no_fields (as_map (get (codes "payload") pw))) ++ list_dates pws

unfoldable pub static_seen_dates : Fields → List Text
unfolding list_dates as_payload_list
static_seen_dates no_fields = []
static_seen_dates (field k v static) = list_dates (as_payload_list v) ++ static_seen_dates static

is_digit : ℕ → Bool
is_digit c = leb b'0' c && leb c b'9'

-- A run of digits as a number, if it is nothing else.
digits : ℕ → Text → Option ℕ
unfolding is_digit
digits acc [] = some acc
digits acc (c ∷ s) =
    let rest = digits (acc * 10 + (c - b'0')) s in if is_digit c then rest else none

-- `strconv.Atoi` on what has a sign already read; no digits and a number of more than 63 bits are errors.
atoi : Text → Option ℕ
unfolding digits
atoi [] = none
atoi (c ∷ s) = digits 0 (c ∷ s) >>= λ n. if ltb n (2 ^ 63) then some n else none

-- A negative number counts as 0: the callers ask for numbers above 0 alone.
unfoldable pub to_int : Option Value → ℕ
unfolding atoi
to_int (some (num n)) = n
to_int (some (str (c ∷ s))) =
    if eqb c b'-' then 0 else if eqb c b'+' then get_or 0 (atoi s) else get_or 0 (atoi (c ∷ s))
to_int _ = 0

is_leap : ℕ → Bool
is_leap y = eqb (y % 4) 0 && (not (eqb (y % 100) 0) || eqb (y % 400) 0)

days_in : ℕ → ℕ → ℕ
unfolding is_leap
days_in m y =
    if eqb m 2
    then (if is_leap y then 29 else 28)
    else if eqb m 4 || eqb m 6 || eqb m 9 || eqb m 11
    then 30
    else 31

-- The check of `time.Parse` on the three numbers.
valid_date : ℕ → ℕ → ℕ → Option Date
unfolding days_in
valid_date y m d =
    if leb 1 m && leb m 12 && leb 1 d && leb d (days_in m y)
    then some (record { year = y; month = m; day = d })
    else none

-- `time.Parse` of ten bytes by "2006-01-02", and by "02-01-2006".
unfoldable pub parse_ymd : Text → Option Date
unfolding digits valid_date
parse_ymd s = do
  y ← digits 0 (take 4 s)
  rest ← strip_prefix (b'-' ∷ []) (drop 4 s)
  m ← digits 0 (take 2 rest)
  end ← strip_prefix (b'-' ∷ []) (drop 2 rest)
  d ← digits 0 end
  valid_date y m d

unfoldable pub parse_dmy : Text → Option Date
unfolding digits valid_date
parse_dmy s = do
  d ← digits 0 (take 2 s)
  rest ← strip_prefix (b'-' ∷ []) (drop 2 s)
  m ← digits 0 (take 2 rest)
  end ← strip_prefix (b'-' ∷ []) (drop 2 rest)
  y ← digits 0 end
  valid_date y m d

is_blank : ℕ → Bool
is_blank c = eqb c 32 || eqb c 9

-- `strings.TrimRight(s, " \t")`
trim_right : Text → Text
unfolding is_blank
trim_right [] = []
trim_right (c ∷ s) = let rest = trim_right s in if is_blank c && rest == [] then [] else c ∷ rest

-- What has been written behind one byte, and whether the blanks that follow are skipped.
write : Bool → Text → ℕ → Text
unfolding is_blank trim_right
write skipping out c =
    if skipping && is_blank c
    then out
    else if eqb c b'-'
    then trim_right out ++ (b'-' ∷ [])
    else out ++ (c ∷ [])

skips : Bool → ℕ → Bool
unfolding is_blank
skips skipping c = (skipping && is_blank c) || eqb c b'-'

collapse : Bool → Text → Text → Text
unfolding write skips
collapse skipping out [] = out
collapse skipping out (c ∷ s) = collapse (skips skipping c) (write skipping out c) s

unfoldable pub collapse_dash_spaces : Text → Text
unfolding collapse
collapse_dash_spaces s = collapse false [] s

first_of : Option Date → Option Date → Option Date
first_of none b = b
first_of (some a) b = some a

-- Years that would be negative are 0.
unfoldable pub years_between : Date → Date → ℕ
years_between start end =
    let years = end.year - start.year in
    if ltb end.month start.month || (eqb end.month start.month && ltb end.day start.day)
    then years - 1
    else years

earlier : Date → List Date → Date
earlier earliest [] = earliest
earlier earliest (t ∷ ts) = earlier (if before t earliest then t else earliest) ts

age_of : Date → List Date → DigitalAge
unfolding earlier
age_of now [] = failed
age_of now (t ∷ ts) =
    let earliest = earlier t ts in aged earliest.year earliest.month (years_between earliest now)

-- The filter by the latest revocation, which is put behind what is left.
clamp : Option Date → List Date → List Date
clamp none clean = clean
clamp (some r) clean = keep (λ t. not (before t r)) clean ++ (r ∷ [])

-- The revocation of the phone's metadata, from its map; a nil map reads as an empty one.
unfoldable pub latest_revocation : Fields → Option Date
latest_revocation revocations =
    let y = to_int (get (codes "year") revocations) in
    let m = to_int (get (codes "month") revocations) in
    if ltb 0 (to_int (get (codes "total_revocations") revocations))
      && ltb 0 y
      && leb 1 m
      && leb m 12
    then some (record { year = y; month = m; day = 1 })
    else none

-- The dates of the breaches that are verified.
verified_dates : List Fields → List Text
verified_dates [] = []
verified_dates (b ∷ bs) =
    let rest = verified_dates bs in
    let d = text_or_empty (get (codes "date") b) in
    if get_or false (as_bool (get (codes "IsVerified") b)) && not (d == []) then d ∷ rest else rest

module _ (trim_space : Text → Text) where
  unfoldable pub clean_date : Text → Option Date
  unfolding first_of
  clean_date s =
      let t = collapse_dash_spaces (trim_space s) in
      if ltb (length t) 10 then none else first_of (parse_ymd (take 10 t)) (parse_dmy (take 10 t))

  unfoldable pub clean_dates : List Text → List Date
  clean_dates [] = []
  clean_dates (s ∷ ss) =
      let rest = clean_dates ss in elim (clean_date s) [ none ↦ rest | some t ↦ t ∷ rest ]

  unfoldable pub digital_age : List Text → Option Date → Date → DigitalAge
  unfolding age_of clamp
  digital_age dates revocation now = age_of now (clamp revocation (clean_dates dates))

  unfoldable pub phone_digital_age : Fields → Fields → Date → DigitalAge
  phone_digital_age static revocations now =
      digital_age (static_seen_dates static) (latest_revocation revocations) now

  unfoldable pub email_digital_age : List Fields → Date → DigitalAge
  unfolding verified_dates
  email_digital_age breaches now = digital_age (verified_dates breaches) none now
