-- ===== src/Reports/Cron.antt =====
-- report_jobs.py: `cron_field_matches`, `cron_matches` and `next_cron_after`. An instant is the
-- number of seconds since 1970, and a minute the number of minutes; the calendar's functions are
-- those of Python's `datetime`, and `parse_int` is Python's `int` of a text of ASCII characters.
use iskan.Prelude.{
  ℕ, zero, suc, ◌+◌, ◌-◌, ◌*◌, ◌/◌, ◌%◌, ◌==◌, leb, ltb, list_eq, codes, is_space, Bool, true,
  false, ◌&&◌, List, [], ◌∷◌, ◌++◌, Option, none, some, if◌then◌else◌,
}
use iskan.Http.Errors.{value_error, Result, ok, err, ◌>>=◌}
use iskan.Security.Crypto.{Text}

-- a number that `int` answers; `negsuc n` is -(n + 1)
pub data ℤ : Type 0 where
  pos : ℕ → ℤ
  negsuc : ℕ → ℤ

abbrev pub negated : ℕ → ℤ
negated zero = pos 0
negated (suc n) = negsuc n

abbrev pub is_digit : ℕ → Bool
is_digit x = leb b'0' x && leb x b'9'

-- the digits, of which single underscores may stand between two
abbrev pub parse_digits : Bool → ℕ → Text → Option ℕ
parse_digits after acc [] = if after then some acc else none
parse_digits after acc (x ∷ xs) =
    let digit = parse_digits true (acc * 10 + (x - b'0')) xs in
    let gap = parse_digits false acc xs in
    if is_digit x then digit else (if after && (x == b'_') then gap else none)

abbrev pub as_pos : Option ℕ → Option ℤ
as_pos none = none
as_pos (some n) = some (pos n)

abbrev pub as_negated : Option ℕ → Option ℤ
as_negated none = none
as_negated (some n) = some (negated n)

-- `int(text)`; `none` is a ValueError
abbrev pub parse_int : Text → Option ℤ
parse_int [] = none
parse_int (x ∷ xs) =
    if x == b'-'
    then as_negated (parse_digits false 0 xs)
    else (if x == b'+'
        then as_pos (parse_digits false 0 xs)
        else as_pos (parse_digits false 0 (x ∷ xs)))

-- `n <= value` and `value <= n` for a value of the calendar
abbrev pub at_most : ℤ → ℕ → Bool
at_most (pos n) value = leb n value
at_most (negsuc n) value = true

abbrev pub at_least : ℤ → ℕ → Bool
at_least (pos n) value = leb value n
at_least (negsuc n) value = false

abbrev pub prepend : ℕ → List Text → List Text
prepend x [] = (x ∷ []) ∷ []
prepend x (t ∷ ts) = (x ∷ t) ∷ ts

-- `text.split(c)`
abbrev pub split_on : ℕ → Text → List Text
split_on c [] = [] ∷ []
split_on c (x ∷ xs) = let rest = split_on c xs in if x == c then [] ∷ rest else prepend x rest

abbrev pub longer : ℕ → Option (Text × Text) → Option (Text × Text)
longer x none = none
longer x (some (a, b)) = some (x ∷ a, b)

-- `text.split(c, 1)`, if `c in text`
abbrev pub split_once : ℕ → Text → Option (Text × Text)
split_once c [] = none
split_once c (x ∷ xs) =
    let rest = split_once c xs in if x == c then some ([], xs) else longer x rest

abbrev pub close : Text → Bool → List Text → List Text
close [] at_space rest = rest
close (x ∷ word) at_space rest = if at_space then (x ∷ word) ∷ rest else rest

-- `text.split()`, with the word that has begun
abbrev pub words : Text → Text → List Text
words word [] = close word true []
words word (x ∷ xs) =
    close word (is_space x) (words (if is_space x then [] else word ++ (x ∷ [])) xs)

abbrev pub begins : Option ℤ → ℕ → Result Bool
begins none value = err (value_error "invalid literal for int() with base 10")
begins (some base) value = ok (at_most base value)

-- `base == "*" or int(base) <= value`
abbrev pub starts : Text → ℕ → Result Bool
starts base value = if list_eq base (codes "*") then ok true else begins (parse_int base) value

-- `"/" in part`: the base is read outside the `try`
abbrev pub step_matches : Text → Option ℤ → ℕ → Result Bool
step_matches base none value = ok false
step_matches base (some (negsuc n)) value = ok false
step_matches base (some (pos n)) value =
    if n == 0 then ok false else (starts base value >>= λ started. ok (started && (value % n == 0)))

-- `"-" in part`
abbrev pub range_matches : Option ℤ → Option ℤ → ℕ → Bool
range_matches none last value = false
range_matches (some first) none value = false
range_matches (some first) (some last) value = at_most first value && at_least last value

abbrev pub is_value : Option ℤ → ℕ → Bool
is_value none value = false
is_value (some (pos n)) value = n == value
is_value (some (negsuc n)) value = false

-- the body of the loop over the parts
abbrev pub part_matches : Text → ℕ → Result Bool
part_matches part value = elim (split_once b'/' part) [
  | some (base, step) ↦ step_matches base (parse_int step) value
  | none ↦ elim (split_once b'-' part) [
    | some (first, last) ↦ ok (range_matches (parse_int first) (parse_int last) value)
    | none ↦ ok (is_value (parse_int part) value)
  ]
]

abbrev pub any_part : List Text → ℕ → Result Bool
any_part [] value = ok false
any_part (p ∷ ps) value =
    let rest = any_part ps value in
    part_matches p value >>= λ matched. if matched then ok true else rest

unfoldable pub cron_field_matches : Text → ℕ → Result Bool
cron_field_matches field value =
    if list_eq field (codes "*") then ok true else any_part (split_on b',' field) value

-- the calendar of a minute: `instant.minute`, `instant.hour`, the days since 1970, and
-- `(instant.weekday() + 1) % 7`
abbrev pub minute_of : ℕ → ℕ
minute_of m = m % 60

abbrev pub hour_of : ℕ → ℕ
hour_of m = m / 60 % 24

abbrev pub cron_weekday : ℕ → ℕ
cron_weekday m = (m / 1440 + 4) % 7

-- the day of the year that begins in March, from the days since the first of March of the year 0
abbrev pub year_of_era : ℕ → ℕ
year_of_era day = (day - day / 1460 + day / 36524 - day / 146096) / 365

abbrev pub day_of_year : ℕ → ℕ
day_of_year day = let y = year_of_era day in day - (365 * y + y / 4 - y / 100)

abbrev pub march_day : ℕ → ℕ
march_day m = day_of_year ((m / 1440 + 719468) % 146097)

-- `instant.day` and `instant.month`
abbrev pub day_of : ℕ → ℕ
day_of m = let d = march_day m in d - (153 * ((5 * d + 2) / 153) + 2) / 5 + 1

abbrev pub month_of : ℕ → ℕ
month_of m = let k = (5 * march_day m + 2) / 153 in if ltb k 10 then k + 3 else k - 9

-- `all(…)` of the fields, which stops at the first that does not match
abbrev pub all_match : List (Text × ℕ) → Result Bool
all_match [] = ok true
all_match ((field, value) ∷ rest) =
    let others = all_match rest in
    cron_field_matches field value >>= λ matched. if matched then others else ok false

abbrev pub fields_match : List Text → ℕ → Result Bool
fields_match (minute ∷ hour ∷ day ∷ month ∷ weekday ∷ []) m = all_match (
    (minute, minute_of m)
    ∷ (hour, hour_of m)
    ∷ (day, day_of m)
    ∷ (month, month_of m)
    ∷ (weekday, cron_weekday m)
    ∷ [])
fields_match other m = ok false

unfoldable pub cron_matches : Text → ℕ → Result Bool
cron_matches expression m = fields_match (words [] expression) m

-- the loop of `next_cron_after`, with the rounds that are left
unfoldable pub search_minute : ℕ → Text → ℕ → Result ℕ
search_minute zero expression candidate =
    err (value_error "Расписание не имеет запуска в ближайший год")
search_minute (suc rounds) expression candidate =
    let rest = search_minute rounds expression (candidate + 1) in
    cron_matches expression candidate >>= λ matched. if matched then ok candidate else rest

-- `60 * 24 * 370`
unfoldable pub rounds_of_search : ℕ
rounds_of_search = 532800

-- `next_cron_after` of an instant in seconds; it answers a minute
unfoldable pub next_cron_after : Text → ℕ → Result ℕ
next_cron_after expression instant = search_minute rounds_of_search expression (instant / 60 + 1)
