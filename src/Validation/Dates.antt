-- ===== src/Validation/Dates.antt =====
-- packages/validation/src/index.ts: `normalizeDateOnly`. The JavaScript `Date` is modelled as far as the
-- code uses it: the fields of a local date made from a year, a month index and a day, in a time zone
-- that skips no whole day.
pub mod Calendar
use forgetbase.Prelude.{
  ℕ, zero, suc, ◌+◌, ◌-◌, ◌*◌, ◌/◌, ◌%◌, String, Bool, true, false, not, ◌&&◌, ◌||◌, Option, none,
  some, List, [], ◌∷◌, codes, is_digit, nat_eq, ltb, leb, if◌then◌else◌, text, decimal,
}
use forgetbase.Updater.Semver.{parse_int}

pub record Day : Type 0 where
  pub year : ℕ
  pub month : ℕ
  pub day : ℕ

abbrev pub is_leap : ℕ → Bool
is_leap y = nat_eq (y % 4) 0 && (not (nat_eq (y % 100) 0) || nat_eq (y % 400) 0)

abbrev pub is_short : ℕ → Bool
is_short m = nat_eq m 4 || nat_eq m 6 || nat_eq m 9 || nat_eq m 11

-- the days of the month `m`, from 1 to 12
unfoldable pub days_in_month : ℕ → ℕ → ℕ
days_in_month y m =
    if nat_eq m 2 then (if is_leap y then 29 else 28) else if is_short m then 30 else 31

abbrev pub next_month : ℕ → ℕ → ℕ × ℕ
next_month y m = if ltb m 12 then (y, m + 1) else (y + 1, 1)

abbrev pub previous_month : ℕ → ℕ → ℕ × ℕ
previous_month y m = if ltb 1 m then (y, m - 1) else (y - 1, 12)

-- Days beyond the month's last run on into the next months; each round takes a month of at least 28
-- days off, so `fuel` rounds are enough for `28 * fuel` days.
unfoldable pub carry : ℕ → ℕ → ℕ → ℕ → Day
unfolding days_in_month
carry zero y m d = record { year = y; month = m; day = d }
carry (suc fuel) y m d =
    let (y', m') = next_month y m in
    let more = carry fuel y' m' (d - days_in_month y m) in
    if leb d (days_in_month y m) then record { year = y; month = m; day = d } else more

-- A year below 100 counts from 1900.
abbrev pub full_year : ℕ → ℕ
full_year y = if ltb y 100 then 1900 + y else y

-- the months since the year 0, of a month index that is one less than the text says
abbrev pub months : ℕ → ℕ → ℕ
months y m = full_year y * 12 + m - 1

abbrev pub first_month : ℕ → ℕ → ℕ × ℕ
first_month y m = (months y m / 12, months y m % 12 + 1)

-- the fields of `new Date(year, month - 1, day)`; `month` and `day` are below 100
unfoldable pub make_date : ℕ → ℕ → ℕ → Day
unfolding carry
make_date y m d =
    let (y', m') = first_month y m in
    if nat_eq d 0
    then (let (y0, m0) = previous_month y' m' in
        record { year = y0; month = m0; day = days_in_month y0 m0 })
    else carry 4 y' m' d

-- the numbers of a text of the form `\d{4}-\d{2}-\d{2}`
unfoldable pub date_parts : List ℕ → Option (ℕ × ℕ × ℕ)
unfolding parse_int
date_parts (a ∷ b ∷ c ∷ d ∷ e ∷ f ∷ g ∷ h ∷ i ∷ j ∷ []) =
    if is_digit a
      && is_digit b
      && is_digit c
      && is_digit d
      && nat_eq e b'-'
      && is_digit f
      && is_digit g
      && nat_eq h b'-'
      && is_digit i
      && is_digit j
    then some (parse_int (a ∷ b ∷ c ∷ d ∷ []), parse_int (f ∷ g ∷ []), parse_int (i ∷ j ∷ []))
    else none
date_parts _ = none

-- `date.getFullYear() === year && …`
abbrev pub same_day : Day → ℕ → ℕ → ℕ → Bool
same_day t y m d = nat_eq t.year y && nat_eq t.month m && nat_eq t.day d

unfoldable pub is_date : String → Bool
unfolding date_parts make_date
is_date s = elim (date_parts (codes s)) [
  | none ↦ false
  | some (y, m, d) ↦ same_day (make_date y m d) y m d
]

-- `normalizeDateOnly` of a text; the empty text has no date either
unfoldable pub normalize_date_only : String → Option String
unfolding is_date
normalize_date_only s = if is_date s then some s else none

-- `padStart(2, "0")`
abbrev pub pad_two : ℕ → String
pad_two n = if ltb n 10 then text "0" (decimal n) "" else decimal n

-- `normalizeDateOnly` of a `Date`, whose fields are given
unfoldable pub date_text : Day → String
date_text t = text (decimal t.year) "-" (text (pad_two t.month) "-" (pad_two t.day))
