-- ===== src/Validation/Dates/Calendar.antt =====
-- Which texts are dates.
use forgetbase.Prelude.{
  if-eq-some, ap, sym, ◌∙◌, ℕ, zero, suc, ◌+◌, ◌-◌, ◌*◌, ◌/◌, ◌%◌, ◌≤◌, String, true, false, ◌≡◌,
  refl, none, some, nat_eq, is_digit, List, [], ◌∷◌, ltb, leb, le→leb, leb→le, codes, arith,
  Bool-cases, inl, inr, ◌↔◌,
}
use forgetbase.Updater.Semver.{parse_int, parse_int_from, to_double_exact}
use forgetbase.Validation.Dates.{
  Day, days_in_month, carry, make_date, full_year, date_parts, is_date, same_day,
  normalize_date_only, previous_month, months,
}

-- A day of the calendar, in a year that `Date` does not shift.
pub record IsCalendarDay (y m d : ℕ) : Type 0 where
  pub year : 100 ≤ y
  pub month_low : 1 ≤ m
  pub month_high : m ≤ 12
  pub day_low : 1 ≤ d
  pub day_high : d ≤ days_in_month y m

days_in_month_bounds : (y m : ℕ) → (28 ≤ days_in_month y m) × (days_in_month y m ≤ 31)
unfolding days_in_month
days_in_month_bounds y m = ground arith

carry-stop :
    (fuel y m d : ℕ)
    → d ≤ days_in_month y m
    → carry (suc fuel) y m d ≡ record { year = y; month = m; day = d }
unfolding carry
carry-stop fuel y m d h = rw (le→leb d (days_in_month y m) h)

year_months :
    (y m : ℕ) → 100 ≤ y → 1 ≤ m → m ≤ 12 → (months y m / 12 ≡ y) × (months y m % 12 + 1 ≡ m)
year_months y m a b c = (ground arith, ground arith)

not_zero : (d : ℕ) → 1 ≤ d → nat_eq d 0 ≡ false
not_zero d h = ground arith

-- A day of the calendar is its own date.
make_date-same :
    (y m d : ℕ) → IsCalendarDay y m d → make_date y m d ≡ record { year = y; month = m; day = d }
unfolding make_date
make_date-same y m d v =
    let (q, r) = year_months y m v.year v.month_low v.month_high in
    rw (q, r, not_zero d v.day_low) (carry-stop 3 y m d v.day_high)

-- What `Date` makes of any numbers is a day of some month.
record IsMonthDay (low : ℕ) (t : Day) : Type 0 where
  year_low : low ≤ t.year
  month_low : 1 ≤ t.month
  month_high : t.month ≤ 12
  day_low : 1 ≤ t.day
  day_high : t.day ≤ days_in_month t.year t.month

carry-IsMonthDay :
    (low fuel y m d : ℕ)
    → low ≤ y
    → 1 ≤ m
    → m ≤ 12
    → 1 ≤ d
    → d ≤ 28 * fuel
    → IsMonthDay low (carry fuel y m d)
unfolding carry
carry-IsMonthDay low zero y m d a b c e f = absurd (omega arith)
carry-IsMonthDay low (suc fuel) y m d a b c e f = elim (Bool-cases (leb d (days_in_month y m))) [
  | inl fits ↦ rw fits (record {
    year_low = a;
    month_low = b;
    month_high = c;
    day_low = e;
    day_high = leb→le d (days_in_month y m) fits;
  })
  | inr beyond ↦ rw beyond (
      let rest = λ (y' m' : ℕ) (l : low ≤ y') (p : 1 ≤ m') (q : m' ≤ 12).
        carry-IsMonthDay low fuel y' m' (d - days_in_month y m) l p q (ground arith)
          (omega (arith, (days_in_month_bounds y m).0)) in
      elim (Bool-cases (ltb m 12)) [
        | inl in_year ↦ rw in_year (rest y (m + 1) a (omega arith) (ground arith))
        | inr december ↦ rw december (rest (y + 1) 1 (omega arith) (omega arith) (omega arith))
      ])
]

first_month_bounds :
    (y m : ℕ)
    → (full_year y ≤ months y m / 12 + 1) × (1 ≤ months y m % 12 + 1) × (months y m % 12 + 1 ≤ 12)
first_month_bounds y m = (ground arith, omega arith, omega arith)

make_date-IsMonthDay : (y m d : ℕ) → d ≤ 112 → IsMonthDay (full_year y - 2) (make_date y m d)
unfolding make_date
make_date-IsMonthDay y m d h = elim (Bool-cases (nat_eq d 0)) [
  | inl none_left ↦
      rw none_left (before (months y m / 12) (months y m % 12 + 1) (first_month_bounds y m))
  | inr some_left ↦
      let (a, b, c) = first_month_bounds y m in
      rw some_left (
        carry-IsMonthDay (full_year y - 2) 4 (months y m / 12) (months y m % 12 + 1) d (omega arith)
          b c (ground arith) (omega arith))
]
  where
    before :
        (y' m' : ℕ)
        → (full_year y ≤ y' + 1) × (1 ≤ m') × (m' ≤ 12)
        → IsMonthDay (full_year y - 2) (record {
          year = (previous_month y' m').0;
          month = (previous_month y' m').1;
          day = days_in_month (previous_month y' m').0 (previous_month y' m').1;
        })
    before y' m' (a, b, c) = elim (Bool-cases (ltb 1 m')) [
      | inl later ↦ rw later (record {
        year_low = omega arith;
        month_low = ground arith;
        month_high = omega arith;
        day_low = omega (arith, (days_in_month_bounds y' (m' - 1)).0);
        day_high = omega arith;
      })
      | inr january ↦ rw january (record {
        year_low = omega arith;
        month_low = omega arith;
        month_high = omega arith;
        day_low = omega (arith, (days_in_month_bounds (y' - 1) 12).0);
        day_high = omega arith;
      })
    ]

-- A date that comes out as it was written is a day of the calendar.
make_date-IsCalendarDay :
    (y m d : ℕ) → d ≤ 112 → same_day (make_date y m d) y m d ≡ true → IsCalendarDay y m d
make_date-IsCalendarDay y m d h e = from (make_date y m d) (make_date-IsMonthDay y m d h) e
  where
    year_high : (t : Day) → full_year y - 2 ≤ t.year → t.year ≡ y → 100 ≤ y
    year_high t a b = ground arith

    from :
        (t : Day) → IsMonthDay (full_year y - 2) t → same_day t y m d ≡ true → IsCalendarDay y m d
    from t v e =
        let p : t.year ≡ y = ground arith in
        let q : t.month ≡ m = ground arith in
        let r : t.day ≡ d = ground arith in
        let last : d ≤ days_in_month y m = rw (← p, ← q, ← r) v.day_high in
        record {
          year = year_high t v.year_low p;
          month_low = omega (arith, v.month_low);
          month_high = omega (arith, v.month_high);
          day_low = omega (arith, v.day_low);
          day_high = last;
        }

two_digits : (a b : ℕ) → is_digit a ≡ true → is_digit b ≡ true → parse_int (a ∷ b ∷ []) ≤ 99
unfolding parse_int parse_int_from
two_digits a b p q =
    let small : parse_int_from 0 (a ∷ b ∷ []) ≤ 99 = ground arith in
    rw (to_double_exact (parse_int_from 0 (a ∷ b ∷ [])) (omega (arith, small))) small

date_parts-day : (cs : List ℕ) (y m d : ℕ) → date_parts cs ≡ some (y, m, d) → d ≤ 99
unfolding date_parts
date_parts-day (a ∷ b ∷ c ∷ d ∷ e ∷ f ∷ g ∷ h ∷ i ∷ j ∷ []) y m n eq =
    let (p, q) = if-eq-some _ _ eq in
    let r : parse_int (i ∷ j ∷ []) ≡ n = ap (λ t. t.2) q in
    rw (← r) (two_digits i j (ground arith) (ground arith))
date_parts-day _ y m n eq = cc

is_date-eq :
    (s : String) (y m d : ℕ)
    → date_parts (codes s) ≡ some (y, m, d)
    → is_date s ≡ same_day (make_date y m d) y m d
unfolding is_date
is_date-eq s y m d e = rw (is_date, e) refl

same_day_refl : (y m d : ℕ) → same_day (record { year = y; month = m; day = d }) y m d ≡ true
same_day_refl y m d = ground arith

rejected : {y m d : ℕ} → IsCalendarDay y m d → same_day (make_date y m d) y m d ≡ false → ⊥
rejected {y} {m} {d} v h =
    let good : same_day (make_date y m d) y m d ≡ true =
      rw (make_date-same y m d v) (same_day_refl y m d) in
    cc

-- A text of four, two and two digits is returned as it is when the numbers are a day of the calendar in
-- a year from 100 on, and only then; otherwise nothing is returned.
pub normalize_date_only_iff :
    (s : String) (y m d : ℕ)
    → date_parts (codes s) ≡ some (y, m, d)
    → ((normalize_date_only s ≡ some s) ↔ IsCalendarDay y m d)
      × ((normalize_date_only s ≡ none) ↔ (¬ IsCalendarDay y m d))
unfolding normalize_date_only
normalize_date_only_iff s y m d e =
    let is : is_date s ≡ same_day (make_date y m d) y m d = is_date-eq s y m d e in
    elim (Bool-cases (is_date s)) [
      | inl good ↦
          let v =
            make_date-IsCalendarDay y m d (omega (arith, date_parts-day (codes s) y m d e))
              (sym is ∙ good) in
          rw good (((λ _. v), (λ _. refl)), ((λ h. cc), (λ n. absurd (n v))))
      | inr bad ↦
          let not_day = λ (v : IsCalendarDay y m d). rejected v (sym is ∙ bad) in
          rw bad (((λ h. cc), (λ v. absurd (not_day v))), ((λ _ v. not_day v), (λ _. refl)))
    ]
