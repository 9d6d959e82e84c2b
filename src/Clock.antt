-- ===== src/Clock.antt =====
-- Points in time: the parts of Python's `datetime` that the program uses, for aware UTC values.
-- `datetime` is the standard library's; nothing here has lines of the repository.
pub mod Format
pub mod RoundTrip
use cs_backup_helper.Base.{
  ℕ, zero, suc, ◌+◌, ◌-◌, ◌*◌, ◌/◌, ◌%◌, Bool, true, false, not, ◌&&◌, ◌||◌, List, [], ◌∷◌, ltb,
  leb, ◌==◌, if◌then◌else◌,
}

pub record DateTime : Type 0 where
  pub year : ℕ
  pub month : ℕ
  pub day : ℕ
  pub hour : ℕ
  pub minute : ℕ
  pub second : ℕ
  pub micro : ℕ

unfoldable pub is_leap : ℕ → Bool
is_leap y = y % 4 == 0 && (not (y % 100 == 0) || y % 400 == 0)

unfoldable pub days_in_month : ℕ → ℕ → ℕ
unfolding is_leap
days_in_month y m =
    if m == 2
    then (if is_leap y then 29 else 28)
    else if m == 4 || m == 6 || m == 9 || m == 11
    then 30
    else 31

-- The fields are in the ranges that the constructor of `datetime` accepts.
unfoldable pub is_valid : DateTime → Bool
unfolding days_in_month
is_valid d =
    leb 1 d.year
    && leb d.year 9999
    && leb 1 d.month
    && leb d.month 12
    && leb 1 d.day
    && leb d.day (days_in_month d.year d.month)
    && ltb d.hour 24
    && ltb d.minute 60
    && ltb d.second 60
    && ltb d.micro 1_000_000

-- The days of the first `m` months of the year.
unfoldable pub days_of_months : ℕ → ℕ → ℕ
unfolding days_in_month
days_of_months y zero = 0
days_of_months y (suc m) = days_of_months y m + days_in_month y (suc m)

unfoldable pub days_before_year : ℕ → ℕ
days_before_year y = let p = y - 1 in p * 365 + p / 4 - p / 100 + p / 400

-- `date.toordinal()`: 1 January of year 1 is day 1.
unfoldable pub ordinal : ℕ → ℕ → ℕ → ℕ
unfolding days_before_year days_of_months
ordinal y m d = days_before_year y + days_of_months y (m - 1) + d

-- Microseconds since the day 0 of the calendar: `a < b` compares these.
unfoldable pub instant : DateTime → ℕ
unfolding ordinal
instant t =
    (((ordinal t.year t.month t.day * 24 + t.hour) * 60 + t.minute) * 60 + t.second) * 1_000_000
    + t.micro

-- The Monday that begins ISO week 1 of the year, as an ordinal.
unfoldable pub week_one : ℕ → ℕ
unfolding ordinal
week_one y =
    let first = ordinal y 1 1 in
    let weekday = (first + 6) % 7 in if ltb 3 weekday then first - weekday + 7 else first - weekday

-- `isocalendar()[:2]`
unfoldable pub iso_week : DateTime → List ℕ
unfolding week_one ordinal
iso_week t =
    let today = ordinal t.year t.month t.day in
    let start = week_one t.year in
    let next = week_one (t.year + 1) in
    if ltb today start
    then (t.year - 1) ∷ ((today - week_one (t.year - 1)) / 7 + 1) ∷ []
    else if leb next today
    then (t.year + 1) ∷ 1 ∷ []
    else t.year ∷ ((today - start) / 7 + 1) ∷ []
