-- ===== src/Clock/Format.antt =====
-- `strftime` and `strptime` of the standard library with the format "%Y-%m-%d_%H-%M-%S".
-- Years are printed with four digits, which holds from 1000 on; digits are those of ASCII.
use cs_backup_helper.Base.{
  ℕ, ◌+◌, ◌-◌, ◌*◌, ◌/◌, ◌%◌, ◌≡◌, refl, Bool, ◌&&◌, Option, none, some, [], ◌∷◌, ◌++◌, leb, ◌==◌,
  if◌then◌else◌,
}
use cs_backup_helper.Base.Maybe.{◌>>=◌}
use cs_backup_helper.Base.Text.{Text}
use cs_backup_helper.Clock.{DateTime, is_valid}

unfoldable pub two_digits : ℕ → Text
two_digits n = (48 + n / 10) ∷ (48 + n % 10) ∷ []

-- `t.strftime("%Y-%m-%d_%H-%M-%S")`: four digits of the year, then each field behind its mark.
unfoldable pub stamp : DateTime → Text
stamp t =
    two_digits (t.year / 100)
    ++ (two_digits (t.year % 100)
        ++ (b'-'
            ∷ (two_digits t.month
                ++ (b'-'
                    ∷ (two_digits t.day
                        ++ (b'_'
                            ∷ (two_digits t.hour
                                ++ (b'-'
                                    ∷ (two_digits t.minute ++ (b'-' ∷ two_digits t.second))))))))))

unfoldable pub is_digit : ℕ → Bool
is_digit c = leb b'0' c && leb c b'9'

-- A run of digits with its number of digits, its value and what follows it.
unfoldable pub read_digits : ℕ → ℕ → Text → ℕ × ℕ × Text
unfolding is_digit
read_digits n value [] = (n, value, [])
read_digits n value (c ∷ s) =
    let rest = read_digits (n + 1) (value * 10 + (c - 48)) s in
    if is_digit c then rest else (n, value, c ∷ s)

abbrev in_range : ℕ → ℕ → ℕ → ℕ → ℕ × ℕ × Text → Option (ℕ × Text)
in_range least most lo hi (n, value, rest) =
    if leb least n && leb n most && leb lo value && leb value hi then some (value, rest) else none

-- A directive that takes from `least` to `most` digits and a value from `lo` to `hi`.
unfoldable pub field : ℕ → ℕ → ℕ → ℕ → Text → Option (ℕ × Text)
unfolding read_digits
field least most lo hi s = in_range least most lo hi (read_digits 0 0 s)

-- "%d" also takes a space and one digit.
unfoldable pub day_field : Text → Option (ℕ × Text)
unfolding field
day_field [] = none
day_field (c ∷ s) = if c == b' ' then field 1 1 1 9 s else field 1 2 1 31 (c ∷ s)

unfoldable pub literal : ℕ → Text → Option Text
literal c [] = none
literal c (d ∷ s) = if c == d then some s else none

unfoldable pub at_end : Text → DateTime → Option DateTime
unfolding is_valid
at_end [] t = if is_valid t then some t else none
at_end (c ∷ s) t = none

-- `datetime.strptime(s, "%Y-%m-%d_%H-%M-%S")`; `none` for the ValueError.
unfoldable pub strptime : Text → Option DateTime
strptime s = do
  (year, s) ← field 4 4 0 9999 s
  s ← literal b'-' s
  (month, s) ← field 1 2 1 12 s
  s ← literal b'-' s
  (day, s) ← day_field s
  s ← literal b'_' s
  (hour, s) ← field 1 2 0 23 s
  s ← literal b'-' s
  (minute, s) ← field 1 2 0 59 s
  s ← literal b'-' s
  (second, s) ← field 1 2 0 61 s
  at_end s (record {
    year = year;
    month = month;
    day = day;
    hour = hour;
    minute = minute;
    second = second;
    micro = 0;
  })

abbrev sample : DateTime
sample = record { year = 2026; month = 7; day = 5; hour = 3; minute = 15; second = 0; micro = 0 }

sample_reads : strptime (stamp sample) ≡ some sample
unfolding strptime stamp two_digits field day_field literal at_end
sample_reads = refl
