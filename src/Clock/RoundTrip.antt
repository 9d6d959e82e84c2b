-- ===== src/Clock/RoundTrip.antt =====
-- A printed time reads back, and printed times sort like the times.
use cs_backup_helper.Base.{
  ℕ, ◌/◌, ◌%◌, ◌≤◌, ◌<◌, ◌≡◌, refl, ◌∙◌, Bool, true, false, ◌&&◌, ◌||◌, some, List, [], ◌∷◌, ◌++◌,
  arith, ltb, ◌==◌, length,
}
use cs_backup_helper.Base.Text.{Text, text_lt}
use cs_backup_helper.Clock.{DateTime, is_valid, days_in_month}
use cs_backup_helper.Clock.Format.{
  two_digits, stamp, is_digit, field, day_field, literal, at_end, strptime,
}

module _ (n : ℕ) (h : n < 100) where
  field-two_digits :
      (lo hi c : ℕ) (s : Text)
      → lo ≤ n
      → n ≤ hi
      → is_digit c ≡ false
      → field 1 2 lo hi (two_digits n ++ c ∷ s) ≡ some (n, c ∷ s)
  unfolding field two_digits
  field-two_digits lo hi c s p q d = ground arith

  field-two_digits_end :
      (lo hi : ℕ) → lo ≤ n → n ≤ hi → field 1 2 lo hi (two_digits n) ≡ some (n, [])
  unfolding field two_digits
  field-two_digits_end lo hi p q = ground arith

field-four_digits :
    (n c : ℕ) (s : Text)
    → n < 10_000
    → is_digit c ≡ false
    → field 4 4 0 9999 (two_digits (n / 100) ++ (two_digits (n % 100) ++ (c ∷ s))) ≡ some (n, c ∷ s)
unfolding field two_digits
field-four_digits n c s h d = ground arith

day_field-two_digits :
    (n c : ℕ) (s : Text)
    → 1 ≤ n
    → n ≤ 31
    → is_digit c ≡ false
    → day_field (two_digits n ++ c ∷ s) ≡ some (n, c ∷ s)
unfolding day_field two_digits
day_field-two_digits n c s p q d = ground arith

-- The fields of a valid time are in the ranges of the format's directives.
record InRange (t : DateTime) : Type 0 where
  year : t.year < 10_000
  month_lo : 1 ≤ t.month
  month_hi : t.month ≤ 12
  day_lo : 1 ≤ t.day
  day_hi : t.day ≤ 31
  hour : t.hour ≤ 23
  minute : t.minute ≤ 59
  second : t.second ≤ 59

is_valid-InRange : (t : DateTime) → is_valid t ≡ true → InRange t
unfolding is_valid days_in_month
is_valid-InRange t h = ground arith

is_valid-micro : (t : DateTime) → is_valid t ≡ true → is_valid (record t { micro = 0 }) ≡ true
unfolding is_valid
is_valid-micro t h = ground arith

pub strptime-stamp :
    (t : DateTime) → is_valid t ≡ true → strptime (stamp t) ≡ some (record t { micro = 0 })
unfolding strptime stamp literal at_end is_digit
strptime-stamp t h =
    let r = is_valid-InRange t h in
    rw (
      field-four_digits t.year b'-' _ r.year refl,
      field-two_digits t.month (omega arith) 1 12 b'-' _ r.month_lo r.month_hi refl,
      day_field-two_digits t.day b'_' _ r.day_lo r.day_hi refl,
      field-two_digits t.hour (omega arith) 0 23 b'-' _ (omega arith) r.hour refl,
      field-two_digits t.minute (omega arith) 0 59 b'-' _ (omega arith) r.minute refl,
      field-two_digits_end t.second (omega arith) 0 61 (omega arith) (omega arith),
      is_valid-micro t h,
    )

-- `datetime` compares its fields from the year on: to the second, in this order.
abbrev pub fields : DateTime → List ℕ
fields t = t.year ∷ t.month ∷ t.day ∷ t.hour ∷ t.minute ∷ t.second ∷ []

lt-two_digits :
    (m n : ℕ) (s t : Text)
    → m < 100
    → n < 100
    → text_lt (two_digits m ++ s) (two_digits n ++ t) ≡ (ltb m n || (m == n && text_lt s t))
unfolding two_digits text_lt
lt-two_digits m n s t p q = ground arith

lt-two_digits_end :
    (m n : ℕ)
    → m < 100
    → n < 100
    → text_lt (two_digits m) (two_digits n) ≡ text_lt (m ∷ []) (n ∷ [])
unfolding two_digits text_lt
lt-two_digits_end m n p q = ground arith

lt-same_head : (c : ℕ) (s t : Text) → text_lt (c ∷ s) (c ∷ t) ≡ text_lt s t
unfolding text_lt
lt-same_head c s t = ground arith

lt-centuries :
    (m n : ℕ) (b : Bool)
    → (ltb (m / 100) (n / 100)
        || (m / 100 == n / 100 && (ltb (m % 100) (n % 100) || (m % 100 == n % 100 && b))))
      ≡ (ltb m n || (m == n && b))
lt-centuries m n b = ground arith

-- The texts of two valid times compare like the times, to the second.
pub lt-stamp :
    (a b : DateTime)
    → is_valid a ≡ true
    → is_valid b ≡ true
    → text_lt (stamp a) (stamp b) ≡ text_lt (fields a) (fields b)
unfolding stamp
lt-stamp a b va vb =
    let r = is_valid-InRange a va in
    let q = is_valid-InRange b vb in
    rw
      (
        lt-two_digits (a.year / 100) (b.year / 100) _ _ (omega arith) (omega arith),
        lt-two_digits (a.year % 100) (b.year % 100) _ _ (omega arith) (omega arith),
        lt-centuries a.year b.year _,
        lt-same_head b'-' (two_digits a.month ++ _) (two_digits b.month ++ _),
        lt-two_digits a.month b.month _ _ (omega arith) (omega arith),
        lt-same_head b'-' (two_digits a.day ++ _) (two_digits b.day ++ _),
        lt-two_digits a.day b.day _ _ (omega arith) (omega arith),
        lt-same_head b'_' _ _,
        lt-two_digits a.hour b.hour _ _ (omega arith) (omega arith),
        lt-same_head b'-' (two_digits a.minute ++ _) (two_digits b.minute ++ _),
        lt-two_digits a.minute b.minute _ _ (omega arith) (omega arith),
        lt-same_head b'-' (two_digits a.second) (two_digits b.second),
        lt-two_digits_end a.second b.second (omega arith) (omega arith),
      )
      (unfold text_lt in refl)

lt-append :
    (s t x y : Text) → length s ≡ length t → text_lt s t ≡ true → text_lt (s ++ x) (t ++ y) ≡ true
unfolding text_lt
lt-append [] [] x y e h = absurd (ground arith)
lt-append [] (b ∷ t) x y e h = absurd (omega arith)
lt-append (a ∷ s) [] x y e h = absurd (omega arith)
lt-append (a ∷ s) (b ∷ t) x y e h = ground (arith, lt-append s t x y)

-- A suffix, such as a job's name, does not disturb the order.
pub lt-stamp-append :
    (a b : DateTime) (x y : Text)
    → is_valid a ≡ true
    → is_valid b ≡ true
    → text_lt (fields a) (fields b) ≡ true
    → text_lt (stamp a ++ x) (stamp b ++ y) ≡ true
unfolding stamp two_digits
lt-stamp-append a b x y va vb h = lt-append (stamp a) (stamp b) x y refl (lt-stamp a b va vb ∙ h)
