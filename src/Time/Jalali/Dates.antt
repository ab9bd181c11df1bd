-- ===== src/Time/Jalali/Dates.antt =====
-- shared/time/jalali-calendar.ts: between civil days and Jalali dates, and the bounds of months and years.
use main_acounting_system.Prelude.{
  if◌then◌else◌, if◌then◌else◌, if◌then◌else◌, ltb, not, ℕ, ◌&&◌, ◌+◌, ◌-◌, ◌==◌,
}
use main_acounting_system.Prelude.Int.{
  eqb_ℤ, ltb_ℤ, negsuc, pos, ℤ, ◌*ℤ◌, ◌*ℤ◌, ◌+ℤ◌, ◌+ℤ◌, ◌-ℤ◌, ◌-ℤ◌,
}
use main_acounting_system.Prelude.Outcome.{Outcome, err, ok, throw_if, ◌>>=◌, ◌>>◌}
use main_acounting_system.Primitives.Text.{
  InvalidPrimitiveError, invalid_primitive, validate_integer_in_range,
}
use main_acounting_system.Time.BusinessDate.{BusinessDate, date_of}
use main_acounting_system.Time.Calendar.{day_number, days_in_month, unix_epoch_day}
use main_acounting_system.Time.Jalali.{
  div_ℤ, jalali_day_jdn, jalali_days_in_month, jalali_year_info, max_jalali_year, mod_ℤ,
}

-- `jdnToGregorianDay`: year, month and day.
unfoldable pub jdn_to_gregorian_day : ℤ → ℤ × ℤ × ℤ
unfolding ◌+ℤ◌ ◌-ℤ◌ ◌*ℤ◌
jdn_to_gregorian_day jdn =
    let shifted = pos 4 *ℤ jdn in
    let j =
      shifted
      +ℤ pos 139361631
      +ℤ div_ℤ (div_ℤ (shifted +ℤ pos 183187720) 146097 *ℤ pos 3) 4 *ℤ pos 4
      -ℤ pos 3908 in
    let i = div_ℤ (mod_ℤ j 1461) 4 *ℤ pos 5 +ℤ pos 308 in
    let month = mod_ℤ (div_ℤ i 153) 12 +ℤ pos 1 in
    (div_ℤ j 1461 -ℤ pos 100100 +ℤ div_ℤ (pos 8 -ℤ month) 6, month, div_ℤ (mod_ℤ i 153) 5 +ℤ pos 1)

pub record JalaliDate : Type 0 where
  pub j_year : ℕ
  pub j_month : ℤ
  pub j_day : ℤ

-- A year in the supported range, `validateIntegerInRange` on a whole number.
abbrev pub validate_year : ℤ → Outcome InvalidPrimitiveError ℕ
unfolding validate_integer_in_range
validate_year (pos y) = validate_integer_in_range y 1 max_jalali_year
validate_year (negsuc y) = err invalid_primitive

abbrev day_of_half : ℕ → ℕ → ℤ → JalaliDate
day_of_half year days k = record {
  j_year = year;
  j_month = div_ℤ k days +ℤ pos (if days == 31 then 1 else 7);
  j_day = mod_ℤ k days +ℤ pos 1;
}

-- `dayNumberToJalali`.
unfoldable pub day_number_to_jalali : ℤ → Outcome InvalidPrimitiveError JalaliDate
unfolding jdn_to_gregorian_day jalali_year_info validate_integer_in_range ◌+ℤ◌ ◌-ℤ◌
day_number_to_jalali jdn =
    let gregorian_year = (jdn_to_gregorian_day jdn).0 in
    validate_year (gregorian_year -ℤ pos 621) >>= λ y.
    let info = jalali_year_info y in
    let k = jdn -ℤ info.march_jdn in
    ok (
      if not (ltb_ℤ k (pos 0)) && not (ltb_ℤ (pos 185) k)
      then day_of_half y 31 k
      else (if not (ltb_ℤ k (pos 0))
          then day_of_half y 30 (k -ℤ pos 186)
          else (let shifted = k +ℤ pos 179 in
              day_of_half (y - 1) 30
                (if eqb_ℤ info.leap (pos 1) then shifted +ℤ pos 1 else shifted))))

abbrev jdn_of_unix_epoch : ℕ
jdn_of_unix_epoch = 2440588

-- `businessDateToJalali`.
unfoldable pub business_date_to_jalali : BusinessDate → Outcome InvalidPrimitiveError JalaliDate
unfolding day_number day_number_to_jalali
business_date_to_jalali date =
    day_number_to_jalali
      (pos (day_number date.year date.month date.day + (jdn_of_unix_epoch - unix_epoch_day)))

abbrev natural : ℤ → ℕ
natural (pos n) = n
natural (negsuc n) = 0

-- A civil day of three whole numbers; a negative one is refused as zero is.
abbrev civil_date : ℤ × ℤ × ℤ → Outcome InvalidPrimitiveError BusinessDate
unfolding date_of
civil_date (year, month, day) = date_of (natural year) (natural month) (natural day)

-- `businessDateFromJalali`, with `assertJalaliMonthDay`.
unfoldable pub business_date_from_jalali : ℕ → ℕ → ℕ → Outcome InvalidPrimitiveError BusinessDate
unfolding validate_integer_in_range jalali_days_in_month jalali_day_jdn jdn_to_gregorian_day date_of
business_date_from_jalali year month day = validate_integer_in_range year 1 max_jalali_year >>= λ y.
    validate_integer_in_range month 1 12 >>= λ m. validate_integer_in_range day 1 31 >>= λ d.
    jalali_days_in_month y m >>= λ last.
    throw_if (ltb last d) invalid_primitive
    >> civil_date (jdn_to_gregorian_day (jalali_day_jdn y m d))

pub record Bounds : Type 0 where
  pub start : BusinessDate
  pub end : BusinessDate

-- `jalaliMonthBounds`.
unfoldable pub jalali_month_bounds : ℕ → ℕ → Outcome InvalidPrimitiveError Bounds
unfolding validate_integer_in_range business_date_from_jalali jalali_days_in_month
jalali_month_bounds year month = validate_integer_in_range month 1 12 >>= λ m.
    business_date_from_jalali year m 1 >>= λ start. jalali_days_in_month year m >>= λ days.
    business_date_from_jalali year m days >>= λ end. ok (record { start = start; end = end })

-- `jalaliYearBounds`.
unfoldable pub jalali_year_bounds : ℕ → Outcome InvalidPrimitiveError Bounds
unfolding validate_integer_in_range business_date_from_jalali jalali_days_in_month
jalali_year_bounds year = validate_integer_in_range year 1 max_jalali_year >>= λ y.
    business_date_from_jalali y 1 1 >>= λ start. jalali_days_in_month y 12 >>= λ days.
    business_date_from_jalali y 12 days >>= λ end. ok (record { start = start; end = end })

-- `subtractDays(1)`: the day before in the Gregorian calendar, refused before 1 January of year 1.
unfoldable pub previous_day : BusinessDate → Outcome InvalidPrimitiveError BusinessDate
unfolding days_in_month date_of
previous_day date =
    if ltb 1 date.day
    then date_of date.year date.month (date.day - 1)
    else (if ltb 1 date.month
        then date_of date.year (date.month - 1) (days_in_month date.year (date.month - 1))
        else date_of (date.year - 1) 12 31)
