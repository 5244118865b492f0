-- ===== src/DataTypes/Date.antt =====
-- Dates of datatypes.py: `datetime` as the sources use it, and the twelve bytes of a
-- cosem-date-time.
use rise_sun.Common.{ℕ, zero, suc, ◌+◌, ◌-◌, ◌*◌, ◌/◌, ◌%◌, List, [], ◌∷◌, ◌++◌, Bool}
use rise_sun.Common.{ltb, leb, ◌==◌, ◌&&◌, ◌||◌, not, if◌then◌else◌, length}
use rise_sun.Errors.{Result, ok, err, ◌>>=◌, ◌>>◌, guard, dlms_data_error, value_error}
use rise_sun.Bytes.{slice, byte_at, big_endian, from_bytes_big}

-- A naive `datetime` with no fraction of a second.
pub record DateTime : Type 0 where
  pub year : ℕ
  pub month : ℕ
  pub day : ℕ
  pub hour : ℕ
  pub minute : ℕ
  pub second : ℕ

abbrev pub is_leap : ℕ → Bool
is_leap y = y % 4 == 0 && (not (y % 100 == 0) || y % 400 == 0)

abbrev pub days_in_month : ℕ → ℕ → ℕ
days_in_month y m =
    if m == 2
    then if is_leap y then 29 else 28
    else if m == 4 || (m == 6 || (m == 9 || m == 11))
    then 30
    else 31

-- The checks of `datetime(...)`, which raises a `ValueError` where one fails.
unfoldable pub is_valid : DateTime → Bool
is_valid d =
    leb 1 d.year
    && (leb d.year 9999
        && (leb 1 d.month
            && (leb d.month 12
                && (leb 1 d.day
                    && (leb d.day (days_in_month d.year d.month)
                        && (ltb d.hour 24 && (ltb d.minute 60 && ltb d.second 60)))))))

-- The constructor `datetime(year, month, day, hour, minute, second)`.
unfoldable pub datetime : DateTime → Result DateTime
datetime d = if is_valid d then ok d else err value_error

-- The days before a year, and those of the first months of a year.
abbrev days_before_year : ℕ → ℕ
days_before_year y = (y - 1) * 365 + (y - 1) / 4 - (y - 1) / 100 + (y - 1) / 400

pub days_through : ℕ → ℕ → ℕ
days_through y zero = 0
days_through y (suc m) = days_through y m + days_in_month y (suc m)

-- `dt.isoweekday()`: 1 is Monday, and the first day of year 1 is one.
unfoldable pub isoweekday : DateTime → ℕ
unfolding days_through
isoweekday d = (days_before_year d.year + days_through d.year (d.month - 1) + d.day + 6) % 7 + 1

-- The parts of a `datetime` fit their bytes, so nothing is raised here.
unfoldable pub encode_cosem_date_time : DateTime → List ℕ
encode_cosem_date_time d =
    big_endian 2 d.year
    ++ ((d.month ∷ d.day ∷ isoweekday d ∷ d.hour ∷ d.minute ∷ d.second ∷ 0xFF ∷ [])
        ++ (big_endian 2 0x8000 ++ (0xFF ∷ [])))

unfoldable pub decode_cosem_date_time : List ℕ → Result DateTime
decode_cosem_date_time raw = do
  guard (length raw == 12) dlms_data_error
  let year = from_bytes_big (slice 0 2 raw)
  month ← byte_at raw 2
  day ← byte_at raw 3
  hour ← byte_at raw 5
  minute ← byte_at raw 6
  second ← byte_at raw 7
  datetime (record {
    year = year;
    month = month;
    day = day;
    hour = hour;
    minute = minute;
    second = second;
  })
