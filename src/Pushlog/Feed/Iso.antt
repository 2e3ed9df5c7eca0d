-- ===== src/Pushlog/Feed/Iso.antt =====
-- Dates that are printed are read back.
use Prim.Native.Nat.{◌/◌, ◌%◌}
use version_control_tools_fx.Base.{
  ℕ, suc, ◌+◌, ◌-◌, ◌*◌, ◌<◌, ◌≡◌, refl, ap, ◌∙◌, true, false, [], ◌∷◌, some, Text, strip,
  strip_left, is_space, ◌==◌, arith,
}
use version_control_tools_fx.Base.Decimal.{is_digit}
use version_control_tools_fx.Pushlog.Feed.Dates.{
  DateFields, Calendar, digits, digits_behind, second_at, minute_at, hour_at, iso_date,
  do_parse_date,
}

abbrev pub tens : ℕ → ℕ
tens n = 48 + n / 10

abbrev pub units : ℕ → ℕ
units n = 48 + n % 10

-- `YYYY-MM-DD hh:mm:ss`
abbrev pub iso_text : DateFields → Text
iso_text d =
    tens (d.year / 100)
    ∷ units (d.year / 100)
    ∷ tens (d.year % 100)
    ∷ units (d.year % 100)
    ∷ b'-'
    ∷ tens d.month
    ∷ units d.month
    ∷ b'-'
    ∷ tens d.day
    ∷ units d.day
    ∷ b' '
    ∷ tens d.hour
    ∷ units d.hour
    ∷ b':'
    ∷ tens d.minute
    ∷ units d.minute
    ∷ b':'
    ∷ tens d.second
    ∷ units d.second
    ∷ []

-- The year has four digits, the other fields have two.
pub record IsShort (d : DateFields) : Type 0 where
  pub year : d.year < 10000
  pub month : d.month < 100
  pub day : d.day < 100
  pub hour : d.hour < 100
  pub minute : d.minute < 100
  pub second : d.second < 100

two_digits :
    (k n m : ℕ) (t : Text)
    → m < 100
    → digits (suc (suc k)) n (tens m ∷ units m ∷ t) ≡ digits k (n * 100 + m) t
unfolding digits
two_digits k n m t h =
    let first : is_digit (tens m) ≡ true = ground (arith, h) in
    let second : is_digit (units m) ≡ true = ground arith in
    let value : (n * 10 + (tens m - 48)) * 10 + (units m - 48) ≡ n * 100 + m = omega arith in
    rw (first, second) (ap (λ v. digits k v t) value)

two_behind :
    (sep m : ℕ) (t : Text)
    → m < 100
    → digits_behind 2 sep (sep ∷ tens m ∷ units m ∷ t) ≡ some (m, t)
unfolding digits_behind
two_behind sep m t h =
    let same : sep == sep ≡ true = ground arith in
    let value : 0 * 100 + m ≡ m = omega arith in
    rw (digits_behind, same) (two_digits 0 0 m t h ∙ ap (λ v. some (v, t)) value)

four_digits :
    (y : ℕ) (t : Text)
    → y < 10000
    → digits 4 0 (tens (y / 100) ∷ units (y / 100) ∷ tens (y % 100) ∷ units (y % 100) ∷ t)
      ≡ some (y, t)
unfolding digits
four_digits y t h =
    let value : (0 * 100 + y / 100) * 100 + y % 100 ≡ y = omega arith in
    two_digits 2 0 (y / 100) (tens (y % 100) ∷ units (y % 100) ∷ t) (omega (arith, h))
    ∙ two_digits 0 (0 * 100 + y / 100) (y % 100) t (omega arith)
    ∙ ap (λ v. some (v, t)) value

time_at :
    (d : DateFields) (h m s : ℕ)
    → h < 100
    → m < 100
    → s < 100
    → hour_at d (b' ' ∷ tens h ∷ units h ∷ b':' ∷ tens m ∷ units m ∷ b':' ∷ tens s ∷ units s ∷ [])
      ≡ some (record d { hour = h; minute = m; second = s })
time_at d h m s hs ms ss =
    rw
      (
        hour_at,
        two_behind b' ' h (b':' ∷ tens m ∷ units m ∷ b':' ∷ tens s ∷ units s ∷ []) hs,
        minute_at,
        two_behind b':' m (b':' ∷ tens s ∷ units s ∷ []) ms,
        second_at,
        two_behind b':' s [] ss,
      )
      refl

iso_date-iso_text : (d : DateFields) → IsShort d → iso_date (iso_text d) ≡ some d
unfolding iso_date
iso_date-iso_text d h =
    let time : Text =
      b' '
      ∷ tens d.hour
      ∷ units d.hour
      ∷ b':'
      ∷ tens d.minute
      ∷ units d.minute
      ∷ b':'
      ∷ tens d.second
      ∷ units d.second
      ∷ [] in
    let days : Text = b'-' ∷ tens d.day ∷ units d.day ∷ time in
    rw
      (
        iso_date,
        four_digits d.year (b'-' ∷ tens d.month ∷ units d.month ∷ days) h.year,
        two_behind b'-' d.month days h.month,
        two_behind b'-' d.day time h.day,
      )
      (time_at
        (record { year = d.year; month = d.month; day = d.day; hour = 0; minute = 0; second = 0 })
        d.hour d.minute d.second h.hour h.minute h.second)

strip-iso_text : (d : DateFields) → IsShort d → strip (iso_text d) ≡ iso_text d
unfolding strip strip_left
strip-iso_text d h =
    let first : is_space (tens (d.year / 100)) ≡ false = ground (arith, h.year) in
    let last : is_space (units d.second) ≡ false = ground arith in rw (first, last) refl

-- A date of a request in the form that the view prints, YYYY-MM-DD hh:mm:ss with a year of four digits, is
-- read as the time of its fields, without parsedatetime.
pub do_parse_date-iso_text :
    (cal : Calendar) (d : DateFields) → IsShort d → do_parse_date cal (iso_text d) ≡ cal.mktime d
unfolding do_parse_date
do_parse_date-iso_text cal d h = rw (do_parse_date, strip-iso_text d h, iso_date-iso_text d h) refl
