-- ===== src/Pushlog/Feed/Dates.antt =====
-- feed.py: `do_parse_date`.
use version_control_tools_fx.Base.{
  ℕ, suc, zero, ◌+◌, ◌-◌, ◌*◌, [], ◌∷◌, Option, none, some, Text, strip, ◌==◌, if◌then◌else◌,
}
use version_control_tools_fx.Base.Result.{Result}
use version_control_tools_fx.Base.Decimal.{is_digit}

-- The fields of a date that `time.mktime` reads, without the week day, the day of the year and the
-- flag of the summer time.
pub record DateFields : Type 0 where
  pub year : ℕ
  pub month : ℕ
  pub day : ℕ
  pub hour : ℕ
  pub minute : ℕ
  pub second : ℕ

-- What is asked of `time` and of parsedatetime.
pub record Calendar : Type 0 where
  pub mktime : DateFields → Result ℕ
  -- `cal.parse` and then `time.mktime`
  pub parse : Text → Result ℕ
  -- `datetime.fromtimestamp(x).isoformat(" ")`
  pub isoformat : ℕ → Text

-- So many digits behind `n`, and what follows them.
unfoldable pub digits : ℕ → ℕ → Text → Option (ℕ × Text)
digits zero n t = some (n, t)
digits (suc k) n [] = none
digits (suc k) n (c ∷ cs) =
    let more = digits k (n * 10 + (c - 48)) cs in if is_digit c then more else none

-- So many digits behind a character.
unfoldable pub digits_behind : ℕ → ℕ → Text → Option (ℕ × Text)
unfolding digits
digits_behind k sep [] = none
digits_behind k sep (c ∷ cs) = if c == sep then digits k 0 cs else none

-- The optional parts of the time, of which each needs the one before it; the end is to follow.
abbrev pub second_at : DateFields → Text → Option DateFields
second_at d [] = some d
second_at d (c ∷ cs) = elim (digits_behind 2 b':' (c ∷ cs)) [
  | some (s, []) ↦ some (record d { second = s })
  | _ ↦ none
]

abbrev pub minute_at : DateFields → Text → Option DateFields
minute_at d [] = some d
minute_at d (c ∷ cs) = elim (digits_behind 2 b':' (c ∷ cs)) [
  | some (m, t) ↦ second_at (record d { minute = m }) t
  | none ↦ none
]

abbrev pub hour_at : DateFields → Text → Option DateFields
hour_at d [] = some d
hour_at d (c ∷ cs) = elim (digits_behind 2 b' ' (c ∷ cs)) [
  | some (h, t) ↦ minute_at (record d { hour = h }) t
  | none ↦ none
]

abbrev midnight : ℕ → ℕ → ℕ → DateFields
midnight y m d = record { year = y; month = m; day = d; hour = 0; minute = 0; second = 0 }

-- The regular expression of `do_parse_date`, on a text without white space at its ends.
unfoldable pub iso_date : Text → Option DateFields
unfolding digits digits_behind
iso_date t = elim (digits 4 0 t) [
  | none ↦ none
  | some (y, t1) ↦ elim (digits_behind 2 b'-' t1) [
    | none ↦ none
    | some (m, t2) ↦ elim (digits_behind 2 b'-' t2) [
      | none ↦ none
      | some (d, t3) ↦ hour_at (midnight y m d) t3
    ]
  ]
]

-- `do_parse_date`
unfoldable pub do_parse_date : Calendar → Text → Result ℕ
unfolding iso_date strip
do_parse_date cal t = elim (iso_date (strip t)) [
  | some d ↦ cal.mktime d
  | none ↦ cal.parse (strip t)
]
