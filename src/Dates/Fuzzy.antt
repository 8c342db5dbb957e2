-- ===== src/Dates/Fuzzy.antt =====
-- `parse_fuzzy` of crates/oxidarr-cardigann/src/fuzzydate.rs.
use oxidarr.Common.{
  ℕ, zero, suc, ◌-◌, ◌*◌, ◌==◌, Bool, false, not, ◌&&◌, ◌||◌, leb, ltb, Option, none, some, List,
  [], ◌∷◌, ◌++◌, map, filter, length, Text, codes, text_eq, if◌then◌else◌, any,
}
use oxidarr.Common.Int.{ℤ, pos, negsuc}
use oxidarr.Common.Numerals.{parse_i64, i64_max}
use oxidarr.Common.Str.{trim, trim_end, drop, split_whitespace}
use oxidarr.Template.{strip_prefix}
use oxidarr.Dates.{Chrono, ◌>>=◌, or_else}

abbrev above : ℕ → ℤ → Bool
above n (pos m) = ltb n m
above n (negsuc m) = false

-- `checked_mul` of an `i64`.
abbrev in_i64 : ℤ → Option ℤ
in_i64 (pos n) = if leb n i64_max then some (pos n) else none
in_i64 (negsuc n) = if leb n i64_max then some (negsuc n) else none

abbrev times : ℕ → ℤ → ℤ
times k (pos n) = pos (k * n)
times k (negsuc n) = negsuc (k * suc n - 1)

abbrev keep_last : ℕ → Text → Text
keep_last n s = drop (length s - n) s

unfoldable take : ℕ → Text → Text
take n [] = []
take zero s = []
take (suc n) (c ∷ s) = c ∷ take n s

-- `strip_suffix`
unfoldable pub strip_suffix : Text → Text → Option Text
unfolding take drop
strip_suffix suffix s =
    let kept = length s - length suffix in
    if leb (length suffix) (length s) && text_eq (drop kept s) suffix
    then some (take kept s)
    else none

module _ {I D T L : Type 0} (chrono : Chrono I D T L) where
  abbrev signed : Bool → L → L
  signed negative magnitude = if negative then chrono.negate magnitude else magnitude

  abbrev offset_of : Bool → Option ℤ → Option ℤ → Option L
  offset_of negative none minutes = none
  offset_of negative (some hours) none = none
  offset_of negative (some hours) (some minutes) =
      if above 23 hours || above 59 minutes
      then none
      else (chrono.try_hours hours >>= λ h. chrono.try_minutes minutes >>= λ m.
          chrono.checked_add h m >>= λ magnitude. some (signed negative magnitude))

  -- Six characters, each of one byte: the numbers in it can only be parsed if they are ASCII.
  unfoldable pub parse_offset : Text → Option L
  unfolding parse_i64
  parse_offset (sign ∷ a ∷ b ∷ colon ∷ c ∷ d ∷ []) =
      if (sign == 43 || sign == 45) && colon == 58
      then offset_of (sign == 45) (parse_i64 (a ∷ b ∷ [])) (parse_i64 (c ∷ d ∷ []))
      else none
  parse_offset s = none

  abbrev without_offset : Text → Option L → Text × Option L
  without_offset s none = (s, none)
  without_offset s (some offset) = (s, some offset)

  -- The last six bytes are an offset only if they are six characters.
  unfoldable pub strip_trailing_offset : Text → Text × Option L
  unfolding parse_offset trim_end take drop
  strip_trailing_offset s = stripped (parse_offset (keep_last 6 s))
    where
      stripped : Option L → Text × Option L
      stripped none = (s, none)
      stripped (some offset) = (trim_end (take (length s - 6) s), some offset)

  unfoldable pub unit_duration : Text → ℤ → Option L
  unit_duration unit count =
      if any (text_eq unit) (codes "sec" ∷ codes "secs" ∷ codes "second" ∷ codes "seconds" ∷ [])
      then chrono.try_seconds count
      else if any (text_eq unit)
          (codes "min" ∷ codes "mins" ∷ codes "minute" ∷ codes "minutes" ∷ [])
      then chrono.try_minutes count
      else if any (text_eq unit) (codes "hour" ∷ codes "hours" ∷ codes "hr" ∷ codes "hrs" ∷ [])
      then chrono.try_hours count
      else if any (text_eq unit) (codes "day" ∷ codes "days" ∷ [])
      then chrono.try_days count
      else if any (text_eq unit) (codes "week" ∷ codes "weeks" ∷ [])
      then chrono.try_weeks count
      else if any (text_eq unit) (codes "month" ∷ codes "months" ∷ [])
      then in_i64 (times 30 count) >>= chrono.try_days
      else if any (text_eq unit) (codes "year" ∷ codes "years" ∷ [])
      then in_i64 (times 365 count) >>= chrono.try_days
      else none

  -- The sum of the pairs of a number and a unit, which must come out even.
  unfoldable pub total_of : List Text → L → Option L
  unfolding parse_i64 unit_duration
  total_of [] total = some total
  total_of (number ∷ []) total = none
  total_of (number ∷ unit ∷ rest) total = parse_i64 number >>= λ count.
      unit_duration unit count >>= λ duration.
      chrono.checked_add total duration >>= λ total'. total_of rest total'

  abbrev some_words : List Text → Option (List Text)
  some_words [] = none
  some_words (w ∷ ws) = some (w ∷ ws)

  unfoldable pub parse_time_ago : Text → I → Option I
  unfolding strip_suffix trim split_whitespace total_of
  parse_time_ago s now = strip_suffix (codes "ago") s >>= λ rest.
      some_words (
        filter (λ w. not (text_eq w (codes "and")))
          (split_whitespace (map (λ c. if c == 44 then 32 else c) (trim rest))))
      >>= λ tokens. total_of tokens chrono.no_time >>= λ total. chrono.sub_signed now total

  unfoldable pub parse_time_of_day : Text → Option T
  unfolding trim
  parse_time_of_day s =
      let s' = trim s in
      or_else (chrono.parse_time s' (codes "%H:%M"))
        (or_else (chrono.parse_time s' (codes "%I:%M %P")) (chrono.parse_time s' (codes "%I:%M%P")))

  abbrev or_midnight : Text → Option T
  unfolding parse_time_of_day
  or_midnight [] = chrono.midnight
  or_midnight (c ∷ s) = parse_time_of_day (c ∷ s)

  abbrev with_rest : D → Option Text → Option (D × Text)
  with_rest date none = none
  with_rest date (some rest) = some (date, rest)

  abbrev skip_at : Text → Option Text → Text
  unfolding trim
  skip_at rest none = rest
  skip_at rest (some after) = trim after

  unfoldable pub parse_named_day : Text → I → Option I
  unfolding strip_prefix skip_at or_midnight trim
  parse_named_day s now =
      let today = chrono.date_of now in
      or_else (with_rest (chrono.day_before today) (strip_prefix (codes "yesterday") s)) (
        or_else (with_rest (chrono.day_after today) (strip_prefix (codes "tomorrow") s))
          (with_rest today (strip_prefix (codes "today") s)))
      >>= λ (date, rest).
          or_midnight (skip_at (trim rest) (strip_prefix (codes "at") (trim rest))) >>= λ time.
          some (chrono.at_time date time)

  unfoldable pub parse_bare_time : Text → I → Option I
  unfolding parse_time_of_day
  parse_bare_time s now =
      parse_time_of_day s >>= λ time. some (chrono.at_time (chrono.date_of now) time)

  -- An error of `and_hms_opt` ends the function.
  abbrev dated : Option I → Option D → Option I
  dated otherwise none = otherwise
  dated otherwise (some date) = chrono.midnight >>= λ time. some (chrono.at_time date time)

  unfoldable pub parse_month_name_date : Text → I → Option I
  parse_month_name_date s now =
      dated (dated none (chrono.parse_date (s ++ codes " " ++ chrono.year now) (codes "%d %b %Y")))
        (chrono.parse_date s (codes "%b %d %Y"))

  abbrev shifted_by : (I → L → Option I) → I → Option L → Option I
  shifted_by shift i none = some i
  shifted_by shift i (some offset) = shift i offset

  -- A day or a time, in the frame of the offset.
  unfoldable pub parse_anchored : Text → I → Option I
  unfolding parse_named_day parse_bare_time parse_month_name_date
  parse_anchored lower anchor =
      or_else (parse_named_day lower anchor)
        (or_else (parse_bare_time lower anchor) (parse_month_name_date lower anchor))

  abbrev nonempty : Text → Option Text
  nonempty [] = none
  nonempty (c ∷ s) = some (c ∷ s)

  -- `to_lowercase` is a table of Unicode.
  unfoldable pub parse_fuzzy : (Text → Text) → Text → I → Option I
  unfolding trim strip_trailing_offset parse_time_ago parse_anchored
  parse_fuzzy to_lowercase input now = nonempty (trim input) >>= λ trimmed.
      let (body, offset) = strip_trailing_offset trimmed in
      nonempty (to_lowercase (trim body)) >>= λ lower. or_else (parse_time_ago lower now) (
        shifted_by chrono.add_signed now offset >>= λ anchor.
        parse_anchored lower anchor >>= λ parsed. shifted_by chrono.sub_signed parsed offset)
