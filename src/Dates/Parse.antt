-- ===== src/Dates/Parse.antt =====
-- `parse_net_datetime` of crates/oxidarr-cardigann/src/filters.rs, for `dateparse` and `timeparse`.
use oxidarr.Common.{Bool, ◌||◌, Option, none, some, Text, codes, if◌then◌else◌}
use oxidarr.Common.Outcome.{Outcome, ok, err}
use oxidarr.Common.Split.{contains_text, replace}
use oxidarr.Template.{CardigannError}
use oxidarr.Dates.{Chrono, ◌>>=◌, or_else}
use oxidarr.Dates.Layout.{net_layout_to_chrono}
use oxidarr.Dates.Fuzzy.{strip_suffix}

unfoldable pub format_has_offset : Text → Bool
unfolding contains_text
format_has_offset format = contains_text format (codes "%:z") || contains_text format (codes "%z")

abbrev or_text : Text → Option Text → Text
or_text s none = s
or_text s (some t) = t

unfoldable pub strip_offset : Text → Text
unfolding strip_suffix
strip_offset format = or_text format (
    or_else (strip_suffix (codes " %:z") format) (
      or_else (strip_suffix (codes "%:z") format)
        (or_else (strip_suffix (codes " %z") format) (strip_suffix (codes "%z") format))))

unfoldable pub normalize_fractional_seconds : Text → Text
unfolding replace
normalize_fractional_seconds format = replace (codes ".%.3f") (codes "%.3f") format

abbrev ok_of : Outcome CardigannError Text → Option Text
ok_of (ok t) = some t
ok_of (err e) = none

module _ {I D T L : Type 0} (chrono : Chrono I D T L) where
  abbrev of_date : Option I → Option D → Option I
  of_date otherwise none = otherwise
  of_date otherwise (some date) = chrono.midnight >>= λ time. some (chrono.at_time date time)

  abbrev of_time : I → Option T → Option I
  of_time now none = none
  of_time now (some time) = some (chrono.at_time (chrono.date_of now) time)

  unfoldable pub parse_naive : Text → Text → I → Option I
  parse_naive format input now =
      or_else (chrono.parse_naive_datetime input format)
        (of_date (of_time now (chrono.parse_time input format)) (chrono.parse_date input format))

  abbrev with_format : Text → I → Text → Option I
  unfolding format_has_offset strip_offset parse_naive
  with_format input now format =
      if format_has_offset format
      then or_else (chrono.parse_datetime input format)
          (parse_naive (strip_offset format) input now)
      else parse_naive format input now

  unfoldable pub parse_net_datetime : (Text → Text) → Text → Text → I → Option I
  unfolding net_layout_to_chrono normalize_fractional_seconds with_format
  parse_net_datetime debug layout input now =
      ok_of (net_layout_to_chrono debug layout) >>= λ format.
      with_format input now (normalize_fractional_seconds format)
