-- ===== src/Dates.antt =====
-- Dates of crates/oxidarr-cardigann, with `chrono` as a parameter.
pub mod Layout
pub mod Fuzzy
pub mod Parse
use oxidarr.Common.{ℕ, Option, none, some, Text}
use oxidarr.Common.Int.{ℤ}

-- `chrono` on instants `I`, dates `D`, times of day `T` and durations `L`. `parse_datetime` is
-- `DateTime::parse_from_str` and then `with_timezone(&Utc)`; an instant of a naive date and time
-- is in UTC; `year` is the year as it is displayed.
pub record Chrono (I D T L : Type 0) : Type 0 where
  pub parse_datetime : Text → Text → Option I
  pub parse_naive_datetime : Text → Text → Option I
  pub parse_date : Text → Text → Option D
  pub parse_time : Text → Text → Option T
  pub midnight : Option T
  pub at_time : D → T → I
  pub date_of : I → D
  pub day_before : D → D
  pub day_after : D → D
  pub year : I → Text
  pub to_rfc3339 : I → Text
  pub no_time : L
  pub try_seconds : ℤ → Option L
  pub try_minutes : ℤ → Option L
  pub try_hours : ℤ → Option L
  pub try_days : ℤ → Option L
  pub try_weeks : ℤ → Option L
  pub checked_add : L → L → Option L
  pub negate : L → L
  pub add_signed : I → L → Option I
  pub sub_signed : I → L → Option I

-- `?`, `and_then` and `or_else` of options.
infixl 5 ◌>>=◌
abbrev pub ◌>>=◌ : {A B : Type 0} → Option A → (A → Option B) → Option B
none >>= f = none
some a >>= f = f a

abbrev pub or_else : {A : Type 0} → Option A → Option A → Option A
or_else none other = other
or_else (some a) other = some a
