-- ===== src/Filters/Unicode.antt =====
-- The tables of Unicode that `char` and `str` methods read.
use oxidarr.Common.{ℕ, Bool, Text}

-- `str::to_uppercase`, `str::to_lowercase`, `char::is_alphanumeric`, `char::is_uppercase` and
-- `char::to_lowercase`, which may give several characters.
pub record Unicode : Type 0 where
  pub to_uppercase : Text → Text
  pub to_lowercase : Text → Text
  pub is_alphanumeric : ℕ → Bool
  pub is_uppercase : ℕ → Bool
  pub char_to_lowercase : ℕ → Text
