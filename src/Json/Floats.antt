-- ===== src/Json/Floats.antt =====
-- What src/odio/value.cpp and src/odio/json_parse.cpp take from `<charconv>` for a `double`.
use osodio.Prelude.{Bytes, ℕ, Option}

pub record Floats : Type 0 where
  -- The shortest text, `std::to_chars`; `none` is an error.
  pub to_chars : ℕ → Option Bytes
  -- `std::from_chars` over the whole text; `none` is an error or an early stop.
  pub from_chars : Bytes → Option ℕ
