-- ===== src/Locale.antt =====
-- src/locale/locale.c: the locale, dates and times, and the code pages. Numbers with a fraction
-- (`cellar_locale_format_number`) are left out. `none` is the result -1.
pub mod Pages
pub mod RoundTrip
use Prim.Native.Nat.{bit_and, bit_or}
use fantastic_octo_meme.Prelude.{
  ℕ, zero, suc, ◌+◌, ◌-◌, ◌*◌, ◌/◌, ◌%◌, ◌^◌, Bool, true, false, not, ◌&&◌, ◌||◌, List, [], ◌∷◌,
  ◌++◌, length, take, replicate, get_or, ltb, leb, ◌==◌, Option, none, some, if◌then◌else◌,
}
use fantastic_octo_meme.Memory.{Bytes}
use fantastic_octo_meme.Status.{Status, err_invalid_argument}
use fantastic_octo_meme.Text.{codes, clip}
use fantastic_octo_meme.Text.Decimal.{decimal}

-- `cellar_locale_t`.
pub record Locale : Type 0 where
  pub lcid : ℕ
  pub acp : ℕ
  pub oemcp : ℕ
  pub language : Bytes
  pub country : Bytes
  pub date_fmt : Bytes
  pub time_fmt : Bytes
  pub decimal_point : Bytes
  pub thousand : Bytes
  pub keyboard : Bytes

-- `cellar_locale_english_us`.
abbrev pub english_us : Locale
english_us = record {
  lcid = 1033;
  acp = 1252;
  oemcp = 437;
  language = codes "en";
  country = codes "US";
  date_fmt = codes "MM/dd/yyyy";
  time_fmt = codes "HH:mm:ss";
  decimal_point = codes ".";
  thousand = codes ",";
  keyboard = codes "us";
}

-- `g_loc` and `g_have`, and `cellar_locale_get` with `ensure`: the locale, and the globals after.
abbrev pub Global : Type 0
Global = Option Locale

abbrev pub locale_get : Global → Locale × Global
locale_get none = (english_us, some english_us)
locale_get (some l) = (l, some l)

-- `cellar_locale_set`, with a null pointer as `none`.
abbrev pub locale_set : Global → Option Locale → Global
locale_set g none = g
locale_set g (some l) = some l

-- `%02d` and `%04d` of numbers that are not negative.
abbrev pub padded : ℕ → ℕ → Bytes
padded width n = replicate (width - length (decimal n)) b'0' ++ decimal n

-- `cellar_locale_format_date` and `cellar_locale_format_time`, for fields that are not negative.
abbrev pub format_date : ℕ → ℕ → ℕ → ℕ → Status × Option Bytes
format_date mon mday year size = if size == 0 then (err_invalid_argument, none) else (
  Status.ok,
  some (clip size (padded 2 (mon + 1) ++ b'/' ∷ (padded 2 mday ++ b'/' ∷ padded 4 (year + 1900)))),
)

abbrev pub format_time : ℕ → ℕ → ℕ → ℕ → Status × Option Bytes
format_time hour minute second size = if size == 0 then (err_invalid_argument, none) else (
  Status.ok,
  some (clip size (padded 2 hour ++ b':' ∷ (padded 2 minute ++ b':' ∷ padded 2 second))),
)
