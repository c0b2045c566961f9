-- ===== src/Tests/Locale.antt =====
-- src/locale/locale.c on short texts.
use fantastic_octo_meme.Prelude.{◌≡◌, refl, arith, [], ◌∷◌, some}
use fantastic_octo_meme.Memory.{Bytes}
use fantastic_octo_meme.Text.{codes}
use fantastic_octo_meme.Text.Decimal.{decimal, digits_from}
use fantastic_octo_meme.Status.{Status}
use fantastic_octo_meme.Locale.{Locale, english_us, format_date}
use fantastic_octo_meme.Locale.Pages.{cp_to_utf8, utf8_to_cp, byte_for, encode}
use fantastic_octo_meme.Locale.RoundTrip.{utf8_to_cp-cp_to_utf8}

date_printed : format_date 6 4 76 40 ≡ (Status.ok, some (codes "07/04/1976"))
unfolding decimal digits_from
date_printed = refl

-- A euro sign, a letter with a ring and a digit.
abbrev price : Bytes
price = 0x80 ∷ 0xE5 ∷ b'5' ∷ []

abbrev price_utf8 : Bytes
price_utf8 = 0xE2 ∷ 0x82 ∷ 0xAC ∷ 0xC3 ∷ 0xA5 ∷ b'5' ∷ []

price_encoded : cp_to_utf8 english_us 1252 (some price) 7 ≡ some price_utf8
unfolding cp_to_utf8 encode
price_encoded = refl

utf8_to_cp-cp_to_utf8_example : utf8_to_cp english_us 1252 (some price_utf8) 4 ≡ some price
utf8_to_cp-cp_to_utf8_example =
    utf8_to_cp-cp_to_utf8 english_us 1252 7 4 price price_utf8 refl (omega arith) refl price_encoded
      (omega arith)

-- With 1252 as the OEM page, the sign goes there and does not come back.
abbrev german : Locale
german = record english_us { oemcp = 1252 }

oem_there : cp_to_utf8 german 1 (some (0x80 ∷ [])) 7 ≡ some (0xE2 ∷ 0x82 ∷ 0xAC ∷ [])
unfolding cp_to_utf8 encode
oem_there = refl

oem_not_back : utf8_to_cp german 1 (some (0xE2 ∷ 0x82 ∷ 0xAC ∷ [])) 4 ≡ some (b'?' ∷ [])
unfolding utf8_to_cp byte_for
oem_not_back = refl
