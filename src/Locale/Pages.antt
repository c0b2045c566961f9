-- ===== src/Locale/Pages.antt =====
-- The code pages of src/locale/locale.c: `cellar_cp_to_utf8` and `cellar_utf8_to_cp`.
use Prim.Native.Nat.{bit_and, bit_or}
use fantastic_octo_meme.Prelude.{
  ℕ, zero, suc, ◌+◌, ◌-◌, ◌*◌, ◌/◌, ◌%◌, ◌^◌, Bool, ◌&&◌, List, [], ◌∷◌, ◌++◌, length, take, get_or,
  ltb, leb, ◌==◌, Option, none, some, if◌then◌else◌,
}
use fantastic_octo_meme.Memory.{Bytes}
use fantastic_octo_meme.Util.{c_str}
use fantastic_octo_meme.Locale.{Locale}

-- `k_cp1252_80`.
abbrev pub cp1252_80 : List ℕ
cp1252_80 =
    0x20AC ∷ 0x0081 ∷ 0x201A ∷ 0x0192 ∷ 0x201E ∷ 0x2026 ∷ 0x2020 ∷ 0x2021 ∷ 0x02C6 ∷ 0x2030 ∷ 0x0160
    ∷ 0x2039 ∷ 0x0152 ∷ 0x008D ∷ 0x017D ∷ 0x008F ∷ 0x0090 ∷ 0x2018 ∷ 0x2019 ∷ 0x201C ∷ 0x201D
    ∷ 0x2022 ∷ 0x2013 ∷ 0x2014 ∷ 0x02DC ∷ 0x2122 ∷ 0x0161 ∷ 0x203A ∷ 0x0153 ∷ 0x009D ∷ 0x017E
    ∷ 0x0178 ∷ []

-- The character of a byte, in code page 1252 or in one whose bytes are their own characters.
unfoldable pub char_of : Bool → ℕ → ℕ
char_of cp1252 b = if cp1252 && (leb 0x80 b && leb b 0x9F) then get_or cp1252_80 (b - 0x80) 0 else b

-- `map_cp`: the two pages that the locale stands for are looked up first.
abbrev pub map_cp : Locale → ℕ → ℕ → ℕ
map_cp loc cp b =
    let ansi = if cp == 0 then loc.acp else cp in
    let page = if ansi == 1 then loc.oemcp else ansi in
    if page == 65001 then b else char_of (page == 1252) b

-- The bytes that `utf8_put` puts for a character of 16 bits.
unfoldable pub encode : ℕ → Bytes
encode cp =
    if ltb cp 0x80
    then cp ∷ []
    else if ltb cp 0x800
    then bit_or 0xC0 (cp / 2 ^ 6) % 256 ∷ bit_or 0x80 (bit_and cp 0x3F) ∷ []
    else bit_or 0xE0 (cp / 2 ^ 12) % 256
      ∷ bit_or 0x80 (bit_and (cp / 2 ^ 6) 0x3F)
      ∷ bit_or 0x80 (bit_and cp 0x3F)
      ∷ []

-- The loop of `cellar_cp_to_utf8`, with `o` bytes in `out`; it gives up where there is no room.
unfoldable pub cp_from : Locale → ℕ → ℕ → ℕ → Bytes → Option Bytes
unfolding char_of encode
cp_from loc cp size o [] = some []
cp_from loc cp size o (b ∷ s) =
    let e = encode (map_cp loc cp b) in
    let rest : Option Bytes = elim (cp_from loc cp size (o + length e) s) [
      | none ↦ none
      | some t ↦ some (e ++ t)
    ] in
    if leb size (o + length e) then none else rest

-- `cellar_cp_to_utf8`: the bytes that `out` holds before its zero, as many as are returned.
unfoldable pub cp_to_utf8 : Locale → ℕ → Option Bytes → ℕ → Option Bytes
unfolding cp_from
cp_to_utf8 loc cp none size = none
cp_to_utf8 loc cp (some s) size =
    if size == 0
    then none
    else if cp == 65001
    then some (take (if ltb (length s) (size - 1) then length s else size - 1) s)
    else cp_from loc cp size 0 s

-- The first entry of the table for a character, from entry `k` on.
unfoldable pub table_from : ℕ → List ℕ → ℕ → Option ℕ
table_from k [] u = none
table_from k (x ∷ xs) u = if x == u % 2 ^ 16 then some k else table_from (k + 1) xs u

-- The byte of a character, a question mark if there is none.
unfoldable pub byte_for : Bool → ℕ → ℕ
unfolding table_from
byte_for cp1252 u =
    let of_table : ℕ = elim (table_from 0 cp1252_80 u) [ none ↦ b'?' | some k ↦ 0x80 + k ] in
    if cp1252
    then (if leb 0x80 u && leb u 0xFF then u else of_table)
    else if ltb u 0x100
    then u
    else b'?'

-- The characters of two and of three bytes, and the tests of the first byte.
abbrev pub value2 : ℕ → ℕ → ℕ
value2 c0 c1 = bit_or (bit_and c0 0x1F * 2 ^ 6) (bit_and c1 0x3F)

abbrev pub value3 : ℕ → ℕ → ℕ → ℕ
value3 c0 c1 c2 =
    bit_or (bit_or (bit_and c0 0x0F * 2 ^ 12) (bit_and c1 0x3F * 2 ^ 6)) (bit_and c2 0x3F)

abbrev pub leads2 : ℕ → Bool
leads2 c = bit_and c 0xE0 == 0xC0

abbrev pub leads3 : ℕ → Bool
leads3 c = bit_and c 0xF0 == 0xE0

-- One round of the loop of `cellar_utf8_to_cp` on a text that is not empty: the byte, and how many
-- bytes of the text are passed over behind the first.
unfoldable pub decode_at : Bool → ℕ → Bytes → ℕ × ℕ
decode_at cp1252 c [] = if ltb c 0x80 then (c, 0) else (b'?', 0)
decode_at cp1252 c (c1 ∷ []) =
    if ltb c 0x80
    then (c, 0)
    else if leads2 c
    then (byte_for cp1252 (value2 c c1), 1)
    else (b'?', 0)
decode_at cp1252 c (c1 ∷ c2 ∷ s) =
    if ltb c 0x80
    then (c, 0)
    else if leads2 c
    then (byte_for cp1252 (value2 c c1), 1)
    else if leads3 c
    then (byte_for cp1252 (value3 c c1 c2), 2)
    else (b'?', 0)

-- The loop, with `skip` bytes to pass over and `o` bytes in `out`.
unfoldable pub back_from : Bool → ℕ → ℕ → ℕ → Bytes → Bytes
unfolding decode_at
back_from cp1252 size skip o [] = []
back_from cp1252 size (suc skip) o (c ∷ s) = back_from cp1252 size skip o s
back_from cp1252 size zero o (c ∷ s) =
    let d = decode_at cp1252 c s in
    let rest = d.0 ∷ back_from cp1252 size d.1 (o + 1) s in if ltb (o + 1) size then rest else []

-- `cellar_utf8_to_cp`: here only the ANSI page is looked up. The text ends at the first zero of
-- the bytes at `in`.
unfoldable pub utf8_to_cp : Locale → ℕ → Option Bytes → ℕ → Option Bytes
unfolding back_from
utf8_to_cp loc cp none size = none
utf8_to_cp loc cp (some bytes) size =
    let s = c_str bytes in
    let page = if cp == 0 then loc.acp else cp in
    if size == 0
    then none
    else if page == 65001
    then some (take (if ltb (length s) size then length s else size - 1) s)
    else some (back_from (page == 1252) size 0 0 s)
