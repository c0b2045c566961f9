-- ===== src/Text/Number.antt =====
-- The numbers of the C library: `%d`, `%u` and `%llu`, `atoi`, and `strtol` and `strtoull` with base
-- 0, which take a leading `0x` for base 16 and a leading `0` for base 8. A `long` has 64 bits.
pub mod RoundTrip
use fantastic_octo_meme.Prelude.{
  ℕ, zero, suc, ◌+◌, ◌-◌, ◌*◌, ◌/◌, ◌%◌, ◌^◌, ◌≤◌, ◌<◌, ◌≡◌, ◌≢◌, ◌∙◌, Bool, true, false, not, ◌&&◌,
  ◌||◌, List, [], ◌∷◌, ◌++◌, length, min, ltb, leb, ◌==◌, refl, ap, sym, arith, Bool-cases, inl,
  inr, if◌then◌else◌,
}
use fantastic_octo_meme.Memory.{Bytes}
use fantastic_octo_meme.Text.Decimal.{
  digits_from, decimal, AllDigits, digits_last, digits_step, digits_from-AllDigits,
  digits_from-head, digits_from-length,
}

pub data ℤ : Type 0 where
  pos negsuc : ℕ → ℤ

-- The value of a digit, and 36 for any other byte.
abbrev pub digit_of : ℕ → ℕ
digit_of c =
    if leb b'0' c && leb c b'9'
    then c - b'0'
    else if leb b'a' c && leb c b'z'
    then c - b'a' + 10
    else if leb b'A' c && leb c b'Z'
    then c - b'A' + 10
    else 36

unfoldable pub read_digits : ℕ → ℕ → Bytes → ℕ
read_digits base n [] = n
read_digits base n (c ∷ s) =
    let rest = read_digits base (n * base + digit_of c) s in
    if ltb (digit_of c) base then rest else n

abbrev pub is_space : ℕ → Bool
is_space c = c == 32 || leb 9 c && leb c 13

abbrev pub skip_spaces : Bytes → Bytes
skip_spaces [] = []
skip_spaces (c ∷ s) = if is_space c then skip_spaces s else c ∷ s

-- The digits behind the sign, in the base that the prefix gives.
unfoldable pub magnitude : Bytes → ℕ
magnitude (c0 ∷ c1 ∷ c2 ∷ s) =
    if c0 == b'0'
    then (if (c1 == b'x' || c1 == b'X') && ltb (digit_of c2) 16
        then read_digits 16 0 (c2 ∷ s)
        else read_digits 8 0 (c0 ∷ c1 ∷ c2 ∷ s))
    else read_digits 10 0 (c0 ∷ c1 ∷ c2 ∷ s)
magnitude (c0 ∷ c1 ∷ []) = read_digits (if c0 == b'0' then 8 else 10) 0 (c0 ∷ c1 ∷ [])
magnitude s = read_digits 10 0 s

-- Whether there is a minus sign, and what stands behind a sign.
abbrev pub signed : Bytes → Bool × Bytes
signed [] = (false, [])
signed (c ∷ s) = if c == b'-' then (true, s) else if c == b'+' then (false, s) else (false, c ∷ s)

-- The number with a sign, cut to 64 bits.
abbrev pub negated : ℕ → ℤ
negated zero = pos zero
negated (suc m) = negsuc (min m (2 ^ 63 - 1))

abbrev pub with_sign : Bool → ℕ → ℤ
with_sign true m = negated m
with_sign false m = pos (min m (2 ^ 63 - 1))

unfoldable pub strtol : Bytes → ℤ
unfolding magnitude
strtol s = let t = signed (skip_spaces s) in with_sign t.0 (magnitude t.1)

-- A minus sign negates in 64 bits without a sign.
unfoldable pub strtoull : Bytes → ℕ
unfolding magnitude
strtoull s =
    let t = signed (skip_spaces s) in
    let m = magnitude t.1 in
    if ltb (2 ^ 64 - 1) m then 2 ^ 64 - 1 else if t.0 then (2 ^ 64 - m) % 2 ^ 64 else m

-- The cast of a `long` to an `int`, and of an `int` to 32 bits without a sign.
abbrev pub low_word : ℤ → ℕ
low_word (pos n) = n % 2 ^ 32
low_word (negsuc n) = 2 ^ 32 - 1 - n % 2 ^ 32

abbrev pub as_int : ℕ → ℤ
as_int m = if ltb m (2 ^ 31) then pos m else negsuc (2 ^ 32 - 1 - m)

abbrev pub to_int : ℤ → ℤ
to_int z = as_int (low_word z)

unfoldable pub atoi : Bytes → ℤ
atoi s = let t = signed (skip_spaces s) in to_int (with_sign t.0 (read_digits 10 0 t.1))

-- `%d`.
abbrev pub print_int : ℤ → Bytes
print_int (pos n) = decimal n
print_int (negsuc n) = b'-' ∷ decimal (suc n)

-- The range of an `int`.
abbrev pub IsInt : ℤ → Type 0
IsInt (pos n) = n < 2 ^ 31
IsInt (negsuc n) = n < 2 ^ 31
