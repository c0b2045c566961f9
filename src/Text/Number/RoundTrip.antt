-- ===== src/Text/Number/RoundTrip.antt =====
-- Printed numbers are read back.
use native.Mathlib.Nat.{pow-suc}
use fantastic_octo_meme.Prelude.{
  ℕ, zero, suc, ◌+◌, ◌-◌, ◌*◌, ◌/◌, ◌%◌, ◌^◌, ◌≤◌, ◌<◌, ◌≡◌, ◌∙◌, false, [], ◌∷◌, min, ltb, refl,
  ap, sym, arith, Bool-cases, inl, inr,
}
use fantastic_octo_meme.Memory.{Bytes}
use fantastic_octo_meme.Text.Decimal.{
  digits_from, decimal, digits_last, digits_step, digits_from-head,
}
use fantastic_octo_meme.Text.Number.{
  ℤ, pos, negsuc, digit_of, read_digits, skip_spaces, magnitude, signed, strtol, strtoull, low_word,
  to_int, atoi, print_int, IsInt,
}

read_one :
    (n d m : ℕ) (out : Bytes)
    → d < 10
    → n * 10 + d ≡ m
    → read_digits 10 n ((b'0' + d) ∷ out) ≡ read_digits 10 m out
unfolding read_digits
read_one n d m out h e =
    let value : digit_of (b'0' + d) ≡ d = ground arith in rw (value, e) (ground arith)

read_digits-digits_from :
    (k n : ℕ) (out : Bytes)
    → n < 10 ^ suc k
    → read_digits 10 0 (digits_from (suc k) n out) ≡ read_digits 10 n out
read_digits-digits_from zero n out h =
    rw (digits_last zero n out (omega arith)) (read_one 0 n n out (omega arith) (omega arith))
read_digits-digits_from (suc k) n out h = elim (Bool-cases (ltb n 10)) [
  | inl low ↦
      let few : n < 10 = ground arith in
      rw (digits_last (suc k) n out few) (read_one 0 n n out few (omega arith))
  | inr high ↦
      let many : 10 ≤ n = ground arith in
      let next : n / 10 < 10 ^ suc k = omega (arith, pow-suc 10 (suc k)) in
      rw (digits_step (suc k) n out many) (
        read_digits-digits_from k (n / 10) ((b'0' + n % 10) ∷ out) next
        ∙ read_one (n / 10) (n % 10) n out (omega arith) (omega arith))
]

read_digits-decimal : (n : ℕ) → n < 2 ^ 64 → read_digits 10 0 (decimal n) ≡ n
unfolding decimal read_digits
read_digits-decimal n h = read_digits-digits_from 19 n [] (omega arith)

-- A text whose first byte is a digit from 1 on has neither spaces nor a sign nor a prefix.
plain-magnitude :
    (c : ℕ) (s : Bytes) → b'1' ≤ c → c ≤ b'9' → magnitude (c ∷ s) ≡ read_digits 10 0 (c ∷ s)
unfolding magnitude
plain-magnitude c [] low high = refl
plain-magnitude c (c1 ∷ []) low high = ground arith
plain-magnitude c (c1 ∷ c2 ∷ s) low high = ground arith

zero_magnitude : magnitude (b'0' ∷ []) ≡ 0
unfolding magnitude read_digits
zero_magnitude = refl

-- How a printed number begins.
decimal-head :
    (n : ℕ)
    → n < 2 ^ 64
    → {C : Type 0}
    → ((c : ℕ) (s : Bytes) → decimal n ≡ c ∷ s → b'0' ≤ c → c ≤ b'9' → magnitude (c ∷ s) ≡ n → C)
    → C
unfolding decimal digits_from
decimal-head zero h k = k b'0' [] refl (omega arith) (omega arith) zero_magnitude
decimal-head (suc n) h k =
    let (c, s, shape, low, high) = digits_from-head 19 (suc n) [] (omega arith) (omega arith) in
    k c s shape (omega arith) high (
      plain-magnitude c s low high
      ∙ ap (read_digits 10 0) (sym shape)
      ∙ read_digits-decimal (suc n) h)

-- `strtoull` reads what `%llu` and `%u` print.
pub strtoull-decimal : (n : ℕ) → n < 2 ^ 64 → strtoull (decimal n) ≡ n
unfolding strtoull
strtoull-decimal n h = decimal-head n h λ c s shape low high value.
    let start : signed (skip_spaces (c ∷ s)) ≡ (false, c ∷ s) = ground arith in
    rw (shape, start, value) (ground arith)

-- `strtol` reads a natural number that `%d` or `%u` prints.
pub strtol-decimal : (n : ℕ) → n < 2 ^ 63 → strtol (decimal n) ≡ pos n
unfolding strtol
strtol-decimal n h = decimal-head n (omega arith) λ c s shape low high value.
    let start : signed (skip_spaces (c ∷ s)) ≡ (false, c ∷ s) = ground arith in
    let small : min n (2 ^ 63 - 1) ≡ n = omega arith in rw (shape, start, value) (ap pos small)

strtol-negative : (n : ℕ) → n < 2 ^ 31 → strtol (b'-' ∷ decimal (suc n)) ≡ negsuc n
unfolding strtol
strtol-negative n h = decimal-head (suc n) (omega arith) λ c s shape low high value.
    let small : min n (2 ^ 63 - 1) ≡ n = omega arith in rw (shape, value) (ap negsuc small)

-- An `int` that `%d` prints is read back by `strtol` and the cast to `int`.
pub to_int-strtol-print_int : (z : ℤ) → IsInt z → to_int (strtol (print_int z)) ≡ z
to_int-strtol-print_int (pos n) h = rw (strtol-decimal n (omega arith)) (ground arith)
to_int-strtol-print_int (negsuc n) h = rw (strtol-negative n h) (ground arith)

-- So is a number of 32 bits without a sign that `%u` prints, also above the range of an `int`.
pub low_word-to_int-strtol-decimal :
    (n : ℕ) → n < 2 ^ 32 → low_word (to_int (strtol (decimal n))) ≡ n
low_word-to_int-strtol-decimal n h = rw (strtol-decimal n (omega arith)) (ground arith)

atoi-negative : (n : ℕ) → n < 2 ^ 31 → atoi (b'-' ∷ decimal (suc n)) ≡ negsuc n
unfolding atoi
atoi-negative n h = decimal-head (suc n) (omega arith) λ c s shape low high value.
    let digits : read_digits 10 0 (c ∷ s) ≡ suc n =
      ap (read_digits 10 0) (sym shape) ∙ read_digits-decimal (suc n) (omega arith) in
    rw (shape, digits) (ground arith)

atoi-decimal : (n : ℕ) → n < 2 ^ 31 → atoi (decimal n) ≡ pos n
unfolding atoi
atoi-decimal n h = decimal-head n (omega arith) λ c s shape low high value.
    let start : signed (skip_spaces (c ∷ s)) ≡ (false, c ∷ s) = ground arith in
    let digits : read_digits 10 0 (c ∷ s) ≡ n =
      ap (read_digits 10 0) (sym shape) ∙ read_digits-decimal n (omega arith) in
    rw (shape, start, digits) (ground arith)

-- `atoi` reads an `int` that `%d` prints.
pub atoi-print_int : (z : ℤ) → IsInt z → atoi (print_int z) ≡ z
atoi-print_int (pos n) h = atoi-decimal n h
atoi-print_int (negsuc n) h = atoi-negative n h
