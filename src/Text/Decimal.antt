-- ===== src/Text/Decimal.antt =====
-- `%llu` of a natural number, its digits and its length.
use Prim.Native.Nat.{compare, Ordering}
use native.Mathlib.Nat.{pow-suc}
use fantastic_octo_meme.Prelude.{
  ℕ, zero, suc, ◌+◌, ◌/◌, ◌%◌, ◌^◌, ◌≤◌, ◌<◌, ◌≡◌, [], ◌∷◌, length, ltb, arith, Bool-cases, inl,
  inr,
}
use fantastic_octo_meme.Memory.{Bytes}

-- The digits of `n` in front of `out`; `fuel` bounds how many there are.
unfoldable pub digits_from : ℕ → ℕ → Bytes → Bytes
digits_from zero n out = out
digits_from (suc fuel) n out = elim (compare n 10) [
  | Ordering.lt ↦ (b'0' + n) ∷ out
  | _ ↦ digits_from fuel (n / 10) ((b'0' + n % 10) ∷ out)
]

-- A number of 64 bits has at most twenty digits.
unfoldable pub decimal : ℕ → Bytes
decimal n = digits_from 20 n []

-- Every byte is a decimal digit.
abbrev pub AllDigits : Bytes → Type 0
AllDigits [] = Unit {0}
AllDigits (c ∷ s) = ((b'0' ≤ c) × (c ≤ b'9')) × AllDigits s

-- How `digits_from` goes on.
pub digits_last : (k n : ℕ) (out : Bytes) → n < 10 → digits_from (suc k) n out ≡ (b'0' + n) ∷ out
unfolding digits_from
digits_last k n out h = ground arith

pub digits_step :
    (k n : ℕ) (out : Bytes)
    → 10 ≤ n
    → digits_from (suc k) n out ≡ digits_from k (n / 10) ((b'0' + n % 10) ∷ out)
unfolding digits_from
digits_step k n out h = ground arith

pub digits_from-AllDigits :
    (k n : ℕ) (out : Bytes) → AllDigits out → AllDigits (digits_from k n out)
unfolding digits_from
digits_from-AllDigits zero n out h = h
digits_from-AllDigits (suc k) n out h =
    ground (arith, digits_from-AllDigits k (n / 10) ((b'0' + n % 10) ∷ out))

pub digits_from-length : (k n : ℕ) (out : Bytes) → length (digits_from k n out) ≤ k + length out
unfolding digits_from
digits_from-length zero n out = omega arith
digits_from-length (suc k) n out =
    ground (arith, digits_from-length k (n / 10) ((b'0' + n % 10) ∷ out))

-- The first digit of a number that is not 0 is not 0.
pub digits_from-head :
    (k n : ℕ) (out : Bytes)
    → 0 < n
    → n < 10 ^ suc k
    → (c : ℕ) × (s : Bytes) × (digits_from (suc k) n out ≡ c ∷ s) × (b'1' ≤ c) × (c ≤ b'9')
digits_from-head zero n out pos small =
    (b'0' + n, out, digits_last zero n out (omega arith), omega arith, omega arith)
digits_from-head (suc k) n out pos small = elim (Bool-cases (ltb n 10)) [
  | inl low ↦
      let h : n < 10 = ground arith in
      (b'0' + n, out, digits_last (suc k) n out h, omega arith, omega arith)
  | inr high ↦
      let h : 10 ≤ n = ground arith in
      let next : n / 10 < 10 ^ suc k = omega (arith, pow-suc 10 (suc k)) in
      rw (digits_step (suc k) n out h)
        (digits_from-head k (n / 10) ((b'0' + n % 10) ∷ out) (omega arith) next)
]
