-- ===== src/ShaderCache/Numbers.antt =====
-- Numbers, as the cache writes and reads them.
use native.Mathlib.Nat.{pow-suc}
use fantastic_octo_meme.Prelude.{
  ℕ, zero, suc, ◌/◌, ◌%◌, ◌^◌, ◌<◌, ◌≡◌, ◌∙◌, [], ◌∷◌, ◌++◌, length, take, drop, refl, ap, arith,
}
use fantastic_octo_meme.Prelude.Bits.{bit_or_disjoint}
use fantastic_octo_meme.Memory.{Bytes}
use fantastic_octo_meme.ShaderCache.{le_bytes, le_value}

pub length-le_bytes : (n v : ℕ) → length (le_bytes n v) ≡ n
unfolding le_bytes
length-le_bytes zero v = refl
length-le_bytes (suc n) v = ap suc (length-le_bytes n (v / 256))

pub le_back : (n v : ℕ) → v < 256 ^ n → le_value (le_bytes n v) ≡ v
unfolding le_bytes le_value
le_back zero v h = omega arith
le_back (suc n) v h =
    bit_or_disjoint 8 (v % 256) (le_value (le_bytes n (v / 256))) (omega arith)
    ∙ omega (arith, le_back n (v / 256) (omega (arith, pow-suc 256 n)))

-- The first bytes of a text, and what is behind them.
pub take-part : (n : ℕ) (a b : Bytes) → length a ≡ n → take n (a ++ b) ≡ a
take-part zero [] b e = refl
take-part (suc n) [] b e = absurd (omega arith)
take-part zero (c ∷ a) b e = absurd (omega arith)
take-part (suc n) (c ∷ a) b e = ap (λ t. c ∷ t) (take-part n a b (omega arith))

pub drop-part : (n : ℕ) (a b : Bytes) → length a ≡ n → drop n (a ++ b) ≡ b
drop-part zero [] b e = refl
drop-part (suc n) [] b e = absurd (omega arith)
drop-part zero (c ∷ a) b e = absurd (omega arith)
drop-part (suc n) (c ∷ a) b e = drop-part n a b (omega arith)
