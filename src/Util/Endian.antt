-- ===== src/Util/Endian.antt =====
-- The little-endian readers as numbers, and the writers `p16` and `p32` of
-- tools/gen_sample_pe.c, which they invert.
use Prim.Native.Nat.{bit_and, bit_or}
use fantastic_octo_meme.Prelude.{
  ℕ, ◌+◌, ◌*◌, ◌/◌, ◌%◌, ◌^◌, ◌<◌, ◌≤◌, length, [], ◌∷◌, ◌++◌, ◌≡◌, ap, ◌∙◌, arith,
}
use fantastic_octo_meme.Prelude.Bits.{bit_or_disjoint, bit_and_mask}
use fantastic_octo_meme.Memory.{Bytes, AllBytes, IsSafe, Ends, done}
use fantastic_octo_meme.Memory.Laws.{>>=-Ends, >>=-elim, fault-ne-done}
use fantastic_octo_meme.Util.{from_fourth, u16, u32, le16, le32, le64}

-- The number with these base-256 digits, lowest first.
abbrev pub digits_value : Bytes → ℕ
digits_value [] = 0
digits_value (b ∷ bs) = b + 256 * digits_value bs

pub u16-sum : (b0 b1 : ℕ) → b0 < 256 → u16 b0 b1 ≡ b0 + b1 * 2 ^ 8
unfolding u16
u16-sum b0 b1 h = bit_or_disjoint 8 b0 b1 h

pub u32-sum :
    (b0 b1 b2 b3 : ℕ)
    → b0 < 256
    → b1 < 256
    → b2 < 256
    → u32 b0 b1 b2 b3 ≡ b0 + b1 * 2 ^ 8 + b2 * 2 ^ 16 + b3 * 2 ^ 24
unfolding u32
u32-sum b0 b1 b2 b3 h0 h1 h2 = rw (
  bit_or_disjoint 8 b0 b1 h0,
  bit_or_disjoint 16 (b0 + b1 * 2 ^ 8) b2 (omega arith),
  bit_or_disjoint 24 (b0 + b1 * 2 ^ 8 + b2 * 2 ^ 16) b3 (omega arith),
)

-- `(v >> 8 * i) & 0xFF`.
abbrev byte_of : ℕ → ℕ → ℕ
byte_of v i = bit_and (v / 2 ^ (8 * i)) 0xff

pub p16 : ℕ → Bytes
p16 v = byte_of v 0 ∷ byte_of v 1 ∷ []

pub p32 : ℕ → Bytes
p32 v = byte_of v 0 ∷ byte_of v 1 ∷ byte_of v 2 ∷ byte_of v 3 ∷ []

byte_of-mod : (v i : ℕ) → byte_of v i ≡ v / 2 ^ (8 * i) % 256
byte_of-mod v i = bit_and_mask 8 (v / 2 ^ (8 * i))

u32-byte_of : (v : ℕ) → u32 (byte_of v 0) (byte_of v 1) (byte_of v 2) (byte_of v 3) ≡ v % 2 ^ 32
u32-byte_of v =
    u32-sum (byte_of v 0) (byte_of v 1) (byte_of v 2) (byte_of v 3) (omega (arith, byte_of-mod v 0))
      (omega (arith, byte_of-mod v 1)) (omega (arith, byte_of-mod v 2))
    ∙ omega (arith, byte_of-mod v 0, byte_of-mod v 1, byte_of-mod v 2, byte_of-mod v 3)

u16-byte_of : (v : ℕ) → u16 (byte_of v 0) (byte_of v 1) ≡ v % 2 ^ 16
u16-byte_of v =
    u16-sum (byte_of v 0) (byte_of v 1) (omega (arith, byte_of-mod v 0))
    ∙ omega (arith, byte_of-mod v 0, byte_of-mod v 1)

-- What `p32` writes, `cellar_le32` reads back, whatever follows it; so for `p16` and `cellar_le16`.
pub le-put :
    (v : ℕ) (rest : Bytes)
    → (le32 (p32 v ++ rest) ≡ done (v % 2 ^ 32)) × (le16 (p16 v ++ rest) ≡ done (v % 2 ^ 16))
unfolding le32 le16 p32 p16
le-put v rest = (ap done (u32-byte_of v), ap done (u16-byte_of v))

-- On eight bytes, `cellar_le64` gives the number whose base-256 digits they are, lowest first.
pub le64_digits :
    (b0 b1 b2 b3 b4 b5 b6 b7 : ℕ) (rest : Bytes)
    → AllBytes (b0 ∷ b1 ∷ b2 ∷ b3 ∷ b4 ∷ b5 ∷ b6 ∷ b7 ∷ [])
    → le64 (b0 ∷ b1 ∷ b2 ∷ b3 ∷ b4 ∷ b5 ∷ b6 ∷ b7 ∷ rest)
      ≡ done (digits_value (b0 ∷ b1 ∷ b2 ∷ b3 ∷ b4 ∷ b5 ∷ b6 ∷ b7 ∷ []))
unfolding le64
le64_digits b0 b1 b2 b3 b4 b5 b6 b7 rest h =
    let lo = u32-sum b0 b1 b2 b3 h.0 h.1.0 h.1.1.0 in
    let hi = u32-sum b4 b5 b6 b7 h.1.1.1.1.0 h.1.1.1.1.1.0 h.1.1.1.1.1.1.0 in
    ap done (bit_or_disjoint 32 (u32 b0 b1 b2 b3) (u32 b4 b5 b6 b7) (omega arith) ∙ omega arith)

-- A reader is safe where its bytes are there.
pub le32-IsSafe : (p : Bytes) → 4 ≤ length p → IsSafe (le32 p)
unfolding le32
le32-IsSafe (b0 ∷ b1 ∷ b2 ∷ b3 ∷ rest) h = tt
le32-IsSafe [] h = absurd (omega arith)
le32-IsSafe (b0 ∷ []) h = absurd (omega arith)
le32-IsSafe (b0 ∷ b1 ∷ []) h = absurd (omega arith)
le32-IsSafe (b0 ∷ b1 ∷ b2 ∷ []) h = absurd (omega arith)

-- A reader gives a value where its bytes are there, and faults where they are not.
pub le32-Reads : (p : Bytes) → (Ends (le32 p)) × ((v : ℕ) → le32 p ≡ done v → 4 ≤ length p)
unfolding le32
le32-Reads (b0 ∷ b1 ∷ b2 ∷ b3 ∷ rest) = (tt, λ v h. omega arith)
le32-Reads [] = (tt, λ v h. absurd (fault-ne-done h))
le32-Reads (b0 ∷ []) = (tt, λ v h. absurd (fault-ne-done h))
le32-Reads (b0 ∷ b1 ∷ []) = (tt, λ v h. absurd (fault-ne-done h))
le32-Reads (b0 ∷ b1 ∷ b2 ∷ []) = (tt, λ v h. absurd (fault-ne-done h))

pub le64-Reads : (p : Bytes) → (Ends (le64 p)) × ((v : ℕ) → le64 p ≡ done v → 4 ≤ length p)
unfolding le64
le64-Reads p = (
  >>=-Ends (le32 p) _ (le32-Reads p).0 (λ lo _.
      >>=-Ends (le32 (from_fourth p)) (λ hi. done (bit_or lo (hi * 2 ^ 32)))
        (le32-Reads (from_fourth p)).0 (λ _ _. tt)),
  λ v h. >>=-elim (le32 p) _ h (λ lo e _. (le32-Reads p).1 lo e),
)

pub u32-lt :
    (b0 b1 b2 b3 : ℕ) → b0 < 256 → b1 < 256 → b2 < 256 → b3 < 256 → u32 b0 b1 b2 b3 < 2 ^ 32
u32-lt b0 b1 b2 b3 h0 h1 h2 h3 = omega (arith, u32-sum b0 b1 b2 b3 h0 h1 h2)
