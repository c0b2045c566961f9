-- ===== src/Com/Guid.antt =====
-- `cellar_guid_t` of include/cellar/com.h, and its text in src/com/com.c.
pub mod RoundTrip
use Prim.Native.Nat.{bit_or}
use fantastic_octo_meme.Prelude.{
  ℕ, zero, suc, ◌+◌, ◌-◌, ◌*◌, ◌/◌, ◌%◌, ◌^◌, Bool, true, false, not, ◌&&◌, ◌||◌, List, [], ◌∷◌,
  ◌++◌, leb, ltb, ◌==◌, Option, none, some, if◌then◌else◌,
}
use fantastic_octo_meme.Memory.{Bytes}
use fantastic_octo_meme.Text.{clip, same_text}

-- `data4` has eight bytes.
pub record Guid : Type 0 where
  pub data1 : ℕ
  pub data2 : ℕ
  pub data3 : ℕ
  pub data4 : Bytes

-- `memcmp(a, b, sizeof *a) == 0`; the structure has no padding.
unfoldable pub same_guid : Guid → Guid → Bool
same_guid a b =
    a.data1 == b.data1 && a.data2 == b.data2 && a.data3 == b.data3 && same_text a.data4 b.data4

-- `cellar_guid_eq`; `none` is a null pointer.
abbrev pub guid_eq : Option Guid → Option Guid → Bool
guid_eq (some a) (some b) = same_guid a b
guid_eq (some a) none = false
guid_eq none b = false

-- The digit that a byte stands for, and `none` for -1.
unfoldable pub hexn : ℕ → Option ℕ
hexn c =
    if leb b'0' c && leb c b'9'
    then some (c - b'0')
    else if leb b'a' c && leb c b'f'
    then some (c - b'a' + 10)
    else if leb b'A' c && leb c b'F'
    then some (c - b'A' + 10)
    else none

-- The loop, with the value so far: `none` for the early return.
unfoldable pub run : ℕ → ℕ → Bytes → Option (ℕ × Bytes)
unfolding hexn
run zero v s = some (v, s)
run (suc k) v [] = none
run (suc k) v (c ∷ s) = elim (hexn c) [
  | none ↦ none
  | some h ↦ run k (bit_or h ((v * 2 ^ 4) % 2 ^ 32)) s
]

-- `hex_run`, with where the text is read after it.
unfoldable pub hex_run : ℕ → Bytes → ℕ × Bytes
unfolding run
hex_run nibbles s = elim (run nibbles 0 s) [ none ↦ (0, s) | some t ↦ t ]

-- `if (*p == c) p++;`.
abbrev pub skip : ℕ → Bytes → Bytes
skip b [] = []
skip b (c ∷ s) = if c == b then s else c ∷ s

-- Runs of two digits, one for each of the bytes.
abbrev pub byte_runs : ℕ → Bytes → Bytes × Bytes
byte_runs zero s = ([], s)
byte_runs (suc n) s =
    let t = hex_run 2 s in let rest = byte_runs n t.1 in (t.0 % 2 ^ 8 ∷ rest.0, rest.1)

-- `cellar_guid_parse` of a text.
unfoldable pub guid_parse : Bytes → Guid
unfolding hex_run
guid_parse s =
    let t1 = hex_run 8 (skip b'{' s) in
    let t2 = hex_run 4 (skip b'-' t1.1) in
    let t3 = hex_run 4 (skip b'-' t2.1) in
    let t4 = byte_runs 2 (skip b'-' t3.1) in
    let t5 = byte_runs 6 (skip b'-' t4.1) in
    record { data1 = t1.0; data2 = t2.0 % 2 ^ 16; data3 = t3.0 % 2 ^ 16; data4 = t4.0 ++ t5.0 }

-- A digit of `%X`, and as many digits as the format's width, which the values do not pass.
unfoldable pub hex_digit : ℕ → ℕ
hex_digit h = if ltb h 10 then b'0' + h else b'A' + (h - 10)

unfoldable pub hex : ℕ → ℕ → Bytes
unfolding hex_digit
hex zero n = []
hex (suc w) n = hex_digit (n / 16 ^ w % 16) ∷ hex w n

-- `%02X` of the bytes from an index on, as many as are asked for.
abbrev pub byte_texts : ℕ → Bytes → Bytes
byte_texts zero bytes = []
byte_texts (suc n) [] = []
byte_texts (suc n) (b ∷ bytes) = hex 2 b ++ byte_texts n bytes

abbrev pub from_third : Bytes → Bytes
from_third (b0 ∷ b1 ∷ rest) = rest
from_third _ = []

-- What `cellar_guid_format` prints, and what it stores in an array of `n` bytes.
unfoldable pub guid_text : Guid → Bytes
unfolding hex
guid_text g =
    b'{'
    ∷ (hex 8 g.data1
        ++ b'-'
          ∷ (hex 4 g.data2
              ++ b'-'
                ∷ (hex 4 g.data3
                    ++ b'-'
                      ∷ (byte_texts 2 g.data4
                          ++ b'-' ∷ (byte_texts 6 (from_third g.data4) ++ b'}' ∷ [])))))

abbrev pub guid_format : Guid → ℕ → Bytes
guid_format g n = clip n (guid_text g)
