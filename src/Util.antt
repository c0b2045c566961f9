-- ===== src/Util.antt =====
-- src/loader/cellar_util.c: little-endian readers, the string hash, bounded string copies and the
-- path join. A `const void *` is the bytes from that address to the end of its object.
pub mod Endian
pub mod Strings
pub mod Paths
use fantastic_octo_meme.Prelude.{
  ℕ, zero, suc, ◌+◌, ◌-◌, ◌*◌, ◌%◌, ◌^◌, Bool, true, false, not, ◌&&◌, List, [], ◌∷◌, ◌++◌, length,
  set, get_or, take, ltb, ◌==◌, Option, none, some, if◌then◌else◌,
}
use Prim.Native.Nat.{bit_or}
use fantastic_octo_meme.Memory.{
  Bytes, Outcome, done, fail, fault, pending, ◌>>=◌, ◌>>◌, slice, splice,
}

-- The text that an object holds: its bytes before the first zero.
abbrev pub c_str : Bytes → Bytes
c_str [] = []
c_str (c ∷ s) = if c == 0 then [] else c ∷ c_str s

-- `b0 | b1 << 8`.
unfoldable pub u16 : ℕ → ℕ → ℕ
u16 b0 b1 = bit_or b0 (b1 * 2 ^ 8)

unfoldable pub u32 : ℕ → ℕ → ℕ → ℕ → ℕ
u32 b0 b1 b2 b3 = bit_or (bit_or (bit_or b0 (b1 * 2 ^ 8)) (b2 * 2 ^ 16)) (b3 * 2 ^ 24)

unfoldable pub le16 : Bytes → Outcome ℕ
unfolding u16
le16 (b0 ∷ b1 ∷ _) = done (u16 b0 b1)
le16 _ = fault

unfoldable pub le32 : Bytes → Outcome ℕ
unfolding u32
le32 (b0 ∷ b1 ∷ b2 ∷ b3 ∷ _) = done (u32 b0 b1 b2 b3)
le32 _ = fault

abbrev from_fourth : Bytes → Bytes
from_fourth (b0 ∷ b1 ∷ b2 ∷ b3 ∷ rest) = rest
from_fourth _ = []

unfoldable pub le64 : Bytes → Outcome ℕ
unfolding le32
le64 p = do lo ← le32 p; hi ← le32 (from_fourth p); done (bit_or lo (hi * 2 ^ 32))

-- The loop of `cellar_hash_str`, up to the terminating zero. A string with no zero is read past
-- its object.
hash_from : ℕ → Bytes → Outcome ℕ
hash_from h [] = fault
hash_from h (c ∷ s) =
    let next = hash_from (((h * 2 ^ 5) % 2 ^ 32 + h + c) % 2 ^ 32) s in
    if c == 0 then done h else next

unfoldable pub hash_str : Bytes → Outcome ℕ
unfolding hash_from
hash_str s = hash_from 5381 s

-- A store of one byte.
abbrev pub store : Bytes → ℕ → ℕ → Outcome Bytes
store dst i c = if ltb i (length dst) then done (set dst i c) else fault

-- `while (i + 1 < n && src[i]) { dst[i] = src[i]; i++; }  dst[i] = '\0';` from index `i` on, with
-- `src` from index `i` on.
strlcpy_from : ℕ → ℕ → Bytes → Bytes → Outcome Bytes
strlcpy_from i n dst [] = if ltb (i + 1) n then fault else store dst i 0
strlcpy_from i n dst (c ∷ src) =
    let next = (do dst' ← store dst i c; strlcpy_from (i + 1) n dst' src) in
    if ltb (i + 1) n && not (c == 0) then next else store dst i 0

-- `cellar_strlcpy(dst, n, src)`; `none` is a null `src`. The result is what `dst` holds after.
unfoldable pub strlcpy : Bytes → ℕ → Option Bytes → Outcome Bytes
unfolding strlcpy_from
strlcpy dst zero src = done dst
strlcpy dst (suc n) none = store dst 0 0
strlcpy dst (suc n) (some src) = strlcpy_from 0 (suc n) dst src

-- `while (len < limit && s[len]) len++;` from `len` on, with `s` from index `len` on.
scan_from : ℕ → ℕ → Bytes → Outcome ℕ
scan_from len limit [] = if ltb len limit then fault else done len
scan_from len limit (c ∷ s) =
    let next = scan_from (len + 1) limit s in
    if ltb len limit && not (c == 0) then next else done len

-- `while (src[slen] && dlen + slen + 1 < n) slen++;`: here the byte is read before the bound.
scan_room : ℕ → ℕ → ℕ → Bytes → Outcome ℕ
scan_room slen dlen n [] = fault
scan_room slen dlen n (c ∷ s) =
    let next = scan_room (slen + 1) dlen n s in
    if not (c == 0) && ltb (dlen + slen + 1) n then next else done slen

-- The second loop and the copy of `cellar_strlcat`.
strlcat_at : ℕ → ℕ → Bytes → Option Bytes → Outcome Bytes
unfolding scan_room slice splice
strlcat_at dlen n dst none = store dst dlen 0
strlcat_at dlen n dst (some src) = do
  slen ← scan_room 0 dlen n src
  piece ← slice src 0 slen
  copied ← splice dst dlen piece
  store copied (dlen + slen) 0

unfoldable pub strlcat : Bytes → ℕ → Option Bytes → Outcome Bytes
unfolding scan_from strlcat_at
strlcat dst zero src = done dst
strlcat dst (suc n) src = do dlen ← scan_from 0 n dst; strlcat_at dlen (suc n) dst src

-- `snprintf(dst, n, …)` where the conversions give `text`: at most `n - 1` bytes, and a zero.
unfoldable pub snprintf : Bytes → ℕ → Bytes → Outcome Bytes
unfolding splice
snprintf dst zero text = done dst
snprintf dst (suc m) text = splice dst 0 (take m text ++ 0 ∷ [])

-- The string at a pointer, as `%s` prints it and `strlen` counts it; null stands for "", as the
-- function sets it.
unfoldable pub text_of : Option Bytes → Outcome Bytes
text_of none = done []
text_of (some s) = if ltb (length (c_str s)) (length s) then done (c_str s) else fault

-- The last byte of a text, `a[la - 1]`, and 0 for the empty one.
abbrev pub last_byte : Bytes → ℕ
last_byte a = get_or a (length a - 1) 0

-- The text that `cellar_path_join` prints.
unfoldable pub joined : Bytes → Bytes → Bytes
joined a b =
    if ltb 0 (length a) && last_byte a == b'/'
    then a ++ b
    else if length a == 0
    then b
    else a ++ (b'/' ∷ b)

-- `cellar_path_join`, with null components as `none`.
unfoldable pub path_join : Bytes → ℕ → Option Bytes → Option Bytes → Outcome Bytes
unfolding snprintf text_of joined
path_join dst zero a b = done dst
path_join dst (suc m) a b = do
  cleared ← store dst 0 0
  ta ← text_of a
  tb ← text_of b
  snprintf cleared (suc m) (joined ta tb)
