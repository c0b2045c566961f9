-- ===== src/Pe/Layout/Fields.antt =====
-- A field of a packed structure, as the little-endian host reads it.
use fantastic_octo_meme.Prelude.{ℕ, ◌+◌, ◌^◌, ◌<◌, get_or}
use fantastic_octo_meme.Memory.{Bytes, AllBytes}
use fantastic_octo_meme.Memory.Laws.{AllBytes-get_or}
use fantastic_octo_meme.Util.Endian.{u32-lt}
use fantastic_octo_meme.Util.{u16, u32}

abbrev pub field16 : Bytes → ℕ → ℕ
field16 s off = u16 (get_or s off 0) (get_or s (off + 1) 0)

abbrev pub field32 : Bytes → ℕ → ℕ
field32 s off =
    u32 (get_or s off 0) (get_or s (off + 1) 0) (get_or s (off + 2) 0) (get_or s (off + 3) 0)

-- A field of bytes fits its width.
pub field32-lt : (s : Bytes) (off : ℕ) → AllBytes s → field32 s off < 2 ^ 32
field32-lt s off h =
    u32-lt _ _ _ _ (AllBytes-get_or s off h) (AllBytes-get_or s (off + 1) h)
      (AllBytes-get_or s (off + 2) h) (AllBytes-get_or s (off + 3) h)
