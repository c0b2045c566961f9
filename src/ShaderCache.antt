-- ===== src/ShaderCache.antt =====
-- src/gfx/shadercache.c: the cache of one file, on a machine that stores numbers with the low byte
-- first, as the cache writes them. The path fits its array; `writable` says whether the file can be
-- opened for writing. What `fwrite` took stays in the buffer of the stream until the C library
-- writes it, all of it by `fclose`.
pub mod Numbers
pub mod Found
pub mod Header
pub mod Session
use Prim.Native.Nat.{bit_or, bit_xor}
use fantastic_octo_meme.Prelude.{
  ℕ, zero, suc, ◌+◌, ◌-◌, ◌*◌, ◌/◌, ◌%◌, ◌^◌, Bool, true, false, not, ◌&&◌, List, [], ◌∷◌, ◌++◌,
  length, take, drop, get_or, ltb, leb, ◌==◌, Option, none, some, if◌then◌else◌,
}
use fantastic_octo_meme.Memory.{Bytes}
use fantastic_octo_meme.Status.{Status, err_invalid_argument}

-- `cellar_shader_env_t`.
pub record Env : Type 0 where
  pub gpu_id : ℕ
  pub driver_id : ℕ
  pub api_version : ℕ
  pub flags : ℕ

-- `cellar_shadercache_t` without its path; `unwritten` is the buffer of `fp`, `none` if it is null.
pub record Cache : Type 0 where
  pub valid : Bool
  pub env : Env
  pub unwritten : Option Bytes
  pub entries : ℕ

abbrev pub magic : ℕ
magic = 0x0143454C53480D00

-- The loops that write `n` bytes of a number, the lowest first, and that read them.
unfoldable pub le_bytes : ℕ → ℕ → Bytes
le_bytes zero v = []
le_bytes (suc n) v = v % 256 ∷ le_bytes n (v / 256)

unfoldable pub le_value : Bytes → ℕ
le_value [] = 0
le_value (b ∷ s) = bit_or b (le_value s * 2 ^ 8)

-- `write_env` and `read_env`: a file that ends too early is read as zeros.
abbrev pub env_bytes : Env → Bytes
env_bytes e =
    le_bytes 8 e.gpu_id
    ++ (le_bytes 8 e.driver_id ++ (le_bytes 4 e.api_version ++ le_bytes 4 e.flags))

abbrev pub read_env : Bytes → Env
read_env s =
    if leb 24 (length s)
    then record {
      gpu_id = le_value (take 8 s);
      driver_id = le_value (take 8 (drop 8 s));
      api_version = le_value (take 4 (drop 16 s));
      flags = le_value (take 4 (drop 20 s));
    }
    else record { gpu_id = 0; driver_id = 0; api_version = 0; flags = 0 }

-- The header of a file.
abbrev pub header : Env → ℕ → Bytes
header e count = le_bytes 8 magic ++ (env_bytes e ++ le_bytes 8 count)

-- The identity that has to match; the flags do not.
abbrev pub same_env : Env → Env → Bool
same_env a b =
    a.gpu_id == b.gpu_id && (a.driver_id == b.driver_id && a.api_version == b.api_version)

-- What `cellar_shadercache_open` reads of a file: whether it matches, and the count. A count that
-- ends too early is filled up by what the array held.
unfoldable pub read_header : Env → Bytes → Bool × ℕ
unfolding le_value
read_header env s =
    let first = take 8 s in
    let count = take 8 (drop 32 s) in
    if leb 8 (length s) && (le_value first == magic && get_or first 7 0 == 1)
    then (same_env (read_env (drop 8 s)) env, le_value (count ++ drop (length count) first))
    else (false, 0)

abbrev pub opened : Env → ℕ → Cache
opened env count = record { valid = true; env = env; unwritten = some []; entries = count }

-- `cellar_shadercache_open`, with the file before and after, `none` if there is none.
unfoldable pub cache_open : Bool → Env → Option Bytes → (Status × Option Cache) × Option Bytes
unfolding read_header le_bytes
cache_open false env file = ((err_invalid_argument, none), file)
cache_open true env none = ((Status.ok, some (opened env 0)), some (header env 0))
cache_open true env (some s) =
    let found = read_header env s in
    if found.0
    then ((Status.ok, some (opened env found.1)), some s)
    else ((Status.ok, some (opened env 0)), some (header env 0))

-- The loop of `cellar_shadercache_lookup` over the records: the size that is found, and what is
-- stored in `blob`, an array of `size` bytes. `none` is fuel used up.
unfoldable pub lookup_from : ℕ → ℕ → ℕ → Bytes → Option (ℕ × Option Bytes)
unfolding le_value
lookup_from zero key size s = none
lookup_from (suc fuel) key size s =
    let sz = le_value (take 4 (drop 8 s)) in
    let blob = drop 12 s in
    let next = lookup_from fuel key size (drop sz blob) in
    let hit = some (sz, if leb sz size then some (take sz blob) else none) in
    if leb 12 (length s) then (if le_value (take 8 s) == key then hit else next) else some (0, none)

-- `cellar_shadercache_lookup`, with a blob that is not null.
unfoldable pub cache_lookup : Cache → Option Bytes → ℕ → ℕ → Option (ℕ × Option Bytes)
unfolding lookup_from
cache_lookup c none key size = some (0, none)
cache_lookup c (some s) key size =
    let found = lookup_from (length s + 1) key size (drop 40 s) in
    if c.valid then found else some (0, none)

-- A record of the file.
abbrev pub one_record : ℕ → Bytes → Bytes
one_record key blob = le_bytes 8 key ++ (le_bytes 4 (length blob) ++ blob)

-- `cellar_shadercache_insert`; the stream takes `room` bytes.
unfoldable pub insert : Cache → ℕ → Bytes → ℕ → Status × Cache
unfolding le_bytes
insert c key blob room =
    let whole = one_record key blob in
    let taken : Status × Cache = elim c.unwritten [
      | none ↦ (err_invalid_argument, c)
      | some buffer ↦
          if leb (length whole) room
          then (
            Status.ok,
            record c { unwritten = some (buffer ++ whole); entries = (c.entries + 1) % 2 ^ 64 },
          )
          else (err_invalid_argument, record c { unwritten = some (buffer ++ take room whole) })
    ] in
    if c.valid then taken else (err_invalid_argument, c)

-- The C library writes the first `n` bytes of the buffer to the end of the file.
abbrev pub drained : ℕ → Cache → Bytes → Cache × Bytes
drained n c file = elim c.unwritten [
  | none ↦ (c, file)
  | some buffer ↦ (record c { unwritten = some (drop n buffer) }, file ++ take n buffer)
]

-- A write of the count over bytes 32 to 39.
abbrev pub with_count : ℕ → Bytes → Bytes
with_count count file = take 32 file ++ (le_bytes 8 count ++ drop 40 file)

-- `cellar_shadercache_close`; `reopens` says whether the file can be opened for the count.
unfoldable pub cache_close : Bool → Cache → Bytes → (Status × Cache) × Bytes
unfolding le_bytes
cache_close reopens c file =
    let closed = record c { valid = false; unwritten = none } in
    elim c.unwritten [
      | none ↦ ((Status.ok, closed), file)
      | some buffer ↦
          let whole = file ++ buffer in
          ((Status.ok, closed), if reopens then with_count c.entries whole else whole)
    ]

-- `cellar_shader_hash`, FNV-1a, and `cellar_shader_cache_key`.
unfoldable pub hash_from : ℕ → Bytes → ℕ
hash_from h [] = h
hash_from h (b ∷ s) = hash_from ((bit_xor h b * 1099511628211) % 2 ^ 64) s

abbrev pub shader_hash : Bytes → ℕ
shader_hash s = hash_from 1469598103934665603 s

abbrev pub cache_key : ℕ → ℕ → ℕ
cache_key hash salt = bit_xor hash (salt * 2 ^ 32 % 2 ^ 64)
