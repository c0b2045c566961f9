-- ===== src/ShaderCache/Header.antt =====
-- The header of a cache: its length, its count and how it is read back.
use fantastic_octo_meme.Prelude.{
  ℕ, ◌^◌, ◌<◌, ◌≡◌, ◌∙◌, Bool, true, ◌&&◌, ◌++◌, length, take, drop, ltb, leb, sym, ap, arith,
  length-append,
}
use fantastic_octo_meme.Memory.{Bytes}
use fantastic_octo_meme.Conf.Lookup.{append_assoc}
use fantastic_octo_meme.ShaderCache.{
  Env, magic, le_bytes, env_bytes, read_env, header, same_env, read_header, with_count,
}
use fantastic_octo_meme.ShaderCache.Numbers.{length-le_bytes, le_back, take-part, drop-part}

-- A header whose count is written over.
header-shape :
    (e : Env) (count : ℕ) → header e count ≡ (le_bytes 8 magic ++ env_bytes e) ++ le_bytes 8 count
header-shape e count = sym (append_assoc (le_bytes 8 magic) (env_bytes e) (le_bytes 8 count))

length-front : (e : Env) → length (le_bytes 8 magic ++ env_bytes e) ≡ 32
length-front e = omega (
  arith,
  length-append (le_bytes 8 magic) (env_bytes e),
  length-append (le_bytes 8 e.gpu_id)
      (le_bytes 8 e.driver_id ++ (le_bytes 4 e.api_version ++ le_bytes 4 e.flags)),
  length-append (le_bytes 8 e.driver_id) (le_bytes 4 e.api_version ++ le_bytes 4 e.flags),
  length-append (le_bytes 4 e.api_version) (le_bytes 4 e.flags),
  length-le_bytes 8 magic,
  length-le_bytes 8 e.gpu_id,
  length-le_bytes 8 e.driver_id,
  length-le_bytes 4 e.api_version,
  length-le_bytes 4 e.flags,
)

pub length-header : (e : Env) (count : ℕ) → length (header e count) ≡ 40
length-header e count =
    ap length (header-shape e count)
    ∙ omega (
      arith,
      length-append (le_bytes 8 magic ++ env_bytes e) (le_bytes 8 count),
      length-front e,
      length-le_bytes 8 count,
    )

pub with_count-header :
    (e : Env) (count new : ℕ) (rest : Bytes)
    → with_count new (header e count ++ rest) ≡ header e new ++ rest
with_count-header e count new rest =
    let front = le_bytes 8 magic ++ env_bytes e in
    let split : header e count ++ rest ≡ front ++ (le_bytes 8 count ++ rest) =
      ap (λ t. t ++ rest) (header-shape e count) ∙ append_assoc front (le_bytes 8 count) rest in
    let first : take 32 (header e count ++ rest) ≡ front =
      ap (take 32) split ∙ take-part 32 front (le_bytes 8 count ++ rest) (length-front e) in
    let last = drop-part 40 (header e count) rest (length-header e count) in
    ap (λ t. t ++ (le_bytes 8 new ++ drop 40 (header e count ++ rest))) first
    ∙ ap (λ t. front ++ (le_bytes 8 new ++ t)) last
    ∙ sym (append_assoc front (le_bytes 8 new) rest)
    ∙ ap (λ t. t ++ rest) (sym (header-shape e new))

-- The numbers of an identity have their widths.
abbrev pub env_fits : Env → Bool
env_fits e =
    ltb e.gpu_id (2 ^ 64)
    && (ltb e.driver_id (2 ^ 64) && (ltb e.api_version (2 ^ 32) && ltb e.flags (2 ^ 32)))

read_env-bytes : (e : Env) (rest : Bytes) → env_fits e ≡ true → read_env (env_bytes e ++ rest) ≡ e
unfolding le_bytes
read_env-bytes e rest h =
    let enough : leb 24 (length (env_bytes e ++ rest)) ≡ true = ground arith in
    let gpu = le_back 8 e.gpu_id (ground arith) in
    let driver = le_back 8 e.driver_id (ground arith) in
    let api = le_back 4 e.api_version (ground arith) in
    let flags = le_back 4 e.flags (ground arith) in
    rw enough
      (λ i. record { gpu_id = gpu i; driver_id = driver i; api_version = api i; flags = flags i })

pub read_header-header :
    (env e0 : Env) (n : ℕ) (rest : Bytes)
    → env_fits e0 ≡ true
    → n < 2 ^ 64
    → read_header env (header e0 n ++ rest) ≡ (same_env e0 env, n)
unfolding read_header le_bytes
read_header-header env e0 n rest h small =
    let enough : leb 8 (length (header e0 n ++ rest)) ≡ true = ground arith in
    let identity = read_env-bytes e0 (le_bytes 8 n ++ rest) h in
    let count = le_back 8 n small in rw enough (λ i. (same_env (identity i) env, count i))
