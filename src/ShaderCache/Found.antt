-- ===== src/ShaderCache/Found.antt =====
-- What `cellar_shadercache_lookup` finds in a file of whole records.
use fantastic_octo_meme.Prelude.{
  ℕ, zero, suc, ◌+◌, ◌^◌, ◌<◌, ◌≤◌, ◌≡◌, ◌∙◌, Bool, true, ◌&&◌, List, [], ◌∷◌, ◌++◌, length, take,
  drop, ltb, leb, ◌==◌, Option, none, some, if◌then◌else◌, refl, sym, ap, arith, Bool-cases, inl,
  inr, length-append,
}
use fantastic_octo_meme.Memory.{Bytes}
use fantastic_octo_meme.Conf.Lookup.{append_assoc}
use fantastic_octo_meme.ShaderCache.{
  Cache, le_bytes, le_value, lookup_from, cache_lookup, one_record,
}
use fantastic_octo_meme.ShaderCache.Numbers.{length-le_bytes, le_back, take-part, drop-part}

-- The blobs of a file with their keys, and the bytes that they take.
abbrev pub Blobs : Type 0
Blobs = List (ℕ × Bytes)

abbrev pub records : Blobs → Bytes
records [] = []
records ((key, blob) ∷ es) = one_record key blob ++ records es

-- Keys of 64 bits, and blobs whose size fits 32 bits.
abbrev pub all_fit : Blobs → Bool
all_fit [] = true
all_fit ((key, blob) ∷ es) = ltb key (2 ^ 64) && (ltb (length blob) (2 ^ 32) && all_fit es)

-- The first blob with the key.
abbrev pub first_with : ℕ → Blobs → Option Bytes
first_with key [] = none
first_with key ((k, blob) ∷ es) = if k == key then some blob else first_with key es

-- What the lookup reports of it.
abbrev pub reported : ℕ → Option Bytes → ℕ × Option Bytes
reported size none = (0, none)
reported size (some blob) = (length blob, if leb (length blob) size then some blob else none)

length-one_record : (key : ℕ) (blob : Bytes) → length (one_record key blob) ≡ 12 + length blob
length-one_record key blob = omega (
  arith,
  length-append (le_bytes 8 key) (le_bytes 4 (length blob) ++ blob),
  length-append (le_bytes 4 (length blob)) blob,
  length-le_bytes 8 key,
  length-le_bytes 4 (length blob),
)

take-all_of : (blob rest : Bytes) → take (length blob) (blob ++ rest) ≡ blob
take-all_of blob rest = take-part (length blob) blob rest refl

module _ (key : ℕ) (blob rest : Bytes) (k : key < 2 ^ 64) (b : length blob < 2 ^ 32) where
  abbrev whole : Bytes
  whole = one_record key blob ++ rest

  abbrev behind_key : Bytes
  behind_key = le_bytes 4 (length blob) ++ (blob ++ rest)

  shape : whole ≡ le_bytes 8 key ++ behind_key
  shape =
      append_assoc (le_bytes 8 key) (le_bytes 4 (length blob) ++ blob) rest
      ∙ ap (λ t. le_bytes 8 key ++ t) (append_assoc (le_bytes 4 (length blob)) blob rest)

  key_read : le_value (take 8 whole) ≡ key
  key_read = rw shape (
      ap le_value (take-part 8 (le_bytes 8 key) behind_key (length-le_bytes 8 key))
      ∙ le_back 8 key k)

  size_read : le_value (take 4 (drop 8 whole)) ≡ length blob
  size_read = rw shape (
      ap (λ t. le_value (take 4 t))
        (drop-part 8 (le_bytes 8 key) behind_key (length-le_bytes 8 key))
      ∙ ap le_value
          (take-part 4 (le_bytes 4 (length blob)) (blob ++ rest) (length-le_bytes 4 (length blob)))
      ∙ le_back 4 (length blob) b)

  blob_read : drop 12 whole ≡ blob ++ rest
  blob_read =
      let head = le_bytes 8 key ++ le_bytes 4 (length blob) in
      rw (shape, sym (append_assoc (le_bytes 8 key) (le_bytes 4 (length blob)) (blob ++ rest)))
        (drop-part 12 head (blob ++ rest) (
          omega (
            arith,
            length-append (le_bytes 8 key) (le_bytes 4 (length blob)),
            length-le_bytes 8 key,
            length-le_bytes 4 (length blob),
          )))

  enough : leb 12 (length whole) ≡ true
  enough = ground (arith, length-append (one_record key blob) rest, length-one_record key blob)

  -- One round of the loop.
  round :
      (fuel wanted size : ℕ)
      → lookup_from (suc fuel) wanted size whole ≡ (
          if key == wanted
          then some (reported size (some blob))
          else lookup_from fuel wanted size rest)
  unfolding lookup_from
  round fuel wanted size =
      rw
        (
          enough,
          key_read,
          size_read,
          blob_read,
          take-all_of blob rest,
          drop-part (length blob) blob rest refl,
        )
        refl

nothing_left : (fuel key size : ℕ) → lookup_from (suc fuel) key size [] ≡ some (0, none)
unfolding lookup_from
nothing_left fuel key size = refl

lookup_from-records :
    (fuel key size : ℕ) (es : Blobs)
    → all_fit es ≡ true
    → length es < fuel
    → lookup_from fuel key size (records es) ≡ some (reported size (first_with key es))
lookup_from-records zero key size es h lt = elim lt [ ]
lookup_from-records (suc fuel) key size [] h lt = nothing_left fuel key size
lookup_from-records (suc fuel) key size ((k, blob) ∷ es) h lt =
    round k blob (records es) (ground arith) (ground arith) fuel key size
    ∙ elim (Bool-cases (k == key)) [
      | inl same ↦ rw same refl
      | inr other ↦ rw other (lookup_from-records fuel key size es (ground arith) (omega arith))
    ]

length-records : (es : Blobs) → length es ≤ length (records es)
length-records [] = omega arith
length-records ((key, blob) ∷ es) = omega (
  arith,
  length-records es,
  length-append (one_record key blob) (records es),
  length-one_record key blob,
)

-- In a file with a header of 40 bytes and whole records, the lookup of an open cache ends and finds
-- the first record with the key: it returns the size of its blob, and the blob if it fits the array.
-- Without such a record it returns 0.
pub cache_lookup_lem :
    (c : Cache) (head : Bytes) (es : Blobs) (key size : ℕ)
    → c.valid ≡ true
    → length head ≡ 40
    → all_fit es ≡ true
    → cache_lookup c (some (head ++ records es)) key size ≡ some (reported size (first_with key es))
unfolding cache_lookup
cache_lookup_lem c head es key size open_now forty h =
    rw (open_now, drop-part 40 head (records es) forty)
      (lookup_from-records (length (head ++ records es) + 1) key size es h
        (omega (arith, length-records es, length-append head (records es))))
