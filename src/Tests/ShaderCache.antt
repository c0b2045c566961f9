-- ===== src/Tests/ShaderCache.antt =====
-- src/gfx/shadercache.c on one file.
use fantastic_octo_meme.Prelude.{
  inl, inr, ◌+◌, ◌%◌, ◌^◌, ◌≡◌, refl, arith, true, List, length, [], ◌∷◌, ◌++◌, none, some,
}
use fantastic_octo_meme.Status.{Status}
use fantastic_octo_meme.Text.{codes}
use fantastic_octo_meme.ShaderCache.{
  Env, header, opened, le_bytes, cache_open, cache_lookup, cache_close, insert,
}
use fantastic_octo_meme.ShaderCache.Found.{Blobs, records, reported, first_with, cache_lookup_lem}
use fantastic_octo_meme.ShaderCache.Header.{length-header}
use fantastic_octo_meme.ShaderCache.Session.{
  Event, inserts, drains, run, inserted, cache_session, cache_reset,
}

abbrev card : Env
card = record { gpu_id = 0x10DE2684; driver_id = 535; api_version = 0x410000; flags = 0 }

-- The same card with another driver.
abbrev updated_card : Env
updated_card = record card { driver_id = 550 }

abbrev stored : Blobs
stored = (7, codes "ab") ∷ (9, codes "xyz") ∷ (7, codes "later") ∷ []

cache_lookup_lem_example :
    cache_lookup (opened card 3) (some (header card 3 ++ records stored)) 7 16
    ≡ some (reported 16 (first_with 7 stored))
cache_lookup_lem_example =
    cache_lookup_lem (opened card 3) (header card 3) stored 7 16 refl (length-header card 3) refl

-- Two blobs, with a part of the first written before the second comes.
abbrev two_inserts : List Event
two_inserts = inserts 11 (codes "p") ∷ drains 5 ∷ inserts 12 (codes "qq") ∷ []

cache_session_example :
    let file = header card 3 ++ records stored in
    let last = run two_inserts (opened card 3, file) in
    (cache_open true card (some file) ≡ ((Status.ok, some (opened card 3)), some file))
    × ((cache_close true last.0 last.1).1
        ≡ header card ((3 + length (inserted two_inserts)) % 2 ^ 64)
          ++ records (stored ++ inserted two_inserts))
cache_session_example = cache_session card card 3 stored two_inserts refl (omega arith) refl

-- The new identity with other flags.
abbrev updated_flags : Env
updated_flags = record updated_card { flags = 4 }

cache_reset_example :
    let start = header updated_card 0 in
    let last = run two_inserts (opened updated_card 0, start) in
    let left = (cache_close true last.0 last.1).1 in
    (cache_open true updated_card (some (header card 3 ++ records stored))
      ≡ ((Status.ok, some (opened updated_card 0)), some start))
    × (cache_open true updated_flags (some left)
        ≡ ((Status.ok, some (opened updated_flags 2)), some left))
    × (cache_lookup (opened updated_flags 2) (some left) 12 16
        ≡ some (reported 16 (first_with 12 (inserted two_inserts))))
cache_reset_example =
    cache_reset updated_card card updated_flags 3 12 16 stored two_inserts refl refl (omega arith)
      refl (inr (inl (λ e. omega (arith, e)))) refl refl refl

-- A blob that was just inserted is not found before it reaches the file.
not_yet_found :
    cache_lookup (insert (opened card 0) 5 (codes "new") 15).1 (some (header card 0)) 5 16
    ≡ some (0, none)
unfolding cache_lookup insert le_bytes
not_yet_found = refl
