-- ===== src/ShaderCache/Session.antt =====
-- A cache between its opening and its closing.
use fantastic_octo_meme.Prelude.{
  ◌⊎◌, ◌≢◌, ℕ, zero, suc, ◌+◌, ◌%◌, ◌^◌, ◌<◌, ◌≡◌, ◌∙◌, true, false, List, [], ◌∷◌, ◌++◌, length,
  take, drop, leb, some, refl, sym, ap, arith, append_nil,
}
use fantastic_octo_meme.Memory.{Bytes}
use fantastic_octo_meme.Status.{Status}
use fantastic_octo_meme.Conf.Lookup.{append_assoc}
use fantastic_octo_meme.ShaderCache.{
  Env, Cache, header, same_env, opened, cache_open, cache_lookup, insert, one_record, drained,
  with_count, cache_close,
}
use fantastic_octo_meme.ShaderCache.Header.{
  length-header, with_count-header, env_fits, read_header-header,
}
use fantastic_octo_meme.ShaderCache.Found.{
  all_fit, first_with, reported, Blobs, records, cache_lookup_lem,
}

-- What happens to an open cache: a blob is inserted whole, or a part of the buffer is written.
pub data Event : Type 0 where
  inserts : ℕ → Bytes → Event
  drains : ℕ → Event

abbrev pub step : Event → Cache × Bytes → Cache × Bytes
step (inserts key blob) (c, file) = ((insert c key blob (length (one_record key blob))).1, file)
step (drains n) (c, file) = drained n c file

abbrev pub run : List Event → Cache × Bytes → Cache × Bytes
run [] s = s
run (e ∷ es) s = run es (step e s)

-- The blobs that were inserted.
abbrev pub inserted : List Event → Blobs
inserted [] = []
inserted (inserts key blob ∷ es) = (key, blob) ∷ inserted es
inserted (drains n ∷ es) = inserted es

take-drop : (n : ℕ) (s : Bytes) → take n s ++ drop n s ≡ s
take-drop zero s = refl
take-drop (suc n) [] = refl
take-drop (suc n) (c ∷ s) = ap (λ t. c ∷ t) (take-drop n s)

records-append : (es ds : Blobs) → records (es ++ ds) ≡ records es ++ records ds
records-append [] ds = refl
records-append ((key, blob) ∷ es) ds =
    ap (λ t. one_record key blob ++ t) (records-append es ds)
    ∙ sym (append_assoc (one_record key blob) (records es) (records ds))

-- An open cache: file and buffer together hold the bytes, and the count is kept.
pub record Holds (bytes : Bytes) (count : ℕ) (s : Cache × Bytes) : Type 0 where
  pub is_open : s.0.valid ≡ true
  pub buffer : Bytes
  pub held : s.0.unwritten ≡ some buffer
  pub together : s.1 ++ buffer ≡ bytes
  pub counted : s.0.entries ≡ count

insert_goes :
    (key : ℕ) (blob buffer : Bytes) (c : Cache)
    → c.valid ≡ true
    → c.unwritten ≡ some buffer
    → insert c key blob (length (one_record key blob)) ≡ (
      Status.ok,
      record {
        valid = true;
        env = c.env;
        unwritten = some (buffer ++ one_record key blob);
        entries = (c.entries + 1) % 2 ^ 64;
      },
    )
unfolding insert
insert_goes key blob buffer c open_now held =
    let room : leb (length (one_record key blob)) (length (one_record key blob)) ≡ true =
      ground arith in
    rw (open_now, held, room)
      (ap
        (λ v.
          let r : Status × Cache = (
            Status.ok,
            record {
              valid = v;
              env = c.env;
              unwritten = some (buffer ++ one_record key blob);
              entries = (c.entries + 1) % 2 ^ 64;
            },
          ) in
          r)
        open_now)

step-inserts :
    (key : ℕ) (blob bytes : Bytes) (count : ℕ) (c : Cache) (file : Bytes)
    → Holds bytes count (c, file)
    → Holds
        (bytes ++ one_record key blob)
        ((count + 1) % 2 ^ 64)
        (step (inserts key blob) (c, file))
step-inserts key blob bytes count c file h = rw (insert_goes key blob h.buffer c h.is_open h.held) (
    let r : Holds (bytes ++ one_record key blob) ((count + 1) % 2 ^ 64) (
      record {
        valid = true;
        env = c.env;
        unwritten = some (h.buffer ++ one_record key blob);
        entries = (c.entries + 1) % 2 ^ 64;
      },
      file,
    ) =
      record {
        is_open = refl;
        buffer = h.buffer ++ one_record key blob;
        held = refl;
        together =
            sym (append_assoc file h.buffer (one_record key blob))
            ∙ ap (λ t. t ++ one_record key blob) h.together;
        counted = ap (λ n. (n + 1) % 2 ^ 64) h.counted;
      } in
    r)

step-drains :
    (n count : ℕ) (bytes : Bytes) (c : Cache) (file : Bytes)
    → Holds bytes count (c, file)
    → Holds bytes count (step (drains n) (c, file))
step-drains n count bytes c file h = rw h.held (
    let r : Holds bytes count
        (record c { unwritten = some (drop n h.buffer) }, file ++ take n h.buffer) =
      record {
        is_open = h.is_open;
        buffer = drop n h.buffer;
        held = refl;
        together =
            append_assoc file (take n h.buffer) (drop n h.buffer)
            ∙ ap (λ t. file ++ t) (take-drop n h.buffer)
            ∙ h.together;
        counted = h.counted;
      } in
    r)

run-Holds :
    (es : List Event) (bytes : Bytes) (count : ℕ) (c : Cache) (file : Bytes)
    → count < 2 ^ 64
    → Holds bytes count (c, file)
    → Holds
        (bytes ++ records (inserted es))
        ((count + length (inserted es)) % 2 ^ 64)
        (run es (c, file))
run-Holds [] bytes count c file small h =
    let same : (count + 0) % 2 ^ 64 ≡ count = omega arith in rw (append_nil bytes, same) h
run-Holds (drains n ∷ es) bytes count c file small h =
    let next = step (drains n) (c, file) in
    run-Holds es bytes count next.0 next.1 small (step-drains n count bytes c file h)
run-Holds (inserts key blob ∷ es) bytes count c file small h =
    let next = step (inserts key blob) (c, file) in
    let whole = one_record key blob in
    let ih =
      run-Holds es (bytes ++ whole) ((count + 1) % 2 ^ 64) next.0 next.1 (omega arith)
        (step-inserts key blob bytes count c file h) in
    let counts : ((count + 1) % 2 ^ 64 + length (inserted es)) % 2 ^ 64
        ≡ (count + suc (length (inserted es))) % 2 ^ 64 =
      omega arith in
    rw counts at (rw (append_assoc bytes whole (records (inserted es))) at ih)

close-Holds :
    (bytes : Bytes) (count : ℕ) (c : Cache) (file : Bytes)
    → Holds bytes count (c, file)
    → (cache_close true c file).1 ≡ with_count count bytes
unfolding cache_close
close-Holds bytes count c file h =
    rw (h.held, cache_close)
      (ap (λ t. with_count c.entries t) h.together ∙ ap (λ n. with_count n bytes) h.counted)

-- The session of a file whose header matches: opening leaves it as it is and takes over its count,
-- and after any blobs that are inserted, whatever parts of the buffer are written in between,
-- closing leaves the old records and the new ones behind them, with the count of all, in 64 bits.
pub cache_session :
    (env e0 : Env) (n : ℕ) (old : Blobs) (es : List Event)
    → env_fits e0 ≡ true
    → n < 2 ^ 64
    → same_env e0 env ≡ true
    → let file = header e0 n ++ records old in
      let last = run es (opened env n, file) in
      (cache_open true env (some file) ≡ ((Status.ok, some (opened env n)), some file))
      × ((cache_close true last.0 last.1).1
          ≡ header e0 ((n + length (inserted es)) % 2 ^ 64) ++ records (old ++ inserted es))
unfolding cache_open
cache_session env e0 n old es h small same =
    let file = header e0 n ++ records old in
    let last = run es (opened env n, file) in
    let count = (n + length (inserted es)) % 2 ^ 64 in
    let r : Holds file n (opened env n, file) = record {
      is_open = refl;
      buffer = [];
      held = refl;
      together = append_nil file;
      counted = refl;
    } in
    let after = run-Holds es file n (opened env n) file small r in
    (
      rw (read_header-header env e0 n (records old) h small, same) refl,
      close-Holds (file ++ records (inserted es)) count last.0 last.1 after
          ∙ ap (with_count count) (
              append_assoc (header e0 n) (records old) (records (inserted es))
              ∙ ap (λ t. header e0 n ++ t) (sym (records-append old (inserted es))))
          ∙ with_count-header e0 n count (records (old ++ inserted es)),
    )

-- The identities match as the code compares them, or they differ in one of the three numbers.
same_env-same :
    (a b : Env)
    → a.gpu_id ≡ b.gpu_id
    → a.driver_id ≡ b.driver_id
    → a.api_version ≡ b.api_version
    → same_env a b ≡ true
same_env-same a b gpu driver api = ground arith

same_env-differs :
    (a b : Env)
    → (a.gpu_id ≢ b.gpu_id) ⊎ ((a.driver_id ≢ b.driver_id) ⊎ (a.api_version ≢ b.api_version))
    → same_env a b ≡ false
same_env-differs a b differs = ground arith

-- A file for another graphics card, another driver or another version of the interface is replaced
-- when the cache is opened, if it can be written: whatever is inserted afterwards, and whatever
-- parts of the buffer are written in between, a lookup after the closing never returns an old blob,
-- but the first of the new ones with the key, or nothing. The file that is left belongs to the new
-- identity: it is kept by the next opening with the same three numbers, with any flags. The
-- identities, the old count, the new keys and the sizes of the new blobs have their widths.
pub cache_reset :
    (env e0 again : Env) (n key size : ℕ) (old : Blobs) (es : List Event)
    → env_fits e0 ≡ true
    → env_fits env ≡ true
    → n < 2 ^ 64
    → all_fit (inserted es) ≡ true
    → (e0.gpu_id ≢ env.gpu_id)
      ⊎ ((e0.driver_id ≢ env.driver_id) ⊎ (e0.api_version ≢ env.api_version))
    → env.gpu_id ≡ again.gpu_id
    → env.driver_id ≡ again.driver_id
    → env.api_version ≡ again.api_version
    → let start = header env 0 in
      let last = run es (opened env 0, start) in
      let left = (cache_close true last.0 last.1).1 in
      let count = length (inserted es) % 2 ^ 64 in
      (cache_open true env (some (header e0 n ++ records old))
        ≡ ((Status.ok, some (opened env 0)), some start))
      × (cache_open true again (some left) ≡ ((Status.ok, some (opened again count)), some left))
      × (cache_lookup (opened again count) (some left) key size
          ≡ some (reported size (first_with key (inserted es))))
unfolding cache_open
cache_reset env e0 again n key size old es h fits small new differs gpu driver api =
    let start = header env 0 in
    let last = run es (opened env 0, start) in
    let left = (cache_close true last.0 last.1).1 in
    let count = length (inserted es) % 2 ^ 64 in
    let same = same_env-same env again gpu driver api in
    let plain : start ++ records [] ≡ start = append_nil start in
    let none_before : 0 + length (inserted es) ≡ length (inserted es) = omega arith in
    let session =
      cache_session env env 0 [] es fits (omega arith) (same_env-same env env refl refl refl) in
    let is_left : left ≡ header env count ++ records (inserted es) =
      ap (λ f. (cache_close true (run es (opened env 0, f)).0 (run es (opened env 0, f)).1).1)
        (sym plain)
      ∙ session.1
      ∙ ap (λ c. header env (c % 2 ^ 64) ++ records (inserted es)) none_before in
    (
      rw (read_header-header env e0 n (records old) h small, same_env-differs e0 env differs) refl,
      rw
          (
            is_left,
            read_header-header again env count (records (inserted es)) fits (omega arith),
            same,
          )
          refl,
      rw is_left (
          cache_lookup_lem (opened again count) (header env count) (inserted es) key size refl
            (length-header env count) new),
    )
