-- ===== src/Tests/Util.antt =====
-- src/loader/cellar_util.c on small inputs.
use fantastic_octo_meme.Prelude.{◌*◌, ◌+◌, ◌≡◌, [], ◌∷◌, some, refl, replicate}
use fantastic_octo_meme.Memory.{Bytes, done, fault}
use fantastic_octo_meme.Util.{le64, hash_str, strlcpy}

le64_runs : le64 (1 ∷ 2 ∷ 3 ∷ 4 ∷ 5 ∷ 6 ∷ 7 ∷ 8 ∷ []) ≡ done 0x0807060504030201
unfolding le64
le64_runs = refl

-- The hash of "ab".
hash_str_runs : hash_str (97 ∷ 98 ∷ 0 ∷ []) ≡ done ((5381 * 33 + 97) * 33 + 98)
unfolding hash_str
hash_str_runs = refl

abbrev buffer : Bytes
buffer = replicate 4 9

abbrev abcdef : Bytes
abcdef = b'a' ∷ b'b' ∷ b'c' ∷ b'd' ∷ b'e' ∷ 0 ∷ []

-- A source with no zero is read past its end.
strlcpy_overread : strlcpy buffer 4 (some (b'a' ∷ [])) ≡ fault
unfolding strlcpy
strlcpy_overread = refl
