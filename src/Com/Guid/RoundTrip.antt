-- ===== src/Com/Guid/RoundTrip.antt =====
-- An identifier that was printed is parsed back.
use Prim.Native.Nat.{bit_or}
use fantastic_octo_meme.Prelude.{
  ℕ, zero, suc, ◌+◌, ◌-◌, ◌*◌, ◌/◌, ◌%◌, ◌^◌, ◌≤◌, ◌<◌, ◌≡◌, ◌∙◌, [], ◌∷◌, ◌++◌, length,
  length-append, take, refl, ap, arith, some,
}
use fantastic_octo_meme.Prelude.Bits.{bit_or_disjoint}
use fantastic_octo_meme.Memory.{Bytes}
use fantastic_octo_meme.Conf.Lookup.{append_assoc}
use fantastic_octo_meme.Conf.Back.{take-all}
use fantastic_octo_meme.Com.Guid.{
  Guid, hexn, run, hex_run, skip, byte_runs, guid_parse, hex_digit, hex, byte_texts, from_third,
  guid_text, guid_format,
}

hexn-hex_digit : (h : ℕ) → h < 16 → hexn (hex_digit h) ≡ some h
unfolding hexn hex_digit
hexn-hex_digit h small = ground arith

nibble : (v h : ℕ) → h < 16 → v < 2 ^ 28 → bit_or h ((v * 2 ^ 4) % 2 ^ 32) ≡ v * 16 + h
nibble v h small room =
    let same : (v * 2 ^ 4) % 2 ^ 32 ≡ v * 2 ^ 4 = omega arith in
    rw same (bit_or_disjoint 4 h v small ∙ omega arith)

run-digit :
    (k v h : ℕ) (s : Bytes)
    → h < 16
    → v < 2 ^ 28
    → run (suc k) v (hex_digit h ∷ s) ≡ run k (v * 16 + h) s
unfolding run
run-digit k v h s small room = rw (hexn-hex_digit h small, run, nibble v h small room) refl

run-two :
    (k v b : ℕ) (s : Bytes)
    → b < 2 ^ 8
    → v < 2 ^ 24
    → run (suc (suc k)) v (hex 2 b ++ s) ≡ run k (v * 2 ^ 8 + b) s
unfolding hex
run-two k v b s small room =
    run-digit (suc k) v (b / 16 ^ 1 % 16) (hex_digit (b / 16 ^ 0 % 16) ∷ s) (omega arith)
      (omega arith)
    ∙ run-digit k (v * 16 + b / 16 ^ 1 % 16) (b / 16 ^ 0 % 16) s (omega arith) (omega arith)
    ∙ ap (λ x. run k x s) (omega arith)

hex-four : (n : ℕ) → hex 4 n ≡ hex 2 (n / 2 ^ 8) ++ hex 2 (n % 2 ^ 8)
unfolding hex
hex-four n =
    let d3 : n / 16 ^ 3 % 16 ≡ n / 2 ^ 8 / 16 ^ 1 % 16 = omega arith in
    let d2 : n / 16 ^ 2 % 16 ≡ n / 2 ^ 8 / 16 ^ 0 % 16 = omega arith in
    let d1 : n / 16 ^ 1 % 16 ≡ n % 2 ^ 8 / 16 ^ 1 % 16 = omega arith in
    let d0 : n / 16 ^ 0 % 16 ≡ n % 2 ^ 8 / 16 ^ 0 % 16 = omega arith in
    λ i. hex_digit (d3 i) ∷ hex_digit (d2 i) ∷ hex_digit (d1 i) ∷ hex_digit (d0 i) ∷ []

hex-eight : (n : ℕ) → hex 8 n ≡ hex 4 (n / 2 ^ 16) ++ hex 4 (n % 2 ^ 16)
unfolding hex
hex-eight n =
    let d7 : n / 16 ^ 7 % 16 ≡ n / 2 ^ 16 / 16 ^ 3 % 16 = omega arith in
    let d6 : n / 16 ^ 6 % 16 ≡ n / 2 ^ 16 / 16 ^ 2 % 16 = omega arith in
    let d5 : n / 16 ^ 5 % 16 ≡ n / 2 ^ 16 / 16 ^ 1 % 16 = omega arith in
    let d4 : n / 16 ^ 4 % 16 ≡ n / 2 ^ 16 / 16 ^ 0 % 16 = omega arith in
    let d3 : n / 16 ^ 3 % 16 ≡ n % 2 ^ 16 / 16 ^ 3 % 16 = omega arith in
    let d2 : n / 16 ^ 2 % 16 ≡ n % 2 ^ 16 / 16 ^ 2 % 16 = omega arith in
    let d1 : n / 16 ^ 1 % 16 ≡ n % 2 ^ 16 / 16 ^ 1 % 16 = omega arith in
    let d0 : n / 16 ^ 0 % 16 ≡ n % 2 ^ 16 / 16 ^ 0 % 16 = omega arith in
    λ i.
      hex_digit (d7 i)
      ∷ hex_digit (d6 i)
      ∷ hex_digit (d5 i)
      ∷ hex_digit (d4 i)
      ∷ hex_digit (d3 i)
      ∷ hex_digit (d2 i)
      ∷ hex_digit (d1 i)
      ∷ hex_digit (d0 i)
      ∷ []

run-four :
    (k v n : ℕ) (s : Bytes)
    → n < 2 ^ 16
    → v < 2 ^ 16
    → run (suc (suc (suc (suc k)))) v (hex 4 n ++ s) ≡ run k (v * 2 ^ 16 + n) s
run-four k v n s small room =
    ap (λ t. run (suc (suc (suc (suc k)))) v (t ++ s)) (hex-four n)
    ∙ ap (run (suc (suc (suc (suc k)))) v) (append_assoc (hex 2 (n / 2 ^ 8)) (hex 2 (n % 2 ^ 8)) s)
    ∙ run-two (suc (suc k)) v (n / 2 ^ 8) (hex 2 (n % 2 ^ 8) ++ s) (omega arith) (omega arith)
    ∙ run-two k (v * 2 ^ 8 + n / 2 ^ 8) (n % 2 ^ 8) s (omega arith) (omega arith)
    ∙ ap (λ x. run k x s) (omega arith)

run-eight : (n : ℕ) (s : Bytes) → n < 2 ^ 32 → run 8 0 (hex 8 n ++ s) ≡ some (n, s)
unfolding run
run-eight n s small =
    ap (λ t. run 8 0 (t ++ s)) (hex-eight n)
    ∙ ap (run 8 0) (append_assoc (hex 4 (n / 2 ^ 16)) (hex 4 (n % 2 ^ 16)) s)
    ∙ run-four 4 0 (n / 2 ^ 16) (hex 4 (n % 2 ^ 16) ++ s) (omega arith) (omega arith)
    ∙ run-four 0 (0 * 2 ^ 16 + n / 2 ^ 16) (n % 2 ^ 16) s (omega arith) (omega arith)
    ∙ ap (λ x. some (x, s)) (omega arith)

-- What `hex_run` makes of a number that was printed.
hex_run-eight : (n : ℕ) (s : Bytes) → n < 2 ^ 32 → hex_run 8 (hex 8 n ++ s) ≡ (n, s)
unfolding hex_run
hex_run-eight n s small = rw (run-eight n s small, hex_run) refl

hex_run-four : (n : ℕ) (s : Bytes) → n < 2 ^ 16 → hex_run 4 (hex 4 n ++ s) ≡ (n, s)
unfolding hex_run run
hex_run-four n s small =
    let e : run 4 0 (hex 4 n ++ s) ≡ some (n, s) =
      run-four 0 0 n s small (omega arith) ∙ ap (λ x. some (x, s)) (omega arith) in
    rw (e, hex_run) refl

hex_run-two : (n : ℕ) (s : Bytes) → n < 2 ^ 8 → hex_run 2 (hex 2 n ++ s) ≡ (n, s)
unfolding hex_run run
hex_run-two n s small =
    let e : run 2 0 (hex 2 n ++ s) ≡ some (n, s) =
      run-two 0 0 n s small (omega arith) ∙ ap (λ x. some (x, s)) (omega arith) in
    rw (e, hex_run) refl

abbrev pub AllBytes : Bytes → Type 0
AllBytes [] = Unit {0}
AllBytes (b ∷ bs) = (b < 2 ^ 8) × AllBytes bs

byte_runs-byte_texts :
    (n : ℕ) (bytes s : Bytes)
    → n ≤ length bytes
    → AllBytes bytes
    → byte_runs n (byte_texts n bytes ++ s) ≡ (take n bytes, s)
byte_runs-byte_texts zero bytes s h all = refl
byte_runs-byte_texts (suc n) [] s h all = absurd (omega arith)
byte_runs-byte_texts (suc n) (b ∷ bytes) s h (small, all) =
    let rest = byte_runs-byte_texts n bytes s (omega arith) all in
    let one : hex_run 2 ((hex 2 b ++ byte_texts n bytes) ++ s) ≡ (b, byte_texts n bytes ++ s) =
      ap (hex_run 2) (append_assoc (hex 2 b) (byte_texts n bytes) s)
      ∙ hex_run-two b (byte_texts n bytes ++ s) small in
    let value : b % 2 ^ 8 ≡ b = omega arith in rw (one, rest, value) refl

-- The fields are of their types.
pub record IsValid (g : Guid) : Type 0 where
  pub data1_is : g.data1 < 2 ^ 32
  pub data2_is : g.data2 < 2 ^ 16
  pub data3_is : g.data3 < 2 ^ 16
  pub data4_eight : length g.data4 ≡ 8
  pub data4_are : AllBytes g.data4

from_third-AllBytes : (bytes : Bytes) → AllBytes bytes → AllBytes (from_third bytes)
from_third-AllBytes [] all = tt
from_third-AllBytes (b0 ∷ []) all = tt
from_third-AllBytes (b0 ∷ b1 ∷ rest) (s0, (s1, all)) = all

eight :
    (bytes : Bytes)
    → length bytes ≡ 8
    → (6 ≤ length (from_third bytes)) × (take 2 bytes ++ take 6 (from_third bytes) ≡ bytes)
eight [] h = absurd (omega arith)
eight (b0 ∷ []) h = absurd (omega arith)
eight (b0 ∷ b1 ∷ rest) h = (omega arith, ap (λ r. b0 ∷ b1 ∷ r) (take-all 6 rest (omega arith)))

length-byte_texts : (n : ℕ) (bytes : Bytes) → n ≤ length bytes → length (byte_texts n bytes) ≡ 2 * n
unfolding hex
length-byte_texts zero bytes h = refl
length-byte_texts (suc n) [] h = absurd (omega arith)
length-byte_texts (suc n) (b ∷ bytes) h = omega (arith, length-byte_texts n bytes (omega arith))

module _ (g : Guid) (v : IsValid g) where
  length-guid_text : length (guid_text g) ≡ 38
  unfolding guid_text hex
  length-guid_text =
      let (enough, whole) = eight g.data4 v.data4_eight in
      omega (
        arith,
        length-byte_texts 2 g.data4 (omega (arith, v.data4_eight)),
        length-byte_texts 6 (from_third g.data4) enough,
        length-append (byte_texts 2 g.data4)
            (b'-' ∷ (byte_texts 6 (from_third g.data4) ++ b'}' ∷ [])),
        length-append (byte_texts 6 (from_third g.data4)) (b'}' ∷ []),
      )

  guid_parse-guid_text : guid_parse (guid_text g) ≡ g
  unfolding guid_parse guid_text
  guid_parse-guid_text =
      let (enough, whole) = eight g.data4 v.data4_eight in
      let s5 = byte_texts 6 (from_third g.data4) ++ b'}' ∷ [] in
      let s4 = byte_texts 2 g.data4 ++ b'-' ∷ s5 in
      let s3 = hex 4 g.data3 ++ b'-' ∷ s4 in
      let s2 = hex 4 g.data2 ++ b'-' ∷ s3 in
      let p1 = hex_run-eight g.data1 (b'-' ∷ s2) v.data1_is in
      let p2 =
        ap (λ t. hex_run 4 (skip b'-' t.1)) p1 ∙ hex_run-four g.data2 (b'-' ∷ s3) v.data2_is in
      let p3 =
        ap (λ t. hex_run 4 (skip b'-' t.1)) p2 ∙ hex_run-four g.data3 (b'-' ∷ s4) v.data3_is in
      let p4 =
        ap (λ t. byte_runs 2 (skip b'-' t.1)) p3
        ∙ byte_runs-byte_texts 2 g.data4 (b'-' ∷ s5) (omega (arith, v.data4_eight)) v.data4_are in
      let p5 =
        ap (λ t. byte_runs 6 (skip b'-' t.1)) p4
        ∙ byte_runs-byte_texts 6 (from_third g.data4) (b'}' ∷ []) enough
            (from_third-AllBytes g.data4 v.data4_are) in
      λ i. record {
        data1 = (p1 i).0;
        data2 = (ap (λ t. t.0 % 2 ^ 16) p2 ∙ kept g.data2 v.data2_is) i;
        data3 = (ap (λ t. t.0 % 2 ^ 16) p3 ∙ kept g.data3 v.data3_is) i;
        data4 = ((λ j. (p4 j).0 ++ (p5 j).0) ∙ whole) i;
      }
    where
      kept : (n : ℕ) → n < 2 ^ 16 → n % 2 ^ 16 ≡ n
      kept n small = omega arith

-- `cellar_guid_parse` of the text that `cellar_guid_format` prints into an array of at least 39
-- bytes is the identifier itself.
pub guid_parse-guid_format :
    (g : Guid) (n : ℕ) → IsValid g → 39 ≤ n → guid_parse (guid_format g n) ≡ g
guid_parse-guid_format g n v room =
    ap guid_parse (take-all (n - 1) (guid_text g) (omega (arith, length-guid_text g v)))
    ∙ guid_parse-guid_text g v
