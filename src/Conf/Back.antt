-- ===== src/Conf/Back.antt =====
-- A value that was written to a file is what `find_field` and the conversions read back.
use fantastic_octo_meme.Prelude.{
  ℕ, zero, suc, ◌+◌, ◌-◌, ◌^◌, ◌≤◌, ◌<◌, ◌≡◌, ◌∙◌, Bool, true, ◌&&◌, [], ◌∷◌, ◌++◌, length, take,
  ltb, refl, ap, arith, some, length-append,
}
use fantastic_octo_meme.Memory.{Bytes}
use fantastic_octo_meme.Util.{c_str}
use fantastic_octo_meme.Text.{newline, clip, lacks}
use fantastic_octo_meme.Text.Decimal.{decimal, AllDigits, digits_from-AllDigits, digits_from-length}
use fantastic_octo_meme.Text.Number.{ℤ, pos, negsuc, print_int, IsInt, low_word}
use fantastic_octo_meme.Text.Number.RoundTrip.{
  strtoull-decimal, to_int-strtol-print_int, low_word-to_int-strtol-decimal, atoi-print_int,
}
use fantastic_octo_meme.Conf.{
  find_field, field_text, field_int, field_u64, field_atoi, line, Fields, render, document,
  buffered, or_empty,
}
use fantastic_octo_meme.Conf.Lookup.{
  is_key, Clean, value_of, clipped, lacks→Lacks, find_field-document,
}

-- A text that an array of `cap` bytes holds on one line.
abbrev pub fits : ℕ → Bytes → Bool
fits cap s = lacks newline s && lacks 0 s && ltb (length s) cap

-- All keys are keys, without a zero.
abbrev pub keys_ok : Fields → Bool
keys_ok [] = true
keys_ok ((key, value) ∷ fs) = is_key key && lacks 0 key && keys_ok fs

-- All values stand on one line, and hold less than `cap` bytes.
abbrev pub AllFit : ℕ → Fields → Type 0
AllFit cap [] = Unit {0}
AllFit cap ((key, value) ∷ fs) = (fits cap value ≡ true) × AllFit cap fs

infixr 4 ◌&◌
abbrev pub ◌&◌ : {A B : Type 0} → A → B → A × B
f & rest = (f, rest)

-- How many bytes the lines take.
abbrev pub total : Fields → ℕ
total [] = 0
total ((key, value) ∷ fs) = length key + length value + 2 + total fs

pub length-render : (fs : Fields) → length (render fs) ≡ total fs
length-render [] = refl
length-render ((key, value) ∷ fs) = omega (
  arith,
  length-append (line key value) (render fs),
  length-append key (b'=' ∷ (value ++ newline ∷ [])),
  length-append value (newline ∷ []),
  length-render fs,
)

pub lacks-append :
    (b : ℕ) (s t : Bytes) → lacks b s ≡ true → lacks b t ≡ true → lacks b (s ++ t) ≡ true
lacks-append b [] t h g = g
lacks-append b (c ∷ s) t h g = ground (arith, lacks-append b s t)

pub take-all : (n : ℕ) (s : Bytes) → length s ≤ n → take n s ≡ s
take-all zero [] h = refl
take-all (suc n) [] h = refl
take-all zero (c ∷ s) h = absurd (omega arith)
take-all (suc n) (c ∷ s) h = ap (λ t. c ∷ t) (take-all n s (omega arith))

pub c_str-all : (s : Bytes) → lacks 0 s ≡ true → c_str s ≡ s
c_str-all [] h = refl
c_str-all (c ∷ s) h = ground (arith, c_str-all s)

pub lacks-render :
    (cap : ℕ) (fs : Fields) → keys_ok fs ≡ true → AllFit cap fs → lacks 0 (render fs) ≡ true
lacks-render cap [] h fit = refl
lacks-render cap ((key, value) ∷ fs) h (f, fit) =
    let rest = lacks-render cap fs (ground arith) fit in
    let behind = lacks-append 0 value (newline ∷ []) (ground arith) refl in
    lacks-append 0 (line key value) (render fs)
      (lacks-append 0 key (b'=' ∷ (value ++ newline ∷ [])) (ground arith) (ground arith)) rest

AllFit-Clean : (cap : ℕ) (fs : Fields) → keys_ok fs ≡ true → AllFit cap fs → Clean fs
AllFit-Clean cap [] h fit = tt
AllFit-Clean cap ((key, value) ∷ fs) h (f, fit) =
    (ground arith, lacks→Lacks newline value (ground arith), AllFit-Clean cap fs (ground arith) fit)

-- A file that was written line by line and is shorter than the buffer is read whole.
buffered-document :
    (room cap : ℕ) (comment : Bytes) (fs : Fields)
    → fits cap comment ≡ true
    → keys_ok fs ≡ true
    → AllFit cap fs
    → length comment + total fs + 2 < room
    → buffered room (document comment fs) ≡ document comment fs
buffered-document room cap comment fs one ok fit short =
    let text = comment ++ newline ∷ render fs in
    let clean =
      lacks-append 0 comment (newline ∷ render fs) (ground arith)
        (ground (arith, lacks-render cap fs ok fit)) in
    ap c_str (
      take-all (room - 1) (b'#' ∷ text)
        (omega (arith, length-append comment (newline ∷ render fs), length-render fs)))
    ∙ c_str-all (b'#' ∷ text) (ground arith)

pub clip-fits : (cap : ℕ) (s : Bytes) → fits cap s ≡ true → clip cap s ≡ s
clip-fits cap s h = take-all (cap - 1) s (ground arith)

lacks-AllDigits : (b : ℕ) (s : Bytes) → b < b'0' → AllDigits s → lacks b s ≡ true
lacks-AllDigits b [] small all = refl
lacks-AllDigits b (c ∷ s) small (is, all) = ground (arith, lacks-AllDigits b s small all)

pub length-decimal : (n : ℕ) → length (decimal n) ≤ 20
unfolding decimal
length-decimal n = omega (arith, digits_from-length 20 n [])

pub decimal-fits : (n : ℕ) → fits 64 (decimal n) ≡ true
unfolding decimal
decimal-fits n =
    let all = digits_from-AllDigits 20 n [] tt in
    ground (
      arith,
      lacks-AllDigits newline (decimal n) (omega arith) all,
      lacks-AllDigits 0 (decimal n) (omega arith) all,
      length-decimal n,
    )

pub length-print_int : (z : ℤ) → length (print_int z) ≤ 21
length-print_int (pos n) = omega (arith, length-decimal n)
length-print_int (negsuc n) = omega (arith, length-decimal (suc n))

pub print_int-fits : (z : ℤ) → fits 64 (print_int z) ≡ true
print_int-fits (pos n) = decimal-fits n
print_int-fits (negsuc n) = ground (arith, decimal-fits (suc n), length-decimal (suc n))

pub fits-length : (cap : ℕ) (s : Bytes) → fits cap s ≡ true → length s < cap
fits-length cap s f = ground arith

pub fits-wider : (cap wide : ℕ) (s : Bytes) → cap ≤ wide → fits cap s ≡ true → fits wide s ≡ true
fits-wider cap wide s h f = ground arith

-- What a file of fields is read back as, through a buffer that has room for it.
module _ (room cap : ℕ) (comment : Bytes) (fs : Fields) (one : fits cap comment ≡ true)
    (ok : keys_ok fs ≡ true) (fit : AllFit cap fs)
    (short : length comment + total fs + 2 < room) where
  found :
      (key v : Bytes) (n : ℕ)
      → is_key key ≡ true
      → value_of key fs ≡ some v
      → fits n v ≡ true
      → find_field (buffered room (document comment fs)) key n ≡ some v
  found key v n h e small = rw (buffered-document room cap comment fs one ok fit short) (
      find_field-document comment key n fs h (lacks→Lacks newline comment (ground arith))
        (AllFit-Clean cap fs ok fit)
      ∙ ap (clipped n) e
      ∙ ap some (clip-fits n v small))

  pub text_back :
      (key v : Bytes) (n : ℕ)
      → is_key key ≡ true
      → value_of key fs ≡ some v
      → fits n v ≡ true
      → field_text (buffered room (document comment fs)) key n ≡ v
  text_back key v n h e small = ap or_empty (found key v n h e small)

  pub int_back :
      (key : Bytes) (z def : ℤ)
      → is_key key ≡ true
      → value_of key fs ≡ some (print_int z)
      → IsInt z
      → field_int (buffered room (document comment fs)) key def ≡ z
  unfolding field_int
  int_back key z def h e int =
      rw (found key (print_int z) 64 h e (print_int-fits z), field_int)
        (to_int-strtol-print_int z int)

  pub word_back :
      (key : Bytes) (n : ℕ) (def : ℤ)
      → is_key key ≡ true
      → value_of key fs ≡ some (decimal n)
      → n < 2 ^ 32
      → low_word (field_int (buffered room (document comment fs)) key def) ≡ n
  unfolding field_int
  word_back key n def h e small =
      rw (found key (decimal n) 64 h e (decimal-fits n), field_int)
        (low_word-to_int-strtol-decimal n small)

  pub u64_back :
      (key : Bytes) (n def : ℕ)
      → is_key key ≡ true
      → value_of key fs ≡ some (decimal n)
      → n < 2 ^ 64
      → field_u64 (buffered room (document comment fs)) key def ≡ n
  unfolding field_u64
  u64_back key n def h e small =
      rw (found key (decimal n) 64 h e (decimal-fits n), field_u64) (strtoull-decimal n small)

  -- The same for `atoi`.
  pub atoi_back :
      (key : Bytes) (z def : ℤ)
      → is_key key ≡ true
      → value_of key fs ≡ some (print_int z)
      → IsInt z
      → field_atoi (buffered room (document comment fs)) key def ≡ z
  unfolding field_atoi
  atoi_back key z def h e int =
      rw (found key (print_int z) 64 h e (print_int-fits z), field_atoi) (atoi-print_int z int)
