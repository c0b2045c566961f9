-- ===== src/Locale/RoundTrip.antt =====
-- A text of a code page, in UTF-8 and back.
use fantastic_octo_meme.Prelude.{
  ℕ, zero, suc, ◌+◌, ◌<◌, ◌≡◌, ◌∙◌, Bool, true, false, not, ◌&&◌, ◌||◌, [], ◌∷◌, ◌++◌, length, ltb,
  leb, ◌==◌, some, refl, sym, ap, arith, Bool-cases, Option-cases, inl, inr,
}
use fantastic_octo_meme.Memory.{Bytes, AllBytes}
use fantastic_octo_meme.Text.{lacks}
use fantastic_octo_meme.Util.{c_str}
use fantastic_octo_meme.Conf.Back.{c_str-all, lacks-append}
use fantastic_octo_meme.Locale.{Locale}
use fantastic_octo_meme.Locale.Pages.{
  char_of, map_cp, encode, cp_from, cp_to_utf8, byte_for, value2, value3, leads2, leads3, decode_at,
  back_from, utf8_to_cp,
}

some_injective : {a b : Bytes} → some a ≡ some b → a ≡ b
some_injective e = ground (arith, e)

-- What the table of all bytes is to show: a byte comes back from the bytes of its character.
abbrev back_of : Bool → ℕ → Bytes → Bool
back_of w b [] = false
back_of w b (c ∷ []) = ltb c 0x80 && c == b
back_of w b (c ∷ c1 ∷ []) = not (ltb c 0x80) && (leads2 c && byte_for w (value2 c c1) == b)
back_of w b (c ∷ c1 ∷ c2 ∷ s) =
    not (ltb c 0x80)
    && (not (leads2 c) && (leads3 c && (byte_for w (value3 c c1 c2) == b && length s == 0)))

comes_back : Bool → ℕ → Bool
comes_back w b = back_of w b (encode (char_of w b)) && (b == 0 || lacks 0 (encode (char_of w b)))

-- The test holds of every number up to a bound.
pass_up_to : (ℕ → Bool) → ℕ → Bool
pass_up_to test zero = true
pass_up_to test (suc k) = elim (test k) [ false ↦ false | true ↦ pass_up_to test k ]

passes : (test : ℕ → Bool) (k b : ℕ) → pass_up_to test k ≡ true → b < k → test b ≡ true
unfolding pass_up_to
passes test zero b whole small = absurd (omega arith)
passes test (suc k) b whole small = elim (Bool-cases (test k)) [
  | inr wrong ↦ absurd (ground (arith, whole, wrong))
  | inl right ↦ ground (arith, right, whole, passes test k b)
]

table_1252 : pass_up_to (comes_back true) 256 ≡ true
unfolding pass_up_to comes_back char_of encode byte_for
table_1252 = refl

table_other : pass_up_to (comes_back false) 256 ≡ true
unfolding pass_up_to comes_back char_of encode byte_for
table_other = refl

byte_comes_back :
    (w : Bool) (b : ℕ)
    → b < 256
    → (back_of w b (encode (char_of w b)) && (b == 0 || lacks 0 (encode (char_of w b)))) ≡ true
unfolding comes_back
byte_comes_back true b h = passes (comes_back true) 256 b table_1252 h
byte_comes_back false b h = passes (comes_back false) 256 b table_other h

both : (a b : Bool) → (a && b) ≡ true → (a ≡ true) × (b ≡ true)
both a b h = (ground arith, ground arith)

-- What the loop does with the bytes of a character.
decode-one :
    (w : Bool) (b c : ℕ) (rest : Bytes) → back_of w b (c ∷ []) ≡ true → decode_at w c rest ≡ (b, 0)
unfolding decode_at
decode-one w b c [] h = ground arith
decode-one w b c (d ∷ []) h = ground arith
decode-one w b c (d ∷ e ∷ rest) h = ground arith

decode-two :
    (w : Bool) (b c c1 : ℕ) (rest : Bytes)
    → back_of w b (c ∷ c1 ∷ []) ≡ true
    → decode_at w c (c1 ∷ rest) ≡ (b, 1)
unfolding decode_at
decode-two w b c c1 [] h = ground arith
decode-two w b c c1 (d ∷ rest) h = ground arith

decode-three :
    (w : Bool) (b c c1 c2 : ℕ) (rest : Bytes)
    → back_of w b (c ∷ c1 ∷ c2 ∷ []) ≡ true
    → decode_at w c (c1 ∷ c2 ∷ rest) ≡ (b, 2)
unfolding decode_at
decode-three w b c c1 c2 rest h = ground arith

-- One round of the loop.
round :
    (w : Bool) (size o c b k : ℕ) (s : Bytes)
    → decode_at w c s ≡ (b, k)
    → o + 1 < size
    → back_from w size 0 o (c ∷ s) ≡ b ∷ back_from w size k (o + 1) s
unfolding back_from
round w size o c b k s e room =
    let there : ltb (o + 1) size ≡ true = ground arith in rw (there, e) refl

round_back :
    (w : Bool) (b size o : ℕ) (e rest : Bytes)
    → back_of w b e ≡ true
    → o + 1 < size
    → back_from w size 0 o (e ++ rest) ≡ b ∷ back_from w size 0 (o + 1) rest
unfolding back_from
round_back w b size o [] rest h room = absurd (cc)
round_back w b size o (c ∷ []) rest h room =
    round w size o c b 0 rest (decode-one w b c rest h) room
round_back w b size o (c ∷ c1 ∷ []) rest h room =
    round w size o c b 1 (c1 ∷ rest) (decode-two w b c c1 rest h) room
round_back w b size o (c ∷ c1 ∷ c2 ∷ []) rest h room =
    round w size o c b 2 (c1 ∷ c2 ∷ rest) (decode-three w b c c1 c2 rest h) room
round_back w b size o (c ∷ c1 ∷ c2 ∷ d ∷ s) rest h room = absurd (ground arith)

-- The bytes of a text.
encoded : Bool → Bytes → Bytes
encoded w [] = []
encoded w (b ∷ s) = encode (char_of w b) ++ encoded w s

back-encoded :
    (w : Bool) (size o : ℕ) (s : Bytes)
    → AllBytes s
    → o + length s < size
    → back_from w size 0 o (encoded w s) ≡ s
unfolding back_from encoded
back-encoded w size o [] all room = refl
back-encoded w size o (b ∷ s) (small, all) room =
    round_back w b size o (encode (char_of w b)) (encoded w s)
      (both _ _ (byte_comes_back w b small)).0 (omega arith)
    ∙ ap (λ t. b ∷ t) (back-encoded w size (o + 1) s all (omega arith))

lacks-encoded :
    (w : Bool) (s : Bytes) → AllBytes s → lacks 0 s ≡ true → lacks 0 (encoded w s) ≡ true
unfolding encoded
lacks-encoded w [] all h = refl
lacks-encoded w (b ∷ s) (small, all) h =
    let first = encode (char_of w b) in
    let text : (b == 0 || lacks 0 first) ≡ true =
      (both (back_of w b first) (b == 0 || lacks 0 first) (byte_comes_back w b small)).1 in
    let not_zero : (b == 0) ≡ false = ground arith in
    lacks-append 0 first (encoded w s) (rw not_zero at text) (lacks-encoded w s all (ground arith))

-- A page that neither stands for another nor is UTF-8.
abbrev pub is_own_page : ℕ → Bool
is_own_page cp = not (cp == 0) && (not (cp == 1) && not (cp == 65001))

map_cp-own :
    (loc : Locale) (cp b : ℕ) → is_own_page cp ≡ true → map_cp loc cp b ≡ char_of (cp == 1252) b
map_cp-own loc cp b h =
    let not_ansi : (cp == 0) ≡ false = ground arith in
    let not_oem : (cp == 1) ≡ false = ground arith in
    let not_utf8 : (cp == 65001) ≡ false = ground arith in rw (not_ansi, not_oem, not_utf8) refl

-- Where the loop does not give up, it puts the bytes of the text.
cp_from-encoded :
    (loc : Locale) (cp size o : ℕ) (s t : Bytes)
    → is_own_page cp ≡ true
    → cp_from loc cp size o s ≡ some t
    → t ≡ encoded (cp == 1252) s
unfolding cp_from encoded
cp_from-encoded loc cp size o [] t h e = cc
cp_from-encoded loc cp size o (b ∷ s) t h e =
    let m = map_cp-own loc cp b h in
    let first = encode (map_cp loc cp b) in
    let later = o + length first in
    elim (Bool-cases (leb size later)) [
      | inl no_room ↦ let e' = rw no_room at e in absurd (cc)
      | inr room ↦ elim (Option-cases (cp_from loc cp size later s)) [
        | inl none_left ↦ let e' = rw (room, none_left) at e in absurd (cc)
        | inr (u, is) ↦
            let e' = rw (room, is) at e in
            sym (some_injective e')
            ∙ ap (λ x. first ++ x) (cp_from-encoded loc cp size later s u h is)
            ∙ ap (λ x. encode x ++ encoded (cp == 1252) s) m
      ]
    ]

-- A text of code page 1252, of 437 or of any other page that is not the ANSI or the OEM page of the
-- locale or UTF-8: if `cellar_cp_to_utf8` has room for it, `cellar_utf8_to_cp` of its output is the
-- text again, in an array with room for the text and a zero. The text has no zero.
pub utf8_to_cp-cp_to_utf8 :
    (loc : Locale) (cp size size' : ℕ) (s t : Bytes)
    → is_own_page cp ≡ true
    → AllBytes s
    → lacks 0 s ≡ true
    → cp_to_utf8 loc cp (some s) size ≡ some t
    → length s < size'
    → utf8_to_cp loc cp (some t) size' ≡ some s
unfolding cp_to_utf8 utf8_to_cp
utf8_to_cp-cp_to_utf8 loc cp size size' s t h all text e room =
    let not_ansi : (cp == 0) ≡ false = ground arith in
    let not_utf8 : (cp == 65001) ≡ false = ground arith in
    let some_room : (size' == 0) ≡ false = ground arith in
    elim (Bool-cases (size == 0)) [
      | inl nowhere ↦ let e' = rw nowhere at e in absurd (cc)
      | inr somewhere ↦
          let e' = rw (somewhere, not_utf8) at e in
          let w = cp == 1252 in
          let is = cp_from-encoded loc cp size 0 s t h e' in
          let whole : c_str t ≡ encoded w s =
            ap c_str is ∙ c_str-all (encoded w s) (lacks-encoded w s all text) in
          rw (not_ansi, some_room, not_utf8, whole)
            (ap some (back-encoded w size' 0 s all (omega arith)))
    ]
