-- ===== src/Prefix/Settings/Kept.antt =====
-- What `cellar_prefix_get_setting` gives after `cellar_prefix_set_setting`.
use fantastic_octo_meme.Prelude.{
  ℕ, ◌+◌, ◌-◌, ◌<◌, ◌≡◌, ◌∙◌, Bool, true, false, not, ◌&&◌, List, [], ◌∷◌, ◌++◌, length, ◌==◌,
  Option, some, if◌then◌else◌, refl, sym, ap, arith, Bool-cases, inl, inr,
}
use fantastic_octo_meme.Memory.{Bytes}
use fantastic_octo_meme.Status.{Status}
use fantastic_octo_meme.Util.{c_str}
use fantastic_octo_meme.Text.{newline, clip, lacks, same_text}
use fantastic_octo_meme.Conf.{buffered, or_empty, line}
use fantastic_octo_meme.Conf.Lookup.{lacks→Lacks}
use fantastic_octo_meme.Conf.Back.{take-all, c_str-all, lacks-append}
use fantastic_octo_meme.Conf.Read.{lacks-take, lacks-c_str}
use fantastic_octo_meme.Files.{FileSystem, stored-ok}
use fantastic_octo_meme.Prefix.{prefix_path, conf_path}
use fantastic_octo_meme.Prefix.Config.{prefix_info, found}
use fantastic_octo_meme.Prefix.Settings.{
  lines_of, on_first, setting, has_key, replaced, new_line, rebuilt, get_setting, set_setting,
}
use fantastic_octo_meme.Prefix.Settings.Lines.{lines_of-rebuilt, setting-updated}

-- A key or value that stands on one line, without a zero.
abbrev pub one_line : Bytes → Bool
one_line s = lacks newline s && lacks 0 s

lacks-line :
    (key value : Bytes)
    → lacks 0 key ≡ true
    → lacks 0 value ≡ true
    → lacks 0 (line key value) ≡ true
lacks-line key value k v =
    let behind = lacks-append 0 value (newline ∷ []) v refl in
    lacks-append 0 key (b'=' ∷ (value ++ newline ∷ [])) k (ground arith)

-- No line has a zero.
abbrev AllText : List Bytes → Type 0
AllText [] = Unit {0}
AllText (l ∷ ls) = (lacks 0 l ≡ true) × AllText ls

on_first-AllText :
    (c : ℕ) (ls : List Bytes) → (c == 0) ≡ false → AllText ls → AllText (on_first c ls)
on_first-AllText c [] ne h = (ground arith, tt)
on_first-AllText c (l ∷ ls) ne (h, hs) = (ground arith, hs)

lines_of-AllText : (s : Bytes) → lacks 0 s ≡ true → AllText (lines_of s)
unfolding lines_of
lines_of-AllText [] h = tt
lines_of-AllText (c ∷ s) h =
    let ih = lines_of-AllText s (ground arith) in
    elim (Bool-cases (c == newline)) [
      | inl end ↦ rw end (refl, ih)
      | inr other ↦ rw other (on_first-AllText c (lines_of s) (ground arith) ih)
    ]

replaced-lacks :
    (key nline : Bytes) (ls : List Bytes)
    → lacks 0 nline ≡ true
    → AllText ls
    → lacks 0 (replaced key nline ls).0 ≡ true
unfolding replaced
replaced-lacks key nline [] n h = refl
replaced-lacks key nline (l ∷ ls) n (h, hs) =
    let rest = replaced-lacks key nline ls n hs in
    elim (Bool-cases (has_key key l)) [
      | inl old ↦ rw old (lacks-append 0 nline _ n rest)
      | inr other ↦ rw other (lacks-append 0 l _ h (ground arith))
    ]

rebuilt-lacks :
    (key value buf : Bytes)
    → lacks 0 key ≡ true
    → lacks 0 value ≡ true
    → lacks 0 buf ≡ true
    → lacks 0 (rebuilt key value buf) ≡ true
unfolding rebuilt
rebuilt-lacks key value buf k v b =
    let n = lacks-take 0 519 (line key value) (lacks-line key value k v) in
    let old = replaced-lacks key (new_line key value) (lines_of buf) n (lines_of-AllText buf b) in
    ground (
      arith,
      old,
      lacks-append 0 (replaced key (new_line key value) (lines_of buf)).0 (new_line key value) old
          n,
    )

pub buffered-short : (n : ℕ) (s : Bytes) → lacks 0 s ≡ true → length s < n → buffered n s ≡ s
buffered-short n s h k = ap c_str (take-all (n - 1) s (omega arith)) ∙ c_str-all s h

buffered-wider : (n m : ℕ) (s : Bytes) → length s < n → length s < m → buffered n s ≡ buffered m s
buffered-wider n m s h k =
    ap c_str (take-all (n - 1) s (omega arith) ∙ sym (take-all (m - 1) s (omega arith)))

-- What is read of a rebuilt file.
setting-rebuilt :
    (other key value bytes : Bytes)
    → lacks b'=' other ≡ true
    → lacks b'=' key ≡ true
    → one_line key ≡ true
    → one_line value ≡ true
    → length key + length value + 2 < 520
    → length bytes < 2048
    → length (rebuilt key value (buffered 4096 bytes)) < 2048
    → setting other (lines_of (buffered 2048 (rebuilt key value (buffered 4096 bytes))))
      ≡ (if same_text other key then some value else setting other (lines_of (buffered 2048 bytes)))
setting-rebuilt other key value bytes o k one_k one_v short small small' =
    let buf = buffered 4096 bytes in
    let whole =
      buffered-short 2048 (rebuilt key value buf)
        (rebuilt-lacks key value buf (ground arith) (ground arith) (lacks-c_str (clip 4096 bytes)))
        small' in
    rw (whole, sym (buffered-wider 4096 2048 bytes (omega arith) small))
      (ap (setting other) (
          lines_of-rebuilt key value buf (lacks→Lacks newline key (ground arith))
            (lacks→Lacks newline value (ground arith)) short)
        ∙ setting-updated other key value (lines_of buf) o k)

-- Both sides of a conditional under the reader.
value_or_kept :
    (b : Bool) (size : ℕ) (value : Bytes) (old : Option Bytes)
    → (let out : Status × Option Bytes =
          (Status.ok, some (clip size (or_empty (if b then some value else old)))) in
        out)
      ≡ (if b
          then (Status.ok, some (clip size value))
          else (Status.ok, some (clip size (or_empty old))))
value_or_kept true size value old = refl
value_or_kept false size value old = refl

module _ {F : Type 0} (os : FileSystem F) (is_dir : F → Bytes → Bool) where
  -- What `cellar_prefix_get_setting` gives for a file that is there.
  pub get_setting-read :
      (fs : F) (root name : Option Bytes) (key bytes : Bytes) (size : ℕ)
      → 0 < size
      → found (prefix_info os is_dir fs root name) ≡ true
      → os.read fs (conf_path (prefix_path 640 root name)) ≡ some bytes
      → get_setting os is_dir fs root name (some key) size
        ≡ (Status.ok, some (clip size (or_empty (setting key (lines_of (buffered 2048 bytes))))))
  unfolding get_setting
  get_setting-read fs root name key bytes size pos there read =
      let not_zero : (size == 0) ≡ false = ground arith in
      rw (not_zero, there, read, get_setting) refl

  -- After `cellar_prefix_set_setting` returned `CELLAR_OK`, `cellar_prefix_get_setting` gives the
  -- new value under the key, as much of it as the array holds, and under every other key what it
  -- gave before. The keys have no equals sign, key and value stand on one line of less than 520
  -- bytes, the file has less than 2048 bytes before and after, and the folder is still there.
  pub get-set :
      (fs g : F) (root name : Option Bytes) (key other value bytes : Bytes) (size : ℕ)
      → set_setting os is_dir fs root name (some key) (some value) ≡ (Status.ok, g)
      → found (prefix_info os is_dir g root name) ≡ true
      → os.read fs (conf_path (prefix_path 640 root name)) ≡ some bytes
      → 0 < size
      → lacks b'=' other ≡ true
      → lacks b'=' key ≡ true
      → one_line key ≡ true
      → one_line value ≡ true
      → length key + length value + 2 < 520
      → length bytes < 2048
      → length (rebuilt key value (buffered 4096 bytes)) < 2048
      → get_setting os is_dir g root name (some other) size ≡ (
          if same_text other key
          then (Status.ok, some (clip size value))
          else get_setting os is_dir fs root name (some other) size)
  unfolding set_setting
  get-set fs g root name key other value bytes size e there read pos o k one_k one_v short small
        small' =
      let path = conf_path (prefix_path 640 root name) in
      let was = prefix_info os is_dir fs root name in
      elim (Bool-cases (not (length key == 0) && found was)) [
        | inr refused ↦ let e' = rw refused at e in absurd (cc)
        | inl asked ↦
            let e' = rw (asked, read) at e in
            let after = rebuilt key value (buffered 4096 bytes) in
            let before = setting other (lines_of (buffered 2048 bytes)) in
            let back = os.read-write fs g path after (stored-ok fs g (os.write fs path after) e') in
            get_setting-read g root name other after size pos there back
            ∙ ap (λ v. (Status.ok, some (clip size (or_empty v))))
                (setting-rebuilt other key value bytes o k one_k one_v short small small')
            ∙ value_or_kept (same_text other key) size value before
            ∙ rw (get_setting-read fs root name other bytes size pos (ground arith) read) refl
      ]
