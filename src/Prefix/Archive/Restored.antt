-- ===== src/Prefix/Archive/Restored.antt =====
-- What `cellar_prefix_restore` makes of an archive that `cellar_prefix_backup` wrote.
use fantastic_octo_meme.Prelude.{
  false, ℕ, zero, suc, ◌+◌, ◌-◌, ◌<◌, ◌≤◌, ◌≡◌, ◌∙◌, Bool, true, ◌&&◌, [], ◌∷◌, ◌++◌, length,
  Option, some, refl, ap, arith, Bool-cases, inl, inr, length-append,
}
use fantastic_octo_meme.Memory.{Bytes}
use fantastic_octo_meme.Status.{Status, err_invalid_argument}
use fantastic_octo_meme.Text.{codes, same_text}
use fantastic_octo_meme.Conf.Lookup.{append_assoc}
use fantastic_octo_meme.Files.{FileSystem, stored-ok}
use fantastic_octo_meme.Shell.{Shell}
use fantastic_octo_meme.Workspace.{valid_name}
use fantastic_octo_meme.Prefix.{prefix_path}
use fantastic_octo_meme.Prefix.Config.{prefix_create}
use fantastic_octo_meme.Prefix.Archive.{
  Entries, Files, walk, wr_u32, entry, entries, has_dots, round, finish, found, restore_loop,
  store_file, prefix_backup, prefix_restore,
}
use fantastic_octo_meme.Prefix.Archive.Stored.{left_at, store_all, read-store_all}
use fantastic_octo_meme.Prefix.Archive.Streams.{
  can_pass, is_path, round-entry, round-dots, round-end, round-short,
}

-- All files of an archive go through.
abbrev pub all_pass : (ℕ → Bool) → Files → Bool
all_pass granted [] = true
all_pass granted ((rel, content) ∷ es) = can_pass granted rel content && all_pass granted es

length-entries : (es : Files) → length es ≤ length (entries es)
length-entries [] = omega arith
length-entries ((rel, content) ∷ es) =
    omega (arith, length-entries es, length-append (entry rel content) (entries es))

module _ {F : Type 0} (os : FileSystem F) where
  -- One round.
  goes_on :
      (granted : ℕ → Bool) (fuel : ℕ) (fs : F) (bottle s rel content rest : Bytes)
      → round granted s ≡ found rel content rest
      → restore_loop os granted (suc fuel) fs bottle s
        ≡ restore_loop os granted fuel (store_file os fs bottle rel content) bottle rest
  unfolding restore_loop
  goes_on granted fuel fs bottle s rel content rest e = rw (e, restore_loop) refl

  stops :
      (granted : ℕ → Bool) (fuel : ℕ) (fs : F) (bottle s : Bytes) (st : Status)
      → 0 < fuel
      → round granted s ≡ finish st
      → restore_loop os granted fuel fs bottle s ≡ some (st, fs)
  unfolding restore_loop
  stops granted zero fs bottle s st pos e = absurd (omega arith)
  stops granted (suc fuel) fs bottle s st pos e = rw (e, restore_loop) refl

  -- The loop goes over files that pass, and on from there.
  loop-entries :
      (granted : ℕ → Bool) (bottle tail : Bytes) (es : Files) (fuel : ℕ) (fs : F)
      → all_pass granted es ≡ true
      → length es ≤ fuel
      → restore_loop os granted fuel fs bottle (entries es ++ tail)
        ≡ restore_loop os granted (fuel - length es) (store_all os fs bottle es) bottle tail
  unfolding store_all
  loop-entries granted bottle tail [] fuel fs h enough =
      let same : fuel - 0 ≡ fuel = omega arith in rw same refl
  loop-entries granted bottle tail ((rel, content) ∷ es) zero fs h enough = absurd (omega arith)
  loop-entries granted bottle tail ((rel, content) ∷ es) (suc fuel) fs h enough =
      let rest = entries es ++ tail in
      let this = round-entry granted rel content rest (ground arith) in
      let same : suc fuel - suc (length es) ≡ fuel - length es = omega arith in
      rw same (
        ap (restore_loop os granted (suc fuel) fs bottle)
          (append_assoc (entry rel content) (entries es) tail)
        ∙ goes_on granted fuel fs bottle (entry rel content ++ rest) rel content rest this
        ∙ loop-entries granted bottle tail es fuel (store_file os fs bottle rel content)
            (ground arith) (omega arith))

  -- An archive whose files pass up to a tail that ends the loop.
  loop-tail :
      (granted : ℕ → Bool) (bottle tail : Bytes) (es : Files) (fs : F) (st : Status)
      → all_pass granted es ≡ true
      → round granted tail ≡ finish st
      → restore_loop os granted (length (entries es ++ tail) + 1) fs bottle (entries es ++ tail)
        ≡ some (st, store_all os fs bottle es)
  loop-tail granted bottle tail es fs st h e =
      let fuel = length (entries es ++ tail) + 1 in
      let enough : length es < fuel =
        omega (arith, length-entries es, length-append (entries es) tail) in
      loop-entries granted bottle tail es fuel fs h (omega arith)
      ∙ stops granted (fuel - length es) (store_all os fs bottle es) bottle tail st (omega arith) e

  module _ (granted : ℕ → Bool) (fs : F) (sh : Shell) (root : Bytes) (name : Option Bytes)
      (archive : Bytes) (valid : valid_name name ≡ true) where
    -- The bottle that the files are put into, and the state before the first one.
    abbrev pub target : Bytes
    target = prefix_path 640 (some root) name

    abbrev pub created : F
    created = (prefix_create os fs sh (some root) name).0.1

    restored :
        (tail : Bytes) (es : Files) (st : Status)
        → os.read fs archive ≡ some (codes "CBK1" ++ (entries es ++ tail))
        → all_pass granted es ≡ true
        → round granted tail ≡ finish st
        → prefix_restore os granted fs sh (some root) name (some archive)
          ≡ some (st, store_all os created target es)
    unfolding prefix_restore same_text
    restored tail es st there h e =
        rw (valid, there) (loop-tail granted target tail es created st h e)

    -- A file whose path has two dots in a row anywhere, as the one of a file "a..b", ends the
    -- restoration into a bottle with a valid name with `CELLAR_ERR_INVALID_ARGUMENT`: of an archive
    -- as `cellar_prefix_backup` writes it, the files in front of it are stored, and neither it nor
    -- those behind it. Its path and those in front have from 1 to 511 bytes and no zero byte, the
    -- ones in front no two dots in a row, and there is memory for the contents in front, each below
    -- 2^32 bytes.
    pub restore_refuses_dots :
        (before after : Files) (rel content : Bytes)
        → os.read fs archive
          ≡ some (
              codes "CBK1"
              ++ (entries before ++ (entry rel content ++ (entries after ++ wr_u32 0))))
        → all_pass granted before ≡ true
        → is_path rel ≡ true
        → has_dots rel ≡ true
        → prefix_restore os granted fs sh (some root) name (some archive)
          ≡ some (err_invalid_argument, store_all os created target before)
    restore_refuses_dots before after rel content there h path dots =
        restored (entry rel content ++ (entries after ++ wr_u32 0)) before err_invalid_argument
          there h (round-dots granted rel content (entries after ++ wr_u32 0) path dots)

  -- A file can always be written, and neither a file that is written under another path nor a folder
  -- that is made changes it.
  module _ (writes : (f : F) (path content : Bytes) → (g : F) × (os.write f path content ≡ some g))
      (write-other : (f g : F) (path other content : Bytes)
        → same_text path other ≡ false
        → os.write f path content ≡ some g
        → os.read g other ≡ os.read f other)
      (mkdir-keeps : (f : F) (dir path content : Bytes)
        → os.read f path ≡ some content
        → os.read (os.mkdir f dir).0 path ≡ some content) where
    -- For a valid name of a bottle, an archive that breaks off between two files, with at most
    -- three bytes more, is restored with `CELLAR_OK`, and the files behind the end are not missed:
    -- each file in front of it can be read in the bottle with its content, under its path there cut
    -- at 1023 bytes, the last one of a path, and so can the files that were there when the bottle
    -- had been made, under other paths. The paths of the files in the archive have from 1 to 511
    -- bytes, no zero byte and no two dots in a row, and there is memory for the contents, each
    -- below 2^32 bytes. Every file can be written, and is changed neither by a write under another
    -- path nor by a folder that is made.
    pub restore_cut_off :
        (granted : ℕ → Bool) (fs : F) (sh : Shell) (root : Bytes) (name : Option Bytes)
        (archive : Bytes) (es : Files) (tail : Bytes)
        → valid_name name ≡ true
        → os.read fs archive ≡ some (codes "CBK1" ++ (entries es ++ tail))
        → all_pass granted es ≡ true
        → length tail < 4
        → let made = (prefix_create os fs sh (some root) name).0.1 in
          let bottle = prefix_path 640 (some root) name in
          (h : F) × (prefix_restore os granted fs sh (some root) name (some archive)
            ≡ some (Status.ok, h))
          × ((path content : Bytes)
              → left_at bottle path (os.read made path) es ≡ some content
              → os.read h path ≡ some content)
    restore_cut_off granted fs sh root name archive es tail valid there h short =
        let made = (prefix_create os fs sh (some root) name).0.1 in
        let bottle = prefix_path 640 (some root) name in
        (
          store_all os made bottle es,
          restored granted fs sh root name archive valid tail es Status.ok there h
              (round-short granted tail short),
          λ path content e.
              read-store_all os writes write-other mkdir-keeps made bottle path content es e,
        )

    -- `cellar_prefix_restore`, into a bottle with a valid name, of the archive that
    -- `cellar_prefix_backup` wrote with `CELLAR_OK` returns `CELLAR_OK`, and each file that the
    -- walk could read can then be read in that bottle with its content, under its path there cut at
    -- 1023 bytes, the last one where several have the path; so can the files that were there when
    -- the bottle had been made, under other paths. The paths of the files in the archive have from
    -- 1 to 511 bytes, no zero byte and no two dots in a row, and there is memory for the contents,
    -- each below 2^32 bytes. Every file can be written, and is changed neither by a write under
    -- another path nor by a folder that is made.
    pub restore-backup :
        (granted : ℕ → Bool) (fs g : F) (sh : Shell) (tree : Entries) (root : Bytes)
        (name other : Option Bytes) (archive : Bytes)
        → prefix_backup os fs tree (some root) name (some archive) ≡ (Status.ok, g)
        → valid_name other ≡ true
        → all_pass granted (walk [] tree) ≡ true
        → let made = (prefix_create os g sh (some root) other).0.1 in
          let bottle = prefix_path 640 (some root) other in
          (h : F) × (prefix_restore os granted g sh (some root) other (some archive)
            ≡ some (Status.ok, h))
          × ((path content : Bytes)
              → left_at bottle path (os.read made path) (walk [] tree) ≡ some content
              → os.read h path ≡ some content)
    unfolding prefix_backup
    restore-backup granted fs g sh tree root name other archive e valid h =
        elim (Bool-cases (valid_name name)) [
          | inr wrong ↦ let e' = rw wrong at e in absurd (cc)
          | inl named ↦
              let e' = rw named at e in
              let es = walk [] tree in
              let made = (prefix_create os g sh (some root) other).0.1 in
              let bottle = prefix_path 640 (some root) other in
              let stream = codes "CBK1" ++ (entries es ++ wr_u32 0) in
              let there =
                os.read-write fs g archive stream
                  (stored-ok fs g (os.write fs archive stream) e') in
              (
                store_all os made bottle es,
                restored granted g sh root other archive valid (wr_u32 0) es Status.ok there h
                    (round-end granted),
                λ path content e.
                    read-store_all os writes write-other mkdir-keeps made bottle path content es e,
              )
        ]
