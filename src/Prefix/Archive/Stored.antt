-- ===== src/Prefix/Archive/Stored.antt =====
-- The files that the loop of `cellar_prefix_restore` leaves in the bottle.
use fantastic_octo_meme.Prelude.{
  subst, ◌≡◌, ◌∙◌, Bool, false, [], ◌∷◌, ◌++◌, ◌==◌, Bool-cases, inl, inr, Option, some, none,
  if◌then◌else◌,
}
use fantastic_octo_meme.Memory.{Bytes}
use fantastic_octo_meme.Text.{clip, same_text}
use fantastic_octo_meme.Text.Same.{same_text→eq}
use fantastic_octo_meme.Files.{FileSystem, trim_slashes, mkdirs_from, mkdir_p}
use fantastic_octo_meme.Workspace.{join}
use fantastic_octo_meme.Prefix.Archive.{Files, before_slash, make_parent, store_file}

-- What stands under a path after the files were put into a bottle one after the other, if `before`
-- stood there at first: the content of the last file with the path.
abbrev pub left_at : Bytes → Bytes → Option Bytes → Files → Option Bytes
left_at bottle path before [] = before
left_at bottle path before ((rel, content) ∷ es) =
    left_at bottle path (if same_text (join 1024 bottle rel) path then some content else before) es

module _ {F : Type 0} (os : FileSystem F) where
  -- The files are stored one after the other.
  unfoldable pub store_all : F → Bytes → Files → F
  store_all fs bottle [] = fs
  store_all fs bottle ((rel, content) ∷ es) =
      store_all (store_file os fs bottle rel content) bottle es

  -- A file can always be written, and neither a file that is written under another path nor a folder
  -- that is made changes it.
  module _ (writes : (f : F) (path content : Bytes) → (g : F) × (os.write f path content ≡ some g))
      (write-other : (f g : F) (path other content : Bytes)
        → same_text path other ≡ false
        → os.write f path content ≡ some g
        → os.read g other ≡ os.read f other)
      (mkdir-keeps : (f : F) (dir path content : Bytes)
        → os.read f path ≡ some content
        → os.read (os.mkdir f dir).0 path ≡ some content) where
    mkdirs-keeps :
        (f : F) (before s path content : Bytes)
        → os.read f path ≡ some content
        → os.read (mkdirs_from os f before s).0 path ≡ some content
    unfolding mkdirs_from
    mkdirs-keeps f before [] path content h = mkdir-keeps f before path content h
    mkdirs-keeps f before (c ∷ s) path content h = elim (Bool-cases (c == b'/')) [
      | inl slash ↦
          let made = os.mkdir f before in
          elim (Bool-cases made.1) [
            | inl there ↦
                rw (slash, there)
                  (mkdirs-keeps made.0 (before ++ c ∷ []) s path content
                    (mkdir-keeps f before path content h))
            | inr fails ↦ rw (slash, fails) (mkdir-keeps f before path content h)
          ]
      | inr letter ↦ rw letter (mkdirs-keeps f (before ++ c ∷ []) s path content h)
    ]

    mkdir_p-keeps :
        (f : F) (dir path content : Bytes)
        → os.read f path ≡ some content
        → os.read (mkdir_p os f dir).0 path ≡ some content
    unfolding mkdir_p
    mkdir_p-keeps f [] path content h = h
    mkdir_p-keeps f (c ∷ s) path content h = from_trimmed (trim_slashes (clip 1024 (c ∷ s)))
      where
        from_trimmed :
            (l : Bytes)
            → os.read
                (elim l as (λ l. F × Bool) [
                  | [] ↦ os.mkdir f []
                  | d ∷ t ↦ mkdirs_from os f (d ∷ []) t
                ]).0
                path
              ≡ some content
        from_trimmed [] = mkdir-keeps f [] path content h
        from_trimmed (d ∷ t) = mkdirs-keeps f (d ∷ []) t path content h

    parent-keeps :
        (f : F) (dir : Option Bytes) (path content : Bytes)
        → os.read f path ≡ some content
        → os.read (make_parent os f dir) path ≡ some content
    parent-keeps f none path content h = h
    parent-keeps f (some dir) path content h = mkdir_p-keeps f dir path content h

    store_file-left :
        (f : F) (bottle rel content path : Bytes) (before : Option Bytes)
        → ((c : Bytes) → before ≡ some c → os.read f path ≡ some c)
        → (c : Bytes)
        → (if same_text (join 1024 bottle rel) path then some content else before) ≡ some c
        → os.read (store_file os f bottle rel content) path ≡ some c
    unfolding store_file
    store_file-left f bottle rel content path before stood c e =
        let abs = join 1024 bottle rel in
        let made = make_parent os f (before_slash (clip 1024 abs)) in
        let (g, written) = writes made abs content in
        rw (written, store_file)
          (elim (Bool-cases (same_text abs path)) [
            | inl same ↦
                let first : some content ≡ some c = rw same at e in
                subst (λ p. os.read g p ≡ some c) (same_text→eq abs path same)
                  (os.read-write made g abs content written ∙ first)
            | inr other ↦
                let later : before ≡ some c = rw other at e in
                write-other made g abs path content other written
                ∙ parent-keeps f (before_slash (clip 1024 abs)) path c (stood c later)
          ])

    store_all-left :
        (bottle path : Bytes) (es : Files) (f : F) (before : Option Bytes)
        → ((c : Bytes) → before ≡ some c → os.read f path ≡ some c)
        → (c : Bytes) → left_at bottle path before es ≡ some c
        → os.read (store_all f bottle es) path ≡ some c
    unfolding store_all
    store_all-left bottle path [] f before stood c e = stood c e
    store_all-left bottle path ((rel, content) ∷ es) f before stood c e =
        store_all-left bottle path es (store_file os f bottle rel content) _
          (store_file-left f bottle rel content path before stood) c e

    -- Each file that the bottle holds before or that is stored can be read.
    pub read-store_all :
        (f : F) (bottle path content : Bytes) (es : Files)
        → left_at bottle path (os.read f path) es ≡ some content
        → os.read (store_all f bottle es) path ≡ some content
    read-store_all f bottle path content es e =
        store_all-left bottle path es f (os.read f path) (λ c h. h) content e
