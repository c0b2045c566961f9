-- ===== src/Tests/Files.antt =====
-- A file system for the tests: the files that were written, the last one first. Every file can be
-- written and every directory made.
use fantastic_octo_meme.Prelude.{
  false, subst, ap, ◌≡◌, refl, true, List, [], ◌∷◌, Option, none, some, if◌then◌else◌,
}
use fantastic_octo_meme.Memory.{Bytes}
use fantastic_octo_meme.Text.{same_text}
use fantastic_octo_meme.Text.Same.{same_text-itself}
use fantastic_octo_meme.Files.{FileSystem}

abbrev pub Written : Type 0
Written = List (Bytes × Bytes)

abbrev pub read_file : Written → Bytes → Option Bytes
read_file [] path = none
read_file ((p, content) ∷ rest) path =
    if same_text p path then some content else read_file rest path

abbrev written_or : Written → Option Written → Written
written_or f none = f
written_or f (some g) = g

pub read_file-written :
    (f g : Written) (path content : Bytes)
    → some ((path, content) ∷ f) ≡ some g
    → read_file g path ≡ some content
read_file-written f g path content e =
    let first : read_file ((path, content) ∷ f) path ≡ some content =
      rw (same_text-itself path) refl in
    subst (λ g. read_file g path ≡ some content) (ap (written_or f) e) first

abbrev pub disk : FileSystem Written
disk = record {
  read = read_file;
  write = λ f path content. some ((path, content) ∷ f);
  mkdir = λ f path. (f, true);
  read-write = read_file-written;
}

pub disk-writes :
    (f : Written) (path content : Bytes) → (g : Written) × (disk.write f path content ≡ some g)
disk-writes f path content = ((path, content) ∷ f, refl)

pub disk-other :
    (f g : Written) (path other content : Bytes)
    → same_text path other ≡ false
    → disk.write f path content ≡ some g
    → disk.read g other ≡ disk.read f other
disk-other f g path other content differ e =
    let skipped : read_file ((path, content) ∷ f) other ≡ read_file f other = rw differ refl in
    subst (λ g. read_file g other ≡ read_file f other) (ap (written_or f) e) skipped

pub disk-mkdir :
    (f : Written) (dir path content : Bytes)
    → disk.read f path ≡ some content
    → disk.read (disk.mkdir f dir).0 path ≡ some content
disk-mkdir f dir path content h = h

-- An environment without variables.
abbrev pub no_variables : Bytes → Option Bytes
no_variables name = none
