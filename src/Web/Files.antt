-- ===== src/Web/Files.antt =====
-- What the controllers rely on of files and commands.
use opn_box.Base.{◌≡◌, true, false, some, List, Bytes, if◌then◌else◌, bytes_eq}
use opn_box.Controller.{Host, file_exists}

module _ (host : Host) where
  open host use {World, read, write, make_dir, command}

  -- A write that succeeds replaces the file and leaves the others alone.
  abbrev pub KeepsFiles : Type 0
  KeepsFiles =
      (w : World) (path content : Bytes)
      → (write w path content).1 ≡ true
      → (other : Bytes)
      → read (write w path content).0 other
        ≡ (if bytes_eq path other then some content else read w other)

  -- A write, also one that fails, leaves the other files alone.
  abbrev pub KeepsOthers : Type 0
  KeepsOthers =
      (w : World) (path content other : Bytes)
      → bytes_eq path other ≡ false
      → read (write w path content).0 other ≡ read w other

  -- A command leaves a file alone.
  abbrev pub IsQuietAt : Bytes → Type 0
  IsQuietAt path = (w : World) (args : List Bytes) → read (command w args).0 path ≡ read w path

  -- A file that can be read is a file.
  abbrev pub IsReadable : Type 0
  IsReadable =
      (w : World) (path content : Bytes)
      → read w path ≡ some content
      → file_exists host w path ≡ true

  -- A write that succeeds leaves a file. A write leaves the other files files, and so does the making of
  -- a directory, which makes none.
  pub record KeepsStats : Type 0 where
    pub readable : IsReadable
    pub made :
        (w : World) (path content : Bytes)
        → (write w path content).1 ≡ true
        → file_exists host (write w path content).0 path ≡ true
    pub others :
        (w : World) (path content other : Bytes)
        → bytes_eq path other ≡ false
        → file_exists host (write w path content).0 other ≡ file_exists host w other
    pub quiet :
        (w : World) (dir path : Bytes)
        → file_exists host (make_dir w dir) path ≡ file_exists host w path
