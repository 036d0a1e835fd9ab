-- ===== src/Tests/Files.antt =====
-- A host whose world is its files, for the controllers of cmd; a command does nothing and succeeds.
use opn_box.Base.{
  Option, none, some, Bool, false, bytes_eq_self, refl, ◌∙◌, true, [], Bytes, is_some,
}
use opn_box.Base.Dict.{Dict, lookup, put, remove, lookup-put}
use opn_box.Controller.{Host}
use opn_box.Web.Files.{KeepsFiles, KeepsOthers, IsQuietAt, IsReadable, KeepsStats}

abbrev as_file : Option Bytes → Option Bool
as_file none = none
as_file (some content) = some false

abbrev pub disk : Host
disk = record {
  World = Dict Bytes;
  read = λ w path. lookup path w;
  write = λ w path content. (put path content w, true);
  make_dir = λ w path. w;
  exists = λ w path. is_some (lookup path w);
  stat = λ w path. as_file (lookup path w);
  remove = λ w path. remove path w;
  link = λ w target path. w;
  command = λ w args. (w, true, []);
  sleep = λ w ms. w;
}

pub disk-KeepsFiles : KeepsFiles disk
disk-KeepsFiles w path content ok other = lookup-put path other content w

pub disk-KeepsOthers : KeepsOthers disk
disk-KeepsOthers w path content other h = lookup-put path other content w ∙ rw h refl

pub disk-IsQuietAt : (path : Bytes) → IsQuietAt disk path
disk-IsQuietAt path w args = refl

pub disk-IsReadable : IsReadable disk
disk-IsReadable w path content e = rw e refl

pub disk-KeepsStats : KeepsStats disk
disk-KeepsStats = record {
  readable = disk-IsReadable;
  made = λ w path content ok. rw (lookup-put path path content w, bytes_eq_self path) refl;
  others = λ w path content other h. rw (disk-KeepsOthers w path content other h) refl;
  quiet = λ w dir path. refl;
}
