-- ===== src/Storage.antt =====
-- server/storage/storage.go: LocalBackend, the files of its directory as a list of contents by key.
-- filepath.Join is a parameter; os.Create, io.Copy, os.Open and os.Remove are the calls that can fail.
use moebius.Prelude.{
  String, Bool, true, false, ◌==◌, ◌||◌, Option, none, some, List, ◌∷◌, find, delete, if◌then◌else◌,
  ◌>>=◌,
}
use moebius.Models.Files.{Bytes}
use moebius.Database.{Env, create_file, copy_early, copy_file, open_file, remove_file}

pub record Stored : Type 0 where
  pub key : String
  pub content : Bytes

abbrev pub has_key : String → Stored → Bool
has_key key s = s.key == key

-- os.Create fails, or io.Copy before it has read everything: Save returns, and does not read on.
abbrev pub stops_reading : Env → Bool
stops_reading env = env.fault create_file || env.fault copy_early

-- os.Create has emptied the file and io.Copy failed after it had written `copied`: the file is
-- removed, and where os.Remove fails too, which Save ignores, what was written stays.
unfoldable pub discard : (Env → Bytes) → Env → String → List Stored → List Stored
unfolding delete
discard copied env key files =
    if env.fault remove_file
    then record { key = key; content = copied env } ∷ delete (has_key key) files
    else delete (has_key key) files

-- Save, on the bytes that the reader yields, or `none` where the reader reports an error.
-- The first result is the path, or the error.
unfoldable pub save :
    (String → String)
    → (Env → Bytes)
    → Env
    → String
    → Option Bytes
    → List Stored
    → Option String × List Stored
unfolding delete discard
save path copied env key given files =
    if env.fault create_file
    then (none, files)
    else if env.fault copy_early
    then (none, discard copied env key files)
    else elim given [
      | none ↦ (none, discard copied env key files)
      | some content ↦ if env.fault copy_file then (none, discard copied env key files) else (
        some (path key),
        record { key = key; content = content } ∷ delete (has_key key) files,
      )
    ]

-- Open; `none` is the error.
unfoldable pub open_stored : Env → String → List Stored → Option Bytes
unfolding find
open_stored env key files =
    if env.fault open_file then none else do s ← find (has_key key) files; some s.content

-- Delete: whether it succeeds, and the files. A file that does not exist is no error.
unfoldable pub remove : Env → String → List Stored → Bool × List Stored
unfolding delete
remove env key files =
    if env.fault remove_file then (false, files) else (true, delete (has_key key) files)
