-- ===== src/Config/Files/Tests.antt =====
-- Exports on a disk that is a map of files.
use narwhal_td.Base.{
  be_bytes, ℕ, ◌≡◌, refl, true, Option, none, some, [], ◌∷◌, arith, ◌==◌, if◌then◌else◌,
}
use narwhal_td.Base.Map
use narwhal_td.Base.Map.{Map, or_default, lookup-insert}
use narwhal_td.Base.Results.{ok, err}
use narwhal_td.Config.{import_error}
use narwhal_td.Base.Bytes.{be_bytes-IsBytes}
use narwhal_td.Crypto.Encoding.{Base64}
use narwhal_td.Crypto.Keys.{Dalek}
use narwhal_td.Config.Files.Keys.{read_key_pair-write_key_pair}
use narwhal_td.Config.Files.{
  new_key_pair, write_key_pair, read_key_pair, FileSystem, Json, Bytes, import_file, export_file,
}
use narwhal_td.Config.Files.Content.{
  IsWritable, concat, overwrite, export_file-content, import_file-export_file,
}

abbrev Disk : Type 0
Disk = Map Bytes

abbrev files : FileSystem Disk
files = record {
  fs_read = λ path disk. Map.lookup path disk;
  open_create_write =
      λ path disk. some (Map.insert path (or_default [] (Map.lookup path disk)) disk);
  write_buffered = λ path pieces disk. (
    true,
    Map.insert path (overwrite (concat pieces) (or_default [] (Map.lookup path disk))) disk,
  );
}

lookup-insert-same :
    (path : ℕ) (content : Bytes) (disk : Disk)
    → Map.lookup path (Map.insert path content disk) ≡ some content
lookup-insert-same path content disk = ground (arith, lookup-insert path path content disk)

abbrev read_number : Bytes → Option ℕ
read_number (n ∷ m ∷ []) = if m == 10 then some n else none
read_number _ = none

files-IsWritable : IsWritable files
files-IsWritable = record {
  opens = λ path disk. (
    _,
    refl,
    ground (arith, lookup-insert path path (or_default [] (Map.lookup path disk)) disk),
  );
  writes = λ path pieces disk old e.
      (_, refl, rw e (lookup-insert-same path (overwrite (concat pieces) old) disk));
}

-- The text of a number is one byte; a text is read with its newline and with nothing after it.
abbrev json : Json ℕ
json = record { to_string_pretty = λ n. some (n ∷ []); from_slice = read_number }

abbrev disk : Disk
disk = (1, 8 ∷ 10 ∷ []) ∷ (2, 8 ∷ 10 ∷ 9 ∷ []) ∷ []

export_file-content_example :
    (after : Disk) × (export_file files json 7 2 disk ≡ (ok tt, after))
    × (files.fs_read 2 after ≡ some (7 ∷ 10 ∷ 9 ∷ []))
unfolding Map.lookup
export_file-content_example = export_file-content files json 7 (7 ∷ []) 2 disk files-IsWritable refl

import_file-export_file_example :
    (after : Disk) × (export_file files json 7 1 disk ≡ (ok tt, after))
    × (import_file files json 1 after ≡ ok 7)
unfolding Map.lookup
import_file-export_file_example =
    import_file-export_file files json 7 (7 ∷ []) 1 disk files-IsWritable refl refl (omega arith)

-- What is left of a longer file spoils the text.
spoiled : import_file files json 2 (export_file files json 7 2 disk).1 ≡ err (import_error 2)
unfolding import_file export_file Map.lookup Map.insert
spoiled = refl

abbrev dalek : Dalek
dalek = record { public_bytes = λ rng. be_bytes 32 rng; pair_bytes = λ rng. be_bytes 64 rng }

abbrev base64 : Base64
base64 = record { encode = λ bytes. bytes; decode = λ s. some s }

read_key_pair-write_key_pair_example :
    read_key_pair base64 (write_key_pair base64 (new_key_pair dalek 300))
    ≡ ok (new_key_pair dalek 300)
read_key_pair-write_key_pair_example =
    read_key_pair-write_key_pair base64 dalek 300 (be_bytes-IsBytes 32 300)
      (be_bytes-IsBytes 64 300) (λ bytes. refl)
