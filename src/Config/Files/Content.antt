-- ===== src/Config/Files/Content.antt =====
-- What a file holds after an export, and what an import makes of it.
use mathlib.Core.List.{append-nil}
use narwhal_td.Base.{
  ℕ, zero, suc, ◌+◌, ◌≤◌, ◌≡◌, refl, ap, ◌∙◌, true, some, List, [], ◌∷◌, ◌++◌, arith, length,
  length-append,
}
use narwhal_td.Base.Map.{or_default}
use narwhal_td.Base.Results.{ok}
use narwhal_td.Crypto.{drop_bytes}
use narwhal_td.Config.{FilePath}
use narwhal_td.Config.Files.{FileSystem, Json, Bytes, newline, import_file, export_file}

-- The pieces, one after the other.
abbrev pub concat : List Bytes → Bytes
concat [] = []
concat (x ∷ xs) = x ++ concat xs

-- What is written from the start of a file takes the place of as many bytes; the others stay.
abbrev pub overwrite : Bytes → Bytes → Bytes
overwrite bytes old = bytes ++ drop_bytes (length bytes) old

-- A file system on which nothing fails: opening a file keeps what it holds, or makes it empty, and what
-- is written is written from its start.
pub record IsWritable {Disk : Type 0} (fs : FileSystem Disk) : Type 0 where
  pub opens :
      (path : FilePath) (disk : Disk)
      → (opened : Disk) × (fs.open_create_write path disk ≡ some opened)
        × (fs.fs_read path opened ≡ some (or_default [] (fs.fs_read path disk)))
  pub writes :
      (path : FilePath) (pieces : List Bytes) (disk : Disk) (old : Bytes)
      → fs.fs_read path disk ≡ some old
      → (after : Disk) × (fs.write_buffered path pieces disk ≡ (true, after))
        × (fs.fs_read path after ≡ some (overwrite (concat pieces) old))

drop_bytes-all : (n : ℕ) (xs : Bytes) → length xs ≤ n → drop_bytes n xs ≡ []
drop_bytes-all zero [] h = refl
drop_bytes-all zero (x ∷ xs) h = absurd (omega (arith, h))
drop_bytes-all (suc n) [] h = refl
drop_bytes-all (suc n) (x ∷ xs) h = drop_bytes-all n xs (omega (arith, h))

-- On a file system where nothing fails, an export of a value that `serde_json` can write succeeds, and the
-- file then holds the text and a newline, followed by what the file held before from that length on.
pub export_file-content :
    {A Disk : Type 0} (fs : FileSystem Disk) (json : Json A) (a : A) (text : Bytes)
    (path : FilePath) (disk : Disk)
    → IsWritable fs
    → json.to_string_pretty a ≡ some text
    → (after : Disk) × (export_file fs json a path disk ≡ (ok tt, after))
      × (fs.fs_read path after
          ≡ some (overwrite (text ++ newline) (or_default [] (fs.fs_read path disk))))
unfolding export_file
export_file-content fs json a text path disk writable e =
    let (opened, op, held) = writable.opens path disk in
    let (after, wrote, now) = writable.writes path (text ∷ newline ∷ []) opened _ held in
    (after, rw (op, export_file) (rw e (rw wrote refl)), now)

-- On a file system where nothing fails, importing a file right after an export to it returns the value that
-- was exported, if the file was not longer than the text and a newline, or was not there, and `serde_json`
-- reads the text back with the newline after it.
pub import_file-export_file :
    {A Disk : Type 0} (fs : FileSystem Disk) (json : Json A) (a : A) (text : Bytes)
    (path : FilePath) (disk : Disk)
    → IsWritable fs
    → json.to_string_pretty a ≡ some text
    → json.from_slice (text ++ newline) ≡ some a
    → length (or_default [] (fs.fs_read path disk)) ≤ length text + 1
    → (after : Disk) × (export_file fs json a path disk ≡ (ok tt, after))
      × (import_file fs json path after ≡ ok a)
unfolding import_file
import_file-export_file fs json a text path disk writable e back short =
    let (after, exported, now) = export_file-content fs json a text path disk writable e in
    let gone =
      drop_bytes-all (length (text ++ newline)) (or_default [] (fs.fs_read path disk))
        (omega (arith, short, length-append text newline)) in
    let held =
      now ∙ ap some (ap (λ rest. (text ++ newline) ++ rest) gone ∙ append-nil (text ++ newline)) in
    (after, exported, rw held (rw back refl))
