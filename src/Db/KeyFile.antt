-- ===== src/Db/KeyFile.antt =====
-- RealKeyFile of internal/db/io/real_key_file.go: records [deleted, prevPos, key, dataPos] behind one
-- another in a file, the newest ones in a buffer.
pub mod Entry
pub mod Log
pub mod Records
pub mod Positional
pub mod Marking
pub mod LongKeys
use scouter_server_go.Common.{
  ℕ, ◌+◌, ◌-◌, ◌*◌, ◌/◌, ◌%◌, ◌^◌, ◌==◌, Bool, true, false, not, Option, List, [], ◌∷◌, ◌++◌,
  length, drop, take, leb, ltb, none, some, if◌then◌else◌,
}
use scouter_server_go.Protocol.Output.{
  ◌⨾◌, output_bytes, write_boolean, write_long5, write_short_bytes, write_blob, bytes5,
}
use scouter_server_go.Protocol.Input.{int5, big_endian_uint}
use scouter_server_go.Protocol.Word.{less_i64}
use scouter_server_go.Db.Files.{
  File, FileError, Outcome, ok, err, panic, stuck, seek, seek_by, read, write,
}
use scouter_server_go.Db.KeyRecord.{KeyRecord, get_record_read_at}

-- kfileHeaderSize and appendBufThreshold
abbrev pub kfile_header_size : ℕ
kfile_header_size = 2

abbrev pub append_buf_threshold : ℕ
append_buf_threshold = 16384

pub record RealKeyFile : Type 0 where
  pub raf : File
  pub append_buf : List ℕ
  pub file_end : ℕ

-- An operation returns its outcome and the file as it leaves it, also where it fails.
abbrev pub Op {ℓ} : Type ℓ → Type ℓ
Op A = RealKeyFile → Outcome A × RealKeyFile

unfoldable pub return {ℓ} : {A : Type ℓ} → A → Op A
return a f = (ok a, f)

unfoldable pub fail {ℓ} : {A : Type ℓ} → FileError → Op A
fail e f = (err e, f)

abbrev pub run_with {ℓ κ} :
    {A : Type ℓ} {B : Type κ} → Outcome A × RealKeyFile → (A → Op B) → Outcome B × RealKeyFile
run_with (ok a, f) k = k a f
run_with (err e, f) k = (err e, f)
run_with (panic, f) k = (panic, f)
run_with (stuck, f) k = (stuck, f)

infixl 5 ◌>>=◌ ◌>>◌
unfoldable pub ◌>>=◌ {ℓ κ} : {A : Type ℓ} {B : Type κ} → Op A → (A → Op B) → Op B
◌>>=◌ m k f = run_with (m f) k

unfoldable pub ◌>>◌ {ℓ} : {B : Type ℓ} → Op (Unit {0}) → Op B → Op B
unfolding ◌>>=◌
m >> k = m >>= λ _. k

-- The calls on the os.File within.
abbrev pub moved : RealKeyFile → Outcome File → Outcome (Unit {0}) × RealKeyFile
moved f (ok raf) = (ok tt, record f { raf = raf })
moved f (err e) = (err e, f)
moved f panic = (panic, f)
moved f stuck = (stuck, f)

abbrev pub got : RealKeyFile → Outcome (List ℕ × File) → Outcome (List ℕ) × RealKeyFile
got f (ok (bytes, raf)) = (ok bytes, record f { raf = raf })
got f (err e) = (err e, f)
got f panic = (panic, f)
got f stuck = (stuck, f)

unfoldable pub raf_seek : ℕ → Op (Unit {0})
raf_seek pos f = moved f (seek pos f.raf)

unfoldable pub raf_seek_by : ℕ → Op (Unit {0})
raf_seek_by n f = (ok tt, record f { raf = seek_by n f.raf })

unfoldable pub raf_read : ℕ → Op (List ℕ)
raf_read n f = got f (read n f.raf)

unfoldable pub raf_write : List ℕ → Op (Unit {0})
raf_write b f = (ok tt, record f { raf = write b f.raf })

-- An empty file gets the two bytes of the header.
unfoldable pub open_key_file : List ℕ → RealKeyFile
open_key_file bytes =
    if length bytes == 0
    then record {
      raf = record { content = 0xca ∷ 0xfe ∷ []; cursor = 2 };
      append_buf = [];
      file_end = kfile_header_size;
    }
    else record {
      raf = record { content = bytes; cursor = 0 };
      append_buf = [];
      file_end = length bytes;
    }

unfoldable pub flush_append_buf : Op (Unit {0})
flush_append_buf f =
    if length f.append_buf == 0
    then return tt f
    else (raf_seek f.file_end >> raf_write f.append_buf >> λ g.
          return tt (record g { file_end = g.file_end + length g.append_buf; append_buf = [] }))
        f

unfoldable pub flush : RealKeyFile → RealKeyFile
flush f = (flush_append_buf f).1

unfoldable pub is_dirty : RealKeyFile → Bool
is_dirty f = ltb 0 (length f.append_buf)

-- A position on the disk is read without a flush.
unfoldable pub get_record : ℕ → Op KeyRecord
get_record pos f =
    if less_i64 pos f.file_end
    then (get_record_read_at pos f.raf, f)
    else (flush_append_buf >> λ g. (get_record_read_at pos g.raf, g)) f

-- The body of each case of the switch on the length byte.
unfoldable pub read_blob_body : ℕ → Op (List ℕ)
read_blob_body base_len =
    if base_len == 0
    then return []
    else if base_len == 255
    then (do len_buf ← raf_read 2; raf_read (big_endian_uint len_buf))
    else if base_len == 254
    then (do len_buf ← raf_read 4; raf_read (big_endian_uint len_buf))
    else raf_read base_len

unfoldable pub read_blob : Op (List ℕ)
read_blob = do b ← raf_read 1; read_blob_body (big_endian_uint b)

unfoldable pub is_deleted : ℕ → Op Bool
is_deleted pos = do
  flush_append_buf
  raf_seek pos
  b ← raf_read 1
  return (not (big_endian_uint b == 0))

unfoldable pub get_prev_pos : ℕ → Op ℕ
get_prev_pos pos = do flush_append_buf; raf_seek (pos + 1); buf ← raf_read 5; return (int5 buf)

unfoldable pub get_time_key : ℕ → Op (List ℕ)
get_time_key pos = do
  flush_append_buf
  raf_seek (pos + 1 + 5)
  len_buf ← raf_read 2
  raf_read (big_endian_uint len_buf)

unfoldable pub get_data_pos : ℕ → Op (List ℕ)
get_data_pos pos = do
  flush_append_buf
  raf_seek (pos + 1 + 5)
  len_buf ← raf_read 2
  raf_seek_by (big_endian_uint len_buf)
  read_blob

unfoldable pub set_delete : ℕ → Bool → Op (Unit {0})
set_delete pos deleted = do
  flush_append_buf
  raf_seek pos
  raf_write ((if deleted then 1 else 0) ∷ [])

unfoldable pub set_hash_link : ℕ → ℕ → Op (Unit {0})
set_hash_link pos value = do flush_append_buf; raf_seek (pos + 1); raf_write (bytes5 value)

-- What Append and Write make of a record.
unfoldable pub record_bytes : ℕ → List ℕ → List ℕ → List ℕ
record_bytes prev_pos index_key data_pos =
    output_bytes (
      write_boolean false
      ⨾ write_long5 prev_pos
      ⨾ write_short_bytes index_key
      ⨾ write_blob data_pos)

unfoldable pub write_internal : ℕ → ℕ → List ℕ → List ℕ → Op (Unit {0})
write_internal pos prev_pos index_key data_pos = do
  raf_seek pos
  raf_write (record_bytes prev_pos index_key data_pos)

unfoldable pub write_record : ℕ → ℕ → List ℕ → List ℕ → Op (Unit {0})
write_record pos prev_pos index_key data_pos = do
  flush_append_buf
  write_internal pos prev_pos index_key data_pos

-- The value is written over the old one where it is not longer.
unfoldable pub replace_blob : ℕ → ℕ → List ℕ → List ℕ → Op Bool
replace_blob pos key_len org value = if ltb (length org) (length value) then return false else (do
  raf_seek (pos + 1 + 5 + 2 + key_len)
  raf_write (output_bytes (write_blob value))
  return true)

unfoldable pub update : ℕ → List ℕ → List ℕ → Op Bool
update pos key value = do
  flush_append_buf
  raf_seek (pos + 1 + 5)
  len_buf ← raf_read 2
  raf_seek_by (big_endian_uint len_buf)
  org ← read_blob
  replace_blob pos (big_endian_uint len_buf) org value

unfoldable pub buffered : List ℕ → RealKeyFile → RealKeyFile
buffered bytes f = record f { append_buf = f.append_buf ++ bytes }

unfoldable pub append : ℕ → List ℕ → List ℕ → Op ℕ
append prev_pos index_key data_pos f =
    let pos = f.file_end + length f.append_buf in
    let g = buffered (record_bytes prev_pos index_key data_pos) f in
    if leb append_buf_threshold (length g.append_buf)
    then (flush_append_buf >> return pos) g
    else return pos g

abbrev pub first_pos : ℕ
first_pos = kfile_header_size

unfoldable pub file_length : RealKeyFile → ℕ
file_length f = f.file_end + length f.append_buf

-- Close: what is left on the disk.
unfoldable pub close : RealKeyFile → List ℕ
close f = (flush f).raf.content
