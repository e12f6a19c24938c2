-- ===== src/Db/KeyRecord.antt =====
-- A record of the key files as one ReadAt of 128 bytes finds it: getRecordReadAt of
-- internal/db/io/real_key_file.go, and what real_key_file2.go shares with it.
pub mod Blob
pub mod Layout
use scouter_server_go.Common.{
  ℕ, ◌+◌, ◌-◌, ◌^◌, ◌==◌, Bool, not, List, [], ◌∷◌, ◌++◌, length, leb, ltb, if◌then◌else◌,
}
use scouter_server_go.Protocol.Input.{int5, big_endian_uint}
use scouter_server_go.Db.Files.{
  File, Outcome, ok, err, end_of_file, bad_offset, beyond_buffer, truncated_length, padded, slice,
  read_at, ◌>>=◌,
}

pub record KeyRecord : Type 0 where
  pub deleted : Bool
  pub prev_pos : ℕ
  pub time_key : List ℕ
  pub data_pos : List ℕ
  pub offset : ℕ

-- The rest of a blob: what the buffer of `n` bytes has of it, and a further ReadAt for what it lacks.
unfoldable pub blob_tail : ℕ → ℕ → ℕ → ℕ → List ℕ → File → Outcome (List ℕ)
blob_tail pos n off blob_len buf raf =
    if leb (off + blob_len) n
    then ok (slice off blob_len buf)
    else (let copied = if ltb off n then n - off else 0 in
        let more = read_at (blob_len - copied) (pos + n) raf in
        if ltb copied blob_len
        then (if length more == blob_len - copied
            then ok (slice off copied buf ++ more)
            else err end_of_file)
        else ok (slice off copied buf))

-- The length bytes behind the prefix at `off`, and the number of them.
unfoldable pub blob_length : ℕ → ℕ → ℕ → List ℕ → Outcome (ℕ × ℕ)
blob_length prefix n off buf =
    if prefix == 255
    then (if ltb n (off + 2)
        then err truncated_length
        else ok (big_endian_uint (slice off 2 buf), 2))
    else if prefix == 254
    then (if ltb n (off + 4)
        then err truncated_length
        else ok (big_endian_uint (slice off 4 buf), 4))
    else ok (prefix, 0)

-- Key, blob and the end of the record, from the two length bytes of the key at `off` on.
pub record KeyAndBlob : Type 0 where
  pub key : List ℕ
  pub blob : List ℕ
  pub end_off : ℕ

unfoldable pub key_and_blob : ℕ → ℕ → ℕ → List ℕ → File → Outcome KeyAndBlob
key_and_blob pos n off buf raf =
    let key_len = big_endian_uint (slice off 2 buf) in
    let key_off = off + 2 in
    if ltb n (key_off + key_len + 1)
    then err beyond_buffer
    else (let key = slice key_off key_len buf in
        let blob_off = key_off + key_len + 1 in
        let prefix = big_endian_uint (slice (key_off + key_len) 1 buf) in
        if prefix == 0 then ok (record { key = key; blob = []; end_off = blob_off }) else (do
          (blob_len, width) ← blob_length prefix n blob_off buf
          blob ← blob_tail pos n (blob_off + width) blob_len buf raf
          ok (record { key = key; blob = blob; end_off = blob_off + width + blob_len })))

abbrev pub window : ℕ
window = 128

unfoldable pub key_record : ℕ → List ℕ → KeyAndBlob → KeyRecord
key_record pos buf r = record {
  deleted = not (big_endian_uint (slice 0 1 buf) == 0);
  prev_pos = int5 (slice 1 5 buf);
  time_key = r.key;
  data_pos = r.blob;
  offset = pos + r.end_off;
}

-- A negative offset and a short header are errors of ReadAt.
unfoldable pub get_record_read_at : ℕ → File → Outcome KeyRecord
get_record_read_at pos raf =
    if leb (2 ^ 63) pos
    then err bad_offset
    else (let found = read_at window pos raf in
        let n = length found in
        let buf = padded window found in
        if ltb n 8
        then err end_of_file
        else (do r ← key_and_blob pos n 6 buf raf; ok (key_record pos buf r)))
