-- ===== src/Db/KeyFile/LongKeys.antt =====
-- What getRecordReadAt of internal/db/io/real_key_file.go makes of a record whose key is too long
-- for its buffer of 128 bytes, which Append writes all the same.
use scouter_server_go.Common.{
  ℕ, ◌+◌, ◌≤◌, ◌<◌, ◌^◌, ◌≡◌, refl, ap, ◌∙◌, true, false, List, ◌++◌, length, arith, drop, leb, ltb,
  length-append, length-take, drop-append_length, le→ltb, lt→ltb,
}
use scouter_server_go.Protocol.Output.{bytes5}
use scouter_server_go.Protocol.Input.{big_endian_uint}
use scouter_server_go.Db.Files.{File, err, beyond_buffer, slice, read_at}
use scouter_server_go.Db.KeyRecord.{key_and_blob, get_record_read_at, window}
use scouter_server_go.Db.KeyRecord.Blob.{window_at, found_at, slice-padded}
use scouter_server_go.Db.KeyRecord.Layout.{IsValue}
use scouter_server_go.Db.KeyFile.{record_bytes}
use scouter_server_go.Db.KeyFile.Entry.{
  Entry, entry_bytes, written_entry, record_bytes-entry, length-entry_bytes,
}

module _ (pos : ℕ) (raf : File) (e : Entry) (rest : List ℕ)
    (stands : drop pos raf.content ≡ entry_bytes e ++ rest) (long : 120 ≤ length e.key)
    (short : length e.key < 2 ^ 16) where
  found_window : found_at pos raf ≡ 128
  found_window =
      length-take window (drop pos raf.content)
        (omega (arith, ap length stands, length-append (entry_bytes e) rest, length-entry_bytes e))

  key_length_read : big_endian_uint (slice 6 2 (window_at pos raf)) ≡ length e.key
  unfolding entry_bytes bytes5
  key_length_read =
      ap big_endian_uint (
        slice-padded window (drop pos raf.content) 6 2 (omega (arith, found_window))
        ∙ ap (slice 6 2) stands)
      ∙ omega arith

  rejected : pos < 2 ^ 63 → get_record_read_at pos raf ≡ err beyond_buffer
  unfolding get_record_read_at read_at key_and_blob
  rejected h =
      let a : leb (2 ^ 63) pos ≡ false = ground arith in
      let b : ltb (found_at pos raf) 8 ≡ false =
        le→ltb (found_at pos raf) 8 (omega (arith, found_window)) in
      let c : ltb (found_at pos raf) (6 + 2 + length e.key + 1) ≡ true =
        lt→ltb (found_at pos raf) (6 + 2 + length e.key + 1) (omega (arith, found_window)) in
      rw (a, b, key_length_read, c) refl

-- A record that Append lays out for a key of 120 up to 65535 bytes is refused by getRecordReadAt,
-- wherever it stands in the file and whatever its value: the key does not fit the buffer.
pub get_record_read_at-record_bytes :
    (before k v after : List ℕ) (p cursor : ℕ)
    → 120 ≤ length k
    → length k < 2 ^ 16
    → IsValue v
    → length before < 2 ^ 63
    → get_record_read_at
        (length before)
        (record { content = before ++ (record_bytes p k v ++ after); cursor = cursor })
      ≡ err beyond_buffer
get_record_read_at-record_bytes before k v after p cursor long short hv h =
    rejected (length before) _ (written_entry p k v) after
      (drop-append_length before (record_bytes p k v ++ after)
        ∙ ap (λ (x : List ℕ). x ++ after) (record_bytes-entry p k v short hv))
      long short h
