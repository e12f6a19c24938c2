-- ===== src/Db/KeyFile/Entry.antt =====
-- A record of internal/db/io/real_key_file.go as Append writes it and GetRecord reads it.
use scouter_server_go.Common.{
  ℕ, ◌+◌, ◌^◌, ◌≤◌, ◌<◌, ◌≡◌, refl, sym, ap, ◌∙◌, ◌==◌, Bool, true, false, not, List, [], ◌∷◌, ◌++◌,
  length, take, drop, arith, leb, ltb, inl, inr, length-append, drop-drop, append_assoc, le→ltb,
}
use scouter_server_go.Protocol.Output.{
  ◌⨾◌, output_bytes, new_output, write, write_boolean, write_byte, write_long5, write_int16,
  write_short_bytes, bytes5,
}
use scouter_server_go.Protocol.Input.{big_endian_uint}
use scouter_server_go.Protocol.WordCodec.{IsLong5, int5-bytes5}
use scouter_server_go.Db.Files.{File, ok, slice, read_at}
use scouter_server_go.Db.KeyRecord.{KeyRecord, key_record, get_record_read_at, window}
use scouter_server_go.Db.KeyRecord.Blob.{window_at, found_at, slice-padded, length-found}
use scouter_server_go.Db.KeyRecord.Layout.{
  IsKey, IsValue, key_bytes, blob_bytes, key_and_blob_lem, write_blob-bytes,
}
use scouter_server_go.Db.KeyFile.{record_bytes}

-- What a record says, without the place where it ends.
pub record Entry : Type 0 where
  pub deleted : Bool
  pub prev_pos : ℕ
  pub key : List ℕ
  pub value : List ℕ

abbrev pub flag : Bool → ℕ
flag true = 1
flag false = 0

abbrev pub entry_head : Entry → List ℕ
entry_head e = flag e.deleted ∷ bytes5 e.prev_pos

unfoldable pub entry_bytes : Entry → List ℕ
entry_bytes e = entry_head e ++ (key_bytes e.key ++ blob_bytes e.value)

-- Keys that fit the window, values whose length fits four bytes, positions that fit five.
pub record IsEntry (e : Entry) : Type 0 where
  pub key_small : IsKey e.key
  pub value_small : IsValue e.value
  pub position : IsLong5 e.prev_pos

abbrev pub written_entry : ℕ → List ℕ → List ℕ → Entry
written_entry p k v = record { deleted = false; prev_pos = p; key = k; value = v }

pub record_bytes-entry :
    (p : ℕ) (k v : List ℕ)
    → length k < 2 ^ 16
    → IsValue v
    → record_bytes p k v ≡ entry_bytes (written_entry p k v)
unfolding record_bytes output_bytes new_output ◌⨾◌ write_boolean write_byte write_long5
    write_short_bytes write_int16 write entry_bytes bytes5
record_bytes-entry p k v hk hv = write_blob-bytes v _ hv ∙ ground arith

pub length-entry_bytes :
    (e : Entry) → length (entry_bytes e) ≡ 6 + (2 + length e.key + length (blob_bytes e.value))
unfolding entry_bytes bytes5
length-entry_bytes e = omega (arith, length-append (key_bytes e.key) (blob_bytes e.value))

pub flag_back : (d : Bool) → not (big_endian_uint (flag d ∷ []) == 0) ≡ d
flag_back true = refl
flag_back false = refl

-- The record that GetRecord returns for an entry at a position.
abbrev pub record_at : ℕ → Entry → KeyRecord
record_at pos e = record {
  deleted = e.deleted;
  prev_pos = e.prev_pos;
  time_key = e.key;
  data_pos = e.value;
  offset = pos + length (entry_bytes e);
}

module _ (pos : ℕ) (raf : File) (e : Entry) (rest : List ℕ) (valid : IsEntry e)
    (stands : drop pos raf.content ≡ entry_bytes e ++ rest) where
  key_stands : drop (pos + 6) raf.content ≡ key_bytes e.key ++ (blob_bytes e.value ++ rest)
  unfolding entry_bytes bytes5
  key_stands =
      drop-drop pos 6 raf.content
      ∙ ap (drop 6) stands
      ∙ append_assoc (key_bytes e.key) (blob_bytes e.value) rest

  found_head : 8 ≤ found_at pos raf
  unfolding entry_bytes bytes5
  found_head = elim (length-found window (drop pos raf.content)) [
    | inl p ↦ omega (arith, p)
    | inr p ↦ omega (arith, p, ap length stands, length-append (entry_bytes e) rest)
  ]

  flag_read : slice 0 1 (window_at pos raf) ≡ flag e.deleted ∷ []
  unfolding entry_bytes
  flag_read =
      slice-padded window (drop pos raf.content) 0 1 (omega (arith, found_head))
      ∙ ap (take 1) stands

  prev_read : slice 1 5 (window_at pos raf) ≡ bytes5 e.prev_pos
  unfolding entry_bytes bytes5
  prev_read =
      slice-padded window (drop pos raf.content) 1 5 (omega (arith, found_head))
      ∙ ap (slice 1 5) stands

  pub get_record_read_at-entry : pos < 2 ^ 63 → get_record_read_at pos raf ≡ ok (record_at pos e)
  unfolding get_record_read_at read_at key_record
  get_record_read_at-entry h =
      let a : leb (2 ^ 63) pos ≡ false = ground arith in
      let b : ltb (found_at pos raf) 8 ≡ false = le→ltb (found_at pos raf) 8 found_head in
      let k =
        key_and_blob_lem pos 6 raf e.key e.value rest key_stands (omega arith) valid.key_small
          valid.value_small in
      let ends : 6 + (2 + length e.key + length (blob_bytes e.value)) ≡ length (entry_bytes e) =
        sym (length-entry_bytes e) in
      rw (a, b, k, flag_read, prev_read)
        (rw (flag_back e.deleted, int5-bytes5 e.prev_pos valid.position, ends) refl)
