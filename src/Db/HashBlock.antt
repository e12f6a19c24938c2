-- ===== src/Db/HashBlock.antt =====
-- MemHashBlock of internal/db/io/mem_hash_block.go: the table of five-byte values, with the file
-- that Flush writes and Reload reads.
pub mod Laws
use scouter_server_go.Common.{
  ℕ, ◌+◌, ◌-◌, ◌*◌, ◌/◌, ◌%◌, ◌^◌, ◌==◌, Bool, true, false, Option, List, [], ◌∷◌, ◌++◌, length,
  drop, leb, ltb, none, some, if◌then◌else◌,
}
use scouter_server_go.Protocol.Output.{bytes4, bytes5}
use scouter_server_go.Protocol.Word.{to_byte, to_i32, sar_i64, i64_of_i32}
use scouter_server_go.Protocol.Input.{int5, big_endian_uint}
use scouter_server_go.Db.Files.{Outcome, ok, panic, padded, slice, overwrite, ◌>>=◌}

-- memHeadReserved and keyLength
abbrev pub mem_head_reserved : ℕ
mem_head_reserved = 1024

abbrev pub key_length : ℕ
key_length = 5

-- `file` is what stands on the disk under the block's name, if anything does.
pub record MemHashBlock : Type 0 where
  pub file : Option (List ℕ)
  pub buf : List ℕ
  pub buf_size : ℕ
  pub count : ℕ
  pub capacity : ℕ
  pub dirty : Bool

-- `Int5(buf[pos:])` and `PutInt5(buf[pos:], v)`, which panic behind the end of the buffer.
unfoldable pub int5_at : ℕ → List ℕ → Outcome ℕ
int5_at pos buf = if leb (pos + 5) (length buf) then ok (int5 (slice pos 5 buf)) else panic

unfoldable pub put_int5 : ℕ → ℕ → List ℕ → Outcome (List ℕ)
put_int5 pos v buf = if leb (pos + 5) (length buf) then ok (overwrite pos (bytes5 v) buf) else panic

-- `int(Int32(buf[4:]))` of a buffer that holds the reserved head.
unfoldable pub stored_count : List ℕ → ℕ
stored_count buf = i64_of_i32 (big_endian_uint (slice 4 4 buf))

unfoldable pub loaded : List ℕ → MemHashBlock
loaded bytes = record {
  file = some bytes;
  buf = bytes;
  buf_size = length bytes - mem_head_reserved;
  count = stored_count bytes;
  capacity = (length bytes - mem_head_reserved) / key_length;
  dirty = false;
}

-- A file that is missing or shorter than the head is one to be made.
unfoldable pub created : Option (List ℕ) → ℕ → MemHashBlock
created file mem_size = record {
  file = file;
  buf = padded (mem_head_reserved + mem_size) (0xca ∷ 0xfe ∷ []);
  buf_size = mem_size;
  count = 0;
  capacity = mem_size / key_length;
  dirty = false;
}

unfoldable pub open_block : Option (List ℕ) → ℕ → MemHashBlock
open_block none mem_size = created none mem_size
open_block (some bytes) mem_size =
    if ltb (length bytes) mem_head_reserved then created (some bytes) mem_size else loaded bytes

-- `int(keyHash&0x7FFFFFFF) % capacity` of an int32.
unfoldable pub bucket : MemHashBlock → ℕ → ℕ
bucket m key_hash = key_hash % 2 ^ 31 % m.capacity

-- A remainder by zero panics.
unfoldable pub offset : MemHashBlock → ℕ → Outcome ℕ
offset m key_hash =
    if m.capacity == 0 then panic else ok (key_length * bucket m key_hash + mem_head_reserved)

unfoldable pub get : ℕ → MemHashBlock → Outcome ℕ
get key_hash m = do pos ← offset m key_hash; int5_at pos m.buf

unfoldable pub add_count : ℕ → MemHashBlock → MemHashBlock
add_count n m =
    let total = (m.count + n) % 2 ^ 64 in
    record m { count = total; buf = overwrite 4 (bytes4 (to_i32 total)) m.buf }

unfoldable pub set_value : ℕ → ℕ → MemHashBlock → Outcome MemHashBlock
set_value pos v m = do buf ← put_int5 pos v m.buf; ok (record m { buf = buf; dirty = true })

unfoldable pub put : ℕ → ℕ → MemHashBlock → Outcome MemHashBlock
put key_hash value m = do
  pos ← offset m key_hash
  old ← int5_at pos m.buf
  set_value pos value (if old == 0 then add_count 1 m else m)

unfoldable pub flush : MemHashBlock → MemHashBlock
flush m = if m.dirty then record m { file = some m.buf; dirty = false } else m

-- A file that cannot be read is an error, one shorter than the head changes nothing.
unfoldable pub reload : MemHashBlock → Option MemHashBlock
reload m = elim m.file [
  | none ↦ none
  | some bytes ↦ some (if ltb (length bytes) mem_head_reserved then m else loaded bytes)
]

-- Close: what is left on the disk.
unfoldable pub close : MemHashBlock → Option (List ℕ)
close m = (flush m).file
