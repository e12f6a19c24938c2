-- ===== src/Examples/Db.antt =====
-- The theorems on internal/db/io and internal/util at concrete inputs.
use scouter_server_go.Common.{ℕ, ◌+◌, ◌≡◌, false, List, [], ◌∷◌, ◌++◌, none, some, arith, refl}
use scouter_server_go.Util.Hash.{hash_bytes}
use scouter_server_go.Util.HashTable.{crc32, hash_bytes-eq-crc32}
use scouter_server_go.Db.Files.{ok, err, beyond_buffer, bytes_equal}
use scouter_server_go.Db.KeyRecord.{get_record_read_at}
use scouter_server_go.Db.KeyFile.{file_length, open_key_file, record_bytes}
use scouter_server_go.Db.KeyFile.Entry.{Entry}
use scouter_server_go.Db.KeyFile.LongKeys.{get_record_read_at-record_bytes}
use scouter_server_go.Db.IndexKey.{IndexKeyFile, open_index, get, put, get_all, delete, close}
use scouter_server_go.Db.IndexKey.Chains.{live_entry, IsIndex, head_pos, slot}
use scouter_server_go.Db.IndexKey.Insert.{HasRoom, put-Answers, get-put, get_all-put}
use scouter_server_go.Db.IndexKey.Opening.{open_index-IsIndex, get-put_reopened}
use scouter_server_go.Db.IndexKey.Marks.{live_count}
use scouter_server_go.Db.IndexKey.Deletion.{get-delete}
use scouter_server_go.Db.IndexKeyScan.{read, stat}
use scouter_server_go.Db.IndexKeyScan.Sweep.{
  onto, calls_of, oldest_first, deleted_count, read-calls,
}
use scouter_server_go.Db.IndexKeyScan.Counts.{in_bucket, buckets_in_use, stat-put}
use scouter_server_go.Db.HashBlock.{open_block, created}

-- A new index of one megabyte, and a key with a value.
abbrev empty : IndexKeyFile
empty = open_index none [] 1

abbrev key : List ℕ
key = 1 ∷ 2 ∷ []

abbrev value : List ℕ
value = 0 ∷ 0 ∷ 0 ∷ 1 ∷ 9 ∷ []

empty-HasRoom : HasRoom empty key value
unfolding open_index open_key_file file_length
empty-HasRoom = record { key_small = omega arith; value_small = omega arith; room = omega arith }

abbrev one : IndexKeyFile
one = (put (some key) (some value) empty).1

abbrev entry_one : Entry
entry_one = record {
  deleted = false;
  prev_pos = head_pos empty.hash_block.capacity (slot empty.hash_block.capacity key) [];
  key = key;
  value = value;
}

one-IsIndex : IsIndex one (entry_one ∷ [])
one-IsIndex = (put-Answers empty [] (open_index-IsIndex 1) key value empty-HasRoom).index

get-put_example : (get (some key) (put (some key) (some value) empty).1).0 ≡ ok (some value)
unfolding bytes_equal
get-put_example = get-put empty [] key value key (open_index-IsIndex 1) empty-HasRoom

get_all-put_example :
    (out : List (List ℕ)) × ((get_all (some key) empty).0 ≡ ok out)
    × ((get_all (some key) (put (some key) (some value) empty).1).0 ≡ ok (value ∷ out))
unfolding bytes_equal
get_all-put_example = get_all-put empty [] key value key (open_index-IsIndex 1) empty-HasRoom

get-delete_example :
    ((get (some key) (delete (some key) one).1).0 ≡ ok none)
    × ((delete (some key) one).0 ≡ ok 1)
    × ((delete (some key) (delete (some key) one).1).0 ≡ ok 0)
unfolding bytes_equal live_count live_entry
get-delete_example = get-delete one (entry_one ∷ []) key key one-IsIndex

read-calls_example : (read one).0 ≡ ((key, value) ∷ [], ok tt)
unfolding calls_of oldest_first onto
read-calls_example = read-calls one (entry_one ∷ []) one-IsIndex

stat-put_example :
    ((stat (put (some key) (some value) empty).1).0.count
        + (stat (put (some key) (some value) empty).1).0.deleted
      ≡ 1)
    × ((stat (put (some key) (some value) empty).1).0.deleted ≡ 0)
    × ((stat (put (some key) (some value) empty).1).0.scatter ≡ 1)
unfolding deleted_count buckets_in_use in_bucket open_index open_block created
stat-put_example = stat-put empty [] key value (open_index-IsIndex 1) refl empty-HasRoom

get-put_reopened_example :
    let g = (put (some key) (some value) empty).1 in
    (get (some key) (open_index (close g).0 (close g).1 1)).0 ≡ ok (some value)
unfolding bytes_equal
get-put_reopened_example =
    get-put_reopened empty [] key value key 1 (open_index-IsIndex 1) empty-HasRoom

abbrev long_key : List ℕ
long_key =
    1 ∷ 1 ∷ 1 ∷ 1 ∷ 1 ∷ 1 ∷ 1 ∷ 1 ∷ 1 ∷ 1 ∷ 1 ∷ 1 ∷ 1 ∷ 1 ∷ 1 ∷ 1 ∷ 1 ∷ 1 ∷ 1 ∷ 1 ∷ 1 ∷ 1 ∷ 1 ∷ 1
    ∷ 1 ∷ 1 ∷ 1 ∷ 1 ∷ 1 ∷ 1 ∷ 1 ∷ 1 ∷ 1 ∷ 1 ∷ 1 ∷ 1 ∷ 1 ∷ 1 ∷ 1 ∷ 1 ∷ 1 ∷ 1 ∷ 1 ∷ 1 ∷ 1 ∷ 1 ∷ 1 ∷ 1
    ∷ 1 ∷ 1 ∷ 1 ∷ 1 ∷ 1 ∷ 1 ∷ 1 ∷ 1 ∷ 1 ∷ 1 ∷ 1 ∷ 1 ∷ 1 ∷ 1 ∷ 1 ∷ 1 ∷ 1 ∷ 1 ∷ 1 ∷ 1 ∷ 1 ∷ 1 ∷ 1 ∷ 1
    ∷ 1 ∷ 1 ∷ 1 ∷ 1 ∷ 1 ∷ 1 ∷ 1 ∷ 1 ∷ 1 ∷ 1 ∷ 1 ∷ 1 ∷ 1 ∷ 1 ∷ 1 ∷ 1 ∷ 1 ∷ 1 ∷ 1 ∷ 1 ∷ 1 ∷ 1 ∷ 1 ∷ 1
    ∷ 1 ∷ 1 ∷ 1 ∷ 1 ∷ 1 ∷ 1 ∷ 1 ∷ 1 ∷ 1 ∷ 1 ∷ 1 ∷ 1 ∷ 1 ∷ 1 ∷ 1 ∷ 1 ∷ 1 ∷ 1 ∷ 1 ∷ 1 ∷ 1 ∷ 1 ∷ 1 ∷ 1
    ∷ []

get_record_read_at-record_bytes_example :
    get_record_read_at 2
      (record { content = (0xca ∷ 0xfe ∷ []) ++ (record_bytes 0 long_key value ++ []); cursor = 0 })
    ≡ err beyond_buffer
get_record_read_at-record_bytes_example =
    get_record_read_at-record_bytes (0xca ∷ 0xfe ∷ []) long_key value [] 0 0 (omega arith)
      (omega arith) (omega arith) (omega arith)

hash_bytes-eq-crc32_example : hash_bytes (115 ∷ 99 ∷ 111 ∷ []) ≡ crc32 (115 ∷ 99 ∷ 111 ∷ [])
hash_bytes-eq-crc32_example =
    hash_bytes-eq-crc32 (115 ∷ 99 ∷ 111 ∷ []) (omega arith, (omega arith, (omega arith, tt)))
