-- ===== src/Db/IndexKey.antt =====
-- IndexKeyFile of internal/db/io/index_key_file.go: the chains of records whose heads the hash block
-- holds. A nil slice is `none`.
pub mod Chains
pub mod Walk
pub mod Lookup
pub mod Answers
pub mod Insert
pub mod Opening
pub mod Marks
pub mod Removal
pub mod Deletion
use scouter_server_go.Common.{
  ℕ, zero, suc, ◌+◌, ◌*◌, ◌^◌, ◌≡◌, ◌==◌, ◌&&◌, ◌||◌, Bool, true, false, not, Option, none, some,
  List, [], ◌∷◌, ◌++◌, length, ltb, if◌then◌else◌,
}
use scouter_server_go.Protocol.Word.{positive_i64, less_i64}
use scouter_server_go.Protocol.Input.{int5}
use scouter_server_go.Util.Hash.{hash_bytes}
use scouter_server_go.Db.Files.{Outcome, ok, err, panic, stuck, invalid_key, bytes_equal}
use scouter_server_go.Db.KeyRecord.{KeyRecord}
use scouter_server_go.Db.HashBlock
use scouter_server_go.Db.HashBlock.{MemHashBlock}
use scouter_server_go.Db.KeyFile.{
  RealKeyFile, Op, return, ◌>>=◌, ◌>>◌, open_key_file, append, update, get_record, is_deleted,
  get_time_key, set_delete, get_prev_pos, first_pos, file_length,
}
use scouter_server_go.Db.KeyFile

pub record IndexKeyFile : Type 0 where
  pub hash_block : MemHashBlock
  pub key_file : RealKeyFile

abbrev pub default_hash_size_mb : ℕ
default_hash_size_mb = 1

abbrev pub mb : ℕ
mb = 1048576

-- The two files under the index's name; a size of 0 stands for every size that is not positive.
unfoldable pub open_index : Option (List ℕ) → List ℕ → ℕ → IndexKeyFile
open_index hfile kfile hash_size_mb = record {
  hash_block =
      HashBlock.open_block hfile
        ((if hash_size_mb == 0 then default_hash_size_mb else hash_size_mb) * mb);
  key_file = open_key_file kfile;
}

-- A record that counts for a key.
unfoldable pub live_for : List ℕ → KeyRecord → Bool
live_for key r = not r.deleted && bytes_equal r.time_key key

-- An operation of the index on its key file alone.
unfoldable pub on_key_file {ℓ} : {A : Type ℓ} → Op A → IndexKeyFile → Outcome A × IndexKeyFile
on_key_file m f = let r = m f.key_file in (r.0, record f { key_file = r.1 })

-- What follows the value of the bucket.
unfoldable pub from_head {ℓ} :
    {A : Type ℓ} → List ℕ → (ℕ → Op A) → IndexKeyFile → Outcome A × IndexKeyFile
unfolding on_key_file
from_head key m f = elim (HashBlock.get (hash_bytes key) f.hash_block) [
  | ok pos ↦ on_key_file (m pos) f
  | err e ↦ (err e, f)
  | panic ↦ (panic, f)
  | stuck ↦ (stuck, f)
]

abbrev pub linked_head :
    Outcome ℕ × RealKeyFile → ℕ → IndexKeyFile → Outcome (Unit {0}) × IndexKeyFile
linked_head (ok new_pos, kf) key_hash f = elim (HashBlock.put key_hash new_pos f.hash_block) [
  | ok hb ↦ (ok tt, record { hash_block = hb; key_file = kf })
  | err e ↦ (err e, record f { key_file = kf })
  | panic ↦ (panic, record f { key_file = kf })
  | stuck ↦ (stuck, record f { key_file = kf })
]
linked_head (err e, kf) key_hash f = (err e, record f { key_file = kf })
linked_head (panic, kf) key_hash f = (panic, record f { key_file = kf })
linked_head (stuck, kf) key_hash f = (stuck, record f { key_file = kf })

unfoldable pub put_key : List ℕ → List ℕ → IndexKeyFile → Outcome (Unit {0}) × IndexKeyFile
put_key index_key data_offset f = elim (HashBlock.get (hash_bytes index_key) f.hash_block) [
  | ok prev_pos ↦
      linked_head (append prev_pos index_key data_offset f.key_file) (hash_bytes index_key) f
  | err e ↦ (err e, f)
  | panic ↦ (panic, f)
  | stuck ↦ (stuck, f)
]

unfoldable pub put :
    Option (List ℕ) → Option (List ℕ) → IndexKeyFile → Outcome (Unit {0}) × IndexKeyFile
put (some index_key) (some data_offset) f = put_key index_key data_offset f
put _ _ f = (err invalid_key, f)

unfoldable pub update_head :
    Option (List ℕ) → Option (List ℕ) → IndexKeyFile → Outcome Bool × IndexKeyFile
update_head (some key) (some value) f = from_head key (λ pos. update pos key value) f
update_head _ _ f = (err invalid_key, f)

-- The loops go on while the position is positive; a round is one unit of fuel.
unfoldable pub get_loop : ℕ → List ℕ → ℕ → Op (Option (List ℕ))
get_loop zero key pos f = (stuck, f)
get_loop (suc fuel) key pos f = elim (positive_i64 pos) [
  | false ↦ return none f
  | true ↦
      (get_record pos >>= λ r. λ g. elim (live_for key r) [
        | true ↦ return (some r.data_pos) g
        | false ↦ get_loop fuel key r.prev_pos g
      ])
        f
]

unfoldable pub has_key_loop : ℕ → List ℕ → ℕ → Op Bool
has_key_loop zero key pos f = (stuck, f)
has_key_loop (suc fuel) key pos f = elim (positive_i64 pos) [
  | false ↦ return false f
  | true ↦
      (get_record pos >>= λ r. λ g. elim (live_for key r) [
        | true ↦ return true g
        | false ↦ has_key_loop fuel key r.prev_pos g
      ])
        f
]

unfoldable pub get_all_loop : ℕ → List ℕ → List (List ℕ) → ℕ → Op (List (List ℕ))
get_all_loop zero key out pos f = (stuck, f)
get_all_loop (suc fuel) key out pos f = elim (positive_i64 pos) [
  | false ↦ return out f
  | true ↦
      (get_record pos >>= λ r.
      get_all_loop fuel key (if live_for key r then out ++ (r.data_pos ∷ []) else out) r.prev_pos)
        f
]

-- The body of the loop of Delete, up to the step to the previous record.
unfoldable pub delete_at : List ℕ → ℕ → ℕ → Op ℕ
delete_at key deleted pos = do
  is_del ← is_deleted pos
  if is_del then return deleted else (do
    o_key ← get_time_key pos
    if bytes_equal o_key key
        then (do set_delete pos true; return (deleted + 1))
        else return deleted)

unfoldable pub delete_loop : ℕ → List ℕ → ℕ → ℕ → Op ℕ
delete_loop zero key deleted pos f = (stuck, f)
delete_loop (suc fuel) key deleted pos f = elim (positive_i64 pos) [
  | false ↦ return deleted f
  | true ↦
      (do n ← delete_at key deleted pos; prev ← get_prev_pos pos; delete_loop fuel key n prev) f
]

-- A chain of records goes backwards in the file and a record has 9 bytes at least, so there are
-- fewer rounds than bytes.
unfoldable pub fuel_of : IndexKeyFile → ℕ
fuel_of f = suc (file_length f.key_file)

unfoldable pub get : Option (List ℕ) → IndexKeyFile → Outcome (Option (List ℕ)) × IndexKeyFile
get none f = (err invalid_key, f)
get (some key) f = from_head key (get_loop (fuel_of f) key) f

unfoldable pub has_key : Option (List ℕ) → IndexKeyFile → Outcome Bool × IndexKeyFile
has_key none f = (err invalid_key, f)
has_key (some key) f = from_head key (has_key_loop (fuel_of f) key) f

unfoldable pub get_all : Option (List ℕ) → IndexKeyFile → Outcome (List (List ℕ)) × IndexKeyFile
get_all none f = (err invalid_key, f)
get_all (some key) f = from_head key (get_all_loop (fuel_of f) key []) f

unfoldable pub delete : Option (List ℕ) → IndexKeyFile → Outcome ℕ × IndexKeyFile
delete none f = (err invalid_key, f)
delete (some key) f = from_head key (delete_loop (fuel_of f) key 0) f

unfoldable pub reload : IndexKeyFile → Option IndexKeyFile
reload f = elim (HashBlock.reload f.hash_block) [
  | none ↦ none
  | some hb ↦ some (record f { hash_block = hb })
]

-- Close: the two files that are left.
unfoldable pub close : IndexKeyFile → Option (List ℕ) × List ℕ
close f = (HashBlock.close f.hash_block, KeyFile.close f.key_file)
