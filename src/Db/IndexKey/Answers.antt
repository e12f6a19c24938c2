-- ===== src/Db/IndexKey/Answers.antt =====
-- Get, HasKey and GetAll of internal/db/io/index_key_file.go on an index that stands for a list of
-- records.
use scouter_server_go.Common.{ℕ, ◌<◌, ◌≡◌, ap, ◌∙◌, some, List, length, arith}
use scouter_server_go.Util.Hash.{hash_bytes}
use scouter_server_go.Db.Files.{Outcome, ok}
use scouter_server_go.Db.HashBlock.{MemHashBlock, bucket}
use scouter_server_go.Db.HashBlock
use scouter_server_go.Db.HashBlock.Laws.{get-value_of, bucket-lt}
use scouter_server_go.Db.KeyFile.{Op}
use scouter_server_go.Db.KeyFile.Entry.{Entry}
use scouter_server_go.Db.KeyFile.Records.{Gives}
use scouter_server_go.Db.IndexKey.{
  IndexKeyFile, from_head, on_key_file, fuel_of, get, has_key, get_all,
}
use scouter_server_go.Db.IndexKey.Chains.{slot, head_pos, IsIndex, length-le-file_length}
use scouter_server_go.Db.IndexKey.Lookup.{
  find_value, has_value, all_values, get_loop-Gives, has_key_loop-Gives, get_all_loop-Gives,
}

-- What an operation of the index returns, and the list of records that it leaves.
pub record Answers {ℓ} {A : Type ℓ} (r : Outcome A × IndexKeyFile) (a : A) (es : List Entry)
    : Type ℓ where
  pub value : r.0 ≡ ok a
  pub index : IsIndex r.1 es

module _ (f : IndexKeyFile) (es : List Entry) (h : IsIndex f es) (key : List ℕ) where
  pub head_of_key :
      HashBlock.get (hash_bytes key) f.hash_block
      ≡ ok (head_pos f.hash_block.capacity (slot f.hash_block.capacity key) es)
  unfolding bucket
  head_of_key =
      get-value_of f.hash_block h.block (hash_bytes key)
      ∙ ap ok (
          h.heads (bucket f.hash_block (hash_bytes key))
            (bucket-lt f.hash_block h.block (hash_bytes key)))

  pub from_head-Answers {ℓ} :
      {A : Type ℓ} (m : ℕ → Op A) {a : A}
      → Gives
          (m (head_pos f.hash_block.capacity (slot f.hash_block.capacity key) es) f.key_file)
          a
          es
      → Answers (from_head key m f) a es
  unfolding from_head on_key_file
  from_head-Answers m p =
      rw (head_of_key, from_head)
        (record {
          value = p.value;
          index = record {
            block = h.block;
            log = p.log;
            valid = h.valid;
            linked = h.linked;
            heads = h.heads;
          };
        })

  pub enough_fuel : length es < fuel_of f
  unfolding fuel_of
  enough_fuel = omega (arith, length-le-file_length f.key_file es h.log)

  pub get-Answers : Answers (get (some key) f) (find_value key es) es
  unfolding get
  get-Answers =
      from_head-Answers _ (get_loop-Gives es h.valid _ key _ f.key_file h.log h.linked enough_fuel)

  pub has_key-Answers : Answers (has_key (some key) f) (has_value key es) es
  unfolding has_key
  has_key-Answers =
      from_head-Answers _
        (has_key_loop-Gives es h.valid _ key _ f.key_file h.log h.linked enough_fuel)

  pub get_all-Answers : Answers (get_all (some key) f) (all_values key es) es
  unfolding get_all
  get_all-Answers =
      from_head-Answers _
        (get_all_loop-Gives es h.valid _ key _ f.key_file h.log h.linked enough_fuel)
