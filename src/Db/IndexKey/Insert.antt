-- ===== src/Db/IndexKey/Insert.antt =====
-- Put of internal/db/io/index_key_file.go, and what Get, HasKey and GetAll find after it.
use scouter_server_go.Common.{
  true, ℕ, ◌+◌, ◌≤◌, ◌<◌, ◌^◌, ◌%◌, ◌≡◌, refl, sym, ◌∙◌, ◌==◌, some, List, [], ◌∷◌, length, arith,
  if◌then◌else◌, Bool-cases, inl, inr, length-append,
}
use mathlib.Core.Path.{subst}
use scouter_server_go.Util.Hash.{hash_bytes}
use scouter_server_go.Db.Files.{Outcome, ok, err, panic, stuck, bytes_equal}
use scouter_server_go.Db.HashBlock.{MemHashBlock, bucket}
use scouter_server_go.Db.HashBlock
use scouter_server_go.Db.HashBlock.Laws.{value_of, Stores, put-Stores, bucket-lt}
use scouter_server_go.Db.KeyRecord.Layout.{IsKey, IsValue, blob_head, blob_bytes}
use scouter_server_go.Protocol.Output.{bytes4}
use scouter_server_go.Db.KeyFile.{RealKeyFile, file_length}
use scouter_server_go.Db.KeyFile.Entry.{Entry, written_entry, length-entry_bytes}
use scouter_server_go.Db.KeyFile.Log.{size, HasLog, IsLog, size_joined}
use scouter_server_go.Db.KeyFile.Records.{Gives, append-Gives}
use scouter_server_go.Db.IndexKey.{IndexKeyFile, linked_head, put_key, put, get, get_all}
use scouter_server_go.Db.IndexKey.Chains.{slot, head_pos, IsLinked, IsIndex, live_entry}
use scouter_server_go.Db.IndexKey.Lookup.{find_value, all_values}
use scouter_server_go.Db.IndexKey.Answers.{Answers, head_of_key, get-Answers, get_all-Answers}

length-blob_bytes : (v : List ℕ) → length (blob_bytes v) ≤ length v + 5
unfolding blob_head bytes4
length-blob_bytes v = let e = length-append (blob_head (length v)) v in ground arith

head_pos-le-size : (cap b : ℕ) (es : List Entry) → head_pos cap b es ≤ size es
unfolding head_pos size
head_pos-le-size cap b [] = omega arith
head_pos-le-size cap b (e ∷ es) = let ih = head_pos-le-size cap b es in ground arith

-- A record that an index has room for.
pub record HasRoom (f : IndexKeyFile) (k v : List ℕ) : Type 0 where
  pub key_small : IsKey k
  pub value_small : IsValue v
  pub room : file_length f.key_file + length k + length v + 13 < 2 ^ 39

module _ (f : IndexKeyFile) (es : List Entry) (h : IsIndex f es) (k v : List ℕ)
    (r : HasRoom f k v) where
  prev : ℕ
  prev = head_pos f.hash_block.capacity (slot f.hash_block.capacity k) es

  log_size : size es ≡ file_length f.key_file
  unfolding file_length
  log_size = size_joined f.key_file es h.log

  longer : IsLog (written_entry prev k v ∷ es)
  unfolding size
  longer =
      let s = h.valid.short in
      let p = head_pos-le-size f.hash_block.capacity (slot f.hash_block.capacity k) es in
      let small : prev < 2 ^ 39 = unfold prev in omega arith in
      record {
        entries = (
          record {
            key_small = r.key_small;
            value_small = r.value_small;
            position = (omega arith, inl small);
          },
          h.valid.entries,
        );
        short = omega (
          arith,
          r.room,
          log_size,
          length-entry_bytes (written_entry prev k v),
          length-blob_bytes v,
        );
      }

  stored :
      (m : MemHashBlock) × (HashBlock.put (hash_bytes k) (size es) f.hash_block ≡ ok m)
      × Stores f.hash_block m (bucket f.hash_block (hash_bytes k)) (size es)
  stored =
      put-Stores f.hash_block h.block (hash_bytes k) (size es)
        (omega (arith, h.valid.short), inl h.valid.short)

  -- With the new record before the others the head of its bucket is its position.
  heads_of_longer :
      (b : ℕ)
      → b < f.hash_block.capacity
      → (if bucket f.hash_block (hash_bytes k) == b then size es else value_of f.hash_block b)
        ≡ head_pos f.hash_block.capacity b (written_entry prev k v ∷ es)
  unfolding head_pos bucket
  heads_of_longer b p = rw (h.heads b p) refl

  heads_kept :
      (m : MemHashBlock) (b : ℕ)
      → Stores f.hash_block m (bucket f.hash_block (hash_bytes k)) (size es)
      → b < m.capacity
      → value_of m b ≡ head_pos m.capacity b (written_entry prev k v ∷ es)
  heads_kept m b s p =
      let inside : b < f.hash_block.capacity = omega (arith, s.same_capacity) in
      s.values b
      ∙ subst
          (λ (c : ℕ).
            (if bucket f.hash_block (hash_bytes k) == b then size es else value_of f.hash_block b)
            ≡ head_pos c b (written_entry prev k v ∷ es))
          (sym s.same_capacity) (heads_of_longer b inside)

  longer-IsLinked : IsLinked f.hash_block.capacity (written_entry prev k v ∷ es)
  unfolding prev
  longer-IsLinked = (refl, h.linked)

  old_head : value_of f.hash_block (bucket f.hash_block (hash_bytes k)) ≡ prev
  unfolding prev bucket
  old_head =
      h.heads (bucket f.hash_block (hash_bytes k)) (bucket-lt f.hash_block h.block (hash_bytes k))

  -- A Put that is through: the record is the newest, and the table is to be written.
  record Linked (got : Outcome (Unit {0}) × IndexKeyFile) : Type 0 where
    answer : Answers got tt (written_entry prev k v ∷ es)
    dirty : got.1.hash_block.dirty ≡ true
    counts :
        got.1.hash_block.count
        ≡ (if prev == 0 then (f.hash_block.count + 1) % 2 ^ 64 else f.hash_block.count)
    capacity : got.1.hash_block.capacity ≡ f.hash_block.capacity

  linked_head-Linked :
      (kf : RealKeyFile)
      → HasLog kf (written_entry prev k v ∷ es)
      → Linked (linked_head (ok (size es), kf) (hash_bytes k) f)
  unfolding prev
  linked_head-Linked kf log =
      let s = stored.2 in
      rw (stored.1, linked_head)
        (record {
          answer = record {
            value = refl;
            index = record {
              block = s.valid;
              log = log;
              valid = longer;
              linked =
                  subst (λ (c : ℕ). IsLinked c (written_entry prev k v ∷ es)) (sym s.same_capacity)
                    longer-IsLinked;
              heads = λ b p. heads_kept stored.0 b s p;
            };
          };
          dirty = s.marked;
          counts = s.counts ∙ rw (old_head) refl;
          capacity = s.same_capacity;
        })

  linked_head-Gives :
      (q : Outcome ℕ × RealKeyFile)
      → Gives q (size es) (written_entry prev k v ∷ es)
      → Linked (linked_head q (hash_bytes k) f)
  linked_head-Gives (ok x, kf) g =
      subst (λ (x : ℕ). Linked (linked_head (ok x, kf) (hash_bytes k) f)) (sym (ok_value g.value))
        (linked_head-Linked kf g.log)
    where
      ok_value : ok x ≡ ok (size es) → x ≡ size es
      ok_value e = cc
  linked_head-Gives (err e, kf) g = absurd (cc)
  linked_head-Gives (panic, kf) g = absurd (cc)
  linked_head-Gives (stuck, kf) g = absurd (cc)

  put-Linked : Linked (put (some k) (some v) f)
  unfolding put put_key prev
  put-Linked =
      rw (head_of_key f es h k, put, put_key)
        (linked_head-Gives _ (append-Gives f.key_file es h.log prev k v longer))

  -- Put adds a record before all others, whose bucket it heads.
  pub put-Answers :
      Answers
        (put (some k) (some v) f)
        tt
        (written_entry (head_pos f.hash_block.capacity (slot f.hash_block.capacity k) es) k v ∷ es)
  unfolding prev
  put-Answers = put-Linked.answer

  -- A bucket that was empty is counted.
  pub count-put :
      ((put (some k) (some v) f).1.hash_block.count ≡ (
        if head_pos f.hash_block.capacity (slot f.hash_block.capacity k) es == 0
        then (f.hash_block.count + 1) % 2 ^ 64
        else f.hash_block.count))
      × ((put (some k) (some v) f).1.hash_block.capacity ≡ f.hash_block.capacity)
  unfolding prev
  count-put = (put-Linked.counts, put-Linked.capacity)

  pub dirty-put : (put (some k) (some v) f).1.hash_block.dirty ≡ true
  dirty-put = put-Linked.dirty

-- For an index whose table and file stand for a list of records, with keys of at most 110 bytes,
-- values below 2^32 bytes and a file below 2^39 bytes, and for a key of at most 110 bytes and a value
-- below 2^32 bytes that fit these 2^39 bytes: after a Put the Get of the same key returns the new
-- value and the Get of every other key what it returned before.
pub get-put :
    (f : IndexKeyFile) (es : List Entry) (k v j : List ℕ)
    → IsIndex f es
    → HasRoom f k v
    → (get (some j) (put (some k) (some v) f).1).0
      ≡ (if bytes_equal k j then ok (some v) else (get (some j) f).0)
unfolding find_value live_entry
get-put f es k v j h r =
    let p = put-Answers f es h k v r in
    (get-Answers _ _ p.index j).value ∙ elim (Bool-cases (bytes_equal k j)) [
      | inl e ↦ rw e refl
      | inr e ↦ rw e (sym (get-Answers f es h j).value)
    ]

-- For an index whose table and file stand for a list of records, with keys of at most 110 bytes,
-- values below 2^32 bytes and a file below 2^39 bytes, and for a key of at most 110 bytes and a value
-- below 2^32 bytes that fit these 2^39 bytes: GetAll of any key returns no error, and after a Put
-- that of the same key returns the new value first and then what it returned before, in the same
-- order, and that of every other key what it returned before.
pub get_all-put :
    (f : IndexKeyFile) (es : List Entry) (k v j : List ℕ)
    → IsIndex f es
    → HasRoom f k v
    → (out : List (List ℕ)) × ((get_all (some j) f).0 ≡ ok out)
      × ((get_all (some j) (put (some k) (some v) f).1).0
          ≡ ok (if bytes_equal k j then v ∷ out else out))
unfolding all_values live_entry
get_all-put f es k v j h r =
    let p = put-Answers f es h k v r in
    (all_values j es, (get_all-Answers f es h j).value, (get_all-Answers _ _ p.index j).value)
