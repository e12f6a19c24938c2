-- ===== src/Db/IndexKey/Opening.antt =====
-- NewIndexKeyFile and Close of internal/db/io/index_key_file.go: an index that is made, and one that
-- is found again in its two files.
use scouter_server_go.Common.{
  ℕ, zero, suc, ◌+◌, ◌*◌, ◌/◌, ◌≤◌, ◌<◌, ◌≡◌, refl, sym, ap, ◌∙◌, ◌==◌, true, false, some, none,
  List, [], ◌∷◌, length, arith, take, if◌then◌else◌,
}
use mathlib.Core.Path.{subst}
use scouter_server_go.Db.KeyFile.Entry.{Entry}
use scouter_server_go.Protocol.Input.{int5}
use scouter_server_go.Db.Files.{bytes_equal, ok, Outcome, padded, slice}
use scouter_server_go.Db.Files.Overwrite.{length-padded}
use scouter_server_go.Db.HashBlock.{MemHashBlock, created, open_block, loaded, mem_head_reserved}
use scouter_server_go.Db.HashBlock
use scouter_server_go.Db.HashBlock.Laws.{IsBlock, value_of, open_block-close-loaded}
use scouter_server_go.Db.KeyFile.{RealKeyFile, open_key_file}
use scouter_server_go.Db.KeyFile
use scouter_server_go.Db.KeyFile.Log.{
  size, HasLog, flush_append_buf_lem, file_bytes, log_bytes, length-file_bytes,
}
use scouter_server_go.Db.IndexKey.Answers.{get-Answers}
use scouter_server_go.Db.IndexKey.Insert.{HasRoom, put-Answers, dirty-put, get-put}
use scouter_server_go.Db.IndexKey.{
  put, get, IndexKeyFile, open_index, close, mb, default_hash_size_mb,
}
use scouter_server_go.Db.IndexKey.Chains.{head_pos, IsLinked, IsIndex}

zeros_within :
    (lo n : ℕ) (xs : List ℕ)
    → length xs ≤ lo
    → lo + 5 ≤ n
    → slice lo 5 (padded n xs) ≡ 0 ∷ 0 ∷ 0 ∷ 0 ∷ 0 ∷ []
unfolding padded
zeros_within zero n [] h k = first n k
  where
    first : (n : ℕ) → 0 + 5 ≤ n → take 5 (padded n []) ≡ 0 ∷ 0 ∷ 0 ∷ 0 ∷ 0 ∷ []
    first (suc (suc (suc (suc (suc n))))) k = refl
    first zero k = absurd (omega arith)
    first (suc zero) k = absurd (omega arith)
    first (suc (suc zero)) k = absurd (omega arith)
    first (suc (suc (suc zero))) k = absurd (omega arith)
    first (suc (suc (suc (suc zero)))) k = absurd (omega arith)
zeros_within zero n (x ∷ xs) h k = absurd (omega arith)
zeros_within (suc lo) zero xs h k = absurd (omega arith)
zeros_within (suc lo) (suc n) [] h k = zeros_within lo n [] (omega arith) (omega arith)
zeros_within (suc lo) (suc n) (x ∷ xs) h k = zeros_within lo n xs (omega arith) (omega arith)

created_valid : (n : ℕ) → 5 ≤ n → IsBlock (created none n)
unfolding created
created_valid n h = record {
  sized = length-padded (mem_head_reserved + n) (0xca ∷ 0xfe ∷ []);
  buckets = refl;
  nonempty = omega arith;
}

created_empty : (n b : ℕ) → b < n / 5 → value_of (created none n) b ≡ 0
unfolding created value_of int5
created_empty n b h =
    rw (zeros_within (5 * b + 1024) (1024 + n) (0xca ∷ 0xfe ∷ []) (omega arith) (omega arith)) refl

-- With neither file there, the new index holds no record.
pub open_index-IsIndex : (hash_size_mb : ℕ) → IsIndex (open_index none [] hash_size_mb) []
unfolding open_index open_block open_key_file head_pos size created file_bytes log_bytes
open_index-IsIndex n = record {
  block = created_valid _ (enough n);
  log = record {
    newer = [];
    older = [];
    split = refl;
    on_disk = refl;
    in_buffer = refl;
    ends = refl;
  };
  valid = record { entries = tt; short = omega arith };
  linked = tt;
  heads = λ b p. created_empty _ b p;
}
  where
    enough : (n : ℕ) → 5 ≤ (if n == 0 then default_hash_size_mb else n) * mb
    enough n = ground arith

-- A key file is found again as Close leaves it.
closed_content :
    (f : IndexKeyFile) (es : List Entry) → IsIndex f es → KeyFile.close f.key_file ≡ file_bytes es
unfolding KeyFile.close KeyFile.flush
closed_content f es h =
    let q = flush_append_buf_lem f.key_file es h.log h.valid in
    ap (λ (r : Outcome (Unit {0}) × RealKeyFile). r.1.raf.content) q.1 ∙ q.2.on_disk

open_nonempty :
    (bytes : List ℕ)
    → (length bytes == 0) ≡ false
    → open_key_file bytes ≡ record {
      raf = record { content = bytes; cursor = 0 };
      append_buf = [];
      file_end = length bytes;
    }
unfolding open_key_file
open_nonempty bytes e = rw e refl

file_bytes_log : (es : List Entry) → HasLog (open_key_file (file_bytes es)) es
unfolding log_bytes
file_bytes_log es = rw (open_nonempty (file_bytes es) (unfold file_bytes in ground arith)) (record {
  newer = [];
  older = es;
  split = refl;
  on_disk = refl;
  in_buffer = refl;
  ends = length-file_bytes es;
})

reopened_log :
    (f : IndexKeyFile) (es : List Entry)
    → IsIndex f es
    → HasLog (open_key_file (KeyFile.close f.key_file)) es
reopened_log f es h =
    subst (λ (bytes : List ℕ). HasLog (open_key_file bytes) es) (sym (closed_content f es h))
      (file_bytes_log es)

reopened-IsBlock :
    (m : MemHashBlock) (n : ℕ)
    → IsBlock m
    → m.dirty ≡ true
    → IsBlock (open_block (HashBlock.close m) n)
      × ((open_block (HashBlock.close m) n).capacity ≡ m.capacity)
      × ((open_block (HashBlock.close m) n).buf ≡ m.buf)
unfolding loaded
reopened-IsBlock m n valid marked = rw (open_block-close-loaded m n valid marked) (
  record {
    sized = omega (arith, valid.sized);
    buckets = refl;
    nonempty = omega (arith, valid.sized, valid.buckets, valid.nonempty);
  },
  omega (arith, valid.sized, valid.buckets),
  refl,
)

-- An index that was written to is found again in the two files that Close leaves, record by record.
pub open_index-close :
    (f : IndexKeyFile) (es : List Entry) (hash_size_mb : ℕ)
    → IsIndex f es
    → f.hash_block.dirty ≡ true
    → IsIndex (open_index (close f).0 (close f).1 hash_size_mb) es
unfolding open_index close value_of
open_index-close f es n h marked =
    let b = reopened-IsBlock f.hash_block _ h.block marked in
    record {
      block = b.0;
      log = reopened_log f es h;
      valid = h.valid;
      linked = subst (λ (c : ℕ). IsLinked c es) (sym b.1) h.linked;
      heads = λ s p.
          ap (λ (buf : List ℕ). int5 (slice (5 * s + 1024) 5 buf)) b.2
          ∙ subst (λ (c : ℕ). int5 (slice (5 * s + 1024) 5 f.hash_block.buf) ≡ head_pos c s es)
              (sym b.1) (h.heads s (omega (arith, b.1)));
    }

get-open_index :
    (f : IndexKeyFile) (es : List Entry) (hash_size_mb : ℕ) (key : List ℕ)
    → IsIndex f es
    → f.hash_block.dirty ≡ true
    → (get (some key) (open_index (close f).0 (close f).1 hash_size_mb)).0 ≡ (get (some key) f).0
get-open_index f es n key h marked =
    (get-Answers _ es (open_index-close f es n h marked) key).value
    ∙ sym (get-Answers f es h key).value

-- For an index whose table and file stand for a list of records, with keys of at most 110 bytes,
-- values below 2^32 bytes and a file below 2^39 bytes, and for a key of at most 110 bytes and a value
-- below 2^32 bytes that fit these 2^39 bytes: what was put is found after the index was closed and
-- opened again from the two files that Close leaves, whatever size is asked for then, and Get returns
-- for every other key what it returned before.
pub get-put_reopened :
    (f : IndexKeyFile) (es : List Entry) (k v j : List ℕ) (hash_size_mb : ℕ)
    → IsIndex f es
    → HasRoom f k v
    → let g = (put (some k) (some v) f).1 in
      (get (some j) (open_index (close g).0 (close g).1 hash_size_mb)).0
      ≡ (if bytes_equal k j then ok (some v) else (get (some j) f).0)
get-put_reopened f es k v j n h r =
    get-open_index _ _ n j (put-Answers f es h k v r).index (dirty-put f es h k v r)
    ∙ get-put f es k v j h r
