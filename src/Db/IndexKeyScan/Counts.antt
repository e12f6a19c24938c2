-- ===== src/Db/IndexKeyScan/Counts.antt =====
-- What Stat of internal/db/io/index_key_file.go counts, and what Put adds to it.
use scouter_server_go.Common.{
  ℕ, ◌+◌, ◌≤◌, ◌≡◌, refl, sym, ap, ◌∙◌, ◌==◌, ◌||◌, Bool, false, not, some, List, [], ◌∷◌, map,
  length, arith, if◌then◌else◌,
}
use scouter_server_go.Db.KeyFile.Entry.{Entry}
use scouter_server_go.Db.KeyFile.Log.{size}
use scouter_server_go.Db.IndexKey.{IndexKeyFile, put}
use scouter_server_go.Db.IndexKey.Chains.{slot, head_pos, IsIndex, length-le-size}
use scouter_server_go.Db.IndexKey.Insert.{HasRoom, put-Answers, count-put}
use scouter_server_go.Db.IndexKeyScan.{stat}
use scouter_server_go.Db.IndexKeyScan.Sweep.{deleted_count, stat-counts}

-- A key in a bucket, and the number of different buckets, of a table of `cap` buckets.
unfoldable pub in_bucket : ℕ → ℕ → List (List ℕ) → Bool
in_bucket cap b [] = false
in_bucket cap b (k ∷ keys) = (slot cap k == b) || in_bucket cap b keys

unfoldable pub buckets_in_use : ℕ → List (List ℕ) → ℕ
buckets_in_use cap [] = 0
buckets_in_use cap (k ∷ keys) =
    (if in_bucket cap (slot cap k) keys then 0 else 1) + buckets_in_use cap keys

abbrev pub key_of : Entry → List ℕ
key_of e = e.key

-- The head of a chain is 0 where no key is in the bucket.
head_pos-in_bucket :
    (cap b : ℕ) (es : List Entry) → (head_pos cap b es == 0) ≡ not (in_bucket cap b (map key_of es))
unfolding head_pos in_bucket size
head_pos-in_bucket cap b [] = refl
head_pos-in_bucket cap b (e ∷ es) = ground (arith, head_pos-in_bucket cap b es, size_pos es)
  where
    size_pos : (es : List Entry) → 2 ≤ size es
    size_pos [] = omega arith
    size_pos (e ∷ es) = omega (arith, size_pos es)

buckets_in_use-le : (cap : ℕ) (es : List Entry) → buckets_in_use cap (map key_of es) ≤ length es
unfolding buckets_in_use
buckets_in_use-le cap [] = omega arith
buckets_in_use-le cap (e ∷ es) = ground (arith, buckets_in_use-le cap es)

count-put_used :
    (f : IndexKeyFile) (es : List Entry) (k v : List ℕ)
    → IsIndex f es
    → f.hash_block.count ≡ buckets_in_use f.hash_block.capacity (map key_of es)
    → HasRoom f k v
    → (put (some k) (some v) f).1.hash_block.count
      ≡ buckets_in_use f.hash_block.capacity (k ∷ map key_of es)
unfolding buckets_in_use
count-put_used f es k v h counted r =
    let cap = f.hash_block.capacity in
    let few = buckets_in_use-le cap es in
    let short = length-le-size es in
    let small = h.valid.short in
    let empty = head_pos-in_bucket cap (slot cap k) es in (count-put f es h k v r).0 ∙ ground arith

-- For an index whose table and file stand for a list of records, with keys of at most 110 bytes,
-- values below 2^32 bytes and a file below 2^39 bytes, whose count is the number of different
-- buckets of the keys of all records, and for a key of at most 110 bytes and a value below 2^32 bytes
-- that fit these 2^39 bytes: after a Put, Stat counts one record more than there were, of which those
-- that were deleted before are deleted, and reports as scatter the number of different buckets of
-- the keys of all records and the new one.
pub stat-put :
    (f : IndexKeyFile) (es : List Entry) (k v : List ℕ)
    → IsIndex f es
    → f.hash_block.count ≡ buckets_in_use f.hash_block.capacity (map key_of es)
    → HasRoom f k v
    → let g = (put (some k) (some v) f).1 in
      ((stat g).0.count + (stat g).0.deleted ≡ length es + 1)
      × ((stat g).0.deleted ≡ deleted_count es)
      × ((stat g).0.scatter ≡ buckets_in_use g.hash_block.capacity (k ∷ map key_of es))
unfolding deleted_count
stat-put f es k v h counted r =
    let (all, deleted, scatter) = stat-counts _ _ (put-Answers f es h k v r).index in
    (
      omega (arith, all),
      omega (arith, deleted),
      scatter
          ∙ count-put_used f es k v h counted r
          ∙ ap (λ c. buckets_in_use c (k ∷ map key_of es)) (sym (count-put f es h k v r).1),
    )
