-- ===== src/Db/HashBlock/Laws.antt =====
-- MemHashBlock of internal/db/io/mem_hash_block.go: what Get returns after Put, and after the table
-- went through its file.
use scouter_server_go.Common.{
  ℕ, ◌+◌, ◌*◌, ◌/◌, ◌%◌, ◌^◌, ◌≤◌, ◌<◌, ◌≡◌, refl, ap, ◌∙◌, ◌==◌, true, false, length, arith, leb,
  ltb, if◌then◌else◌, inl, inr, Bool-cases, lt_or_le, eq_or_ne, ◌⊎◌, ◌≢◌,
}
use scouter_server_go.Protocol.WordCodec.{IsLong5, int5-bytes5}
use scouter_server_go.Protocol.Output.{bytes4, bytes5}
use scouter_server_go.Protocol.Input.{int5}
use scouter_server_go.Db.Files.{ok, slice, overwrite}
use scouter_server_go.Db.Files.Overwrite.{
  length-overwrite, slice-overwrite_self, slice-overwrite_before, slice-overwrite_behind,
}
use scouter_server_go.Db.HashBlock.{
  MemHashBlock, mem_head_reserved, key_length, int5_at, put_int5, loaded, open_block, bucket,
  offset, get, add_count, set_value, put, flush, close,
}

-- The buffer is the head and the table, and the table has at least one bucket.
pub record IsBlock (m : MemHashBlock) : Type 0 where
  pub sized : length m.buf ≡ mem_head_reserved + m.buf_size
  pub buckets : m.capacity ≡ m.buf_size / key_length
  pub nonempty : 0 < m.capacity

-- The value that a bucket holds, five bytes of the table.
unfoldable pub value_of : MemHashBlock → ℕ → ℕ
value_of m b = int5 (slice (key_length * b + mem_head_reserved) 5 m.buf)

module _ (m : MemHashBlock) (valid : IsBlock m) where
  pub bucket-lt : (h : ℕ) → bucket m h < m.capacity
  unfolding bucket
  bucket-lt h = let p = valid.nonempty in grind arith

  within : (b : ℕ) → b < m.capacity → key_length * b + mem_head_reserved + 5 ≤ length m.buf
  within b h = omega (arith, valid.sized, valid.buckets)

  pub get-value_of : (h : ℕ) → get h m ≡ ok (value_of m (bucket m h))
  unfolding get offset int5_at value_of
  get-value_of h =
      let p = valid.nonempty in let w = within (bucket m h) (bucket-lt h) in ground arith

  -- Counting changes bytes of the head only.
  count_kept : (n : ℕ) → IsBlock (add_count n m)
  unfolding add_count bytes4
  count_kept n =
      let e =
        length-overwrite 4 (bytes4 (((m.count + n) % 2 ^ 64) % 2 ^ 32)) m.buf
          (omega (arith, valid.sized)) in
      record { sized = e ∙ valid.sized; buckets = valid.buckets; nonempty = valid.nonempty }

  value_of-add_count : (n b : ℕ) → value_of (add_count n m) b ≡ value_of m b
  unfolding value_of add_count bytes4
  value_of-add_count n b = ap int5 (
      slice-overwrite_behind 4 (bytes4 (((m.count + n) % 2 ^ 64) % 2 ^ 32)) m.buf
        (omega (arith, valid.sized)) (key_length * b + mem_head_reserved) 5 (omega arith))

  -- The value alone, in an existing bucket.
  written : ℕ → ℕ → MemHashBlock
  written b v = record m {
    buf = overwrite (key_length * b + mem_head_reserved) (bytes5 v) m.buf;
    dirty = true;
  }

  module _ (b v : ℕ) (inside : b < m.capacity) where
    set_value-written : set_value (key_length * b + mem_head_reserved) v m ≡ ok (written b v)
    unfolding set_value put_int5 written
    set_value-written = let w = within b inside in ground arith

    written_valid : IsBlock (written b v)
    unfolding written bytes5
    written_valid =
        let e =
          length-overwrite (key_length * b + mem_head_reserved) (bytes5 v) m.buf
            (within b inside) in
        record { sized = e ∙ valid.sized; buckets = valid.buckets; nonempty = valid.nonempty }

    value_of-written :
        (c : ℕ) → IsLong5 v → value_of (written b v) c ≡ (if b == c then v else value_of m c)
    unfolding value_of written bytes5
    value_of-written c h = elim (eq_or_ne b c) [
      | inl e ↦
          let t : (b == c) ≡ true = ground arith in
          rw (t, ← e)
            (ap int5 (
                slice-overwrite_self (key_length * b + mem_head_reserved) (bytes5 v) m.buf
                  (within b inside))
              ∙ int5-bytes5 v h)
      | inr n ↦ let t : (b == c) ≡ false = ground arith in rw t (ap int5 (apart (lt_or_le b c) n))
    ]
      where
        apart :
            (b < c) ⊎ (c ≤ b)
            → b ≢ c
            → slice
                (key_length * c + mem_head_reserved)
                5
                (overwrite (key_length * b + mem_head_reserved) (bytes5 v) m.buf)
              ≡ slice (key_length * c + mem_head_reserved) 5 m.buf
        apart (inl p) n =
            slice-overwrite_behind (key_length * b + mem_head_reserved) (bytes5 v) m.buf
              (within b inside) (key_length * c + mem_head_reserved) 5 (omega arith)
        apart (inr p) n =
            slice-overwrite_before (key_length * b + mem_head_reserved) (bytes5 v) m.buf
              (within b inside) (key_length * c + mem_head_reserved) 5 (omega arith)

-- What a Put of a five-byte value makes of a block.
pub record Stores (m m' : MemHashBlock) (b v : ℕ) : Type 0 where
  pub valid : IsBlock m'
  pub same_capacity : m'.capacity ≡ m.capacity
  pub marked : m'.dirty ≡ true
  pub counts : m'.count ≡ (if value_of m b == 0 then (m.count + 1) % 2 ^ 64 else m.count)
  pub values : (c : ℕ) → value_of m' c ≡ (if b == c then v else value_of m c)

module _ (m : MemHashBlock) (valid : IsBlock m) (h v : ℕ) (fits : IsLong5 v) where
  counted : ℕ → MemHashBlock
  counted old = if old == 0 then add_count 1 m else m

  counted_valid : (old : ℕ) → IsBlock (counted old)
  unfolding counted
  counted_valid old = elim (Bool-cases (old == 0)) [
    | inl e ↦ rw e (count_kept m valid 1)
    | inr e ↦ rw e valid
  ]

  counted_capacity : (old : ℕ) → (counted old).capacity ≡ m.capacity
  unfolding counted add_count
  counted_capacity old = ground arith

  counted_count :
      (old : ℕ) → (counted old).count ≡ (if old == 0 then (m.count + 1) % 2 ^ 64 else m.count)
  unfolding counted add_count
  counted_count old = ground arith

  value_of-counted : (old c : ℕ) → value_of (counted old) c ≡ value_of m c
  unfolding counted
  value_of-counted old c = elim (Bool-cases (old == 0)) [
    | inl e ↦ rw e (value_of-add_count m valid 1 c)
    | inr e ↦ rw e refl
  ]

  put-counted :
      put h v m
      ≡ set_value
          (key_length * bucket m h + mem_head_reserved)
          v
          (counted (value_of m (bucket m h)))
  unfolding put offset int5_at value_of counted
  put-counted =
      let p = valid.nonempty in
      let c : (m.capacity == 0) ≡ false = ground arith in
      let w : leb (key_length * bucket m h + mem_head_reserved + 5) (length m.buf) ≡ true =
        let u = within m valid (bucket m h) (bucket-lt m valid h) in ground arith in
      rw (c, w) refl

  pub put-Stores : (m' : MemHashBlock) × (put h v m ≡ ok m') × Stores m m' (bucket m h) v
  unfolding written
  put-Stores =
      let b = bucket m h in
      let old = value_of m b in
      let n = counted old in
      let ok_n = counted_valid old in
      let inside : b < n.capacity = rw (counted_capacity old) (bucket-lt m valid h) in
      (
        written n ok_n b v,
        put-counted ∙ set_value-written n ok_n b v inside,
        record {
          valid = written_valid n ok_n b v inside;
          same_capacity = counted_capacity old;
          marked = refl;
          counts = counted_count old;
          values =
              λ c. value_of-written n ok_n b v inside c fits ∙ rw (value_of-counted old c) refl;
        },
      )

get_same :
    (a b : MemHashBlock) (h : ℕ) → a.buf ≡ b.buf → a.capacity ≡ b.capacity → get h a ≡ get h b
unfolding get offset bucket
get_same a b h e c = rw (e, c) refl

pub open_block-close-loaded :
    (m : MemHashBlock) (mem_size : ℕ)
    → IsBlock m
    → m.dirty ≡ true
    → open_block (close m) mem_size ≡ loaded m.buf
unfolding open_block close flush
open_block-close-loaded m mem_size valid marked =
    let e : ltb (length m.buf) mem_head_reserved ≡ false = ground (arith, valid.sized) in
    rw (marked, e) refl

-- A block that was written to is found again in its file, whatever size was asked for.
pub open_block-close :
    (m : MemHashBlock) (mem_size h : ℕ)
    → IsBlock m
    → m.dirty ≡ true
    → get h (open_block (close m) mem_size) ≡ get h m
unfolding loaded
open_block-close m mem_size h valid marked =
    rw (open_block-close-loaded m mem_size valid marked)
      (get_same (loaded m.buf) m h refl (omega (arith, valid.sized, valid.buckets)))
