-- ===== src/Db/KeyRecord/Layout.antt =====
-- Key and blob of a record as WriteShortBytes and WriteBlob lay them out, and getRecordReadAt of
-- internal/db/io/real_key_file.go on them.
use scouter_server_go.Common.{
  ℕ, ◌+◌, ◌/◌, ◌%◌, ◌^◌, ◌≤◌, ◌<◌, ◌≡◌, refl, sym, ap, ◌∙◌, ◌==◌, true, false, List, [], ◌∷◌, ◌++◌,
  length, take, drop, arith, leb, ltb, if◌then◌else◌, Bool-cases, inl, inr, length-drop,
  length-append, drop-drop, take-append_length, append_assoc, le→ltb, drop-append_length,
}
use scouter_server_go.Protocol.Output.{
  bytes4, write_blob, write, write_byte, write_uint16, write_int32, ◌⨾◌, DataOutputX,
}
use scouter_server_go.Protocol.Input.{big_endian_uint}
use scouter_server_go.Protocol.Word.{to_byte}
use scouter_server_go.Db.Files.{File, ok, slice}
use scouter_server_go.Db.KeyRecord.{KeyAndBlob, blob_length, key_and_blob, window}
use scouter_server_go.Db.KeyRecord.Blob.{
  window_at, found_at, slice-padded, length-found, blob_tail_lem,
}

-- The prefix byte and the length bytes of a blob of `n` bytes.
unfoldable pub blob_head : ℕ → List ℕ
blob_head n =
    if n == 0
    then 0 ∷ []
    else if leb n 253
    then n ∷ []
    else if leb n 65535
    then 255 ∷ n / 2 ^ 8 ∷ n % 2 ^ 8 ∷ []
    else 254 ∷ bytes4 n

abbrev pub blob_bytes : List ℕ → List ℕ
blob_bytes v = blob_head (length v) ++ v

abbrev pub key_bytes : List ℕ → List ℕ
key_bytes k = length k / 2 ^ 8 ∷ length k % 2 ^ 8 ∷ k

-- Keys for which the length bytes of the blob, too, lie in the window of 128 bytes behind a header
-- of 13 bytes; the longest slice whose length fits four bytes.
abbrev pub IsKey : List ℕ → Type 0
IsKey k = length k ≤ 110

abbrev pub IsValue : List ℕ → Type 0
IsValue v = length v < 2 ^ 32

nil_of_empty : (v : List ℕ) → (length v == 0) ≡ true → v ≡ []
nil_of_empty [] h = refl
nil_of_empty (x ∷ v) h = absurd (ground arith)

blob_head_nonempty : (n : ℕ) → 1 ≤ length (blob_head n)
unfolding blob_head bytes4
blob_head_nonempty n = ground arith

-- What stands there.
abbrev pub laid_out : ℕ → List ℕ → List ℕ → KeyAndBlob
laid_out off k v = record {
  key = k;
  blob = v;
  end_off = off + (2 + length k + length (blob_bytes v));
}

pub write_blob-bytes :
    (v : List ℕ) (o : DataOutputX) → IsValue v → (write_blob v o).buf ≡ o.buf ++ blob_bytes v
unfolding write_blob blob_head write write_byte write_uint16 write_int32 ◌⨾◌ bytes4
write_blob-bytes v o h = elim (Bool-cases (length v == 0)) [
  | inl e ↦ rw e (ap (λ x. o.buf ++ (0 ∷ x)) (sym (nil_of_empty v e)))
  | inr z ↦ elim (Bool-cases (leb (length v) 253)) [
    | inl e ↦ rw (z, e) (ground (arith, append_assoc o.buf (to_byte (length v) ∷ []) v))
    | inr y ↦ elim (Bool-cases (leb (length v) 65535)) [
      | inl e ↦ rw (z, y, e) (rw (append_assoc, append_assoc) (ground arith))
      | inr e ↦ rw (z, y, e) (rw (append_assoc, append_assoc) (ground arith))
    ]
  ]
]

module _ (pos off : ℕ) (raf : File) (k v rest : List ℕ)
    (stands : drop (pos + off) raf.content ≡ key_bytes k ++ (blob_bytes v ++ rest))
    (off_small : off ≤ 11) (key_small : IsKey k) (value_small : IsValue v) where
  -- A place behind the header.
  behind :
      (a b : List ℕ)
      → key_bytes k ++ (blob_bytes v ++ rest) ≡ a ++ b
      → drop (pos + (off + length a)) raf.content ≡ b
  behind a b e =
      let at : pos + (off + length a) ≡ (pos + off) + length a = omega arith in
      rw at (
        drop-drop (pos + off) (length a) raf.content
        ∙ ap (drop (length a)) (stands ∙ e)
        ∙ drop-append_length a b)

  total : length (drop pos raf.content) ≡ off + (2 + length k + length (blob_bytes v) + length rest)
  total = omega (
    arith,
    ap length stands,
    length-drop (pos + off) raf.content,
    length-drop pos raf.content,
    length-append (key_bytes k) (blob_bytes v ++ rest),
    length-append (blob_bytes v) rest,
  )

  room : (m : ℕ) → m ≤ window → m ≤ length (drop pos raf.content) → m ≤ found_at pos raf
  room m h l = elim (length-found window (drop pos raf.content)) [
    | inl e ↦ omega (arith, e)
    | inr e ↦ omega (arith, e)
  ]

  -- A stretch of the window is read as it stands in the file.
  stretch :
      (j m : ℕ) (a b c : List ℕ)
      → key_bytes k ++ (blob_bytes v ++ rest) ≡ a ++ (b ++ c)
      → j ≡ off + length a
      → m ≡ length b
      → j + m ≤ found_at pos raf
      → slice j m (window_at pos raf) ≡ b
  stretch j m a b c e p q h =
      slice-padded window (drop pos raf.content) j m h
      ∙ rw (p, q)
          (ap (take (length b))
              (sym (drop-drop pos (off + length a) raf.content) ∙ behind a (b ++ c) e)
            ∙ take-append_length b c)

  key_length_bytes : slice off 2 (window_at pos raf) ≡ length k / 2 ^ 8 ∷ length k % 2 ^ 8 ∷ []
  key_length_bytes =
      stretch off 2 [] (length k / 2 ^ 8 ∷ length k % 2 ^ 8 ∷ []) (k ++ (blob_bytes v ++ rest)) refl
        (omega arith) refl (room (off + 2) (omega arith) (omega (arith, total)))

  key_stretch : slice (off + 2) (length k) (window_at pos raf) ≡ k
  key_stretch =
      stretch (off + 2) (length k) (length k / 2 ^ 8 ∷ length k % 2 ^ 8 ∷ []) k
        (blob_bytes v ++ rest) refl (omega arith) refl
        (room (off + 2 + length k) (omega arith) (omega (arith, total)))

  -- What is read behind the key, from the prefix byte on.
  after_key :
      (j m : ℕ) (a b c : List ℕ)
      → blob_head (length v) ≡ a ++ (b ++ c)
      → j ≡ off + 2 + length k + length a
      → m ≡ length b
      → length a + length b ≤ 5
      → slice j m (window_at pos raf) ≡ b
  after_key j m a b c e p q h =
      stretch j m (key_bytes k ++ a) b (c ++ (v ++ rest))
        (rw (e, append_assoc, append_assoc, append_assoc, append_assoc) refl)
        (omega (arith, length-append k a)) q
        (room (j + m) (omega (arith)) (
          omega (
            arith,
            total,
            ap length e,
            length-append a (b ++ c),
            length-append b c,
            length-append (blob_head (length v)) v,
          )))

  value_behind :
      (j : ℕ)
      → j ≡ off + 2 + length k + length (blob_head (length v))
      → drop (pos + j) raf.content ≡ v ++ rest
  value_behind j e =
      let at : j ≡ off + length (key_bytes k ++ blob_head (length v)) =
        omega (arith, length-append (key_bytes k) (blob_head (length v))) in
      rw at (
        behind (key_bytes k ++ blob_head (length v)) (v ++ rest)
          (rw (append_assoc, append_assoc) refl))

  key_fits : ltb (found_at pos raf) (off + 2 + length k + 1) ≡ false
  key_fits = le→ltb (found_at pos raf) (off + 2 + length k + 1) (
      room (off + 2 + length k + 1) (omega arith) (
        omega
          (arith, total, blob_head_nonempty (length v), length-append (blob_head (length v)) v)))

  -- The rest, from the prefix byte on.
  from_prefix :
      (prefix width : ℕ)
      → big_endian_uint (slice (off + 2 + length k) 1 (window_at pos raf)) ≡ prefix
      → (prefix == 0) ≡ false
      → blob_length prefix (found_at pos raf) (off + 2 + length k + 1) (window_at pos raf)
        ≡ ok (length v, width)
      → length (blob_head (length v)) ≡ 1 + width
      → width ≤ 4
      → key_and_blob pos (found_at pos raf) off (window_at pos raf) raf ≡ ok (laid_out off k v)
  unfolding key_and_blob
  from_prefix prefix width p z l w u =
      let kl : big_endian_uint (slice off 2 (window_at pos raf)) ≡ length k =
        rw key_length_bytes (omega arith) in
      let tail =
        blob_tail_lem pos raf (off + 2 + length k + 1 + width) v rest
          (value_behind _ (omega (arith, w)))
          (room _ (omega arith)
            (omega (arith, total, w, length-append (blob_head (length v)) v))) in
      let e : off + 2 + length k + 1 + width + length v
          ≡ off + (2 + length k + length (blob_bytes v)) =
        omega (arith, w, length-append (blob_head (length v)) v) in
      rw (kl, key_fits, p, z, l, tail, key_stretch, e) refl

  -- The prefix, for each form that the length takes.
  prefix_read :
      (b : ℕ) (c : List ℕ)
      → blob_head (length v) ≡ b ∷ c
      → big_endian_uint (slice (off + 2 + length k) 1 (window_at pos raf)) ≡ b
  prefix_read b c e =
      ap big_endian_uint (after_key _ 1 [] (b ∷ []) c e (omega arith) refl (omega arith))
      ∙ omega arith

  in_prefix :
      (length v == 0) ≡ false
      → leb (length v) 253 ≡ true
      → key_and_blob pos (found_at pos raf) off (window_at pos raf) raf ≡ ok (laid_out off k v)
  unfolding blob_length blob_head
  in_prefix z e =
      let h : blob_head (length v) ≡ length v ∷ [] = rw (z, e) refl in
      from_prefix (length v) 0 (prefix_read (length v) [] h) z (ground arith) (ap length h)
        (omega arith)

  tight :
      (w : ℕ)
      → w ≤ 4
      → 1 + w ≤ length (blob_head (length v))
      → ltb (found_at pos raf) (off + 2 + length k + 1 + w) ≡ false
  tight w u h = le→ltb (found_at pos raf) (off + 2 + length k + 1 + w) (
      room (off + 2 + length k + 1 + w) (omega arith)
        (omega (arith, total, length-append (blob_head (length v)) v)))

  in_two_bytes :
      (length v == 0) ≡ false
      → leb (length v) 253 ≡ false
      → leb (length v) 65535 ≡ true
      → key_and_blob pos (found_at pos raf) off (window_at pos raf) raf ≡ ok (laid_out off k v)
  unfolding blob_length blob_head
  in_two_bytes z y e =
      let c = length v / 2 ^ 8 ∷ length v % 2 ^ 8 ∷ [] in
      let h : blob_head (length v) ≡ 255 ∷ c = rw (z, y, e) refl in
      let s =
        after_key (off + 2 + length k + 1) 2 (255 ∷ []) c [] h (omega arith) refl (omega arith) in
      from_prefix 255 2 (prefix_read 255 c h) refl
        (rw (tight 2 (omega arith) (omega (arith, ap length h)), s)
          (ap (λ (x : ℕ). ok (x, 2)) (omega arith)))
        (ap length h) (omega arith)

  in_four_bytes :
      (length v == 0) ≡ false
      → leb (length v) 253 ≡ false
      → leb (length v) 65535 ≡ false
      → key_and_blob pos (found_at pos raf) off (window_at pos raf) raf ≡ ok (laid_out off k v)
  unfolding blob_length blob_head bytes4
  in_four_bytes z y e =
      let c = bytes4 (length v) in
      let h : blob_head (length v) ≡ 254 ∷ c = rw (z, y, e) refl in
      let s =
        after_key (off + 2 + length k + 1) 4 (254 ∷ []) c [] h (omega arith) refl (omega arith) in
      from_prefix 254 4 (prefix_read 254 c h) refl
        (rw (tight 4 (omega arith) (omega (arith, ap length h)), s)
          (ap (λ (x : ℕ). ok (x, 4)) (omega arith)))
        (ap length h) (omega arith)

  nothing :
      (length v == 0) ≡ true
      → key_and_blob pos (found_at pos raf) off (window_at pos raf) raf ≡ ok (laid_out off k v)
  unfolding key_and_blob blob_head
  nothing z =
      let h : blob_head (length v) ≡ 0 ∷ [] = rw z refl in
      let p = prefix_read 0 [] h in
      let kl : big_endian_uint (slice off 2 (window_at pos raf)) ≡ length k =
        rw key_length_bytes (omega arith) in
      let e : off + 2 + length k + 1 ≡ off + (2 + length k + length (blob_bytes v)) = omega (
        arith,
        ap length h,
        ap length (nil_of_empty v z),
        length-append (blob_head (length v)) v,
      ) in
      rw (kl, key_fits, p, key_stretch, e)
        (ap
          (λ (x : List ℕ).
            ok (record {
              key = k;
              blob = x;
              end_off = off + (2 + length k + length (blob_bytes v));
            }))
          (sym (nil_of_empty v z)))

  -- Whatever form the length of the blob takes.
  pub key_and_blob_lem :
      key_and_blob pos (found_at pos raf) off (window_at pos raf) raf ≡ ok (laid_out off k v)
  key_and_blob_lem = elim (Bool-cases (length v == 0)) [
    | inl e ↦ nothing e
    | inr z ↦ elim (Bool-cases (leb (length v) 253)) [
      | inl e ↦ in_prefix z e
      | inr y ↦ elim (Bool-cases (leb (length v) 65535)) [
        | inl e ↦ in_two_bytes z y e
        | inr e ↦ in_four_bytes z y e
      ]
    ]
  ]
