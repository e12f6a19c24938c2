-- ===== src/Protocol/LongArrays.antt =====
-- The arrays of internal/protocol/dataoutx.go that are too long for the int16 of their length, as
-- the readers of internal/protocol/datainx.go see them.
use scouter_server_go.Common.{
  ℕ, ◌^◌, ◌≤◌, ◌<◌, ◌≡◌, ltb, if◌then◌else◌, refl, ap, ◌∙◌, List, [], ◌∷◌, ◌++◌, append_assoc,
  length, drop, drop-append_length, arith,
}
use scouter_server_go.Protocol.Word.{to_i16}
use scouter_server_go.Protocol.Output.{
  DataOutputX, Writer, ◌⨾◌, write, write_int16, write_int32, write_each, write_array_int,
}
use scouter_server_go.Protocol.Input.{
  DataInputX, Reader, panic, crash, ◌>>=◌, then_with, new_input_offset, read_int16, read_int32,
  read_times, read_array, read_array_int,
}
use scouter_server_go.Protocol.Codec.{RoundTrips, Appends, Appends-none, Appends-seq, write-write}
use scouter_server_go.Protocol.WordCodec.{RoundTrips-int16}

Appends-int32 : (v : ℕ) → Appends (write_int32 v)
unfolding write_int32 write
Appends-int32 v = record { bytes = _; writes = λ o. refl }

Appends-int32s : (xs : List ℕ) → Appends (write_each write_int32 xs)
unfolding write_each
Appends-int32s [] = Appends-none
Appends-int32s (x ∷ xs) = Appends-seq (Appends-int32 x) (Appends-int32s xs)

at_end :
    (o : DataOutputX) (a b rest : List ℕ)
    → drop (length o.buf) ((write (a ++ b) o).buf ++ rest) ≡ a ++ (b ++ rest)
unfolding write
at_end o a b rest =
    ap (drop (length o.buf)) (append_assoc o.buf (a ++ b) rest)
    ∙ drop-append_length o.buf ((a ++ b) ++ rest)
    ∙ append_assoc a b rest

-- A length that is negative as an int16 stands at the offset.
read_array_panics :
    (m : ℕ) (r : Reader ℕ) (q : RoundTrips (write_int16 m) read_int16 m) (d : DataInputX)
    (rest : List ℕ)
    → 2 ^ 15 ≤ m
    → drop d.offset d.buf ≡ q.bytes ++ rest
    → read_array r d ≡ panic
unfolding read_array ◌>>=◌ crash
read_array_panics m r q d rest h at =
    let k = λ (n : ℕ). if ltb n (2 ^ 15) then read_times n r else crash in
    ap (λ x. then_with x k) (q.reads d rest at) ∙ ground arith

written_panics :
    (n : ℕ) (w : Writer) (r : Reader ℕ) (o : DataOutputX) (rest : List ℕ)
    → 2 ^ 15 ≤ n
    → n < 2 ^ 16
    → Appends w
    → read_array r (new_input_offset (((write_int16 (to_i16 n) ⨾ w) o).buf ++ rest) (length o.buf))
      ≡ panic
unfolding new_input_offset ◌⨾◌
written_panics n w r o rest h l p =
    let q = RoundTrips-int16 (to_i16 n) (omega arith) in
    let same = ap w (q.writes o) ∙ p.writes (write q.bytes o) ∙ write-write q.bytes p.bytes o in
    read_array_panics (to_i16 n) r q _ (p.bytes ++ rest) (omega arith) (
      ap (λ (x : DataOutputX). drop (length o.buf) (x.buf ++ rest)) same
      ∙ at_end o q.bytes p.bytes rest)

-- An int32 array of 2^15 up to 2^16 - 1 elements is written without an error, and ReadArrayInt
-- panics on what was written: its length comes back as a negative int16.
pub read_array_int-write_array_int_panics :
    (v : List ℕ) (o : DataOutputX) (rest : List ℕ)
    → 2 ^ 15 ≤ length v
    → length v < 2 ^ 16
    → read_array_int (new_input_offset ((write_array_int v o).buf ++ rest) (length o.buf)) ≡ panic
unfolding read_array_int write_array_int
read_array_int-write_array_int_panics v o rest h l =
    written_panics (length v) _ read_int32 o rest h l (Appends-int32s v)
