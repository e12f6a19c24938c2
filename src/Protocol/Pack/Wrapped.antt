-- ===== src/Protocol/Pack/Wrapped.antt =====
-- The packs whose fields are written to a buffer of their own, which is then written as a blob.
use scouter_server_go.Common.{
  ℕ, ◌<◌, ◌≡◌, refl, List, [], ◌∷◌, length, arith, if◌then◌else◌, ltb, ◌-◌, append-nil, ◌++◌, ap,
  ◌∙◌, sym, lt→ltb, length-drop, length-append,
}
use scouter_server_go.Protocol.Output.{DataOutputX, new_output, write, Writer, write_blob}
use scouter_server_go.Protocol.Input.{
  DataInputX, eof, Result, ok, err, panic, stuck, new_input, available, advance, Reader, ◌>>=◌,
  read_blob,
}
use scouter_server_go.Protocol.Codec.{RoundTrips, RoundTrips-then}
use scouter_server_go.Protocol.SliceCodec.{IsBlob, RoundTrips-blob}

-- `o.WriteBlob(inner.ToByteArray())`, with the fields that `w` writes to a new buffer.
unfoldable pub inner_bytes : Writer → List ℕ
unfolding new_output
inner_bytes w = (w new_output).buf

unfoldable pub write_wrapped : Writer → Writer
write_wrapped w = write_blob (inner_bytes w)

-- What the inner reader returned; where it stopped is dropped with it.
abbrev pub resume {ℓ} :
    {A : Type ℓ} → Result (A × DataInputX) → DataInputX → Result (A × DataInputX)
resume (ok (a, _)) d = ok (a, d)
resume (err e) d = err e
resume panic d = panic
resume stuck d = stuck

unfoldable pub read_within {ℓ} : {A : Type ℓ} → List ℕ → Reader A → Reader A
unfolding new_input
read_within blob r d = resume (r (new_input blob)) d

unfoldable pub read_wrapped {ℓ} : {A : Type ℓ} → Reader A → Reader A
unfolding read_within
read_wrapped r = do blob ← read_blob; read_within blob r

-- `if d.Available() > 0 { ... }`: the fields of a group, or those of a new pack.
unfoldable pub if_available {ℓ} : {A : Type ℓ} → Reader A → A → Reader A
unfolding available
if_available r a d = if ltb 0 (available d) then r d else ok (a, d)

module _ {ℓ} {A : Type ℓ} {w : Writer} {r : Reader A} {a : A} where
  pub inner_bytes_lem : (p : RoundTrips w r a) → inner_bytes w ≡ p.bytes
  unfolding inner_bytes write
  inner_bytes_lem p = ap (λ (o : DataOutputX). o.buf) (p.writes new_output)

  -- The inner buffer read from its start, with nothing behind it.
  pub inner_read :
      (p : RoundTrips w r a)
      → r (new_input (inner_bytes w)) ≡ ok (a, advance (new_input (inner_bytes w)) (length p.bytes))
  unfolding new_input
  inner_read p = p.reads _ [] (inner_bytes_lem p ∙ sym (append-nil p.bytes))

  pub RoundTrips-wrapped :
      RoundTrips w r a → IsBlob (inner_bytes w) → RoundTrips (write_wrapped w) (read_wrapped r) a
  unfolding write_wrapped read_wrapped
  RoundTrips-wrapped p h =
      RoundTrips-then _ (RoundTrips-blob (inner_bytes w) h)
        (λ d. ap (λ x. resume x d) (inner_read p))

  -- A reader that fails on the empty input took at least a byte.
  bytes_pos : (p : RoundTrips w r a) → r (new_input []) ≡ err eof → 0 < length p.bytes
  unfolding new_input
  bytes_pos p e = nonempty p.bytes (p.reads (record { buf = []; offset = 0 }) [])
    where
      nonempty :
          (b : List ℕ)
          → ([] ≡ b ++ []
              → r (record { buf = []; offset = 0 })
                ≡ ok (a, advance (record { buf = []; offset = 0 }) (length b)))
          → 0 < length b
      nonempty [] reads = cc (e, reads refl)
      nonempty (x ∷ b) reads = omega arith

  -- A group that starts with a read is not skipped where it was written.
  pub RoundTrips-available :
      (b : A) → r (new_input []) ≡ err eof → RoundTrips w r a → RoundTrips w (if_available r b) a
  unfolding if_available
  RoundTrips-available b e p = record {
    bytes = p.bytes;
    writes = p.writes;
    reads = λ d rest h.
        let more : 0 < length d.buf - d.offset = omega (
          arith,
          bytes_pos p e,
          ap length h,
          length-drop d.offset d.buf,
          length-append p.bytes rest,
        ) in
        rw (lt→ltb _ _ more) (p.reads d rest h);
  }
