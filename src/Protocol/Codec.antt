-- ===== src/Protocol/Codec.antt =====
-- A writer and a reader that belong together: what the one appends the other takes, whatever
-- stands before and behind it. The rules follow the order of the writes and reads.
use scouter_server_go.Common.{
  ℕ, ◌+◌, ◌≡◌, refl, sym, ap, ◌∙◌, List, [], ◌++◌, append-nil, append_assoc, length, drop,
  length-append, drop-drop, Bool, true, false, if◌then◌else◌, drop-append_length, arith,
}
use scouter_server_go.Protocol.Output.{DataOutputX, Writer, ◌⨾◌, write_none, write}
use scouter_server_go.Protocol.Input.{
  DataInputX, Reader, ok, new_input_offset, advance, return, ◌>>=◌, then_with,
}

pub record RoundTrips {ℓ} {A : Type ℓ} (w : Writer) (r : Reader A) (a : A) : Type ℓ where
  pub bytes : List ℕ
  pub writes : (o : DataOutputX) → w o ≡ write bytes o
  pub reads :
      (d : DataInputX) (rest : List ℕ)
      → drop d.offset d.buf ≡ bytes ++ rest
      → r d ≡ ok (a, advance d (length bytes))

pub write-write : (a b : List ℕ) (o : DataOutputX) → write b (write a o) ≡ write (a ++ b) o
unfolding write
write-write a b o = ground (arith, append_assoc o.buf a b, length-append a b)

pub advance-advance : (d : DataInputX) (m n : ℕ) → advance (advance d m) n ≡ advance d (m + n)
unfolding advance
advance-advance d m n = ground arith

-- Behind the first part of what is at the offset stands the second.
pub drop-advance :
    (d : DataInputX) (a rest : List ℕ)
    → drop d.offset d.buf ≡ a ++ rest
    → drop (advance d (length a)).offset (advance d (length a)).buf ≡ rest
unfolding advance
drop-advance d a rest h = drop-drop d.offset (length a) d.buf ∙ rw h (drop-append_length a rest)

module _ {ℓ} {A : Type ℓ} where
  pub RoundTrips-return : (a : A) → RoundTrips write_none (return a) a
  unfolding write_none return write advance
  RoundTrips-return a = record {
    bytes = [];
    writes = λ o. ground (arith, append-nil o.buf);
    reads = λ d rest h. ground arith;
  }

  pub RoundTrips-seq {κ} :
      {B : Type κ} {w v : Writer} {r : Reader A} (f : A → Reader B) {a : A} {b : B}
      → RoundTrips w r a
      → RoundTrips v (f a) b
      → RoundTrips (w ⨾ v) (r >>= f) b
  unfolding ◌⨾◌ ◌>>=◌
  RoundTrips-seq f {a} {b} p q = record {
    bytes = p.bytes ++ q.bytes;
    writes = λ o. rw (p.writes o) (q.writes (write p.bytes o) ∙ write-write p.bytes q.bytes o);
    reads = λ d rest h.
        let h' = h ∙ append_assoc p.bytes q.bytes rest in
        ap (λ x. then_with x f) (p.reads d (q.bytes ++ rest) h')
        ∙ q.reads (advance d (length p.bytes)) rest (drop-advance d p.bytes (q.bytes ++ rest) h')
        ∙ ap (λ (e : DataInputX). ok (b, e))
            (advance-advance d (length p.bytes) (length q.bytes)
              ∙ ap (advance d) (sym (length-append p.bytes q.bytes)));
  }

  -- The last read, and what is made of its value.
  pub RoundTrips-last {κ} :
      {B : Type κ} {w : Writer} {r : Reader A} {a : A} (g : A → B)
      → RoundTrips w r a
      → RoundTrips w (r >>= λ x. return (g x)) (g a)
  unfolding ◌>>=◌ return
  RoundTrips-last {a = a} g p = record {
    bytes = p.bytes;
    writes = p.writes;
    reads = λ d rest h. ap (λ x. then_with x (λ x. return (g x))) (p.reads d rest h);
  }

  -- The statement at a position of a buffer: what was written after `o` is read from there.
  pub read-write :
      {w : Writer} {r : Reader A} {a : A} (o : DataOutputX) (rest : List ℕ)
      → RoundTrips w r a
      → r (new_input_offset ((w o).buf ++ rest) (length o.buf))
        ≡ ok (a, new_input_offset ((w o).buf ++ rest) (length (w o).buf))
  unfolding new_input_offset write advance
  read-write {w} {r} {a} o rest p = rw (p.writes o) (
      p.reads _ rest (rw append_assoc (drop-append_length o.buf (p.bytes ++ rest)))
      ∙ rw length-append)

  -- What follows the read returns without a read of its own.
  pub RoundTrips-then {κ} :
      {B : Type κ} {w : Writer} {r : Reader A} (f : A → Reader B) {a : A} {b : B}
      → RoundTrips w r a
      → ((d : DataInputX) → f a d ≡ ok (b, d))
      → RoundTrips w (r >>= f) b
  unfolding ◌>>=◌
  RoundTrips-then f p e = record {
    bytes = p.bytes;
    writes = p.writes;
    reads = λ d rest h. ap (λ x. then_with x f) (p.reads d rest h) ∙ e (advance d (length p.bytes));
  }

  pub RoundTrips-if :
      (b : Bool) {w v : Writer} {r : Reader A} {a : A}
      → (b ≡ true → RoundTrips w r a)
      → (b ≡ false → RoundTrips v r a)
      → RoundTrips (if b then w else v) r a
  RoundTrips-if true p q = p refl
  RoundTrips-if false p q = q refl

-- A writer that appends the same bytes to every buffer.
pub record Appends (w : Writer) : Type 0 where
  pub bytes : List ℕ
  pub writes : (o : DataOutputX) → w o ≡ write bytes o

unfoldable pub RoundTrips-Appends {ℓ} :
    {A : Type ℓ} {w : Writer} {r : Reader A} {a : A} → RoundTrips w r a → Appends w
RoundTrips-Appends p = record { bytes = p.bytes; writes = p.writes }

unfoldable pub Appends-none : Appends write_none
unfolding write_none write
Appends-none = record { bytes = []; writes = λ o. ground (arith, append-nil o.buf) }

unfoldable pub Appends-seq : {w v : Writer} → Appends w → Appends v → Appends (w ⨾ v)
unfolding ◌⨾◌
Appends-seq p q = record {
  bytes = p.bytes ++ q.bytes;
  writes = λ o. rw (p.writes o) (q.writes (write p.bytes o) ∙ write-write p.bytes q.bytes o);
}
