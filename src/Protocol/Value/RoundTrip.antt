-- ===== src/Protocol/Value/RoundTrip.antt =====
-- ReadValue reads back what WriteValue wrote, with every nil as a NullValue.
use mathlib.Core.Path.{subst}
use Prim.Native.Nat.{max}
use scouter_server_go.Common.{
  ℕ, zero, suc, ◌%◌, ◌^◌, ◌≤◌, ◌<◌, ◌≡◌, List, [], ◌∷◌, ◌++◌, length, All, arith, ltb,
  if◌then◌else◌,
}
use scouter_server_go.Protocol.Word.{IsI32, IsI64}
use scouter_server_go.Protocol.Output.{DataOutputX, ◌⨾◌, write_text, write_decimal, write}
use scouter_server_go.Protocol.Input.{
  Reader, ok, new_input_offset, return, crash, read_text, read_decimal, read, read_created, ◌>>=◌,
}
use scouter_server_go.Protocol.Codec.{
  RoundTrips, RoundTrips-return, RoundTrips-seq, RoundTrips-last, read-write,
}
use scouter_server_go.Protocol.WordCodec.{
  RoundTrips-bytes, RoundTrips-byte, RoundTrips-boolean, RoundTrips-int32, RoundTrips-int64,
  RoundTrips-float32, RoundTrips-float64,
}
use scouter_server_go.Protocol.DecimalCodec.{RoundTrips-decimal}
use scouter_server_go.Protocol.SliceCodec.{
  IsBlob, RoundTrips-blob, RoundTrips-text, RoundTrips-array, RoundTrips-array_int,
  RoundTrips-array_long, RoundTrips-array_float,
}
use scouter_server_go.Protocol.Value.{
  DoubleSummary, LongSummary, Value, Values, Entries, nil, null_value, boolean_value, decimal_value,
  float_value, double_value, double_summary, long_summary, text_value, text_hash_value, blob_value,
  ip4_value, list_value, int_array, float_array, text_array, long_array, map_value, no_values,
  value_and, no_entries, entry_and, length_values, length_entries, value_type, write_double_summary,
  write_long_summary, write_text_array, write_body, write_values, write_entries, write_value,
}
use scouter_server_go.Protocol.Value.Read.{
  read_double_summary, read_long_summary, read_text_array, ip4_of, read_values, read_entries,
  read_list_value, read_map_value, create_value, read_value,
}

-- What comes back: a nil is written as a NullValue.
abbrev mutual
  pub erase_nil : Value → Value
  erase_nil nil = null_value
  erase_nil (list_value vs) = list_value (erase_nil_values vs)
  erase_nil (map_value es) = map_value (erase_nil_entries es)
  erase_nil v = v

  pub erase_nil_values : Values → Values
  erase_nil_values no_values = no_values
  erase_nil_values (value_and v vs) = value_and (erase_nil v) (erase_nil_values vs)

  pub erase_nil_entries : Entries → Entries
  erase_nil_entries no_entries = no_entries
  erase_nil_entries (entry_and k v es) = entry_and k (erase_nil v) (erase_nil_entries es)

-- The fields are what their Go types hold, and each slice is of a length that its prefix can say.
abbrev mutual
  pub IsValue : Value → Type 0
  IsValue nil = Unit
  IsValue null_value = Unit
  IsValue (boolean_value b) = Unit
  IsValue (decimal_value n) = IsI64 n
  IsValue (float_value f) = IsI32 f
  IsValue (double_value f) = IsI64 f
  IsValue (double_summary s) = IsI64 s.sum × IsI32 s.count × IsI64 s.min × IsI64 s.max
  IsValue (long_summary s) = IsI64 s.sum × IsI32 s.count × IsI64 s.min × IsI64 s.max
  IsValue (text_value t) = IsBlob t
  IsValue (text_hash_value h) = IsI32 h
  IsValue (blob_value b) = IsBlob b
  IsValue (ip4_value a b c d) = Unit
  IsValue (list_value vs) = (length_values vs < 2 ^ 63) × IsValues vs
  IsValue (int_array v) = (length v < 2 ^ 15) × All IsI32 v
  IsValue (float_array v) = (length v < 2 ^ 15) × All IsI32 v
  IsValue (text_array v) = (length v < 2 ^ 15) × All IsBlob v
  IsValue (long_array v) = (length v < 2 ^ 15) × All IsI64 v
  IsValue (map_value es) = (length_entries es < 2 ^ 63) × IsEntries es

  pub IsValues : Values → Type 0
  IsValues no_values = Unit
  IsValues (value_and v vs) = IsValue v × IsValues vs

  pub IsEntries : Entries → Type 0
  IsEntries no_entries = Unit
  IsEntries (entry_and k v es) = IsBlob k × IsValue v × IsEntries es

-- How deep a value is nested: the fuel that ReadValue takes for it.
abbrev mutual
  pub depth : Value → ℕ
  depth (list_value vs) = suc (depth_values vs)
  depth (map_value es) = suc (depth_entries es)
  depth v = 1

  pub depth_values : Values → ℕ
  depth_values no_values = 0
  depth_values (value_and v vs) = max (depth v) (depth_values vs)

  pub depth_entries : Entries → ℕ
  depth_entries no_entries = 0
  depth_entries (entry_and k v es) = max (depth v) (depth_entries es)

depth_pos : (v : Value) → 0 < depth v
depth_pos nil = omega arith
depth_pos _ = omega arith

RoundTrips-double_summary :
    (s : DoubleSummary)
    → IsValue (double_summary s)
    → RoundTrips (write_double_summary s) read_double_summary s
unfolding write_double_summary read_double_summary
RoundTrips-double_summary s (hs, hc, hm, hx) = RoundTrips-seq _ (RoundTrips-float64 s.sum hs) (
    RoundTrips-seq _ (RoundTrips-int32 s.count hc) (
      RoundTrips-seq _ (RoundTrips-float64 s.min hm)
        (RoundTrips-last _ (RoundTrips-float64 s.max hx))))

RoundTrips-long_summary :
    (s : LongSummary)
    → IsValue (long_summary s)
    → RoundTrips (write_long_summary s) read_long_summary s
unfolding write_long_summary read_long_summary
RoundTrips-long_summary s (hs, hc, hm, hx) = RoundTrips-seq _ (RoundTrips-int64 s.sum hs) (
    RoundTrips-seq _ (RoundTrips-int32 s.count hc) (
      RoundTrips-seq _ (RoundTrips-int64 s.min hm) (RoundTrips-last _ (RoundTrips-int64 s.max hx))))

RoundTrips-ip4 :
    (a b c d : ℕ)
    → RoundTrips
        (write (a ∷ b ∷ c ∷ d ∷ []))
        (read 4 >>= λ x. return (ip4_of x))
        (ip4_value a b c d)
unfolding read ip4_of
RoundTrips-ip4 a b c d =
    RoundTrips-last ip4_of (RoundTrips-bytes (a ∷ b ∷ c ∷ d ∷ []) (omega arith))

RoundTrips-text_array :
    (v : List (List ℕ))
    → length v < 2 ^ 15
    → All IsBlob v
    → RoundTrips (write_text_array v) read_text_array v
unfolding write_text_array read_text_array
RoundTrips-text_array = RoundTrips-array write_text read_text IsBlob RoundTrips-text

-- A count, and then as many elements.
counted :
    {A : Type 0} (n : ℕ) (r : ℕ → Reader A) {a : A} {w : DataOutputX → DataOutputX}
    → n < 2 ^ 63
    → RoundTrips w (r n) a
    → RoundTrips
        (write_decimal (n % 2 ^ 64) ⨾ w)
        (read_decimal >>= λ k. if ltb k (2 ^ 63) then r k else crash)
        a
counted n r {a} {w} h p =
    RoundTrips-seq _ (RoundTrips-decimal (n % 2 ^ 64) (omega arith))
      (subst (λ m. RoundTrips w m a) (ground arith) p)

mutual
  unfolding write_body write_values write_entries read_value read_created create_value read_values
      read_entries read_list_value read_map_value

  RoundTrips-body :
      (v : Value) (f : ℕ)
      → IsValue v
      → depth v ≤ suc f
      → RoundTrips
          (write_body v)
          (read_created (value_type v) (create_value (read_value f) (value_type v)))
          (erase_nil v)
  RoundTrips-body nil f h d = RoundTrips-return null_value
  RoundTrips-body null_value f h d = RoundTrips-return null_value
  RoundTrips-body (boolean_value b) f h d = RoundTrips-last _ (RoundTrips-boolean b)
  RoundTrips-body (decimal_value n) f h d = RoundTrips-last _ (RoundTrips-decimal n h)
  RoundTrips-body (float_value x) f h d = RoundTrips-last _ (RoundTrips-float32 x h)
  RoundTrips-body (double_value x) f h d = RoundTrips-last _ (RoundTrips-float64 x h)
  RoundTrips-body (double_summary s) f h d = RoundTrips-last _ (RoundTrips-double_summary s h)
  RoundTrips-body (long_summary s) f h d = RoundTrips-last _ (RoundTrips-long_summary s h)
  RoundTrips-body (text_value t) f h d = RoundTrips-last _ (RoundTrips-text t h)
  RoundTrips-body (text_hash_value x) f h d = RoundTrips-last _ (RoundTrips-int32 x h)
  RoundTrips-body (blob_value b) f h d = RoundTrips-last _ (RoundTrips-blob b h)
  RoundTrips-body (ip4_value a b c e) f h d = RoundTrips-ip4 a b c e
  RoundTrips-body (list_value vs) f h d =
      RoundTrips-last _ (counted _ _ h.0 (RoundTrips-values vs f h.1 (omega arith)))
  RoundTrips-body (int_array v) f h d = RoundTrips-last _ (RoundTrips-array_int v h.0 h.1)
  RoundTrips-body (float_array v) f h d = RoundTrips-last _ (RoundTrips-array_float v h.0 h.1)
  RoundTrips-body (text_array v) f h d = RoundTrips-last _ (RoundTrips-text_array v h.0 h.1)
  RoundTrips-body (long_array v) f h d = RoundTrips-last _ (RoundTrips-array_long v h.0 h.1)
  RoundTrips-body (map_value es) f h d =
      RoundTrips-last _ (counted _ _ h.0 (RoundTrips-entries es f h.1 (omega arith)))

  RoundTrips-values :
      (vs : Values) (f : ℕ)
      → IsValues vs
      → depth_values vs ≤ f
      → RoundTrips
          (write_values vs)
          (read_values (length_values vs) (read_value f))
          (erase_nil_values vs)
  RoundTrips-values no_values f h d = RoundTrips-return no_values
  RoundTrips-values (value_and v vs) zero h d = absurd (omega (arith, depth_pos v))
  RoundTrips-values (value_and v vs) (suc f) h d =
      RoundTrips-seq _
        (RoundTrips-seq _ (RoundTrips-byte (value_type v)) (RoundTrips-body v f h.0 (omega arith)))
        (RoundTrips-last _ (RoundTrips-values vs (suc f) h.1 (omega arith)))

  RoundTrips-entries :
      (es : Entries) (f : ℕ)
      → IsEntries es
      → depth_entries es ≤ f
      → RoundTrips
          (write_entries es)
          (read_entries (length_entries es) (read_value f))
          (erase_nil_entries es)
  RoundTrips-entries no_entries f h d = RoundTrips-return no_entries
  RoundTrips-entries (entry_and k v es) zero h d = absurd (omega (arith, depth_pos v))
  RoundTrips-entries (entry_and k v es) (suc f) h d = RoundTrips-seq _ (RoundTrips-text k h.0) (
      RoundTrips-seq _
        (RoundTrips-seq _ (RoundTrips-byte (value_type v)) (RoundTrips-body v f h.1 (omega arith)))
        (RoundTrips-last _ (RoundTrips-entries es (suc f) h.2 (omega arith))))

-- A count and the entries behind it: the body of a MapValue, and the whole of a MapPack.
pub RoundTrips-map_value :
    (es : Entries) (f : ℕ)
    → length_entries es < 2 ^ 63
    → IsEntries es
    → depth_entries es ≤ f
    → RoundTrips
        (write_decimal (length_entries es % 2 ^ 64) ⨾ write_entries es)
        (read_map_value (read_value f))
        (erase_nil_entries es)
unfolding read_map_value
RoundTrips-map_value es f h v d = counted _ _ h (RoundTrips-entries es f v d)

pub RoundTrips-value :
    (v : Value) (f : ℕ)
    → IsValue v
    → depth v ≤ f
    → RoundTrips (write_value v) (read_value f) (erase_nil v)
unfolding write_value read_value
RoundTrips-value v zero h d = absurd (omega (arith, depth_pos v))
RoundTrips-value v (suc f) h d =
    RoundTrips-seq _ (RoundTrips-byte (value_type v)) (RoundTrips-body v f h d)

-- A valid value that was written anywhere in a buffer is read back from there, with each nil in it
-- as a NullValue, and the offset is then just behind it. The fuel is at least the value's depth.
pub read_value-write_value :
    (v : Value) (f : ℕ) (o : DataOutputX) (rest : List ℕ)
    → IsValue v
    → depth v ≤ f
    → read_value f (new_input_offset ((write_value v o).buf ++ rest) (length o.buf))
      ≡ ok (
        erase_nil v,
        new_input_offset ((write_value v o).buf ++ rest) (length (write_value v o).buf),
      )
read_value-write_value v f o rest h d = read-write o rest (RoundTrips-value v f h d)
