-- ===== src/Protocol/Value.antt =====
-- The values of internal/protocol/value: the type codes, the Go types behind the interface Value,
-- and WriteValue.
pub mod Read
pub mod RoundTrip
use scouter_server_go.Common.{ℕ, suc, ◌%◌, ◌^◌, Bool, List, [], ◌∷◌, length}
use scouter_server_go.Protocol.Word.{to_i16}
use scouter_server_go.Protocol.Output.{
  Writer, ◌⨾◌, write_none, write, write_byte, write_boolean, write_int16, write_int32, write_int64,
  write_float32, write_float64, write_decimal, write_blob, write_text, write_each, write_array_int,
  write_array_long, write_array_float,
}

-- The sums are float64s by their bit patterns.
pub record DoubleSummary : Type 0 where
  pub sum : ℕ
  pub count : ℕ
  pub min : ℕ
  pub max : ℕ

pub record LongSummary : Type 0 where
  pub sum : ℕ
  pub count : ℕ
  pub min : ℕ
  pub max : ℕ

-- `nil` is a nil interface, or an interface that holds a nil pointer. A float stands for its bits.
mutual
  pub data Value : Type 0 where
    nil : Value
    null_value : Value
    boolean_value : Bool → Value
    decimal_value : ℕ → Value
    float_value : ℕ → Value
    double_value : ℕ → Value
    double_summary : DoubleSummary → Value
    long_summary : LongSummary → Value
    text_value : List ℕ → Value
    text_hash_value : ℕ → Value
    blob_value : List ℕ → Value
    ip4_value : ℕ → ℕ → ℕ → ℕ → Value
    list_value : Values → Value
    int_array : List ℕ → Value
    float_array : List ℕ → Value
    text_array : List (List ℕ) → Value
    long_array : List ℕ → Value
    map_value : Entries → Value

  -- []Value
  pub data Values : Type 0 where
    no_values : Values
    value_and : Value → Values → Values

  -- []MapEntry
  pub data Entries : Type 0 where
    no_entries : Entries
    entry_and : List ℕ → Value → Entries → Entries

abbrev pub length_values : Values → ℕ
length_values no_values = 0
length_values (value_and v vs) = suc (length_values vs)

abbrev pub length_entries : Entries → ℕ
length_entries no_entries = 0
length_entries (entry_and k v es) = suc (length_entries es)

-- `ValueType()`, of a NullValue where `isNilValue` holds.
abbrev pub value_type : Value → ℕ
value_type nil = 0
value_type null_value = 0
value_type (boolean_value b) = 10
value_type (decimal_value n) = 20
value_type (float_value f) = 30
value_type (double_value f) = 40
value_type (double_summary s) = 45
value_type (long_summary s) = 46
value_type (text_value t) = 50
value_type (text_hash_value h) = 51
value_type (blob_value b) = 60
value_type (ip4_value a b c d) = 61
value_type (list_value vs) = 70
value_type (int_array v) = 71
value_type (float_array v) = 72
value_type (text_array v) = 73
value_type (long_array v) = 74
value_type (map_value es) = 80

unfoldable pub write_double_summary : DoubleSummary → Writer
write_double_summary s =
    write_float64 s.sum ⨾ write_int32 s.count ⨾ write_float64 s.min ⨾ write_float64 s.max

unfoldable pub write_long_summary : LongSummary → Writer
write_long_summary s =
    write_int64 s.sum ⨾ write_int32 s.count ⨾ write_int64 s.min ⨾ write_int64 s.max

unfoldable pub write_text_array : List (List ℕ) → Writer
write_text_array v = write_int16 (to_i16 (length v)) ⨾ write_each write_text v

-- The method `Write` of each type. An element of a list or a map is written by WriteValue: its
-- type code, then its body.
unfoldable mutual
  pub write_body : Value → Writer
  write_body nil = write_none
  write_body null_value = write_none
  write_body (boolean_value b) = write_boolean b
  write_body (decimal_value n) = write_decimal n
  write_body (float_value f) = write_float32 f
  write_body (double_value f) = write_float64 f
  write_body (double_summary s) = write_double_summary s
  write_body (long_summary s) = write_long_summary s
  write_body (text_value t) = write_text t
  write_body (text_hash_value h) = write_int32 h
  write_body (blob_value b) = write_blob b
  write_body (ip4_value a b c d) = write (a ∷ b ∷ c ∷ d ∷ [])
  write_body (list_value vs) = write_decimal (length_values vs % 2 ^ 64) ⨾ write_values vs
  write_body (int_array v) = write_array_int v
  write_body (float_array v) = write_array_float v
  write_body (text_array v) = write_text_array v
  write_body (long_array v) = write_array_long v
  write_body (map_value es) = write_decimal (length_entries es % 2 ^ 64) ⨾ write_entries es

  pub write_values : Values → Writer
  write_values no_values = write_none
  write_values (value_and v vs) = (write_byte (value_type v) ⨾ write_body v) ⨾ write_values vs

  pub write_entries : Entries → Writer
  write_entries no_entries = write_none
  write_entries (entry_and k v es) =
      write_text k ⨾ (write_byte (value_type v) ⨾ write_body v) ⨾ write_entries es

unfoldable pub write_value : Value → Writer
write_value v = write_byte (value_type v) ⨾ write_body v
