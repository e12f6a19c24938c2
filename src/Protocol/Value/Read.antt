-- ===== src/Protocol/Value/Read.antt =====
-- CreateValue and ReadValue of internal/protocol/value: the method `Read` of each type.
use scouter_server_go.Common.{
  ℕ, zero, suc, ◌^◌, ◌==◌, List, ◌∷◌, ltb, Option, none, some, if◌then◌else◌,
}
use scouter_server_go.Protocol.Input.{
  Reader, return, crash, no_fuel, read_created, ◌>>=◌, read, read_byte, read_boolean, read_int32,
  read_int64, read_float32, read_float64, read_decimal, read_blob, read_text, read_array,
  read_array_int, read_array_long, read_array_float,
}
use scouter_server_go.Protocol.Value.{
  DoubleSummary, LongSummary, Value, Values, Entries, null_value, boolean_value, decimal_value,
  float_value, double_value, double_summary, long_summary, text_value, text_hash_value, blob_value,
  ip4_value, list_value, int_array, float_array, text_array, long_array, map_value, no_values,
  value_and, no_entries, entry_and,
}

unfoldable pub read_double_summary : Reader DoubleSummary
read_double_summary = do
  sum ← read_float64
  count ← read_int32
  min ← read_float64
  max ← read_float64
  return (record { sum = sum; count = count; min = min; max = max })

unfoldable pub read_long_summary : Reader LongSummary
read_long_summary = do
  sum ← read_int64
  count ← read_int32
  min ← read_int64
  max ← read_int64
  return (record { sum = sum; count = count; min = min; max = max })

-- `copy(v.Value[:], bytes)` of four bytes.
unfoldable pub ip4_of : List ℕ → Value
ip4_of (a ∷ b ∷ c ∷ d ∷ _) = ip4_value a b c d
ip4_of _ = ip4_value 0 0 0 0

unfoldable pub read_text_array : Reader (List (List ℕ))
read_text_array = read_array read_text

-- The loops of ListValue.Read and MapValue.Read; `element` is ReadValue.
unfoldable pub read_values : ℕ → Reader Value → Reader Values
read_values zero element = return no_values
read_values (suc n) element = do v ← element; vs ← read_values n element; return (value_and v vs)

unfoldable pub read_entries : ℕ → Reader Value → Reader Entries
read_entries zero element = return no_entries
read_entries (suc n) element = do
  k ← read_text
  v ← element
  es ← read_entries n element
  return (entry_and k v es)

unfoldable pub read_list_value : Reader Value → Reader Values
read_list_value element = do
  n ← read_decimal
  if ltb n (2 ^ 63) then read_values n element else crash

unfoldable pub read_map_value : Reader Value → Reader Entries
read_map_value element = do
  n ← read_decimal
  if ltb n (2 ^ 63) then read_entries n element else crash

-- The method `Read` of the value that CreateValue makes of a type code, if it makes one.
unfoldable pub create_value : Reader Value → ℕ → Option (Reader Value)
create_value element t =
    if t == 0
    then some (return null_value)
    else if t == 10
    then some (do b ← read_boolean; return (boolean_value b))
    else if t == 20
    then some (do n ← read_decimal; return (decimal_value n))
    else if t == 30
    then some (do f ← read_float32; return (float_value f))
    else if t == 40
    then some (do f ← read_float64; return (double_value f))
    else if t == 45
    then some (do s ← read_double_summary; return (double_summary s))
    else if t == 46
    then some (do s ← read_long_summary; return (long_summary s))
    else if t == 50
    then some (do s ← read_text; return (text_value s))
    else if t == 51
    then some (do h ← read_int32; return (text_hash_value h))
    else if t == 60
    then some (do b ← read_blob; return (blob_value b))
    else if t == 61
    then some (do b ← read 4; return (ip4_of b))
    else if t == 70
    then some (do vs ← read_list_value element; return (list_value vs))
    else if t == 71
    then some (do v ← read_array_int; return (int_array v))
    else if t == 72
    then some (do v ← read_array_float; return (float_array v))
    else if t == 73
    then some (do v ← read_text_array; return (text_array v))
    else if t == 74
    then some (do v ← read_array_long; return (long_array v))
    else if t == 80
    then some (do es ← read_map_value element; return (map_value es))
    else none

-- ReadValue. The fuel bounds how deep values are nested.
unfoldable pub read_value : ℕ → Reader Value
read_value zero = no_fuel
read_value (suc f) = do t ← read_byte; read_created t (create_value (read_value f) t)
