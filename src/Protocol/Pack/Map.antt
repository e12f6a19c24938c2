-- ===== src/Protocol/Pack/Map.antt =====
-- MapPack of internal/protocol/pack/map_pack.go: its table, and the operations by key.
use scouter_server_go.Common.{
  ℕ, ◌+◌, ◌%◌, ◌^◌, ◌<◌, ◌≤◌, ◌≡◌, refl, Bool, false, List, [], arith, Option, some, none,
}
use scouter_server_go.Protocol.Output.{Writer, ◌⨾◌, write_decimal}
use scouter_server_go.Protocol.Input.{Reader, return, ◌>>=◌}
use scouter_server_go.Protocol.Codec.{RoundTrips, RoundTrips-last}
use scouter_server_go.Protocol.Value.{
  Value, Values, Entries, nil, list_value, no_entries, length_entries, text_value, decimal_value,
  boolean_value, entry_and, write_entries,
}
use scouter_server_go.Protocol.Value.Read.{read_value, read_map_value}
use scouter_server_go.Protocol.Value.RoundTrip.{
  IsEntries, depth_entries, erase_nil_entries, RoundTrips-map_value,
}
use scouter_server_go.Protocol.Word.{to_i32}
use mathlib.Core.Logic.{ite}
use native.Mathlib.Decide.{ℕ_discrete}

pub record MapPack : Type 0 where
  pub table : Entries

unfoldable pub write_map_pack : MapPack → Writer
write_map_pack s = write_decimal (length_entries s.table % 2 ^ 64) ⨾ write_entries s.table

unfoldable pub read_map_pack : ℕ → Reader MapPack
read_map_pack f = do table ← read_map_value (read_value f); return (record { table = table })

-- Two keys are the same bytes.
unfoldable pub key_discrete : Discrete (List ℕ)
key_discrete = hlevel ℕ_discrete

-- The loop of `Put`: the value of the first entry with the key, or a new entry behind all others.
unfoldable pub put_entry : List ℕ → Value → Entries → Entries
put_entry key v no_entries = entry_and key v no_entries
put_entry key v (entry_and k w es) =
    ite (key_discrete k key) (entry_and k v es) (entry_and k w (put_entry key v es))

unfoldable pub map_put : List ℕ → Value → MapPack → MapPack
map_put key v p = record p { table = put_entry key v p.table }

unfoldable pub find_entry : List ℕ → Entries → Option Value
find_entry key no_entries = none
find_entry key (entry_and k v es) = ite (key_discrete k key) (some v) (find_entry key es)

-- `Get`: a missing key gives a nil value.
unfoldable pub map_get : List ℕ → MapPack → Value
map_get key p = elim (find_entry key p.table) [ none ↦ nil | some v ↦ v ]

unfoldable pub map_put_str : List ℕ → List ℕ → MapPack → MapPack
map_put_str key val = map_put key (text_value val)

unfoldable pub map_put_long : List ℕ → ℕ → MapPack → MapPack
map_put_long key val = map_put key (decimal_value val)

unfoldable pub text_of : Value → List ℕ
text_of (text_value t) = t
text_of _ = []

unfoldable pub map_get_text : List ℕ → MapPack → List ℕ
map_get_text key p = text_of (map_get key p)

unfoldable pub long_of : Value → ℕ
long_of (decimal_value n) = n
long_of _ = 0

unfoldable pub map_get_long : List ℕ → MapPack → ℕ
map_get_long key p = long_of (map_get key p)

unfoldable pub map_get_int : List ℕ → MapPack → ℕ
map_get_int key p = to_i32 (long_of (map_get key p))

unfoldable pub bool_of : Value → Bool
bool_of (boolean_value b) = b
bool_of _ = false

unfoldable pub map_get_boolean : List ℕ → MapPack → Bool
map_get_boolean key p = bool_of (map_get key p)

unfoldable pub list_in : Value → Option Values
list_in (list_value vs) = some vs
list_in _ = none

unfoldable pub map_get_list : List ℕ → MapPack → Option Values
map_get_list key p = list_in (map_get key p)

unfoldable pub map_size : MapPack → ℕ
map_size p = length_entries p.table

pub record IsMapPack (f : ℕ) (s : MapPack) : Type 0 where
  pub count : length_entries s.table < 2 ^ 63
  pub valid : IsEntries s.table
  pub depth : depth_entries s.table ≤ f

abbrev pub erase_map_pack : MapPack → MapPack
erase_map_pack s = record s { table = erase_nil_entries s.table }

pub RoundTrips-map_pack :
    (f : ℕ) (s : MapPack)
    → IsMapPack f s
    → RoundTrips (write_map_pack s) (read_map_pack f) (erase_map_pack s)
unfolding write_map_pack read_map_pack
RoundTrips-map_pack f s v =
    RoundTrips-last _ (RoundTrips-map_value s.table f v.count v.valid v.depth)

find_entry-put_entry :
    (j key : List ℕ) (v : Value) (es : Entries)
    → find_entry j (put_entry key v es) ≡ ite (key_discrete key j) (some v) (find_entry j es)
unfolding find_entry put_entry
find_entry-put_entry j key v no_entries = refl
find_entry-put_entry j key v (entry_and k w es) = ground (arith, find_entry-put_entry j key v es)

-- After `Put` the key gives the value that was put, and every other key what it gave before.
pub map_get-map_put :
    (j key : List ℕ) (v : Value) (p : MapPack)
    → map_get j (map_put key v p) ≡ ite (key_discrete key j) v (map_get j p)
unfolding map_get map_put
map_get-map_put j key v p = ground (arith, find_entry-put_entry j key v p.table)

length-put_entry :
    (key : List ℕ) (v : Value) (es : Entries)
    → length_entries (put_entry key v es)
      ≡ elim (find_entry key es) [ none ↦ length_entries es + 1 | some _ ↦ length_entries es ]
unfolding find_entry put_entry
length-put_entry key v no_entries = omega arith
length-put_entry key v (entry_and k w es) = ground (arith, length-put_entry key v es)

-- `Put` adds an entry exactly when no entry has the key.
pub map_size-map_put :
    (key : List ℕ) (v : Value) (p : MapPack)
    → map_size (map_put key v p)
      ≡ elim (find_entry key p.table) [ none ↦ map_size p + 1 | some _ ↦ map_size p ]
unfolding map_size map_put
map_size-map_put key v p = length-put_entry key v p.table
