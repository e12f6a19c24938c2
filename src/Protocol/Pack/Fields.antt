-- ===== src/Protocol/Pack/Fields.antt =====
-- The fields of the packs that point at a MapValue or a ListValue.
use scouter_server_go.Common.{ℕ, ◌<◌, ◌≤◌, arith, Option, some, none}
use scouter_server_go.Protocol.Output.{Writer}
use scouter_server_go.Protocol.Input.{Reader, return, ◌>>=◌}
use scouter_server_go.Protocol.Codec.{RoundTrips, RoundTrips-last}
use scouter_server_go.Protocol.Value.{
  Value, Values, Entries, nil, list_value, map_value, no_values, no_entries, write_value,
}
use scouter_server_go.Protocol.Value.Read.{read_value}
use scouter_server_go.Protocol.Value.RoundTrip.{
  IsValue, depth, erase_nil_values, erase_nil_entries, RoundTrips-value,
}

-- A nil pointer is `none`: WriteValue takes it for a NullValue.
unfoldable pub write_map_field : Option Entries → Writer
write_map_field none = write_value nil
write_map_field (some es) = write_value (map_value es)

-- `val.(*value.MapValue)`: another value becomes an empty map, a nil interface a nil pointer.
unfoldable pub map_of : Value → Option Entries
map_of nil = none
map_of (map_value es) = some es
map_of _ = some no_entries

unfoldable pub read_map_field : ℕ → Reader (Option Entries)
unfolding map_of
read_map_field f = do v ← read_value f; return (map_of v)

abbrev pub IsMapField : ℕ → Option Entries → Type 0
IsMapField f none = 0 < f
IsMapField f (some es) = IsValue (map_value es) × (depth (map_value es) ≤ f)

abbrev pub erase_map : Option Entries → Option Entries
erase_map none = some no_entries
erase_map (some es) = some (erase_nil_entries es)

pub RoundTrips-map_field :
    (f : ℕ) (m : Option Entries)
    → IsMapField f m
    → RoundTrips (write_map_field m) (read_map_field f) (erase_map m)
unfolding write_map_field read_map_field
RoundTrips-map_field f none h = RoundTrips-last map_of (RoundTrips-value nil f tt h)
RoundTrips-map_field f (some es) h =
    RoundTrips-last map_of (RoundTrips-value (map_value es) f h.0 h.1)

-- AlertPack writes a nil field as an empty map.
unfoldable pub write_alert_tags : Option Entries → Writer
write_alert_tags none = write_value (map_value no_entries)
write_alert_tags (some es) = write_value (map_value es)

pub RoundTrips-alert_tags :
    (f : ℕ) (m : Option Entries)
    → IsMapField f m
    → RoundTrips (write_alert_tags m) (read_map_field f) (erase_map m)
unfolding write_alert_tags read_map_field
RoundTrips-alert_tags f none h =
    RoundTrips-last map_of (RoundTrips-value (map_value no_entries) f (omega arith, tt) h)
RoundTrips-alert_tags f (some es) h =
    RoundTrips-last map_of (RoundTrips-value (map_value es) f h.0 h.1)

-- A nil pointer to a ListValue, and `val.(*value.ListValue)`, in the same way.
unfoldable pub write_list_field : Option Values → Writer
write_list_field none = write_value nil
write_list_field (some vs) = write_value (list_value vs)

unfoldable pub list_of : Value → Option Values
list_of nil = none
list_of (list_value vs) = some vs
list_of _ = some no_values

unfoldable pub read_list_field : ℕ → Reader (Option Values)
unfolding list_of
read_list_field f = do v ← read_value f; return (list_of v)

abbrev pub IsListField : ℕ → Option Values → Type 0
IsListField f none = 0 < f
IsListField f (some vs) = IsValue (list_value vs) × (depth (list_value vs) ≤ f)

abbrev pub erase_list : Option Values → Option Values
erase_list none = some no_values
erase_list (some vs) = some (erase_nil_values vs)

pub RoundTrips-list_field :
    (f : ℕ) (l : Option Values)
    → IsListField f l
    → RoundTrips (write_list_field l) (read_list_field f) (erase_list l)
unfolding write_list_field read_list_field
RoundTrips-list_field f none h = RoundTrips-last list_of (RoundTrips-value nil f tt h)
RoundTrips-list_field f (some vs) h =
    RoundTrips-last list_of (RoundTrips-value (list_value vs) f h.0 h.1)
