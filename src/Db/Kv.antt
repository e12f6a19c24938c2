-- ===== src/Db/Kv.antt =====
-- KVStore of internal/db/kv/kv_store.go: its map, the time and the file of it that are arguments.
pub mod Entries
pub mod Expiry
pub mod History
pub mod Bulk
pub mod Saving
use scouter_server_go.Common.{
  ℕ, ◌+◌, ◌%◌, ◌^◌, ◌==◌, Bool, true, false, not, ◌&&◌, ◌||◌, Option, none, some, List, [], ◌∷◌,
  ltb, if◌then◌else◌,
}
use scouter_server_go.Protocol.Word.{less_i64, positive_i64}
use scouter_server_go.Db.Files.{bytes_equal}

-- `value` is a string, `expires_at` an int64; 0 is no expiry.
pub record KvEntry : Type 0 where
  pub value : List ℕ
  pub expires_at : ℕ

-- `map[string]kvEntry`, in the order in which a range goes over it.
abbrev pub KvMap : Type 0
KvMap = List (List ℕ × KvEntry)

-- The directory and the name of the file are left to the file that `load` and `save` are given.
pub record KvStore : Type 0 where
  pub entries : KvMap
  pub dirty : Bool

-- `s.entries[key]`
unfoldable pub find : List ℕ → KvMap → Option KvEntry
find key [] = none
find key ((k, e) ∷ m) = if bytes_equal k key then some e else find key m

-- `delete(s.entries, key)`
unfoldable pub remove : List ℕ → KvMap → KvMap
remove key [] = []
remove key ((k, e) ∷ m) =
    let rest = remove key m in if bytes_equal k key then rest else (k, e) ∷ rest

-- `s.entries[key] = e`
unfoldable pub store : List ℕ → KvEntry → KvMap → KvMap
store key e m = (key, e) ∷ remove key m

-- `entry.ExpiresAt > 0 && now > entry.ExpiresAt`
abbrev pub is_expired : ℕ → KvEntry → Bool
is_expired now e = positive_i64 e.expires_at && less_i64 e.expires_at now

-- What Get returns for an entry: the value and true, or none for false.
unfoldable pub live_value : ℕ → Option KvEntry → Option (List ℕ)
live_value now none = none
live_value now (some e) = if is_expired now e then none else some e.value

unfoldable pub get : ℕ → List ℕ → KvStore → Option (List ℕ)
get now key s = live_value now (find key s.entries)

unfoldable pub set : List ℕ → List ℕ → KvStore → KvStore
set key value s = record {
  entries = store key (record { value = value; expires_at = 0 }) s.entries;
  dirty = true;
}

-- The int64 at which an entry that is set now expires.
unfoldable pub expiry_of : ℕ → ℕ → ℕ
expiry_of now ttl = if positive_i64 ttl then (now + ttl) % 2 ^ 64 else 0

unfoldable pub set_ttl : ℕ → List ℕ → List ℕ → ℕ → KvStore → KvStore
set_ttl now key value ttl s = record {
  entries = store key (record { value = value; expires_at = expiry_of now ttl }) s.entries;
  dirty = true;
}

-- `map[string]string`
abbrev pub Pairs : Type 0
Pairs = List (List ℕ × List ℕ)

unfoldable pub find_pair : List ℕ → Pairs → Option (List ℕ)
find_pair key [] = none
find_pair key ((k, v) ∷ ps) = if bytes_equal k key then some v else find_pair key ps

unfoldable pub remove_pair : List ℕ → Pairs → Pairs
remove_pair key [] = []
remove_pair key ((k, v) ∷ ps) =
    let rest = remove_pair key ps in if bytes_equal k key then rest else (k, v) ∷ rest

-- `entry.ExpiresAt == 0 || now <= entry.ExpiresAt`
abbrev pub is_current : ℕ → KvEntry → Bool
is_current now e = e.expires_at == 0 || not (less_i64 e.expires_at now)

-- One round of the loop of GetBulk, for what the map has at the key.
unfoldable pub add_found : ℕ → List ℕ → Option KvEntry → Pairs → Pairs
add_found now key none result = result
add_found now key (some e) result =
    if is_current now e then (key, e.value) ∷ remove_pair key result else result

unfoldable pub get_bulk_loop : ℕ → KvMap → List (List ℕ) → Pairs → Pairs
get_bulk_loop now m [] result = result
get_bulk_loop now m (key ∷ keys) result =
    get_bulk_loop now m keys (add_found now key (find key m) result)

unfoldable pub get_bulk : ℕ → List (List ℕ) → KvStore → Pairs
get_bulk now keys s = get_bulk_loop now s.entries keys []

unfoldable pub store_all : Pairs → KvMap → KvMap
store_all [] m = m
store_all ((k, v) ∷ ps) m = store_all ps (store k (record { value = v; expires_at = 0 }) m)

-- The pairs are in the order of a range over their map.
unfoldable pub set_bulk : Pairs → KvStore → KvStore
set_bulk pairs s = record { entries = store_all pairs s.entries; dirty = true }

-- The range of cleanupExpired over `m`: what it deletes from the map, and the number of deletions.
unfoldable pub cleanup_loop : ℕ → KvMap → KvMap → ℕ → KvMap × ℕ
cleanup_loop now [] kept removed = (kept, removed)
cleanup_loop now ((k, e) ∷ m) kept removed =
    let old = is_expired now e in
    cleanup_loop now m (if old then remove k kept else kept) (if old then removed + 1 else removed)

unfoldable pub cleanup_expired : ℕ → KvStore → KvStore
cleanup_expired now s =
    let (kept, removed) = cleanup_loop now s.entries s.entries 0 in
    record { entries = kept; dirty = if ltb 0 removed then true else s.dirty }

-- Which calls on the file system return no error.
pub record Device : Type 0 where
  pub mkdir_all : Bool
  pub write_file : Bool
  pub rename : Bool

-- `json.MarshalIndent` and `json.Unmarshal` of the entries: none is an error, and a nil map comes
-- back as `some none`. A file is none where ReadFile returns an error.
module _ (marshal_indent : KvMap → Option (List ℕ))
    (unmarshal : List ℕ → Option (Option KvMap)) where
  unfoldable pub load : Option (List ℕ) → KvStore → KvStore
  load none s = s
  load (some bytes) s = elim (unmarshal bytes) [
    | none ↦ s
    | some none ↦ record s { entries = [] }
    | some (some m) ↦ record s { entries = m }
  ]

  unfoldable pub new_kv_store : Option (List ℕ) → KvStore
  new_kv_store file = load file (record { entries = []; dirty = false })

  -- The store and the file. The temporary file, which is never read, is left out.
  unfoldable pub save : Device → KvStore → Option (List ℕ) → KvStore × Option (List ℕ)
  save device s file =
      if s.dirty
      then (
        record s { dirty = false },
        elim (marshal_indent s.entries) [
          | none ↦ file
          | some bytes ↦
              if device.mkdir_all && (device.write_file && device.rename) then some bytes else file
        ],
      )
      else (s, file)

  unfoldable pub close : Device → KvStore → Option (List ℕ) → KvStore × Option (List ℕ)
  close device s file = save device s file
