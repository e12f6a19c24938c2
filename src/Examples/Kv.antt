-- ===== src/Examples/Kv.antt =====
-- The theorems on internal/db/kv/kv_store.go at concrete inputs.
use scouter_server_go.Common.{
  ℕ, suc, ◌-◌, ◌^◌, ◌≡◌, refl, true, false, Option, none, some, List, [], ◌∷◌, ◌++◌, length, take,
  drop, arith, Bool, if◌then◌else◌,
}
use scouter_server_go.Db.Files.{bytes_equal}
use scouter_server_go.Db.Kv.{
  KvMap, KvStore, Device, find, live_value, get, set_ttl, find_pair, get_bulk, new_kv_store, save,
  close,
}
use scouter_server_go.Db.Kv.History.{
  Call, set_call, set_ttl_call, cleanup_call, perform_all, after_call, after_calls, get-perform_all,
}
use scouter_server_go.Db.Kv.Bulk.{IsNatural, is_among, find_pair-get_bulk, set_ttl_overflow}
use scouter_server_go.Db.Kv.Saving.{sound_device, IsReadBack, get-close, save-failed_save}

abbrev first : List ℕ
first = 1 ∷ []

abbrev second : List ℕ
second = 2 ∷ []

abbrev new_store : KvStore
new_store = record { entries = []; dirty = false }

-- Two writes, and a cleanup when the second has expired.
abbrev calls : List Call
calls = set_call first (7 ∷ []) ∷ set_ttl_call 5 second (8 ∷ []) 10 ∷ cleanup_call 20 ∷ []

get-perform_all_example : get 20 first (perform_all calls new_store) ≡ some (7 ∷ [])
unfolding after_calls after_call live_value bytes_equal
get-perform_all_example = get-perform_all 20 first calls new_store tt (tt, (tt, (refl, tt)))

abbrev two_entries : KvStore
two_entries = record {
  entries =
      (first, record { value = 7 ∷ []; expires_at = 0 })
      ∷ (second, record { value = 8 ∷ []; expires_at = 15 })
      ∷ [];
  dirty = true;
}

two_entries-IsNatural : (j : List ℕ) → IsNatural (find j two_entries.entries)
unfolding find
two_entries-IsNatural j = choose (bytes_equal first j) (bytes_equal second j)
  where
    choose :
        (b c : Bool)
        → IsNatural (
            if b
            then some (record { value = 7 ∷ []; expires_at = 0 })
            else if c
            then some (record { value = 8 ∷ []; expires_at = 15 })
            else none)
    choose true c = omega arith
    choose false true = omega arith
    choose false false = tt

find_pair-get_bulk_example :
    find_pair first (get_bulk 20 (second ∷ first ∷ []) two_entries) ≡ some (7 ∷ [])
unfolding is_among get live_value find bytes_equal
find_pair-get_bulk_example =
    find_pair-get_bulk 20 first (second ∷ first ∷ []) two_entries two_entries-IsNatural

set_ttl_overflow_example :
    (get 9 first (set_ttl 5 first (7 ∷ []) (2 ^ 63 - 1) two_entries) ≡ some (7 ∷ []))
    × (find_pair first (get_bulk 9 (first ∷ []) (set_ttl 5 first (7 ∷ []) (2 ^ 63 - 1) two_entries))
        ≡ none)
set_ttl_overflow_example =
    set_ttl_overflow 5 (2 ^ 63 - 1) 9 first (7 ∷ []) two_entries (omega arith) (ground arith)
      (omega arith) (omega arith)

-- A text form of a map: for each entry its expiry, and its key and its value behind their lengths.
abbrev to_text : KvMap → List ℕ
to_text [] = []
to_text ((k, e) ∷ m) = e.expires_at ∷ (length k ∷ (k ++ (length e.value ∷ (e.value ++ to_text m))))

abbrev first_or_zero : List ℕ → ℕ
first_or_zero [] = 0
first_or_zero (n ∷ text) = n

abbrev of_text : ℕ → List ℕ → KvMap
of_text (suc fuel) (at ∷ (n ∷ text)) =
    let rest = drop n text in
    let value = drop 1 rest in
    let count = first_or_zero rest in
    (take n text, record { value = take count value; expires_at = at })
    ∷ of_text fuel (drop count value)
of_text fuel text = []

abbrev marshal : KvMap → Option (List ℕ)
marshal m = some (to_text m)

abbrev unmarshal : List ℕ → Option (Option KvMap)
unmarshal text = some (some (of_text (length text) text))

two_entries-IsReadBack : IsReadBack marshal unmarshal (perform_all [] two_entries).entries
unfolding perform_all
two_entries-IsReadBack = record {
  bytes = to_text two_entries.entries;
  read = two_entries.entries;
  written = refl;
  read_back = refl;
  same = λ key. refl;
}

get-close_example :
    get 9 first (
      new_kv_store marshal unmarshal
        (close marshal unmarshal sound_device (perform_all [] two_entries) none).1)
    ≡ get 9 first (perform_all [] two_entries)
get-close_example =
    get-close marshal unmarshal none [] two_entries 9 first (λ clean. absurd (ground arith))
      two_entries-IsReadBack

abbrev full_disk : Device
full_disk = record { mkdir_all = true; write_file = false; rename = true }

save-failed_save_example :
    ((save marshal unmarshal full_disk two_entries none).1 ≡ none)
    × (save marshal unmarshal sound_device
          (save marshal unmarshal full_disk two_entries none).0
          (save marshal unmarshal full_disk two_entries none).1
        ≡ save marshal unmarshal full_disk two_entries none)
save-failed_save_example =
    save-failed_save marshal unmarshal full_disk sound_device two_entries none refl
