-- ===== src/Db/Kv/Bulk.antt =====
-- GetBulk of internal/db/kv/kv_store.go against Get.
use scouter_server_go.Common.{
  ℕ, ◌+◌, ◌^◌, ◌≤◌, ◌<◌, ◌≡◌, refl, ap, ◌∙◌, ◌||◌, Bool, true, false, Option, none, some, List, [],
  ◌∷◌, if◌then◌else◌, Bool-cases, inl, inr, arith,
}
use scouter_server_go.Protocol.Word.{positive_i64}
use scouter_server_go.Db.Files.{bytes_equal}
use scouter_server_go.Db.Files.Equality.{bytes_equal_refl, bytes_equal-eq}
use scouter_server_go.Db.Kv.{
  KvEntry, KvMap, KvStore, Pairs, find, is_current, live_value, get, expiry_of, set_ttl, find_pair,
  remove_pair, add_found, get_bulk_loop, get_bulk,
}
use scouter_server_go.Db.Kv.Entries.{find-store, same_key, bytes_equal_comm}

-- The key is among the keys.
unfoldable pub is_among : List ℕ → List (List ℕ) → Bool
is_among key [] = false
is_among key (k ∷ keys) = bytes_equal k key || is_among key keys

find_pair-remove_pair :
    (k j : List ℕ) (ps : Pairs)
    → find_pair j (remove_pair k ps) ≡ (if bytes_equal k j then none else find_pair j ps)
unfolding find_pair remove_pair
find_pair-remove_pair k j [] = ground arith
find_pair-remove_pair k j ((i, v) ∷ ps) =
    ground
      (arith, find_pair-remove_pair k j ps, same_key i k j, same_key i j k, bytes_equal_comm j k)

-- An expiry that is no negative number.
abbrev pub IsNatural : Option KvEntry → Type 0
IsNatural none = Unit
IsNatural (some e) = e.expires_at < 2 ^ 63

-- The value of the first, where it has one.
unfoldable pub or_else : Option (List ℕ) → Option (List ℕ) → Option (List ℕ)
or_else none other = other
or_else (some v) other = some v

find_pair-add_found :
    (now : ℕ) (k j : List ℕ) (o : Option KvEntry) (result : Pairs)
    → IsNatural o
    → find_pair j (add_found now k o result) ≡ (
        if bytes_equal k j
        then or_else (live_value now o) (find_pair j result)
        else find_pair j result)
unfolding find_pair add_found live_value or_else
find_pair-add_found now k j none result small = ground arith
find_pair-add_found now k j (some e) result small = ground (arith, find_pair-remove_pair k j result)

-- Once the value is in the result, another round for the same key changes nothing.
joined :
    (now : ℕ) (k key : List ℕ) (m : KvMap) (result : Pairs) (among : Bool)
    → (if among
        then or_else (live_value now (find key m)) (
            if bytes_equal k key
            then or_else (live_value now (find k m)) (find_pair key result)
            else find_pair key result)
        else if bytes_equal k key
        then or_else (live_value now (find k m)) (find_pair key result)
        else find_pair key result)
      ≡ (if bytes_equal k key || among
          then or_else (live_value now (find key m)) (find_pair key result)
          else find_pair key result)
unfolding or_else
joined now k key m result among = elim (Bool-cases (bytes_equal k key)) [
  | inl same ↦
      rw (same, bytes_equal-eq k key same)
        (twice among (live_value now (find key m)) (find_pair key result))
  | inr other ↦ rw other (refl)
]
  where
    twice :
        (b : Bool) (o p : Option (List ℕ))
        → (if b then or_else o (or_else o p) else or_else o p) ≡ or_else o p
    twice true none p = refl
    twice true (some v) p = refl
    twice false o p = refl

find_pair-get_bulk_loop :
    (now : ℕ) (key : List ℕ) (m : KvMap) (keys : List (List ℕ)) (result : Pairs)
    → ((j : List ℕ) → IsNatural (find j m))
    → find_pair key (get_bulk_loop now m keys result) ≡ (
        if is_among key keys
        then or_else (live_value now (find key m)) (find_pair key result)
        else find_pair key result)
unfolding get_bulk_loop is_among
find_pair-get_bulk_loop now key m [] result small = refl
find_pair-get_bulk_loop now key m (k ∷ keys) result small =
    find_pair-get_bulk_loop now key m keys (add_found now k (find k m) result) small
    ∙ rw (find_pair-add_found now k key (find k m) result (small k))
        (joined now k key m result (is_among key keys))

-- Where no expiry is negative, GetBulk returns for each of its keys what Get returns at the same
-- time, and nothing for any other key.
pub find_pair-get_bulk :
    (now : ℕ) (key : List ℕ) (keys : List (List ℕ)) (s : KvStore)
    → ((j : List ℕ) → IsNatural (find j s.entries))
    → find_pair key (get_bulk now keys s) ≡ (if is_among key keys then get now key s else none)
unfolding get_bulk get find_pair or_else
find_pair-get_bulk now key keys s small =
    find_pair-get_bulk_loop now key s.entries keys [] small
    ∙ ap (λ (o : Option (List ℕ)). if is_among key keys then o else none)
        (or_else_none (get now key s))
  where
    or_else_none : (o : Option (List ℕ)) → or_else o none ≡ o
    or_else_none none = refl
    or_else_none (some v) = refl

expiry_of_overflow :
    (at ttl : ℕ)
    → at < 2 ^ 63
    → positive_i64 ttl ≡ true
    → 2 ^ 63 ≤ at + ttl
    → (2 ^ 63 ≤ expiry_of at ttl) × (expiry_of at ttl < 2 ^ 64)
unfolding expiry_of
expiry_of_overflow at ttl small positive over =
    (rw positive (ground arith), rw positive (omega arith))

live_value_negative :
    (now : ℕ) (e : KvEntry) → 2 ^ 63 ≤ e.expires_at → live_value now (some e) ≡ some e.value
unfolding live_value
live_value_negative now e big =
    let q : positive_i64 e.expires_at ≡ false = ground arith in rw q refl

is_current_negative :
    (now : ℕ) (e : KvEntry)
    → now < 2 ^ 63
    → 2 ^ 63 ≤ e.expires_at
    → e.expires_at < 2 ^ 64
    → is_current now e ≡ false
is_current_negative now e small big word = ground arith

-- When the clock is not before 1970 and a positive time to live takes the expiry past the largest
-- int64, Get at a time from 1970 on returns the value, and GetBulk does not.
pub set_ttl_overflow :
    (at ttl now : ℕ) (key value : List ℕ) (s : KvStore)
    → at < 2 ^ 63
    → positive_i64 ttl ≡ true
    → 2 ^ 63 ≤ at + ttl
    → now < 2 ^ 63
    → (get now key (set_ttl at key value ttl s) ≡ some value)
      × (find_pair key (get_bulk now (key ∷ []) (set_ttl at key value ttl s)) ≡ none)
unfolding get get_bulk get_bulk_loop set_ttl add_found find_pair
set_ttl_overflow at ttl now key value s small positive over now_small =
    let e : KvEntry = record { value = value; expires_at = expiry_of at ttl } in
    let (big, word) = expiry_of_overflow at ttl small positive over in
    let stored = find-store key key e s.entries in
    (
      rw (stored, bytes_equal_refl key) (live_value_negative now e big),
      rw (stored, bytes_equal_refl key, is_current_negative now e now_small big word) refl,
    )
