-- ===== src/Db/Kv/Entries.antt =====
-- The map of internal/db/kv/kv_store.go, whose keys are distinct.
use scouter_server_go.Common.{
  ℕ, ◌≡◌, refl, ap, true, none, some, List, [], ◌∷◌, arith, if◌then◌else◌, Bool-cases, inl, inr,
}
use scouter_server_go.Db.Files.{bytes_equal}
use scouter_server_go.Db.Files.Equality.{bytes_equal_refl, bytes_equal-eq}
use scouter_server_go.Db.Kv.{KvEntry, KvMap, find, remove, store}

-- Equal keys compare in the same way with a third one.
pub same_key : (i k j : List ℕ) → bytes_equal i k ≡ true → bytes_equal i j ≡ bytes_equal k j
same_key i k j e = ap (λ (x : List ℕ). bytes_equal x j) (bytes_equal-eq i k e)

pub bytes_equal_comm : (i k : List ℕ) → bytes_equal i k ≡ bytes_equal k i
bytes_equal_comm i k =
    ground (arith, same_key i k i, bytes_equal_refl i, same_key k i k, bytes_equal_refl k)

pub find-remove :
    (k j : List ℕ) (m : KvMap) → find j (remove k m) ≡ (if bytes_equal k j then none else find j m)
unfolding find remove
find-remove k j [] = ground arith
find-remove k j ((i, e) ∷ m) =
    ground (arith, find-remove k j m, same_key i k j, same_key i j k, bytes_equal_comm j k)

pub find-store :
    (k j : List ℕ) (e : KvEntry) (m : KvMap)
    → find j (store k e m) ≡ (if bytes_equal k j then some e else find j m)
unfolding find store
find-store k j e m = ground (arith, find-remove k j m)

-- No key stands twice in a range over the map.
abbrev pub Distinct : KvMap → Type 0
Distinct [] = Unit
Distinct ((k, e) ∷ m) = (find k m ≡ none) × Distinct m

pub Distinct-remove : (k : List ℕ) (m : KvMap) → Distinct m → Distinct (remove k m)
unfolding remove
Distinct-remove k [] d = tt
Distinct-remove k ((i, e) ∷ m) (f, d) = elim (Bool-cases (bytes_equal i k)) [
  | inl same ↦ rw same (Distinct-remove k m d)
  | inr other ↦
      rw other (rw (find-remove k i m, bytes_equal_comm k i, other) f, Distinct-remove k m d)
]

pub Distinct-store : (k : List ℕ) (e : KvEntry) (m : KvMap) → Distinct m → Distinct (store k e m)
unfolding store
Distinct-store k e m d = (rw (find-remove k k m, bytes_equal_refl k) refl, Distinct-remove k m d)
