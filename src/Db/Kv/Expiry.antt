-- ===== src/Db/Kv/Expiry.antt =====
-- Get and cleanupExpired of internal/db/kv/kv_store.go.
use scouter_server_go.Common.{
  ℕ, ◌+◌, ◌≤◌, ◌≡◌, refl, sym, ap, ◌∙◌, Bool, true, false, Option, none, some, List, [], ◌∷◌, arith,
  if◌then◌else◌, Bool-cases, inl, inr,
}
use scouter_server_go.Protocol.Word.{less_i64}
use scouter_server_go.Db.Files.{bytes_equal}
use scouter_server_go.Db.Files.Equality.{bytes_equal-eq}
use scouter_server_go.Db.Kv.{
  KvEntry, KvMap, KvStore, find, remove, is_expired, live_value, cleanup_loop, cleanup_expired,
}
use scouter_server_go.Db.Kv.Entries.{find-remove, Distinct, Distinct-remove}

-- What an entry is at a time: none behind its expiry.
unfoldable pub keep : ℕ → Option KvEntry → Option KvEntry
keep now none = none
keep now (some e) = if is_expired now e then none else some e

pub live_value-eq :
    (now : ℕ) (o p : Option KvEntry) → keep now o ≡ keep now p → live_value now o ≡ live_value now p
unfolding keep live_value
live_value-eq now none none e = refl
live_value-eq now none (some p) e = ground arith
live_value-eq now (some o) none e = ground arith
live_value-eq now (some o) (some p) e = ground arith

-- `kept` at a key whose entry in the range is the first option.
unfoldable swept : ℕ → Option KvEntry → Option KvEntry → Option KvEntry
swept now none kept = kept
swept now (some e) kept = if is_expired now e then none else kept

swept-step :
    (now : ℕ) (key k : List ℕ) (e : KvEntry) (m kept : KvMap)
    → find k m ≡ none
    → swept now (find key m) (find key (if is_expired now e then remove k kept else kept))
      ≡ swept now (if bytes_equal k key then some e else find key m) (find key kept)
unfolding swept
swept-step now key k e m kept f = elim (Bool-cases (bytes_equal k key)) [
  | inl same ↦ elim (Bool-cases (is_expired now e)) [
    | inl old ↦ rw (absent same, same, old) (rw (find-remove k key kept, same) refl)
    | inr young ↦ rw (absent same, same, young) refl
  ]
  | inr other ↦ elim (Bool-cases (is_expired now e)) [
    | inl old ↦ rw (old, other) (rw (find-remove k key kept, other) refl)
    | inr young ↦ rw (young, other) refl
  ]
]
  where
    absent : bytes_equal k key ≡ true → find key m ≡ none
    absent same = ap (λ (j : List ℕ). find j m) (sym (bytes_equal-eq k key same)) ∙ f

find-cleanup_loop :
    (now : ℕ) (key : List ℕ) (m kept : KvMap) (n : ℕ)
    → Distinct m
    → find key (cleanup_loop now m kept n).0 ≡ swept now (find key m) (find key kept)
unfolding cleanup_loop find swept
find-cleanup_loop now key [] kept n d = refl
find-cleanup_loop now key ((k, e) ∷ m) kept n (f, d) =
    find-cleanup_loop now key m _ _ d ∙ swept-step now key k e m kept f

swept-keep : (now : ℕ) (o : Option KvEntry) → swept now o o ≡ keep now o
unfolding swept keep
swept-keep now none = refl
swept-keep now (some e) = refl

pub find-cleanup_expired :
    (now : ℕ) (key : List ℕ) (s : KvStore)
    → Distinct s.entries
    → find key (cleanup_expired now s).entries ≡ keep now (find key s.entries)
unfolding cleanup_expired
find-cleanup_expired now key s d =
    find-cleanup_loop now key s.entries s.entries 0 d ∙ swept-keep now (find key s.entries)

Distinct-if :
    (b : Bool) (k : List ℕ) (kept : KvMap)
    → Distinct kept
    → Distinct (if b then remove k kept else kept)
Distinct-if true k kept d = Distinct-remove k kept d
Distinct-if false k kept d = d

Distinct-cleanup_loop :
    (now : ℕ) (m kept : KvMap) (n : ℕ) → Distinct kept → Distinct (cleanup_loop now m kept n).0
unfolding cleanup_loop
Distinct-cleanup_loop now [] kept n d = d
Distinct-cleanup_loop now ((k, e) ∷ m) kept n d =
    Distinct-cleanup_loop now m _ _ (Distinct-if (is_expired now e) k kept d)

pub Distinct-cleanup_expired :
    (now : ℕ) (s : KvStore) → Distinct s.entries → Distinct (cleanup_expired now s).entries
unfolding cleanup_expired
Distinct-cleanup_expired now s d = Distinct-cleanup_loop now s.entries s.entries 0 d

-- What expired at `t` has expired at a time that is not before `t`.
expired_later :
    (t now : ℕ) (e : KvEntry)
    → less_i64 now t ≡ false
    → is_expired t e ≡ true
    → is_expired now e ≡ true
expired_later t now e later old = ground arith

pub keep-keep :
    (t now : ℕ) (o : Option KvEntry) → less_i64 now t ≡ false → keep now (keep t o) ≡ keep now o
unfolding keep
keep-keep t now none later = refl
keep-keep t now (some e) later = elim (Bool-cases (is_expired t e)) [
  | inl old ↦ rw (old, expired_later t now e later old) refl
  | inr young ↦ rw young refl
]

-- The kept map and the number of deletions, when a round has or has not deleted one.
counted :
    (old : Bool) (less kept : KvMap) (n : ℕ) (r : KvMap × ℕ)
    → ((if old then n + 1 else n) ≤ r.1)
      × (r.1 ≤ (if old then n + 1 else n) → r.0 ≡ (if old then less else kept))
    → (n ≤ r.1) × (r.1 ≤ n → r.0 ≡ kept)
counted true less kept n r (more, same) =
    (omega (arith, more), λ l. absurd (omega (arith, more, l)))
counted false less kept n r h = h

cleanup_loop_count :
    (now : ℕ) (m kept : KvMap) (n : ℕ)
    → (n ≤ (cleanup_loop now m kept n).1)
      × ((cleanup_loop now m kept n).1 ≤ n → (cleanup_loop now m kept n).0 ≡ kept)
unfolding cleanup_loop
cleanup_loop_count now [] kept n = (omega arith, λ l. refl)
cleanup_loop_count now ((k, e) ∷ m) kept n =
    counted (is_expired now e) (remove k kept) kept n _ (cleanup_loop_count now m _ _)

-- A cleanup after which the store is not dirty has deleted nothing.
pub cleanup_expired_clean :
    (now : ℕ) (s : KvStore)
    → (cleanup_expired now s).dirty ≡ false
    → ((cleanup_expired now s).entries ≡ s.entries) × (s.dirty ≡ false)
unfolding cleanup_expired
cleanup_expired_clean now s h =
    let (more, same) = cleanup_loop_count now s.entries s.entries 0 in
    (same (ground arith), ground arith)
