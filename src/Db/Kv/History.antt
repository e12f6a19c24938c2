-- ===== src/Db/Kv/History.antt =====
-- The calls on a KVStore of internal/db/kv/kv_store.go, one after another, and what each key holds.
use scouter_server_go.Common.{
  ℕ, ◌≡◌, refl, ap, ◌∙◌, Bool, true, false, Option, some, List, [], ◌∷◌, if◌then◌else◌, All,
}
use scouter_server_go.Protocol.Word.{less_i64}
use scouter_server_go.Db.Files.{bytes_equal}
use scouter_server_go.Db.Kv.{
  KvEntry, KvMap, KvStore, Pairs, find, store, live_value, get, set, expiry_of, set_ttl, store_all,
  set_bulk, cleanup_expired,
}
use scouter_server_go.Db.Kv.Entries.{find-store, Distinct, Distinct-store}
use scouter_server_go.Db.Kv.Expiry.{
  keep, keep-keep, live_value-eq, find-cleanup_expired, Distinct-cleanup_expired,
}

-- A call, with the time at which it reads the clock.
pub data Call : Type 0 where
  set_call : List ℕ → List ℕ → Call
  set_ttl_call : ℕ → List ℕ → List ℕ → ℕ → Call
  set_bulk_call : Pairs → Call
  cleanup_call : ℕ → Call

unfoldable pub perform : Call → KvStore → KvStore
perform (set_call key value) s = set key value s
perform (set_ttl_call now key value ttl) s = set_ttl now key value ttl s
perform (set_bulk_call pairs) s = set_bulk pairs s
perform (cleanup_call now) s = cleanup_expired now s

unfoldable pub perform_all : List Call → KvStore → KvStore
perform_all [] s = s
perform_all (c ∷ cs) s = perform_all cs (perform c s)

-- The specification: each key is a cell that the last write to it fills, and a cleanup is nothing.
abbrev pub write_cell : List ℕ → List ℕ → List ℕ → ℕ → Option KvEntry → Option KvEntry
write_cell j key value at cell =
    if bytes_equal key j then some (record { value = value; expires_at = at }) else cell

unfoldable pub write_pairs : List ℕ → Pairs → Option KvEntry → Option KvEntry
write_pairs j [] cell = cell
write_pairs j ((k, v) ∷ ps) cell = write_pairs j ps (write_cell j k v 0 cell)

unfoldable pub after_call : List ℕ → Call → Option KvEntry → Option KvEntry
after_call j (set_call key value) cell = write_cell j key value 0 cell
after_call j (set_ttl_call now key value ttl) cell = write_cell j key value (expiry_of now ttl) cell
after_call j (set_bulk_call pairs) cell = write_pairs j pairs cell
after_call j (cleanup_call now) cell = cell

unfoldable pub after_calls : List ℕ → List Call → Option KvEntry → Option KvEntry
after_calls j [] cell = cell
after_calls j (c ∷ cs) cell = after_calls j cs (after_call j c cell)

-- The clock at `now` is not behind that of a cleanup.
abbrev pub IsBefore : ℕ → Call → Type 0
IsBefore now (cleanup_call t) = less_i64 now t ≡ false
IsBefore now (set_call key value) = Unit
IsBefore now (set_ttl_call t key value ttl) = Unit
IsBefore now (set_bulk_call pairs) = Unit

Distinct-store_all : (ps : Pairs) (m : KvMap) → Distinct m → Distinct (store_all ps m)
unfolding store_all
Distinct-store_all [] m d = d
Distinct-store_all ((k, v) ∷ ps) m d = Distinct-store_all ps _ (Distinct-store k _ m d)

pub Distinct-perform :
    (c : Call) (s : KvStore) → Distinct s.entries → Distinct (perform c s).entries
unfolding perform set set_ttl set_bulk
Distinct-perform (set_call key value) s d = Distinct-store key _ s.entries d
Distinct-perform (set_ttl_call now key value ttl) s d = Distinct-store key _ s.entries d
Distinct-perform (set_bulk_call pairs) s d = Distinct-store_all pairs s.entries d
Distinct-perform (cleanup_call now) s d = Distinct-cleanup_expired now s d

keep-store :
    (now : ℕ) (j key : List ℕ) (e : KvEntry) (m : KvMap) (cell : Option KvEntry)
    → keep now (find j m) ≡ keep now cell
    → keep now (find j (store key e m)) ≡ keep now (if bytes_equal key j then some e else cell)
keep-store now j key e m cell h = ap (keep now) (find-store key j e m) ∙ choose (bytes_equal key j)
  where
    choose :
        (b : Bool)
        → keep now (if b then some e else find j m) ≡ keep now (if b then some e else cell)
    choose true = refl
    choose false = h

keep-store_all :
    (now : ℕ) (j : List ℕ) (ps : Pairs) (m : KvMap) (cell : Option KvEntry)
    → keep now (find j m) ≡ keep now cell
    → keep now (find j (store_all ps m)) ≡ keep now (write_pairs j ps cell)
unfolding store_all write_pairs
keep-store_all now j [] m cell h = h
keep-store_all now j ((k, v) ∷ ps) m cell h =
    keep-store_all now j ps _ _ (keep-store now j k _ m cell h)

keep-perform :
    (now : ℕ) (j : List ℕ) (c : Call) (s : KvStore) (cell : Option KvEntry)
    → Distinct s.entries
    → IsBefore now c
    → keep now (find j s.entries) ≡ keep now cell
    → keep now (find j (perform c s).entries) ≡ keep now (after_call j c cell)
unfolding perform after_call set set_ttl set_bulk
keep-perform now j (set_call key value) s cell d b h = keep-store now j key _ s.entries cell h
keep-perform now j (set_ttl_call t key value ttl) s cell d b h =
    keep-store now j key _ s.entries cell h
keep-perform now j (set_bulk_call pairs) s cell d b h = keep-store_all now j pairs s.entries cell h
keep-perform now j (cleanup_call t) s cell d b h =
    ap (keep now) (find-cleanup_expired t j s d) ∙ keep-keep t now (find j s.entries) b ∙ h

keep-perform_all :
    (now : ℕ) (j : List ℕ) (cs : List Call) (s : KvStore) (cell : Option KvEntry)
    → Distinct s.entries
    → All (IsBefore now) cs
    → keep now (find j s.entries) ≡ keep now cell
    → keep now (find j (perform_all cs s).entries) ≡ keep now (after_calls j cs cell)
unfolding perform_all after_calls
keep-perform_all now j [] s cell d bs h = h
keep-perform_all now j (c ∷ cs) s cell d (b, bs) h =
    keep-perform_all now j cs (perform c s) _ (Distinct-perform c s d) bs
      (keep-perform now j c s cell d b h)

-- After any calls of Set, SetTTL, SetBulk and cleanupExpired on a store whose keys are distinct, Get
-- at a time that is not before that of a cleanup returns what the cell of the key holds, which the
-- last write to the key filled and no cleanup changes, unless it has expired.
pub get-perform_all :
    (now : ℕ) (key : List ℕ) (calls : List Call) (s : KvStore)
    → Distinct s.entries
    → All (IsBefore now) calls
    → get now key (perform_all calls s)
      ≡ live_value now (after_calls key calls (find key s.entries))
unfolding get
get-perform_all now key calls s d bs =
    live_value-eq now _ _ (keep-perform_all now key calls s (find key s.entries) d bs refl)
