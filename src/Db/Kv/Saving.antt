-- ===== src/Db/Kv/Saving.antt =====
-- The file of a KVStore of internal/db/kv/kv_store.go: save, Close and NewKVStore.
use scouter_server_go.Common.{
  ℕ, ◌≡◌, refl, sym, ap, ◌∙◌, ◌&&◌, true, false, Option, some, List, [], ◌∷◌, arith, Bool-cases,
  Option-cases, inl, inr,
}
use scouter_server_go.Db.Kv.{
  KvMap, KvStore, Device, find, live_value, get, set, set_ttl, set_bulk, load, new_kv_store, save,
  close,
}
use scouter_server_go.Db.Kv.Expiry.{cleanup_expired_clean}
use scouter_server_go.Db.Kv.History.{
  Call, set_call, set_ttl_call, set_bulk_call, cleanup_call, perform, perform_all,
}

-- No call on the file system fails.
abbrev pub sound_device : Device
sound_device = record { mkdir_all = true; write_file = true; rename = true }

module _ (marshal_indent : KvMap → Option (List ℕ))
    (unmarshal : List ℕ → Option (Option KvMap)) where
  -- A store that is not dirty has the map that its file is read as.
  abbrev pub IsSaved : Option (List ℕ) → KvStore → Type 0
  IsSaved file s =
      s.dirty ≡ false
      → (key : List ℕ)
      → find key (new_kv_store marshal_indent unmarshal file).entries ≡ find key s.entries

  -- The map is written as bytes that are read as a map with the same entries.
  pub record IsReadBack (m : KvMap) : Type 0 where
    pub bytes : List ℕ
    pub read : KvMap
    pub written : marshal_indent m ≡ some bytes
    pub read_back : unmarshal bytes ≡ some (some read)
    pub same : (key : List ℕ) → find key read ≡ find key m

  IsSaved-perform :
      (file : Option (List ℕ)) (c : Call) (s : KvStore)
      → IsSaved file s
      → IsSaved file (perform c s)
  unfolding perform set set_ttl set_bulk
  IsSaved-perform file (set_call key value) s saved clean = absurd (ground arith)
  IsSaved-perform file (set_ttl_call now key value ttl) s saved clean = absurd (ground arith)
  IsSaved-perform file (set_bulk_call pairs) s saved clean = absurd (ground arith)
  IsSaved-perform file (cleanup_call now) s saved clean =
      let (same, was_clean) = cleanup_expired_clean now s clean in
      λ key. saved was_clean key ∙ ap (find key) (sym same)

  IsSaved-perform_all :
      (file : Option (List ℕ)) (cs : List Call) (s : KvStore)
      → IsSaved file s
      → IsSaved file (perform_all cs s)
  unfolding perform_all
  IsSaved-perform_all file [] s saved = saved
  IsSaved-perform_all file (c ∷ cs) s saved =
      IsSaved-perform_all file cs (perform c s) (IsSaved-perform file c s saved)

  find-save :
      (file : Option (List ℕ)) (s : KvStore) (key : List ℕ)
      → IsSaved file s
      → IsReadBack s.entries
      → find key
          (new_kv_store marshal_indent unmarshal
            (save marshal_indent unmarshal sound_device s file).1).entries
        ≡ find key s.entries
  unfolding save new_kv_store load
  find-save file s key saved r = elim (Bool-cases s.dirty) [
    | inl dirty ↦ rw (dirty, r.written) (rw (r.read_back, load) (r.same key))
    | inr clean ↦ rw clean (saved clean key)
  ]

  -- After any calls of Set, SetTTL, SetBulk and cleanupExpired on a store that is dirty or has the
  -- map of its file, Close on a device that does not fail leaves a file from which NewKVStore makes a
  -- store that returns for each key what the closed one returns, if its map can be read back.
  pub get-close :
      (file : Option (List ℕ)) (calls : List Call) (s : KvStore) (now : ℕ) (key : List ℕ)
      → IsSaved file s
      → IsReadBack (perform_all calls s).entries
      → get now key (
          new_kv_store marshal_indent unmarshal
            (close marshal_indent unmarshal sound_device (perform_all calls s) file).1)
        ≡ get now key (perform_all calls s)
  unfolding get close
  get-close file calls s now key saved r =
      ap (live_value now)
        (find-save file (perform_all calls s) key (IsSaved-perform_all file calls s saved) r)

  -- A save that fails at the file system leaves the file as it was, and a further save on any device
  -- does not write the changes either: it changes neither the store nor the file.
  pub save-failed_save :
      (failing device : Device) (s : KvStore) (file : Option (List ℕ))
      → (failing.mkdir_all && (failing.write_file && failing.rename)) ≡ false
      → ((save marshal_indent unmarshal failing s file).1 ≡ file)
        × ((save marshal_indent unmarshal device
              (save marshal_indent unmarshal failing s file).0
              (save marshal_indent unmarshal failing s file).1)
            ≡ save marshal_indent unmarshal failing s file)
  unfolding save
  save-failed_save failing device s file fails = elim (Bool-cases s.dirty) [
    | inl dirty ↦ elim (Option-cases (marshal_indent s.entries)) [
      | inl n ↦ rw (dirty, n) (refl, refl)
      | inr (bytes, q) ↦ rw (dirty, q, fails) (refl, refl)
    ]
    | inr clean ↦ rw clean (refl, refl)
  ]
