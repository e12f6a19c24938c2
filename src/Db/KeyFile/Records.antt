-- ===== src/Db/KeyFile/Records.antt =====
-- GetRecord and Append of internal/db/io/real_key_file.go on a file of records.
use scouter_server_go.Common.{
  ℕ, ◌+◌, ◌^◌, ◌<◌, ◌≡◌, refl, sym, ap, ◌∙◌, true, List, [], ◌∷◌, ◌++◌, length, arith, leb,
  Bool-cases, inl, inr, All,
}
use mathlib.Core.Path.{subst}
use scouter_server_go.Db.Files.{Outcome, ok, err, panic, stuck}
use scouter_server_go.Protocol.Word.{less_i64}
use scouter_server_go.Db.KeyRecord.{get_record_read_at}
use scouter_server_go.Db.KeyFile.{
  RealKeyFile, return, Op, ◌>>◌, ◌>>=◌, run_with, get_record, append, buffered,
  append_buf_threshold, record_bytes,
}
use scouter_server_go.Db.KeyFile.Entry.{
  Entry, IsEntry, entry_bytes, record_at, written_entry, record_bytes-entry,
  get_record_read_at-entry,
}
use scouter_server_go.Db.KeyFile.Log.{
  log_bytes, file_bytes, size, size-append, drop-file_bytes, HasLog, IsLog, Flushed, Flushed-HasLog,
  flush_append_buf_lem, size_joined,
}

pub All-last :
    (P : Entry → Type 0) (newer : List Entry) (e : Entry) (older : List Entry)
    → All P (newer ++ (e ∷ older))
    → P e
All-last P [] e older h = h.0
All-last P (x ∷ newer) e older h = All-last P newer e older h.1

-- A record that stands on the disk is one of the older ones.
older_of :
    (new old before : List Entry) (e : Entry) (tail : List Entry)
    → before ++ (e ∷ tail) ≡ new ++ old
    → size tail < size old
    → (b : List Entry) × (old ≡ b ++ (e ∷ tail))
unfolding size
older_of [] old before e tail h s = (before, sym h)
older_of (n ∷ new) old [] e tail h s =
    let same : tail ≡ new ++ old = cc in absurd (omega (arith, size-append new old, ap size same))
older_of (n ∷ new) old (b ∷ before) e tail h s = older_of new old before e tail (cc) s

-- What an operation leaves of a file of records.
pub record Gives {ℓ} {A : Type ℓ} (r : Outcome A × RealKeyFile) (a : A) (es : List Entry)
    : Type ℓ where
  pub value : r.0 ≡ ok a
  pub log : HasLog r.1 es

pub run_with-Gives {ℓ κ} :
    {A : Type ℓ} {B : Type κ} (r : Outcome A × RealKeyFile) (k : A → Op B) {a : A} {b : B}
    {es es' : List Entry}
    → Gives r a es
    → ((g : RealKeyFile) → HasLog g es → Gives (k a g) b es')
    → Gives (run_with r k) b es'
run_with-Gives (ok x, g) k {a} {b} {es} {es'} p q =
    subst (λ x. Gives (k x g) b es') (sym (ok_value p.value)) (q g p.log)
  where
    ok_value : ok x ≡ ok a → x ≡ a
    ok_value e = cc
run_with-Gives (err x, g) k p q = absurd (cc)
run_with-Gives (panic, g) k p q = absurd (cc)
run_with-Gives (stuck, g) k p q = absurd (cc)

module _ (f : RealKeyFile) (newer : List Entry) (e : Entry) (older : List Entry)
    (h : HasLog f (newer ++ (e ∷ older))) (valid : IsLog (newer ++ (e ∷ older))) where
  position_small : size older + length (entry_bytes e) < 2 ^ 39
  unfolding size
  position_small = let s = valid.short in omega (arith, size-append newer (e ∷ older))

  -- The record at a position that the disk holds.
  on_disk_record :
      (content : List ℕ) (b : List Entry)
      → content ≡ file_bytes (b ++ (e ∷ older))
      → (c : ℕ)
      → get_record_read_at (size older) (record { content = content; cursor = c })
        ≡ ok (record_at (size older) e)
  on_disk_record content b at c =
      get_record_read_at-entry (size older) (record { content = content; cursor = c }) e
        (log_bytes b) (All-last IsEntry newer e older valid.entries)
        (rw at (drop-file_bytes b e older)) (let s = position_small in omega arith)

  from_flushed :
      (g : RealKeyFile)
      → Flushed g (newer ++ (e ∷ older))
      → Gives
          (get_record_read_at (size older) g.raf, g)
          (record_at (size older) e)
          (newer ++ (e ∷ older))
  from_flushed g fl = record {
    value = on_disk_record g.raf.content newer fl.on_disk g.raf.cursor;
    log = Flushed-HasLog fl;
  }

  from_disk :
      size older < f.file_end
      → Gives
          (get_record_read_at (size older) f.raf, f)
          (record_at (size older) e)
          (newer ++ (e ∷ older))
  from_disk s =
      let b = older_of h.newer h.older newer e older h.split (rw (sym h.ends) s) in
      record {
        value = on_disk_record f.raf.content b.0 (h.on_disk ∙ ap file_bytes b.1) f.raf.cursor;
        log = h;
      }

  before_end : less_i64 (size older) f.file_end ≡ true → size older < f.file_end
  before_end d = let s = position_small in let v = valid.short in ground arith

  -- GetRecord at the position of a record returns it, from the disk or from the buffer.
  pub get_record-Gives :
      Gives (get_record (size older) f) (record_at (size older) e) (newer ++ (e ∷ older))
  unfolding get_record ◌>>◌ ◌>>=◌
  get_record-Gives = elim (Bool-cases (less_i64 (size older) f.file_end)) [
    | inl d ↦ rw d (from_disk (before_end d))
    | inr d ↦
        let p = flush_append_buf_lem f (newer ++ (e ∷ older)) h valid in
        rw (d, p.1) (from_flushed p.0 p.2)
  ]

module _ (f : RealKeyFile) (es : List Entry) (h : HasLog f es) (p : ℕ) (k v : List ℕ)
    (valid : IsLog (written_entry p k v ∷ es)) where
  buffered-HasLog : HasLog (buffered (record_bytes p k v) f) (written_entry p k v ∷ es)
  unfolding buffered log_bytes
  buffered-HasLog = record {
    newer = written_entry p k v ∷ h.newer;
    older = h.older;
    split = ap (◌∷◌ (written_entry p k v)) h.split;
    on_disk = h.on_disk;
    in_buffer =
        rw
          (
            h.in_buffer,
            record_bytes-entry p k v (omega (arith, valid.entries.0.key_small))
                valid.entries.0.value_small,
          )
          refl;
    ends = h.ends;
  }

  -- Append returns the position behind all records, and the record is the newest.
  pub append-Gives : Gives (append p k v f) (size es) (written_entry p k v ∷ es)
  unfolding append return ◌>>◌ ◌>>=◌
  append-Gives =
      let g = buffered (record_bytes p k v) f in
      let at : f.file_end + length f.append_buf ≡ size es = sym (size_joined f es h) in
      elim (Bool-cases (leb append_buf_threshold (length g.append_buf))) [
        | inl full ↦
            let q = flush_append_buf_lem g (written_entry p k v ∷ es) buffered-HasLog valid in
            rw (full, q.1) (record { value = ap ok at; log = Flushed-HasLog q.2 })
        | inr room ↦ rw room (record { value = ap ok at; log = buffered-HasLog })
      ]
