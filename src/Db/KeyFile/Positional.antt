-- ===== src/Db/KeyFile/Positional.antt =====
-- The operations of internal/db/io/real_key_file.go that read or write a part of a record at its
-- position: IsDeleted, GetTimeKey, GetPrevPos and SetDelete.
use scouter_server_go.Common.{
  ℕ, ◌+◌, ◌/◌, ◌%◌, ◌<◌, ◌^◌, ◌≡◌, refl, sym, ap, ◌∙◌, ◌==◌, true, false, List, [], ◌∷◌, ◌++◌,
  length, arith, drop, take, leb, ltb, append_assoc, length-append, length-drop, take-append_length,
  drop-drop, lt_or_le, inl, inr,
}
use scouter_server_go.Protocol.Output.{bytes5}
use scouter_server_go.Protocol.WordCodec.{int5-bytes5}
use scouter_server_go.Db.Files.{ok, seek, read, padded}
use scouter_server_go.Db.KeyRecord.Layout.{blob_bytes}
use scouter_server_go.Db.KeyFile.{
  RealKeyFile, Op, return, ◌>>=◌, ◌>>◌, flush_append_buf, raf_seek, raf_read, is_deleted,
  get_time_key, get_prev_pos,
}
use scouter_server_go.Db.KeyFile.Entry.{Entry, IsEntry, entry_bytes, flag, flag_back}
use scouter_server_go.Db.KeyFile.Log.{
  log_bytes, file_bytes, size, size-append, drop-file_bytes, HasLog, IsLog, Flushed, Flushed-HasLog,
  flush_append_buf_lem,
}
use scouter_server_go.Db.KeyFile.Records.{Gives, All-last}

-- The file with its cursor elsewhere.
unfoldable pub moved_to : ℕ → RealKeyFile → RealKeyFile
moved_to c f = record f { raf = record { content = f.raf.content; cursor = c } }

pub raf_seek-moved_to :
    (pos : ℕ) (f : RealKeyFile) → pos < 2 ^ 63 → raf_seek pos f ≡ (ok tt, moved_to pos f)
unfolding raf_seek seek moved_to
raf_seek-moved_to pos f h = let a : ltb pos (2 ^ 63) ≡ true = ground arith in rw a refl

padded_all : (xs : List ℕ) → padded (length xs) xs ≡ xs
unfolding padded
padded_all [] = refl
padded_all (x ∷ xs) = ap (◌∷◌ x) (padded_all xs)

-- Bytes that stand at the cursor are read, and the cursor is behind them.
raf_read-moved_to :
    (f : RealKeyFile) (n : ℕ) (b rest : List ℕ)
    → drop f.raf.cursor f.raf.content ≡ b ++ rest
    → length b ≡ n
    → 0 < n
    → raf_read n f ≡ (ok b, moved_to (f.raf.cursor + n) f)
unfolding raf_read read moved_to
raf_read-moved_to f n b rest stands e p =
    let z : (n == 0) ≡ false = ground arith in
    let inside : leb (length f.raf.content) f.raf.cursor ≡ false =
      let l = ap length stands in
      let d = length-drop f.raf.cursor f.raf.content in
      let a = length-append b rest in ground arith in
    let got : take n (drop f.raf.cursor f.raf.content) ≡ b =
      rw (stands, ← e) (take-append_length b rest) in
    rw (z, inside, got, ← e, padded_all b) refl

Flushed-moved_to :
    (c : ℕ) {f : RealKeyFile} {es : List Entry} → Flushed f es → Flushed (moved_to c f) es
unfolding moved_to
Flushed-moved_to c h = record { on_disk = h.on_disk; no_buffer = h.no_buffer; ends = h.ends }

raf_read-nothing : (f : RealKeyFile) (n : ℕ) → n ≡ 0 → raf_read n f ≡ (ok [], f)
unfolding raf_read read
raf_read-nothing f n e = rw e refl

-- Rules for what follows a flush, and for a read at a position where `b` stands.
module _ {ℓ} {A : Type ℓ} {a : A} where
  pub after_flush :
      (f : RealKeyFile) (all all' : List Entry) (m : Op A)
      → HasLog f all
      → IsLog all
      → ((g : RealKeyFile) → Flushed g all → Gives (m g) a all')
      → Gives ((flush_append_buf >> m) f) a all'
  unfolding ◌>>◌ ◌>>=◌
  after_flush f all all' m h valid k =
      let q = flush_append_buf_lem f all h valid in rw q.1 (k q.0 q.2)

  read_there :
      (g : RealKeyFile) (all : List Entry) (pos n : ℕ) (b rest : List ℕ) (k : List ℕ → Op A)
      → Flushed g all
      → pos < 2 ^ 63
      → drop pos g.raf.content ≡ b ++ rest
      → length b ≡ n
      → 0 < n
      → Gives (k b (moved_to (pos + n) g)) a all
      → Gives ((raf_seek pos >> (raf_read n >>= k)) g) a all
  unfolding ◌>>◌ ◌>>=◌ moved_to
  read_there g all pos n b rest k fl small stands e p done =
      rw (raf_seek-moved_to pos g small, raf_read-moved_to (moved_to pos g) n b rest stands e p)
        done

module _ (f : RealKeyFile) (newer : List Entry) (e : Entry) (older : List Entry)
    (h : HasLog f (newer ++ (e ∷ older))) (valid : IsLog (newer ++ (e ∷ older))) where
  small : size older + length (entry_bytes e) < 2 ^ 39
  unfolding size
  small = let s = valid.short in omega (arith, size-append newer (e ∷ older))

  -- What stands in the record from its `k`-th byte on.
  inner :
      (g : RealKeyFile) (k : ℕ) (b rest : List ℕ)
      → Flushed g (newer ++ (e ∷ older))
      → drop k (entry_bytes e ++ log_bytes newer) ≡ b ++ rest
      → drop (size older + k) g.raf.content ≡ b ++ rest
  inner g k b rest fl s =
      ap (drop (size older + k)) fl.on_disk
      ∙ drop-drop (size older) k (file_bytes (newer ++ (e ∷ older)))
      ∙ ap (drop k) (drop-file_bytes newer e older)
      ∙ s

  pub is_deleted-Gives : Gives (is_deleted (size older) f) e.deleted (newer ++ (e ∷ older))
  unfolding is_deleted entry_bytes return
  is_deleted-Gives = after_flush f _ _ _ h valid λ g fl.
      read_there g _ (size older) 1 (flag e.deleted ∷ []) _ _ fl (let s = small in omega arith)
        (ap (drop (size older)) fl.on_disk ∙ drop-file_bytes newer e older) refl (omega arith)
        (record {
          value = ap ok (flag_back e.deleted);
          log = Flushed-HasLog (Flushed-moved_to (size older + 1) fl);
        })

  pub get_prev_pos-Gives : Gives (get_prev_pos (size older) f) e.prev_pos (newer ++ (e ∷ older))
  unfolding get_prev_pos entry_bytes return bytes5
  get_prev_pos-Gives = after_flush f _ _ _ h valid λ g fl.
      read_there g _ (size older + 1) 5 (bytes5 e.prev_pos) _ _ fl (let s = small in omega arith)
        (inner g 1 (bytes5 e.prev_pos) _ fl refl) refl (omega arith)
        (record {
          value =
              ap ok
                (int5-bytes5 e.prev_pos (All-last IsEntry newer e older valid.entries).position);
          log = Flushed-HasLog (Flushed-moved_to (size older + 1 + 5) fl);
        })

  -- The key behind its two length bytes, which may be empty.
  read_key :
      (g : RealKeyFile)
      → Flushed g (newer ++ (e ∷ older))
      → g.raf.cursor ≡ size older + 8
      → (n : ℕ) → n ≡ length e.key
      → Gives (raf_read n g) e.key (newer ++ (e ∷ older))
  unfolding entry_bytes bytes5
  read_key g fl at n len = elim (lt_or_le 0 n) [
    | inl p ↦
        let stands : drop g.raf.cursor g.raf.content
            ≡ e.key ++ (blob_bytes e.value ++ log_bytes newer) =
          rw at (
            inner g 8 e.key (blob_bytes e.value ++ log_bytes newer) fl
              (append_assoc e.key (blob_bytes e.value) (log_bytes newer))) in
        rw (raf_read-moved_to g n e.key (blob_bytes e.value ++ log_bytes newer) stands (sym len) p)
          (record { value = refl; log = Flushed-HasLog (Flushed-moved_to (g.raf.cursor + n) fl) })
    | inr p ↦
        rw (raf_read-nothing g n (omega arith))
          (record { value = ap ok (sym (empty e.key (omega arith))); log = Flushed-HasLog fl })
  ]
    where
      empty : (k : List ℕ) → length k ≡ 0 → k ≡ []
      empty [] z = refl
      empty (x ∷ k) z = absurd (omega arith)

  key_length_stands :
      (g : RealKeyFile)
      → Flushed g (newer ++ (e ∷ older))
      → drop (size older + 1 + 5) g.raf.content
        ≡ (length e.key / 2 ^ 8 ∷ length e.key % 2 ^ 8 ∷ [])
          ++ (e.key ++ (blob_bytes e.value ++ log_bytes newer))
  unfolding entry_bytes bytes5
  key_length_stands g fl =
      let six : size older + 1 + 5 ≡ size older + 6 = omega arith in
      rw six (
        inner g 6 (length e.key / 2 ^ 8 ∷ length e.key % 2 ^ 8 ∷ []) _ fl (
          ap (λ (x : List ℕ). length e.key / 2 ^ 8 ∷ length e.key % 2 ^ 8 ∷ x)
            (append_assoc e.key (blob_bytes e.value) (log_bytes newer))))

  pub get_time_key-Gives : Gives (get_time_key (size older) f) e.key (newer ++ (e ∷ older))
  unfolding get_time_key moved_to
  get_time_key-Gives = after_flush f _ _ _ h valid λ g fl.
      read_there g _ (size older + 1 + 5) 2 (length e.key / 2 ^ 8 ∷ length e.key % 2 ^ 8 ∷ []) _ _
        fl (let s = small in omega arith) (key_length_stands g fl) refl (omega arith)
        (read_key (moved_to (size older + 1 + 5 + 2) g)
          (Flushed-moved_to (size older + 1 + 5 + 2) fl) (omega arith) _ (omega arith))
