-- ===== src/Db/KeyFile/Marking.antt =====
-- SetDelete of internal/db/io/real_key_file.go on a file of records.
use scouter_server_go.Common.{
  ℕ, ◌+◌, ◌<◌, ◌^◌, ◌≡◌, refl, sym, ap, ◌∙◌, true, List, [], ◌∷◌, ◌++◌, length, arith, append_assoc,
}
use scouter_server_go.Db.Files.{ok, write, padded, overwrite}
use scouter_server_go.Db.Files.Overwrite.{overwrite-append}
use scouter_server_go.Db.KeyFile.{RealKeyFile, ◌>>=◌, ◌>>◌, raf_seek, raf_write, set_delete}
use scouter_server_go.Db.KeyFile.Entry.{Entry, entry_bytes}
use scouter_server_go.Db.KeyFile.Log.{
  log_bytes, file_bytes, size, size-append, HasLog, IsLog, Flushed, Flushed-HasLog,
  length-file_bytes, file_bytes-append,
}
use scouter_server_go.Db.KeyFile.Records.{Gives}
use scouter_server_go.Db.KeyFile.Positional.{after_flush, moved_to, raf_seek-moved_to}

-- A record with its mark set.
abbrev pub marked : Entry → Entry
marked e = record e { deleted = true }

pub length-entry_bytes_marked :
    (e : Entry) → length (entry_bytes (marked e)) ≡ length (entry_bytes e)
unfolding entry_bytes
length-entry_bytes_marked e = refl

pub size-marked :
    (newer : List Entry) (e : Entry) (older : List Entry)
    → size (newer ++ (marked e ∷ older)) ≡ size (newer ++ (e ∷ older))
unfolding size
size-marked newer e older = omega (
  arith,
  size-append newer (marked e ∷ older),
  size-append newer (e ∷ older),
  length-entry_bytes_marked e,
)

file_bytes-split :
    (newer : List Entry) (e : Entry) (older : List Entry)
    → file_bytes (newer ++ (e ∷ older)) ≡ file_bytes older ++ (entry_bytes e ++ log_bytes newer)
unfolding log_bytes file_bytes
file_bytes-split newer e older =
    file_bytes-append newer (e ∷ older)
    ∙ append_assoc (file_bytes older) (entry_bytes e) (log_bytes newer)

-- A byte over the first one of a record is its mark.
overwrite_mark :
    (newer : List Entry) (e : Entry) (older : List Entry)
    → overwrite (size older) (1 ∷ []) (file_bytes (newer ++ (e ∷ older)))
      ≡ file_bytes (newer ++ (marked e ∷ older))
unfolding overwrite padded entry_bytes
overwrite_mark newer e older =
    ap (λ (n : ℕ). overwrite n (1 ∷ []) (file_bytes (newer ++ (e ∷ older))))
      (sym (length-file_bytes older))
    ∙ ap (overwrite (length (file_bytes older)) (1 ∷ [])) (file_bytes-split newer e older)
    ∙ overwrite-append (1 ∷ []) (file_bytes older) (entry_bytes e ++ log_bytes newer)
    ∙ sym (file_bytes-split newer (marked e) older)

marked_file : ℕ → RealKeyFile → RealKeyFile
marked_file pos g = record g { raf = write (1 ∷ []) (moved_to pos g).raf }

size-cons :
    (e : Entry) (older : List Entry) → size (e ∷ older) ≡ size older + length (entry_bytes e)
unfolding size
size-cons e older = refl

mark_there :
    (g : RealKeyFile) (newer : List Entry) (e : Entry) (older : List Entry)
    → Flushed g (newer ++ (e ∷ older))
    → IsLog (newer ++ (e ∷ older))
    → Flushed (marked_file (size older) g) (newer ++ (marked e ∷ older))
unfolding marked_file write moved_to
mark_there g newer e older fl valid = record {
  on_disk = ap (overwrite (size older) (1 ∷ [])) fl.on_disk ∙ overwrite_mark newer e older;
  no_buffer = fl.no_buffer;
  ends = fl.ends ∙ sym (size-marked newer e older);
}

write_mark :
    (g : RealKeyFile) (pos : ℕ)
    → pos < 2 ^ 63
    → (raf_seek pos >> raf_write (1 ∷ [])) g ≡ (ok tt, marked_file pos g)
unfolding ◌>>◌ ◌>>=◌ raf_write marked_file moved_to
write_mark g pos h = rw (raf_seek-moved_to pos g h) refl

-- SetDelete sets the mark of the record, and changes nothing else.
pub set_delete-Gives :
    (f : RealKeyFile) (newer : List Entry) (e : Entry) (older : List Entry)
    → HasLog f (newer ++ (e ∷ older))
    → IsLog (newer ++ (e ∷ older))
    → Gives (set_delete (size older) true f) tt (newer ++ (marked e ∷ older))
unfolding set_delete
set_delete-Gives f newer e older h valid = after_flush f _ _ _ h valid λ g fl.
    rw (write_mark g (size older) (below newer e older valid))
      (record { value = refl; log = Flushed-HasLog (mark_there g newer e older fl valid) })
  where
    below :
        (newer : List Entry) (e : Entry) (older : List Entry)
        → IsLog (newer ++ (e ∷ older))
        → size older < 2 ^ 63
    below newer e older valid =
        let s = valid.short in omega (arith, size-append newer (e ∷ older), size-cons e older)
