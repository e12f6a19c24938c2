-- ===== src/Db/KeyFile/Log.antt =====
-- The file of internal/db/io/real_key_file.go as the list of its records, the newest first, split
-- between the disk and the buffer of appended bytes.
use scouter_server_go.Common.{
  ℕ, zero, suc, ◌+◌, ◌^◌, ◌<◌, ◌≡◌, refl, sym, ap, ◌∙◌, ◌==◌, true, false, List, [], ◌∷◌, ◌++◌,
  length, drop, arith, ltb, Bool-cases, inl, inr, length-append, append_assoc, append-nil,
  drop-append_length, All,
}
use native.Mathlib.Nat.{suc-add, zero-add}
use scouter_server_go.Db.Files.{ok, overwrite, padded, seek, write}
use scouter_server_go.Db.KeyFile.{
  RealKeyFile, flush_append_buf, raf_seek, raf_write, return, ◌>>◌, kfile_header_size,
}
use scouter_server_go.Db.KeyFile.Entry.{Entry, IsEntry, entry_bytes}

unfoldable pub log_bytes : List Entry → List ℕ
log_bytes [] = []
log_bytes (e ∷ es) = log_bytes es ++ entry_bytes e

unfoldable pub file_bytes : List Entry → List ℕ
file_bytes es = (0xca ∷ 0xfe ∷ []) ++ log_bytes es

-- Where the next record goes.
unfoldable pub size : List Entry → ℕ
size [] = kfile_header_size
size (e ∷ es) = size es + length (entry_bytes e)

pub length-file_bytes : (es : List Entry) → length (file_bytes es) ≡ size es
unfolding file_bytes log_bytes size
length-file_bytes [] = refl
length-file_bytes (e ∷ es) =
    omega (arith, length-file_bytes es, length-append (log_bytes es) (entry_bytes e))

log_bytes-append : (new old : List Entry) → log_bytes (new ++ old) ≡ log_bytes old ++ log_bytes new
unfolding log_bytes
log_bytes-append [] old = sym (append-nil (log_bytes old))
log_bytes-append (e ∷ new) old =
    rw (log_bytes-append new old) (append_assoc (log_bytes old) (log_bytes new) (entry_bytes e))

pub file_bytes-append :
    (new old : List Entry) → file_bytes (new ++ old) ≡ file_bytes old ++ log_bytes new
unfolding file_bytes
file_bytes-append new old = rw (log_bytes-append new old) refl

pub size-append : (new old : List Entry) → size (new ++ old) ≡ size old + length (log_bytes new)
unfolding size log_bytes
size-append [] old = omega arith
size-append (e ∷ new) old =
    omega (arith, size-append new old, length-append (log_bytes new) (entry_bytes e))

-- Behind the older records stands the record, and the newer ones.
pub drop-file_bytes :
    (newer : List Entry) (e : Entry) (older : List Entry)
    → drop (size older) (file_bytes (newer ++ (e ∷ older))) ≡ entry_bytes e ++ log_bytes newer
unfolding file_bytes log_bytes
drop-file_bytes newer e older =
    ap (drop (size older)) (file_bytes-append newer (e ∷ older))
    ∙ rw (← length-file_bytes older) (
        ap (drop (length (file_bytes older)))
          (append_assoc (file_bytes older) (entry_bytes e) (log_bytes newer))
        ∙ drop-append_length (file_bytes older) (entry_bytes e ++ log_bytes newer))

-- `es` is in the file: the older records on the disk, the newer ones in the buffer.
pub record HasLog (f : RealKeyFile) (es : List Entry) : Type 0 where
  pub newer : List Entry
  pub older : List Entry
  pub split : es ≡ newer ++ older
  pub on_disk : f.raf.content ≡ file_bytes older
  pub in_buffer : f.append_buf ≡ log_bytes newer
  pub ends : f.file_end ≡ size older

-- Records within the first 2^39 bytes, which a position of five bytes can name.
pub record IsLog (es : List Entry) : Type 0 where
  pub entries : All IsEntry es
  pub short : size es < 2 ^ 39

-- All of it on the disk.
pub record Flushed (f : RealKeyFile) (es : List Entry) : Type 0 where
  pub on_disk : f.raf.content ≡ file_bytes es
  pub no_buffer : f.append_buf ≡ []
  pub ends : f.file_end ≡ size es

pub Flushed-HasLog : {f : RealKeyFile} {es : List Entry} → Flushed f es → HasLog f es
unfolding log_bytes
Flushed-HasLog {f} {es} h = record {
  newer = [];
  older = es;
  split = refl;
  on_disk = h.on_disk;
  in_buffer = h.no_buffer;
  ends = h.ends;
}

overwrite_end : (b xs : List ℕ) → overwrite (length xs) b xs ≡ xs ++ b
unfolding overwrite padded
overwrite_end [] xs = sym (append-nil xs)
overwrite_end (x ∷ b) xs = rw (padded_all xs, nothing_left (length (x ∷ b)) xs, append-nil) refl
  where
    padded_all : (xs : List ℕ) → padded (length xs) xs ≡ xs
    padded_all [] = refl
    padded_all (x ∷ xs) = ap (◌∷◌ x) (padded_all xs)

    none_of_none : (n : ℕ) → drop {A = ℕ} n [] ≡ []
    none_of_none zero = refl
    none_of_none (suc n) = refl

    nothing_left : (n : ℕ) (xs : List ℕ) → drop (length xs + n) xs ≡ []
    nothing_left n [] = rw zero-add (none_of_none n)
    nothing_left n (x ∷ xs) = rw suc-add (nothing_left n xs)

-- What is left where something was buffered.
appended : RealKeyFile → RealKeyFile
appended f = record {
  raf = record {
    content = overwrite f.file_end f.append_buf f.raf.content;
    cursor = f.file_end + length f.append_buf;
  };
  append_buf = [];
  file_end = f.file_end + length f.append_buf;
}

flush_append_buf-appended :
    (f : RealKeyFile)
    → (length f.append_buf == 0) ≡ false
    → f.file_end < 2 ^ 63
    → flush_append_buf f ≡ (ok tt, appended f)
unfolding flush_append_buf raf_seek raf_write seek write return ◌>>◌ appended
flush_append_buf-appended f e h =
    let a : ltb f.file_end (2 ^ 63) ≡ true = ground arith in rw (e, a) refl

flush_append_buf-empty :
    (f : RealKeyFile) → (length f.append_buf == 0) ≡ true → flush_append_buf f ≡ (ok tt, f)
unfolding flush_append_buf return
flush_append_buf-empty f e = rw e refl

nil_of_empty : (v : List ℕ) → (length v == 0) ≡ true → v ≡ []
nil_of_empty [] h = refl
nil_of_empty (x ∷ v) h = absurd (ground arith)

module _ (f : RealKeyFile) (es : List Entry) (h : HasLog f es) where
  content_joined : file_bytes es ≡ f.raf.content ++ f.append_buf
  content_joined = rw (h.split, h.on_disk, h.in_buffer) (file_bytes-append h.newer h.older)

  pub size_joined : size es ≡ f.file_end + length f.append_buf
  size_joined = rw (h.split, h.ends, h.in_buffer) (size-append h.newer h.older)

  appended-Flushed : Flushed (appended f) es
  unfolding appended
  appended-Flushed =
      let e : f.file_end ≡ length f.raf.content =
        h.ends ∙ sym (length-file_bytes h.older) ∙ ap length (sym h.on_disk) in
      record {
        on_disk =
            ap (λ (n : ℕ). overwrite n f.append_buf f.raf.content) e
            ∙ overwrite_end f.append_buf f.raf.content
            ∙ sym content_joined;
        no_buffer = refl;
        ends = sym size_joined;
      }

  unbuffered_Flushed : f.append_buf ≡ [] → Flushed f es
  unbuffered_Flushed e = record {
    on_disk = sym (content_joined ∙ ap (◌++◌ f.raf.content) e ∙ append-nil f.raf.content);
    no_buffer = e;
    ends = omega (arith, size_joined, ap length e);
  }

  -- flushAppendBuf moves the buffer to the end of the file, and does not fail.
  pub flush_append_buf_lem :
      IsLog es → (g : RealKeyFile) × (flush_append_buf f ≡ (ok tt, g)) × Flushed g es
  flush_append_buf_lem valid = elim (Bool-cases (length f.append_buf == 0)) [
    | inl e ↦ (f, flush_append_buf-empty f e, unbuffered_Flushed (nil_of_empty f.append_buf e))
    | inr e ↦
        let s = valid.short in
        let small : f.file_end < 2 ^ 63 = omega (arith, size_joined) in
        (appended f, flush_append_buf-appended f e small, appended-Flushed)
  ]
