-- ===== src/Db/IndexKey/Chains.antt =====
-- The chains of internal/db/io/index_key_file.go within the list of records of its key file.
use scouter_server_go.Common.{
  ℕ, ◌%◌, ◌^◌, ◌≤◌, ◌<◌, ◌≡◌, refl, sym, ap, ◌∙◌, ◌==◌, ◌&&◌, Bool, true, false, not, List, [], ◌∷◌,
  ◌++◌, length, arith, if◌then◌else◌, Bool-cases, inl, inr, append_assoc, ==_iff,
}
use mathlib.Core.Path.{subst}
use scouter_server_go.Protocol.Word.{positive_i64}
use scouter_server_go.Util.Hash.{hash_bytes}
use scouter_server_go.Db.Files.{bytes_equal}
use scouter_server_go.Db.Files.Equality.{bytes_equal-eq}
use scouter_server_go.Db.HashBlock.Laws.{IsBlock, value_of}
use scouter_server_go.Db.KeyFile.{RealKeyFile, get_record, file_length}
use scouter_server_go.Db.KeyFile.Entry.{Entry, record_at, length-entry_bytes}
use scouter_server_go.Db.KeyFile.Log.{size, size-append, HasLog, IsLog, size_joined}
use scouter_server_go.Db.KeyFile.Records.{Gives, get_record-Gives}
use scouter_server_go.Db.IndexKey.{IndexKeyFile, live_for}

-- The bucket of a key in a table of `cap` buckets.
abbrev pub slot : ℕ → List ℕ → ℕ
slot cap key = hash_bytes key % 2 ^ 31 % cap

-- The position of the newest record of a bucket, or 0.
unfoldable pub head_pos : ℕ → ℕ → List Entry → ℕ
head_pos cap b [] = 0
head_pos cap b (e ∷ es) = if slot cap e.key == b then size es else head_pos cap b es

-- Each record points to the one before it in its bucket.
abbrev pub IsLinked : ℕ → List Entry → Type 0
IsLinked cap [] = Unit {0}
IsLinked cap (e ∷ es) = (e.prev_pos ≡ head_pos cap (slot cap e.key) es) × IsLinked cap es

-- An index that stands for a list of records: the table has the head of each chain. The keys of the
-- records have at most 110 bytes, their values less than 2^32, and the file less than 2^39.
pub record IsIndex (f : IndexKeyFile) (es : List Entry) : Type 0 where
  pub block : IsBlock f.hash_block
  pub log : HasLog f.key_file es
  pub valid : IsLog es
  pub linked : IsLinked f.hash_block.capacity es
  pub heads :
      (b : ℕ)
      → b < f.hash_block.capacity
      → value_of f.hash_block b ≡ head_pos f.hash_block.capacity b es

unfoldable pub live_entry : List ℕ → Entry → Bool
live_entry key e = not e.deleted && bytes_equal e.key key

pub live_for-record_at :
    (key : List ℕ) (pos : ℕ) (e : Entry) → live_for key (record_at pos e) ≡ live_entry key e
unfolding live_for live_entry
live_for-record_at key pos e = refl

-- A record of another bucket is not the key's.
pub live_entry-other :
    (cap : ℕ) (key : List ℕ) (e : Entry)
    → (slot cap e.key == slot cap key) ≡ false
    → live_entry key e ≡ false
unfolding live_entry
live_entry-other cap key e h = elim (Bool-cases (bytes_equal e.key key)) [
  | inl same ↦ absurd (contradiction (ap (slot cap) (bytes_equal-eq e.key key same)))
  | inr apart ↦ rw apart (ground arith)
]
  where
    contradiction : slot cap e.key ≡ slot cap key → ⊥
    contradiction p = ground arith

pub get_record-at :
    (f : RealKeyFile) (all newer : List Entry) (e : Entry) (older : List Entry)
    → all ≡ newer ++ (e ∷ older)
    → HasLog f all
    → IsLog all
    → Gives (get_record (size older) f) (record_at (size older) e) all
get_record-at f all newer e older q =
    subst
      (λ (a : List Entry).
        HasLog f a → IsLog a → Gives (get_record (size older) f) (record_at (size older) e) a)
      (sym q) (get_record-Gives f newer e older)

-- Positions of records are positive.
pub positive-size :
    (all newer : List Entry) (e : Entry) (older : List Entry)
    → all ≡ newer ++ (e ∷ older)
    → IsLog all
    → positive_i64 (size older) ≡ true
unfolding size
positive-size all newer e older q valid =
    let s = valid.short in
    let l = size-append newer (e ∷ older) in
    let p = size_pos older in let t = ap size q in ground arith
  where
    size_pos : (es : List Entry) → 2 ≤ size es
    size_pos [] = omega arith
    size_pos (e ∷ es) = omega (arith, size_pos es)

pub shift :
    (newer : List Entry) (e : Entry) (older all : List Entry)
    → all ≡ newer ++ (e ∷ older)
    → all ≡ (newer ++ (e ∷ [])) ++ older
shift newer e older all q = q ∙ sym (append_assoc newer (e ∷ []) older)

-- There are fewer records than bytes.
pub length-le-size : (es : List Entry) → length es ≤ size es
unfolding size
length-le-size [] = omega arith
length-le-size (e ∷ es) = omega (arith, length-le-size es, length-entry_bytes e)

pub length-le-file_length :
    (f : RealKeyFile) (es : List Entry) → HasLog f es → length es ≤ file_length f
unfolding file_length
length-le-file_length f es h = omega (arith, length-le-size es, size_joined f es h)

-- Whether the newest record is in the bucket of the key.
module _ (cap : ℕ) (key : List ℕ) (e : Entry) (es : List Entry) where
  pub head_pos-same :
      (slot cap e.key == slot cap key) ≡ true → head_pos cap (slot cap key) (e ∷ es) ≡ size es
  unfolding head_pos
  head_pos-same h = rw h refl

  pub head_pos-other :
      (slot cap e.key == slot cap key) ≡ false
      → head_pos cap (slot cap key) (e ∷ es) ≡ head_pos cap (slot cap key) es
  unfolding head_pos
  head_pos-other h = rw h refl

  pub prev_pos-same :
      e.prev_pos ≡ head_pos cap (slot cap e.key) es
      → (slot cap e.key == slot cap key) ≡ true
      → e.prev_pos ≡ head_pos cap (slot cap key) es
  prev_pos-same prev same = prev ∙ ap (λ (b : ℕ). head_pos cap b es) ((==_iff _ _).0 same)
