-- ===== src/Db/IndexKey/Marks.antt =====
-- The records that Delete of internal/db/io/index_key_file.go marks: sizes, positions and links stay.
use scouter_server_go.Common.{
  ℕ, ◌+◌, ◌≡◌, refl, sym, ap, ◌∙◌, List, [], ◌∷◌, ◌++◌, length, arith, if◌then◌else◌, Bool-cases,
  inl, inr, All,
}
use scouter_server_go.Db.KeyFile.Entry.{Entry, IsEntry, entry_bytes}
use scouter_server_go.Db.KeyFile.Log.{size, size-append, IsLog}
use scouter_server_go.Db.KeyFile.Marking.{marked, length-entry_bytes_marked}
use scouter_server_go.Db.IndexKey.Chains.{slot, head_pos, IsLinked, live_entry}

unfoldable pub marked_for : List ℕ → Entry → Entry
marked_for key e = if live_entry key e then marked e else e

-- The records with those of the key marked, and how many of them were live.
unfoldable pub mark_all : List ℕ → List Entry → List Entry
mark_all key [] = []
mark_all key (e ∷ es) = marked_for key e ∷ mark_all key es

unfoldable pub live_count : List ℕ → List Entry → ℕ
live_count key [] = 0
live_count key (e ∷ es) = (if live_entry key e then 1 else 0) + live_count key es

pub prev_pos-marked_for : (key : List ℕ) (e : Entry) → (marked_for key e).prev_pos ≡ e.prev_pos
unfolding marked_for
prev_pos-marked_for key e = ground arith

pub key-marked_for : (key : List ℕ) (e : Entry) → (marked_for key e).key ≡ e.key
unfolding marked_for
key-marked_for key e = ground arith

pub length-marked_for :
    (key : List ℕ) (e : Entry) → length (entry_bytes (marked_for key e)) ≡ length (entry_bytes e)
unfolding marked_for
length-marked_for key e = elim (Bool-cases (live_entry key e)) [
  | inl l ↦ rw l (length-entry_bytes_marked e)
  | inr l ↦ rw l refl
]

pub marked_for-IsEntry : (key : List ℕ) (e : Entry) → IsEntry e → IsEntry (marked_for key e)
unfolding marked_for
marked_for-IsEntry key e h = elim (Bool-cases (live_entry key e)) [
  | inl l ↦
      rw l (record { key_small = h.key_small; value_small = h.value_small; position = h.position })
  | inr l ↦ rw l h
]

pub size-mark_all : (key : List ℕ) (es : List Entry) → size (mark_all key es) ≡ size es
unfolding size mark_all
size-mark_all key [] = refl
size-mark_all key (e ∷ es) = omega (arith, size-mark_all key es, length-marked_for key e)

pub head_pos-mark_all :
    (cap b : ℕ) (key : List ℕ) (es : List Entry)
    → head_pos cap b (mark_all key es) ≡ head_pos cap b es
unfolding head_pos mark_all
head_pos-mark_all cap b key [] = refl
head_pos-mark_all cap b key (e ∷ es) =
    rw (key-marked_for key e, size-mark_all key es, head_pos-mark_all cap b key es) refl

pub mark_all-IsLinked :
    (cap : ℕ) (key : List ℕ) (es : List Entry) → IsLinked cap es → IsLinked cap (mark_all key es)
unfolding mark_all
mark_all-IsLinked cap key [] l = tt
mark_all-IsLinked cap key (e ∷ es) l = (
  prev_pos-marked_for key e
      ∙ l.0
      ∙ ap (λ (k : List ℕ). head_pos cap (slot cap k) es) (sym (key-marked_for key e))
      ∙ sym (head_pos-mark_all cap (slot cap (marked_for key e).key) key es),
  mark_all-IsLinked cap key es l.1,
)

pub mark_all-entries :
    (key : List ℕ) (es : List Entry) → All IsEntry es → All IsEntry (mark_all key es)
unfolding mark_all
mark_all-entries key [] h = tt
mark_all-entries key (e ∷ es) h = (marked_for-IsEntry key e h.0, mark_all-entries key es h.1)

pub mark_all-IsLog : (key : List ℕ) (es : List Entry) → IsLog es → IsLog (mark_all key es)
mark_all-IsLog key es h = record {
  entries = mark_all-entries key es h.entries;
  short = omega (arith, size-mark_all key es, h.short);
}

size-one_marked :
    (key : List ℕ) (newer : List Entry) (e : Entry) (es : List Entry)
    → size (newer ++ (marked_for key e ∷ es)) ≡ size (newer ++ (e ∷ es))
unfolding size
size-one_marked key newer e es = omega (
  arith,
  size-append newer (marked_for key e ∷ es),
  size-append newer (e ∷ es),
  length-marked_for key e,
)

pub one_marked-IsLog :
    (key : List ℕ) (newer : List Entry) (e : Entry) (es : List Entry)
    → IsLog (newer ++ (e ∷ es))
    → IsLog (newer ++ (marked_for key e ∷ es))
one_marked-IsLog key newer e es h = record {
  entries = entries newer h.entries;
  short = omega (arith, h.short, size-one_marked key newer e es);
}
  where
    entries :
        (newer : List Entry)
        → All IsEntry (newer ++ (e ∷ es))
        → All IsEntry (newer ++ (marked_for key e ∷ es))
    entries [] a = (marked_for-IsEntry key e a.0, a.1)
    entries (x ∷ newer) a = (a.0, entries newer a.1)
