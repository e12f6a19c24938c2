-- ===== src/Db/IndexKey/Deletion.antt =====
-- Delete of internal/db/io/index_key_file.go, and what Get finds after it.
use scouter_server_go.Common.{
  ℕ, ◌≡◌, refl, sym, ap, ◌∙◌, Bool, true, false, some, none, List, [], ◌∷◌, arith, if◌then◌else◌,
  Bool-cases, inl, inr,
}
use scouter_server_go.Db.Files.{ok, bytes_equal}
use scouter_server_go.Db.KeyFile.Entry.{Entry}
use scouter_server_go.Db.KeyFile.Marking.{marked}
use scouter_server_go.Db.IndexKey.{IndexKeyFile, from_head, on_key_file, fuel_of, delete, get}
use scouter_server_go.Db.IndexKey.Chains.{IsIndex, live_entry}
use scouter_server_go.Db.Files.Equality.{bytes_equal-eq}
use scouter_server_go.Db.IndexKey.Lookup.{find_value}
use scouter_server_go.Db.IndexKey.Answers.{Answers, head_of_key, enough_fuel, get-Answers}
use scouter_server_go.Db.IndexKey.Marks.{
  marked_for, mark_all, live_count, head_pos-mark_all, mark_all-IsLinked, mark_all-IsLog,
}
use scouter_server_go.Db.IndexKey.Removal.{delete_loop-Gives}

-- Delete marks the live records of the key and returns how many there were.
pub delete-Answers :
    (f : IndexKeyFile) (es : List Entry)
    → IsIndex f es
    → (key : List ℕ) → Answers (delete (some key) f) (live_count key es) (mark_all key es)
unfolding delete from_head on_key_file
delete-Answers f es h key =
    let cap = f.hash_block.capacity in
    let p =
      delete_loop-Gives cap key (fuel_of f) 0 [] es f.key_file h.log h.valid h.linked
        (enough_fuel f es h key) in
    rw (head_of_key f es h key, delete, from_head)
      (record {
        value = p.value ∙ ap ok (omega arith);
        index = record {
          block = h.block;
          log = p.log;
          valid = mark_all-IsLog key es h.valid;
          linked = mark_all-IsLinked cap key es h.linked;
          heads = λ b i. h.heads b i ∙ sym (head_pos-mark_all cap b key es);
        };
      })

marked_for-live : (key : List ℕ) (e : Entry) → live_entry key e ≡ true → marked_for key e ≡ marked e
unfolding marked_for
marked_for-live key e l = rw l refl

marked_for-dead : (key : List ℕ) (e : Entry) → live_entry key e ≡ false → marked_for key e ≡ e
unfolding marked_for
marked_for-dead key e l = rw l refl

live_entry-marked_self : (key : List ℕ) (e : Entry) → live_entry key (marked_for key e) ≡ false
live_entry-marked_self key e = elim (Bool-cases (live_entry key e)) [
  | inl l ↦ ap (live_entry key) (marked_for-live key e l) ∙ (unfold live_entry in refl)
  | inr l ↦ ap (live_entry key) (marked_for-dead key e l) ∙ l
]

live_entry-key : (key : List ℕ) (e : Entry) → live_entry key e ≡ true → e.key ≡ key
unfolding live_entry
live_entry-key key e l = bytes_equal-eq e.key key (ground arith)

live_entry-marked_other :
    (key j : List ℕ) (e : Entry)
    → bytes_equal key j ≡ false
    → live_entry j (marked_for key e) ≡ live_entry j e
live_entry-marked_other key j e n = elim (Bool-cases (live_entry key e)) [
  | inl l ↦
      ap (live_entry j) (marked_for-live key e l)
      ∙ (unfold live_entry in
          let q = ap (λ (k : List ℕ). bytes_equal k j) (live_entry-key key e l) in ground arith)
  | inr l ↦ ap (live_entry j) (marked_for-dead key e l)
]

value-marked_for : (key : List ℕ) (e : Entry) → (marked_for key e).value ≡ e.value
unfolding marked_for
value-marked_for key e = ground arith

find_value-mark_self : (key : List ℕ) (es : List Entry) → find_value key (mark_all key es) ≡ none
unfolding find_value mark_all
find_value-mark_self key [] = refl
find_value-mark_self key (e ∷ es) = rw (live_entry-marked_self key e) (find_value-mark_self key es)

find_value-mark_other :
    (key j : List ℕ) (es : List Entry)
    → bytes_equal key j ≡ false
    → find_value j (mark_all key es) ≡ find_value j es
unfolding find_value mark_all
find_value-mark_other key j [] n = refl
find_value-mark_other key j (e ∷ es) n =
    rw (live_entry-marked_other key j e n, value-marked_for key e, find_value-mark_other key j es n)
      refl

live_count-mark_all : (key : List ℕ) (es : List Entry) → live_count key (mark_all key es) ≡ 0
unfolding live_count mark_all
live_count-mark_all key [] = refl
live_count-mark_all key (e ∷ es) =
    rw (live_entry-marked_self key e, live_count-mark_all key es) (omega arith)

-- For an index whose table and file stand for a list of records, with keys of at most 110 bytes,
-- values below 2^32 bytes and a file below 2^39 bytes: after a Delete the Get of the same
-- key finds nothing and the Get of every other key returns what it returned before. Delete returns the number of records of the key that were not marked, and a second Delete
-- returns 0.
pub get-delete :
    (f : IndexKeyFile) (es : List Entry) (key j : List ℕ)
    → IsIndex f es
    → ((get (some j) (delete (some key) f).1).0
        ≡ (if bytes_equal key j then ok none else (get (some j) f).0))
      × ((delete (some key) f).0 ≡ ok (live_count key es))
      × ((delete (some key) (delete (some key) f).1).0 ≡ ok 0)
get-delete f es key j h =
    let d = delete-Answers f es h key in
    let again = delete-Answers _ _ d.index key in
    (
      (get-Answers _ _ d.index j).value ∙ found (bytes_equal key j) refl,
      d.value,
      again.value ∙ ap ok (live_count-mark_all key es),
    )
  where
    found :
        (b : Bool)
        → bytes_equal key j ≡ b
        → ok (find_value j (mark_all key es)) ≡ (if b then ok none else (get (some j) f).0)
    found true e = ap ok (
        ap (λ (k : List ℕ). find_value k (mark_all key es)) (sym (bytes_equal-eq key j e))
        ∙ find_value-mark_self key es)
    found false e = ap ok (find_value-mark_other key j es e) ∙ sym (get-Answers f es h j).value
