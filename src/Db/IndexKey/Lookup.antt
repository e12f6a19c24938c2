-- ===== src/Db/IndexKey/Lookup.antt =====
-- The loops of Get, HasKey and GetAll of internal/db/io/index_key_file.go against the list of records.
use scouter_server_go.Common.{
  ℕ, suc, ◌<◌, ◌≡◌, refl, sym, ◌||◌, Bool, true, false, Option, none, some, List, [], ◌∷◌, ◌++◌,
  length, if◌then◌else◌, Bool-cases, inl, inr, append_assoc, append-nil,
}
use mathlib.Core.Path.{subst}
use scouter_server_go.Db.KeyFile.{RealKeyFile, get_record, return, ◌>>=◌}
use scouter_server_go.Db.KeyFile.Entry.{Entry, record_at}
use scouter_server_go.Db.KeyFile.Log.{size, HasLog, IsLog}
use scouter_server_go.Db.KeyFile.Records.{Gives, run_with-Gives}
use scouter_server_go.Db.IndexKey.{live_for, get_loop, has_key_loop, get_all_loop}
use scouter_server_go.Db.IndexKey.Chains.{
  slot, head_pos, IsLinked, live_entry, live_for-record_at, get_record-at, positive-size,
}
use scouter_server_go.Db.IndexKey.Walk.{walk-Gives}

-- The value of the newest live record of a key.
unfoldable pub find_value : List ℕ → List Entry → Option (List ℕ)
find_value key [] = none
find_value key (e ∷ es) = if live_entry key e then some e.value else find_value key es

-- The values of all live records of a key, the newest first.
unfoldable pub all_values : List ℕ → List Entry → List (List ℕ)
all_values key [] = []
all_values key (e ∷ es) =
    if live_entry key e then e.value ∷ all_values key es else all_values key es

unfoldable pub has_value : List ℕ → List Entry → Bool
has_value key [] = false
has_value key (e ∷ es) = live_entry key e || has_value key es

-- A search that is done at the first live record of the key, and goes on with the next otherwise.
module _ (all : List Entry) (valid : IsLog all) (cap : ℕ) (key : List ℕ) where
  get_round :
      (fuel : ℕ) (c : Unit {0}) (newer : List Entry) (e : Entry) (es : List Entry) (f : RealKeyFile)
      → all ≡ newer ++ (e ∷ es)
      → HasLog f all
      → e.prev_pos ≡ head_pos cap (slot cap key) es
      → ((d : Unit {0}) (g : RealKeyFile)
          → HasLog g all
          → Gives (get_loop fuel key (head_pos cap (slot cap key) es) g) (find_value key es) all)
      → Gives (get_loop (suc fuel) key (size es) f) (find_value key (e ∷ es)) all
  unfolding get_loop ◌>>=◌
  get_round fuel c newer e es f q h prev ih =
      rw (positive-size all newer e es q valid, get_loop)
        (run_with-Gives (get_record (size es) f) _ (get_record-at f all newer e es q h valid) rest)
    where
      rest :
          (g : RealKeyFile)
          → HasLog g all
          → Gives
              (elim (live_for key (record_at (size es) e)) [
                | true ↦ return (some e.value) g
                | false ↦ get_loop fuel key e.prev_pos g
              ])
              (find_value key (e ∷ es))
              all
      rest g k = elim (Bool-cases (live_entry key e)) [
        | inl y ↦
            rw (live_for-record_at key (size es) e, y)
              (unfold find_value return in rw y (record { value = refl; log = k }))
        | inr y ↦
            rw (live_for-record_at key (size es) e, y)
              (unfold find_value in
                rw y (
                  subst (λ (p : ℕ). Gives (get_loop fuel key p g) (find_value key es) all)
                    (sym prev) (ih tt g k)))
      ]

  pub get_loop-Gives :
      (fuel : ℕ) (f : RealKeyFile)
      → HasLog f all
      → IsLinked cap all
      → length all < fuel
      → Gives (get_loop fuel key (head_pos cap (slot cap key) all) f) (find_value key all) all
  unfolding get_loop return find_value
  get_loop-Gives fuel f h l n =
      walk-Gives all cap key (λ fuel (c : Unit {0}) p. get_loop fuel key p)
        (λ c es. find_value key es) (λ fuel c f. refl) (λ c e es no_match apart. rw no_match refl)
        get_round fuel tt [] all f refl h l n

  has_key_round :
      (fuel : ℕ) (c : Unit {0}) (newer : List Entry) (e : Entry) (es : List Entry) (f : RealKeyFile)
      → all ≡ newer ++ (e ∷ es)
      → HasLog f all
      → e.prev_pos ≡ head_pos cap (slot cap key) es
      → ((d : Unit {0}) (g : RealKeyFile)
          → HasLog g all
          → Gives (has_key_loop fuel key (head_pos cap (slot cap key) es) g) (has_value key es) all)
      → Gives (has_key_loop (suc fuel) key (size es) f) (has_value key (e ∷ es)) all
  unfolding has_key_loop ◌>>=◌
  has_key_round fuel c newer e es f q h prev ih =
      rw (positive-size all newer e es q valid, has_key_loop)
        (run_with-Gives (get_record (size es) f) _ (get_record-at f all newer e es q h valid) rest)
    where
      rest :
          (g : RealKeyFile)
          → HasLog g all
          → Gives
              (elim (live_for key (record_at (size es) e)) [
                | true ↦ return true g
                | false ↦ has_key_loop fuel key e.prev_pos g
              ])
              (has_value key (e ∷ es))
              all
      rest g k = elim (Bool-cases (live_entry key e)) [
        | inl y ↦
            rw (live_for-record_at key (size es) e, y)
              (unfold has_value return in rw y (record { value = refl; log = k }))
        | inr y ↦
            rw (live_for-record_at key (size es) e, y)
              (unfold has_value in
                rw y (
                  subst (λ (p : ℕ). Gives (has_key_loop fuel key p g) (has_value key es) all)
                    (sym prev) (ih tt g k)))
      ]

  pub has_key_loop-Gives :
      (fuel : ℕ) (f : RealKeyFile)
      → HasLog f all
      → IsLinked cap all
      → length all < fuel
      → Gives (has_key_loop fuel key (head_pos cap (slot cap key) all) f) (has_value key all) all
  unfolding has_key_loop return has_value
  has_key_loop-Gives fuel f h l n =
      walk-Gives all cap key (λ fuel (c : Unit {0}) p. has_key_loop fuel key p)
        (λ c es. has_value key es) (λ fuel c f. refl) (λ c e es no_match apart. rw no_match refl)
        has_key_round fuel tt [] all f refl h l n

  get_all_round :
      (fuel : ℕ) (out : List (List ℕ)) (newer : List Entry) (e : Entry) (es : List Entry)
      (f : RealKeyFile)
      → all ≡ newer ++ (e ∷ es)
      → HasLog f all
      → e.prev_pos ≡ head_pos cap (slot cap key) es
      → ((out : List (List ℕ)) (g : RealKeyFile)
          → HasLog g all
          → Gives
              (get_all_loop fuel key out (head_pos cap (slot cap key) es) g)
              (out ++ all_values key es)
              all)
      → Gives (get_all_loop (suc fuel) key out (size es) f) (out ++ all_values key (e ∷ es)) all
  unfolding get_all_loop ◌>>=◌
  get_all_round fuel out newer e es f q h prev ih =
      rw (positive-size all newer e es q valid, get_all_loop)
        (run_with-Gives (get_record (size es) f) _ (get_record-at f all newer e es q h valid) rest)
    where
      rest :
          (g : RealKeyFile)
          → HasLog g all
          → Gives
              (get_all_loop fuel key
                (if live_for key (record_at (size es) e) then out ++ (e.value ∷ []) else out)
                e.prev_pos
                g)
              (out ++ all_values key (e ∷ es))
              all
      rest g k = elim (Bool-cases (live_entry key e)) [
        | inl y ↦
            rw (live_for-record_at key (size es) e, y)
              (unfold all_values in
                rw (y, prev, ← append_assoc out (e.value ∷ []) (all_values key es))
                  (ih (out ++ (e.value ∷ [])) g k))
        | inr y ↦
            rw (live_for-record_at key (size es) e, y)
              (unfold all_values in rw (y, prev) (ih out g k))
      ]

  pub get_all_loop-Gives :
      (fuel : ℕ) (f : RealKeyFile)
      → HasLog f all
      → IsLinked cap all
      → length all < fuel
      → Gives
          (get_all_loop fuel key [] (head_pos cap (slot cap key) all) f)
          (all_values key all)
          all
  unfolding get_all_loop return all_values
  get_all_loop-Gives fuel f h l n =
      walk-Gives all cap key (λ fuel out p. get_all_loop fuel key out p)
        (λ out es. out ++ all_values key es) (λ fuel c f. rw (append-nil c) refl)
        (λ c e es no_match apart. rw no_match refl) get_all_round fuel [] [] all f refl h l n
