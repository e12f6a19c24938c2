-- ===== src/Db/IndexKeyScan.antt =====
-- Read, ReadWithDataReader and Stat of internal/db/io/index_key_file.go: the records of the key file
-- one behind the other. A handler is the list of its calls.
pub mod Sweep
pub mod Counts
use scouter_server_go.Common.{
  ℕ, zero, suc, ◌+◌, ◌&&◌, Bool, true, false, List, [], ◌∷◌, ◌++◌, length, ltb, if◌then◌else◌,
}
use scouter_server_go.Protocol.Word.{positive_i64, less_i64}
use scouter_server_go.Protocol.Input.{int5}
use scouter_server_go.Db.Files.{Outcome, ok, err, panic, stuck}
use scouter_server_go.Db.KeyRecord.{KeyRecord}
use scouter_server_go.Db.KeyFile.{RealKeyFile, get_record, first_pos, file_length}
use scouter_server_go.Db.IndexKey.{IndexKeyFile, fuel_of}

abbrev pub Call : Type 0
Call = List ℕ × List ℕ

-- The calls of the handler, and how the loop ended.
abbrev pub Scan : Type 0
Scan = (List Call × Outcome (Unit {0})) × RealKeyFile

-- What a loop makes of a record, or of the error of GetRecord.
abbrev pub with_record {ℓ} :
    {X : Type ℓ}
    → (Outcome (Unit {0}) → X)
    → Outcome KeyRecord × RealKeyFile
    → (KeyRecord → RealKeyFile → X × RealKeyFile)
    → X × RealKeyFile
with_record stop (ok r, f) k = k r f
with_record stop (err e, f) k = (stop (err e), f)
with_record stop (panic, f) k = (stop panic, f)
with_record stop (stuck, f) k = (stop stuck, f)

unfoldable pub called : KeyRecord → List Call
called r = if r.deleted then [] else (r.time_key, r.data_pos) ∷ []

unfoldable pub read_loop : ℕ → ℕ → List Call → ℕ → RealKeyFile → Scan
read_loop zero len calls pos f = ((calls, stuck), f)
read_loop (suc fuel) len calls pos f = elim (less_i64 pos len && positive_i64 pos) [
  | false ↦ ((calls, ok tt), f)
  | true ↦
      with_record (λ o. (calls, o)) (get_record pos f)
        (λ r g. read_loop fuel len (calls ++ called r) r.offset g)
]

abbrev pub on_index {ℓ} : {X : Type ℓ} → IndexKeyFile → X × RealKeyFile → X × IndexKeyFile
on_index f (x, kf) = (x, record f { key_file = kf })

unfoldable pub read : IndexKeyFile → (List Call × Outcome (Unit {0})) × IndexKeyFile
read f = on_index f (read_loop (fuel_of f) (file_length f.key_file) [] first_pos f.key_file)

-- The data of a record that is not deleted: Int5 panics on a slice of less than five bytes.
unfoldable pub data_call : (ℕ → List ℕ) → KeyRecord → Outcome (List Call)
data_call reader r =
    if r.deleted
    then ok []
    else if ltb (length r.data_pos) 5
    then panic
    else ok ((r.time_key, reader (int5 r.data_pos)) ∷ [])

abbrev pub with_call : List Call → RealKeyFile → Outcome (List Call) → (List Call → Scan) → Scan
with_call calls f (ok c) k = k (calls ++ c)
with_call calls f (err e) k = ((calls, err e), f)
with_call calls f panic k = ((calls, panic), f)
with_call calls f stuck k = ((calls, stuck), f)

unfoldable pub read_with_data_reader_loop :
    ℕ → (ℕ → List ℕ) → ℕ → List Call → ℕ → RealKeyFile → Scan
read_with_data_reader_loop zero reader len calls pos f = ((calls, stuck), f)
read_with_data_reader_loop (suc fuel) reader len calls pos f =
    elim (less_i64 pos len && positive_i64 pos) [
      | false ↦ ((calls, ok tt), f)
      | true ↦
          with_record (λ o. (calls, o)) (get_record pos f)
            (λ r g.
              with_call calls g (data_call reader r)
                (λ next. read_with_data_reader_loop fuel reader len next r.offset g))
    ]

unfoldable pub read_with_data_reader :
    (ℕ → List ℕ) → IndexKeyFile → (List Call × Outcome (Unit {0})) × IndexKeyFile
read_with_data_reader reader f =
    on_index f (
      read_with_data_reader_loop (fuel_of f) reader (file_length f.key_file) [] first_pos
        f.key_file)

-- "count", "deleted" and "scatter" of the map that Stat returns.
pub record KeyStat : Type 0 where
  pub count : ℕ
  pub deleted : ℕ
  pub scatter : ℕ

unfoldable pub stat_loop : ℕ → ℕ → KeyStat → ℕ → RealKeyFile → KeyStat × RealKeyFile
stat_loop zero len s pos f = (s, f)
stat_loop (suc fuel) len s pos f = elim (less_i64 pos len && positive_i64 pos) [
  | false ↦ (s, f)
  | true ↦
      with_record (λ _. s) (get_record pos f)
        (λ r g.
          stat_loop fuel len
            (if r.deleted
              then record s { deleted = s.deleted + 1 }
              else record s { count = s.count + 1 })
            r.offset g)
]

unfoldable pub stat : IndexKeyFile → KeyStat × IndexKeyFile
stat f = on_index f (
    stat_loop (fuel_of f) (file_length f.key_file)
      (record { count = 0; deleted = 0; scatter = f.hash_block.count }) first_pos f.key_file)
