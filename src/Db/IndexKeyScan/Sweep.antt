-- ===== src/Db/IndexKeyScan/Sweep.antt =====
-- Read and Stat of internal/db/io/index_key_file.go against the list of records.
use scouter_server_go.Common.{
  ℕ, zero, suc, ◌+◌, ◌<◌, ◌≡◌, refl, sym, ap, ◌∙◌, ◌&&◌, Bool, true, false, List, [], ◌∷◌, ◌++◌,
  length, arith, if◌then◌else◌, append_assoc, append-nil,
}
use scouter_server_go.Protocol.Word.{positive_i64, less_i64}
use scouter_server_go.Db.Files.{Outcome, ok}
use scouter_server_go.Db.KeyRecord.{KeyRecord}
use scouter_server_go.Db.KeyFile.{RealKeyFile, get_record, file_length, first_pos}
use scouter_server_go.Db.KeyFile.Entry.{Entry, entry_bytes, record_at, length-entry_bytes}
use scouter_server_go.Db.KeyFile.Log.{size, size-append, size_joined, HasLog, IsLog}
use scouter_server_go.Db.IndexKey.{IndexKeyFile, fuel_of}
use scouter_server_go.Db.IndexKey.Chains.{IsIndex, get_record-at, positive-size}
use scouter_server_go.Db.IndexKey.Answers.{enough_fuel}
use scouter_server_go.Db.IndexKeyScan.{Call, called, read_loop, read, KeyStat, stat_loop, stat}

-- The records `later`, the oldest first, before `older`.
unfoldable pub onto : List Entry → List Entry → List Entry
onto [] older = older
onto (e ∷ later) older = onto later (e ∷ older)

onto-append : (later older : List Entry) → onto later older ≡ onto later [] ++ older
unfolding onto
onto-append [] older = refl
onto-append (e ∷ later) older =
    onto-append later (e ∷ older)
    ∙ sym (append_assoc (onto later []) (e ∷ []) older)
    ∙ ap (λ (xs : List Entry). xs ++ older) (sym (onto-append later (e ∷ [])))

onto-onto : (xs ys zs : List Entry) → onto (onto xs ys) zs ≡ onto ys (xs ++ zs)
unfolding onto
onto-onto [] ys zs = refl
onto-onto (x ∷ xs) ys zs = onto-onto xs (x ∷ ys) zs

-- The records, the oldest first.
unfoldable pub oldest_first : List Entry → List Entry
oldest_first es = onto es []

onto-oldest_first : (es : List Entry) → onto (oldest_first es) [] ≡ es
unfolding oldest_first onto
onto-oldest_first es = onto-onto es [] [] ∙ append-nil es

length-onto : (xs ys : List Entry) → length (onto xs ys) ≡ length xs + length ys
unfolding onto
length-onto [] ys = omega arith
length-onto (x ∷ xs) ys = omega (arith, length-onto xs (x ∷ ys))

length-oldest_first : (es : List Entry) → length (oldest_first es) ≡ length es
unfolding oldest_first
length-oldest_first es = omega (arith, length-onto es [])

less_i64_self : (n : ℕ) → less_i64 n n ≡ false
less_i64_self n = ground arith

both : (a b : Bool) → a ≡ true → b ≡ true → (a && b) ≡ true
both a b p q = ground arith

before-all :
    (all newer : List Entry) (e : Entry) (older : List Entry)
    → all ≡ newer ++ (e ∷ older)
    → IsLog all
    → less_i64 (size older) (size all) ≡ true
unfolding size
before-all all newer e older q valid =
    let s = valid.short in
    let t = ap size q in
    let l = size-append newer (e ∷ older) in let n = length-entry_bytes e in ground arith

steps {κ} : {C : Type κ} → (C → Entry → C) → C → List Entry → C
steps step c [] = c
steps step c (e ∷ later) = steps step (step c e) later

module _ {ℓ κ} {X : Type ℓ} {C : Type κ} (all : List Entry) (valid : IsLog all)
    (loop : ℕ → C → ℕ → RealKeyFile → X × RealKeyFile) (step : C → Entry → C)
    (stop : Outcome (Unit {0}) → C → X)
    (test : (fuel : ℕ) (c : C) (pos : ℕ) (f : RealKeyFile)
      → (less_i64 pos (size all) && positive_i64 pos) ≡ false
      → loop (suc fuel) c pos f ≡ (stop (ok tt) c, f))
    (round : (fuel : ℕ) (c : C) (pos : ℕ) (f : RealKeyFile) (e : Entry) (g : RealKeyFile)
      → (less_i64 pos (size all) && positive_i64 pos) ≡ true
      → get_record pos f ≡ (ok (record_at pos e), g)
      → loop (suc fuel) c pos f ≡ loop fuel (step c e) (pos + length (entry_bytes e)) g) where
  sweep :
      (fuel : ℕ) (c : C) (later older : List Entry) (f : RealKeyFile)
      → all ≡ onto later older
      → HasLog f all
      → length later < fuel
      → (loop fuel c (size older) f).0 ≡ stop (ok tt) (steps step c later)
  unfolding onto steps size
  sweep zero c later older f q h n = absurd (omega arith)
  sweep (suc fuel) c [] older f q h n =
      let e : less_i64 (size older) (size all) ≡ false = rw q (less_i64_self (size older)) in
      ap (λ (r : X × RealKeyFile). r.0) (test fuel c (size older) f (rw e refl))
  sweep (suc fuel) c (e ∷ later) older f q h n =
      let newer = onto later [] in
      let q' : all ≡ newer ++ (e ∷ older) = q ∙ onto-append later (e ∷ older) in
      let r = get_record-at f all newer e older q' h valid in
      let inside : (less_i64 (size older) (size all) && positive_i64 (size older)) ≡ true =
        both (less_i64 (size older) (size all)) (positive_i64 (size older))
          (before-all all newer e older q' valid) (positive-size all newer e older q' valid) in
      ap (λ (x : X × RealKeyFile). x.0)
        (round fuel c (size older) f e (get_record (size older) f).1 inside
          (ap (λ (o : Outcome KeyRecord). (o, (get_record (size older) f).1)) r.value))
      ∙ sweep fuel (step c e) later (e ∷ older) (get_record (size older) f).1 q r.log (omega arith)

-- What the handler is called with for the records, the oldest first.
unfoldable pub calls_of : List Entry → List Call
calls_of [] = []
calls_of (e ∷ later) = (if e.deleted then [] else (e.key, e.value) ∷ []) ++ calls_of later

unfoldable pub deleted_count : List Entry → ℕ
deleted_count [] = 0
deleted_count (e ∷ es) = (if e.deleted then 1 else 0) + deleted_count es

deleted_count-onto :
    (later older : List Entry)
    → deleted_count (onto later older) ≡ deleted_count later + deleted_count older
unfolding onto deleted_count
deleted_count-onto [] older = omega arith
deleted_count-onto (e ∷ later) older = ground (arith, deleted_count-onto later (e ∷ older))

deleted_count-oldest_first : (es : List Entry) → deleted_count (oldest_first es) ≡ deleted_count es
unfolding oldest_first deleted_count
deleted_count-oldest_first es = omega (arith, deleted_count-onto es [])

module _ (f : IndexKeyFile) (es : List Entry) (h : IsIndex f es) where
  whole : es ≡ onto (oldest_first es) []
  whole = sym (onto-oldest_first es)

  end_of_log : file_length f.key_file ≡ size es
  unfolding file_length
  end_of_log = sym (size_joined f.key_file es h.log)

  read_steps :
      (c : List Call) (later : List Entry)
      → steps (λ c e. c ++ called (record_at 0 e)) c later ≡ c ++ calls_of later
  unfolding steps calls_of called
  read_steps c [] = sym (append-nil c)
  read_steps c (e ∷ later) =
      read_steps (c ++ (if e.deleted then [] else (e.key, e.value) ∷ [])) later
      ∙ append_assoc c _ (calls_of later)

  -- For an index whose table and file stand for a list of records, with keys of at most 110 bytes,
  -- values below 2^32 bytes and a file below 2^39 bytes: Read calls its handler once for
  -- each record that is not deleted, in the order of their insertion, and ends without an error.
  pub read-calls : (read f).0 ≡ (calls_of (oldest_first es), ok tt)
  unfolding read read_loop called size
  read-calls =
      ap (λ (len : ℕ). (read_loop (fuel_of f) len [] first_pos f.key_file).0) end_of_log
      ∙ sweep es h.valid (λ fuel c pos g. read_loop fuel (size es) c pos g)
          (λ c e. c ++ called (record_at 0 e)) (λ o c. (c, o))
          (λ fuel c pos g t. rw (t, read_loop) refl)
          (λ fuel c pos g e g' t r. rw (t, read_loop, r) refl) (fuel_of f) [] (oldest_first es) []
          f.key_file whole h.log (omega (arith, enough_fuel f es h [], length-oldest_first es))
      ∙ ap (λ (c : List Call). (c, ok tt)) (read_steps [] (oldest_first es))

  stat_step : KeyStat → Entry → KeyStat
  stat_step s e =
      if e.deleted then record s { deleted = s.deleted + 1 } else record s { count = s.count + 1 }

  stat_step_lem :
      (s : KeyStat) (e : Entry)
      → ((stat_step s e).count + (stat_step s e).deleted ≡ s.count + s.deleted + 1)
        × ((stat_step s e).deleted ≡ s.deleted + (if e.deleted then 1 else 0))
        × ((stat_step s e).scatter ≡ s.scatter)
  unfolding stat_step
  stat_step_lem s e = ground arith

  stat_steps :
      (s : KeyStat) (later : List Entry)
      → ((steps stat_step s later).count + (steps stat_step s later).deleted
          ≡ s.count + s.deleted + length later)
        × ((steps stat_step s later).deleted ≡ s.deleted + deleted_count later)
        × ((steps stat_step s later).scatter ≡ s.scatter)
  unfolding steps deleted_count
  stat_steps s [] = (omega arith, omega arith, refl)
  stat_steps s (e ∷ later) =
      let ih = stat_steps (stat_step s e) later in
      let one = stat_step_lem s e in
      (omega (arith, ih.0, one.0), omega (arith, ih.1, one.1), ih.2 ∙ one.2)

  stat-steps :
      (stat f).0
      ≡ steps stat_step
          (record { count = 0; deleted = 0; scatter = f.hash_block.count })
          (oldest_first es)
  unfolding stat stat_loop stat_step size
  stat-steps =
      ap
        (λ (len : ℕ).
          (stat_loop (fuel_of f) len
            (record { count = 0; deleted = 0; scatter = f.hash_block.count }) first_pos
            f.key_file).0)
        end_of_log
      ∙ sweep es h.valid (λ fuel c pos g. stat_loop fuel (size es) c pos g) stat_step (λ o c. c)
          (λ fuel c pos g t. rw (t, stat_loop) refl)
          (λ fuel c pos g e g' t r. rw (t, stat_loop, r) refl) (fuel_of f) _ (oldest_first es) []
          f.key_file whole h.log (omega (arith, enough_fuel f es h [], length-oldest_first es))

  -- Stat counts every record once, as deleted or not, and reports the count of the table.
  pub stat-counts :
      ((stat f).0.count + (stat f).0.deleted ≡ length es)
      × ((stat f).0.deleted ≡ deleted_count es)
      × ((stat f).0.scatter ≡ f.hash_block.count)
  stat-counts =
      let s =
        stat_steps (record { count = 0; deleted = 0; scatter = f.hash_block.count })
          (oldest_first es) in
      rw stat-steps (
        omega (arith, s.0, length-oldest_first es),
        omega (arith, s.1, deleted_count-oldest_first es),
        s.2,
      )
