-- ===== src/Db/IndexKey/Walk.antt =====
-- The searches of internal/db/io/index_key_file.go along the chain of a bucket.
use scouter_server_go.Common.{
  ℕ, zero, suc, ◌<◌, ◌≡◌, refl, sym, ◌==◌, false, List, [], ◌∷◌, ◌++◌, length, arith, Bool-cases,
  inl, inr,
}
use mathlib.Core.Path.{subst}
use scouter_server_go.Db.Files.{ok}
use scouter_server_go.Db.KeyFile.{RealKeyFile, Op}
use scouter_server_go.Db.KeyFile.Entry.{Entry}
use scouter_server_go.Db.KeyFile.Log.{size, HasLog}
use scouter_server_go.Db.KeyFile.Records.{Gives}
use scouter_server_go.Db.IndexKey.Chains.{
  slot, head_pos, head_pos-same, head_pos-other, prev_pos-same, IsLinked, live_entry,
  live_entry-other, shift,
}

-- A search along the chain of a key's bucket, with an accumulator: what it does at the end of the
-- chain and at one record says what it does on the whole.
module _ {ℓ κ} {A : Type ℓ} {C : Type κ} (all : List Entry) (cap : ℕ) (key : List ℕ)
    (loop : ℕ → C → ℕ → Op A) (spec : C → List Entry → A)
    (at_end : (fuel : ℕ) (c : C) (f : RealKeyFile) → loop (suc fuel) c 0 f ≡ (ok (spec c []), f))
    (other : (c : C) (e : Entry) (es : List Entry)
      → live_entry key e ≡ false
      → (slot cap e.key == slot cap key) ≡ false
      → spec c (e ∷ es) ≡ spec c es)
    (round : (fuel : ℕ) (c : C) (newer : List Entry) (e : Entry) (es : List Entry) (f : RealKeyFile)
      → all ≡ newer ++ (e ∷ es)
      → HasLog f all
      → e.prev_pos ≡ head_pos cap (slot cap key) es
      → ((d : C) (g : RealKeyFile)
          → HasLog g all
          → Gives (loop fuel d (head_pos cap (slot cap key) es) g) (spec d es) all)
      → Gives (loop (suc fuel) c (size es) f) (spec c (e ∷ es)) all) where
  pub walk-Gives :
      (fuel : ℕ) (c : C) (newer es : List Entry) (f : RealKeyFile)
      → all ≡ newer ++ es
      → HasLog f all
      → IsLinked cap es
      → length es < fuel
      → Gives (loop fuel c (head_pos cap (slot cap key) es) f) (spec c es) all
  walk-Gives zero c newer es f q h l n = absurd (omega arith)
  walk-Gives (suc fuel) c newer [] f q h l n =
      unfold head_pos in rw (at_end fuel c f) (record { value = refl; log = h })
  walk-Gives (suc fuel) c newer (e ∷ es) f q h l n =
      elim (Bool-cases (slot cap e.key == slot cap key)) [
        | inl same ↦
            subst (λ (p : ℕ). Gives (loop (suc fuel) c p f) (spec c (e ∷ es)) all)
              (sym (head_pos-same cap key e es same))
              (round fuel c newer e es f q h (prev_pos-same cap key e es l.0 same) (λ d g k.
                walk-Gives fuel d (newer ++ (e ∷ [])) es g (shift newer e es all q) k l.1
                  (omega arith)))
        | inr apart ↦
            rw
              (
                head_pos-other cap key e es apart,
                other c e es (live_entry-other cap key e apart) apart,
              )
              (walk-Gives (suc fuel) c (newer ++ (e ∷ [])) es f (shift newer e es all q) h l.1
                (omega arith))
      ]
