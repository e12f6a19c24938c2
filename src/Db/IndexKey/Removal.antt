-- ===== src/Db/IndexKey/Removal.antt =====
-- The loop of Delete of internal/db/io/index_key_file.go.
use scouter_server_go.Common.{
  ℕ, zero, suc, ◌+◌, ◌<◌, ◌≡◌, refl, sym, ap, ◌∙◌, ◌==◌, Bool, true, false, List, [], ◌∷◌, ◌++◌,
  length, arith, if◌then◌else◌, Bool-cases, inl, inr, append_assoc,
}
use mathlib.Core.Path.{subst}
use scouter_server_go.Db.Files.{ok, bytes_equal}
use scouter_server_go.Db.KeyFile.{
  RealKeyFile, return, ◌>>=◌, ◌>>◌, is_deleted, get_time_key, get_prev_pos, set_delete,
}
use scouter_server_go.Db.KeyFile.Entry.{Entry}
use scouter_server_go.Db.KeyFile.Log.{size, HasLog, IsLog}
use scouter_server_go.Db.KeyFile.Records.{Gives, run_with-Gives}
use scouter_server_go.Db.KeyFile.Positional.{
  is_deleted-Gives, get_time_key-Gives, get_prev_pos-Gives,
}
use scouter_server_go.Db.KeyFile.Marking.{marked, set_delete-Gives}
use scouter_server_go.Db.IndexKey.{delete_at, delete_loop}
use scouter_server_go.Db.IndexKey.Chains.{
  slot, head_pos, head_pos-same, head_pos-other, prev_pos-same, IsLinked, live_entry,
  live_entry-other, positive-size,
}
use scouter_server_go.Db.IndexKey.Marks.{
  marked_for, mark_all, live_count, prev_pos-marked_for, one_marked-IsLog,
}

module _ (key : List ℕ) (n : ℕ) (f : RealKeyFile) (newer : List Entry) (e : Entry)
    (older : List Entry) (h : HasLog f (newer ++ (e ∷ older)))
    (valid : IsLog (newer ++ (e ∷ older))) where
  -- A record that does not count is left as it is.
  passed_by :
      (g : RealKeyFile)
      → HasLog g (newer ++ (e ∷ older))
      → live_entry key e ≡ false
      → Gives
          (return n g)
          (if live_entry key e then n + 1 else n)
          (newer ++ (marked_for key e ∷ older))
  unfolding return marked_for
  passed_by g k l = rw l (record { value = refl; log = k })

  after_key :
      (b : Bool) (g : RealKeyFile)
      → bytes_equal e.key key ≡ b
      → e.deleted ≡ false
      → HasLog g (newer ++ (e ∷ older))
      → Gives
          ((if b then (set_delete (size older) true >> return (n + 1)) else return n) g)
          (if live_entry key e then n + 1 else n)
          (newer ++ (marked_for key e ∷ older))
  unfolding ◌>>◌ ◌>>=◌ return
  after_key true g b d k =
      let l : live_entry key e ≡ true = unfold live_entry in ground arith in
      let m : marked_for key e ≡ marked e = unfold marked_for in rw l refl in
      rw (l, m)
        (run_with-Gives (set_delete (size older) true g) _
          (set_delete-Gives g newer e older k valid) (λ g' k'. record { value = refl; log = k' }))
  after_key false g b d k = passed_by g k (unfold live_entry in ground arith)

  after_mark :
      (d : Bool) (g : RealKeyFile)
      → e.deleted ≡ d
      → HasLog g (newer ++ (e ∷ older))
      → Gives
          ((if d
              then return n
              else (get_time_key (size older) >>= λ o_key.
                  if bytes_equal o_key key
                  then (set_delete (size older) true >> return (n + 1))
                  else return n))
            g)
          (if live_entry key e then n + 1 else n)
          (newer ++ (marked_for key e ∷ older))
  unfolding ◌>>=◌
  after_mark true g d k = passed_by g k (unfold live_entry in ground arith)
  after_mark false g d k =
      run_with-Gives (get_time_key (size older) g) _ (get_time_key-Gives g newer e older k valid)
        (λ g' k'. after_key (bytes_equal e.key key) g' refl d k')

  delete_at-Gives :
      Gives
        (delete_at key n (size older) f)
        (if live_entry key e then n + 1 else n)
        (newer ++ (marked_for key e ∷ older))
  unfolding delete_at ◌>>=◌
  delete_at-Gives =
      run_with-Gives (is_deleted (size older) f) _ (is_deleted-Gives f newer e older h valid)
        (λ g k. after_mark e.deleted g refl k)

mark_all-other :
    (cap : ℕ) (key : List ℕ) (e : Entry) (es : List Entry)
    → (slot cap e.key == slot cap key) ≡ false
    → mark_all key (e ∷ es) ≡ e ∷ mark_all key es
unfolding mark_all marked_for
mark_all-other cap key e es h = rw (live_entry-other cap key e h) refl

live_count-other :
    (cap : ℕ) (key : List ℕ) (e : Entry) (es : List Entry)
    → (slot cap e.key == slot cap key) ≡ false
    → live_count key (e ∷ es) ≡ live_count key es
unfolding live_count
live_count-other cap key e es h = rw (live_entry-other cap key e h) (omega arith)

module _ (cap : ℕ) (key : List ℕ) where
  next :
      (fuel n : ℕ) (newer : List Entry) (e : Entry) (es : List Entry)
      → e.prev_pos ≡ head_pos cap (slot cap key) es
      → (g : RealKeyFile)
      → Gives
          (delete_loop fuel key
            (if live_entry key e then n + 1 else n)
            (head_pos cap (slot cap key) es)
            g)
          ((if live_entry key e then n + 1 else n) + live_count key es)
          (newer ++ (marked_for key e ∷ mark_all key es))
      → Gives
          (delete_loop fuel key
            (if live_entry key e then n + 1 else n)
            (marked_for key e).prev_pos
            g)
          (n + live_count key (e ∷ es))
          (newer ++ mark_all key (e ∷ es))
  unfolding mark_all live_count marked_for
  next fuel n newer e es prev g r =
      let at : (marked_for key e).prev_pos ≡ head_pos cap (slot cap key) es =
        prev_pos-marked_for key e ∙ prev in
      let total : (if live_entry key e then n + 1 else n) + live_count key es
          ≡ n + live_count key (e ∷ es) =
        ground arith in
      rw (at, ← total) r

  delete_round :
      (fuel n : ℕ) (newer : List Entry) (e : Entry) (es : List Entry) (f : RealKeyFile)
      → HasLog f (newer ++ (e ∷ es))
      → IsLog (newer ++ (e ∷ es))
      → e.prev_pos ≡ head_pos cap (slot cap key) es
      → ((m : ℕ) (g : RealKeyFile)
          → HasLog g (newer ++ (marked_for key e ∷ es))
          → Gives
              (delete_loop fuel key m (head_pos cap (slot cap key) es) g)
              (m + live_count key es)
              (newer ++ (marked_for key e ∷ mark_all key es)))
      → Gives
          (delete_loop (suc fuel) key n (size es) f)
          (n + live_count key (e ∷ es))
          (newer ++ mark_all key (e ∷ es))
  unfolding delete_loop ◌>>=◌
  delete_round fuel n newer e es f h valid prev ih =
      rw (positive-size (newer ++ (e ∷ es)) newer e es refl valid, delete_loop)
        (run_with-Gives (delete_at key n (size es) f) _ (delete_at-Gives key n f newer e es h valid)
          λ g k.
            run_with-Gives (get_prev_pos (size es) g) _
              (get_prev_pos-Gives g newer (marked_for key e) es k
                (one_marked-IsLog key newer e es valid))
              λ g' k'.
                next fuel n newer e es prev g' (ih (if live_entry key e then n + 1 else n) g' k'))

  pub delete_loop-Gives :
      (fuel n : ℕ) (newer es : List Entry) (f : RealKeyFile)
      → HasLog f (newer ++ es)
      → IsLog (newer ++ es)
      → IsLinked cap es
      → length es < fuel
      → Gives
          (delete_loop fuel key n (head_pos cap (slot cap key) es) f)
          (n + live_count key es)
          (newer ++ mark_all key es)
  delete_loop-Gives zero n newer es f h valid l p = absurd (omega arith)
  delete_loop-Gives (suc fuel) n newer [] f h valid l p =
      unfold delete_loop head_pos return mark_all live_count in
      record { value = ap ok (omega arith); log = h }
  delete_loop-Gives (suc fuel) n newer (e ∷ es) f h valid l p =
      elim (Bool-cases (slot cap e.key == slot cap key)) [
        | inl same ↦
            subst
              (λ (q : ℕ).
                Gives (delete_loop (suc fuel) key n q f) (n + live_count key (e ∷ es))
                  (newer ++ mark_all key (e ∷ es)))
              (sym (head_pos-same cap key e es same))
              (delete_round fuel n newer e es f h valid (prev_pos-same cap key e es l.0 same)
                λ m g k. rw (← append_assoc newer (marked_for key e ∷ []) (mark_all key es)) (
                  delete_loop-Gives fuel m (newer ++ (marked_for key e ∷ [])) es g
                    (rw (append_assoc newer (marked_for key e ∷ []) es) k)
                    (rw (append_assoc newer (marked_for key e ∷ []) es)
                      (one_marked-IsLog key newer e es valid))
                    l.1 (omega arith)))
        | inr other ↦
            rw
              (
                head_pos-other cap key e es other,
                mark_all-other cap key e es other,
                live_count-other cap key e es other,
                ← append_assoc newer (e ∷ []) (mark_all key es),
              )
              (delete_loop-Gives (suc fuel) n (newer ++ (e ∷ [])) es f
                (rw (append_assoc newer (e ∷ []) es) h) (rw (append_assoc newer (e ∷ []) es) valid)
                l.1 (omega arith))
      ]
