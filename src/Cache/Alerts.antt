-- ===== src/Cache/Alerts.antt =====
-- AlertCache of internal/core/cache/alert_cache.go. Each operation holds the lock.
use scouter_server_go.Common.{
  ℕ, ℤ, pos, negsuc, ltb_int, eq_int, pred_int, zero, suc, ◌+◌, ◌-◌, leb, ◌&&◌, if◌then◌else◌,
  Option, none, some, List, [], ◌∷◌, ◌++◌, get_elem?,
}
use scouter_server_go.Cache.Ring.{set_elem}

-- A cell that was not written is nil.
pub record AlertCache : Type 0 where
  pub buf : List (Option (List ℕ))
  pub size : ℕ
  pub loop : ℕ
  pub index : ℕ

unfoldable pub nil_cells : ℕ → List (Option (List ℕ))
nil_cells zero = []
nil_cells (suc n) = none ∷ nil_cells n

unfoldable pub new_alert_cache : ℕ → AlertCache
unfolding nil_cells
new_alert_cache size = record { buf = nil_cells size; size = size; loop = 0; index = 0 }

unfoldable pub add_alert : Option (List ℕ) → AlertCache → AlertCache
unfolding set_elem
add_alert alert c = record c {
  buf = set_elem c.index alert c.buf;
  index = if leb c.size (c.index + 1) then 0 else c.index + 1;
  loop = if leb c.size (c.index + 1) then c.loop + 1 else c.loop;
}

-- The loop from `i` over `n` cells that appends those that are not nil.
unfoldable pub collect : List (Option (List ℕ)) → (i n : ℕ) → List (List ℕ)
collect buf i zero = []
collect buf i (suc n) =
    let rest = collect buf (suc i) n in
    elim (get_elem? buf i) [ some (some b) ↦ b ∷ rest | _ ↦ rest ]

-- `for i := clientIndex; i < end; i++`: a negative index is below the end and panics.
unfoldable pub collect_from : List (Option (List ℕ)) → ℤ → ℕ → Option (List (List ℕ))
unfolding collect
collect_from buf (pos i) end = some (collect buf i (end - i))
collect_from buf (negsuc i) end = none

-- The position of the cache comes with the alerts. `none` is a panic.
unfoldable pub get_since : ℤ → ℤ → AlertCache → Option (List (List ℕ) × ℕ × ℕ)
unfolding collect_from collect
get_since client_loop client_index c =
    if ltb_int client_loop (pred_int c.loop)
    then some ([], c.loop, c.index)
    else if eq_int client_loop (pos c.loop) && eq_int client_index (pos c.index)
    then some ([], c.loop, c.index)
    else if eq_int client_loop (pos c.loop)
    then elim (collect_from c.buf client_index c.index) [
      | none ↦ none
      | some r ↦ some (r, c.loop, c.index)
    ]
    else if eq_int client_loop (pred_int c.loop) && ltb_int (pos c.index) client_index
    then elim (collect_from c.buf client_index c.size) [
      | none ↦ none
      | some r ↦ some (r ++ collect c.buf 0 c.index, c.loop, c.index)
    ]
    else some ([], c.loop, c.index)

unfoldable pub position : AlertCache → ℕ × ℕ
position c = (c.loop, c.index)
