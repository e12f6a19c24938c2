-- ===== src/Cache/Xlogs.antt =====
-- XLogCache of internal/core/cache/xlog_cache.go. Each operation holds the lock.
use scouter_server_go.Common.{
  ℕ, ℤ, pos, negsuc, ltb_int, eq_int, pred_int, zero, suc, ◌+◌, ◌-◌, ◌%◌, ◌==◌, Bool, true, false,
  not, leb, ltb, ◌&&◌, ◌||◌, if◌then◌else◌, Option, none, some, List, [], ◌∷◌, ◌++◌, get_elem?,
}
use scouter_server_go.Cache.Ring.{set_elem}

-- The entry of a place that was not written has nil for its bytes.
pub record XlogEntry : Type 0 where
  pub obj_hash : ℕ
  pub elapsed : ℤ
  pub is_error : Bool
  pub body : Option (List ℕ)

pub record XlogCache : Type 0 where
  pub entries : List XlogEntry
  pub size : ℕ
  pub index : ℕ
  pub loop : ℕ
  pub count : ℕ
  pub obj_index : List (ℕ × List ℕ)

abbrev pub no_entry : XlogEntry
no_entry = record { obj_hash = 0; elapsed = pos 0; is_error = false; body = none }

unfoldable pub no_entries : ℕ → List XlogEntry
no_entries zero = []
no_entries (suc n) = no_entry ∷ no_entries n

unfoldable pub new_xlog_cache : ℕ → XlogCache
unfolding no_entries
new_xlog_cache size = record {
  entries = no_entries size;
  size = size;
  index = 0;
  loop = 0;
  count = 0;
  obj_index = [];
}

-- `objIndex[objHash]`: a missing key gives an empty slice.
unfoldable pub places_of : ℕ → List (ℕ × List ℕ) → List ℕ
places_of h [] = []
places_of h ((k, ps) ∷ m) = if k == h then ps else places_of h m

unfoldable pub remove_places : ℕ → List (ℕ × List ℕ) → List (ℕ × List ℕ)
remove_places h [] = []
remove_places h ((k, ps) ∷ m) =
    let rest = remove_places h m in if k == h then rest else (k, ps) ∷ rest

unfoldable pub set_places : ℕ → List ℕ → List (ℕ × List ℕ) → List (ℕ × List ℕ)
unfolding remove_places
set_places h ps m = (h, ps) ∷ remove_places h m

-- The place `index` of an overwritten entry is taken out where it is the first of its object.
unfoldable pub unindex : ℕ → XlogEntry → List (ℕ × List ℕ) → List (ℕ × List ℕ)
unfolding places_of remove_places set_places
unindex index old m = elim old.body [
  | none ↦ m
  | some _ ↦ elim (places_of old.obj_hash m) [
    | [] ↦ m
    | p ∷ [] ↦ if p == index then remove_places old.obj_hash m else m
    | p ∷ q ∷ ps ↦ if p == index then set_places old.obj_hash (q ∷ ps) m else m
  ]
]

unfoldable pub index_entry : ℕ → XlogEntry → List (ℕ × List ℕ) → List (ℕ × List ℕ)
unfolding places_of set_places
index_entry index e m = set_places e.obj_hash (places_of e.obj_hash m ++ (index ∷ [])) m

unfoldable pub put_xlog : XlogEntry → XlogCache → XlogCache
unfolding set_elem unindex index_entry
put_xlog e c = record c {
  entries = set_elem c.index e c.entries;
  index = if leb c.size (c.index + 1) then 0 else c.index + 1;
  loop = if leb c.size (c.index + 1) then c.loop + 1 else c.loop;
  count = if ltb c.count c.size then c.count + 1 else c.count;
  obj_index = index_entry c.index e (elim (get_elem? c.entries c.index) [
    | none ↦ c.obj_index
    | some old ↦ unindex c.index old c.obj_index
  ]);
}

-- Neither of the two tests that `continue` applies.
unfoldable pub is_kept : ℤ → XlogEntry → Bool
is_kept min_elapsed e = elim e.body [
  | none ↦ false
  | some _ ↦ not (ltb_int e.elapsed min_elapsed && not e.is_error)
]

-- The loop from `i` over `n` places.
unfoldable pub copy_filtered : List XlogEntry → ℤ → (i n : ℕ) → List XlogEntry
unfolding is_kept
copy_filtered entries min_elapsed i zero = []
copy_filtered entries min_elapsed i (suc n) =
    let rest = copy_filtered entries min_elapsed (suc i) n in
    elim (get_elem? entries i) [
      | none ↦ rest
      | some e ↦ if is_kept min_elapsed e then e ∷ rest else rest
    ]

-- `endIndex` to the end, and the start to `endIndex`.
unfoldable pub copy_all : ℤ → XlogCache → List XlogEntry
unfolding copy_filtered
copy_all min_elapsed c =
    copy_filtered c.entries min_elapsed c.index (c.size - c.index)
    ++ copy_filtered c.entries min_elapsed 0 c.index

-- The switch on `endLoop - lastLoop`: the difference is 0 or 1 also where int64 wraps around exactly
-- for these two loops. A negative index in the same loop panics: `none`.
unfoldable pub scan : ℤ → ℤ → ℤ → XlogCache → Option (List XlogEntry)
unfolding copy_filtered copy_all
scan last_loop last_index min_elapsed c =
    if eq_int last_loop (pos c.loop)
    then elim last_index [
      | pos i ↦ some (copy_filtered c.entries min_elapsed i (c.index - i))
      | negsuc i ↦ none
    ]
    else if eq_int last_loop (pred_int c.loop)
    then elim last_index [
      | negsuc i ↦ some (copy_all min_elapsed c)
      | pos i ↦
          if leb i c.index
          then some (copy_all min_elapsed c)
          else some (
              copy_filtered c.entries min_elapsed i (c.size - i)
              ++ copy_filtered c.entries min_elapsed 0 c.index)
    ]
    else some (copy_all min_elapsed c)

unfoldable pub in_range : ℤ → ℤ → XlogCache → ℕ → Bool
in_range last_loop last_index c p =
    if eq_int last_loop (pos c.loop)
    then not (ltb_int (pos p) last_index) && ltb p c.index
    else if eq_int last_loop (pred_int c.loop)
    then not (ltb_int (pos c.index) last_index) || not (ltb_int (pos p) last_index) || ltb p c.index
    else true

-- The inner loop of `copyFromIndex`, over the places of an object.
unfoldable pub copy_places : ℤ → ℤ → ℤ → XlogCache → List ℕ → List XlogEntry
unfolding is_kept in_range
copy_places last_loop last_index min_elapsed c [] = []
copy_places last_loop last_index min_elapsed c (p ∷ ps) =
    let rest = copy_places last_loop last_index min_elapsed c ps in
    if in_range last_loop last_index c p
    then elim (get_elem? c.entries p) [
      | none ↦ rest
      | some e ↦ if is_kept min_elapsed e then e ∷ rest else rest
    ]
    else rest

-- `objHashSet` is the list of its keys in the order in which `range` gives them.
unfoldable pub copy_from_index : ℤ → ℤ → ℤ → XlogCache → List ℕ → List XlogEntry
unfolding copy_places places_of
copy_from_index last_loop last_index min_elapsed c [] = []
copy_from_index last_loop last_index min_elapsed c (h ∷ hs) =
    copy_places last_loop last_index min_elapsed c (places_of h c.obj_index)
    ++ copy_from_index last_loop last_index min_elapsed c hs

-- The entries, and the position for the next request. `none` is a panic.
unfoldable pub get_xlogs :
    (last_loop last_index min_elapsed : ℤ)
    → Option (List ℕ)
    → XlogCache
    → Option (List XlogEntry × ℕ × ℕ)
unfolding scan copy_from_index
get_xlogs last_loop last_index min_elapsed none c = elim (scan last_loop last_index min_elapsed c) [
  | none ↦ none
  | some r ↦ some (r, c.loop, c.index)
]
get_xlogs last_loop last_index min_elapsed (some hs) c =
    some (copy_from_index last_loop last_index min_elapsed c hs, c.loop, c.index)

-- `n` entries from the place `start + i` on, around the end of the cache.
unfoldable pub copy_around : XlogCache → (start i n : ℕ) → List XlogEntry
copy_around c start i zero = []
copy_around c start i (suc n) =
    let rest = copy_around c start (suc i) n in
    elim (get_elem? c.entries ((start + i) % c.size)) [ none ↦ rest | some e ↦ e ∷ rest ]

-- The callers pass a count that is not negative.
unfoldable pub get_recent : ℕ → XlogCache → List XlogEntry
unfolding copy_around
get_recent max_count c =
    let n = if ltb max_count c.count then max_count else c.count in
    copy_around c ((c.index + c.size - n) % c.size) 0 n

-- The loop of `GetRecentByObjHash`, which may append `room` entries more.
unfoldable pub copy_recent_of : ℕ → XlogCache → (start i n room : ℕ) → List XlogEntry
copy_recent_of h c start i zero room = []
copy_recent_of h c start i (suc n) zero = []
copy_recent_of h c start i (suc n) (suc room) =
    let taken = copy_recent_of h c start (suc i) n room in
    let passed = copy_recent_of h c start (suc i) n (suc room) in
    elim (get_elem? c.entries ((start + i) % c.size)) [
      | none ↦ passed
      | some e ↦ if e.obj_hash == h then e ∷ taken else passed
    ]

unfoldable pub get_recent_by_obj_hash : ℕ → ℕ → XlogCache → List XlogEntry
unfolding copy_recent_of
get_recent_by_obj_hash h max_count c =
    copy_recent_of h c ((c.index + c.size - c.count) % c.size) 0 c.count max_count

unfoldable pub xlog_count : XlogCache → ℕ
xlog_count c = c.count
