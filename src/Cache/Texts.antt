-- ===== src/Cache/Texts.antt =====
-- TextCache of internal/core/cache/text_cache.go. The list `evict` holds the entries, the most
-- recently used first; the map `items` holds for each key the element of the list that has it, so a
-- lookup in the map is a search of the list here. Each operation holds the lock.
use native.Mathlib.Decide.{ℕ_discrete}
use mathlib.Core.Logic.{ite}
use scouter_server_go.Common.{
  ℕ, zero, suc, ℤ, pos, negsuc, leb, if◌then◌else◌, Option, none, some, List, [], ◌∷◌, length,
}

-- textKey: the kind of the text and its hash.
abbrev pub TextKey : Type 0
TextKey = List ℕ × ℕ

unfoldable pub text_key_discrete : Discrete TextKey
text_key_discrete = hlevel ℕ_discrete

abbrev pub TextEntry : Type 0
TextEntry = TextKey × List ℕ

pub record TextCache : Type 0 where
  pub max_size : ℕ
  pub entries : List TextEntry

-- A size that is not positive means the default.
unfoldable pub new_text_cache : ℤ → TextCache
new_text_cache (pos zero) = record { max_size = 100000; entries = [] }
new_text_cache (pos (suc n)) = record { max_size = suc n; entries = [] }
new_text_cache (negsuc n) = record { max_size = 100000; entries = [] }

unfoldable pub find_text : TextKey → List TextEntry → Option (List ℕ)
find_text key [] = none
find_text key ((k, v) ∷ es) = ite (text_key_discrete k key) (some v) (find_text key es)

unfoldable pub remove_text : TextKey → List TextEntry → List TextEntry
remove_text key [] = []
remove_text key ((k, v) ∷ es) = ite (text_key_discrete k key) es ((k, v) ∷ remove_text key es)

unfoldable pub move_to_front : TextKey → List ℕ → List TextEntry → List TextEntry
unfolding remove_text
move_to_front key v es = (key, v) ∷ remove_text key es

unfoldable pub remove_back : List TextEntry → List TextEntry
remove_back [] = []
remove_back (e ∷ []) = []
remove_back (e ∷ f ∷ es) = e ∷ remove_back (f ∷ es)

-- The loop that evicts while the list is full: it takes an entry each time, so the length is fuel
-- enough.
unfoldable pub evict : (fuel max_size : ℕ) → List TextEntry → List TextEntry
unfolding remove_back
evict zero m es = es
evict (suc f) m es = let rest = evict f m (remove_back es) in if leb m (length es) then rest else es

unfoldable pub put_text : TextKey → List ℕ → TextCache → TextCache
unfolding find_text move_to_front evict
put_text key text c = elim (find_text key c.entries) [
  | some _ ↦ record c { entries = move_to_front key text c.entries }
  | none ↦ record c { entries = (key, text) ∷ evict (length c.entries) c.max_size c.entries }
]

unfoldable pub get_text : TextKey → TextCache → Option (List ℕ) × TextCache
unfolding find_text move_to_front
get_text key c = elim (find_text key c.entries) [
  | none ↦ (none, c)
  | some v ↦ (some v, record c { entries = move_to_front key v c.entries })
]

unfoldable pub text_count : TextCache → ℕ
text_count c = length c.entries
