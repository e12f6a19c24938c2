-- ===== src/Cache/TextRecency.antt =====
-- TextCache of internal/core/cache/text_cache.go keeps the most recently used texts.
use mathlib.Core.Path.{subst}
use mathlib.Core.Logic.{ite}
use scouter_server_go.Common.{
  ℕ, zero, suc, ◌-◌, ◌≤◌, ◌<◌, ◌≡◌, ◌≢◌, refl, ap, sym, ◌∙◌, inl, inr, none, some, Option-cases,
  List, [], ◌∷◌, length, take, All, arith, lt_or_le,
}
use scouter_server_go.Cache.Ring.{take_all}
use scouter_server_go.Cache.Texts.{
  TextKey, text_key_discrete, TextEntry, TextCache, find_text, remove_text, move_to_front,
  remove_back, evict, put_text, get_text,
}

abbrev pub HasNo : TextKey → List TextEntry → Type 0
HasNo key es = All (λ (e : TextEntry). e.0 ≢ key) es

abbrev pub IsDistinct : List TextEntry → Type 0
IsDistinct [] = Unit
IsDistinct (e ∷ es) = HasNo e.0 es × IsDistinct es

pub record IsTextCache (c : TextCache) : Type 0 where
  pub room : 0 < c.max_size
  pub bounded : length c.entries ≤ c.max_size
  pub distinct : IsDistinct c.entries

HasNo-remove_text :
    (j key : TextKey) (es : List TextEntry) → HasNo j es → HasNo j (remove_text key es)
unfolding remove_text
HasNo-remove_text j key [] h = tt
HasNo-remove_text j key ((k, v) ∷ es) h =
    go (text_key_discrete k key) (HasNo-remove_text j key es h.1)
  where
    go :
        (d : Dec (k ≡ key))
        → HasNo j (remove_text key es)
        → HasNo j (ite d es ((k, v) ∷ remove_text key es))
    go (yes e) rest = h.1
    go (no n) rest = (h.0, rest)

IsDistinct-remove_text :
    (key : TextKey) (es : List TextEntry) → IsDistinct es → IsDistinct (remove_text key es)
unfolding remove_text
IsDistinct-remove_text key [] h = tt
IsDistinct-remove_text key ((k, v) ∷ es) h =
    go (text_key_discrete k key) (IsDistinct-remove_text key es h.1)
  where
    go :
        (d : Dec (k ≡ key))
        → IsDistinct (remove_text key es)
        → IsDistinct (ite d es ((k, v) ∷ remove_text key es))
    go (yes e) rest = h.1
    go (no n) rest = (HasNo-remove_text k key es h.0, rest)

-- With distinct keys the key is gone.
HasNo-removed :
    (key : TextKey) (es : List TextEntry) → IsDistinct es → HasNo key (remove_text key es)
unfolding remove_text
HasNo-removed key [] h = tt
HasNo-removed key ((k, v) ∷ es) h = go (text_key_discrete k key) (HasNo-removed key es h.1)
  where
    go :
        (d : Dec (k ≡ key))
        → HasNo key (remove_text key es)
        → HasNo key (ite d es ((k, v) ∷ remove_text key es))
    go (yes e) rest = subst (λ j. HasNo j es) e h.0
    go (no n) rest = (n, rest)

HasNo-take : (key : TextKey) (n : ℕ) (es : List TextEntry) → HasNo key es → HasNo key (take n es)
HasNo-take key zero es h = tt
HasNo-take key (suc n) [] h = tt
HasNo-take key (suc n) (e ∷ es) h = (h.0, HasNo-take key n es h.1)

IsDistinct-take : (n : ℕ) (es : List TextEntry) → IsDistinct es → IsDistinct (take n es)
IsDistinct-take zero es h = tt
IsDistinct-take (suc n) [] h = tt
IsDistinct-take (suc n) (e ∷ es) h = (HasNo-take e.0 n es h.0, IsDistinct-take n es h.1)

IsDistinct-move_to_front :
    (key : TextKey) (v : List ℕ) (es : List TextEntry)
    → IsDistinct es
    → IsDistinct (move_to_front key v es)
unfolding move_to_front
IsDistinct-move_to_front key v es h = (HasNo-removed key es h, IsDistinct-remove_text key es h)

length-take_le : (n : ℕ) (es : List TextEntry) → length (take n es) ≤ n
length-take_le zero es = omega arith
length-take_le (suc n) [] = omega arith
length-take_le (suc n) (e ∷ es) = omega (arith, length-take_le n es)

take-cons :
    (n : ℕ) (e : TextEntry) (es : List TextEntry) → 0 < n → take n (e ∷ es) ≡ e ∷ take (n - 1) es
take-cons zero e es h = absurd (omega arith)
take-cons (suc n) e es h = let same : suc n - 1 ≡ n = omega arith in rw same refl

remove_text-absent :
    (key : TextKey) (es : List TextEntry) → find_text key es ≡ none → remove_text key es ≡ es
unfolding find_text remove_text
remove_text-absent key [] h = refl
remove_text-absent key ((k, v) ∷ es) h = ground (arith, remove_text-absent key es)

length-remove_text :
    (key : TextKey) (v : List ℕ) (es : List TextEntry)
    → find_text key es ≡ some v
    → suc (length (remove_text key es)) ≡ length es
unfolding find_text remove_text
length-remove_text key v [] h = cc
length-remove_text key v ((k, w) ∷ es) h = ground (arith, length-remove_text key v es)

length-remove_back : (es : List TextEntry) → length (remove_back es) ≡ length es - 1
unfolding remove_back
length-remove_back [] = omega arith
length-remove_back (e ∷ []) = omega arith
length-remove_back (e ∷ f ∷ es) = omega (arith, length-remove_back (f ∷ es))

take-remove_back :
    (n : ℕ) (es : List TextEntry) → n < length es → take n (remove_back es) ≡ take n es
unfolding remove_back
take-remove_back n [] h = absurd (omega arith)
take-remove_back zero es h = refl
take-remove_back (suc n) (e ∷ []) h = absurd (omega arith)
take-remove_back (suc n) (e ∷ f ∷ es) h = ap (◌∷◌ e) (take-remove_back n (f ∷ es) (omega arith))

-- What the loop leaves.
evict_lem : (f m : ℕ) (es : List TextEntry) → length es ≤ f → 0 < m → evict f m es ≡ take (m - 1) es
unfolding evict
evict_lem zero m es h p = sym (take_all (m - 1) es (omega arith))
evict_lem (suc f) m es h p = elim (lt_or_le (length es) m) [
  | inl l ↦ let all = take_all (m - 1) es (omega arith) in rw all (ground arith)
  | inr g ↦
      let rest = evict_lem f m (remove_back es) (omega (arith, length-remove_back es)) p in
      let same = take-remove_back (m - 1) es (omega arith) in ground (arith, rest, same)
]

-- Put is to put the entry before all others, without an older one of its key, and to keep as many
-- as the cache may hold: the entries that were used least recently go.
pub put_text-take :
    (key : TextKey) (text : List ℕ) (c : TextCache)
    → IsTextCache c
    → (put_text key text c).entries ≡ take c.max_size ((key, text) ∷ remove_text key c.entries)
unfolding put_text move_to_front
put_text-take key text c v = elim (Option-cases (find_text key c.entries)) [
  | inr (w, e) ↦
      rw (e, put_text)
        (sym (
          take_all c.max_size ((key, text) ∷ remove_text key c.entries)
            (omega (arith, v.bounded, length-remove_text key w c.entries e))))
  | inl e ↦
      rw (e, put_text)
        (ap (◌∷◌ (key, text)) (
            evict_lem (length c.entries) c.max_size c.entries (omega arith) v.room
            ∙ ap (take (c.max_size - 1)) (sym (remove_text-absent key c.entries e)))
          ∙ sym (take-cons c.max_size (key, text) (remove_text key c.entries) v.room))
]

max_size-put_text :
    (key : TextKey) (text : List ℕ) (c : TextCache) → (put_text key text c).max_size ≡ c.max_size
unfolding put_text
max_size-put_text key text c = elim (Option-cases (find_text key c.entries)) [
  | inr (w, e) ↦ rw (e, put_text) refl
  | inl e ↦ rw (e, put_text) refl
]

get_text-IsTextCache :
    (key : TextKey) (c : TextCache) → IsTextCache c → IsTextCache (get_text key c).1
unfolding get_text move_to_front
get_text-IsTextCache key c v = elim (Option-cases (find_text key c.entries)) [
  | inr (w, e) ↦
      rw (e, get_text)
        (record {
          room = v.room;
          bounded = omega (arith, v.bounded, length-remove_text key w c.entries e);
          distinct = IsDistinct-move_to_front key w c.entries v.distinct;
        })
  | inl e ↦ rw (e, get_text) v
]

-- Put and Get keep the keys distinct and the number of entries within the limit.
pub put_text-IsTextCache :
    (key : TextKey) (text : List ℕ) (c : TextCache)
    → IsTextCache c
    → IsTextCache (put_text key text c) × IsTextCache (get_text key c).1
put_text-IsTextCache key text c v = (
  record {
    room = rw (max_size-put_text key text c) v.room;
    bounded =
        rw (max_size-put_text key text c, put_text-take key text c v)
          (length-take_le c.max_size ((key, text) ∷ remove_text key c.entries));
    distinct = rw (put_text-take key text c v) (
        IsDistinct-take c.max_size ((key, text) ∷ remove_text key c.entries) (
          HasNo-removed key c.entries v.distinct,
          IsDistinct-remove_text key c.entries v.distinct,
        ));
  },
  get_text-IsTextCache key c v,
)
