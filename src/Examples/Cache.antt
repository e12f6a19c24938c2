-- ===== src/Examples/Cache.antt =====
-- The theorems on internal/core/cache at concrete caches.
use scouter_server_go.Common.{pos, ◌≡◌, refl, ap, false, [], ◌∷◌, arith, some, none}
use native.Mathlib.Decide.{ℕ_discrete}
use scouter_server_go.Cache.Texts.{
  TextKey, TextCache, text_key_discrete, remove_text, put_text, get_text,
}
use scouter_server_go.Cache.TextRecency.{IsTextCache, put_text-take, put_text-IsTextCache}
use scouter_server_go.Cache.Xlogs.{
  new_xlog_cache, XlogEntry, XlogCache, no_entry, put_xlog, get_xlogs, is_kept,
}
use scouter_server_go.Cache.XlogIndex.{IsIndexed}
use scouter_server_go.Cache.XlogReachable.{put_xlogs-IsIndexed}
use scouter_server_go.Cache.XlogObjects.{of_object}
use scouter_server_go.Cache.XlogRequests.{per_object, get_xlogs-put_xlogs_of}
use scouter_server_go.Cache.Alerts.{AlertCache, add_alert, get_since}
use scouter_server_go.Cache.AlertDelivery.{IsAlertCache, add_alerts, get_since-add_alerts}
use scouter_server_go.Cache.XlogDelivery.{IsXlogCache, put_xlogs, kept, get_xlogs-put_xlogs}

-- A cache of three cells in its second round.
abbrev alerts : AlertCache
alerts = record {
  buf = some (9 ∷ []) ∷ some (7 ∷ []) ∷ some (8 ∷ []) ∷ [];
  size = 3;
  loop = 1;
  index = 1;
}

alerts-IsAlertCache : IsAlertCache alerts
alerts-IsAlertCache = record { cells = refl; inside = omega arith }

get_since-add_alerts_example :
    get_since (pos 1) (pos 1) (add_alerts ((4 ∷ []) ∷ (5 ∷ []) ∷ []) alerts)
    ≡ some ((4 ∷ []) ∷ (5 ∷ []) ∷ [], 2, 0)
unfolding add_alerts add_alert
get_since-add_alerts_example =
    get_since-add_alerts ((4 ∷ []) ∷ (5 ∷ []) ∷ []) alerts alerts-IsAlertCache

abbrev slow : XlogEntry
slow = record { obj_hash = 1; elapsed = pos 900; is_error = false; body = some (1 ∷ []) }

abbrev quick : XlogEntry
quick = record { obj_hash = 2; elapsed = pos 10; is_error = false; body = some (2 ∷ []) }

abbrev xlogs : XlogCache
xlogs = record {
  entries = no_entry ∷ no_entry ∷ [];
  size = 2;
  index = 0;
  loop = 0;
  count = 0;
  obj_index = [];
}

xlogs-IsXlogCache : IsXlogCache xlogs
xlogs-IsXlogCache = record { cells = refl; inside = omega arith }

-- Of three entries the first is overwritten, and the quick one does not pass.
get_xlogs-put_xlogs_example :
    get_xlogs (pos 0) (pos 0) (pos 100) none (put_xlogs (slow ∷ quick ∷ slow ∷ []) xlogs)
    ≡ some (slow ∷ [], 1, 1)
unfolding put_xlogs put_xlog kept is_kept
get_xlogs-put_xlogs_example =
    get_xlogs-put_xlogs (pos 100) (slow ∷ quick ∷ slow ∷ []) xlogs xlogs-IsXlogCache

-- A cache of two texts that is full.
abbrev texts : TextCache
texts = record { max_size = 2; entries = ((1 ∷ [], 5), 10 ∷ []) ∷ ((1 ∷ [], 6), 11 ∷ []) ∷ [] }

texts-IsTextCache : IsTextCache texts
texts-IsTextCache = record {
  room = omega arith;
  bounded = omega arith;
  distinct = ((λ e. omega (arith, ap (λ (k : TextKey). k.1) e), tt), (tt, tt));
}

put_text-take_example :
    (put_text (1 ∷ [], 7) (12 ∷ []) texts).entries
    ≡ ((1 ∷ [], 7), 12 ∷ []) ∷ ((1 ∷ [], 5), 10 ∷ []) ∷ []
unfolding remove_text text_key_discrete ℕ_discrete
put_text-take_example = put_text-take (1 ∷ [], 7) (12 ∷ []) texts texts-IsTextCache

put_text-IsTextCache_example :
    IsTextCache (put_text (1 ∷ [], 7) (12 ∷ []) texts) × IsTextCache (get_text (1 ∷ [], 7) texts).1
put_text-IsTextCache_example = put_text-IsTextCache (1 ∷ [], 7) (12 ∷ []) texts texts-IsTextCache

put_xlogs-IsIndexed_example :
    IsXlogCache (put_xlogs (slow ∷ quick ∷ slow ∷ []) (new_xlog_cache 2))
    × IsIndexed (put_xlogs (slow ∷ quick ∷ slow ∷ []) (new_xlog_cache 2))
put_xlogs-IsIndexed_example =
    put_xlogs-IsIndexed 2 (slow ∷ quick ∷ slow ∷ []) (omega arith)
      ((1 ∷ [], refl), ((2 ∷ [], refl), ((1 ∷ [], refl), tt)))

-- A cache of two places that has one entry.
abbrev started : XlogCache
started = put_xlogs (slow ∷ []) (new_xlog_cache 2)

started-IsIndexed : IsXlogCache started × IsIndexed started
started-IsIndexed = put_xlogs-IsIndexed 2 (slow ∷ []) (omega arith) ((1 ∷ [], refl), tt)

get_xlogs-put_xlogs_of_example :
    get_xlogs (pos 0) (pos 1) (pos 100) (some (1 ∷ 2 ∷ [])) (put_xlogs (quick ∷ slow ∷ []) started)
    ≡ some (slow ∷ [], 1, 1)
unfolding put_xlogs put_xlog new_xlog_cache kept is_kept per_object of_object
get_xlogs-put_xlogs_of_example =
    get_xlogs-put_xlogs_of (pos 100) (1 ∷ 2 ∷ []) (quick ∷ slow ∷ []) started started-IsIndexed.0
      started-IsIndexed.1 ((2 ∷ [], refl), ((1 ∷ [], refl), tt))
