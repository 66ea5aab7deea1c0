-- ===== src/Tests/Cache.antt =====
-- Runs of the local cache and its rate limiter (conreg-server/src/cache/local_cache.rs).
use conreg.Prelude.{true, false, some, [], ◌∷◌, ok, ◌≡◌, refl, arith, string_eq}
use conreg.Prelude.Int.{ℤ, as_i64}
use conreg.DashMap
use conreg.Values.{Value}
use conreg.Cache.Local.{
  CacheEntry, Codec, LocalCache, get_cache_entry, insert, get, on_disk, flush, evict,
}
use conreg.Cache.Disk.{get-evict}
use conreg.Cache.Ratelimit.{run, verdicts, ratelimit_window}

abbrev nothing : LocalCache
nothing = record { memory_cache = []; disk_db = []; pending = [] }

abbrev greeting : CacheEntry
greeting = record { k = "greeting"; v = Value.string "hello"; ct = 100; ttl = ℤ.pos 60 }

-- A codec for one entry.
abbrev codec : Codec
codec = record { to_vec = λ e. "{}"; from_slice = λ bytes. some greeting }

abbrev greeted : LocalCache
unfolding insert
greeted = insert 100 "greeting" (Value.string "hello") (some 60) nothing

found_greeting :
    (get_cache_entry codec 120 "greeting"
      (record nothing { memory_cache = ("greeting", greeting) ∷ [] })).0
    ≡ some greeting
unfolding get_cache_entry
found_greeting = refl

get-evict_example :
    (get codec 159 "greeting" (evict "greeting" (flush codec 0 greeted))).0
    ≡ some (Value.string "hello")
unfolding greeted as_i64
get-evict_example =
    get-evict codec 100 159 60 "greeting" (Value.string "hello") nothing refl refl (omega arith)
      (omega arith) (omega arith)

-- A limit of two calls in a window of 60 seconds: the third call is over it, the fourth is in the next.
ratelimit_window_example :
    run codec "login" (ℤ.pos 2) 60 (100 ∷ 101 ∷ 159 ∷ 160 ∷ 170 ∷ []) nothing
    ≡ ok false ∷ ok false ∷ ok true ∷ ok false ∷ ok false ∷ []
unfolding verdicts DashMap.get on_disk
ratelimit_window_example =
    ratelimit_window codec "login" (ℤ.pos 2) 60 100 (101 ∷ 159 ∷ []) 160 (170 ∷ []) nothing refl
      refl ((omega arith, omega arith, omega arith), ((omega arith, omega arith, omega arith), tt))
      (omega arith) (omega arith) (omega arith) ((omega arith, omega arith, omega arith), tt)
      (omega arith)
