-- ===== src/Cache/Ratelimit.antt =====
-- The rate limiter counts the calls of a window
-- (conreg-server/src/cache/local_cache.rs, lines 116 to 167 and 220 to 227).
use conreg.Prelude.{
  ℕ, ◌+◌, ◌≤◌, ◌<◌, String, Bool, true, false, none, some, List, [], ◌∷◌, ◌++◌, append-nil,
  string_eq, Anyhow, ok, ◌≡◌, refl, arith, All, length, ap, sym, ◌∙◌,
}
use conreg.Prelude.Int.{ℤ, two_63, add_i64-pos, lt_i64}
use conreg.DashMap
use conreg.DashMap.{get-insert_self}
use conreg.Values.{Value, Number, as_int}
use conreg.Cache.Local.{
  CacheEntry, Codec, LocalCache, is_expired, store, on_disk, get_cache_entry, exists, add_to,
  increment, expire, ratelimit, remove,
}
use conreg.Cache.Expiry.{is_expired-pos, memory-hit, remove-gone}

-- The entry of a limiter that has counted `n` calls since `start`.
abbrev pub counter : String → ℕ → ℕ → ℤ → CacheEntry
counter key n start window = record {
  k = key;
  v = Value.number (Number.int (ℤ.pos n));
  ct = start;
  ttl = window;
}

store-memory :
    (key : String) (e : CacheEntry) (s : LocalCache)
    → DashMap.get key (store key e s).memory_cache ≡ some e
unfolding store
store-memory key e s = get-insert_self key e s.memory_cache

as_int-pos : (n : ℕ) → n < two_63 → as_int (Value.number (Number.int (ℤ.pos n))) ≡ some (ℤ.pos n)
unfolding as_int
as_int-pos n h = ground arith

-- One more call counted, on an entry that holds a count.
add_to-counter :
    (key : String) (n start : ℕ) (window : ℤ) (s : LocalCache)
    → n + 1 < two_63
    → add_to key (ℤ.pos 1) (counter key n start window) s
      ≡ (ok (ℤ.pos (n + 1)), store key (counter key (n + 1) start window) s)
unfolding add_to
add_to-counter key n start window s h =
    ground (arith, as_int-pos n (omega arith), add_i64-pos n 1 h)

never-expired : (now : ℕ) (e : CacheEntry) → e.ttl ≡ ℤ.negsuc 0 → is_expired now e ≡ false
unfolding is_expired
never-expired now e h = ground arith

module _ (codec : Codec) (key : String) (limit : ℤ) (w : ℕ) where
  -- A call within the window of a counter.
  ratelimit-counted :
      (now n start : ℕ) (s : LocalCache)
      → DashMap.get key s.memory_cache ≡ some (counter key n start (ℤ.pos w))
      → start ≤ now
      → now < start + w
      → now < two_63
      → n + 1 < two_63
      → ratelimit codec now key limit (ℤ.pos w) s
        ≡ (ok (lt_i64 limit (ℤ.pos (n + 1))), store key (counter key (n + 1) start (ℤ.pos w)) s)
  ratelimit-counted now n start s h a b c d =
      let e = counter key n start (ℤ.pos w) in
      let found : get_cache_entry codec now key s ≡ (some e, s) =
        ground (arith, memory-hit codec now key s e h, is_expired-pos now w e refl a c) in
      let there : exists codec now key s ≡ (true, s) = unfold exists in ground (arith, found) in
      let count : increment codec now key (ℤ.pos 1) s
          ≡ (ok (ℤ.pos (n + 1)), store key (counter key (n + 1) start (ℤ.pos w)) s) =
        unfold increment in ground (arith, found, add_to-counter key n start (ℤ.pos w) s d) in
      unfold ratelimit in ground (arith, there, count)

  -- A call that finds no entry starts a counter, whether one has just expired (`s₀` is without it) or
  -- there was none.
  ratelimit-start :
      (now : ℕ) (s s₀ : LocalCache)
      → get_cache_entry codec now key s ≡ (none, s₀)
      → DashMap.get key s₀.memory_cache ≡ none
      → on_disk codec key s₀ ≡ none
      → (s' : LocalCache) × (ratelimit codec now key limit (ℤ.pos w) s
          ≡ (ok (lt_i64 limit (ℤ.pos 1)), s'))
        × (DashMap.get key s'.memory_cache ≡ some (counter key 1 now (ℤ.pos w)))
  ratelimit-start now s s₀ missed h d =
      let again : get_cache_entry codec now key s₀ ≡ (none, s₀) =
        unfold get_cache_entry in ground (arith, h, d) in
      let there : exists codec now key s ≡ (false, s₀) = unfold exists in ground (arith, missed) in
      let s₁ = store key (counter key 1 now (ℤ.negsuc 0)) s₀ in
      let count : increment codec now key (ℤ.pos 1) s₀ ≡ (ok (ℤ.pos 1), s₁) =
        unfold increment in
        ground (arith, again, add_to-counter key 0 now (ℤ.negsuc 0) s₀ (omega arith)) in
      let stored = store-memory key (counter key 1 now (ℤ.negsuc 0)) s₀ in
      let found : get_cache_entry codec now key s₁ ≡ (some (counter key 1 now (ℤ.negsuc 0)), s₁) =
        ground (
          arith,
          memory-hit codec now key s₁ (counter key 1 now (ℤ.negsuc 0)) stored,
          never-expired now (counter key 1 now (ℤ.negsuc 0)) refl,
        ) in
      let expired : expire codec now key (ℤ.pos w) s₁ ≡ store key (counter key 1 now (ℤ.pos w)) s₁ =
        unfold expire in ground (arith, found) in
      (
        store key (counter key 1 now (ℤ.pos w)) s₁,
        unfold ratelimit in ground (arith, there, count, expired),
        store-memory key (counter key 1 now (ℤ.pos w)) s₁,
      )

  -- The call after the end of a window.
  ratelimit-next :
      (now n start : ℕ) (s : LocalCache)
      → DashMap.get key s.memory_cache ≡ some (counter key n start (ℤ.pos w))
      → start + w ≤ now
      → now < two_63
      → (s' : LocalCache) × (ratelimit codec now key limit (ℤ.pos w) s
          ≡ (ok (lt_i64 limit (ℤ.pos 1)), s'))
        × (DashMap.get key s'.memory_cache ≡ some (counter key 1 now (ℤ.pos w)))
  ratelimit-next now n start s h a b =
      let e = counter key n start (ℤ.pos w) in
      let late = is_expired-pos now w e refl (omega arith) b in
      let gone = remove-gone key s in
      ratelimit-start now s (remove key s) (ground (arith, memory-hit codec now key s e h, late))
        gone.0 (unfold on_disk in ground (arith, gone.1))

  -- Calls at the given times, and what they answer.
  unfoldable pub run : List ℕ → LocalCache → List (Anyhow Bool)
  run [] s = []
  run (now ∷ later) s = let (r, s') = ratelimit codec now key limit (ℤ.pos w) s in r ∷ run later s'

  -- The answers of a limiter that counts on from `n`.
  unfoldable pub verdicts : ℕ → List ℕ → List (Anyhow Bool)
  verdicts n [] = []
  verdicts n (now ∷ later) = ok (lt_i64 limit (ℤ.pos (n + 1))) ∷ verdicts (n + 1) later

  abbrev pub InWindow : ℕ → ℕ → Type 0
  InWindow start now = (start ≤ now) × (now < start + w) × (now < two_63)

  -- Calls within a window, with more calls behind them.
  run-counted :
      (n start : ℕ) (times : List ℕ) (s : LocalCache)
      → DashMap.get key s.memory_cache ≡ some (counter key n start (ℤ.pos w))
      → All (InWindow start) times
      → n + length times < two_63
      → (s' : LocalCache) × (DashMap.get key s'.memory_cache
          ≡ some (counter key (n + length times) start (ℤ.pos w)))
        × ((rest : List ℕ) → run (times ++ rest) s ≡ verdicts n times ++ run rest s')
  unfolding run verdicts
  run-counted n start [] s h i b = (s, ground arith, λ rest. refl)
  run-counted n start (now ∷ later) s h i b =
      let t = store key (counter key (n + 1) start (ℤ.pos w)) s in
      let one = ratelimit-counted now n start s h i.0.0 i.0.1 i.0.2 (omega arith) in
      let (s', held, more) =
        run-counted (n + 1) start later t (store-memory key (counter key (n + 1) start (ℤ.pos w)) s)
          i.1 (omega arith) in
      (
        s',
        ground (arith, held),
        λ rest. rw one (ap (◌∷◌ (ok (lt_i64 limit (ℤ.pos (n + 1))))) (more rest)),
      )

  -- From an absent key, the calls of one window are counted from its first call on: the k-th call is
  -- over the limit exactly if k is greater than the limit. The first call after the end of the window
  -- starts the count again, for a window of its own.
  pub ratelimit_window :
      (start : ℕ) (later : List ℕ) (next : ℕ) (after : List ℕ) (s : LocalCache)
      → DashMap.get key s.memory_cache ≡ none
      → on_disk codec key s ≡ none
      → All (InWindow start) later
      → length later + 1 < two_63
      → start + w ≤ next
      → next < two_63
      → All (InWindow next) after
      → length after + 1 < two_63
      → run ((start ∷ later) ++ (next ∷ after)) s
        ≡ verdicts 0 (start ∷ later) ++ verdicts 0 (next ∷ after)
  unfolding run verdicts
  ratelimit_window start later next after s h d i b a k j c =
      let missed : get_cache_entry codec start key s ≡ (none, s) =
        unfold get_cache_entry in ground (arith, h, d) in
      let (s₁, first, held₁) = ratelimit-start start s s missed h d in
      let (s₂, held₂, more₂) = run-counted 1 start later s₁ held₁ i (omega arith) in
      let (s₃, second, held₃) = ratelimit-next next (1 + length later) start s₂ held₂ a k in
      let (s₄, held₄, more₄) = run-counted 1 next after s₃ held₃ j (omega arith) in
      rw first (
        ap (◌∷◌ (ok (lt_i64 limit (ℤ.pos 1)))) (
          more₂ (next ∷ after)
          ∙ ap (λ l. verdicts 1 later ++ l)
              (rw second (
                ap (◌∷◌ (ok (lt_i64 limit (ℤ.pos 1)))) (
                  ap (λ l. run l s₃) (append-nil after)
                  ∙ (more₄ [] ∙ sym (append-nil (verdicts 1 after))))))))
