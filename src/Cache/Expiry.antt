-- ===== src/Cache/Expiry.antt =====
-- How long an entry is found (conreg-server/src/cache/local_cache.rs, lines 47 to 118 and 169 to 181).
use conreg.Prelude.{
  ℕ, ◌+◌, ◌-◌, ◌%◌, ◌≤◌, ◌<◌, String, true, false, none, some, string_eq, if◌then◌else◌, ◌≡◌, arith,
  ltb, leb,
}
use conreg.Prelude.Int.{ℤ, two_63, two_64, as_i64}
use conreg.DashMap
use conreg.DashMap.{get-insert_self, get-remove_self}
use conreg.Values.{Value}
use conreg.Cache.Local.{
  CacheEntry, Codec, LocalCache, is_expired, remove, insert, get_cache_entry, get, ttl,
}

-- The age of an entry that is not from the future is the plain difference.
pub age :
    (now ct : ℕ)
    → ct ≤ now
    → now < two_63
    → as_i64 ((now + two_64 - ct) % two_64) ≡ ℤ.pos (now - ct)
unfolding as_i64
age now ct h k = ground arith

-- An entry with a time to live is expired exactly from that many seconds after its creation on.
pub is_expired-pos :
    (now t : ℕ) (e : CacheEntry)
    → e.ttl ≡ ℤ.pos t
    → e.ct ≤ now
    → now < two_63
    → is_expired now e ≡ (if ltb now (e.ct + t) then false else true)
unfolding is_expired
is_expired-pos now t e h c k = ground (arith, age now e.ct c k)

-- Whatever a lookup finds, in memory or on the disk, is not expired.
pub get_cache_entry-fresh :
    (codec : Codec) (now : ℕ) (key : String) (s : LocalCache) (e : CacheEntry)
    → (get_cache_entry codec now key s).0 ≡ some e
    → is_expired now e ≡ false
unfolding get_cache_entry
get_cache_entry-fresh codec now key s e h = ground arith

-- What a lookup does with an entry that is in memory.
pub memory-hit :
    (codec : Codec) (now : ℕ) (key : String) (s : LocalCache) (e : CacheEntry)
    → DashMap.get key s.memory_cache ≡ some e
    → get_cache_entry codec now key s
      ≡ (if is_expired now e then (none, remove key s) else (some e, s))
unfolding get_cache_entry
memory-hit codec now key s e h = ground arith

pub as_i64-small : (t : ℕ) → t < two_63 → as_i64 t ≡ ℤ.pos t
unfolding as_i64
as_i64-small t h = ground arith

-- The entry that an insertion with a time to live makes.
abbrev pub entry : ℕ → String → Value → ℕ → CacheEntry
entry now key value t = record { k = key; v = value; ct = now; ttl = as_i64 t }

insert-memory :
    (now t : ℕ) (key : String) (value : Value) (s : LocalCache)
    → DashMap.get key (insert now key value (some t) s).memory_cache ≡ some (entry now key value t)
unfolding insert
insert-memory now t key value s = get-insert_self key (entry now key value t) s.memory_cache

pub remove-gone :
    (key : String) (s : LocalCache)
    → (DashMap.get key (remove key s).memory_cache ≡ none)
      × (DashMap.get key (remove key s).disk_db ≡ none)
unfolding remove
remove-gone key s = (get-remove_self key s.memory_cache, get-remove_self key s.disk_db)

module _ (codec : Codec) (now later t : ℕ) (key : String) (value : Value) (s : LocalCache) where
  -- An entry that was inserted with a time to live is found till then, with its value. From then on it
  -- is not found, and the lookup removes it from memory and from the disk.
  pub get-insert :
      now ≤ later
      → later < two_63
      → t < two_63
      → ((get codec later key (insert now key value (some t) s)).0
          ≡ (if ltb later (now + t) then some value else none))
        × (leb (now + t) later ≡ true
            → (DashMap.get key
                  (get codec later key (insert now key value (some t) s)).1.memory_cache
                ≡ none)
              × (DashMap.get key (get codec later key (insert now key value (some t) s)).1.disk_db
                  ≡ none))
  get-insert a b c =
      let e = entry now key value t in
      let s' = insert now key value (some t) s in
      let hit = memory-hit codec later key s' e (insert-memory now t key value s) in
      let late = is_expired-pos later t e (as_i64-small t c) a b in
      let gone = remove-gone key s' in
      (
        unfold get in ground (arith, hit, late),
        λ h. unfold get in ground (arith, hit, late, gone.0, gone.1),
      )

  -- While the entry lives, `ttl` answers the time to live that it was given, not what is left of it.
  pub ttl-insert :
      now ≤ later
      → later < now + t
      → later < two_63
      → t < two_63
      → (ttl codec later key (insert now key value (some t) s)).0 ≡ ℤ.pos t
  ttl-insert a h b c =
      let e = entry now key value t in
      let s' = insert now key value (some t) s in
      let hit = memory-hit codec later key s' e (insert-memory now t key value s) in
      let late = is_expired-pos later t e (as_i64-small t c) a b in
      unfold ttl in ground (arith, hit, late, as_i64-small t c)
