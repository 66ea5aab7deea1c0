-- ===== src/Cache/Disk.antt =====
-- Entries that are on the disk only, and writes to the disk that come late
-- (conreg-server/src/cache/local_cache.rs, lines 47 to 107).
use conreg.Prelude.{
  ℕ, ◌+◌, ◌≤◌, ◌<◌, String, none, some, [], string_eq, if◌then◌else◌, ◌≡◌, arith, ltb,
}
use conreg.Prelude.Int.{two_63}
use conreg.DashMap
use conreg.DashMap.{get-insert_self, get-remove_self}
use conreg.Values.{Value}
use conreg.Cache.Local.{
  CacheEntry, Codec, LocalCache, is_expired, remove, insert, flush, evict, get,
}
use conreg.Cache.Expiry.{is_expired-pos, as_i64-small, entry}

-- What a lookup does with an entry that only the disk holds.
disk-hit :
    (codec : Codec) (now : ℕ) (key bytes : String) (s : LocalCache) (e : CacheEntry)
    → DashMap.get key s.memory_cache ≡ none
    → DashMap.get key s.disk_db ≡ some bytes
    → codec.from_slice bytes ≡ some e
    → (get codec now key s).0 ≡ (if is_expired now e then none else some e.v)
unfolding get
disk-hit codec now key bytes s e m d c = ground arith

module _ (codec : Codec) (now later t : ℕ) (key : String) (value : Value) (s : LocalCache) where
  evicted-places :
      s.pending ≡ []
      → (DashMap.get key (evict key (flush codec 0 (insert now key value (some t) s))).memory_cache
          ≡ none)
        × (DashMap.get key (evict key (flush codec 0 (insert now key value (some t) s))).disk_db
            ≡ some (codec.to_vec (entry now key value t)))
  unfolding evict flush insert
  evicted-places p =
      let e = entry now key value t in
      let m = get-remove_self key (DashMap.insert key e s.memory_cache) in
      let d = get-insert_self key (codec.to_vec e) s.disk_db in
      (ground (arith, m), ground (arith, d))

  removed-places :
      s.pending ≡ []
      → (DashMap.get key (flush codec 0 (remove key (insert now key value (some t) s))).memory_cache
          ≡ none)
        × (DashMap.get key (flush codec 0 (remove key (insert now key value (some t) s))).disk_db
            ≡ some (codec.to_vec (entry now key value t)))
  unfolding remove flush insert
  removed-places p =
      let e = entry now key value t in
      let m = get-remove_self key (DashMap.insert key e s.memory_cache) in
      let d = get-insert_self key (codec.to_vec e) (DashMap.remove key s.disk_db) in
      (ground (arith, m), ground (arith, d))

  -- Where no earlier write to the disk is pending and the serialised entry is read back: an entry whose write
  -- to the disk has run is found till its time to live is over, with its value, although the memory cache has
  -- dropped it. The times are below 2 ^ 63, and the clock does not go back.
  pub get-evict :
      s.pending ≡ []
      → codec.from_slice (codec.to_vec (entry now key value t)) ≡ some (entry now key value t)
      → now ≤ later
      → later < two_63
      → t < two_63
      → (get codec later key (evict key (flush codec 0 (insert now key value (some t) s)))).0
        ≡ (if ltb later (now + t) then some value else none)
  get-evict p c a b d =
      let e = entry now key value t in
      let place = evicted-places p in
      let late = is_expired-pos later t e (as_i64-small t d) a b in
      ground (
        arith,
        late,
        disk-hit codec later key (codec.to_vec e)
            (evict key (flush codec 0 (insert now key value (some t) s))) e place.0 place.1 c,
      )

  -- A removal is undone by the write of the removed entry, if that has not run yet: until the time to
  -- live is over, the key is found again with the removed value.
  pub get-remove_undone :
      s.pending ≡ []
      → codec.from_slice (codec.to_vec (entry now key value t)) ≡ some (entry now key value t)
      → now ≤ later
      → later < now + t
      → later < two_63
      → t < two_63
      → (get codec later key (flush codec 0 (remove key (insert now key value (some t) s)))).0
        ≡ some value
  get-remove_undone p c a h b d =
      let e = entry now key value t in
      let place = removed-places p in
      let late = is_expired-pos later t e (as_i64-small t d) a b in
      ground (
        arith,
        late,
        disk-hit codec later key (codec.to_vec e)
            (flush codec 0 (remove key (insert now key value (some t) s))) e place.0 place.1 c,
      )
