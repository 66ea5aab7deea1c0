-- ===== src/Cache/Local.antt =====
-- `LocalCache` (conreg-server/src/cache/local_cache.rs): entries in memory, and on disk behind it.
-- `now` is `current_time()` in seconds. The disk holds an entry as the bytes that `Codec` makes of it;
-- reads and writes of the disk do not fail in this model. A write to the disk is a task of its own
-- (`tokio::spawn`): it waits in `pending` until `flush` runs it. `evict` is the memory cache that drops
-- an entry when it is full.
use conreg.Prelude.{
  ℕ, ◌+◌, ◌-◌, ◌%◌, String, Bool, false, Option, none, some, List, [], ◌∷◌, ◌++◌, string_eq,
  if◌then◌else◌, Anyhow, ok, err, is_some, get_elem?, remove_at,
}
use conreg.Prelude.Int.{ℤ, two_64, as_i64, add_i64, le_i64, lt_i64, is_minus_one}
use conreg.DashMap
use conreg.DashMap.{DashMap}
use conreg.Values.{Value, Number, as_int}

pub record CacheEntry : Type 0 where
  pub k : String
  pub v : Value
  pub ct : ℕ
  pub ttl : ℤ

-- serde_json on entries.
pub record Codec : Type 0 where
  pub to_vec : CacheEntry → String
  pub from_slice : String → Option CacheEntry

pub record LocalCache : Type 0 where
  pub memory_cache : DashMap String CacheEntry
  pub disk_db : DashMap String String
  pub pending : List (String × CacheEntry)

unfoldable pub is_expired : ℕ → CacheEntry → Bool
unfolding as_i64
is_expired now e =
    if is_minus_one e.ttl then false else le_i64 e.ttl (as_i64 ((now + two_64 - e.ct) % two_64))

-- an insertion into memory, and the task that writes the disk
unfoldable pub store : String → CacheEntry → LocalCache → LocalCache
unfolding DashMap.insert
store key e s = record s {
  memory_cache = DashMap.insert key e s.memory_cache;
  pending = s.pending ++ ((key, e) ∷ []);
}

unfoldable pub remove : String → LocalCache → LocalCache
unfolding DashMap.remove
remove key s = record s {
  memory_cache = DashMap.remove key s.memory_cache;
  disk_db = DashMap.remove key s.disk_db;
}

unfoldable pub insert : ℕ → String → Value → Option ℕ → LocalCache → LocalCache
unfolding store as_i64
insert now key value ttl = store key (record {
  k = key;
  v = value;
  ct = now;
  ttl = elim ttl [ none ↦ ℤ.negsuc 0 | some t ↦ as_i64 t ];
})

-- one spawned task, whichever runs first
unfoldable pub flush : Codec → ℕ → LocalCache → LocalCache
unfolding DashMap.insert
flush codec i s = elim (get_elem? s.pending i) [
  | none ↦ s
  | some (key, e) ↦ record s {
    disk_db = DashMap.insert key (codec.to_vec e) s.disk_db;
    pending = remove_at i s.pending;
  }
]

unfoldable pub evict : String → LocalCache → LocalCache
unfolding DashMap.remove
evict key s = record s { memory_cache = DashMap.remove key s.memory_cache }

-- What `increment` does with the entry that it found or made.
unfoldable pub add_to : String → ℤ → CacheEntry → LocalCache → Anyhow ℤ × LocalCache
unfolding store as_int add_i64
add_to key value e s = elim (as_int e.v) [
  | none ↦ (err "Value is not a valid integer", s)
  | some current ↦
      let new_value = add_i64 current value in
      (ok new_value, store key (record e { v = Value.number (Number.int new_value) }) s)
]

module _ (codec : Codec) where
  -- What the disk has for a key.
  unfoldable pub on_disk : String → LocalCache → Option CacheEntry
  unfolding DashMap.get
  on_disk key s = elim (DashMap.get key s.disk_db) [
    | none ↦ none
    | some bytes ↦ codec.from_slice bytes
  ]

  unfoldable pub get_cache_entry : ℕ → String → LocalCache → Option CacheEntry × LocalCache
  unfolding DashMap.get DashMap.insert DashMap.remove is_expired remove on_disk
  get_cache_entry now key s = elim (DashMap.get key s.memory_cache) [
    | some e ↦ if is_expired now e then (none, remove key s) else (some e, s)
    | none ↦ elim (on_disk key s) [
      | none ↦ (none, s)
      | some e ↦
          if is_expired now e
          then (none, record s { disk_db = DashMap.remove key s.disk_db })
          else (some e, record s { memory_cache = DashMap.insert key e s.memory_cache })
    ]
  ]

  unfoldable pub get : ℕ → String → LocalCache → Option Value × LocalCache
  unfolding get_cache_entry
  get now key s =
      let (found, s') = get_cache_entry now key s in
      (elim found [ none ↦ none | some e ↦ some e.v ], s')

  unfoldable pub ttl : ℕ → String → LocalCache → ℤ × LocalCache
  unfolding get_cache_entry
  ttl now key s =
      let (found, s') = get_cache_entry now key s in
      (elim found [ none ↦ ℤ.negsuc 1 | some e ↦ e.ttl ], s')

  unfoldable pub exists : ℕ → String → LocalCache → Bool × LocalCache
  unfolding get_cache_entry
  exists now key s = let (found, s') = get_cache_entry now key s in (is_some found, s')

  unfoldable pub increment : ℕ → String → ℤ → LocalCache → Anyhow ℤ × LocalCache
  unfolding get_cache_entry add_to
  increment now key value s =
      let (found, s') = get_cache_entry now key s in
      add_to key value
        (elim found [
          | some e ↦ e
          | none ↦ record {
            k = key;
            v = Value.number (Number.int (ℤ.pos 0));
            ct = now;
            ttl = ℤ.negsuc 0;
          }
        ])
        s'

  unfoldable pub expire : ℕ → String → ℤ → LocalCache → LocalCache
  unfolding get_cache_entry store
  expire now key ttl s =
      let (found, s') = get_cache_entry now key s in
      elim found [ none ↦ s' | some e ↦ store key (record e { ttl = ttl }) s' ]

  -- `Ok(true)` is over the limit.
  unfoldable pub ratelimit : ℕ → String → ℤ → ℤ → LocalCache → Anyhow Bool × LocalCache
  unfolding exists increment expire
  ratelimit now key limit time_window s =
      let (there, s₁) = exists now key s in
      let (count, s₂) = increment now key (ℤ.pos 1) s₁ in
      elim count [
        | err e ↦ (err e, s₂)
        | ok n ↦ (ok (lt_i64 limit n), if there then s₂ else expire now key time_window s₂)
      ]

  -- The loop of `load_from_disk`: what is left on the disk, and what is put into memory.
  unfoldable pub load_from_disk :
      ℕ → DashMap String String → DashMap String CacheEntry × DashMap String String
  unfolding is_expired
  load_from_disk now [] = ([], [])
  load_from_disk now ((key, bytes) ∷ rows) =
      let (memory, disk) = load_from_disk now rows in
      elim (codec.from_slice bytes) [
        | none ↦ (memory, (key, bytes) ∷ disk)
        | some e ↦
            if is_expired now e then (memory, disk) else ((key, e) ∷ memory, (key, bytes) ∷ disk)
      ]

  unfoldable pub new : ℕ → DashMap String String → LocalCache
  unfolding load_from_disk
  new now disk = record {
    memory_cache = (load_from_disk now disk).0;
    disk_db = (load_from_disk now disk).1;
    pending = [];
  }
