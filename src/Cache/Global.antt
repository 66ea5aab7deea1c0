-- ===== src/Cache/Global.antt =====
-- The node's one cache, which is set once, and what the other parts call it by
-- (conreg-server/src/cache/mod.rs). serde_json, which may refuse a value, is a `Serde`; the state is the cell
-- `CACHE`.
use conreg.Prelude.{ℕ, String, Bool, Option, none, some, Anyhow, ok, err, string_eq}
use conreg.Prelude.Int.{ℤ}
use conreg.App.{App, sync}
use conreg.Cache.Local
use conreg.Cache.Local.{Codec, LocalCache}
use conreg.DashMap.{DashMap}
use conreg.Exec.{Exec}
use conreg.Raft.{RaftRequest}
use conreg.Raft.Write.{Cluster}
use conreg.Values.{Value}

pub record Serde (T : Type 0) : Type 0 where
  pub to_value : T → Anyhow Value
  pub from_value : Value → Anyhow T

abbrev pub Cell : Type 0
Cell = Option LocalCache

-- The `if let` of every operation.
abbrev with_cache : {A : Type 0} → (LocalCache → Anyhow A × LocalCache) → Exec Cell A
with_cache f none = (err "Cache not initialized", none)
with_cache f (some cache) = let (res, cache') = f cache in (res, some cache')

abbrev fine : {A : Type 0} → A × LocalCache → Anyhow A × LocalCache
fine (a, cache) = (ok a, cache)

-- `set_and_sync`
unfoldable pub set_and_sync :
    {T : Type 0} → Serde T → Cluster → String → T → Option ℕ → Exec App (Unit {0})
unfolding sync
set_and_sync serde c key value ttl s = elim (serde.to_value value) [
  | err e ↦ (err e, s)
  | ok v ↦ sync c "Failed to set cache: " (RaftRequest.cache_write key v ttl) s
]

module _ (codec : Codec) (now : ℕ) where
  -- `opened` is what sled makes of the folder: its rows, or an error.
  unfoldable pub init : Anyhow (DashMap String String) → Exec Cell (Unit {0})
  unfolding Local.new
  init (err e) cell = (err e, cell)
  init (ok rows) none = (ok tt, some (Local.new codec now rows))
  init (ok rows) (some cache) = (err "local cache init error", some cache)

  unfoldable pub set : {T : Type 0} → Serde T → String → T → Option ℕ → Exec Cell (Unit {0})
  unfolding Local.insert
  set serde key value ttl cell = elim (serde.to_value value) [
    | err e ↦ (err e, cell)
    | ok v ↦ with_cache (λ cache. (ok tt, Local.insert now key v ttl cache)) cell
  ]

  abbrev decoded : {T : Type 0} → Serde T → Option Value → Anyhow (Option T)
  decoded serde none = ok none
  decoded serde (some v) = elim (serde.from_value v) [ err e ↦ err e | ok x ↦ ok (some x) ]

  unfoldable pub get : {T : Type 0} → Serde T → String → Exec Cell (Option T)
  unfolding Local.get
  get serde key =
      with_cache λ cache.
        let (found, cache') = Local.get codec now key cache in (decoded serde found, cache')

  unfoldable pub remove : String → Exec Cell (Unit {0})
  unfolding Local.remove
  remove key = with_cache λ cache. (ok tt, Local.remove key cache)

  unfoldable pub ttl : String → Exec Cell ℤ
  unfolding Local.ttl
  ttl key = with_cache λ cache. fine (Local.ttl codec now key cache)

  unfoldable pub increment : String → ℤ → Exec Cell ℤ
  unfolding Local.increment
  increment key value = with_cache (Local.increment codec now key value)

  unfoldable pub ratelimit : String → ℤ → ℤ → Exec Cell Bool
  unfolding Local.ratelimit
  ratelimit key limit time_window = with_cache (Local.ratelimit codec now key limit time_window)

  -- A node's lock is taken at once, whoever holds it.
  unfoldable pub lock : String → ℕ → Exec Cell (Unit {0})
  lock key ttl = with_cache λ cache. (ok tt, cache)

  unfoldable pub unlock : String → Exec Cell (Unit {0})
  unlock key = with_cache λ cache. (ok tt, cache)
