-- ===== src/Client/Cache.antt =====
-- The client's cache of instances (conreg-client/src/discovery.rs).
use conreg.Prelude.{
  String, Option, none, some, List, [], ◌∷◌, ◌≡◌, refl, arith, ◌==◌, string_eq, if◌then◌else◌,
  Option-cases, inl, inr, eq_iff, is_some, contains,
}
use conreg.Client.Discovery.{
  Fetch, Services, fetch_instances, get_instances, fetch_tick, refresh, renew, keys,
}
use conreg.Client.Network.{Run}
use conreg.DashMap
use conreg.DashMap.{DashMap, get-insert}
use conreg.LoadBalance.Instance.{Instance}

-- What a fetch makes of an entry.
unfoldable pub fetched : Run (List Instance) → Option (List Instance) → Option (List Instance)
fetched (Run.returned instances) old = some instances
fetched (Run.failed e) old = old
fetched Run.panicked old = old

contains-keys : (k : String) (m : Services) → contains (keys m) k ≡ is_some (DashMap.get k m)
unfolding keys DashMap.get
contains-keys k [] = refl
contains-keys k ((j, v) ∷ m) = ground (arith, contains-keys k m)

fetched_twice :
    (r : Run (List Instance)) (old : Option (List Instance))
    → fetched r (fetched r old) ≡ fetched r old
unfolding fetched
fetched_twice (Run.returned instances) old = refl
fetched_twice (Run.failed e) old = refl
fetched_twice Run.panicked old = refl

get-renew :
    (r : Run (List Instance)) (id k : String) (services : Services)
    → DashMap.get k (renew r id services)
      ≡ (if id == k then fetched r (DashMap.get k services) else DashMap.get k services)
unfolding renew fetched
get-renew (Run.returned instances) id k services = get-insert id k instances services
get-renew (Run.failed e) id k services = ground arith
get-renew Run.panicked id k services = ground arith

get-refresh :
    (fetch : Fetch) (k : String) (ids : List String) (services : Services)
    → DashMap.get k (refresh fetch ids services) ≡ (
        if contains ids k
        then fetched (fetch k) (DashMap.get k services)
        else DashMap.get k services)
unfolding refresh
get-refresh fetch k [] services = refl
get-refresh fetch k (id ∷ ids) services =
    let s' = renew (fetch id) id services in
    ground (
      arith,
      get-refresh fetch k ids s',
      get-renew (fetch id) id k services,
      eq_iff id k,
      fetched_twice (fetch k) (DashMap.get k services),
    )

-- A tick of the synchronisation replaces the instances of each service that the cache knows by the
-- fetched ones where the fetch succeeds, keeps the old ones where it fails, and adds no service.
pub get-fetch_tick :
    (fetch : Fetch) (k : String) (services : Services)
    → DashMap.get k (fetch_tick fetch services)
      ≡ elim (DashMap.get k services) [ none ↦ none | some old ↦ fetched (fetch k) (some old) ]
unfolding fetch_tick
get-fetch_tick fetch k services = elim (Option-cases (DashMap.get k services)) [
  | inl e ↦
      ground (arith, e, get-refresh fetch k (keys services) services, contains-keys k services)
  | inr (old, e) ↦
      ground (arith, e, get-refresh fetch k (keys services) services, contains-keys k services)
]

-- The cache is asked first. A failed fetch gives no instances and is not kept, so that the next call
-- asks the server again; a fetch that succeeds is kept for the next call.
pub get_instances_lem :
    (fetch : Fetch) (k : String) (services : Services)
    → ((is : List Instance)
        → DashMap.get k services ≡ some is
        → get_instances fetch k services ≡ (Run.returned is, services))
      × ((e : String)
          → DashMap.get k services ≡ none
          → fetch k ≡ Run.failed e
          → get_instances fetch k services ≡ (Run.returned [], services))
      × ((is : List Instance) (later : Fetch)
          → DashMap.get k services ≡ none
          → fetch k ≡ Run.returned is
          → ((get_instances fetch k services).0 ≡ Run.returned is)
            × (get_instances later k (get_instances fetch k services).1
                ≡ (Run.returned is, (get_instances fetch k services).1)))
unfolding get_instances fetch_instances
get_instances_lem fetch k services = (
  λ is h. ground (arith, h),
  λ e h f. ground (arith, h, f),
  λ is later h f.
      (ground (arith, h, f), ground (arith, h, f, DashMap.get-insert_self k is services)),
)
