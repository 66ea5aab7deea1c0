-- ===== src/Discovery/Invariant/Steps.antt =====
-- Every step keeps the registry well-formed
-- (conreg-server/src/discovery/discovery.rs, lines 106 to 310).
use conreg.Prelude.{
  ℕ, ◌≡◌, refl, String, Bool, true, false, some, List, [], ◌∷◌, map, arith, ◌==◌, string_eq, not,
  retain, unwrap_or, eq_iff, Option-cases, Bool-cases, inl, inr, All-retain, All-append,
}
use conreg.DashMap.{get, insert, map_values, get-insert, get-remove, get-map_values}
use conreg.Discovery.Instance.{ServiceInstance}
use conreg.Discovery.Registry
use conreg.Discovery.Registry.{Discovery, replace, get_mut, update_first, beat, check_instance}
use conreg.Discovery.Invariant.{
  Step, register_service, deregister_service, register_instance, deregister_instance, online,
  offline, heartbeat, check_heartbeats, cleanup, Reach, here, next, Fits, IsGood, IsWellFormed,
}
use conreg.Discovery.Invariant.Lists.{
  retain-NoRepeat, contains-retain_ne, snoc-NoRepeat, ids-beat, beat-Fits, ids-update_first,
  update_first-Fits, ids-check, check-Fits,
}

nil-IsGood : (s : String) → IsGood s []
nil-IsGood s = record { fit = tt; distinct = tt }

-- The list of a service, or none, is good in a well-formed registry.
list-IsGood :
    (d : Discovery) (s : String) → IsWellFormed d → IsGood s (unwrap_or (get s d.services) [])
list-IsGood d s w = elim (Option-cases (get s d.services)) [
  | inl e ↦ rw e (nil-IsGood s)
  | inr (is, e) ↦ rw e (w.at_service s is e)
]

-- A good list put in for its service keeps the registry well-formed.
insert-IsWellFormed :
    (d : Discovery) (s : String) (is : List ServiceInstance)
    → IsWellFormed d
    → IsGood s is
    → IsWellFormed (record { services = insert s is d.services })
insert-IsWellFormed d s is w g = record {
  at_service = λ t js e. elim (Bool-cases (s == t)) [
    | inl same ↦ moved t js same e
    | inr other ↦ w.at_service t js (kept t js other e)
  ];
}
  where
    moved :
        (t : String) (js : List ServiceInstance)
        → (s == t) ≡ true
        → get t (insert s is d.services) ≡ some js
        → IsGood t js
    moved t js same e =
        let p : s ≡ t = (eq_iff s t).0 same in
        let q : is ≡ js = ground (arith, get-insert s t is d.services) in rw (← p, ← q) g

    kept :
        (t : String) (js : List ServiceInstance)
        → (s == t) ≡ false
        → get t (insert s is d.services) ≡ some js
        → get t d.services ≡ some js
    kept t js other e = ground (arith, get-insert s t is d.services)

-- An operation on one list by `get_mut` keeps the registry well-formed if it keeps good lists good.
get_mut-IsWellFormed :
    (s : String) (f : List ServiceInstance → List ServiceInstance) (d : Discovery)
    → ((is : List ServiceInstance) → IsGood s is → IsGood s (f is))
    → IsWellFormed d
    → IsWellFormed (get_mut s f d)
unfolding get_mut
get_mut-IsWellFormed s f d keep w = elim (Option-cases (get s d.services)) [
  | inl e ↦ rw (e, get_mut) w
  | inr (is, e) ↦ rw (e, get_mut) (insert-IsWellFormed d s (f is) w (keep is (w.at_service s is e)))
]

retain-IsGood :
    (s : String) (p : ServiceInstance → Bool) (is : List ServiceInstance)
    → IsGood s is
    → IsGood s (retain p is)
retain-IsGood s p is g = record {
  fit = All-retain (Fits s) p is g.fit;
  distinct = retain-NoRepeat p is g.distinct;
}

update_first-IsGood :
    (s : String) (p : ServiceInstance → Bool) (f : ServiceInstance → ServiceInstance)
    (is : List ServiceInstance)
    → ((i : ServiceInstance) → (f i).id ≡ i.id)
    → ((i : ServiceInstance) → Fits s i → Fits s (f i))
    → IsGood s is
    → IsGood s (update_first p f is)
update_first-IsGood s p f is same keep g = record {
  fit = update_first-Fits s p f is keep g.fit;
  distinct = rw (ids-update_first p f is same) g.distinct;
}

replace-IsGood :
    (i : ServiceInstance) (is : List ServiceInstance)
    → i.lost_heartbeats ≡ 0
    → IsGood i.service_id is
    → IsGood i.service_id (replace i is)
unfolding replace
replace-IsGood i is h g = record {
  fit =
      All-append (Fits i.service_id) (retain (λ item. not (item.id == i.id)) is) (i ∷ [])
        (All-retain (Fits i.service_id) _ is g.fit) ((refl, omega arith), tt);
  distinct =
      snoc-NoRepeat i (retain (λ item. not (item.id == i.id)) is) (contains-retain_ne i.id is)
        (retain-NoRepeat _ is g.distinct);
}

beat-IsGood :
    (s : String) (now : ℕ) (k : String) (is : List ServiceInstance)
    → IsGood s is
    → IsGood s (beat now k is).1
beat-IsGood s now k is g = record {
  fit = beat-Fits s now k is g.fit;
  distinct = rw (ids-beat now k is) g.distinct;
}

check-IsGood :
    (s : String) (now timeout : ℕ) (is : List ServiceInstance)
    → IsGood s is
    → IsGood s (map (check_instance now timeout) is)
check-IsGood s now timeout is g = record {
  fit = check-Fits s now timeout is g.fit;
  distinct = rw (ids-check now timeout is) g.distinct;
}

map_values-IsWellFormed :
    (f : List ServiceInstance → List ServiceInstance) (d : Discovery)
    → ((s : String) (is : List ServiceInstance) → IsGood s is → IsGood s (f is))
    → IsWellFormed d
    → IsWellFormed (record { services = map_values f d.services })
map_values-IsWellFormed f d keep w = record {
  at_service = λ s js e. elim (Option-cases (get s d.services)) [
    | inl h ↦ absurd (ground (arith, get-map_values s f d.services))
    | inr (is, h) ↦
        let q : f is ≡ js = ground (arith, get-map_values s f d.services) in
        rw (← q) (keep s is (w.at_service s is h))
  ];
}

register_service-IsWellFormed :
    (s : String) (d : Discovery)
    → IsWellFormed d
    → IsWellFormed (Registry.register_service s [] d).1
unfolding Registry.register_service
register_service-IsWellFormed s d w = elim (Option-cases (get s d.services)) [
  | inl e ↦ rw (e, Registry.register_service) (insert-IsWellFormed d s [] w (nil-IsGood s))
  | inr (is, e) ↦ rw (e, Registry.register_service) w
]

deregister_service-IsWellFormed :
    (s : String) (d : Discovery) → IsWellFormed d → IsWellFormed (Registry.deregister_service s d)
unfolding Registry.deregister_service
deregister_service-IsWellFormed s d w = record {
  at_service = λ t js e. w.at_service t js (ground (arith, get-remove s t d.services));
}

heartbeat-IsWellFormed :
    (now : ℕ) (s k : String) (d : Discovery)
    → IsWellFormed d
    → IsWellFormed (Registry.heartbeat now s k d).1
unfolding Registry.heartbeat
heartbeat-IsWellFormed now s k d w = elim (Option-cases (get s d.services)) [
  | inl e ↦ rw (e, Registry.heartbeat) w
  | inr (is, e) ↦
      rw (e, Registry.heartbeat)
        (insert-IsWellFormed d s (beat now k is).1 w (beat-IsGood s now k is (w.at_service s is e)))
]

pub Step-IsWellFormed : {d e : Discovery} → Step d e → IsWellFormed d → IsWellFormed e
unfolding Registry.register_instance Registry.deregister_instance Registry.online Registry.offline
    Registry.check_heartbeats Registry.cleanup
Step-IsWellFormed (register_service s d) w = register_service-IsWellFormed s d w
Step-IsWellFormed (deregister_service s d) w = deregister_service-IsWellFormed s d w
Step-IsWellFormed (register_instance i d h) w =
    insert-IsWellFormed d i.service_id _ w (replace-IsGood i _ h (list-IsGood d i.service_id w))
Step-IsWellFormed (deregister_instance s k d) w = get_mut-IsWellFormed s _ d (retain-IsGood s _) w
Step-IsWellFormed (online s k d) w =
    get_mut-IsWellFormed s _ d (λ is. update_first-IsGood s _ _ is (λ i. refl) (λ i h. h)) w
Step-IsWellFormed (offline s k d) w =
    get_mut-IsWellFormed s _ d (λ is. update_first-IsGood s _ _ is (λ i. refl) (λ i h. h)) w
Step-IsWellFormed (heartbeat now s k d) w = heartbeat-IsWellFormed now s k d w
Step-IsWellFormed (check_heartbeats now timeout d) w =
    map_values-IsWellFormed _ d (λ s. check-IsGood s now timeout) w
Step-IsWellFormed (cleanup d) w = map_values-IsWellFormed _ d (λ s. retain-IsGood s _) w

-- From a well-formed registry, such as the empty one, every sequence of operations and timer ticks
-- leads to a well-formed one: each list holds instances of its own service, no id stands twice in a
-- list, and no instance has more than three lost heartbeats. New instances come with no lost
-- heartbeat, and new services with no instance.
pub Reach-IsWellFormed : {d e : Discovery} → IsWellFormed d → Reach d e → IsWellFormed e
Reach-IsWellFormed w here = w
Reach-IsWellFormed w (next r s) = Step-IsWellFormed s (Reach-IsWellFormed w r)

pub new-IsWellFormed : IsWellFormed Registry.new
unfolding Registry.new get
new-IsWellFormed = record { at_service = λ s is e. cc }
