-- ===== src/Discovery/Lifecycle.antt =====
-- How an instance fails, recovers and is removed: heartbeats against the two timers
-- (conreg-server/src/discovery/discovery.rs, lines 234 to 304).
use conreg.Prelude.{
  ℕ, ◌+◌, ◌<◌, ◌≤◌, ◌≡◌, refl, String, Bool, false, Option, none, some, List, [], ◌∷◌, arith,
  string_eq, if◌then◌else◌, not, retain, eq_iff, eq_refl, Option-cases, inl, inr, All, NoRepeat,
  contains, length, leb,
}
use conreg.DashMap.{get, get-map_values}
use conreg.Discovery.Instance.{
  InstanceStatus, is_up, is_down, is_offline, ServiceInstance, HeartbeatResult, update_heartbeat,
  is_heartbeat_timeout,
}
use conreg.Discovery.Registry.{Discovery, heartbeat, check_instance, check_heartbeats, cleanup}
use conreg.Discovery.View.{find_id, view, answer, revived}
use conreg.Discovery.Effects.{heartbeat_lem, view-check_heartbeats}
use conreg.Discovery.Invariant
use conreg.Discovery.Invariant.{ids, IsWellFormed}
use conreg.Discovery.Invariant.Steps.{Step-IsWellFormed}

-- What the cleanup leaves of an instance.
unfoldable pub kept_unless_down : Option ServiceInstance → Option ServiceInstance
kept_unless_down none = none
kept_unless_down (some i) = if is_down i.status then none else some i

find_id-none :
    (j : String) (is : List ServiceInstance) → contains (ids is) j ≡ false → find_id j is ≡ none
find_id-none j [] h = refl
find_id-none j (x ∷ is) h = ground (arith, find_id-none j is)

find_id-retain-none :
    (j : String) (p : ServiceInstance → Bool) (is : List ServiceInstance)
    → find_id j is ≡ none
    → find_id j (retain p is) ≡ none
find_id-retain-none j p [] h = h
find_id-retain-none j p (x ∷ is) h = ground (arith, find_id-retain-none j p is)

find_id-cleanup :
    (j : String) (is : List ServiceInstance)
    → NoRepeat (ids is)
    → find_id j (retain (λ i. not (is_down i.status)) is) ≡ kept_unless_down (find_id j is)
unfolding kept_unless_down
find_id-cleanup j [] h = refl
find_id-cleanup j (x ∷ is) h = ground (
  arith,
  find_id-cleanup j is,
  find_id-none j is,
  find_id-retain-none j (λ i. not (is_down i.status)) is,
  eq_iff x.id j,
)

-- In a well-formed registry a tick of the cleanup timer removes exactly the instances that are `Down`.
pub view-cleanup :
    (d : Discovery) (t j : String)
    → IsWellFormed d
    → view (cleanup d) t j ≡ kept_unless_down (view d t j)
unfolding cleanup view kept_unless_down
view-cleanup d t j w = elim (Option-cases (get t d.services)) [
  | inl e ↦ ground (arith, get-map_values t (retain (λ i. not (is_down i.status))) d.services)
  | inr (is, e) ↦ ground (
    arith,
    get-map_values t (retain (λ i. not (is_down i.status))) d.services,
    find_id-cleanup j is (w.at_service t is e).distinct,
  )
]

-- Ticks of the heartbeat check at the given times.
unfoldable pub check_at : ℕ → List ℕ → ServiceInstance → ServiceInstance
check_at timeout [] i = i
check_at timeout (now ∷ later) i = check_at timeout later (check_instance now timeout i)

abbrev pub IsLate : ℕ → ServiceInstance → ℕ → Type 0
IsLate timeout i now = i.last_heartbeat + timeout < now

-- The heartbeats that are lost after `n` late ticks: one for each, and three at most.
abbrev pub count_lost : ℕ → ℕ → ℕ
count_lost lost n = if leb (lost + n) 3 then lost + n else 3

late-check_instance :
    (timeout now : ℕ) (i : ServiceInstance)
    → is_offline i.status ≡ false
    → i.lost_heartbeats ≤ 3
    → IsLate timeout i now
    → ((check_instance now timeout i).lost_heartbeats ≡ count_lost i.lost_heartbeats 1)
      × (is_offline (check_instance now timeout i).status ≡ false)
      × (is_down (check_instance now timeout i).status ≡ leb 3 i.lost_heartbeats)
      × (is_up (check_instance now timeout i).status ≡ false)
      × ((check_instance now timeout i).last_heartbeat ≡ i.last_heartbeat)
unfolding check_instance
late-check_instance timeout now i on h late = ground arith

late_count_le : (a b : ℕ) → a ≤ 3 → b ≡ count_lost a 1 → b ≤ 3
late_count_le a b h e = ground arith

IsLate-same :
    (timeout : ℕ) (i j : ServiceInstance) (times : List ℕ)
    → j.last_heartbeat ≡ i.last_heartbeat
    → All (IsLate timeout i) times
    → All (IsLate timeout j) times
IsLate-same timeout i j [] e h = h
IsLate-same timeout i j (t ∷ times) e h = (omega arith, IsLate-same timeout i j times e h.1)

-- An instance that is not offline and sends no heartbeat is `Down` after a row of late ticks exactly
-- if the row has more ticks than the instance has heartbeats left to lose, out of three; till then
-- each late tick counts one more lost heartbeat. After the first late tick it is not `Up`.
pub silence :
    (timeout now : ℕ) (later : List ℕ) (i : ServiceInstance)
    → is_offline i.status ≡ false
    → i.lost_heartbeats ≤ 3
    → All (IsLate timeout i) (now ∷ later)
    → ((check_at timeout (now ∷ later) i).lost_heartbeats
        ≡ count_lost i.lost_heartbeats (length (now ∷ later)))
      × (is_down (check_at timeout (now ∷ later) i).status
          ≡ leb 3 (i.lost_heartbeats + length later))
      × (is_up (check_at timeout (now ∷ later) i).status ≡ false)
unfolding check_at
silence timeout now [] i on h late = ground (arith, late-check_instance timeout now i on h late.0)
silence timeout now (next ∷ later) i on h late =
    let step = late-check_instance timeout now i on h late.0 in
    ground (
      arith,
      step,
      silence timeout next later (check_instance now timeout i) step.1
          (late_count_le i.lost_heartbeats (check_instance now timeout i).lost_heartbeats h step.0)
          (IsLate-same timeout i (check_instance now timeout i) (next ∷ later) step.4 late.1),
    )

-- A heartbeat that is accepted makes its instance available, and a check that finds no timeout and
-- no three lost heartbeats leaves it so.
pub heartbeat-is_up :
    (now later timeout : ℕ) (s k : String) (d : Discovery) (i : ServiceInstance)
    → view d s k ≡ some i
    → (heartbeat now s k d).0 ≡ HeartbeatResult.ok
    → i.lost_heartbeats < 3
    → later ≤ now + timeout
    → view (check_heartbeats later timeout (heartbeat now s k d).1) s k
      ≡ some (record i { status = InstanceStatus.up; last_heartbeat = now })
unfolding answer revived check_instance update_heartbeat is_heartbeat_timeout
heartbeat-is_up now later timeout s k d i e ok few soon =
    let beaten = heartbeat_lem now s k d in
    ground (
      arith,
      view-check_heartbeats later timeout (heartbeat now s k d).1 s k,
      beaten.0,
      beaten.1 s k,
      eq_refl s,
      eq_refl k,
    )

-- A heartbeat does not reset the count of lost heartbeats: an instance that has lost three since it was
-- registered answers a heartbeat with success, is `Down` at the next check, however soon that is, and
-- is gone after the next cleanup.
pub worn_out :
    (now later timeout : ℕ) (s k : String) (d : Discovery) (i : ServiceInstance)
    → IsWellFormed d
    → view d s k ≡ some i
    → is_offline i.status ≡ false
    → 3 ≤ i.lost_heartbeats
    → ((heartbeat now s k d).0 ≡ HeartbeatResult.ok)
      × (view (check_heartbeats later timeout (heartbeat now s k d).1) s k
          ≡ some (record i { status = InstanceStatus.down; last_heartbeat = now }))
      × (view (cleanup (check_heartbeats later timeout (heartbeat now s k d).1)) s k ≡ none)
unfolding answer revived check_instance kept_unless_down update_heartbeat
worn_out now later timeout s k d i w e on many =
    let beaten = heartbeat_lem now s k d in
    let w' = Step-IsWellFormed (Invariant.heartbeat now s k d) w in
    let w'' =
      Step-IsWellFormed (Invariant.check_heartbeats later timeout (heartbeat now s k d).1) w' in
    ground (
      arith,
      view-check_heartbeats later timeout (heartbeat now s k d).1 s k,
      view-cleanup (check_heartbeats later timeout (heartbeat now s k d).1) s k w'',
      beaten.0,
      beaten.1 s k,
      eq_refl s,
      eq_refl k,
    )
