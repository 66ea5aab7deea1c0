-- ===== src/Raft/StateMachine.antt =====
-- `StateMachineStore` (conreg-server/src/raft/store/mod.rs). The state machine is a shared cell: the
-- store has the number of its cell, and `App` the number that the store had at the start
-- (conreg-server/src/app.rs), which `read` (conreg-server/src/raft/api/app.rs) looks at. A snapshot is
-- held on disk as what its JSON stands for; serde_json on the data of the machine is `Serde`. The disk
-- does not fail. `receiving` says whether the receiver of the event bus is still there.
use conreg.Prelude.{
  ℕ, ◌+◌, String, Bool, true, Option, none, some, List, [], ◌∷◌, ◌++◌, nat_eq, string_eq,
  if◌then◌else◌, unwrap_or, ok, err, concat, to_string,
}
use conreg.DashMap
use conreg.DashMap.{DashMap}
use conreg.Exec.{Exec, pure, ◌>>=◌, ◌>>◌}
use conreg.Raft.{RaftRequest, RaftResponse}
use conreg.Raft.LogStore.{LogId, Entry, EntryPayload}

pub record StoredMembership : Type 0 where
  pub log_id : Option LogId
  pub membership : String

pub record StateMachineData : Type 0 where
  pub last_applied_log : Option LogId
  pub last_membership : StoredMembership
  pub pairs : DashMap String String

unfoldable pub default : StateMachineData
default = record {
  last_applied_log = none;
  last_membership = record { log_id = none; membership = "" };
  pairs = [];
}

pub record SnapshotMeta : Type 0 where
  pub last_log_id : Option LogId
  pub last_membership : StoredMembership
  pub snapshot_id : String

pub record StoredSnapshot : Type 0 where
  pub meta : SnapshotMeta
  pub bytes : String

pub record Serde : Type 0 where
  pub to_vec : StateMachineData → String
  pub from_slice : String → Option StateMachineData
  -- `committed_leader_id()` as a text
  pub leader : LogId → String

pub record StateMachineStore : Type 0 where
  pub cells : DashMap ℕ StateMachineData
  pub next_cell : ℕ
  pub state_machine : ℕ
  pub snapshot_idx : ℕ
  pub sm_meta : Option StoredSnapshot
  pub receiving : Bool
  pub sent : List RaftRequest

unfoldable pub current : StateMachineStore → StateMachineData
unfolding DashMap.get default
current s = unwrap_or (DashMap.get s.state_machine s.cells) default

unfoldable pub put : StateMachineData → StateMachineStore → StateMachineStore
unfolding DashMap.insert
put d s = record s { cells = DashMap.insert s.state_machine d s.cells }

-- What an entry does to the data, and what it answers.
unfoldable pub applied : Entry → StateMachineData → StateMachineData
unfolding DashMap.insert DashMap.remove
applied e d =
    let d' = record d { last_applied_log = some e.log_id } in
    elim e.payload [
      | EntryPayload.blank ↦ d'
      | EntryPayload.membership m ↦ record d' {
        last_membership = record { log_id = some e.log_id; membership = m };
      }
      | EntryPayload.normal req ↦ elim req [
        | RaftRequest.set key value ↦ record d' { pairs = DashMap.insert key value d.pairs }
        | RaftRequest.delete key ↦ record d' { pairs = DashMap.remove key d.pairs }
        | _ ↦ d'
      ]
    ]

unfoldable pub response : Entry → StateMachineData → RaftResponse
unfolding DashMap.get
response e d = elim e.payload [
  | EntryPayload.normal req ↦ elim req [
    | RaftRequest.set key value ↦ record { value = some value }
    | RaftRequest.delete key ↦ record { value = DashMap.get key d.pairs }
    | _ ↦ record { value = none }
  ]
  | _ ↦ record { value = none }
]

-- The request that goes to the event bus: all but `Set` and `Delete`.
unfoldable pub event_of : EntryPayload → List RaftRequest
event_of (EntryPayload.normal (RaftRequest.set key value)) = []
event_of (EntryPayload.normal (RaftRequest.delete key)) = []
event_of (EntryPayload.normal req) = req ∷ []
event_of _ = []

-- `Event::RaftRequestEvent(req).send()`
unfoldable pub send : List RaftRequest → Exec StateMachineStore (Unit {0})
send [] s = (ok tt, s)
send (req ∷ reqs) s =
    if s.receiving
    then (ok tt, record s { sent = s.sent ++ (req ∷ []) })
    else (err "write state machine", s)

unfoldable pub apply_entry : Entry → Exec StateMachineStore RaftResponse
unfolding current put applied response event_of send
apply_entry e s =
    (do send (event_of e.payload); pure (response e (current s))) (put (applied e (current s)) s)

unfoldable pub apply : List Entry → Exec StateMachineStore (List RaftResponse)
unfolding apply_entry
apply [] = pure []
apply (e ∷ es) = do r ← apply_entry e; rs ← apply es; pure (r ∷ rs)

unfoldable pub get_snapshot_builder : StateMachineStore → StateMachineStore
get_snapshot_builder s = record s { snapshot_idx = s.snapshot_idx + 1 }

module _ (serde : Serde) where
  unfoldable pub snapshot_id : Option LogId → ℕ → String
  unfolding to_string
  snapshot_id none idx = concat "--" (to_string idx)
  snapshot_id (some last) idx =
      concat (serde.leader last)
        (concat "-" (concat (to_string last.index) (concat "-" (to_string idx))))

  unfoldable pub build_snapshot : StateMachineStore → StoredSnapshot × StateMachineStore
  unfolding current snapshot_id
  build_snapshot s =
      let d = current s in
      let snapshot : StoredSnapshot = record {
        meta = record {
          last_log_id = d.last_applied_log;
          last_membership = d.last_membership;
          snapshot_id = snapshot_id d.last_applied_log s.snapshot_idx;
        };
        bytes = serde.to_vec d;
      } in
      (snapshot, record s { sm_meta = some snapshot })

  -- A new cell takes the place of the old one.
  unfoldable pub install_snapshot : SnapshotMeta → String → Exec StateMachineStore (Unit {0})
  unfolding DashMap.insert
  install_snapshot meta bytes s = elim (serde.from_slice bytes) [
    | none ↦ (err "read snapshot", s)
    | some d ↦ (
      ok tt,
      record s {
        cells = DashMap.insert s.next_cell d s.cells;
        state_machine = s.next_cell;
        next_cell = s.next_cell + 1;
        sm_meta = some (record { meta = meta; bytes = bytes });
      },
    )
  ]

  abbrev pub starting : Option StoredSnapshot → StateMachineData → StateMachineStore
  starting disk d = record {
    cells = (0, d) ∷ [];
    next_cell = 1;
    state_machine = 0;
    snapshot_idx = 0;
    sm_meta = disk;
    receiving = true;
    sent = [];
  }

  -- The start of a node on a disk: none where the snapshot on it cannot be read, which stops the node.
  unfoldable pub new : Option StoredSnapshot → Option StateMachineStore
  unfolding default
  new disk = elim disk [
    | none ↦ some (starting none default)
    | some snapshot ↦ elim (serde.from_slice snapshot.bytes) [
      | none ↦ none
      | some d ↦ some (starting (some snapshot) d)
    ]
  ]

-- `read`, which looks at the cell that `App` has.
unfoldable pub read : ℕ → String → StateMachineStore → Option String
unfolding DashMap.get default
read cell key s = DashMap.get key (unwrap_or (DashMap.get cell s.cells) default).pairs
