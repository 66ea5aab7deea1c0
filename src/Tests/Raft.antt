-- ===== src/Tests/Raft.antt =====
-- Runs of writes through Raft (conreg-server/src/raft/api).
use conreg.Prelude.{ℕ, none, some, [], ◌∷◌, true, is_ok, ltb, if◌then◌else◌, ◌≡◌, ◌↔◌, refl, arith}
use conreg.DashMap
use conreg.Protocol.{success}
use conreg.Raft.{RaftRequest}
use conreg.Raft.Commit.{raft_write_iff}
use conreg.Raft.Log.{From, IsLog, entry_at, newest, IsLog-entry_at}
use conreg.Raft.LogStore.{Entry, EntryPayload, LogStore, append, truncate, purge}
use conreg.Raft.Snapshot.{after, events, apply-after, new-build_snapshot}
use conreg.Raft.StateMachine.{
  StateMachineData, StateMachineStore, SnapshotMeta, Serde, default, starting, current, applied,
  event_of, apply, apply_entry, build_snapshot, new,
}
use conreg.Raft.Write.{Committed, raft_write}
use conreg.Tests.Node.{follower, response}

raft_write_iff_example :
    (raft_write follower (RaftRequest.set "a" "1") ≡ success response)
    ↔ Committed follower (RaftRequest.set "a" "1") response
raft_write_iff_example = raft_write_iff follower (RaftRequest.set "a" "1") response

abbrev at_index : ℕ → EntryPayload → Entry
at_index i payload = record {
  log_id = record { term = 1; node_id = 1; index = i };
  payload = payload;
}

abbrev written : Entry
written = at_index 2 (EntryPayload.normal (RaftRequest.set "a" "1"))

abbrev removal : Entry
removal = at_index 3 (EntryPayload.normal (RaftRequest.delete_namespace "team"))

abbrev stored : LogStore
stored = record {
  logs = (1, at_index 1 EntryPayload.blank) ∷ (2, written) ∷ [];
  vote = none;
  last_purged_log_id = none;
}

IsLog-stored : IsLog stored
unfolding From
IsLog-stored = (omega arith, refl, (omega arith, refl, tt))

IsLog-entry_at_example :
    ((i : ℕ)
      → entry_at i (append (removal ∷ []) stored).logs
        ≡ newest i (removal ∷ []) (entry_at i stored.logs))
    × ((i : ℕ)
        → entry_at i (truncate written.log_id stored).logs
          ≡ (if ltb i 2 then entry_at i stored.logs else none))
    × ((i : ℕ)
        → entry_at i (purge written.log_id stored).logs
          ≡ (if ltb 2 i then entry_at i stored.logs else none))
    × IsLog (append (removal ∷ []) stored)
    × IsLog (truncate written.log_id stored)
    × IsLog (purge written.log_id stored)
IsLog-entry_at_example = IsLog-entry_at (removal ∷ []) written.log_id stored IsLog-stored

-- The data of a machine that has applied the write.
abbrev saved : StateMachineData
saved = record {
  last_applied_log = some written.log_id;
  last_membership = record { log_id = none; membership = "" };
  pairs = ("a", "1") ∷ [];
}

abbrev serde : Serde
serde = record { to_vec = λ d. "{}"; from_slice = λ bytes. some saved; leader = λ id. "1" }

abbrev meta : SnapshotMeta
meta = record {
  last_log_id = saved.last_applied_log;
  last_membership = saved.last_membership;
  snapshot_id = "1-2-1";
}

abbrev machine : StateMachineStore
unfolding default
machine = starting serde none default

apply-after_example :
    (is_ok (apply (written ∷ removal ∷ []) machine).0 ≡ true)
    × (current (apply (written ∷ removal ∷ []) machine).1
        ≡ record saved { last_applied_log = some removal.log_id })
    × ((apply (written ∷ removal ∷ []) machine).1.sent ≡ RaftRequest.delete_namespace "team" ∷ [])
unfolding after applied current events event_of DashMap.insert DashMap.get default machine
apply-after_example = apply-after (written ∷ removal ∷ []) machine refl

new-build_snapshot_example :
    (t : StateMachineStore) × (new serde
        (some (build_snapshot serde (apply (written ∷ []) machine).1).0)
      ≡ some t)
    × (current (apply (removal ∷ []) t).1 ≡ current (apply (written ∷ removal ∷ []) machine).1)
    × ((apply (removal ∷ []) t).1.sent ≡ RaftRequest.delete_namespace "team" ∷ [])
unfolding apply apply_entry current events event_of machine
new-build_snapshot_example =
    new-build_snapshot serde (written ∷ []) (removal ∷ []) machine refl refl
