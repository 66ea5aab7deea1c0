-- ===== src/Raft/LogStore.antt =====
-- `SledLogStore` (conreg-server/src/raft/store/sled_log_store.rs). A sled tree is a list of its keys and
-- values in the order of the keys, which for the log are the big-endian bytes of an index, so that their
-- order is that of the indices. Entries, votes and ids are held as what their JSON stands for; reads and
-- writes of sled do not fail. A membership is kept as its text.
use conreg.Prelude.{
  ℕ, ◌+◌, String, Bool, true, false, Option, none, some, List, [], ◌∷◌, nat_eq, ltb, leb, ◌&&◌, not,
  if◌then◌else◌, retain,
}
use conreg.Raft.{RaftRequest}

pub record LogId : Type 0 where
  pub term : ℕ
  pub node_id : ℕ
  pub index : ℕ

pub data EntryPayload : Type 0 where
  blank : EntryPayload
  normal : RaftRequest → EntryPayload
  membership : String → EntryPayload

pub record Entry : Type 0 where
  pub log_id : LogId
  pub payload : EntryPayload

pub record Vote : Type 0 where
  pub term : ℕ
  pub node_id : ℕ
  pub committed : Bool

pub data Bound : Type 0 where
  included excluded : ℕ → Bound
  unbounded : Bound

-- `logs` is the tree of the entries, the other two are keys of the tree `meta`.
pub record LogStore : Type 0 where
  pub logs : List (ℕ × Entry)
  pub vote : Option Vote
  pub last_purged_log_id : Option LogId

-- `Tree::insert`
unfoldable pub tree_insert : ℕ → Entry → List (ℕ × Entry) → List (ℕ × Entry)
tree_insert k e [] = (k, e) ∷ []
tree_insert k e ((j, f) ∷ rest) =
    let below = tree_insert k e rest in
    if ltb k j
    then (k, e) ∷ (j, f) ∷ rest
    else if nat_eq.beq k j
    then (k, e) ∷ rest
    else (j, f) ∷ below

-- `Tree::last`
unfoldable pub tree_last : List (ℕ × Entry) → Option Entry
tree_last [] = none
tree_last ((k, e) ∷ []) = some e
tree_last ((k, e) ∷ next ∷ rest) = tree_last (next ∷ rest)

unfoldable pub start_of : Bound → ℕ
start_of (Bound.included x) = x
start_of (Bound.excluded x) = x + 1
start_of Bound.unbounded = 0

unfoldable pub end_of : Bound → Option ℕ
end_of (Bound.included x) = some (x + 1)
end_of (Bound.excluded x) = some x
end_of Bound.unbounded = none

abbrev is_past : Option ℕ → ℕ → Bool
is_past none id = false
is_past (some end) id = leb end id

-- `range.contains`
unfoldable pub in_range : Bound → Bound → ℕ → Bool
in_range from to id = above from && below to
  where
    above : Bound → Bool
    above (Bound.included x) = leb x id
    above (Bound.excluded x) = ltb x id
    above Bound.unbounded = true

    below : Bound → Bool
    below (Bound.included x) = leb id x
    below (Bound.excluded x) = ltb id x
    below Bound.unbounded = true

-- The loop over the tree from the start of the range on. None is the failed assertion that an entry
-- stands under its index.
unfoldable pub read_entries : Bound → Bound → List (ℕ × Entry) → Option (List Entry)
unfolding end_of in_range
read_entries from to [] = some []
read_entries from to ((id, e) ∷ rest) =
    let more = read_entries from to rest in
    if is_past (end_of to) id
    then some []
    else if not (in_range from to id)
    then more
    else if nat_eq.beq id e.log_id.index
    then elim more [ none ↦ none | some es ↦ some (e ∷ es) ]
    else none

unfoldable pub try_get_log_entries : Bound → Bound → LogStore → Option (List Entry)
unfolding read_entries start_of
try_get_log_entries from to s = read_entries from to (retain (λ r. leb (start_of from) r.0) s.logs)

-- The last purged and the last id.
unfoldable pub get_log_state : LogStore → Option LogId × Option LogId
unfolding tree_last
get_log_state s = (
  s.last_purged_log_id,
  elim (tree_last s.logs) [ none ↦ s.last_purged_log_id | some e ↦ some e.log_id ],
)

unfoldable pub save_vote : Vote → LogStore → LogStore
save_vote vote s = record s { vote = some vote }

unfoldable pub read_vote : LogStore → Option Vote
read_vote s = s.vote

unfoldable pub append : List Entry → LogStore → LogStore
unfolding tree_insert
append [] s = s
append (e ∷ es) s = append es (record s { logs = tree_insert e.log_id.index e s.logs })

unfoldable pub truncate : LogId → LogStore → LogStore
truncate log_id s = record s { logs = retain (λ r. not (leb log_id.index r.0)) s.logs }

unfoldable pub purge : LogId → LogStore → LogStore
purge log_id s = record s {
  logs = retain (λ r. not (leb r.0 log_id.index)) s.logs;
  last_purged_log_id = some log_id;
}
