-- ===== src/Raft/Snapshot.antt =====
-- Applying committed entries, and what a snapshot keeps of it
-- (conreg-server/src/raft/store/mod.rs, lines 78 to 325).
use conreg.Prelude.{
  append_assoc, Bool, if◌then◌else◌, ℕ, ◌+◌, ◌<◌, String, true, false, Option, some, List, [], ◌∷◌,
  ◌++◌, nat_eq, string_eq, unwrap_or, ok, is_ok, ◌≡◌, ◌⊎◌, append-nil, refl, arith, ap, sym, ◌∙◌,
  inl, inr,
}
use conreg.DashMap
use conreg.DashMap.{DashMap, get-insert, get-insert_self}
use conreg.Raft.{RaftRequest, RaftResponse}
use conreg.Raft.LogStore.{LogId, Entry, EntryPayload}
use conreg.Raft.StateMachine.{
  StoredMembership, StateMachineData, StateMachineStore, SnapshotMeta, StoredSnapshot, Serde,
  current, default, put, applied, response, event_of, send, apply_entry, apply, build_snapshot,
  install_snapshot, new, starting, read,
}

-- What entries should do to the data: the id of the last one is kept, the last membership with the id of
-- its entry, and the pairs with every `Set` and `Delete` done in turn.
abbrev last_id : List Entry → Option LogId → Option LogId
last_id [] id = id
last_id (e ∷ es) id = last_id es (some e.log_id)

abbrev membership_of : LogId → EntryPayload → StoredMembership → StoredMembership
membership_of id (EntryPayload.membership m) old = record { log_id = some id; membership = m }
membership_of id _ old = old

abbrev last_membership : List Entry → StoredMembership → StoredMembership
last_membership [] m = m
last_membership (e ∷ es) m = last_membership es (membership_of e.log_id e.payload m)

abbrev written : EntryPayload → DashMap String String → DashMap String String
written (EntryPayload.normal (RaftRequest.set key value)) pairs = DashMap.insert key value pairs
written (EntryPayload.normal (RaftRequest.delete key)) pairs = DashMap.remove key pairs
written _ pairs = pairs

abbrev pairs_after : List Entry → DashMap String String → DashMap String String
pairs_after [] pairs = pairs
pairs_after (e ∷ es) pairs = pairs_after es (written e.payload pairs)

unfoldable pub after : List Entry → StateMachineData → StateMachineData
after es d = record {
  last_applied_log = last_id es d.last_applied_log;
  last_membership = last_membership es d.last_membership;
  pairs = pairs_after es d.pairs;
}

-- The requests that the state machine keeps to itself.
abbrev is_kept : RaftRequest → Bool
is_kept (RaftRequest.set key value) = true
is_kept (RaftRequest.delete key) = true
is_kept _ = false

abbrev handed_on : EntryPayload → List RaftRequest
handed_on (EntryPayload.normal req) = if is_kept req then [] else req ∷ []
handed_on _ = []

-- The requests that entries should hand to the event bus.
unfoldable pub events : List Entry → List RaftRequest
events [] = []
events (e ∷ es) = handed_on e.payload ++ events es

applied-fields :
    (id : LogId) (p : EntryPayload) (d : StateMachineData)
    → applied (record { log_id = id; payload = p }) d ≡ record {
      last_applied_log = some id;
      last_membership = membership_of id p d.last_membership;
      pairs = written p d.pairs;
    }
unfolding applied
applied-fields id EntryPayload.blank d = refl
applied-fields id (EntryPayload.membership m) d = refl
applied-fields id (EntryPayload.normal (RaftRequest.set k v)) d = refl
applied-fields id (EntryPayload.normal (RaftRequest.delete k)) d = refl
applied-fields id (EntryPayload.normal r) d = refl

-- The first entry does its part, and the others theirs.
after-step :
    (e : Entry) (es : List Entry) (d : StateMachineData) → after (e ∷ es) d ≡ after es (applied e d)
unfolding after
after-step e es d = ap (after es) (sym (applied-fields e.log_id e.payload d))

event_of-handed_on : (p : EntryPayload) → event_of p ≡ handed_on p
unfolding event_of
event_of-handed_on EntryPayload.blank = refl
event_of-handed_on (EntryPayload.membership m) = refl
event_of-handed_on (EntryPayload.normal (RaftRequest.set k v)) = refl
event_of-handed_on (EntryPayload.normal (RaftRequest.delete k)) = refl
event_of-handed_on (EntryPayload.normal r) = refl

event-cases : (p : EntryPayload) → ((event_of p ≡ []) ⊎ ((r : RaftRequest) × (event_of p ≡ r ∷ [])))
unfolding event_of
event-cases EntryPayload.blank = inl refl
event-cases (EntryPayload.membership m) = inl refl
event-cases (EntryPayload.normal (RaftRequest.set k v)) = inl refl
event-cases (EntryPayload.normal (RaftRequest.delete k)) = inl refl
event-cases (EntryPayload.normal r) = inr (r, refl)

send-received :
    (p : EntryPayload) (s : StateMachineStore)
    → s.receiving ≡ true
    → send (event_of p) s ≡ (ok tt, record s { sent = s.sent ++ event_of p })
unfolding send
send-received p s h = elim (event-cases p) [
  | inl e ↦ rw e (ap (λ l. (ok tt, record s { sent = l })) (append-nil s.sent))
  | inr (r, e) ↦ rw (e, h) refl
]

current-put :
    (d : StateMachineData) (reqs : List RaftRequest) (s : StateMachineStore)
    → current (record (put d s) { sent = reqs }) ≡ d
unfolding current put
current-put d reqs s = ap (λ o. unwrap_or o default) (get-insert_self s.state_machine d s.cells)

apply_entry-received :
    (e : Entry) (s : StateMachineStore)
    → s.receiving ≡ true
    → apply_entry e s ≡ (
      ok (response e (current s)),
      record (put (applied e (current s)) s) { sent = s.sent ++ event_of e.payload },
    )
unfolding apply_entry
apply_entry-received e s h =
    let sent = send-received e.payload (put (applied e (current s)) s) (unfold put in h) in
    rw sent (unfold put in refl)

apply-step :
    (e : Entry) (es : List Entry) (s t : StateMachineStore) (r : RaftResponse)
    → apply_entry e s ≡ (ok r, t)
    → (is_ok (apply (e ∷ es) s).0 ≡ is_ok (apply es t).0) × ((apply (e ∷ es) s).1 ≡ (apply es t).1)
unfolding apply
apply-step e es s t r h = (ground arith, ground arith)

-- While the event bus is received from, applying entries succeeds; the data have the id of the last entry, the
-- last membership with the id of its entry, and the pairs with every `Set` and `Delete` done in turn; and
-- every request but `Set` and `Delete` is handed to the bus once, in their order.
pub apply-after :
    (es : List Entry) (s : StateMachineStore)
    → s.receiving ≡ true
    → (is_ok (apply es s).0 ≡ true)
      × (current (apply es s).1 ≡ after es (current s))
      × ((apply es s).1.sent ≡ s.sent ++ events es)
unfolding events
apply-after [] s h =
    (unfold apply in refl, unfold apply in unfold after in refl, unfold apply in append-nil s.sent)
apply-after (e ∷ es) s h =
    let t : StateMachineStore = record (put (applied e (current s)) s) {
      sent = s.sent ++ event_of e.payload;
    } in
    let step = apply-step e es s t (response e (current s)) (apply_entry-received e s h) in
    let rest = apply-after es t (unfold put in h) in
    (
      step.0 ∙ rest.0,
      ap current step.1
          ∙ (rest.1
              ∙ (ap (after es)
                    (current-put (applied e (current s)) (s.sent ++ event_of e.payload) s)
                  ∙ sym (after-step e es (current s)))),
      ap (λ u. u.sent) step.1
          ∙ (rest.2
              ∙ (append_assoc s.sent (event_of e.payload) (events es)
                  ∙ ap (λ l. s.sent ++ (l ++ events es)) (event_of-handed_on e.payload))),
    )

after-append :
    (xs ys : List Entry) (d : StateMachineData) → after (xs ++ ys) d ≡ after ys (after xs d)
after-append [] ys d = unfold after in refl
after-append (x ∷ xs) ys d =
    after-step x (xs ++ ys) d
    ∙ (after-append xs ys (applied x d) ∙ sym (ap (after ys) (after-step x xs d)))

current-starting :
    (serde : Serde) (disk : Option StoredSnapshot) (d : StateMachineData)
    → current (starting serde disk d) ≡ d
unfolding current DashMap.get
current-starting serde disk d = refl

-- A node that starts from the snapshot that was built after some entries, and applies the entries behind
-- them, has the data of a node that applied all of them without a stop. It hands the requests of the
-- later entries to the bus, those also that it handed over before it stopped. The hypotheses are that
-- JSON reads the data back, and that the bus is received from.
pub new-build_snapshot :
    (serde : Serde) (before behind : List Entry) (s : StateMachineStore)
    → s.receiving ≡ true
    → serde.from_slice (serde.to_vec (current (apply before s).1))
      ≡ some (current (apply before s).1)
    → (t : StateMachineStore) × (new serde (some (build_snapshot serde (apply before s).1).0)
        ≡ some t)
      × (current (apply behind t).1 ≡ current (apply (before ++ behind) s).1)
      × ((apply behind t).1.sent ≡ events behind)
unfolding new build_snapshot
new-build_snapshot serde before behind s h json =
    let t =
      starting serde (some (build_snapshot serde (apply before s).1).0)
        (current (apply before s).1) in
    let later = apply-after behind t refl in
    (
      t,
      ground (arith, json),
      later.1
          ∙ (ap (after behind) (current-starting serde t.sm_meta (current (apply before s).1))
              ∙ (ap (after behind) (apply-after before s h).1
                  ∙ (sym (after-append before behind (current s))
                      ∙ sym (apply-after (before ++ behind) s h).1))),
      later.2,
    )

apply-other :
    (cell : ℕ) (es : List Entry) (s : StateMachineStore)
    → s.receiving ≡ true
    → nat_eq.beq s.state_machine cell ≡ false
    → DashMap.get cell (apply es s).1.cells ≡ DashMap.get cell s.cells
apply-other cell [] s h d = unfold apply in refl
apply-other cell (e ∷ es) s h d =
    let t : StateMachineStore = record (put (applied e (current s)) s) {
      sent = s.sent ++ event_of e.payload;
    } in
    let step = apply-step e es s t (response e (current s)) (apply_entry-received e s h) in
    let write : DashMap.get cell t.cells ≡ DashMap.get cell s.cells =
      unfold put in
      ground (arith, get-insert s.state_machine cell (applied e (current s)) s.cells) in
    ap (λ u. DashMap.get cell u.cells) step.1
    ∙ (apply-other cell es t (unfold put in h) (unfold put in d) ∙ write)

-- When a snapshot is installed, the state machine moves to a new cell, and with it all that is applied
-- later; a reader of the cell that the machine had before keeps reading the old data, for good.
pub install_snapshot-stale :
    (serde : Serde) (meta : SnapshotMeta) (bytes key : String) (d : StateMachineData)
    (es : List Entry) (s : StateMachineStore)
    → s.receiving ≡ true
    → serde.from_slice bytes ≡ some d
    → s.state_machine < s.next_cell
    → ((install_snapshot serde meta bytes s).0 ≡ ok tt)
      × (current (apply es (install_snapshot serde meta bytes s).1).1 ≡ after es d)
      × (read s.state_machine key (apply es (install_snapshot serde meta bytes s).1).1
          ≡ read s.state_machine key s)
unfolding install_snapshot read
install_snapshot-stale serde meta bytes key d es s h json fresh =
    let t : StateMachineStore = record s {
      cells = DashMap.insert s.next_cell d s.cells;
      state_machine = s.next_cell;
      next_cell = s.next_cell + 1;
      sm_meta = some (record { meta = meta; bytes = bytes });
    } in
    let done : install_snapshot serde meta bytes s ≡ (ok tt, t) = ground (arith, json) in
    let here : current t ≡ d =
      unfold current in ap (λ o. unwrap_or o default) (get-insert_self s.next_cell d s.cells) in
    let there : DashMap.get s.state_machine t.cells ≡ DashMap.get s.state_machine s.cells =
      ground (arith, get-insert s.next_cell s.state_machine d s.cells) in
    let moved = apply-other s.state_machine es t h (ground arith) in
    (
      ap (λ r. r.0) done,
      ap (λ r. current (apply es r.1).1) done ∙ ((apply-after es t h).1 ∙ ap (after es) here),
      ap
            (λ r.
              DashMap.get key
                (unwrap_or (DashMap.get s.state_machine (apply es r.1).1.cells) default).pairs)
            done
          ∙ ap (λ o. DashMap.get key (unwrap_or o default).pairs) (moved ∙ there),
    )
