-- ===== src/Cmt/Commands.antt =====
-- The commands that change the cluster (conreg-cmt/src/main.rs). `Cluster` is what the tool asks of a node, by
-- HTTP, over whatever state the cluster has. What a command prints is a `Said`.
use conreg.Prelude.{
  concat, to_string, ℕ, String, Option, none, some, List, [], ◌∷◌, ◌++◌, Anyhow, ok, err, ◌==◌,
  nat_eq, not, contains, retain, if◌then◌else◌,
}

-- The part of the metrics that the tool reads (conreg-cmt/src/network/response.rs): of the last applied entry
-- and of each replication the index, of the membership the voters of each configuration and the addresses.
pub record RaftMetrics : Type 0 where
  pub id : ℕ
  pub current_term : ℕ
  pub last_log_index : Option ℕ
  pub last_applied : Option ℕ
  pub state : String
  pub current_leader : Option ℕ
  pub millis_since_quorum_ack : Option ℕ
  pub configs : List (List ℕ)
  pub nodes : List (String × String)
  pub replication : Option (List (String × Option ℕ))

pub record Cluster (W : Type 0) : Type 0 where
  pub init : List (ℕ × String) → W → Anyhow (Option String) × W
  pub add_learner : ℕ × String → W → Anyhow (Unit {0}) × W
  pub change_membership : List ℕ → W → Anyhow (Unit {0}) × W
  pub metrics : W → Anyhow (Option RaftMetrics)

pub data Said : Type 0 where
  initialized : String → Said
  learner_added : Said
  promoted : List ℕ → Said
  removed : ℕ → Said
  not_in_cluster : ℕ → List ℕ → Said
  failed : String → Said

-- A command's end: what it printed, an error of the tool, or a panic.
pub data End : Type 0 where
  said : Said → End
  error : String → End
  panic : End

abbrev pub first : List (List ℕ) → List ℕ
first [] = []
first (c ∷ cs) = c

-- The first of some nodes that is a member.
unfoldable pub existing : List ℕ → List ℕ → Option ℕ
existing members [] = none
existing members (id ∷ ids) =
    let rest = existing members ids in if contains members id then some id else rest

module _ {W : Type 0} (c : Cluster W) where
  unfoldable pub init_cluster : List (ℕ × String) → W → End × W
  init_cluster nodes w =
      let (res, w') = c.init nodes w in
      elim res [
        | err e ↦ (End.said (Said.failed e), w')
        | ok answer ↦ elim answer [
          | none ↦ (End.panic, w')
          | some text ↦ (End.said (Said.initialized text), w')
        ]
      ]

  unfoldable pub add_learner : ℕ × String → W → End × W
  add_learner node w =
      let (res, w') = c.add_learner node w in
      elim res [ err e ↦ (End.said (Said.failed e), w') | ok _ ↦ (End.said Said.learner_added, w') ]

  unfoldable pub get_status : W → Anyhow RaftMetrics
  get_status w = elim (c.metrics w) [
    | err e ↦ err e
    | ok res ↦ elim res [
      | none ↦ err "Failed to get cluster status, server returned empty"
      | some metrics ↦ ok metrics
    ]
  ]

  abbrev change : Said → List ℕ → W → End × W
  change done ids w =
      let (res, w') = c.change_membership ids w in
      elim res [ err e ↦ (End.said (Said.failed e), w') | ok _ ↦ (End.said done, w') ]

  unfoldable pub promote_nodes : List ℕ → W → End × W
  unfolding get_status existing to_string
  promote_nodes node_ids w = elim (get_status w) [
    | err e ↦ (End.error e, w)
    | ok status ↦
        let members = first status.configs in
        elim (existing members node_ids) [
          | some id ↦ (
            End.error
                (concat " ❌ Node " (concat (to_string id) " is already a member of the cluster")),
            w,
          )
          | none ↦ change (Said.promoted node_ids) (members ++ node_ids) w
        ]
  ]

  unfoldable pub remove_node : ℕ → W → End × W
  unfolding get_status
  remove_node node_id w = elim (get_status w) [
    | err e ↦ (End.error e, w)
    | ok status ↦
        let members = first status.configs in
        if not (contains members node_id)
        then (End.said (Said.not_in_cluster node_id members), w)
        else change (Said.removed node_id) (retain (λ id. not (id == node_id)) members) w
  ]
