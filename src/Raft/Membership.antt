-- ===== src/Raft/Membership.antt =====
-- The routes that change the cluster (conreg-server/src/raft/api/cluster.rs). `Openraft` is openraft's part, over
-- whatever state it has; a node's name is its id, and what is kept of it its address. A set of ids is a list.
use conreg.Prelude.{
  ℕ, String, Bool, true, false, List, [], ◌∷◌, Anyhow, ok, err, Result, nat_eq, if◌then◌else◌,
}
use conreg.DashMap
use conreg.DashMap.{DashMap}
use conreg.Protocol.{Res, success, error}
use conreg.Raft.{RaftResponse}
use conreg.Raft.Write.{Cluster, ForwardRequest, RaftError, handle_raft_error}

pub record Openraft (W : Type 0) : Type 0 where
  pub is_initialized : W → Bool
  pub initialize : DashMap ℕ String → W → Anyhow (Unit {0}) × W
  pub add_learner : ℕ → String → W → Result RaftResponse RaftError × W
  pub change_membership : List ℕ → W → Result RaftResponse RaftError × W

-- The loop over the nodes of the request: the last address of an id holds.
unfoldable pub collect : List (ℕ × String) → DashMap ℕ String → DashMap ℕ String
unfolding DashMap.insert
collect [] nodes = nodes
collect ((id, addr) ∷ rest) nodes = collect rest (DashMap.insert id addr nodes)

abbrev pub is_nil : List (ℕ × String) → Bool
is_nil [] = true
is_nil (x ∷ xs) = false

module _ {W : Type 0} (raft : Openraft W) where
  -- `id` and `addr` are this node's.
  unfoldable pub init : ℕ → String → List (ℕ × String) → W → Res String × W
  unfolding collect success error
  init id addr req w =
      if raft.is_initialized w
      then (success "Cluster already initialized, no need to reinitialize", w)
      else (let nodes = if is_nil req then (id, addr) ∷ [] else collect req [] in
          let (res, w') = raft.initialize nodes w in
          elim res [
            | ok _ ↦ (success "Cluster initialization completed", w')
            | err e ↦ (error e, w')
          ])

  module _ (c : Cluster) where
    unfoldable pub add_learner : ℕ × String → W → Res RaftResponse × W
    unfolding handle_raft_error success
    add_learner (node_id, api_addr) w =
        let (res, w') = raft.add_learner node_id api_addr w in
        elim res [
          | ok response ↦ (success response, w')
          | err e ↦ (handle_raft_error c e (ForwardRequest.add_learner node_id api_addr), w')
        ]

    unfoldable pub change_membership : List ℕ → W → Res RaftResponse × W
    unfolding handle_raft_error success
    change_membership ids w =
        let (res, w') = raft.change_membership ids w in
        elim res [
          | ok response ↦ (success response, w')
          | err e ↦ (handle_raft_error c e (ForwardRequest.membership_request ids), w')
        ]
