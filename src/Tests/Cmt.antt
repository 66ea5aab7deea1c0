-- ===== src/Tests/Cmt.antt =====
-- A run of the commands (conreg-cmt/src/main.rs) on a cluster that keeps the list of its members.
use conreg.Prelude.{
  Bool, true, false, arith, to_string, All, ℕ, List, some, none, [], ◌∷◌, ok, ◌≡◌, refl, nat_eq,
}
use conreg.Cmt.Http.{Http, cluster_at}
use conreg.Cmt.Node.{parse_node}
use conreg.Cmt.Nodes.{parse_node-written}
use conreg.Cmt.Served.{node_http, init_cluster-again}
use conreg.Cmt.Status.{print_status}
use conreg.Cmt.Widths.{print_status-Wide}
use conreg.Prelude.Text.{size}
use conreg.Raft.Membership.{Openraft}
use conreg.Values.{Value}
use conreg.Tests.Node.{leader}
use conreg.Cmt.Commands.{Said, End, init_cluster, RaftMetrics, Cluster, promote_nodes, remove_node}
use conreg.Cmt.Members.{IsKept, is_member, remove_node-promote_nodes}

abbrev idle : RaftMetrics
idle = record {
  id = 1;
  current_term = 1;
  last_log_index = some 4;
  last_applied = none;
  state = "Leader";
  current_leader = some 1;
  millis_since_quorum_ack = none;
  configs = [];
  nodes = ("1", "127.0.0.1:8000") ∷ [];
  replication = none;
}

abbrev cluster : Cluster (List ℕ)
cluster = record {
  init = λ nodes w. (ok (some "Cluster initialization completed"), w);
  add_learner = λ node w. (ok tt, w);
  change_membership = λ ids w. (ok tt, ids);
  metrics = λ w. ok (some (record idle { configs = w ∷ [] }));
}

IsKept-cluster : IsKept cluster
IsKept-cluster = record { kept = λ ids w h. (record idle { configs = ids ∷ [] }, refl, λ x. refl) }

remove_node-promote_nodes_example :
    is_member cluster (remove_node cluster 3 (promote_nodes cluster (3 ∷ []) (1 ∷ 2 ∷ [])).1).1 2
    ≡ is_member cluster (1 ∷ 2 ∷ []) 2
unfolding promote_nodes remove_node
remove_node-promote_nodes_example =
    remove_node-promote_nodes cluster (1 ∷ 2 ∷ []) 3 2 IsKept-cluster refl refl

parse_node-written_example : parse_node "12=10.0.0.1:8000" ≡ ok (12, "10.0.0.1:8000")
unfolding to_string
parse_node-written_example = parse_node-written 12 "10.0.0.1:8000" (omega arith) refl

print_status-Wide_example : All (λ l. size l ≡ 66) (print_status idle)
print_status-Wide_example = print_status-Wide idle (record {
  id = omega arith;
  term = omega arith;
  last = omega arith;
  applied = omega arith;
  leader = omega arith;
  delay = omega arith;
  state = omega arith;
  nodes = ((refl, omega arith), tt);
  replication = tt;
})

-- openraft of a node that keeps whether it was initialised.
abbrev openraft : Openraft Bool
openraft = record {
  is_initialized = λ w. w;
  initialize = λ nodes w. (ok tt, true);
  add_learner = λ id addr w. (ok (record { value = none }), w);
  change_membership = λ ids w. (ok (record { value = none }), w);
}

abbrev served : Http Bool
unfolding node_http
served = node_http openraft leader (λ r. Value.null) (λ w. idle) "127.0.0.1:8000" 1 "127.0.0.1:8000"

init_cluster-again_example :
    init_cluster (cluster_at served "127.0.0.1:8000") ((2, "10.0.0.2:8000") ∷ []) true
    ≡ (End.said (Said.initialized "Cluster already initialized, no need to reinitialize"), true)
unfolding served init_cluster cluster_at
init_cluster-again_example =
    init_cluster-again openraft leader (λ r. Value.null) (λ w. idle) "127.0.0.1:8000" 1
      "127.0.0.1:8000" [] ((2, "10.0.0.2:8000") ∷ []) "Cluster initialization completed" false
      (record { lasting = λ nodes w h. refl }) refl
