-- ===== src/Cmt/Served.antt =====
-- The tool at a node of the server (conreg-cmt/src/main.rs over conreg-server/src/raft/api/cluster.rs).
use conreg.Prelude.{
  ℕ, String, string_eq, true, false, [], ◌∷◌, ap, ◌∙◌, none, some, List, ◌==◌, ok, concat,
  if◌then◌else◌, ◌≡◌, arith, eq_refl, Bool-cases, inl, inr,
}
use conreg.Client.Network.{Reply}
use conreg.Cmt.Commands.{RaftMetrics, Said, End, init_cluster}
use conreg.Cmt.Http.{Http, cluster_at}
use conreg.DashMap.{DashMap}
use conreg.Protocol.{Res, success}
use conreg.Raft.{RaftResponse}
use conreg.Raft.Membership.{Openraft, init, collect, add_learner, change_membership}
use conreg.Raft.Write
use conreg.Values.{Value}

-- What openraft promises: a node that was initialised is so from then on.
pub record IsLasting {W : Type 0} (raft : Openraft W) : Type 0 where
  pub lasting :
      (nodes : DashMap ℕ String) (w : W)
      → (raft.initialize nodes w).0 ≡ ok tt
      → raft.is_initialized (raft.initialize nodes w).1 ≡ true

-- The routes of the node with the given id and address, at `server`; `to_value` is the JSON of a response.
module _ {W : Type 0} (raft : Openraft W) (c : Write.Cluster) (to_value : RaftResponse → Value)
    (metrics : W → RaftMetrics) (server : String) (id : ℕ) (addr : String) where
  abbrev route : {A : Type 0} → String → String → A × W → A × W → A × W
  route url path answer missing =
      if url == concat "http://" (concat server (concat "/api/cluster" path))
      then answer
      else missing

  abbrev as_json : Res RaftResponse → Res Value
  as_json r = record {
    code = r.code;
    msg = r.msg;
    content = elim r.content [ none ↦ none | some x ↦ some (to_value x) ];
  }

  abbrev answer : {T : Type 0} → Res T × W → Reply T × W
  answer (res, w) = (Reply.answered res, w)

  abbrev answer_json : Res RaftResponse × W → Reply Value × W
  answer_json (res, w) = (Reply.answered (as_json res), w)

  unfoldable pub node_http : Http W
  unfolding init add_learner change_membership success
  node_http = record {
    post_nodes = λ url nodes w.
        route url "/init" (answer (init raft id addr nodes w)) (Reply.refused "404", w);
    post_node = λ url node w.
        route url "/add-learner" (answer_json (add_learner raft c node w)) (Reply.refused "404", w);
    post_ids = λ url ids w.
        route url "/change-membership" (answer_json (change_membership raft c ids w))
          (Reply.refused "404", w);
    get = λ url w. Reply.answered (success (metrics w));
  }

  abbrev init_url : String
  init_url = concat "http://" (concat server "/api/cluster/init")

  there-again :
      (nodes : List (ℕ × String)) (w : W)
      → raft.is_initialized w ≡ true
      → init_cluster (cluster_at node_http server) nodes w
        ≡ (End.said (Said.initialized "Cluster already initialized, no need to reinitialize"), w)
  unfolding init_cluster cluster_at node_http
  there-again nodes w h = ground (arith, h, eq_refl init_url)

  new-there :
      (nodes : List (ℕ × String)) (text : String) (w : W)
      → IsLasting raft
      → raft.is_initialized w ≡ false
      → (init_cluster (cluster_at node_http server) nodes w).0 ≡ End.said (Said.initialized text)
      → raft.is_initialized (init_cluster (cluster_at node_http server) nodes w).1 ≡ true
  unfolding init_cluster cluster_at node_http
  new-there [] text w lasts h said =
      ground (arith, h, eq_refl init_url, lasts.lasting ((id, addr) ∷ []) w)
  new-there (n ∷ nodes) text w lasts h said =
      ground (arith, h, eq_refl init_url, lasts.lasting (collect (n ∷ nodes) []) w)

  -- A cluster whose initialisation was said to be done is not initialised again: whatever nodes are named, the
  -- tool says so, and nothing changes.
  pub init_cluster-again :
      (nodes others : List (ℕ × String)) (text : String) (w : W)
      → IsLasting raft
      → (init_cluster (cluster_at node_http server) nodes w).0 ≡ End.said (Said.initialized text)
      → init_cluster
          (cluster_at node_http server)
          others
          (init_cluster (cluster_at node_http server) nodes w).1
        ≡ (
          End.said (Said.initialized "Cluster already initialized, no need to reinitialize"),
          (init_cluster (cluster_at node_http server) nodes w).1,
        )
  init_cluster-again nodes others text w lasts said = elim (Bool-cases (raft.is_initialized w)) [
    | inl h ↦ there-again others _ (ap (λ r. raft.is_initialized r.1) (there-again nodes w h) ∙ h)
    | inr h ↦ there-again others _ (new-there nodes text w lasts h said)
  ]
