-- ===== src/Cmt/Http.antt =====
-- The tool's requests (conreg-cmt/src/network/mod.rs, and `build_url`, `init_cluster`, `add_learner`,
-- `change_membership` and `get_status` of conreg-cmt/src/main.rs, where they call it). What reqwest makes of a
-- request is a `Reply`; `Http` is the way to a node, over whatever state the cluster has.
use conreg.Prelude.{ℕ, String, Option, List, Anyhow, ok, err, concat, if◌then◌else◌}
use conreg.Client.Network.{Reply}
use conreg.Cmt.Commands.{RaftMetrics, Cluster}
use conreg.Protocol.{is_success}
use conreg.Values.{Value}

-- The end of `Network::get` and `Network::post`.
unfoldable pub receive : {T : Type 0} → Reply T → Anyhow (Option T)
unfolding is_success
receive (Reply.unreachable e) = err e
receive (Reply.refused text) = err text
receive (Reply.unreadable e) = err e
receive (Reply.answered r) = if is_success r then ok r.content else err r.msg

unfoldable pub build_url : String → String → String
build_url server path = concat "http://" (concat server (concat "/api/cluster" path))

-- `post` of the three bodies, and `get`
pub record Http (W : Type 0) : Type 0 where
  pub post_nodes : String → List (ℕ × String) → W → Reply String × W
  pub post_node : String → ℕ × String → W → Reply Value × W
  pub post_ids : String → List ℕ → W → Reply Value × W
  pub get : String → W → Reply RaftMetrics

abbrev done : {T : Type 0} → Anyhow (Option T) → Anyhow (Unit {0})
done (ok x) = ok tt
done (err e) = err e

-- The cluster, as the commands see it through one of its nodes.
unfoldable pub cluster_at : {W : Type 0} → Http W → String → Cluster W
unfolding receive build_url
cluster_at http server = record {
  init = λ nodes w.
      let (reply, w') = http.post_nodes (build_url server "/init") nodes w in (receive reply, w');
  add_learner = λ node w.
      let (reply, w') = http.post_node (build_url server "/add-learner") node w in
      (done (receive reply), w');
  change_membership = λ ids w.
      let (reply, w') = http.post_ids (build_url server "/change-membership") ids w in
      (done (receive reply), w');
  metrics = λ w. receive (http.get (build_url server "/metrics") w);
}
