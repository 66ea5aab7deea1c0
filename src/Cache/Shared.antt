-- ===== src/Cache/Shared.antt =====
-- An entry that all nodes are to have (conreg-server/src/cache/mod.rs, over conreg-server/src/event/mod.rs).
use conreg.Prelude.{
  ℕ, ◌+◌, ◌≤◌, ◌<◌, String, none, some, ◌∷◌, [], ◌++◌, ok, if◌then◌else◌, ltb, ◌≡◌, arith,
}
use conreg.Prelude.Int.{two_63}
use conreg.App.{App}
use conreg.Cache.Expiry.{get-insert}
use conreg.Cache.Global.{Serde, set_and_sync, get}
use conreg.Cache.Local.{Codec}
use conreg.DashMap.{DashMap}
use conreg.Event.{handle_raft_request}
use conreg.Raft.{RaftRequest}
use conreg.Raft.Write.{Cluster}
use conreg.User.Manager.{Library}
use conreg.Values.{Value}

module _ (codec : Codec) (lib : Library) (to_json : DashMap String String → String) where
  -- What every node finds under a key whose write was handed on. A value that serde_json writes and reads
  -- back is handed to the nodes as one request; a node that handles it finds the value from then on for its
  -- time to live, counted from the handling, and nothing after that, whatever its cache held before.
  pub get-set_and_sync :
      {T : Type 0} (serde : Serde T) (c : Cluster) (key : String) (x : T) (v : Value)
      (t now later : ℕ) (s n : App)
      → serde.to_value x ≡ ok v
      → serde.from_value v ≡ ok x
      → now ≤ later
      → later < two_63
      → t < two_63
      → ((set_and_sync serde c key x (some t) s).1.submitted
          ≡ s.submitted ++ (RaftRequest.cache_write key v (some t) ∷ []))
        × ((get codec later serde key (
              some
                (handle_raft_request lib to_json now
                  (RaftRequest.cache_write key v (some t))
                  n).cache)).0
            ≡ ok (if ltb later (now + t) then some x else none))
  unfolding set_and_sync get handle_raft_request
  get-set_and_sync serde c key x v t now later s n written back a b d = (
    ground (arith, written),
    ground (arith, back, (get-insert codec now later t key v n.cache a b d).0),
  )
