-- ===== src/Raft/Commit.antt =====
-- When a write succeeds (conreg-server/src/raft/api/app.rs, lines 20 to 29, and
-- conreg-server/src/raft/api/mod.rs).
use conreg.Prelude.{ℕ, ◌↔◌, String, none, some, concat, Result, ok, err, ◌≡◌, refl, arith}
use conreg.Protocol.{success, error, is_success}
use conreg.Raft.{RaftRequest, RaftResponse}
use conreg.Raft.Write.{
  Cluster, RaftError, ClientWriteError, ForwardRequest, Reply, Committed, here, forwarded,
  raft_write, handle_raft_error, forward_request_to_leader, to_forward_url,
}

Committed-raft_write :
    (c : Cluster) (req : RaftRequest) (x : RaftResponse)
    → Committed c req x
    → raft_write c req ≡ success x
unfolding raft_write handle_raft_error forward_request_to_leader to_forward_url
Committed-raft_write c req x (here _ h) = rw (h, raft_write)
Committed-raft_write c req x (forwarded _ id addr r h p s d) = ground arith

forward-cases :
    (c : Cluster) (req : RaftRequest) (id : ℕ) (addr : String) (x : RaftResponse)
    → c.client_write req
      ≡ err (RaftError.api_error (ClientWriteError.forward_to_leader (some (id, addr))))
    → (p : Reply)
    → c.post (concat "http://" (concat addr "/api/cluster/write")) (ForwardRequest.raft_request req)
      ≡ p
    → raft_write c req ≡ success x
    → Committed c req x
unfolding raft_write handle_raft_error forward_request_to_leader to_forward_url success error
forward-cases c req id addr x h Reply.unreachable p e = absurd (ground arith)
forward-cases c req id addr x h Reply.unreadable p e = absurd (ground arith)
forward-cases c req id addr x h (Reply.answered r) p e =
    forwarded x id addr r h p (unfold is_success in ground arith)
      (unfold is_success in ground arith)

raft_write-Committed :
    (c : Cluster) (req : RaftRequest) (x : RaftResponse) (w : Result RaftResponse RaftError)
    → c.client_write req ≡ w
    → raft_write c req ≡ success x
    → Committed c req x
unfolding raft_write handle_raft_error success error
raft_write-Committed c req x (ok y) h e = here x (ground arith)
raft_write-Committed c req x (err (RaftError.fatal m)) h e = absurd (ground arith)
raft_write-Committed c req x
      (err (RaftError.api_error (ClientWriteError.change_membership_error m))) h e =
    absurd (ground arith)
raft_write-Committed c req x (err (RaftError.api_error (ClientWriteError.forward_to_leader none))) h
      e =
    absurd (ground arith)
raft_write-Committed c req x
      (err (RaftError.api_error (ClientWriteError.forward_to_leader (some (id, addr))))) h e =
    forward-cases c req id addr x h _ refl e

-- A write answers success with a response exactly when the leader took the request with that response:
-- this node, or the leader that openraft named, which was reached and answered success. Every other
-- case, no leader known among them, is an error.
pub raft_write_iff :
    (c : Cluster) (req : RaftRequest) (x : RaftResponse)
    → (raft_write c req ≡ success x) ↔ Committed c req x
raft_write_iff c req x =
    (raft_write-Committed c req x (c.client_write req) refl, Committed-raft_write c req x)
