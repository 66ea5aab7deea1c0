-- ===== src/Raft/Write.antt =====
-- Writing through Raft: the leader commits a request, and any other node forwards it to the leader
-- (conreg-server/src/raft/api/mod.rs and conreg-server/src/raft/api/app.rs). openraft's
-- `client_write` and the HTTP call to the leader are the fields of `Cluster`.
use conreg.Prelude.{
  List, ℕ, String, Option, none, some, concat, Result, ok, err, if◌then◌else◌, ◌≡◌, true,
}
use conreg.Protocol.{Res, success, error, is_success}
use conreg.Raft.{RaftRequest, RaftResponse}

-- The forms of openraft's errors that the program tells apart. A leader is its id and its address.
pub data ClientWriteError : Type 0 where
  forward_to_leader : Option (ℕ × String) → ClientWriteError
  change_membership_error : String → ClientWriteError

pub data RaftError : Type 0 where
  api_error : ClientWriteError → RaftError
  fatal : String → RaftError

pub data ForwardRequest : Type 0 where
  raft_request : RaftRequest → ForwardRequest
  add_learner : ℕ → String → ForwardRequest
  membership_request : List ℕ → ForwardRequest

-- What the HTTP client returns: no response, a body that is no `Res`, or the leader's answer.
pub data Reply : Type 0 where
  unreachable : Reply
  unreadable : Reply
  answered : Res RaftResponse → Reply

pub data Status : Type 0 where
  internal_server_error service_unavailable : Status

pub record Cluster : Type 0 where
  pub client_write : RaftRequest → Result RaftResponse RaftError
  pub post : String → ForwardRequest → Reply
  pub status_text : Status → String

unfoldable pub to_forward_url : String → ForwardRequest → String
to_forward_url leader_addr (ForwardRequest.raft_request r) =
    concat "http://" (concat leader_addr "/api/cluster/write")
to_forward_url leader_addr (ForwardRequest.add_learner id addr) =
    concat "http://" (concat leader_addr "/api/cluster/add-learner")
to_forward_url leader_addr (ForwardRequest.membership_request ids) =
    concat "http://" (concat leader_addr "/api/cluster/change-membership")

module _ (c : Cluster) where
  -- `result.data.unwrap()` has no data only in a response that is no success of `Res::success`: the
  -- model gives `internal_server_error` there, where the program stops.
  unfoldable pub forward_request_to_leader : String → ForwardRequest → Result RaftResponse Status
  unfolding to_forward_url is_success
  forward_request_to_leader leader_addr request =
      elim (c.post (to_forward_url leader_addr request) request) [
        | Reply.unreachable ↦ err Status.service_unavailable
        | Reply.unreadable ↦ err Status.internal_server_error
        | Reply.answered r ↦
            if is_success r
            then elim r.content [ none ↦ err Status.internal_server_error | some x ↦ ok x ]
            else err Status.internal_server_error
      ]

  unfoldable pub handle_raft_error : RaftError → ForwardRequest → Res RaftResponse
  unfolding forward_request_to_leader success error
  handle_raft_error (RaftError.api_error (ClientWriteError.forward_to_leader none)) request =
      error "forward to leader error: no leader"
  handle_raft_error (RaftError.api_error (ClientWriteError.forward_to_leader (some (id, addr))))
        request =
      elim (forward_request_to_leader addr request) [
        | ok result ↦ success result
        | err status ↦ error (c.status_text status)
      ]
  handle_raft_error (RaftError.api_error (ClientWriteError.change_membership_error e)) request =
      error e
  handle_raft_error (RaftError.fatal e) request = error e

  unfoldable pub raft_write : RaftRequest → Res RaftResponse
  unfolding handle_raft_error success
  raft_write req = elim (c.client_write req) [
    | ok response ↦ success response
    | err e ↦ handle_raft_error e (ForwardRequest.raft_request req)
  ]

-- A request was taken by the leader: by this node, or by the one that it was forwarded to.
pub data Committed (c : Cluster) (req : RaftRequest) : RaftResponse → Type 0 where
  here : (x : RaftResponse) → c.client_write req ≡ ok x → Committed c req x
  forwarded :
      (x : RaftResponse) (id : ℕ) (addr : String) (r : Res RaftResponse)
      → c.client_write req
        ≡ err (RaftError.api_error (ClientWriteError.forward_to_leader (some (id, addr))))
      → c.post
          (concat "http://" (concat addr "/api/cluster/write"))
          (ForwardRequest.raft_request req)
        ≡ Reply.answered r
      → is_success r ≡ true
      → r.content ≡ some x
      → Committed c req x
