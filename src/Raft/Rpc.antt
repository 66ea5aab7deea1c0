-- ===== src/Raft/Rpc.antt =====
-- The requests of one node's Raft to another's: the client is conreg-server/src/raft/network/mod.rs, the routes
-- that it calls are conreg-server/src/raft/api/raft.rs. openraft is the argument `handle`, a step of the called
-- node's state; what serde_json writes and reads is a `Serde`, and the tags that it puts on a `Result` are
-- `Tags`. The texts of the errors are dropped.
use conreg.Prelude.{String, Option, none, some, Result, ok, err, concat}

pub record Serde (B A : Type 0) : Type 0 where
  pub write : A → B
  pub read : B → Option A

-- A body that serde makes of a result has a tag, which `tag` finds. `error_page` is the body that Rocket sends
-- with a status that is no success.
pub record Tags (B : Type 0) : Type 0 where
  pub ok_body : B → B
  pub err_body : B → B
  pub tag : B → Option (Result B B)
  pub error_page : B

-- `Unreachable` and `Network` of openraft's `RPCError`; `other` stands for the rest.
pub data RpcError : Type 0 where
  unreachable network other : RpcError

-- What reqwest makes of a request: no connection, another error, or a body.
pub data Sent (B : Type 0) : Type 0 where
  no_connection failed : Sent B
  received : B → Sent B

pub data Status : Type 0 where
  internal_server_error unprocessable_entity : Status

abbrev from_option : {A : Type 0} → Option A → Result A RpcError
from_option none = err RpcError.network
from_option (some a) = ok a

-- The client of one target, whose address is `addr`.
pub record Network : Type 0 where
  pub addr : String

-- The routes: what openraft answers, or a status.
module _ {Req Resp E W : Type 0} (handle : Req → W → Result Resp E × W) where
  abbrev respond : Req → W → Result (Result Resp E) Status × W
  respond req w =
      let (res, w') = handle req w in
      (elim res [ ok response ↦ ok (ok response) | err e ↦ err Status.internal_server_error ], w')

  unfoldable pub vote : Req → W → Result (Result Resp E) Status × W
  vote req w = respond req w

  unfoldable pub append : Req → W → Result (Result Resp E) Status × W
  append req w = respond req w

  unfoldable pub snapshot : Req → W → Result (Result Resp E) Status × W
  snapshot req w = respond req w

module _ {B : Type 0} (tags : Tags B) where
  abbrev pub write_result : {A E : Type 0} → (A → B) → (E → B) → Result A E → B
  write_result f g (ok a) = tags.ok_body (f a)
  write_result f g (err e) = tags.err_body (g e)

  abbrev untag : {A E : Type 0} → (B → Option A) → (B → Option E) → Result B B → Option (Result A E)
  untag f g (ok b) = elim (f b) [ none ↦ none | some a ↦ some (ok a) ]
  untag f g (err b) = elim (g b) [ none ↦ none | some e ↦ some (err e) ]

  abbrev pub read_result :
      {A E : Type 0} → (B → Option A) → (B → Option E) → B → Option (Result A E)
  read_result f g b = elim (tags.tag b) [ none ↦ none | some r ↦ untag f g r ]

  -- `post` sends a body to a URL, and the world goes on from there.
  module _ {W Req : Type 0} (post : String → B → W → Sent B × W) (write : Req → B)
      (n : Network) where
    unfoldable pub request :
        {Resp Err : Type 0}
        → (B → Option Resp)
        → (B → Option Err)
        → String
        → Req
        → W
        → Result (Result Resp Err) RpcError × W
    request f g uri req w =
        let url = concat "http://" (concat n.addr (concat "/api/cluster/" uri)) in
        let (sent, w') = post url (write req) w in
        (
          elim sent [
            | Sent.no_connection ↦ err RpcError.unreachable
            | Sent.failed ↦ err RpcError.network
            | Sent.received body ↦ from_option (read_result f g body)
          ],
          w',
        )

    -- No value is `Infallible`.
    abbrev infallible : B → Option ⊥
    infallible b = none

    abbrev unwrapped : {Resp : Type 0} → Result (Result Resp ⊥) RpcError → Result Resp RpcError
    unwrapped (err e) = err e
    unwrapped (ok (ok response)) = ok response
    unwrapped (ok (err e)) = absurd e

    unfoldable pub append_entries :
        {Resp : Type 0} → (B → Option Resp) → Req → W → Result Resp RpcError × W
    unfolding request
    append_entries f req w =
        let (res, w') = request f infallible "append" req w in (unwrapped res, w')

    unfoldable pub send_vote :
        {Resp : Type 0} → (B → Option Resp) → Req → W → Result Resp RpcError × W
    unfolding request
    send_vote f req w = let (res, w') = request f infallible "vote" req w in (unwrapped res, w')

    abbrev known : RpcError → RpcError
    known RpcError.unreachable = RpcError.unreachable
    known RpcError.network = RpcError.network
    known RpcError.other = RpcError.network

    abbrev flatten :
        {Resp : Type 0} → Result (Result (Result Resp RpcError) ⊥) RpcError → Result Resp RpcError
    flatten (err e) = err (known e)
    flatten (ok (ok response)) = response
    flatten (ok (err e)) = absurd e

    -- What `unwrap` gives is the result of the method, so the body is read as a result in a result.
    unfoldable pub install_snapshot :
        {Resp : Type 0}
        → (B → Option Resp)
        → (B → Option RpcError)
        → Req
        → W
        → Result Resp RpcError × W
    unfolding request
    install_snapshot f g req w =
        let (res, w') = request (read_result f g) infallible "snapshot" req w in (flatten res, w')
