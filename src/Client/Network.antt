-- ===== src/Client/Network.antt =====
-- Requests to the server (conreg-client/src/network/mod.rs). What reqwest returns is a `Reply`: no
-- response, a status other than 200 with its text, a body that is no `Res`, or the server's answer.
use conreg.Prelude.{ℕ, String, none, some, length, get_elem?, concat, if◌then◌else◌, unwrap_or}
use conreg.Client.Conf.{ServerAddr}
use conreg.Protocol.{Res, is_success}
pub use conreg.Run.{Run, and_then, unwrap}

pub data Reply (T : Type 0) : Type 0 where
  unreachable : String → Reply T
  refused : String → Reply T
  unreadable : String → Reply T
  answered : Res T → Reply T

-- The end of `Network::get` and `Network::post`; `fallback` is the type's default.
unfoldable pub receive : {T : Type 0} → T → Reply T → Run T
unfolding is_success
receive fallback (Reply.unreachable e) = Run.failed e
receive fallback (Reply.refused text) = Run.failed text
receive fallback (Reply.unreadable e) = Run.failed e
receive fallback (Reply.answered r) =
    if is_success r then Run.returned (unwrap_or r.content fallback) else Run.failed r.msg

-- `fastrand::usize(0..n)`, which panics where n is 0, is the argument `random`.
unfoldable pub build_url : (ℕ → ℕ) → ServerAddr → String → Run String
build_url random (ServerAddr.single address) path =
    Run.returned (concat "http://" (concat address path))
build_url random (ServerAddr.cluster addresses) path =
    elim (get_elem? addresses (random (length addresses))) [
      | none ↦ Run.panicked
      | some address ↦ Run.returned (concat "http://" (concat address path))
    ]
build_url random ServerAddr.unset path = Run.failed "discovery server address not set"
