-- ===== src/Auth/Session.antt =====
-- How long a login lasts (conreg-server/src/auth/mod.rs, lines 22 to 62, over
-- conreg-server/src/system/user/mod.rs and conreg-server/src/event/mod.rs).
use conreg.Prelude.{
  ℕ, ◌+◌, ◌≤◌, ◌<◌, String, Option, some, List, ◌∷◌, [], ◌++◌, ok, if◌then◌else◌, ltb, ◌≡◌, arith,
  Option-cases, inl, inr,
}
use conreg.Prelude.Int.{two_63}
use conreg.App.{App, sync}
use conreg.Auth.Guard.{Status, Outcome, require_login}
use conreg.Cache.Expiry.{get-insert}
use conreg.Cache.Local.{Codec}
use conreg.DashMap.{DashMap}
use conreg.Event.{handle_raft_request}
use conreg.Raft.{RaftRequest}
use conreg.Raft.Write.{Cluster}
use conreg.User.Manager.{Library, get_user, login, token_key}
use conreg.Values.{Value}

abbrev pub a_week : ℕ
a_week = 604_800

-- The entry of a session.
abbrev pub session : Library → String → String → RaftRequest
session lib token name =
    RaftRequest.cache_write (token_key token) (lib.principal name) (some a_week)

module _ (lib : Library) (to_json : DashMap String String → String) (codec : Codec)
    (from_value : Value → Option String) where
  -- A login that succeeds hands the nodes one session. On every node that handles it, whatever the node's state
  -- is, the token stands for the user who logged in until a week after the handling, and is refused from
  -- then on.
  pub require_login-login :
      (c : Cluster) (token username password name : String) (permissions : List String)
      (now later : ℕ) (s n : App)
      → (login lib c token username password s).0 ≡ ok (name, token, permissions)
      → from_value (lib.principal name) ≡ some name
      → now ≤ later
      → later < two_63
      → ((login lib c token username password s).1.submitted
          ≡ s.submitted ++ (session lib token name ∷ []))
        × ((require_login codec from_value later
              (some token)
              (handle_raft_request lib to_json now (session lib token name) n)).0
            ≡ (if ltb later (now + a_week)
                then Outcome.success (record { username = name; token = token })
                else Outcome.error Status.unauthorized))
  unfolding login sync require_login handle_raft_request
  require_login-login c token username password name permissions now later s n h back a b = (
    elim (Option-cases (get_user username s)) [
      | inl e ↦ absurd (ground arith)
      | inr (u, e) ↦ ground arith
    ],
    ground (
      arith,
      back,
      (get-insert codec now later a_week (token_key token) (lib.principal name) n.cache a b
          (omega arith)).0,
    ),
  )
