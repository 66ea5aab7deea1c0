-- ===== src/Tests/User.antt =====
-- Runs of the users, their sessions and the nodes' cache (conreg-server/src/system/user/mod.rs,
-- conreg-server/src/auth/mod.rs, conreg-server/src/cache/mod.rs).
use conreg.Prelude.{String, Option, ok, err, ◌≡◌, refl, arith, none, some, [], ◌∷◌, string_eq}
use conreg.App.{App}
use conreg.Auth.Guard.{Outcome, require_login}
use conreg.Auth.Session.{session, require_login-login}
use conreg.Cache.Global.{Serde, set_and_sync, get}
use conreg.Cache.Local.{Codec}
use conreg.Cache.Shared.{get-set_and_sync}
use conreg.Event.{handle_raft_request}
use conreg.Event.Frame.{Part, SamePart, touches, handle_raft_request-touches}
use conreg.Raft.{RaftRequest}
use conreg.User.Manager.{login}
use conreg.Values.{Value}
use conreg.User.Entry.{User}
use conreg.Tests.Node.{empty, leader, library}

abbrev admin : User
admin = record { username = "conreg"; password = "hash"; permissions = some "[]"; create_time = 1 }

abbrev alice : User
alice = record { username = "alice"; password = "hash"; permissions = none; create_time = 2 }

abbrev staffed : App
staffed = record empty { user = admin ∷ alice ∷ [] }

abbrev texts : Serde String
texts = record {
  to_value = λ text. ok (Value.string text);
  from_value = λ v. elim v [ Value.string text ↦ ok text | _ ↦ err "invalid type" ];
}

abbrev codec : Codec
codec = record { to_vec = λ e. "{}"; from_slice = λ bytes. none }

-- The name in a cached value, and a value for a name.
abbrev user_of : Value → Option String
user_of (Value.string name) = some name
user_of _ = none

-- Alice logs in on one node; the token is asked for on another, a day after it has handled the request.
require_login-login_example :
    ((login library leader "token" "alice" "pw" staffed).1.submitted
      ≡ session library "token" "alice" ∷ [])
    × ((require_login codec user_of 86_500
          (some "token")
          (handle_raft_request library (λ m. "{}") 100 (session library "token" "alice") empty)).0
        ≡ Outcome.success (record { username = "alice"; token = "token" }))
unfolding login
require_login-login_example =
    require_login-login library (λ m. "{}") codec user_of leader "token" "alice" "pw" "alice" [] 100
      86_500 staffed empty refl refl (omega arith) (omega arith)

get-set_and_sync_example :
    ((set_and_sync texts leader "motd" "hello" (some 60) empty).1.submitted
      ≡ RaftRequest.cache_write "motd" (Value.string "hello") (some 60) ∷ [])
    × ((get codec 130 texts "motd" (
          some
            (handle_raft_request library
              (λ m. "{}")
              100
              (RaftRequest.cache_write "motd" (Value.string "hello") (some 60))
              empty).cache)).0
        ≡ ok (some "hello"))
get-set_and_sync_example =
    get-set_and_sync codec library (λ m. "{}") texts leader "motd" "hello" (Value.string "hello") 60
      100 130 empty empty refl refl (omega arith) (omega arith) (omega arith)

handle_raft_request-touches_example :
    SamePart Part.users staffed
      (handle_raft_request library (λ m. "{}") 5 (RaftRequest.delete_namespace "public") staffed)
unfolding touches
handle_raft_request-touches_example =
    handle_raft_request-touches library (λ m. "{}") 5 (RaftRequest.delete_namespace "public")
      Part.users staffed refl
