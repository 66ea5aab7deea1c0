-- ===== src/User/Manager.antt =====
-- Users (conreg-server/src/system/user/mod.rs). bcrypt, serde_json and uuid are the fields of
-- `Library`: a hash may fail, and a text may be no JSON list. `principal` is the JSON of a logged-in
-- user, which leaves the token out.
use conreg.Prelude.{
  ℕ, String, Bool, true, false, Option, none, some, List, [], ◌∷◌, ◌==◌, string_eq, nat_eq,
  if◌then◌else◌, ok, err, length, contains, concat, unwrap_or, map,
}
use conreg.App.{App, sync}
use conreg.Cache.Local
use conreg.Exec.{Exec, pure, bail, context, modify, gets, ◌>>=◌, ◌>>◌}
use conreg.Raft.{RaftRequest}
use conreg.Raft.Write.{Cluster}
use conreg.Sql.{fetch_optional, update_where, delete_where, insert_row, order_desc, page_of}
use conreg.User.Entry.{User}
use conreg.User.Permission.{UserPermission, to_text, append, clean}
use conreg.Values.{Value}

pub record Library : Type 0 where
  pub hash : String → Option String
  pub verify : String → String → Bool
  pub to_json : List String → String
  pub from_json : String → Option (List String)
  pub principal : String → Value

abbrev pub admin_username : String
admin_username = "conreg"

-- `where username = ?`
abbrev pub named : String → User → Bool
named username u = u.username == username

unfoldable pub get_user : String → App → Option User
get_user username s = fetch_optional (named username) s.user

-- `if get_user(…).is_some() { bail! }` and its opposite
unfoldable pub require_absent : String → Exec App (Unit {0})
unfolding get_user
require_absent username s = elim (get_user username s) [
  | none ↦ (ok tt, s)
  | some u ↦ (err "user already exists", s)
]

unfoldable pub require_user : String → String → Exec App User
unfolding get_user
require_user message username s = elim (get_user username s) [
  | none ↦ (err message, s)
  | some u ↦ (ok u, s)
]

-- The console's cache key of a token.
abbrev pub token_key : String → String
token_key token = concat "oag:user:token:" token

module _ (lib : Library) where
  unfoldable pub get_user_permissions : String → App → List String
  unfolding get_user
  get_user_permissions username s = elim (get_user username s) [
    | none ↦ []
    | some u ↦ elim u.permissions [ none ↦ [] | some json ↦ unwrap_or (lib.from_json json) [] ]
  ]

  unfoldable pub insert_user_row : ℕ → String → String → Exec App (Unit {0})
  unfolding insert_row to_text
  insert_user_row now username password s =
      elim (insert_row (λ old new. old.username == new.username)
        (record {
          username = username;
          password = password;
          permissions = some (lib.to_json (to_text UserPermission.read_write_public_ns ∷ []));
          create_time = now;
        })
        s.user) [
          | none ↦ (err "UNIQUE constraint failed: user.username", s)
          | some rows ↦ (ok tt, record s { user = rows })
        ]

  unfoldable pub create_user : ℕ → String → String → Exec App (Unit {0})
  unfolding require_absent insert_user_row
  create_user now username password = do
    require_absent username
    insert_user_row now username password

  unfoldable pub update_user : String → Option String → Option (List String) → Exec App (Unit {0})
  update_user username password permissions = do
    modify (λ s. elim password [
      | none ↦ s
      | some p ↦ record s {
        user = update_where (named username) (λ u. record u { password = p }) s.user;
      }
    ])
    modify (λ s. elim permissions [
      | none ↦ s
      | some ps ↦ record s {
        user =
            update_where (named username) (λ u. record u { permissions = some (lib.to_json ps) })
              s.user;
      }
    ])

  unfoldable pub delete_user : String → Exec App (Unit {0})
  delete_user username = modify (λ s. record s { user = delete_where (named username) s.user })

  -- Only on the node that the console talks to.
  unfoldable pub update_password : String → String → Exec App (Unit {0})
  unfolding require_user
  update_password password username = do
    u ← require_user "User not found" username
    hashed ← context (lib.hash password) "bcrypt error"
    modify (λ s. record s {
      user = update_where (named u.username) (λ r. record r { password = hashed }) s.user;
    })

  unfoldable pub logout : String → Exec App (Unit {0})
  unfolding Local.remove
  logout token = modify (λ s. record s { cache = Local.remove (token_key token) s.cache })

  -- The user's permissions, if they stand in the row as JSON.
  unfoldable pub list_users : ℕ → ℕ → App → ℕ × List (String × Option (List String) × ℕ)
  unfolding order_desc page_of
  list_users page_num page_size s = (
    length s.user,
    map
        (λ u. (
          u.username,
          elim u.permissions [ none ↦ none | some json ↦ lib.from_json json ],
          u.create_time,
        ))
        (page_of page_num page_size (order_desc (λ u. u.create_time) s.user)),
  )

  -- A namespace permission is looked for as it is written; the administrator has them all.
  unfoldable pub check_ns_permission : String → UserPermission → App → Bool
  unfolding get_user_permissions to_text
  check_ns_permission username permission s =
      if username == admin_username
      then true
      else contains (get_user_permissions username s) (to_text permission)

  module _ (c : Cluster) where
    unfoldable pub open_session : String → User → Bool → Exec App (String × String × List String)
    unfolding sync
    open_session token u false = bail "Username or password is incorrect"
    open_session token u true = do
      sync c "Failed to set cache: "
          (RaftRequest.cache_write (token_key token) (lib.principal u.username) (some 604800))
      pure (
        u.username,
        token,
        elim u.permissions [ none ↦ [] | some json ↦ unwrap_or (lib.from_json json) [] ],
      )

    -- `token` is a fresh uuid. The answer is the user's name, the token and the permissions.
    unfoldable pub login : String → String → String → Exec App (String × String × List String)
    unfolding require_user open_session
    login token username password = do
      u ← require_user "Username or password is incorrect" username
      open_session token u (lib.verify password u.password)

    unfoldable pub create_user_and_sync : String → String → Exec App (Unit {0})
    unfolding require_absent sync
    create_user_and_sync username password = do
      require_absent username
      hashed ← context (lib.hash password) "bcrypt error"
      sync c "sync user info error: " (RaftRequest.create_user username hashed)

    -- The new password's hash, if a password came.
    unfoldable pub hashed_if : Option String → Exec App (Option String)
    hashed_if none = pure none
    hashed_if (some p) = do h ← context (lib.hash p) "bcrypt error"; pure (some h)

    unfoldable pub update_user_and_sync :
        String → Option String → Option (List String) → Exec App (Unit {0})
    unfolding require_user hashed_if sync
    update_user_and_sync username password permissions =
        if username == admin_username
        then bail "conreg is a built-in system user and cannot be updated"
        else (do
          u ← require_user "user not found" username
          hashed ← hashed_if password
          sync c "sync user info error: " (RaftRequest.update_user username hashed permissions))

    unfoldable pub delete_user_and_sync : String → Exec App (Unit {0})
    unfolding require_user sync
    delete_user_and_sync username =
        if username == admin_username
        then bail "conreg is a built-in system user and cannot be deleted"
        else (do
          u ← require_user "user not found" username
          sync c "sync user info error: " (RaftRequest.delete_user username))

    unfoldable pub append_user_permissions_and_sync : String → List String → Exec App (Unit {0})
    unfolding get_user_permissions append sync
    append_user_permissions_and_sync username new_permissions = do
      perms ← gets (get_user_permissions username)
      sync c "sync user info error: "
          (RaftRequest.update_user username none (some (append perms new_permissions)))

    -- The loop over the users: a request for each whose list gets shorter, until one fails.
    unfoldable pub clean_users : String → List User → Exec App (Unit {0})
    unfolding clean sync
    clean_users namespace_id [] = pure tt
    clean_users namespace_id (u ∷ us) =
        let rest = clean_users namespace_id us in
        let perms : List String = elim u.permissions [
          | none ↦ []
          | some json ↦ unwrap_or (lib.from_json json) []
        ] in
        let kept = clean namespace_id perms in
        if nat_eq.beq (length kept) (length perms) then rest else (do
          sync c "sync user info error: " (RaftRequest.update_user u.username none (some kept))
          rest)

    unfoldable pub clean_ns_permissions_and_sync : String → Exec App (Unit {0})
    unfolding clean_users
    clean_ns_permissions_and_sync namespace_id = do
      users ← gets (λ s. s.user)
      clean_users namespace_id users
