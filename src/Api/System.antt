-- ===== src/Api/System.antt =====
-- The routes of the users (conreg-server/src/system/api.rs).
use conreg.Prelude.{ℕ, String, Option, List, if◌then◌else◌}
use conreg.App.{App}
use conreg.Api.Namespace.{is_admin}
use conreg.Api.Reply.{Server, PageRes, page, respond}
use conreg.Auth.Guard.{UserPrincipal}
use conreg.Protocol.{Res, success, error}
use conreg.User.Manager
use conreg.User.Manager.{get_user_permissions}

-- A name, the permissions, and the time of creation.
abbrev pub UserInfo : Type 0
UserInfo = String × Option (List String) × ℕ

module _ (server : Server) where
  unfoldable pub login : String → String → String → App → Res (String × String × List String) × App
  unfolding Manager.login
  login token username password s =
      respond (Manager.login server.library server.cluster token username password s)

  unfoldable pub update_password : String → UserPrincipal → App → Res (Unit {0}) × App
  unfolding Manager.update_password
  update_password password user s =
      respond (Manager.update_password server.library password user.username s)

  unfoldable pub logout : UserPrincipal → App → Res (Unit {0}) × App
  unfolding Manager.logout
  logout user s = respond (Manager.logout server.library user.token s)

  unfoldable pub user_list : ℕ → ℕ → UserPrincipal → App → Res (PageRes UserInfo) × App
  unfolding success error page Manager.list_users
  user_list page_num page_size user s =
      if is_admin user
      then (
        success (page page_num page_size (Manager.list_users server.library page_num page_size s)),
        s,
      )
      else (error "No permission", s)

  unfoldable pub user_create : String → String → UserPrincipal → App → Res (Unit {0}) × App
  unfolding error Manager.create_user_and_sync
  user_create username password user s =
      if is_admin user
      then respond (Manager.create_user_and_sync server.library server.cluster username password s)
      else (error "No permission", s)

  unfoldable pub user_delete : String → UserPrincipal → App → Res (Unit {0}) × App
  unfolding error Manager.delete_user_and_sync
  user_delete username user s =
      if is_admin user
      then respond (Manager.delete_user_and_sync server.library server.cluster username s)
      else (error "No permission", s)

  unfoldable pub user_update :
      String → Option String → Option (List String) → UserPrincipal → App → Res (Unit {0}) × App
  unfolding error Manager.update_user_and_sync
  user_update username password permissions user s =
      if is_admin user
      then respond (
          Manager.update_user_and_sync server.library server.cluster username password permissions
            s)
      else (error "No permission", s)

  unfoldable pub get_permissions : UserPrincipal → App → Res (List String)
  unfolding success get_user_permissions
  get_permissions user s = success (get_user_permissions server.library user.username s)
