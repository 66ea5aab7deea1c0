-- ===== src/Api/Namespace.antt =====
-- The routes of the namespaces (conreg-server/src/namespace/server/api.rs). A user's right to write a
-- namespace is looked at behind the submission of the change.
use conreg.Prelude.{
  ℕ, String, Bool, Option, [], ◌∷◌, ok, err, concat, ◌==◌, string_eq, ◌&&◌, not, if◌then◌else◌,
}
use conreg.App.{App}
use conreg.Api.Reply.{Server, PageRes, page}
use conreg.Auth.Guard.{UserPrincipal}
use conreg.Namespace.Entry.{Namespace}
use conreg.Namespace.Manager.{
  exists_namespace, upsert_namespace_and_sync, delete_namespace_and_sync, list_namespace_with_page,
}
use conreg.Protocol.{Res, success, error}
use conreg.User.Manager.{
  admin_username, get_user_permissions, check_ns_permission, append_user_permissions_and_sync,
  clean_ns_permissions_and_sync,
}
use conreg.User.Permission.{UserPermission}

-- `UserPrincipal::is_admin`
abbrev pub is_admin : UserPrincipal → Bool
is_admin user = user.username == admin_username

pub record UpsertNamespaceReq : Type 0 where
  pub id : String
  pub name : String
  pub description : Option String
  pub is_auth : Bool
  pub auth_token : Option String

module _ (server : Server) where
  -- The end of `upsert`, once the change is submitted.
  unfoldable pub grant : Bool → UpsertNamespaceReq → UserPrincipal → App → Res (Unit {0}) × App
  unfolding append_user_permissions_and_sync check_ns_permission success error
  grant existed req user s =
      if not existed && not (is_admin user)
      then (let (granted, s') =
            append_user_permissions_and_sync server.library server.cluster user.username
              (concat "rw:ns:" req.id ∷ []) s in
          elim granted [
            | ok _ ↦ (success tt, s')
            | err e ↦ (error (concat "namespace created, but failed to grant permission: " e), s')
          ])
      else if check_ns_permission server.library user.username (UserPermission.read_write_ns req.id)
          s
      then (success tt, s)
      else (error "no permission", s)

  unfoldable pub submit : ℕ → Bool → UpsertNamespaceReq → UserPrincipal → App → Res (Unit {0}) × App
  unfolding upsert_namespace_and_sync grant error
  submit now existed req user s =
      let (submitted, s') =
        upsert_namespace_and_sync server.cluster now req.id req.name req.description req.is_auth
          req.auth_token s in
      elim submitted [ ok _ ↦ grant existed req user s' | err e ↦ (error e, s') ]

  unfoldable pub upsert : ℕ → UpsertNamespaceReq → UserPrincipal → App → Res (Unit {0}) × App
  unfolding exists_namespace submit error
  upsert now req user s =
      let (existed, s') = exists_namespace req.id s in
      elim existed [ ok b ↦ submit now b req user s' | err e ↦ (error e, s') ]

  unfoldable pub clean_up : String → App → Res (Unit {0}) × App
  unfolding clean_ns_permissions_and_sync success error
  clean_up id s =
      let (cleaned, s') = clean_ns_permissions_and_sync server.library server.cluster id s in
      elim cleaned [ ok _ ↦ (success tt, s') | err e ↦ (error e, s') ]

  unfoldable pub delete : String → App → Res (Unit {0}) × App
  unfolding delete_namespace_and_sync clean_up error
  delete id s =
      let (deleted, s') = delete_namespace_and_sync server.cluster id s in
      elim deleted [ ok _ ↦ clean_up id s' | err e ↦ (error e, s') ]

  unfoldable pub list : ℕ → ℕ → UserPrincipal → App → Res (PageRes Namespace)
  unfolding success page list_namespace_with_page get_user_permissions
  list page_num page_size user s = success (
      page page_num page_size (
        list_namespace_with_page page_num page_size (is_admin user)
          (get_user_permissions server.library user.username s) s))
