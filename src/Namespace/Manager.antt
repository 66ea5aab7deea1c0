-- ===== src/Namespace/Manager.antt =====
-- `NamespaceManager` (conreg-server/src/namespace/server/mod.rs, lines 32 to 267). A namespace is
-- cached when it is read, and leaves the cache when it is written.
use conreg.Prelude.{
  ℕ, String, Bool, true, false, Option, none, some, List, ◌==◌, string_eq, ◌&&◌, if◌then◌else◌, ok,
  err, length, retain, not, contains, is_some,
}
use conreg.DashMap
use conreg.Exec.{Exec, pure, bail, modify, ◌>>=◌, ◌>>◌}
use conreg.Sql.{fetch_optional, update_where, delete_where, insert_row, order_desc, page_of}
use conreg.App.{App, sync}
use conreg.Namespace.Entry.{Namespace}
use conreg.Raft.{RaftRequest}
use conreg.Raft.Write.{Cluster}
use conreg.User.Permission.{allowed_ns}

-- `where id = ?`
abbrev pub has_id : String → Namespace → Bool
has_id id n = n.id == id

unfoldable pub get_namespace : String → Exec App (Option Namespace)
unfolding DashMap.get DashMap.insert
get_namespace id s = elim (DashMap.get id s.namespace_cache) [
  | some namespace ↦ (ok (some namespace), s)
  | none ↦ elim (fetch_optional (has_id id) s.namespace) [
    | none ↦ (ok none, s)
    | some namespace ↦ (
      ok (some namespace),
      record s { namespace_cache = DashMap.insert namespace.id namespace s.namespace_cache },
    )
  ]
]

unfoldable pub exists_namespace : String → Exec App Bool
unfolding get_namespace
exists_namespace id = do namespace ← get_namespace id; pure (is_some namespace)

unfoldable pub evict : String → Exec App (Unit {0})
unfolding DashMap.remove
evict id = modify (λ s. record s { namespace_cache = DashMap.remove id s.namespace_cache })

-- `id varchar(100) primary key`
unfoldable pub insert_namespace_row : Namespace → Exec App (Unit {0})
unfolding insert_row
insert_namespace_row n s = elim (insert_row (λ old new. old.id == new.id) n s.namespace) [
  | none ↦ (err "UNIQUE constraint failed: namespace.id", s)
  | some rows ↦ (ok tt, record s { namespace = rows })
]

unfoldable pub insert_namespace : Namespace → Exec App (Unit {0})
unfolding insert_namespace_row evict
insert_namespace n = do insert_namespace_row n; evict n.id

unfoldable pub renewed : Namespace → Namespace → Namespace
renewed n old = record old {
  name = n.name;
  description = n.description;
  is_auth = n.is_auth;
  auth_token = n.auth_token;
  update_time = n.update_time;
}

unfoldable pub update_namespace : Namespace → Exec App (Unit {0})
unfolding renewed evict
update_namespace n = do
  modify (λ s. record s { namespace = update_where (has_id n.id) (renewed n) s.namespace })
  evict n.id

unfoldable pub write_namespace : Namespace → Option Namespace → Exec App (Unit {0})
unfolding insert_namespace update_namespace
write_namespace n none = insert_namespace n
write_namespace n (some _) = update_namespace n

unfoldable pub upsert_namespace : Namespace → Exec App (Unit {0})
unfolding get_namespace write_namespace
upsert_namespace n = do old ← get_namespace n.id; write_namespace n old

unfoldable pub delete_namespace : String → Exec App (Unit {0})
unfolding evict
delete_namespace id = do
  modify (λ s. record s { config = delete_where (λ e. e.namespace_id == id) s.config })
  modify (λ s. record s { namespace = delete_where (has_id id) s.namespace })
  evict id

module _ (c : Cluster) where
  unfoldable pub upsert_namespace_and_sync :
      ℕ → String → String → Option String → Bool → Option String → Exec App (Unit {0})
  unfolding sync
  upsert_namespace_and_sync now id name description is_auth auth_token =
      sync c "sync namespace error: " (
        RaftRequest.upsert_namespace (record {
          id = id;
          name = name;
          description = description;
          is_auth = is_auth;
          auth_token = auth_token;
          create_time = now;
          update_time = now;
        }))

  unfoldable pub delete_namespace_and_sync : String → Exec App (Unit {0})
  unfolding sync
  delete_namespace_and_sync id =
      if id == "public"
      then bail "public is the system's default reserved namespace and cannot be deleted."
      else sync c "sync namespace error: " (RaftRequest.delete_namespace id)

-- `as_deref() != auth_token` on the tokens
abbrev pub same_token : Option String → Option String → Bool
same_token none none = true
same_token (some a) (some b) = a == b
same_token none (some b) = false
same_token (some a) none = false

unfoldable pub passes : Option String → Option Namespace → Bool
passes auth_token none = true
passes auth_token (some n) =
    if n.is_auth && not (same_token n.auth_token auth_token) then false else true

unfoldable pub auth : String → Option String → Exec App Bool
unfolding get_namespace passes
auth namespace_id auth_token = do
  namespace ← get_namespace namespace_id
  pure (passes auth_token namespace)

-- `list_namespace_with_page`, newest first. Who is no administrator sees the namespaces that a
-- permission names.
unfoldable pub list_namespace_with_page : ℕ → ℕ → Bool → List String → App → ℕ × List Namespace
unfolding order_desc page_of allowed_ns
list_namespace_with_page page_num page_size true permissions s =
    (length s.namespace, page_of page_num page_size (order_desc (λ n. n.create_time) s.namespace))
list_namespace_with_page page_num page_size false permissions s =
    let rows = retain (λ n. contains (allowed_ns permissions) n.id) s.namespace in
    (length rows, page_of page_num page_size (order_desc (λ n. n.create_time) rows))
