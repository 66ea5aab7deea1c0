-- ===== src/Event/Frame.antt =====
-- Which part of a node a committed request can change (conreg-server/src/event/mod.rs).
use conreg.Prelude.{ℕ, String, Bool, true, false, ◌||◌, List, Option, ◌≡◌, refl, arith}
use conreg.App.{App}
use conreg.Config.Entry.{ConfigEntry}
use conreg.Config.Manager.{insert_config, update_config, delete_config}
use conreg.DashMap.{DashMap}
use conreg.Discovery.Instance.{ServiceInstance}
use conreg.Discovery.Manager
use conreg.Discovery.Service.{Service}
use conreg.Event.{handle_raft_request}
use conreg.Namespace.Entry.{Namespace}
use conreg.Namespace.Manager.{upsert_namespace, delete_namespace}
use conreg.Raft.{RaftRequest}
use conreg.Cache.Local
use conreg.Values.{Value}
use conreg.User.Manager.{Library, create_user, update_user, delete_user}

-- The parts of a node's state, each with what belongs to it.
pub data Part : Type 0 where
  configs namespaces services users cached : Part

abbrev pub SamePart : Part → App → App → Type 0
SamePart Part.configs s t =
    (t.config ≡ s.config)
    × (t.config_history ≡ s.config_history)
    × (t.config_cache ≡ s.config_cache)
    × (t.changes ≡ s.changes)
SamePart Part.namespaces s t = (t.namespace ≡ s.namespace) × (t.namespace_cache ≡ s.namespace_cache)
SamePart Part.services s t = (t.service ≡ s.service) × (t.discoveries ≡ s.discoveries)
SamePart Part.users s t = t.user ≡ s.user
SamePart Part.cached s t = t.cache ≡ s.cache

abbrev pub is_configs : Part → Bool
is_configs Part.configs = true
is_configs _ = false

abbrev pub is_namespaces : Part → Bool
is_namespaces Part.namespaces = true
is_namespaces _ = false

abbrev pub is_services : Part → Bool
is_services Part.services = true
is_services _ = false

abbrev pub is_users : Part → Bool
is_users Part.users = true
is_users _ = false

abbrev pub is_cached : Part → Bool
is_cached Part.cached = true
is_cached _ = false

-- What a request is about. Only the deletion of a namespace is about two parts.
unfoldable pub touches : RaftRequest → Part → Bool
touches (RaftRequest.set k v) p = false
touches (RaftRequest.delete k) p = false
touches (RaftRequest.set_config e) p = is_configs p
touches (RaftRequest.update_config e) p = is_configs p
touches (RaftRequest.delete_config n i) p = is_configs p
touches (RaftRequest.upsert_namespace n) p = is_namespaces p
touches (RaftRequest.delete_namespace n) p = is_namespaces p || is_configs p
touches (RaftRequest.register_service v) p = is_services p
touches (RaftRequest.deregister_service n v) p = is_services p
touches (RaftRequest.register_service_instance n i) p = is_services p
touches (RaftRequest.deregister_service_instance n v i) p = is_services p
touches (RaftRequest.heartbeat n v i) p = is_services p
touches (RaftRequest.cache_write k v t) p = is_cached p
touches (RaftRequest.create_user u w) p = is_users p
touches (RaftRequest.delete_user u) p = is_users p
touches (RaftRequest.update_user u w r) p = is_users p

-- All parts but the one that a test names are the same.
abbrev Others : (Part → Bool) → App → App → Type 0
Others mine s t = (p : Part) → mine p ≡ false → SamePart p s t

insert_config-Others : (e : ConfigEntry) (s : App) → Others is_configs s (insert_config e s).1
unfolding insert_config
insert_config-Others e s Part.configs h = ground arith
insert_config-Others e s Part.namespaces h = ground arith
insert_config-Others e s Part.services h = ground arith
insert_config-Others e s Part.users h = ground arith
insert_config-Others e s Part.cached h = ground arith

update_config-Others : (e : ConfigEntry) (s : App) → Others is_configs s (update_config e s).1
unfolding update_config
update_config-Others e s Part.configs h = ground arith
update_config-Others e s Part.namespaces h = ground arith
update_config-Others e s Part.services h = ground arith
update_config-Others e s Part.users h = ground arith
update_config-Others e s Part.cached h = ground arith

delete_config-Others : (n i : String) (s : App) → Others is_configs s (delete_config n i s).1
unfolding delete_config
delete_config-Others n i s Part.configs h = ground arith
delete_config-Others n i s Part.namespaces h = ground arith
delete_config-Others n i s Part.services h = ground arith
delete_config-Others n i s Part.users h = ground arith
delete_config-Others n i s Part.cached h = ground arith

upsert_namespace-Others :
    (n : Namespace) (s : App) → Others is_namespaces s (upsert_namespace n s).1
unfolding upsert_namespace
upsert_namespace-Others n s Part.configs h = ground arith
upsert_namespace-Others n s Part.namespaces h = ground arith
upsert_namespace-Others n s Part.services h = ground arith
upsert_namespace-Others n s Part.users h = ground arith
upsert_namespace-Others n s Part.cached h = ground arith

delete_namespace-Others :
    (n : String) (s : App)
    → Others (λ p. is_namespaces p || is_configs p) s (delete_namespace n s).1
unfolding delete_namespace
delete_namespace-Others n s Part.configs h = ground arith
delete_namespace-Others n s Part.namespaces h = ground arith
delete_namespace-Others n s Part.services h = ground arith
delete_namespace-Others n s Part.users h = ground arith
delete_namespace-Others n s Part.cached h = ground arith

register_service-Others :
    (f : DashMap String String → String) (now : ℕ) (v : Service) (s : App)
    → Others is_services s (Manager.register_service f now v s).1
unfolding Manager.register_service
register_service-Others f now v s Part.configs h = ground arith
register_service-Others f now v s Part.namespaces h = ground arith
register_service-Others f now v s Part.services h = ground arith
register_service-Others f now v s Part.users h = ground arith
register_service-Others f now v s Part.cached h = ground arith

deregister_service-Others :
    (n v : String) (s : App) → Others is_services s (Manager.deregister_service n v s).1
unfolding Manager.deregister_service
deregister_service-Others n v s Part.configs h = ground arith
deregister_service-Others n v s Part.namespaces h = ground arith
deregister_service-Others n v s Part.services h = ground arith
deregister_service-Others n v s Part.users h = ground arith
deregister_service-Others n v s Part.cached h = ground arith

register_service_instance-Others :
    (f : DashMap String String → String) (now : ℕ) (n : String) (i : ServiceInstance) (s : App)
    → Others is_services s (Manager.register_service_instance f now n i s).1
unfolding Manager.register_service_instance
register_service_instance-Others f now n i s Part.configs h = ground arith
register_service_instance-Others f now n i s Part.namespaces h = ground arith
register_service_instance-Others f now n i s Part.services h = ground arith
register_service_instance-Others f now n i s Part.users h = ground arith
register_service_instance-Others f now n i s Part.cached h = ground arith

deregister_instance-Others :
    (n v i : String) (s : App) → Others is_services s (Manager.deregister_instance n v i s).1
unfolding Manager.deregister_instance
deregister_instance-Others n v i s Part.configs h = ground arith
deregister_instance-Others n v i s Part.namespaces h = ground arith
deregister_instance-Others n v i s Part.services h = ground arith
deregister_instance-Others n v i s Part.users h = ground arith
deregister_instance-Others n v i s Part.cached h = ground arith

heartbeat-Others :
    (now : ℕ) (n v i : String) (s : App) → Others is_services s (Manager.heartbeat now n v i s).1
unfolding Manager.heartbeat
heartbeat-Others now n v i s Part.configs h = ground arith
heartbeat-Others now n v i s Part.namespaces h = ground arith
heartbeat-Others now n v i s Part.services h = ground arith
heartbeat-Others now n v i s Part.users h = ground arith
heartbeat-Others now n v i s Part.cached h = ground arith

create_user-Others :
    (lib : Library) (now : ℕ) (u w : String) (s : App)
    → Others is_users s (create_user lib now u w s).1
unfolding create_user
create_user-Others lib now u w s Part.configs h = ground arith
create_user-Others lib now u w s Part.namespaces h = ground arith
create_user-Others lib now u w s Part.services h = ground arith
create_user-Others lib now u w s Part.users h = ground arith
create_user-Others lib now u w s Part.cached h = ground arith

delete_user-Others :
    (lib : Library) (u : String) (s : App) → Others is_users s (delete_user lib u s).1
unfolding delete_user
delete_user-Others lib u s Part.configs h = ground arith
delete_user-Others lib u s Part.namespaces h = ground arith
delete_user-Others lib u s Part.services h = ground arith
delete_user-Others lib u s Part.users h = ground arith
delete_user-Others lib u s Part.cached h = ground arith

update_user-Others :
    (lib : Library) (u : String) (w : Option String) (r : Option (List String)) (s : App)
    → Others is_users s (update_user lib u w r s).1
unfolding update_user
update_user-Others lib u w r s Part.configs h = ground arith
update_user-Others lib u w r s Part.namespaces h = ground arith
update_user-Others lib u w r s Part.services h = ground arith
update_user-Others lib u w r s Part.users h = ground arith
update_user-Others lib u w r s Part.cached h = ground arith

SamePart-refl : (p : Part) (s : App) → SamePart p s s
SamePart-refl Part.configs s = (refl, refl, refl, refl)
SamePart-refl Part.namespaces s = (refl, refl)
SamePart-refl Part.services s = (refl, refl)
SamePart-refl Part.users s = refl
SamePart-refl Part.cached s = refl

cache_write-Others :
    (k : String) (v : Value) (t : Option ℕ) (now : ℕ) (s : App)
    → Others is_cached s (record s { cache = Local.insert now k v t s.cache })
cache_write-Others k v t now s Part.configs h = ground arith
cache_write-Others k v t now s Part.namespaces h = ground arith
cache_write-Others k v t now s Part.services h = ground arith
cache_write-Others k v t now s Part.users h = ground arith
cache_write-Others k v t now s Part.cached h = ground arith

-- A committed request changes no part of a node but those that it is about, whether it is carried out or fails.
pub handle_raft_request-touches :
    (lib : Library) (f : DashMap String String → String) (now : ℕ) (req : RaftRequest) (p : Part)
    (s : App)
    → touches req p ≡ false
    → SamePart p s (handle_raft_request lib f now req s)
unfolding handle_raft_request touches
handle_raft_request-touches lib f now (RaftRequest.set k v) p s h = SamePart-refl p s
handle_raft_request-touches lib f now (RaftRequest.delete k) p s h = SamePart-refl p s
handle_raft_request-touches lib f now (RaftRequest.set_config e) p s h =
    insert_config-Others e s p h
handle_raft_request-touches lib f now (RaftRequest.update_config e) p s h =
    update_config-Others e s p h
handle_raft_request-touches lib f now (RaftRequest.delete_config n i) p s h =
    delete_config-Others n i s p h
handle_raft_request-touches lib f now (RaftRequest.upsert_namespace n) p s h =
    upsert_namespace-Others n s p h
handle_raft_request-touches lib f now (RaftRequest.delete_namespace n) p s h =
    delete_namespace-Others n s p h
handle_raft_request-touches lib f now (RaftRequest.register_service v) p s h =
    register_service-Others f now v s p h
handle_raft_request-touches lib f now (RaftRequest.deregister_service n v) p s h =
    deregister_service-Others n v s p h
handle_raft_request-touches lib f now (RaftRequest.register_service_instance n i) p s h =
    register_service_instance-Others f now n i s p h
handle_raft_request-touches lib f now (RaftRequest.deregister_service_instance n v i) p s h =
    deregister_instance-Others n v i s p h
handle_raft_request-touches lib f now (RaftRequest.heartbeat n v i) p s h =
    heartbeat-Others now n v i s p h
handle_raft_request-touches lib f now (RaftRequest.cache_write k v t) p s h =
    cache_write-Others k v t now s p h
handle_raft_request-touches lib f now (RaftRequest.create_user u w) p s h =
    create_user-Others lib now u w s p h
handle_raft_request-touches lib f now (RaftRequest.delete_user u) p s h =
    delete_user-Others lib u s p h
handle_raft_request-touches lib f now (RaftRequest.update_user u w r) p s h =
    update_user-Others lib u w r s p h
