-- ===== src/Lib.antt =====
-- Conreg: a registry and configuration centre. A server keeps configurations, namespaces, registered
-- services with their instances, users and a cache; its nodes agree through Raft. A client library reads
-- configurations, finds instances and balances load over them.
--
-- The parts and their files. Each file's first comment names the code that it is about.
--   Prelude, DashMap, Exec, Sql, Values   what the parts share: numbers and texts, maps, code that
--     writes the state and may fail, the SQL statements on lists of rows, JSON values
--   Discovery/Instance, Registry   conreg-server/src/discovery/discovery.rs: instances, and the
--     registry of one namespace, one function for each method of `Discovery` and one for a tick of
--     each of its two timers. View, Effects, Invariant, Lifecycle are about them.
--   Discovery/Service, Manager   conreg-server/src/discovery/server/mod.rs
--   Config/Entry, Manager, Transfer   conreg-server/src/config/server/mod.rs. Reads, Writes, Stale, Sync,
--     Pages and Restore are about them.
--   Namespace/Entry, Manager   conreg-server/src/namespace/server/mod.rs. Access is about them.
--   User/Entry, Permission, Manager   conreg-server/src/system. Access is about them.
--   Cache/Local   conreg-server/src/cache/local_cache.rs. Expiry, Disk, Ratelimit are about it.
--   Cache/Global   conreg-server/src/cache/mod.rs. Shared is about it and the nodes that share an entry.
--   Raft, Raft/Write, Raft/Membership, Protocol   conreg-server/src/raft/mod.rs, conreg-server/src/raft/api and
--     conreg-server/src/protocol/res.rs. Raft/Commit is about them.
--   Raft/Rpc   conreg-server/src/raft/network/mod.rs and conreg-server/src/raft/api/raft.rs: the requests of one
--     node's Raft to another's. Remote is about them.
--   Raft/LogStore, Raft/StateMachine   conreg-server/src/raft/store. Log and Snapshot are about them.
--   App, Event   the state of one node, which the managers share through `get_app()`, and
--     conreg-server/src/event/mod.rs, which applies a committed request to it. Frame and Registration are about it.
--   Auth/Guard   conreg-server/src/auth/mod.rs. Admission is about it, Session about it after a login.
--   LoadBalance/...   conreg-client/src/lb. Weights, Rounds and Bounds are about the strategies.
--     Url is the rewriting of URLs there, Requests what is made of them; Target is about them.
--   Api/...   the routes: the files api.rs of conreg-server/src/config/server, namespace/server,
--     discovery/server and system, with their guards. Login and Effects are about them.
--   EncDec   conreg-server/src/config/server/enc_dec.rs. EncDec/RoundTrip is about it.
--   Client/Conf, Network   conreg-client/src/conf.rs and conreg-client/src/network/mod.rs
--   Client/Format, Flatten, Configs, State, Config   conreg-client/src/config.rs, and `AppConfig` of
--     conreg-client/src/lib.rs. Leaves and Reload are about them.
--   Client/Discovery, Calls, Bootstrap, Start   conreg-client/src/discovery.rs, and the start of the client in
--     conreg-client/src/lib.rs. Cache is about the instances that it keeps, and Heartbeat is about the client
--     over the server's routes, Center about its fetch over the server's route.
--   Feign/...   conreg-feign-macro/src/feign_client.rs: what the macro reads (Args, Template, Analysis),
--     what a generated method does (Url, Request, Method), and the type around them (Generate). Names,
--     Classes, Multipart are about them.
--   Cmt/Node, Commands, Http, Status, Run   conreg-cmt/src: the command line tool. Members, Nodes and Widths
--     are about it, and Served is about it over the routes of the server.
--   Server/...   conreg-server/src/main.rs, app.rs, db/mod.rs and web.rs: Args, Files, Setup, Start, Web.
--     Boot and Restart are about the start.
--   Tests/...   runs at concrete inputs
--
-- How the parts interact. A change that a user asks for goes through a manager's `..._and_sync`, which
-- makes a `RaftRequest` and hands it to `raft_write` by `sync`. Every node applies what is committed by
-- `handle_raft_request`, which calls the manager's plain operation and drops its error.
--
-- A route (Api/Routes, `serve`) runs its guard and then its handler over the state of the node. A client
-- asks the server for configurations and instances, and sends heartbeats: the server is an argument of
-- the client's functions (Client/Config, `Server`; Client/Discovery, `RegistryServer`), which
-- Client/Heartbeat fills with the routes of a node. A loop that never ends (the client's tasks, the server's
-- timers) is modelled by one of its rounds; a panic is a result of its own (`Run`, `Answer`, `Decrypted`).
--
-- How code becomes definitions. A method that may fail is a function from the state to a result and the
-- state (Exec): what was written before an error stays written. Tables are lists of rows, and the only
-- error of the database is a row that a unique column forbids. Clocks, new ids and tokens are
-- arguments. Times and ids are natural numbers; signed 64-bit values (Prelude.Int) and `u64`, `usize`
-- sums wrap at 2 ^ 64, as in a release build. The numbers of a page are 32-bit patterns of an i32 (Sql,
-- `page_of`), whose product wraps; the id of a history row, a sum of two, is not wrapped. Code outside
-- of the repository is a parameter: openraft and the HTTP client (Cluster), serde_json (Codec, Library,
-- from_json), bcrypt (Library), md5 and debug printing, the cipher, base58 and UTF-8 (Crypto, with the
-- laws IsSound), the crates config (Merge), url, zip (Archiver) and syn, and fastrand (Fastrand, with
-- the law that a number below a positive bound is drawn). Loops are recursion on lists; the one that
-- runs on fuel prints a number, where n + 1 rounds are enough for n.
--
-- What is not modelled: the making of a node's parts (`App::new`, a parameter of Server/Start), the log, the
-- generator of ids, the route that hands on the metrics of openraft, the syntax of bootstrap.yaml, and the
-- text of the code that the macro writes. Operations that run at the same time are sequences of steps: each
-- function is one step, and the late writes of the cache (Cache/Local, `flush`) are steps of their own.
pub mod Api
pub mod App
pub mod Auth
pub mod Cache
pub mod Client
pub mod Cmt
pub mod Config
pub mod DashMap
pub mod Discovery
pub mod EncDec
pub mod Event
pub mod Exec
pub mod Feign
pub mod LoadBalance
pub mod Namespace
pub mod Prelude
pub mod Protocol
pub mod Raft
pub mod Run
pub mod Server
pub mod Sql
pub mod Tests
pub mod User
pub mod Values
