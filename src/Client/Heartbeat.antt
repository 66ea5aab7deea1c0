-- ===== src/Client/Heartbeat.antt =====
-- A tick of the client's heartbeat (conreg-client/src/discovery.rs) against the routes of a node
-- (conreg-server/src/discovery/server/api.rs), over its manager, its registry and the writes through Raft.
use conreg.Prelude.{
  ℕ, String, Bool, true, false, Option, none, some, List, [], ◌∷◌, ◌++◌, ok, string_eq,
}
use conreg.Api.Discovery as Routes
use conreg.Api.Reply.{Server}
use conreg.Api.Routes.{Headers, Request, Body, serve}
use conreg.App.{App}
use conreg.Auth.Guard.{Outcome, Status}
use conreg.Client.Conf.{gen_instance_id}
use conreg.Client.Discovery
use conreg.Client.Discovery.{DiscoveryClient, RegistryServer, register_req}
use conreg.Client.Network.{Reply, receive}
use conreg.Config.Entry.{ConfigEntry}
use conreg.DashMap
use conreg.DashMap.{DashMap}
use conreg.Discovery.Instance
use conreg.Discovery.Manager
use conreg.Discovery.Registry
use conreg.Discovery.Registry.{Discovery}
use conreg.Event.Registration.{request}
use conreg.Raft.{RaftRequest}
use conreg.Values.{Value}

-- The client's reading of the server's answer (`HeartbeatResult` on both sides, by name).
abbrev read_result : Instance.HeartbeatResult → Discovery.HeartbeatResult
read_result Instance.HeartbeatResult.ok = Discovery.HeartbeatResult.ok
read_result Instance.HeartbeatResult.no_instance_found = Discovery.HeartbeatResult.no_instance_found
read_result Instance.HeartbeatResult.rejected = Discovery.HeartbeatResult.rejected

abbrev read_content : Option Instance.HeartbeatResult → Option Discovery.HeartbeatResult
read_content none = none
read_content (some r) = some (read_result r)

-- The answers of the two routes, as the client gets them.
abbrev beat_reply : (Status → String) → Outcome Body → Reply Discovery.HeartbeatResult
beat_reply status_text (Outcome.error status) = Reply.refused (status_text status)
beat_reply status_text (Outcome.success (Body.beat r)) =
    Reply.answered (record { code = r.code; msg = r.msg; content = read_content r.content })
beat_reply status_text (Outcome.success _) = Reply.unreadable "no answer to a heartbeat"

abbrev registered_reply : (Status → String) → Outcome Body → Reply (Unit {0})
registered_reply status_text (Outcome.error status) = Reply.refused (status_text status)
registered_reply status_text (Outcome.success (Body.registered r)) =
    Reply.answered (record { code = r.code; msg = r.msg; content = some tt })
registered_reply status_text (Outcome.success _) = Reply.unreadable "no instance"

module _ (server : Server) (now fresh_id : ℕ) (fresh_token : String)
    (like : String → ConfigEntry → Bool) (headers : Headers) (status_text : Status → String)
    (to_meta : DashMap String Value → DashMap String String) where
  -- The registration as the route reads it.
  abbrev to_request : Discovery.RegisterReq → Routes.RegisterServiceInstanceReq
  to_request req = record {
    namespace_id = req.namespace_id;
    service_id = req.service_id;
    ip = req.ip;
    port = req.port;
    meta = to_meta req.meta;
  }

  -- The node that a client of the registry asks. `to_meta` is the server's reading of the metadata.
  unfoldable pub node : RegistryServer App
  unfolding serve
  node = record {
    register = λ req s.
        let (o, s') =
          serve server now fresh_id fresh_token like headers
            (Request.instance_register (to_request req)) s in
        (receive tt (registered_reply status_text o), s');
    heartbeat = λ req s.
        let (o, s') =
          serve server now fresh_id fresh_token like headers
            (Request.heartbeat req.namespace_id req.service_id req.instance_id) s in
        (receive Discovery.HeartbeatResult.unknown (beat_reply status_text o), s');
  }

  module _ (c : DiscoveryClient) where
    abbrev pub beat_request : RaftRequest
    beat_request =
        RaftRequest.heartbeat c.config.namespace c.service_id
          (gen_instance_id server.md5_hex c.client)

    abbrev pub own_request : RaftRequest
    own_request = request server.md5_hex (to_request (register_req c))

    -- What a tick should hand to Raft, by what the node knows of the client's instance and by whether the
    -- heartbeat was taken.
    abbrev pub handed : Option Instance.ServiceInstance → Bool → List RaftRequest
    handed none true = beat_request ∷ own_request ∷ []
    handed none false = beat_request ∷ []
    handed (some i) taken = beat_request ∷ []

    -- The state of the node after the heartbeat alone.
    abbrev beaten : Discovery → App → App
    beaten d s = record s {
      discoveries =
          DashMap.insert c.config.namespace
            (Registry.heartbeat now c.service_id (gen_instance_id server.md5_hex c.client) d).1
            s.discoveries;
      submitted = s.submitted ++ (beat_request ∷ []);
    }

    -- The registry of the client's namespace after its heartbeat.
    abbrev after_beat : Discovery → Discovery
    after_beat d =
        (Registry.heartbeat now c.service_id (gen_instance_id server.md5_hex c.client) d).1
