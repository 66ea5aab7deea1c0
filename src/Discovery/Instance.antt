-- ===== src/Discovery/Instance.antt =====
-- One service instance and its status (conreg-server/src/discovery/discovery.rs, lines 9 to 104).
-- Times are milliseconds; `now` is what `Local::now()` returns. `md5_hex` stands for the md5 crate:
-- it takes a text to the hexadecimal form of its digest.
use conreg.Prelude.{ℕ, ◌-◌, String, Bool, true, false, concat, to_string, ltb}
use conreg.DashMap.{DashMap}

pub data InstanceStatus : Type 0 where
  ready up : InstanceStatus
  sick : String → InstanceStatus
  down offline : InstanceStatus

-- `status == InstanceStatus::…`, from the derived `PartialEq`
abbrev pub is_up : InstanceStatus → Bool
is_up InstanceStatus.up = true
is_up _ = false

abbrev pub is_down : InstanceStatus → Bool
is_down InstanceStatus.down = true
is_down _ = false

abbrev pub is_offline : InstanceStatus → Bool
is_offline InstanceStatus.offline = true
is_offline _ = false

pub record ServiceInstance : Type 0 where
  pub id : String
  pub service_id : String
  pub ip : String
  pub port : ℕ
  pub status : InstanceStatus
  pub meta : DashMap String String
  pub last_heartbeat : ℕ
  pub lost_heartbeats : ℕ

pub data HeartbeatResult : Type 0 where
  ok no_instance_found rejected : HeartbeatResult

unfoldable pub generate_id : (String → String) → String → ℕ → String
unfolding to_string
generate_id md5_hex ip port = md5_hex (concat ip (concat ":" (to_string port)))

unfoldable pub new :
    (String → String) → ℕ → String → String → ℕ → DashMap String String → ServiceInstance
unfolding generate_id
new md5_hex now service_id ip port meta = record {
  id = generate_id md5_hex ip port;
  service_id = service_id;
  ip = ip;
  port = port;
  status = InstanceStatus.ready;
  meta = meta;
  last_heartbeat = now;
  lost_heartbeats = 0;
}

unfoldable pub update_heartbeat : ℕ → ServiceInstance → ServiceInstance
update_heartbeat now i = record i { last_heartbeat = now }

-- A last heartbeat in the future is no timeout, as the signed difference is negative there.
unfoldable pub is_heartbeat_timeout : ℕ → ℕ → ServiceInstance → Bool
is_heartbeat_timeout now timeout i = ltb timeout (now - i.last_heartbeat)

unfoldable pub is_available : ServiceInstance → Bool
is_available i = is_up i.status
