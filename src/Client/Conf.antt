-- ===== src/Client/Conf.antt =====
-- What the application tells the client (conreg-client/src/conf.rs).
use conreg.Prelude.{ℕ, String, Option, List, concat, to_string}
use conreg.DashMap.{DashMap}
use conreg.Values.{Value}

pub data ServerAddr : Type 0 where
  single : String → ServerAddr
  cluster : List String → ServerAddr
  unset : ServerAddr

pub record ClientConfig : Type 0 where
  pub address : String
  pub port : ℕ

pub record ConfigConfig : Type 0 where
  pub server_addr : ServerAddr
  pub namespace : String
  pub config_ids : List String
  pub auth_token : Option String

pub record DiscoveryConfig : Type 0 where
  pub server_addr : ServerAddr
  pub namespace : String
  pub meta : DashMap String Value
  pub auth_token : Option String

pub record ConRegConfig : Type 0 where
  pub service_id : String
  pub client : ClientConfig
  pub config : Option ConfigConfig
  pub discovery : Option DiscoveryConfig

abbrev pub default_namespace : String
default_namespace = "public"

-- `ClientConfig::default`
abbrev pub default_client : ClientConfig
default_client = record { address = "127.0.0.1"; port = 8080 }

unfoldable pub gen_instance_id : (String → String) → ClientConfig → String
unfolding to_string
gen_instance_id md5_hex c = md5_hex (concat c.address (concat ":" (to_string c.port)))
