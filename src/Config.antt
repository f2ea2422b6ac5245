-- ===== src/Config.antt =====
-- tunnel/config.go: the configuration record. Its children model the functions of that file.
pub mod Url
pub mod Comments
pub mod Topic
pub mod Commas
pub mod File
use mqtt_tunnel.Base.{Bool, false, Text, [], ℤ, pos}

pub record Config : Type 0 where
  pub broker_url : Text
  pub username : Text
  pub password : Text
  pub ca_cert : Text
  pub client_cert : Text
  pub private_key : Text
  pub topic : Text
  pub server_addr : Text
  pub log_file : Text
  pub log_file_size : ℤ
  pub debug : Bool
  pub verbose : Bool
  pub print_lines : Bool
  pub connection_timeout : ℤ
  pub mqtt_keepalive : ℤ
  pub manual_keepalive : ℤ

-- `var ret Config`
abbrev pub zero_config : Config
zero_config = record {
  broker_url = [];
  username = [];
  password = [];
  ca_cert = [];
  client_cert = [];
  private_key = [];
  topic = [];
  server_addr = [];
  log_file = [];
  log_file_size = pos 0;
  debug = false;
  verbose = false;
  print_lines = false;
  connection_timeout = pos 0;
  mqtt_keepalive = pos 0;
  manual_keepalive = pos 0;
}
