-- ===== src/Cli.antt =====
-- The commands of cmd/goreverselb, and the parameters that they share.
use goreverselb.Base.{Bool, Bytes, codes, if◌then◌else◌, length, ltb, ℕ, ◌++◌}
pub mod Number
pub mod Tunnel
pub mod StdinProxy
pub mod Group
pub mod Serve
pub mod Flags
pub mod Trial
mod Tests

pub record Config : Type 0 where
  pub log_level : Bytes
  pub token : Bytes
  pub port : ℕ
  pub auto_cert_subject_name : Bytes
  pub http_port : ℕ
  pub nats_port : ℕ
  pub dyn_port : ℕ
  pub dyn_port_count : ℕ
  pub api_endpoint : Bytes
  pub frontend_port : ℕ
  pub wrap_tls : Bool
  pub wrap_ssh : Bool
  pub service_endpoint : Bytes
  pub service_name : Bytes
  pub instance_name : Bytes
  pub insecure_tls : Bool
  pub service_group_json : Bytes

-- The name under which `tunnel` registers, client.go: the instance hangs on by a colon.
unfoldable pub tunnel_service_name : Bytes → Bytes → Bytes
tunnel_service_name service_name instance_name =
    if ltb 0 (length instance_name)
    then service_name ++ (codes ":" ++ instance_name)
    else service_name
