-- ===== src/Types.antt =====
-- The data of pkg/types.go. Ports are numbers: a negative port, which no listener takes, is not
-- modelled. `AllowedSources` is read by no code.
use goreverselb.Base.{Bool, Bytes, List, Map, codes, ℕ}

pub record ServiceData : Type 0 where
  pub service_and_instance_name : Bytes
  pub token : Bytes
  pub allowed_sources : Bytes
  pub persistent : Bool

pub record UserData : Type 0 where
  pub user_id : Bytes
  pub token : Bytes
  pub role : Bytes
  pub services : Map Bytes ServiceData
  pub allowed_sources : Bytes

pub record ConfigData : Type 0 where
  pub users : Map Bytes UserData

pub record FrontendData : Type 0 where
  pub port : ℕ
  pub auto : Bool
  pub tls_wrap : Bool
  pub ssh_wrap : Bool

pub record TunnelData : Type 0 where
  pub id : Bytes
  pub service_name : Bytes
  pub token : Bytes
  pub allowed_sources : Bytes
  pub frontend_data : FrontendData
  pub backend_accept_backlog : ℕ
  pub target_port : ℕ
  pub target_addresses : List Bytes

pub record TunnelDataResponse : Type 0 where
  pub id : Bytes
  pub service_name : Bytes
  pub frontend_port : ℕ
  pub frontend_address : Bytes
  pub error : Bytes

pub record TunnelConnecData : Type 0 where
  pub id : Bytes
  pub service_name : Bytes
  pub source_address : Bytes

abbrev pub default_user_id : Bytes
default_user_id = codes "default@none"

abbrev pub proxy_string : Bytes
proxy_string = codes "PROXY->"

abbrev pub http_connect_string : Bytes
http_connect_string = codes "CONNECT "
