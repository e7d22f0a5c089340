-- ===== src/Cli/Flags.antt =====
-- The flags of the commands, main of cmd/goreverselb/server.go: what the library that parses them
-- is told, without the texts for a reader.
use goreverselb.Base.{Bool, Bytes, List, [], codes, false, true, ℕ, ◌∷◌}
use goreverselb.Cli.{Config}
mod Tests

-- The field of Config that a flag is stored in, and the value without the flag.
pub data Destination : Type 0 where
  text : (Bytes → Config → Config) → Bytes → Destination
  number : (ℕ → Config → Config) → ℕ → Destination
  switch : (Bool → Config → Config) → Bool → Destination

pub record Flag : Type 0 where
  pub name : Bytes
  pub aliases : List Bytes
  pub env_var : Bytes
  pub required : Bool
  pub destination : Destination

flag : Bytes → List Bytes → Bytes → Bool → Destination → Flag
flag name aliases env_var required destination = record {
  name = name;
  aliases = aliases;
  env_var = env_var;
  required = required;
  destination = destination;
}

unfoldable pub global_flags : List Flag
unfolding flag
global_flags =
    flag (codes "loglevel") (codes "l" ∷ []) (codes "REVLB_LOGLEVEL") false
      (text (λ v cfg. record cfg { log_level = v }) (codes "info"))
    ∷ flag (codes "token") (codes "t" ∷ []) (codes "REVLB_TOKEN") true
        (text (λ v cfg. record cfg { token = v }) [])
    ∷ []

unfoldable pub server_flags : List Flag
unfolding flag
server_flags =
    flag (codes "port") (codes "p" ∷ []) (codes "REVLB_PORT") true
      (number (λ v cfg. record cfg { port = v }) 0)
    ∷ flag (codes "autocertsubjectname") (codes "s" ∷ []) (codes "REVLB_AUTO_CERT_SUBJECT_NAME")
        true (text (λ v cfg. record cfg { auto_cert_subject_name = v }) [])
    ∷ flag (codes "httpport") [] (codes "REVLB_HTTP_PORT") false
        (number (λ v cfg. record cfg { http_port = v }) 0)
    ∷ flag (codes "natsport") [] (codes "REVLB_NATS_PORT") false
        (number (λ v cfg. record cfg { nats_port = v }) 0)
    ∷ flag (codes "dynport") [] (codes "REVLB_DYN_FRONTEND_PORT") false
        (number (λ v cfg. record cfg { dyn_port = v }) 8000)
    ∷ flag (codes "dynportcount") [] (codes "REVLB_DYN_FRONTEND_PORT_COUNT") false
        (number (λ v cfg. record cfg { dyn_port_count = v }) 100)
    ∷ []

unfoldable pub tunnel_flags : List Flag
unfolding flag
tunnel_flags =
    flag (codes "apiendpoint") (codes "e" ∷ []) (codes "REVLB_API_ENDPOINT") true
      (text (λ v cfg. record cfg { api_endpoint = v }) [])
    ∷ flag (codes "frontendport") (codes "p" ∷ []) (codes "REVLB_FRONTEND_PORT") false
        (number (λ v cfg. record cfg { frontend_port = v }) 0)
    ∷ flag (codes "wraptls") (codes "w" ∷ []) (codes "REVLB_WRAP_TLS") false
        (switch (λ v cfg. record cfg { wrap_tls = v }) false)
    ∷ flag (codes "wrapSSH") [] (codes "REVLB_WRAP_SSH") false
        (switch (λ v cfg. record cfg { wrap_ssh = v }) false)
    ∷ flag (codes "serviceendpoint") (codes "b" ∷ []) (codes "REVLB_SERVICE_ENDPOINT") true
        (text (λ v cfg. record cfg { service_endpoint = v }) [])
    ∷ flag (codes "servicename") (codes "s" ∷ []) (codes "REVLB_SERVICE_NAME") true
        (text (λ v cfg. record cfg { service_name = v }) [])
    ∷ flag (codes "instancename") [] (codes "REVLB_INSTANCE_NAME") false
        (text (λ v cfg. record cfg { instance_name = v }) [])
    ∷ flag (codes "insecuretls") (codes "i" ∷ []) (codes "REVLB_INSECURE_TLS") false
        (switch (λ v cfg. record cfg { insecure_tls = v }) false)
    ∷ []

unfoldable pub tunnelgroup_flags : List Flag
unfolding flag
tunnelgroup_flags =
    flag (codes "apiendpoint") (codes "e" ∷ []) (codes "REVLB_API_ENDPOINT") true
      (text (λ v cfg. record cfg { api_endpoint = v }) [])
    ∷ flag (codes "servicegroup") (codes "g" ∷ []) (codes "REVLB_SERVICE_GROUP_JSON") true
        (text (λ v cfg. record cfg { service_group_json = v }) [])
    ∷ []

unfoldable pub stdinproxy_flags : List Flag
unfolding flag
stdinproxy_flags =
    flag (codes "serviceendpoint") (codes "e" ∷ []) (codes "REVLB_SERVICE_ENDPOINT") true
      (text (λ v cfg. record cfg { service_endpoint = v }) [])
    ∷ flag (codes "instancename") [] (codes "REVLB_INSTANCE_NAME") false
        (text (λ v cfg. record cfg { instance_name = v }) [])
    ∷ flag (codes "wraptls") (codes "w" ∷ []) (codes "REVLB_WRAP_TLS") false
        (switch (λ v cfg. record cfg { wrap_tls = v }) false)
    ∷ flag (codes "insecuretls") (codes "i" ∷ []) (codes "REVLB_INSECURE_TLS") false
        (switch (λ v cfg. record cfg { insecure_tls = v }) false)
    ∷ []
