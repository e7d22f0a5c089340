-- ===== src/Server/Proxy/Routing.antt =====
-- A whole run of doProxy of pkg/muxtunnel.go to the start of the copies, for a client that names
-- the instance in a TLS client hello.
use goreverselb.Base.{bytes_key, nat_key, true}
use goreverselb.Server.Proxy.{BackCalls}

abbrev pub all_succeed : BackCalls
all_succeed = record { opens = true; connects = true; sends_first = true }
