-- ===== src/Server/Tests/Routes.antt =====
-- A connection with a TLS client hello, at a service with one session.
use goreverselb.Base.{Bytes, Map, [], bytes_key, codes, false, nat_key, true, ◌∷◌}
use goreverselb.Sniff.Tls.Hello.{encode_extensions, host_name, client_hello}
use goreverselb.Sniff.Target.{Conn, Calls}
use goreverselb.Server.State.{Session}
use goreverselb.Server.Tests.{alice, first}

abbrev head : Bytes
head = codes "hhhhhhhhhhhhhhhhhhhhhhhhhhhhhhhhhhhhhhhhhhh"

abbrev hello : Bytes
hello =
    client_hello head [] (codes "suites") (0 ∷ []) (encode_extensions ((0, host_name first) ∷ []))
      []

abbrev sessions : Map Bytes Session
sessions = (alice.remote_addr, alice) ∷ []

abbrev calls : Calls
calls = record { arms = true; disarms = true; writes = true }

abbrev conn : Conn
conn = record { incoming = hello ∷ []; deadline = false; written = [] }
