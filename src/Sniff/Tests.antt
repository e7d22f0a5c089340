-- ===== src/Sniff/Tests.antt =====
-- The decoders at concrete packets, with reads that behave as documented.
use goreverselb.Base.{
  Bytes, List, [], arith, bytes_dec, codes, drop, false, inl, inr, length, refl, true, ◌++◌, ◌∷◌,
  ◌≡◌, ◌≢◌, ◌⊎◌,
}
use goreverselb.Sniff.Preamble.{read_preamble}
use goreverselb.Sniff.Connect.{connect_target, read_string}
use goreverselb.Types.{http_connect_string}
use goreverselb.Sniff.Cursor.Concrete.{concrete, concrete-IsDocumented}
use goreverselb.Sniff.Tls.{stuck, server_name_loop, extensions_of, try_tls_decode, has_dot_suffix}
use goreverselb.Sniff.Tls.Fuel.{server_name_loop-ne-stuck}
use goreverselb.Sniff.Tls.RoundTrip.{try_tls_decode-client_hello}
use goreverselb.Sniff.Tls.Hello.{Extension, encode_extensions, host_name, client_hello}
use goreverselb.Sniff.Tls.Names.{try_tls_decode-no_dot}
use goreverselb.Sniff.Preamble.{preamble, try_proxy_decode}
use goreverselb.Sniff.Preamble.RoundTrip.{try_proxy_decode-preamble, try_proxy_decode-long}
use goreverselb.Sniff.Connect.{try_http_proxy_decode, http_ok}
use goreverselb.Sniff.Connect.Targets.{try_http_proxy_decode-connect}
use goreverselb.Sniff.Target.{Conn, Calls, get_sni_target}
use goreverselb.Sniff.Target.Deadline.{NamedByProxy, get_sni_target-deadline}

abbrev head : Bytes
head = codes "hhhhhhhhhhhhhhhhhhhhhhhhhhhhhhhhhhhhhhhhhhh"

abbrev host : Bytes
host = codes "first.example"

abbrev before : List Extension
before = (10, codes "groups") ∷ []

abbrev hello : Bytes
hello =
    client_hello head [] (codes "suites") (0 ∷ [])
      (encode_extensions (before ++ ((0, host_name host) ∷ []))) []

server_name_loop-ne-stuck_example : server_name_loop concrete (extensions_of concrete hello) ≢ stuck
server_name_loop-ne-stuck_example = server_name_loop-ne-stuck concrete concrete-IsDocumented hello

try_tls_decode-client_hello_example : try_tls_decode concrete hello ≡ host
unfolding has_dot_suffix
try_tls_decode-client_hello_example =
    try_tls_decode-client_hello concrete head [] (codes "suites") (0 ∷ []) host [] before []
      concrete-IsDocumented refl (omega arith) (omega arith) (omega arith, tt) tt (omega arith) refl

try_tls_decode-no_dot_example : has_dot_suffix (try_tls_decode concrete hello) ≡ false
try_tls_decode-no_dot_example = try_tls_decode-no_dot concrete hello

abbrev content : Bytes
content = codes "GET / HTTP/1.1"

abbrev packet : Bytes
packet = preamble (codes "first") ++ content

try_proxy_decode-preamble_example :
    ((try_proxy_decode concrete packet).0 ≡ codes "first")
    × (drop (try_proxy_decode concrete packet).1 packet ≡ b'\n' ∷ content)
unfolding preamble
try_proxy_decode-preamble_example =
    try_proxy_decode-preamble concrete (codes "first") content concrete-IsDocumented (omega arith)
      (omega arith)

abbrev long_name : Bytes
long_name =
    codes
      "xxxxxxxxxxxxxxxxxxxxxxxxxxxxxxxxxxxxxxxxxxxxxxxxxxxxxxxxxxxxxxxxxxxxxxxxxxxxxxxxxxxxxxxxxxxxxxxxxxxxxxxxxxxxxxxxxxxxxxxxxxxxxxxxxxxxxxxxxxxxxxxxxxxxxxxxxxxxxxxxxxxxxxxxxxxxxxxxxxxxxxxxxxxxxxxxxxxxxxxxxxxxxxxxxxxxxxxxxxxxxxxxxxxxxxxxxxxxxxxxxxxxxxxxxx"

try_proxy_decode-long_example : try_proxy_decode concrete (preamble long_name ++ content) ≡ ([], 0)
try_proxy_decode-long_example = try_proxy_decode-long concrete long_name content (omega arith)

abbrev connect_packet : Bytes
connect_packet = http_connect_string ++ (codes "first" ++ (b' ' ∷ codes "HTTP/1.1"))

try_http_proxy_decode-connect_example :
    try_http_proxy_decode true connect_packet ≡ (codes "first" ++ (b' ' ∷ []), http_ok)
try_http_proxy_decode-connect_example =
    try_http_proxy_decode-connect (codes "first") (codes "HTTP/1.1") (omega arith)

abbrev works : Calls
works = record { arms = true; disarms = true; writes = true }

abbrev conn_of : Bytes → Conn
conn_of chunk = record { incoming = chunk ∷ []; deadline = false; written = [] }

named_by_proxy : NamedByProxy concrete works connect_packet
unfolding try_tls_decode concrete try_proxy_decode read_preamble bytes_dec try_http_proxy_decode
    connect_target read_string
named_by_proxy = (refl, inr (refl, omega arith))

get_sni_target-deadline_example :
    (NamedByProxy concrete works connect_packet
      × ((get_sni_target concrete works (conn_of connect_packet)).1.deadline ≡ true))
    ⊎ ((¬ NamedByProxy concrete works connect_packet)
        × ((get_sni_target concrete works (conn_of connect_packet)).1.deadline ≡ false))
get_sni_target-deadline_example =
    get_sni_target-deadline concrete works connect_packet (conn_of connect_packet) [] refl refl refl
      (omega arith)

no_preamble : length (try_proxy_decode concrete content).0 ≡ 0
unfolding try_tls_decode concrete try_proxy_decode read_preamble bytes_dec try_http_proxy_decode
    connect_target read_string
no_preamble = refl

no_connect : length (try_http_proxy_decode true content).0 ≡ 0
unfolding try_tls_decode concrete try_proxy_decode read_preamble bytes_dec try_http_proxy_decode
    connect_target read_string
no_connect = refl

named_by_no_proxy : ¬ (NamedByProxy concrete works content)
named_by_no_proxy (no_hello, named) = elim named [
  | inl by_preamble ↦ omega (arith, no_preamble)
  | inr by_connect ↦ omega (arith, no_connect, by_connect.1)
]
