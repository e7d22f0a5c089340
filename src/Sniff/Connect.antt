-- ===== src/Sniff/Connect.antt =====
-- tryHTTPProxyDecode of pkg/muxtunnel.go.
use goreverselb.Base.{
  Bool, Bytes, Option, [], bytes_dec, codes, if◌then◌else◌, ite, none, some, ℕ, ◌==◌, ◌>>=◌, ◌∷◌,
}
use goreverselb.Types.{http_connect_string}
pub mod Targets

-- `r.ReadString(delim)`: what stands up to the delimiter, with it, and the rest; an error where
-- there is no delimiter.
unfoldable pub read_string : ℕ → Bytes → Option (Bytes × Bytes)
read_string delim [] = none
read_string delim (c ∷ s) =
    let rest = read_string delim s in
    if c == delim
    then some (c ∷ [], s)
    else (elim rest [ none ↦ none | some (a, b) ↦ some (c ∷ a, b) ])

-- The target that is asked for, or `none`; whether the reply can be written is not known here.
unfoldable pub connect_target : Bytes → Option Bytes
connect_target b = do
  connect ← read_string b' ' b
  target ← ite (bytes_dec connect.0 http_connect_string) (read_string b' ' connect.1) none
  some target.0

abbrev pub http_ok : Bytes
http_ok = codes "HTTP/1.1 200 OK"

-- The target and what is written to the connection.
unfoldable pub try_http_proxy_decode : Bool → Bytes → Bytes × Bytes
try_http_proxy_decode writes b = elim (connect_target b) [
  | none ↦ ([], [])
  | some target ↦ if writes then (target, http_ok) else ([], [])
]
