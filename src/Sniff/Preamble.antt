-- ===== src/Sniff/Preamble.antt =====
-- tryProxyDecode of pkg/muxtunnel.go, and the preamble that doProxy of
-- cmd/goreverselb/stdinProxy.go writes.
use goreverselb.Base.{
  Bytes, Option, [], bytes_dec, if◌then◌else◌, ite, length, ltb, none, some, ℕ, ◌%◌, ◌++◌, ◌+◌,
  ◌==◌, ◌>>=◌, ◌∷◌,
}
use goreverselb.Types.{proxy_string}
use goreverselb.Sniff.Cursor.{Cryptobyte}
pub mod RoundTrip

-- `buffer` of stdinProxy.go; the length is one byte.
unfoldable pub preamble : Bytes → Bytes
preamble instance_name =
    proxy_string ++ ((length instance_name % 256) ∷ (instance_name ++ (b'\n' ∷ [])))

module _ (c : Cryptobyte) where
  -- `!s.ReadBytes(&dummy, 7) || len(dummy) == 0 || string(dummy) != ProxyString`
  unfoldable pub read_proxy_string : Bytes → Option Bytes
  read_proxy_string b = do
    r ← c.read_bytes 7 b
    if length r.0 == 0 then none else ite (bytes_dec r.0 proxy_string) (some r.1) none

  -- The instance name, the number of bytes that it and what is in front of it take, or `none`.
  unfoldable pub read_preamble : Bytes → Option (Bytes × ℕ)
  unfolding read_proxy_string
  read_preamble b = do
    s ← (if ltb 256 (length b) then none else read_proxy_string b)
    n ← c.read_uint8 s
    name ← c.read_bytes n.0 n.1
    if length name.0 == 0 then none else some (name.0, n.0 + length proxy_string + 1)

  unfoldable pub try_proxy_decode : Bytes → Bytes × ℕ
  try_proxy_decode b = elim (read_preamble b) [ none ↦ ([], 0) | some r ↦ r ]
