-- ===== src/Sniff/Connect/Targets.antt =====
-- The target of a CONNECT request, tryHTTPProxyDecode of pkg/muxtunnel.go.
use goreverselb.Base.{
  Bytes, Without, [], arith, bytes_dec, codes, if_pos, refl, some, true, ℕ, ◌++◌, ◌∷◌, ◌≡◌,
}
use goreverselb.Types.{http_connect_string}
use goreverselb.Sniff.Connect.{read_string, connect_target, try_http_proxy_decode, http_ok}

read_string-append :
    (delim : ℕ) (s t : Bytes)
    → Without delim s
    → read_string delim (s ++ (delim ∷ t)) ≡ some (s ++ (delim ∷ []), t)
unfolding read_string
read_string-append delim [] t w = ground arith
read_string-append delim (c ∷ s) t w = ground (arith, read_string-append delim s t w.1)

connect_read :
    (more : Bytes)
    → read_string b' ' (http_connect_string ++ more) ≡ some (http_connect_string, more)
connect_read more = read_string-append b' ' (codes "CONNECT") more (omega arith)

-- The target of a CONNECT request is read with the blank that follows it.
connect_target-connect :
    (target more : Bytes)
    → Without b' ' target
    → connect_target (http_connect_string ++ (target ++ (b' ' ∷ more)))
      ≡ some (target ++ (b' ' ∷ []))
unfolding connect_target
connect_target-connect target more w =
    rw (connect_read (target ++ (b' ' ∷ more)), connect_target)
      (rw (if_pos (bytes_dec http_connect_string http_connect_string) refl)
        (rw (read_string-append b' ' target more w) refl))

-- A CONNECT request for a target without blanks is answered, and names the instance that is the
-- target with a blank behind it.
pub try_http_proxy_decode-connect :
    (target more : Bytes)
    → Without b' ' target
    → try_http_proxy_decode true (http_connect_string ++ (target ++ (b' ' ∷ more)))
      ≡ (target ++ (b' ' ∷ []), http_ok)
unfolding try_http_proxy_decode
try_http_proxy_decode-connect target more w =
    rw (connect_target-connect target more w, try_http_proxy_decode)
