-- ===== src/Sniff/Tls/Hello.antt =====
-- A client hello, as tryTLSDecode of pkg/muxtunnel.go takes it apart.
use goreverselb.Base.{
  Bytes, List, [], append-nil_right, arith, length, some, subst, ℕ, ◌%◌, ◌++◌, ◌/◌, ◌<◌, ◌∷◌, ◌≡◌,
  ◌≢◌,
}
use goreverselb.Sniff.Cursor.{Cryptobyte, IsDocumented, big_endian}
use goreverselb.Sniff.Tls.{extensions_of}

-- The encoding of RFC 8446: texts behind their length, in one byte or in two.
abbrev pub prefixed8 : Bytes → Bytes
prefixed8 s = length s ∷ s

abbrev pub prefixed16 : Bytes → Bytes
prefixed16 s = (length s / 256) ∷ (length s % 256) ∷ s

abbrev pub Extension : Type 0
Extension = ℕ × Bytes

unfoldable pub encode_extensions : List Extension → Bytes
encode_extensions [] = []
encode_extensions ((kind, body) ∷ es) =
    (kind / 256)
    ∷ (kind % 256)
    ∷ (length body / 256)
    ∷ (length body % 256)
    ∷ (body ++ encode_extensions es)

-- The body of a server name extension with one host name.
abbrev pub host_name : Bytes → Bytes
host_name name = prefixed16 (0 ∷ prefixed16 name)

-- A client hello: the 43 bytes in front of the session, the session, the cipher suites, the
-- compression methods, the extensions, and what the first packet holds behind them.
abbrev pub client_hello : Bytes → Bytes → Bytes → Bytes → Bytes → Bytes → Bytes
client_hello head session suites methods extensions more =
    head
    ++ (length session
        ∷ (session
            ++ (length suites / 256)
              ∷ (length suites % 256)
              ∷ (suites
                  ++ length methods
                    ∷ (methods
                        ++ (length extensions / 256)
                          ∷ (length extensions % 256)
                          ∷ (extensions ++ more)))))

-- None of the extensions is a server name.
abbrev pub NoServerName : List Extension → Type 0
NoServerName [] = Unit {0}
NoServerName ((kind, body) ∷ es) = (kind ≢ 0) × NoServerName es

pub length_digits : (n : ℕ) → big_endian (n / 256) (n % 256) ≡ n
length_digits n = omega arith

module _ (c : Cryptobyte) (d : IsDocumented c) where
  pub reads_prefixed16 :
      (s t : Bytes)
      → c.read_uint16_length_prefixed ((length s / 256) ∷ (length s % 256) ∷ (s ++ t)) ≡ some (s, t)
  reads_prefixed16 s t =
      d.reads_uint16_length_prefixed (length s / 256) (length s % 256) s t
        (length_digits (length s))

  pub reads_prefixed16_all :
      (s : Bytes) → c.read_uint16_length_prefixed (prefixed16 s) ≡ some (s, [])
  reads_prefixed16_all s =
      subst
        (λ (t : Bytes).
          c.read_uint16_length_prefixed ((length s / 256) ∷ (length s % 256) ∷ t) ≡ some (s, []))
        (append-nil_right s) (reads_prefixed16 s [])

  pub extensions_of-client_hello :
      (head session suites methods extensions more : Bytes)
      → length head ≡ 43
      → length session < 256
      → length methods < 256
      → extensions_of c (client_hello head session suites methods extensions more) ≡ some extensions
  unfolding extensions_of
  extensions_of-client_hello head session suites methods extensions more h hs hm =
      let r4 : Bytes =
        (length extensions / 256) ∷ (length extensions % 256) ∷ (extensions ++ more) in
      let r3 : Bytes = length methods ∷ (methods ++ r4) in
      let r2 : Bytes = (length suites / 256) ∷ (length suites % 256) ∷ (suites ++ r3) in
      let r1 : Bytes = length session ∷ (session ++ r2) in
      let skipped : c.skip 43 (head ++ r1) ≡ some r1 =
        subst (λ (n : ℕ). c.skip n (head ++ r1) ≡ some r1) h (d.skips head r1) in
      rw
        (
          skipped,
          d.reads_uint8_length_prefixed session r2 hs,
          reads_prefixed16 suites r3,
          d.reads_uint8_length_prefixed methods r4 hm,
          reads_prefixed16 extensions more,
          extensions_of,
        )
        (ground arith)
