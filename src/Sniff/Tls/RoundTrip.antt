-- ===== src/Sniff/Tls/RoundTrip.antt =====
-- tryTLSDecode finds the server name that a client hello carries.
use goreverselb.Base.{
  Bytes, List, [], append-nil_right, arith, false, if◌then◌else◌, length, length-append, refl, some,
  subst, suc, zero, ℕ, ◌%◌, ◌++◌, ◌+◌, ◌/◌, ◌<◌, ◌==◌, ◌∙◌, ◌∷◌, ◌≡◌, ◌≤◌,
}
use mathlib.Core.List.{append_assoc}
use goreverselb.Sniff.Cursor.{Cryptobyte, IsDocumented}
use goreverselb.Sniff.Tls.{
  leaves, has_dot_suffix, server_name_extension, extension_loop, continue, server_name_loop,
  try_tls_decode,
}
use goreverselb.Sniff.Tls.Hello.{
  prefixed16, Extension, encode_extensions, host_name, client_hello, NoServerName, length_digits,
  reads_prefixed16, reads_prefixed16_all, extensions_of-client_hello,
}

module _ (c : Cryptobyte) (d : IsDocumented c) where
  server_name_extension-host_name :
      (name : Bytes)
      → 0 < length name
      → has_dot_suffix name ≡ false
      → server_name_extension c [] (host_name name) ≡ leaves name
  unfolding server_name_extension
  server_name_extension-host_name name pos dot =
      rw
        (
          reads_prefixed16_all c d (0 ∷ prefixed16 name),
          d.reads_uint8 0 (prefixed16 name),
          reads_prefixed16_all c d name,
          server_name_extension,
        )
        (ground arith)

  -- One round of the loop, at a given extension.
  extension_round :
      (fuel kind : ℕ) (servername body more : Bytes)
      → extension_loop c
          (suc fuel)
          servername
          ((kind / 256) ∷ (kind % 256) ∷ (length body / 256) ∷ (length body % 256) ∷ (body ++ more))
        ≡ continue c
            (if kind == 0 then server_name_extension c servername body else leaves servername)
            (λ name. extension_loop c fuel name more)
  unfolding extension_loop
  extension_round fuel kind servername body more = rw (
    d.reads_uint16 (kind / 256) (kind % 256)
        ((length body / 256) ∷ (length body % 256) ∷ (body ++ more)),
    reads_prefixed16 c d body more,
    length_digits kind,
    extension_loop,
  )

  -- The other extensions change nothing, whatever fuel is left behind them.
  extension_loop-append :
      (fuel : ℕ) (servername more : Bytes) (es : List Extension)
      → NoServerName es
      → length (encode_extensions es) ≤ fuel
      → (left : ℕ) × (extension_loop c fuel servername (encode_extensions es ++ more)
          ≡ extension_loop c left servername more)
        × (fuel ≤ left + length (encode_extensions es))
  unfolding encode_extensions
  extension_loop-append fuel servername more [] n h = (fuel, refl, omega arith)
  extension_loop-append zero servername more ((kind, body) ∷ es) n h = absurd (omega arith)
  extension_loop-append (suc fuel) servername more ((kind, body) ∷ es) n h =
      let (left, e, k) =
        extension_loop-append fuel servername more es n.1
          (omega (arith, length-append body (encode_extensions es))) in
      (
        left,
        rw
            (
              append_assoc body (encode_extensions es) more,
              extension_round fuel kind servername body (encode_extensions es ++ more),
            )
            (ground (arith, n.0, e)),
        omega (arith, k, length-append body (encode_extensions es)),
      )

  extensions_only :
      (fuel : ℕ) (servername : Bytes) (es : List Extension)
      → NoServerName es
      → length (encode_extensions es) ≤ fuel
      → extension_loop c fuel servername (encode_extensions es) ≡ leaves servername
  unfolding extension_loop
  extensions_only fuel servername es n h =
      let (left, e, k) = extension_loop-append fuel servername [] es n h in
      subst (λ (b : Bytes). extension_loop c fuel servername b ≡ leaves servername)
        (append-nil_right (encode_extensions es)) e

  found_here :
      (fuel : ℕ) (name : Bytes) (after : List Extension)
      → NoServerName after
      → 0 < length name
      → has_dot_suffix name ≡ false
      → length (encode_extensions ((0, host_name name) ∷ after)) ≤ fuel
      → extension_loop c fuel [] (encode_extensions ((0, host_name name) ∷ after)) ≡ leaves name
  unfolding encode_extensions
  found_here zero name after n pos dot h = absurd (omega arith)
  found_here (suc fuel) name after n pos dot h =
      rw
        (
          extension_round fuel 0 [] (host_name name) (encode_extensions after),
          server_name_extension-host_name name pos dot,
        )
        (extensions_only fuel name after n
          (omega (arith, length-append (host_name name) (encode_extensions after))))

  loop-finds :
      (name : Bytes) (before after : List Extension)
      → NoServerName before
      → NoServerName after
      → 0 < length name
      → has_dot_suffix name ≡ false
      → server_name_loop c
          (some (encode_extensions before ++ encode_extensions ((0, host_name name) ∷ after)))
        ≡ leaves name
  unfolding server_name_loop
  loop-finds name before after nb na pos dot =
      let rest = encode_extensions ((0, host_name name) ∷ after) in
      let all = encode_extensions before ++ rest in
      let size = length-append (encode_extensions before) rest in
      let (left, e, k) =
        extension_loop-append (length all) [] rest before nb (omega (arith, size)) in
      e ∙ found_here left name after na pos dot (omega (arith, size, k))

encode_extensions-append :
    (es fs : List Extension)
    → encode_extensions (es ++ fs) ≡ encode_extensions es ++ encode_extensions fs
unfolding encode_extensions
encode_extensions-append [] fs = refl
encode_extensions-append ((kind, body) ∷ es) fs =
    rw (encode_extensions-append es fs, append_assoc body (encode_extensions es)) refl

-- The decoder finds the host name of a client hello: the name of the one server name extension,
-- wherever it stands among extensions of other kinds. The hello is in the first packet, what stands
-- in front of the session takes 43 bytes, session and compression methods take less than 256 bytes
-- each, the name is not empty and does not end with a dot, and the reads behave as documented.
pub try_tls_decode-client_hello :
    (c : Cryptobyte) (head session suites methods name more : Bytes) (before after : List Extension)
    → IsDocumented c
    → length head ≡ 43
    → length session < 256
    → length methods < 256
    → NoServerName before
    → NoServerName after
    → 0 < length name
    → has_dot_suffix name ≡ false
    → try_tls_decode c (
        client_hello head session suites methods
          (encode_extensions (before ++ ((0, host_name name) ∷ after)))
          more)
      ≡ name
unfolding try_tls_decode
try_tls_decode-client_hello c head session suites methods name more before after d h hs hm nb na pos
      dot =
    rw
      (
        extensions_of-client_hello c d head session suites methods
            (encode_extensions (before ++ ((0, host_name name) ∷ after))) more h hs hm,
        encode_extensions-append before ((0, host_name name) ∷ after),
        loop-finds c d name before after nb na pos dot,
      )
      refl
