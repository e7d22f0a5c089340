-- ===== src/Sniff/Preamble/RoundTrip.antt =====
-- What the server makes of the preamble that the stdin proxy writes.
use goreverselb.Base.{
  Bytes, [], arith, drop, drop-length-append, false, length, length-append, ltb, none, refl, some,
  suc, true, ℕ, ◌%◌, ◌++◌, ◌+◌, ◌<◌, ◌∷◌, ◌≡◌, ◌≤◌,
}
use goreverselb.Types.{proxy_string}
use goreverselb.Sniff.Cursor.{Cryptobyte, IsDocumented}
use goreverselb.Sniff.Preamble.{preamble, read_proxy_string, read_preamble, try_proxy_decode}
use mathlib.Core.List.{append_assoc}

module _ (c : Cryptobyte) (d : IsDocumented c) where
  read_proxy_string-preamble : (t : Bytes) → read_proxy_string c (proxy_string ++ t) ≡ some t
  unfolding read_proxy_string
  read_proxy_string-preamble t = rw (d.reads_bytes proxy_string t, read_proxy_string) (ground arith)

  read_preamble-parts :
      (name more : Bytes)
      → 0 < length name
      → length name + length more ≤ 248
      → read_preamble c (proxy_string ++ (length name ∷ (name ++ more)))
        ≡ some (name, length name + length proxy_string + 1)
  unfolding read_preamble
  read_preamble-parts name more pos fits =
      let small : ltb 256 (length (proxy_string ++ (length name ∷ (name ++ more)))) ≡ false =
        ground (arith, length-append name more) in
      rw
        (
          small,
          read_proxy_string-preamble (length name ∷ (name ++ more)),
          d.reads_uint8 (length name) (name ++ more),
          d.reads_bytes name more,
          read_preamble,
        )
        (ground arith)

preamble-parts :
    (name content : Bytes)
    → length name < 256
    → preamble name ++ content ≡ proxy_string ++ (length name ∷ (name ++ (b'\n' ∷ content)))
unfolding preamble
preamble-parts name content h =
    let small : length name % 256 ≡ length name = omega arith in
    rw (small, append_assoc name (b'\n' ∷ []) content) refl

drop-parts :
    (name more : Bytes)
    → drop (length name + length proxy_string + 1) (proxy_string ++ (length name ∷ (name ++ more)))
      ≡ more
drop-parts name more =
    let eight : length name + length proxy_string + 1
        ≡ suc (suc (suc (suc (suc (suc (suc (suc (length name)))))))) =
      omega arith in
    rw eight (drop-length-append name more)

length-preamble-append :
    (name content : Bytes) → length (preamble name ++ content) ≡ length name + length content + 9
unfolding preamble
length-preamble-append name content =
    omega (arith, length-append (name ++ (b'\n' ∷ [])) content, length-append name (b'\n' ∷ []))

try_proxy_decode-some :
    (c : Cryptobyte) (b name : Bytes) (n : ℕ)
    → read_preamble c b ≡ some (name, n)
    → try_proxy_decode c b ≡ (name, n)
unfolding try_proxy_decode
try_proxy_decode-some c b name n h = rw (h, try_proxy_decode)

-- The name that the client puts into the preamble is the name that the server reads, and the bytes
-- behind it begin with the newline that ends the preamble: it counts as content for the backend.
-- The name is not empty, preamble and content take at most 256 bytes, and the reads behave as
-- documented.
pub try_proxy_decode-preamble :
    (c : Cryptobyte) (name content : Bytes)
    → IsDocumented c
    → 0 < length name
    → length (preamble name ++ content) ≤ 256
    → ((try_proxy_decode c (preamble name ++ content)).0 ≡ name)
      × (drop (try_proxy_decode c (preamble name ++ content)).1 (preamble name ++ content)
          ≡ b'\n' ∷ content)
unfolding try_proxy_decode
try_proxy_decode-preamble c name content d pos fits =
    let size = length-preamble-append name content in
    rw
      (
        preamble-parts name content (omega (arith, size)),
        try_proxy_decode-some c (proxy_string ++ (length name ∷ (name ++ (b'\n' ∷ content)))) _ _
            (read_preamble-parts c d name (b'\n' ∷ content) pos (omega (arith, size))),
      )
      (refl, drop-parts name (b'\n' ∷ content))

too_long : (c : Cryptobyte) (b : Bytes) → 256 < length b → read_preamble c b ≡ none
unfolding read_preamble
too_long c b h = let large : ltb 256 (length b) ≡ true = ground arith in rw (large, read_preamble)

-- A packet that begins with the preamble of a name of 248 bytes or more, whose length byte may have
-- wrapped, is not read as a preamble: no instance is named and nothing is consumed.
pub try_proxy_decode-long :
    (c : Cryptobyte) (name content : Bytes)
    → 248 ≤ length name
    → try_proxy_decode c (preamble name ++ content) ≡ ([], 0)
unfolding try_proxy_decode
try_proxy_decode-long c name content long =
    let none_read =
      too_long c (preamble name ++ content) (omega (arith, length-preamble-append name content)) in
    rw (none_read, try_proxy_decode)
