-- ===== src/Sniff/Tls.antt =====
-- tryTLSDecode of pkg/muxtunnel.go: the server name of a TLS client hello. A loop takes fuel;
-- `stuck` means that it ran out, and `Fuel` proves that the length of the input is enough.
use goreverselb.Base.{
  Bool, Bytes, Option, [], false, if◌then◌else◌, length, none, not, some, suc, zero, ℕ, ◌+◌, ◌==◌,
  ◌>>=◌, ◌∷◌,
}
use goreverselb.Sniff.Cursor.{Cryptobyte}
pub mod Fuel
pub mod Hello
pub mod RoundTrip
pub mod Names

-- How a loop leaves: `return ""`, or with the server name found so far.
pub data Loop : Type 0 where
  stuck : Loop
  returns_empty : Loop
  leaves : Bytes → Loop

-- `strings.HasSuffix(servername, ".")`
unfoldable pub has_dot_suffix : Bytes → Bool
has_dot_suffix [] = false
has_dot_suffix (c ∷ []) = c == b'.'
has_dot_suffix (c ∷ d ∷ s) = has_dot_suffix (d ∷ s)

module _ (c : Cryptobyte) where
  -- `for !nameList.Empty()`
  unfoldable pub name_loop : ℕ → Bytes → Bytes → Loop
  unfolding has_dot_suffix
  name_loop fuel servername [] = leaves servername
  name_loop zero servername (x ∷ name_list) = stuck
  name_loop (suc fuel) servername (x ∷ name_list) = elim (c.read_uint8 (x ∷ name_list)) [
    | none ↦ returns_empty
    | some (name_type, rest) ↦ elim (c.read_uint16_length_prefixed rest) [
      | none ↦ returns_empty
      | some (server_name, rest') ↦
          if length server_name == 0
          then returns_empty
          else (let on = name_loop fuel servername rest' in
              let take_name = name_loop fuel server_name rest' in
              if not (name_type == 0)
              then on
              else if not (length servername == 0)
              then returns_empty
              else if has_dot_suffix server_name
              then returns_empty
              else take_name)
    ]
  ]

  -- The body of the loop at a server name extension.
  unfoldable pub server_name_extension : Bytes → Bytes → Loop
  unfolding name_loop
  server_name_extension servername ext_data = elim (c.read_uint16_length_prefixed ext_data) [
    | none ↦ returns_empty
    | some (name_list, rest) ↦
        if length name_list == 0
        then returns_empty
        else name_loop (length name_list) servername name_list
  ]

  -- What is left to do after an extension.
  abbrev pub continue : Loop → (Bytes → Loop) → Loop
  continue stuck f = stuck
  continue returns_empty f = returns_empty
  continue (leaves servername) f = f servername

  -- `for !extensions.Empty()`
  unfoldable pub extension_loop : ℕ → Bytes → Bytes → Loop
  unfolding server_name_extension
  extension_loop fuel servername [] = leaves servername
  extension_loop zero servername (x ∷ extensions) = stuck
  extension_loop (suc fuel) servername (x ∷ extensions) = elim (c.read_uint16 (x ∷ extensions)) [
    | none ↦ returns_empty
    | some (extension, rest) ↦ elim (c.read_uint16_length_prefixed rest) [
      | none ↦ returns_empty
      | some (ext_data, rest') ↦
          continue
            (if extension == 0
              then server_name_extension servername ext_data
              else leaves servername)
            (λ name. extension_loop fuel name rest')
    ]
  ]

  abbrev pub result : Loop → Bytes
  result stuck = []
  result returns_empty = []
  result (leaves servername) = servername

  -- The parts in front of the extensions; `none` where the decoder returns the empty text.
  unfoldable pub extensions_of : Bytes → Option Bytes
  extensions_of b = do
    s ← c.skip (5 + 6 + 32) b
    session ← c.read_uint8_length_prefixed s
    cipher_suites ← c.read_uint16_length_prefixed session.1
    compression_methods ← c.read_uint8_length_prefixed cipher_suites.1
    extensions ←
        if length compression_methods.1 == 0
        then none
        else c.read_uint16_length_prefixed compression_methods.1
    some extensions.0

  unfoldable pub server_name_loop : Option Bytes → Loop
  unfolding extension_loop
  server_name_loop none = returns_empty
  server_name_loop (some extensions) = extension_loop (length extensions) [] extensions

  unfoldable pub try_tls_decode : Bytes → Bytes
  unfolding extensions_of server_name_loop
  try_tls_decode b = result (server_name_loop (extensions_of b))
