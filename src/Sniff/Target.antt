-- ===== src/Sniff/Target.antt =====
-- getSNITarget of pkg/muxtunnel.go. A connection is the chunks that are to come, whether a read
-- deadline is armed, and what has been written to it; the time itself is not modelled.
use goreverselb.Base.{
  Bool, Bytes, List, Option, [], drop, false, if◌then◌else◌, leb, length, ltb, none, some, take,
  true, ℕ, ◌++◌, ◌∷◌,
}
use goreverselb.Sniff.Cursor.{Cryptobyte}
use goreverselb.Sniff.Tls.{try_tls_decode}
use goreverselb.Sniff.Preamble.{try_proxy_decode}
use goreverselb.Sniff.Connect.{try_http_proxy_decode}
pub mod Deadline

pub record Conn : Type 0 where
  pub incoming : List Bytes
  pub deadline : Bool
  pub written : Bytes

-- Whether the calls on the connection succeed.
pub record Calls : Type 0 where
  pub arms : Bool
  pub disarms : Bool
  pub writes : Bool

-- `conn.Read(b)`: what is there, up to the length of `b`; an error where nothing comes any more.
unfoldable pub read : ℕ → List Bytes → Option (Bytes × List Bytes)
read n [] = none
read n (chunk ∷ chunks) =
    some (take n chunk, if leb (length chunk) n then chunks else drop n chunk ∷ chunks)

pub data Sniffed : Type 0 where
  failed : Sniffed
  -- The instance, and the bytes to be sent first, if any.
  target : Bytes → Option Bytes → Sniffed

abbrev pub disarm : Calls → Bytes → Bytes → Conn → Sniffed × Conn
disarm k name b conn =
    if k.disarms then (target name (some b), record conn { deadline = false }) else (failed, conn)

module _ (c : Cryptobyte) where
  -- The three decoders, on the first packet.
  unfoldable pub decode : Calls → Bytes → Conn → Sniffed × Conn
  decode k b conn =
      let server_name = try_tls_decode c b in
      let (proxy_name, consumed) = try_proxy_decode c b in
      let (http_name, reply) = try_http_proxy_decode k.writes b in
      if ltb 0 (length server_name)
      then disarm k server_name b conn
      else if ltb 0 (length proxy_name)
      then (target proxy_name (some (drop consumed b)), conn)
      else if ltb 0 (length http_name)
      then (target http_name none, record conn { written = conn.written ++ reply })
      else disarm k [] b (record conn { written = conn.written ++ reply })

  unfoldable pub get_sni_target : Calls → Conn → Sniffed × Conn
  unfolding decode
  get_sni_target k conn =
      if k.arms
      then elim (read 1024 conn.incoming) [
        | none ↦ (failed, record conn { deadline = true })
        | some (b, chunks) ↦ decode k b (record conn { deadline = true; incoming = chunks })
      ]
      else (failed, conn)
