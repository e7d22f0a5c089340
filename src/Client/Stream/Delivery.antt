-- ===== src/Client/Stream/Delivery.antt =====
-- doProxy of pkg/muxtunnel.go with handleStream of pkg/muxtunnelClient.go: a connection from the
-- frontend to the target.
use goreverselb.Base.{Bytes, List, Option, none, some, ◌++◌, ◌∷◌}
use goreverselb.Types.{TunnelConnecData}
use goreverselb.Wire.Frame.{written}

-- The bytes of the first packet, if any, come before the others.
abbrev pub and_then : Option Bytes → List Bytes → List Bytes
and_then none content = content
and_then (some b) content = b ∷ content

-- What the server writes to a stream to a backend: the frame, the first packet and the content.
abbrev pub stream_of :
    (TunnelConnecData → Bytes) → TunnelConnecData → Option Bytes → List Bytes → List Bytes
stream_of marshal td first content = (written (marshal td)).1 ++ and_then first content
