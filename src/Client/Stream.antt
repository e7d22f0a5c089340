-- ===== src/Client/Stream.antt =====
-- handleStream and doProxy of pkg/muxtunnelClient.go, to the start of the copies. The JSON decoder
-- and the resolver are parameters; the random number and whether the target accepts are arguments.
use goreverselb.Base.{Bool, Bytes, List, Option, Result, err, if◌then◌else◌, none, ok, some, ℕ}
use goreverselb.Types.{TunnelConnecData}
use goreverselb.Wire.{FrameError, read_frame}
use goreverselb.Client.{MuxTunnelClient, target_address}
pub mod Delivery

pub data Handled : Type 0 where
  bad_frame : FrameError → Handled
  not_deserialized : Handled
  no_target : Handled
  not_resolved : Handled
  not_dialed : Handled
  -- The address that is dialed, what the server told, and what is left on the stream to copy.
  relaying : Bytes → TunnelConnecData → List Bytes → Handled

module _ (unmarshal : Bytes → Option TunnelConnecData) (resolve : Bytes → Option Bytes) where
  unfoldable pub do_proxy : Bool → ℕ → TunnelConnecData → List Bytes → MuxTunnelClient → Handled
  do_proxy dials i td stream tc = elim (target_address i tc) [
    | none ↦ no_target
    | some addr ↦ elim (resolve addr) [
      | none ↦ not_resolved
      | some tcp_addr ↦ if dials then relaying tcp_addr td stream else not_dialed
    ]
  ]

  unfoldable pub after_frame :
      Bool → ℕ → Result FrameError (Bytes × List Bytes) → MuxTunnelClient → Handled
  unfolding do_proxy
  after_frame dials i (err e) tc = bad_frame e
  after_frame dials i (ok (b, stream)) tc = elim (unmarshal b) [
    | none ↦ not_deserialized
    | some td ↦ do_proxy dials i td stream tc
  ]

  unfoldable pub handle_stream : Bool → ℕ → List Bytes → MuxTunnelClient → Handled
  unfolding after_frame
  handle_stream dials i stream tc = after_frame dials i (read_frame stream) tc
