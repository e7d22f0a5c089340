-- ===== src/Cli/StdinProxy.antt =====
-- The stdinproxy command, cmd/goreverselb/stdinProxy.go. The copies are the network's.
use goreverselb.Base.{Bool, Bytes, [], if◌then◌else◌, length, not, ◌==◌}
use goreverselb.Sniff.Preamble.{preamble}
use goreverselb.Cli.{Config}

unfoldable pub instance_of : Config → Bytes
instance_of cfg = if length cfg.instance_name == 0 then cfg.service_endpoint else cfg.instance_name

-- What the network answers.
pub record Net : Type 0 where
  pub resolves : Bool
  pub dials : Bool
  pub writes : Bool

pub data Copying : Type 0 where
  not_resolved not_written not_connected : Copying
  -- A write through the nil connection of a dial that failed.
  nil_dereference : Copying
  -- The server name of a TLS connection, and what is written before the copies.
  over_tls : Bytes → Copying
  over_tcp : Bytes → Copying

unfoldable pub do_proxy : Net → Config → Bytes → Copying
do_proxy net cfg instance_name =
    if not net.resolves
    then not_resolved
    else if cfg.wrap_tls
    then (if net.dials then over_tls instance_name else not_connected)
    else if length instance_name == 0
    then (if net.dials then over_tcp [] else not_connected)
    else if not net.dials
    then nil_dereference
    else if net.writes
    then over_tcp (preamble instance_name)
    else not_written

unfoldable pub stdin_proxy : Net → Config → Copying
unfolding do_proxy instance_of
stdin_proxy net cfg = do_proxy net cfg (instance_of cfg)
