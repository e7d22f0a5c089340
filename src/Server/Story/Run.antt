-- ===== src/Server/Story/Run.antt =====
-- The runs of the tunnel service of pkg/muxtunnel.go, as its clients see them.
use goreverselb.Server.System.{System}
use goreverselb.Server.Story.{Story}
