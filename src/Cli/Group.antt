-- ===== src/Cli/Group.antt =====
-- The tunnelgroup command, cmd/goreverselb/servicegroup.go, and ReconcileServiceGroupFromJSON of
-- pkg/muxtunnelClientServiceGroup.go. The JSON decoder is a parameter.
use goreverselb.Base.{Bytes, Map, Option, none, some}
use goreverselb.ServiceGroup.{ServiceInfo, Group, new_group, reconcile_service_group}
use goreverselb.Cli.{Config}

pub data Reconciled : Type 0 where
  not_decoded : Reconciled
  panics : Reconciled
  reconciled : Group → Reconciled

module _ (unmarshal : Bytes → Option (Map Bytes (Option ServiceInfo))) where
  unfoldable pub reconcile_from_json : Bytes → Group → Reconciled
  reconcile_from_json jsonstr c = elim (unmarshal jsonstr) [
    | none ↦ not_decoded
    | some newservices ↦ elim (reconcile_service_group newservices c) [
      | none ↦ panics
      | some c' ↦ reconciled c'
    ]
  ]

  -- `not_decoded` is fatal here. The command then waits for a signal.
  unfoldable pub servicegroup : Config → Reconciled
  unfolding reconcile_from_json
  servicegroup cfg =
      reconcile_from_json cfg.service_group_json (new_group cfg.api_endpoint cfg.token)
