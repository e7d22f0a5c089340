-- ===== src/Server/Access.antt =====
-- parseServiceContext, authorize and sendResponse of pkg/muxtunnel.go.
use goreverselb.Base.{
  Bool, Bytes, List, Option, [], bytes_dec, bytes_key, false, get, get_elem?, if◌then◌else◌, ite,
  length, ltb, nat_key, none, some, true, ℕ, ◌==◌, ◌∷◌,
}
use goreverselb.Types.{UserData, ServiceData, TunnelData, TunnelDataResponse, default_user_id}
use goreverselb.Server.State.{MuxTunnelService}
pub mod Names

-- `parts[0]` and `parts[1]`
abbrev pub part : ℕ → List Bytes → Bytes
part i parts = elim (get_elem? parts i) [ none ↦ [] | some p ↦ p ]

onto_first : ℕ → List Bytes → List Bytes
onto_first c [] = (c ∷ []) ∷ []
onto_first c (p ∷ ps) = (c ∷ p) ∷ ps

-- `strings.Split` at a separator of one byte
unfoldable pub split : ℕ → Bytes → List Bytes
unfolding onto_first
split sep [] = [] ∷ []
split sep (c ∷ s) = let rest = split sep s in if c == sep then [] ∷ rest else onto_first c rest

pub record ServiceContext : Type 0 where
  pub user_id : Bytes
  pub service_name : Bytes
  pub instance_name : Bytes

unfoldable pub parse_service_context : TunnelData → ServiceContext
parse_service_context td =
    let parts = split b':' td.service_name in
    let token_parts = split b':' td.token in
    record {
      user_id = if ltb 1 (length token_parts) then part 0 token_parts else default_user_id;
      service_name = part 0 parts;
      instance_name = if ltb 1 (length parts) then part 1 parts else [];
    }

abbrev pub same : Bytes → Bytes → Bool
same a b = ite (bytes_dec a b) true false

unfoldable pub authorize_user : Option UserData → Bytes → TunnelData → Bool
authorize_user none service_name td = false
authorize_user (some u) service_name td = elim (get service_name u.services) [
  | none ↦ same td.token u.token
  | some s ↦ same td.token s.token
]

unfoldable pub authorize : Bytes → Bytes → TunnelData → MuxTunnelService → Bool
unfolding authorize_user
authorize user_id service_name td s =
    authorize_user (get user_id s.config_data.users) service_name td

-- The response that is encoded; the error is empty if there is none.
unfoldable pub response : TunnelData → Bytes → TunnelDataResponse
response td error = record {
  id = td.id;
  service_name = td.service_name;
  frontend_port = td.frontend_data.port;
  frontend_address = [];
  error = error;
}
